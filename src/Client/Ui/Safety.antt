-- ===== src/Client/Ui/Safety.antt =====
-- The event loop of client/src/ui/mod.rs over the drawing of client/src/ui/wgpu_state.rs.
use lightvideo.Prelude.{ℕ, ◌≡◌, List, Outcome, ok}
use lightvideo.Net.Input.{KeyTable}
use lightvideo.Client.Ui.{VideoUi}
use lightvideo.Client.Ui.Surface.{Gpu, F64, Extent3d}
use lightvideo.Client.Ui.Drawing.{Valid}

module _ (gpu : Gpu) (size : Extent3d) (Shown : List ℕ → Type 0) (keys : KeyTable) (f64 : F64) where
  open gpu use {TextureFormat}

  abbrev Ui : Type 0
  Ui = VideoUi keys f64 gpu

  abbrev Stays : TextureFormat → Outcome Ui → Type 0
  Stays f r = (u : Ui) × (r ≡ ok u) × Valid gpu size Shown f u.state
