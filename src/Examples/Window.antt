-- ===== src/Examples/Window.antt =====
-- The theorems on the window at concrete values.
use lightvideo.Prelude.{ℕ, ◌+◌, ℕ, ◌⊎◌, ◌≡◌, List, [], ◌∷◌, Option, none, some, true, false, ltb}
use lightvideo.Net.Input.{pressed}
use lightvideo.Client.DoubleBuffer.{Frame}
use lightvideo.Client.Ui.{Turn, Event, window_event}
use lightvideo.Client.Ui.Surface.{
  Gpu, F64, Extent3d, WgpuState, opened, cursor_moved, keyboard_input, code, resized,
  redraw_requested, other_surface_error,
}
use lightvideo.Examples.Models.{keys}

abbrev f64 : F64
f64 = record { add = λ a b. a + b; c40 = 40 }

-- Formats from 5 on are sRGB.
abbrev gpu : Gpu
gpu = record {
  TextureFormat = ℕ;
  is_srgb = λ f. ltb 4 f;
  Texture = Extent3d;
  BindGroup = Extent3d;
  RenderPipeline = ℕ;
  create_texture = λ e. e;
  create_bind_group = λ t. t;
  create_render_pipeline = λ f. f;
}

abbrev screen : Extent3d
screen = record { width = 1920; height = 1088 }

abbrev small : Extent3d
small = record { width = 2; height = 1 }

abbrev window : WgpuState gpu
window = opened gpu screen 7

abbrev frame : ℕ → Frame
frame x = record { buffer = x ∷ x ∷ x ∷ 255 ∷ x ∷ x ∷ x ∷ 255 ∷ []; width = 2; height = 1 }

abbrev turn : Event keys → Option Frame → Turn keys
turn e f = record { quit = none; event = e; front = f; surface = none }

abbrev turns : List (Turn keys)
turns =
    turn (window_event redraw_requested) none
    ∷ turn (window_event (cursor_moved 100 200)) none
    ∷ turn (window_event redraw_requested) (some (frame 9))
    ∷ turn (window_event (resized 640 480)) (some (frame 9))
    ∷ record {
      quit = some false;
      event = window_event redraw_requested;
      front = some (frame 8);
      surface = some other_surface_error;
    }
    ∷ turn (window_event (keyboard_input (code 1) true pressed)) (some (frame 8))
    ∷ []

-- The buffers of the two frames.
OfFrames : List ℕ → Type 0
OfFrames b = (b ≡ (frame 8).buffer) ⊎ (b ≡ (frame 9).buffer)
