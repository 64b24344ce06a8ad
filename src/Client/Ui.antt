-- ===== src/Client/Ui.antt =====
-- client/src/ui/mod.rs: the event loop of the window.
pub mod Surface
pub mod Drawing
pub mod Safety
use lightvideo.Prelude.{
  ℕ, ◌+◌, List, [], ◌∷◌, Option, none, some, Bool, true, false, Outcome, ok, ◌>>=◌, if◌then◌else◌,
}
use lightvideo.Net.Input.{KeyTable}
use lightvideo.Client.DoubleBuffer.{Frame}
use lightvideo.Client.Ui.Surface.{
  Gpu, F64, SurfaceError, out_of_memory, WindowEvent, resized, close_requested, redraw_requested,
  keyboard_input, is_escape_press, WgpuState, input, resize, update, render,
}

-- What `winit` calls the closure with.
pub data Event (keys : KeyTable) : Type 0 where
  window_event : WindowEvent keys → Event keys
  about_to_wait other_event : Event keys

-- One call of the closure: what `quit_rx.try_recv()` answers, with `none` for an `Err`, the event,
-- the front frame at that time, and the error of the surface, if it has one.
pub record Turn (keys : KeyTable) : Type 0 where
  pub quit : Option Bool
  pub event : Event keys
  pub front : Option Frame
  pub surface : Option SurfaceError

module _ (keys : KeyTable) (f64 : F64) (gpu : Gpu) where
  -- The state of the closure, whether it has asked `winit` to exit, and its requests to redraw.
  pub record VideoUi : Type 0 where
    pub state : WgpuState gpu
    pub exiting : Bool
    pub redraws : ℕ

  abbrev pub exit : VideoUi → VideoUi
  exit u = record u { exiting = true }

  abbrev pub check_quit : Option Bool → VideoUi → VideoUi
  check_quit (some true) u = exit u
  check_quit (some false) u = u
  check_quit none u = u

  -- The `match` on the result of `render`.
  abbrev pub rendered : VideoUi → WgpuState gpu × Option SurfaceError → VideoUi
  rendered u (s, none) = record u { state = s }
  rendered u (s, some out_of_memory) = record u { state = s; exiting = true }
  rendered u (s, some e) = record u { state = s }

  -- The `match` on an event that `input` has not taken.
  abbrev pub on_window_event : Turn keys → WindowEvent keys → VideoUi → Outcome VideoUi
  on_window_event t (resized w h) u = ok (record u { state = resize gpu w h u.state })
  on_window_event t close_requested u = ok (exit u)
  on_window_event t redraw_requested u = do
    r ← render gpu t.front t.surface (update gpu u.state)
    ok (rendered u r)
  on_window_event t e u = ok (if is_escape_press keys e then exit u else u)

  abbrev pub on_event : Turn keys → Event keys → VideoUi → Outcome VideoUi
  on_event t (window_event e) u =
      let (taken, s) = input keys f64 gpu e u.state in
      (if taken then ok (record u { state = s }) else on_window_event t e (record u { state = s }))
  on_event t about_to_wait u = ok (record u { redraws = u.redraws + 1 })
  on_event t other_event u = ok u

  -- The closure that `run` hands to `winit`.
  unfoldable pub on_turn : Turn keys → VideoUi → Outcome VideoUi
  on_turn t u = on_event t t.event (check_quit t.quit u)

  -- `eloop.run`: the closure is called until it has asked to exit.
  unfoldable pub run : List (Turn keys) → VideoUi → Outcome VideoUi
  unfolding on_turn
  run [] u = ok u
  run (t ∷ ts) u = if u.exiting then ok u else (on_turn t u >>= run ts)
