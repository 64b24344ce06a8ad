-- ===== src/Server/X11/Requests.antt =====
-- What `write_event` of server/src/input/x11.rs sends, on every branch.
use lightvideo.Prelude.{◌≡◌, ◌⊎◌, ◌≢◌, [], ◌∷◌, ok, arith}
use lightvideo.Net.Input.{LvInputEvent, KeyTable, get_element_state}
use lightvideo.Server.X11.{FakeInput, Xlib, write_event}

-- `write_event` succeeds exactly when it sends a request; then it sends one, which is the state
-- that it leaves, stamped with the current time. On every error and on the panic it sends none.
pub write_event_sends :
    (keys : KeyTable) (xlib : Xlib) (ev : LvInputEvent) (f : FakeInput)
    → let w = write_event keys xlib ev f in
      ((w.result ≡ ok tt) × (w.sent ≡ w.fake_input ∷ []) × (w.fake_input.time ≡ xlib.current_time))
      ⊎ ((w.result ≢ ok tt) × (w.sent ≡ []))
unfolding write_event get_element_state
write_event_sends keys xlib ev f = ground arith
