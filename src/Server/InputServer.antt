-- ===== src/Server/InputServer.antt =====
-- server/src/server/input_server.rs: the thread that turns datagrams back into events.
use lightvideo.Prelude.{
  ℕ, ◌+◌, List, [], ◌∷◌, ◌++◌, Option, none, some, Outcome, ok, err, panic, ◌>>=◌, slice, index,
  fill_front, Bool, true, false, replicate,
}
use lightvideo.Net.Input.{
  LvInputEvent, keyboard_event, mouse_click_event, mouse_wheel_event, mouse_move_event, keyboard,
  mouse_click, mouse_wheel, mouse_move, try_from, max_align, size_of, LvInputEventType, KeyTable,
  input_packet_size,
}
use lightvideo.Net.Pod.{Bytemuck}
use lightvideo.Server.X11.{FakeInput, Xlib, write_event}

module _ (pods : Bytemuck) where
  open pods use {key, click, wheel, move}

  -- The `match input_variant`.
  unfoldable pub read_event : LvInputEventType → List ℕ → Outcome LvInputEvent
  read_event keyboard buf = do
    b ← slice buf max_align (size_of keyboard + max_align)
    ok (keyboard_event (key.from_bytes b))
  read_event mouse_click buf = do
    b ← slice buf max_align (size_of mouse_click + max_align)
    ok (mouse_click_event (click.from_bytes b))
  read_event mouse_wheel buf = do
    b ← slice buf max_align (size_of mouse_wheel + max_align)
    ok (mouse_wheel_event (wheel.from_bytes b))
  read_event mouse_move buf = do
    b ← slice buf max_align (size_of mouse_move + max_align)
    ok (mouse_move_event (move.from_bytes b))

  -- An unknown type byte is logged and the datagram dropped.
  unfoldable pub decode_variant : Option LvInputEventType → List ℕ → Outcome (Option LvInputEvent)
  unfolding read_event
  decode_variant none buf = ok none
  decode_variant (some t) buf = do ev ← read_event t buf; ok (some ev)

  unfoldable pub decode_buffer : List ℕ → Outcome (Option LvInputEvent)
  unfolding decode_variant
  decode_buffer buf = do t ← index buf 0; decode_variant (try_from t) buf

abbrev pub ping : List ℕ
ping = 1 ∷ 0 ∷ 0 ∷ 0 ∷ []

-- The emulator, the receive buffer and all requests sent so far.
pub record Receiver : Type 0 where
  pub buf : List ℕ
  pub fake_input : FakeInput
  pub requests : List FakeInput

-- The function up to its thread: whether the socket can be bound, and the emulator that it is given.
-- The pings go to `input_target_addr`, and an error of `send_to` is dropped.
unfoldable pub start_receive_loop : Bool → FakeInput → Outcome (List (List ℕ) × Receiver)
start_receive_loop false fake_input = panic
start_receive_loop true fake_input = ok (
  replicate 5 ping,
  record { buf = replicate input_packet_size 0; fake_input = fake_input; requests = [] },
)

module _ (keys : KeyTable) (xlib : Xlib) (pods : Bytemuck) where
  -- An error of `write_event` is dropped by the caller; a panic ends the thread.
  unfoldable pub apply_event : Option LvInputEvent → Receiver → Outcome Receiver
  apply_event none r = ok r
  apply_event (some ev) r =
      let w = write_event keys xlib ev r.fake_input in
      let r' : Receiver = record r { fake_input = w.fake_input; requests = r.requests ++ w.sent } in
      elim w.result [ ok u ↦ ok r' | err e ↦ ok r' | panic ↦ panic ]

  -- One round of the loop; `none` is an error of `recv_from`. A datagram longer than the buffer is
  -- cut, and behind a shorter one the buffer keeps its old bytes.
  unfoldable pub receive_round : Option (List ℕ) → Receiver → Outcome Receiver
  unfolding apply_event
  receive_round none r = ok r
  receive_round (some datagram) r = do
    let buf = fill_front r.buf datagram
    ev ← decode_buffer pods buf
    apply_event ev (record r { buf = buf })

  unfoldable pub receive_loop : List (Option (List ℕ)) → Receiver → Outcome Receiver
  unfolding receive_round
  receive_loop [] r = ok r
  receive_loop (d ∷ ds) r = receive_round d r >>= receive_loop ds
