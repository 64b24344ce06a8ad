-- ===== src/Client/Input.antt =====
-- client/src/decoder/input.rs: the thread that turns events into datagrams.
use lightvideo.Prelude.{
  ℕ, List, [], ◌∷◌, set, replicate, Option, none, some, Outcome, ok, ◌>>=◌, copy_into, fill_front,
}
use lightvideo.Net.Input.{
  LvInputEvent, keyboard_event, mouse_click_event, mouse_wheel_event, mouse_move_event, keyboard,
  mouse_click, mouse_wheel, mouse_move, type_byte, max_align, input_packet_size,
}
use lightvideo.Net.Pod.{Bytemuck}

abbrev pub new_buffer : List ℕ
new_buffer = replicate input_packet_size 0

module _ (pods : Bytemuck) where
  open pods use {key, click, wheel, move}

  -- The `match ev` with the store of the type byte around it.
  unfoldable pub fill_buffer : LvInputEvent → List ℕ → Outcome (List ℕ)
  fill_buffer (keyboard_event e) buf = do
    buf ← copy_into buf max_align (key.bytes_of e)
    ok (set buf 0 (type_byte keyboard))
  fill_buffer (mouse_click_event e) buf = do
    buf ← copy_into buf max_align (click.bytes_of e)
    ok (set buf 0 (type_byte mouse_click))
  fill_buffer (mouse_wheel_event e) buf = do
    buf ← copy_into buf max_align (wheel.bytes_of e)
    ok (set buf 0 (type_byte mouse_wheel))
  fill_buffer (mouse_move_event e) buf = do
    buf ← copy_into buf max_align (move.bytes_of e)
    ok (set buf 0 (type_byte mouse_move))

  -- One round of the loop: `recv()` gives an event or an error, and the buffer is sent either way.
  unfoldable pub send_round : Option LvInputEvent → List ℕ → Outcome (List ℕ)
  send_round none buf = ok buf
  send_round (some ev) buf = fill_buffer ev buf

  -- The datagrams of a run of rounds.
  unfoldable pub send_loop : List (Option LvInputEvent) → List ℕ → Outcome (List (List ℕ))
  send_loop [] buf = ok []
  send_loop (r ∷ rs) buf = do buf ← send_round r buf; rest ← send_loop rs buf; ok (buf ∷ rest)

  -- The thread: nothing is sent if the read of the ping fails. Else the ping stands at the front of
  -- the buffer when the loop begins, and all datagrams go to the address that it came from.
  unfoldable pub input_thread :
      Option (List ℕ) → List (Option LvInputEvent) → Outcome (List (List ℕ))
  unfolding send_loop
  input_thread none rounds = ok []
  input_thread (some ping) rounds = send_loop rounds (fill_front new_buffer ping)
