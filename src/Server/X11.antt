-- ===== src/Server/X11.antt =====
-- server/src/input/x11.rs: input events as XTest requests.
pub mod Requests
use lightvideo.Prelude.{
  ℕ, ◌+◌, ◌%◌, ◌≡◌, List, [], ◌∷◌, Bool, true, false, Option, none, some, ltb, if◌then◌else◌,
  Outcome, ok, err, panic, Error, bad_event, no_scancode, scancode_range,
}
use lightvideo.Net.Input.{
  ElementState, pressed, released, MouseButton, left, right, middle, back, forward, other,
  LvInputEvent, keyboard_event, mouse_click_event, mouse_wheel_event, mouse_move_event,
  LvKeyboardEvent, LvMouseClickEvent, LvMouseMoveEvent, KeyTable, get_element_state, get_button,
  get_key_code,
}

pub record FakeInput : Type 0 where
  pub kind : ℕ
  pub detail : ℕ
  pub time : ℕ
  pub root : ℕ
  pub root_x : ℕ
  pub root_y : ℕ
  pub deviceid : ℕ

-- The constants of the crate `x11`, and the cast `f64 as i16` on the bit patterns.
pub record Xlib : Type 0 where
  pub key_press : ℕ
  pub key_release : ℕ
  pub button_press : ℕ
  pub button_release : ℕ
  pub motion_notify : ℕ
  pub current_time : ℕ
  pub as_i16 : ℕ → ℕ

-- The emulator's state after the call, the requests sent, and what the call returns.
pub record Written : Type 0 where
  pub fake_input : FakeInput
  pub sent : List FakeInput
  pub result : Outcome (Unit {0})

abbrev pub stop : FakeInput → Outcome (Unit {0}) → Written
stop f r = record { fake_input = f; sent = []; result = r }

-- left is 1, middle 2, right 3, back 8 and forward 9 as the comment in the source has it; the code
-- sends 2 for right and 3 for middle.
abbrev pub button_detail : MouseButton → Option ℕ
button_detail left = some 1
button_detail right = some 2
button_detail middle = some 3
button_detail back = some 8
button_detail forward = some 9
button_detail (other n) = none

module _ (keys : KeyTable) (xlib : Xlib) where
  -- After the `match`: set the time and send the request. Its reply is only logged.
  unfoldable pub send_request : FakeInput → Written
  send_request f =
      let f' = record f { time = xlib.current_time } in
      record { fake_input = f'; sent = f' ∷ []; result = ok tt }

  -- `detail` is set from the scancode, which must fit a byte, and shifted by 8.
  unfoldable pub write_scancode : Option ℕ → FakeInput → Written
  unfolding send_request
  write_scancode none f = stop f (err no_scancode)
  write_scancode (some c) f =
      if ltb c 256
      then send_request (record f { detail = (c + 8) % 256 })
      else stop f (err scancode_range)

  unfoldable pub write_key : LvKeyboardEvent → FakeInput → Written
  unfolding write_scancode
  write_key e f = elim (get_element_state e.state) [
    | none ↦ stop f (err bad_event)
    | some pressed ↦
        write_scancode (keys.to_scancode (get_key_code keys e)) (record f { kind = xlib.key_press })
    | some released ↦
        write_scancode (keys.to_scancode (get_key_code keys e))
          (record f { kind = xlib.key_release })
  ]

  unfoldable pub write_button : Option MouseButton → FakeInput → Written
  unfolding send_request
  write_button none f = stop f (err bad_event)
  write_button (some b) f = elim (button_detail b) [
    | none ↦ stop f (err bad_event)
    | some d ↦ send_request (record f { detail = d })
  ]

  unfoldable pub write_click : LvMouseClickEvent → FakeInput → Written
  unfolding write_button
  write_click e f = elim (get_element_state e.state) [
    | none ↦ stop f (err bad_event)
    | some pressed ↦ write_button (get_button e) (record f { kind = xlib.button_press })
    | some released ↦ write_button (get_button e) (record f { kind = xlib.button_release })
  ]

  unfoldable pub write_move : LvMouseMoveEvent → FakeInput → Written
  unfolding send_request
  write_move e f = send_request (record f {
    kind = xlib.motion_notify;
    detail = 0;
    root_x = xlib.as_i16 e.x;
    root_y = xlib.as_i16 e.y;
  })

  -- `unimplemented!()` on a wheel event is a panic.
  unfoldable pub write_event : LvInputEvent → FakeInput → Written
  unfolding write_key write_click write_move
  write_event (keyboard_event e) f = write_key e f
  write_event (mouse_click_event e) f = write_click e f
  write_event (mouse_wheel_event e) f = stop f panic
  write_event (mouse_move_event e) f = write_move e f
