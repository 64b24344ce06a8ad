-- ===== src/Net/Pod.antt =====
-- The memory images of the event structs of net/src/input.rs, which the crate `bytemuck` gives out
-- and reads back. The crate is not modelled: its two functions are a parameter.
use lightvideo.Prelude.{ℕ, ◌^◌, ◌<◌, ◌≡◌, List, length}
use lightvideo.Net.Input.{
  LvKeyboardEvent, LvMouseClickEvent, LvMouseWheelEvent, LvMouseMoveEvent, LvInputEvent,
  keyboard_event, mouse_click_event, mouse_wheel_event, mouse_move_event, size_of, keyboard,
  mouse_click, mouse_wheel, mouse_move,
}

-- `bytes_of` and `from_bytes` at one struct of `size` bytes; `Fits` is what its field types hold.
pub record Pod (A : Type 0) (Fits : A → Type 0) (size : ℕ) : Type 0 where
  pub bytes_of : A → List ℕ
  pub from_bytes : List ℕ → A
  pub length-bytes_of : (a : A) → length (bytes_of a) ≡ size
  pub from_bytes-bytes_of : (a : A) → Fits a → from_bytes (bytes_of a) ≡ a

abbrev pub KeyFits : LvKeyboardEvent → Type 0
KeyFits e = (e.key_code < 256) × (e.state < 256)

abbrev pub ClickFits : LvMouseClickEvent → Type 0
ClickFits e = (e.button < 2 ^ 32) × (e.state < 2 ^ 32)

abbrev pub WheelFits : LvMouseWheelEvent → Type 0
WheelFits e = Unit {0}

abbrev pub MoveFits : LvMouseMoveEvent → Type 0
MoveFits e = (e.x < 2 ^ 64) × (e.y < 2 ^ 64)

abbrev pub EventFits : LvInputEvent → Type 0
EventFits (keyboard_event e) = KeyFits e
EventFits (mouse_click_event e) = ClickFits e
EventFits (mouse_wheel_event e) = WheelFits e
EventFits (mouse_move_event e) = MoveFits e

pub record Bytemuck : Type 0 where
  pub key : Pod LvKeyboardEvent KeyFits (size_of keyboard)
  pub click : Pod LvMouseClickEvent ClickFits (size_of mouse_click)
  pub wheel : Pod LvMouseWheelEvent WheelFits (size_of mouse_wheel)
  pub move : Pod LvMouseMoveEvent MoveFits (size_of mouse_move)
