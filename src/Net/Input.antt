-- ===== src/Net/Input.antt =====
-- net/src/input.rs: the events that the client sends to the server.
pub mod Codes
use lightvideo.Prelude.{
  ℕ, zero, suc, ◌+◌, ◌<◌, ◌≡◌, max, Option, none, some, List, length, Bool, true, false, ◌==◌,
  if◌then◌else◌,
}

-- winit's enums.
pub data ElementState : Type 0 where
  pressed released : ElementState

pub data MouseButton : Type 0 where
  left right middle back forward : MouseButton
  other : ℕ → MouseButton

-- winit's `KeyCode`, an enum without fields: its discriminant as a byte, and its X11 scancode.
pub record KeyTable : Type 1 where
  pub KeyCode : Type 0
  pub to_u8 : KeyCode → ℕ
  pub from_u8 : ℕ → KeyCode
  pub to_scancode : KeyCode → Option ℕ

pub record LvKeyboardEvent : Type 0 where
  pub key_code : ℕ
  pub state : ℕ

pub record LvMouseClickEvent : Type 0 where
  pub button : ℕ
  pub state : ℕ

pub record LvMouseWheelEvent : Type 0 where

-- An `f64` is its bit pattern.
pub record LvMouseMoveEvent : Type 0 where
  pub x : ℕ
  pub y : ℕ

pub data LvInputEvent : Type 0 where
  keyboard_event : LvKeyboardEvent → LvInputEvent
  mouse_click_event : LvMouseClickEvent → LvInputEvent
  mouse_wheel_event : LvMouseWheelEvent → LvInputEvent
  mouse_move_event : LvMouseMoveEvent → LvInputEvent

pub data LvInputEventType : Type 0 where
  keyboard mouse_click mouse_wheel mouse_move : LvInputEventType

-- `as u8`
abbrev pub type_byte : LvInputEventType → ℕ
type_byte keyboard = 0
type_byte mouse_click = 1
type_byte mouse_wheel = 2
type_byte mouse_move = 3

-- `LVInputEventType::try_from`, which the derive of `IntEnum` writes.
abbrev pub try_from : ℕ → Option LvInputEventType
try_from zero = some keyboard
try_from (suc zero) = some mouse_click
try_from (suc (suc zero)) = some mouse_wheel
try_from (suc (suc (suc zero))) = some mouse_move
try_from (suc (suc (suc (suc n)))) = none

-- `size_of` and `align_of` of the four `repr(C)` structs.
abbrev pub size_of : LvInputEventType → ℕ
size_of keyboard = 2
size_of mouse_click = 8
size_of mouse_wheel = 0
size_of mouse_move = 16

abbrev pub align_of : LvInputEventType → ℕ
align_of keyboard = 1
align_of mouse_click = 4
align_of mouse_wheel = 1
align_of mouse_move = 8

abbrev pub max_align : ℕ
max_align = max (align_of keyboard) (
    max (align_of keyboard)
      (max (align_of mouse_click) (max (align_of mouse_wheel) (align_of mouse_move))))

abbrev pub input_packet_size : ℕ
input_packet_size =
    max (size_of keyboard) (
      max (size_of keyboard)
        (max (size_of mouse_click) (max (size_of mouse_wheel) (size_of mouse_move))))
    + max_align

abbrev pub state_code : ElementState → ℕ
state_code pressed = 0
state_code released = 1

-- `get_element_state`, the same for a key and for a button.
unfoldable pub get_element_state : ℕ → Option ElementState
get_element_state zero = some pressed
get_element_state (suc zero) = some released
get_element_state (suc (suc n)) = none

abbrev pub button_code : MouseButton → ℕ
button_code left = 0
button_code right = 1
button_code middle = 2
button_code back = 3
button_code forward = 4
button_code (other n) = 5

-- `LVMouseClickEvent::new`
unfoldable pub new_click : MouseButton → ElementState → LvMouseClickEvent
new_click btn st = record { button = button_code btn; state = state_code st }

unfoldable pub get_button : LvMouseClickEvent → Option MouseButton
get_button e =
    if e.button == 0
    then some left
    else if e.button == 1
    then some right
    else if e.button == 2
    then some middle
    else if e.button == 3
    then some back
    else if e.button == 4
    then some forward
    else none

module _ (keys : KeyTable) where
  open keys use {KeyCode, to_u8, from_u8}

  -- `LVKeyboardEvent::new`
  unfoldable pub new_key : KeyCode → ElementState → LvKeyboardEvent
  new_key k st = record { key_code = to_u8 k; state = state_code st }

  unfoldable pub get_key_code : LvKeyboardEvent → KeyCode
  get_key_code e = from_u8 e.key_code
