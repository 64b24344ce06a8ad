-- ===== src/Net/Input/Codes.antt =====
-- The number codes of net/src/input.rs: what `new` encodes, the getters decode.
use lightvideo.Prelude.{◌≡◌, refl, Option, none, some}
use lightvideo.Net.Input.{
  ElementState, pressed, released, MouseButton, left, right, middle, back, forward, other,
  state_code, LvInputEventType, keyboard, mouse_click, mouse_wheel, mouse_move, type_byte, try_from,
  get_element_state, new_click, get_button,
}

-- What the wire keeps of a button: `Other(_)` is lost.
abbrev pub known_button : MouseButton → Option MouseButton
known_button (other n) = none
known_button left = some left
known_button right = some right
known_button middle = some middle
known_button back = some back
known_button forward = some forward

pub get_element_state-state_code : (st : ElementState) → get_element_state (state_code st) ≡ some st
unfolding get_element_state
get_element_state-state_code pressed = refl
get_element_state-state_code released = refl

-- A click that `LVMouseClickEvent::new` encoded gives its state back, and its button back, unless
-- that is `Other(_)`, for which `get_button` answers `None`.
pub get_button-new_click :
    (btn : MouseButton) (st : ElementState)
    → (get_button (new_click btn st) ≡ known_button btn)
      × (get_element_state (new_click btn st).state ≡ some st)
unfolding get_button new_click
get_button-new_click left st = (refl, get_element_state-state_code st)
get_button-new_click right st = (refl, get_element_state-state_code st)
get_button-new_click middle st = (refl, get_element_state-state_code st)
get_button-new_click back st = (refl, get_element_state-state_code st)
get_button-new_click forward st = (refl, get_element_state-state_code st)
get_button-new_click (other n) st = (refl, get_element_state-state_code st)

pub try_from-type_byte : (t : LvInputEventType) → try_from (type_byte t) ≡ some t
try_from-type_byte keyboard = refl
try_from-type_byte mouse_click = refl
try_from-type_byte mouse_wheel = refl
try_from-type_byte mouse_move = refl
