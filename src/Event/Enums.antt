-- ===== src/Event/Enums.antt =====
-- The enumerations device_type.h, button_action.h, modifier_value.h and `EntryType` of entry.h, and
-- their conversion to and from the underlying integer as text, in schema.h. An enumeration has one
-- constructor more, `unnamed n`, for the integers that a cast makes and that have no enumerator.
use evget.Prelude.{
  ℕ, ◌≡◌, refl, String, Option, none, some, ◌==◌, if◌then◌else◌, str_eq, to_string, stoi, Throws,
  returns, ◌>>=◌,
}
use evget.Prelude.Int.{pos, wrap}

pub data DeviceType : Type 0 where
  mouse keyboard touchpad touchscreen tablet unknown : DeviceType
  unnamed : ℕ → DeviceType

pub data ButtonAction : Type 0 where
  press release repeat : ButtonAction
  unnamed : ℕ → ButtonAction

pub data ModifierValue : Type 0 where
  shift caps_lock control alt num_lock mod3 super mod5 : ModifierValue
  unnamed : ℕ → ModifierValue

pub data EntryType : Type 0 where
  key mouse_click mouse_move mouse_scroll : EntryType

-- static_cast between an enumeration and its underlying `std::uint8_t`
pub record Enum (E : Type 0) : Type 0 where
  pub of_ℕ : ℕ → E
  pub to_ℕ : E → ℕ

device_type_of_ℕ : ℕ → DeviceType
device_type_of_ℕ n =
    if n == 0
    then mouse
    else if n == 1
    then keyboard
    else if n == 2
    then touchpad
    else if n == 3
    then touchscreen
    else if n == 4
    then tablet
    else if n == 5
    then unknown
    else DeviceType.unnamed n

device_type_to_ℕ : DeviceType → ℕ
device_type_to_ℕ mouse = 0
device_type_to_ℕ keyboard = 1
device_type_to_ℕ touchpad = 2
device_type_to_ℕ touchscreen = 3
device_type_to_ℕ tablet = 4
device_type_to_ℕ unknown = 5
device_type_to_ℕ (DeviceType.unnamed n) = n

button_action_of_ℕ : ℕ → ButtonAction
button_action_of_ℕ n =
    if n == 0
    then press
    else if n == 1
    then release
    else if n == 2
    then repeat
    else ButtonAction.unnamed n

button_action_to_ℕ : ButtonAction → ℕ
button_action_to_ℕ press = 0
button_action_to_ℕ release = 1
button_action_to_ℕ repeat = 2
button_action_to_ℕ (ButtonAction.unnamed n) = n

modifier_value_of_ℕ : ℕ → ModifierValue
modifier_value_of_ℕ n =
    if n == 0
    then shift
    else if n == 1
    then caps_lock
    else if n == 2
    then control
    else if n == 3
    then alt
    else if n == 4
    then num_lock
    else if n == 5
    then mod3
    else if n == 6
    then super
    else if n == 7
    then mod5
    else ModifierValue.unnamed n

modifier_value_to_ℕ : ModifierValue → ℕ
modifier_value_to_ℕ shift = 0
modifier_value_to_ℕ caps_lock = 1
modifier_value_to_ℕ control = 2
modifier_value_to_ℕ alt = 3
modifier_value_to_ℕ num_lock = 4
modifier_value_to_ℕ mod3 = 5
modifier_value_to_ℕ super = 6
modifier_value_to_ℕ mod5 = 7
modifier_value_to_ℕ (ModifierValue.unnamed n) = n

instance unfoldable pub device_type_enum : Enum DeviceType
unfolding device_type_of_ℕ device_type_to_ℕ
device_type_enum = record { of_ℕ = device_type_of_ℕ; to_ℕ = device_type_to_ℕ }

instance unfoldable pub button_action_enum : Enum ButtonAction
unfolding button_action_of_ℕ button_action_to_ℕ
button_action_enum = record { of_ℕ = button_action_of_ℕ; to_ℕ = button_action_to_ℕ }

instance unfoldable pub modifier_value_enum : Enum ModifierValue
unfolding modifier_value_of_ℕ modifier_value_to_ℕ
modifier_value_enum = record { of_ℕ = modifier_value_of_ℕ; to_ℕ = modifier_value_to_ℕ }

module _ {E : Type 0} ⦃e : Enum E⦄ where
  -- schema.h, ToUnderlying
  unfoldable pub to_underlying : E → String
  unfolding to_string
  to_underlying x = to_string (pos (e.to_ℕ x))

  -- schema.h, ToUnderlyingOptional
  unfoldable pub to_underlying_optional : Option E → String
  unfolding to_underlying
  to_underlying_optional none = ""
  to_underlying_optional (some x) = to_underlying x

  -- schema.h, FromUnderlying; the cast keeps the low eight bits
  unfoldable pub from_underlying : String → Throws (Option E)
  unfolding stoi
  from_underlying value =
      if str_eq value ""
      then returns none
      else stoi value >>= λ n. returns (some (e.of_ℕ (wrap 8 n)))

from_underlying_of_keyboard : from_underlying {E = DeviceType} "1" ≡ returns (some keyboard)
unfolding from_underlying device_type_enum
from_underlying_of_keyboard = refl
