-- ===== src/Event/Enumerators.antt =====
-- The texts of enumerators in evget/include/evget/event/schema.h, read back.
use evget.Prelude.{◌≡◌, refl, Bool, true, false, Option, none, some, returns, arith}
use evget.Event.Enums.{
  DeviceType, mouse, keyboard, touchpad, touchscreen, tablet, unknown, ButtonAction, press, release,
  repeat, ModifierValue, shift, caps_lock, control, alt, num_lock, mod3, super, mod5,
  device_type_enum, button_action_enum, modifier_value_enum, to_underlying, to_underlying_optional,
  from_underlying,
}

-- The values of an enumeration that have a name.
abbrev pub is_device : DeviceType → Bool
is_device (DeviceType.unnamed n) = false
is_device _ = true

abbrev pub is_action : ButtonAction → Bool
is_action (ButtonAction.unnamed n) = false
is_action _ = true

abbrev pub is_modifier : ModifierValue → Bool
is_modifier (ModifierValue.unnamed n) = false
is_modifier _ = true

abbrev pub is_device_optional : Option DeviceType → Bool
is_device_optional none = true
is_device_optional (some d) = is_device d

pub device-read :
    (d : DeviceType) → is_device d ≡ true → from_underlying (to_underlying d) ≡ returns (some d)
unfolding from_underlying to_underlying device_type_enum
device-read mouse h = refl
device-read keyboard h = refl
device-read touchpad h = refl
device-read touchscreen h = refl
device-read tablet h = refl
device-read unknown h = refl
device-read (DeviceType.unnamed n) h = ground arith

pub action-read :
    (a : ButtonAction) → is_action a ≡ true → from_underlying (to_underlying a) ≡ returns (some a)
unfolding from_underlying to_underlying button_action_enum
action-read press h = refl
action-read release h = refl
action-read repeat h = refl
action-read (ButtonAction.unnamed n) h = ground arith

pub modifier-read :
    (m : ModifierValue)
    → is_modifier m ≡ true
    → from_underlying (to_underlying m) ≡ returns (some m)
unfolding from_underlying to_underlying modifier_value_enum
modifier-read shift h = refl
modifier-read caps_lock h = refl
modifier-read control h = refl
modifier-read alt h = refl
modifier-read num_lock h = refl
modifier-read mod3 h = refl
modifier-read super h = refl
modifier-read mod5 h = refl
modifier-read (ModifierValue.unnamed n) h = ground arith

-- An optional device type, as a builder writes it, is read back.
pub device_optional-read :
    (o : Option DeviceType)
    → is_device_optional o ≡ true
    → from_underlying (to_underlying_optional o) ≡ returns o
unfolding to_underlying_optional from_underlying
device_optional-read none h = refl
device_optional-read (some d) h = device-read d h

abbrev pub is_action_optional : Option ButtonAction → Bool
is_action_optional none = true
is_action_optional (some a) = is_action a

pub action_optional-read :
    (o : Option ButtonAction)
    → is_action_optional o ≡ true
    → from_underlying (to_underlying_optional o) ≡ returns o
unfolding to_underlying_optional from_underlying
action_optional-read none h = refl
action_optional-read (some a) h = action-read a h
