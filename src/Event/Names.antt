-- ===== src/Event/Names.antt =====
-- The names of enumerators in evget/include/evget/event/schema.h: `FromDevice`, `FromButtonAction`,
-- `FromModifierValue`, `FromEntryType`, each through `OptionalToString`.
use evget.Prelude.{String, Option, none, some}
use evget.Event.Enums.{
  DeviceType, mouse, keyboard, touchpad, touchscreen, tablet, unknown, ButtonAction, press, release,
  repeat, ModifierValue, shift, caps_lock, control, alt, num_lock, mod3, super, mod5, EntryType,
  key, mouse_click, mouse_move, mouse_scroll,
}

-- schema.h, OptionalToString
abbrev pub optional_to_string {ℓ} : {A : Type ℓ} → Option A → (A → String) → String
optional_to_string none function = ""
optional_to_string (some a) function = function a

device_name_of : DeviceType → String
device_name_of mouse = "Mouse"
device_name_of keyboard = "Keyboard"
device_name_of touchpad = "Touchpad"
device_name_of touchscreen = "Touchscreen"
device_name_of tablet = "Tablet"
device_name_of unknown = "Unknown"
device_name_of (DeviceType.unnamed n) = ""

unfoldable pub from_device : Option DeviceType → String
unfolding device_name_of
from_device o = optional_to_string o device_name_of

button_action_name : ButtonAction → String
button_action_name press = "Press"
button_action_name release = "Release"
button_action_name repeat = "Repeat"
button_action_name (ButtonAction.unnamed n) = ""

unfoldable pub from_button_action : Option ButtonAction → String
unfolding button_action_name
from_button_action o = optional_to_string o button_action_name

modifier_value_name : ModifierValue → String
modifier_value_name shift = "Shift"
modifier_value_name caps_lock = "CapsLock"
modifier_value_name control = "Control"
modifier_value_name alt = "Alt"
modifier_value_name num_lock = "NumLock"
modifier_value_name mod3 = "Mod3"
modifier_value_name super = "Super"
modifier_value_name mod5 = "Mod5"
modifier_value_name (ModifierValue.unnamed n) = ""

unfoldable pub from_modifier_value : Option ModifierValue → String
unfolding modifier_value_name
from_modifier_value o = optional_to_string o modifier_value_name

entry_type_name : EntryType → String
entry_type_name key = "Key"
entry_type_name mouse_move = "MouseMove"
entry_type_name mouse_click = "MouseClick"
entry_type_name mouse_scroll = "MouseScroll"

unfoldable pub from_entry_type : Option EntryType → String
unfolding entry_type_name
from_entry_type o = optional_to_string o entry_type_name
