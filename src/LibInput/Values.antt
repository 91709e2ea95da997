-- ===== src/LibInput/Values.antt =====
-- The small functions of evgetlibinput/src/event_transformer.cpp: actions, directions and the type of
-- a device.
use evget.Prelude.{ℕ, zero, suc, Bool, true, false, Option, none, some, if◌then◌else◌}
use evget.Prelude.Int.{ℤ, pos, negsuc, signed}
use evget.Event.Enums.{
  DeviceType, unknown, keyboard, tablet, touchpad, touchscreen, mouse, ButtonAction, press, release,
}
use evget.LibInput.Api.{
  LibInputApi, EventType, PressState, TipState, KeyDirection, released, pressed, tip_up, tip_down,
  key_up, key_down, cap_touch, cap_pointer,
}

-- evget/include/evget/input_event.h
pub record InputEvent (T E : Type 0) : Type 0 where
  pub timestamp : T
  pub view_data : Option E

-- GetButtonAction and GetKeyAction
unfoldable pub get_button_action : PressState → ButtonAction
get_button_action pressed = press
get_button_action released = release

unfoldable pub get_key_action : PressState → ButtonAction
get_key_action pressed = press
get_key_action released = release

unfoldable pub get_tip_action : TipState → ButtonAction
get_tip_action tip_down = press
get_tip_action tip_up = release

unfoldable pub get_xkb_direction : PressState → KeyDirection
get_xkb_direction pressed = key_down
get_xkb_direction released = key_up

-- static_cast<int> of a 32-bit unsigned number
abbrev pub to_int : ℕ → ℤ
to_int n = signed 32 n

unfoldable pub positive : ℤ → Bool
positive (pos zero) = false
positive (pos (suc n)) = true
positive (negsuc n) = false

module _ {D : Type 0} (api : LibInputApi D) where
  -- The part of GetDeviceType that asks the device.
  unfoldable pub get_capability_type : Option api.Device → DeviceType
  unfolding positive
  get_capability_type none = unknown
  get_capability_type (some device) =
      if positive (api.get_device_finger_count device)
      then touchpad
      else if api.device_has_capability device cap_touch
      then touchscreen
      else if api.device_has_capability device cap_pointer
      then mouse
      else unknown

  unfoldable pub get_device_type : Option api.Event → EventType → DeviceType
  unfolding get_capability_type
  get_device_type none event_type = unknown
  get_device_type (some event) EventType.keyboard_key = keyboard
  get_device_type (some event) EventType.tablet_pad_key = keyboard
  get_device_type (some event) EventType.tablet_tool_axis = tablet
  get_device_type (some event) EventType.tablet_tool_proximity = tablet
  get_device_type (some event) EventType.tablet_tool_tip = tablet
  get_device_type (some event) EventType.tablet_tool_button = tablet
  get_device_type (some event) EventType.tablet_pad_button = tablet
  get_device_type (some event) EventType.tablet_pad_ring = tablet
  get_device_type (some event) EventType.tablet_pad_strip = tablet
  get_device_type (some event) _ = get_capability_type (api.get_device event)
