-- ===== src/LibInput/Api.antt =====
-- What the libinput backend calls: the C libraries libinput, xkbcommon and libevdev, through the
-- interfaces of evgetlibinput/include/evgetlibinput/libinput.h and xkbcommon.h. The constants are
-- those of the C headers that the backend names.
use evget.Prelude.{ℕ, String, Bool, Option}
use evget.Prelude.Int.{ℤ}
use evget.Event.Format.{Formats}

-- libinput_event_type
pub data EventType : Type 0 where
  pointer_motion pointer_motion_absolute pointer_button : EventType
  pointer_scroll_wheel pointer_scroll_finger pointer_scroll_continuous : EventType
  tablet_tool_proximity tablet_tool_axis tablet_tool_tip tablet_tool_button : EventType
  tablet_pad_button tablet_pad_ring tablet_pad_strip tablet_pad_key : EventType
  touch_down touch_motion touch_cancel touch_up : EventType
  keyboard_key : EventType
  other : ℕ → EventType

pub data Capability : Type 0 where
  cap_touch cap_pointer : Capability

pub data Axis : Type 0 where
  scroll_vertical scroll_horizontal : Axis

-- libinput_button_state, libinput_key_state, tip and proximity states
pub data PressState : Type 0 where
  released pressed : PressState

pub data TipState : Type 0 where
  tip_up tip_down : TipState

pub data ProximityState : Type 0 where
  proximity_out proximity_in : ProximityState

pub data KeyDirection : Type 0 where
  key_up key_down : KeyDirection

-- The modifier names that xkbcommon is asked for.
pub data ModifierName : Type 0 where
  name_shift name_caps name_ctrl name_alt name_num name_mod3 name_super name_mod5 : ModifierName

-- LibInputApi. Events and their views are opaque, and a null pointer is `none`.
pub record LibInputApi (D : Type 0) : Type 1 where
  pub Event : Type 0
  pub Device : Type 0
  pub Pointer : Type 0
  pub Tool : Type 0
  pub Pad : Type 0
  pub Touch : Type 0
  pub Keyboard : Type 0
  pub get_event_type : Event → EventType
  pub get_pointer_event : Event → Pointer
  pub get_pointer_time : Pointer → ℕ
  pub get_pointer_dx : Pointer → D
  pub get_pointer_dy : Pointer → D
  pub get_pointer_absolute_x : Pointer → ℕ → D
  pub get_pointer_absolute_y : Pointer → ℕ → D
  pub get_pointer_button : Pointer → ℕ
  pub get_pointer_button_state : Pointer → PressState
  pub get_pointer_has_axis : Pointer → Axis → Bool
  pub get_pointer_scroll_value : Pointer → Axis → D
  pub get_device : Event → Option Device
  pub same_device : Device → Device → Bool
  pub get_device_finger_count : Device → ℤ
  pub device_has_capability : Device → Capability → Bool
  pub get_device_name : Device → String
  pub get_tablet_tool_event : Event → Tool
  pub get_tablet_tool_time : Tool → ℕ
  pub get_tablet_tool_dx : Tool → D
  pub get_tablet_tool_dy : Tool → D
  pub get_tablet_tool_button : Tool → ℕ
  pub get_tablet_tool_button_state : Tool → PressState
  pub get_tablet_tool_tip_state : Tool → TipState
  pub get_tablet_tool_proximity_state : Tool → ProximityState
  pub get_tablet_pad_event : Event → Pad
  pub get_tablet_pad_time : Pad → ℕ
  pub get_tablet_pad_button_number : Pad → ℕ
  pub get_tablet_pad_button_state : Pad → PressState
  pub get_tablet_pad_key : Pad → ℕ
  pub get_tablet_pad_key_state : Pad → PressState
  pub get_touch_event : Event → Touch
  pub get_touch_time : Touch → ℕ
  pub get_touch_x : Touch → ℕ → D
  pub get_touch_y : Touch → ℕ → D
  pub get_touch_seat_slot : Touch → ℤ
  pub get_keyboard_event : Event → Keyboard
  pub get_keyboard_time : Keyboard → ℕ
  pub get_keyboard_key : Keyboard → ℕ
  pub get_keyboard_key_state : Keyboard → PressState

-- XkbCommon, over the keyboard state `X` that the C library keeps.
pub record XkbCommon (X : Type 0) : Type 0 where
  pub get_key_name : ℕ → X → Option String
  pub get_key_character : ℕ → X → Option String
  pub is_modifier_active : ModifierName → X → Bool
  pub update_key_state : ℕ → KeyDirection → X → X

-- All that the transformer is given: the libraries, `double` with its text and its subtraction, the
-- text of a time, the generator of UUIDs, and the dimensions of the screen.
pub record Environment (D T X R : Type 0) : Type 1 where
  pub api : LibInputApi D
  pub xkb : XkbCommon X
  pub formats : Formats D T
  pub subtract : D → D → D
  pub generate : R → String × R
  -- libevdev_event_code_get_name of the type EV_KEY
  pub event_code_name : ℕ → Option String
  pub width : ℕ
  pub height : ℕ
