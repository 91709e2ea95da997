-- ===== src/X11/Api.antt =====
-- What the X11 backend calls: Xlib and XInput2, through the interface `X11Api` of
-- evgetx11/include/evgetx11/x11.h. A call may change the state `W` of the connection and the server.
-- The masks are those of the C headers X.h and XI2.h; their texts are parameters (`Labels`).
use evget.Prelude.{ℕ, ◌/◌, ◌%◌, ◌^◌, ◌==◌, String, Bool, Option, List}
use evget.Prelude.Int.{ℤ}
use evget.Event.Format.{Formats}

-- The event types of XInput2 that the backend names. `key_release` is XI_KeyRelease.
pub data EventType : Type 0 where
  device_changed hierarchy_changed key_release : EventType
  raw_key_press raw_key_release raw_button_press raw_button_release raw_motion : EventType
  raw_touch_begin raw_touch_update raw_touch_end : EventType
  other : ℕ → EventType

-- XIValuatorState: the bytes of the mask, and the array of values.
pub record ValuatorState (D : Type 0) : Type 0 where
  pub mask : List ℕ
  pub first_value : D
  pub more_values : List D

-- XIRawEvent. Xlib gives the event and its cookie the same type.
pub record RawEvent (D : Type 0) : Type 0 where
  pub evtype : EventType
  pub time : ℕ
  pub sourceid : ℤ
  pub detail : ℤ
  pub flags : ℕ
  pub valuators : ValuatorState D

-- `x & (1 << k)`
abbrev pub bit_set : ℕ → ℕ → Bool
bit_set x k = x / 2 ^ k % 2 == 1

-- XIPointerEmulated and XIKeyRepeat are the bit 16 of the flags.
abbrev pub pointer_emulated : ℕ → Bool
pointer_emulated flags = bit_set flags 16

abbrev pub key_repeat : ℕ → Bool
key_repeat flags = bit_set flags 16

pub data ScrollType : Type 0 where
  scroll_vertical scroll_horizontal : ScrollType

pub record ScrollClassInfo : Type 0 where
  pub number : ℤ
  pub scroll_type : ScrollType

pub record ValuatorClassInfo : Type 0 where
  pub number : ℤ
  pub label : ℕ

-- XIAnyClassInfo; a button class has as many labels as buttons.
pub data ClassInfo : Type 0 where
  button_class : List ℕ → ClassInfo
  scroll_class : ScrollClassInfo → ClassInfo
  valuator_class : ValuatorClassInfo → ClassInfo
  other_class : ClassInfo

-- XIDeviceInfo, whose classes are pointers
pub record Xi2DeviceInfo : Type 0 where
  pub deviceid : ℤ
  pub enabled : Bool
  pub classes : List (Option ClassInfo)

-- XDeviceInfo
pub record XDeviceInfo : Type 0 where
  pub id : ℕ
  pub type : ℕ
  pub name : String
  pub is_x_pointer : Bool

pub record XWindowDimensions : Type 0 where
  pub width : ℕ
  pub height : ℕ

-- QueryPointerResult; `effective` is `modifier_state.effective`
pub record QueryPointerResult (D : Type 0) : Type 0 where
  pub root_x : D
  pub root_y : D
  pub effective : ℕ
  pub screen_number : ℤ

-- X11Api. A null pointer is `none`, and the key symbol is an argument and a result.
pub record X11Api (D W : Type 0) : Type 0 where
  pub lookup_character : RawEvent D → QueryPointerResult D → ℕ → W → (String × ℕ) × W
  pub get_device_button_mapping : ℤ → ℕ → W → Option (List ℕ) × W
  pub list_input_devices : W → List XDeviceInfo × W
  pub query_device : W → List Xi2DeviceInfo × W
  pub atom_name : ℕ → W → Option String × W
  pub get_active_window : W → Option ℕ × W
  pub get_focus_window : W → Option ℕ × W
  pub get_window_name : ℕ → W → Option String × W
  pub get_window_size : ℕ → W → Option XWindowDimensions × W
  pub get_window_position : ℕ → W → Option XWindowDimensions × W
  pub query_pointer : ℤ → W → QueryPointerResult D × W

-- The texts of xserver-properties.h and XI.h that the backend compares with.
pub record Labels : Type 0 where
  pub button_wheel_up : String
  pub button_wheel_down : String
  pub button_hwheel_left : String
  pub button_hwheel_right : String
  pub abs_x : String
  pub rel_x : String
  pub abs_y : String
  pub rel_y : String
  pub xi_mouse : String
  pub xi_keyboard : String
  pub xi_touchpad : String
  pub xi_touchscreen : String
  pub xi_tablet : String

-- All that the transformer is given: the libraries, `double` with its text and the steps that the
-- code takes with it, the text of a time, the generator of UUIDs, XKeysymToString and XIMaskIsSet,
-- and the order in which an `unordered_map` is walked.
pub record Environment (D T W R : Type 0) : Type 0 where
  pub api : X11Api D W
  pub formats : Formats D T
  pub labels : Labels
  pub generate : R → String × R
  pub increment : D → D
  pub to_int : D → ℤ
  pub of_int : ℤ → D
  pub keysym_name : ℕ → Option String
  pub mask_is_set : List ℕ → ℕ → Bool
  pub walk : List (ℤ × ScrollClassInfo) → List (ℤ × ScrollClassInfo)
