-- ===== src/LibInput/Examples.antt =====
-- Runs of the transformer of evgetlibinput/src/event_transformer.cpp on a small machine: two devices,
-- events that carry their own numbers, and a keyboard that remembers its last key.
use evget.Prelude.{
  ℕ, suc, ◌-◌, ◌≡◌, refl, Bool, true, false, Option, none, some, [], ◌∷◌, ◌==◌, ==_iff, no_entries,
  to_string, inl,
}
use evget.Prelude.Int.{ℤ, pos}
use evget.Event.Format.{from_double}
use evget.DeviceId
use evget.DeviceId.Stability.{Decides}
use evget.LibInput.Api.{
  EventType, pressed, tip_down, proximity_in, ModifierName, name_shift, LibInputApi, XkbCommon,
  Environment,
}
use evget.LibInput.State.{State}
use evget.LibInput.Values.{InputEvent}
use evget.LibInput.Transformer.{transform_event}
use evget.Event.Enums.{mouse_move, mouse_click}
use evget.LibInput.EntryTypes.{entry_types, transform_event-types}
use evget.Prelude.{◌+◌, length, returns}
use evget.Error.{ok}
use evget.Event.Enums.{touchpad, device_type_enum}
use evget.Event.Data.{add_entry}
use evget.Event.MouseMove
use evget.Event.MouseClick
use evget.LibInput.Values.{get_device_type}
use evget.Storage.Store.{Store}
use evget.Storage.Filter
use evget.Pipeline.{transform_event-filtered}
use evget.LibInput.Contexts.{transform_event-Explained, Explained}
use evget.LibInput.Runs.{run, uuid_of}
use evget.LibInput.Devices.{uuid_of-run}
use evget.LibInput.Motion.{absolute_motion-difference, positions}
use evget.LibInput.TouchPositions.{touch-positions}

-- An event of the machine: its type, its device, its time, its coordinates and its seat slot.
record Sample : Type 0 where
  kind : EventType
  source : Option ℕ
  time : ℕ
  x : ℕ
  y : ℕ
  slot : ℤ

abbrev sample_api : LibInputApi ℕ
sample_api = record {
  Event = Sample;
  Device = ℕ;
  Pointer = Sample;
  Tool = Sample;
  Pad = Sample;
  Touch = Sample;
  Keyboard = Sample;
  get_event_type = λ e. e.kind;
  get_pointer_event = λ e. e;
  get_pointer_time = λ e. e.time;
  get_pointer_dx = λ e. e.x;
  get_pointer_dy = λ e. e.y;
  get_pointer_absolute_x = λ e w. e.x;
  get_pointer_absolute_y = λ e w. e.y;
  get_pointer_button = λ e. e.x;
  get_pointer_button_state = λ e. pressed;
  get_pointer_has_axis = λ e a. true;
  get_pointer_scroll_value = λ e a. e.y;
  get_device = λ e. e.source;
  same_device = λ j k. j == k;
  get_device_finger_count = λ d. pos d;
  device_has_capability = λ d c. true;
  get_device_name = λ d. to_string (pos d);
  get_tablet_tool_event = λ e. e;
  get_tablet_tool_time = λ e. e.time;
  get_tablet_tool_dx = λ e. e.x;
  get_tablet_tool_dy = λ e. e.y;
  get_tablet_tool_button = λ e. e.x;
  get_tablet_tool_button_state = λ e. pressed;
  get_tablet_tool_tip_state = λ e. tip_down;
  get_tablet_tool_proximity_state = λ e. proximity_in;
  get_tablet_pad_event = λ e. e;
  get_tablet_pad_time = λ e. e.time;
  get_tablet_pad_button_number = λ e. e.x;
  get_tablet_pad_button_state = λ e. pressed;
  get_tablet_pad_key = λ e. e.x;
  get_tablet_pad_key_state = λ e. pressed;
  get_touch_event = λ e. e;
  get_touch_time = λ e. e.time;
  get_touch_x = λ e w. e.x;
  get_touch_y = λ e w. e.y;
  get_touch_seat_slot = λ e. e.slot;
  get_keyboard_event = λ e. e;
  get_keyboard_time = λ e. e.time;
  get_keyboard_key = λ e. e.x;
  get_keyboard_key_state = λ e. pressed;
}

shift_only : ModifierName → Bool
shift_only name_shift = true
shift_only _ = false

-- The state of the keyboard is its last key.
abbrev sample_keyboard : XkbCommon ℕ
sample_keyboard = record {
  get_key_name = λ code x. some (to_string (pos code));
  get_key_character = λ code x. none;
  is_modifier_active = λ m x. shift_only m;
  update_key_state = λ code direction x. code;
}

abbrev sample_environment : Environment ℕ ℕ ℕ ℕ
sample_environment = record {
  api = sample_api;
  xkb = sample_keyboard;
  formats = record {
    double_to_string = λ d. to_string (pos d);
    format_timestamp = λ t. to_string (pos t);
  };
  subtract = λ a b. a - b;
  generate = λ r. (to_string (pos r), suc r);
  event_code_name = λ code. none;
  width = 100;
  height = 100;
}

abbrev start : State ℕ ℕ ℕ ℕ
start = record {
  device_ids = DeviceId.empty;
  previous_absolute_x = no_entries;
  previous_absolute_y = no_entries;
  previous_touch_x = no_entries;
  previous_touch_y = no_entries;
  device_intervals = no_entries;
  keyboard = 0;
  random = 7;
}

abbrev sample : EventType → ℕ → ℕ → ℕ → ℕ → Sample
sample kind device time x y = record {
  kind = kind;
  source = some device;
  time = time;
  x = x;
  y = y;
  slot = pos 3;
}

abbrev input : Sample → InputEvent ℕ Sample
input e = record { timestamp = e.time; view_data = some e }

decides : Decides sample_api.same_device
decides = ==_iff

abbrev motion_1 : Sample
motion_1 = sample EventType.pointer_motion_absolute 1 10 5 6

abbrev motion_2 : Sample
motion_2 = sample EventType.pointer_motion_absolute 1 30 9 8

abbrev key_press : Sample
key_press = sample EventType.keyboard_key 2 20 42 0

abbrev touch_1 : Sample
touch_1 = sample EventType.touch_down 1 10 5 6

abbrev touch_2 : Sample
touch_2 = sample EventType.touch_motion 1 30 9 8

transform_event-Explained_example :
    Explained sample_environment
      (input motion_1)
      start
      (transform_event sample_environment (input motion_1) start).0.entries
transform_event-Explained_example =
    transform_event-Explained sample_environment (input motion_1) start

transform_event-types_example :
    entry_types (transform_event sample_environment (input touch_1) start).0
    ≡ mouse_move ∷ mouse_click ∷ []
transform_event-types_example = transform_event-types sample_environment (input touch_1) start

uuid_of-run_example :
    uuid_of sample_environment 1 (
      run sample_environment
        (input key_press ∷ [])
        (transform_event sample_environment (input motion_1) start).1)
    ≡ uuid_of sample_environment 1 start
uuid_of-run_example =
    uuid_of-run sample_environment decides (input motion_1) motion_1 1 start (input key_press ∷ [])
      (refl, refl)

absolute_motion-difference_example :
    positions
      (transform_event sample_environment (input motion_2) (
        run sample_environment
          (input key_press ∷ [])
          (transform_event sample_environment (input motion_1) start).1)).0
    ≡ (some (to_string (pos 4)), some (to_string (pos 2))) ∷ []
unfolding to_string from_double
absolute_motion-difference_example =
    absolute_motion-difference sample_environment decides 1 (input motion_1) (input motion_2)
      motion_1 motion_2 (input key_press ∷ []) start (refl, refl) refl (refl, tt) (refl, refl) refl

touch-positions_example :
    positions
      (transform_event sample_environment (input touch_2) (
        run sample_environment
          (input key_press ∷ [])
          (transform_event sample_environment (input touch_1) start).1)).0
    ≡ (some (to_string (pos 4)), some (to_string (pos 2))) ∷ []
unfolding to_string from_double
touch-positions_example =
    touch-positions sample_environment decides 1 (input touch_1) (input touch_2) touch_1 touch_2
      (input key_press ∷ []) start (refl, refl) refl (inl refl, tt) (refl, refl) refl refl

-- A store that counts entries.
abbrev tally : Store ℕ
tally = record { store_event = λ d w. (returns (ok tt), w + length d.entries) }

transform_event-filtered_example :
    Filter.store_event tally
      (some (touchpad ∷ []))
      (transform_event sample_environment (input touch_1) start).0
      5
    ≡ (returns (ok tt), 7)
unfolding transform_event MouseMove.build MouseClick.build add_entry device_type_enum
    Filter.contains get_device_type
transform_event-filtered_example =
    transform_event-filtered sample_environment tally (touchpad ∷ []) (input touch_1) touch_1 1
      start 5 (refl, refl)
