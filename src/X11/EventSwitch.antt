-- ===== src/X11/EventSwitch.antt =====
-- evgetx11/src/event_switch.cpp and the templates of its header: what the switches share.
use evget.Prelude.{
  ℕ, String, Bool, Option, none, some, List, [], ◌∷◌, insert, is_some, length, if◌then◌else◌, ◌==◌,
  Throws, returns, ◌>>=◌,
}
use evget.Prelude.Int.{ℤ, pos, same_int}
use evget.Event.Enums.{
  DeviceType, keyboard, ButtonAction, ModifierValue, shift, caps_lock, control, alt, num_lock, mod3,
  super, mod5,
}
use evget.Event.Data.{Data}
use evget.Event.Builder.{BuilderHasBaseFields, BuilderHasWindowFunctions, BuilderHasScreenFunction}
use evget.Event.MouseClick
use evget.Event.MouseClick.{
  MouseClick, mouse_click_base_fields, mouse_click_window_functions, mouse_click_screen_function,
}
use evget.Event.MouseMove
use evget.Event.MouseMove.{
  MouseMove, mouse_move_base_fields, mouse_move_window_functions, mouse_move_screen_function,
}
use evget.DeviceId
use evget.X11.Api.{
  Environment, EventType, RawEvent, QueryPointerResult, XWindowDimensions, Xi2DeviceInfo, ClassInfo,
  button_class, bit_set,
}
use evget.X11.State.{EventSwitch, State, at, emplace, inner_map, call, get_time}

abbrev pub event_source_name : String
event_source_name = "x11"

module _ {W R : Type 0} where
  -- GetDevice
  unfoldable pub get_device : ℤ → EventType → State W R → Throws DeviceType
  get_device device_id EventType.raw_key_press s = returns keyboard
  get_device device_id EventType.raw_key_release s = returns keyboard
  get_device device_id _ s = at s.event_switch.devices device_id

  -- HasDevice
  unfoldable pub has_device : ℤ → State W R → Bool
  has_device device_id s = is_some (s.event_switch.devices device_id)

  -- GetButtonName
  unfoldable pub get_button_name : ℤ → ℤ → State W R → Throws String
  get_button_name device_id button s =
      at s.event_switch.button_map device_id >>= λ buttons. at buttons button

module _ {D T W R : Type 0} (env : Environment D T W R) where
  open env use {api, formats, generate, of_int}

  abbrev pub S : Type 0
  S = State W R

  -- One `if` of SetModifierValue.
  abbrev set_bit : {B : Type 0} ⦃b : BuilderHasBaseFields T B⦄ → ℕ → ℕ → ModifierValue → B → B
  set_bit ⦃b⦄ modifier_state k value builder =
      if bit_set modifier_state k then b.modifier value builder else builder

  -- SetModifierValue
  unfoldable pub set_modifier_value : {B : Type 0} ⦃b : BuilderHasBaseFields T B⦄ → ℕ → B → B
  set_modifier_value ⦃b⦄ m builder = set_bit m 7 mod5 (
      set_bit m 6 super (
        set_bit m 5 mod3 (
          set_bit m 4 num_lock (
            set_bit m 3 alt
              (set_bit m 2 control (set_bit m 1 caps_lock (set_bit m 0 shift builder)))))))

  -- The active window, or else the window with the focus.
  abbrev pub find_window : S → Option ℕ × S
  find_window s =
      let (active, s1) = call api.get_active_window s in
      elim active [ some window ↦ (some window, s1) | none ↦ call api.get_focus_window s1 ]

  -- GetDeviceUuid
  unfoldable pub get_device_uuid : ℤ → S → String × S
  get_device_uuid device_id s =
      let (id, ids, random) =
        DeviceId.uuid same_int generate device_id s.event_switch.device_ids s.random in
      (id, record s { event_switch = record s.event_switch { device_ids = ids }; random = random })

  -- QueryPointerForDevice
  unfoldable pub query_pointer_for_device : S → QueryPointerResult D × S
  query_pointer_for_device s = call (api.query_pointer s.event_switch.pointer_id) s

  module _ {B : Type 0} ⦃w : BuilderHasWindowFunctions D B⦄ where
    abbrev pub set_window_name : Option String → B → B
    set_window_name none builder = builder
    set_window_name (some name) builder = w.focus_window_name name builder

    abbrev pub set_window_position : Option XWindowDimensions → B → B
    set_window_position none builder = builder
    set_window_position (some d) builder =
        w.focus_window_position_y (of_int (pos d.height))
          (w.focus_window_position_x (of_int (pos d.width)) builder)

    abbrev pub set_window_size : Option XWindowDimensions → B → B
    set_window_size none builder = builder
    set_window_size (some d) builder =
        w.focus_window_height (of_int (pos d.height))
          (w.focus_window_width (of_int (pos d.width)) builder)

    abbrev pub set_fields_of : Option ℕ → B → S → B × S
    set_fields_of none builder s = (builder, s)
    set_fields_of (some window) builder s =
        let (name, s1) = call (api.get_window_name window) s in
        let (position, s2) = call (api.get_window_position window) s1 in
        let (size, s3) = call (api.get_window_size window) s2 in
        (set_window_size size (set_window_position position (set_window_name name builder)), s3)

    -- SetWindowFields
    unfoldable pub set_window_fields : B → S → B × S
    set_window_fields builder s =
        let (window, s1) = find_window s in set_fields_of window builder s1

  module _ {B : Type 0} ⦃b : BuilderHasBaseFields T B⦄ ⦃w : BuilderHasWindowFunctions D B⦄
      ⦃c : BuilderHasScreenFunction B⦄ where
    -- SetDeviceNameFields
    unfoldable pub set_device_name_fields : RawEvent D → ℤ → B → S → Throws B
    set_device_name_fields event screen builder s =
        at s.event_switch.id_to_name event.sourceid >>= λ name.
        returns (c.screen screen (b.device_name name builder))

    -- The calls that every method makes on its builder; setters of different fields commute.
    unfoldable pub set_fields :
        RawEvent D → T → String → QueryPointerResult D → B → S → Throws (B × S)
    unfolding get_device get_time get_device_uuid set_modifier_value set_window_fields
        set_device_name_fields
    set_fields event date_time system_event query_pointer builder s =
        let (elapsed, s1) = get_time event.sourceid event.time s in
        get_device event.sourceid event.evtype s1 >>= λ device.
        let (id, s2) = get_device_uuid event.sourceid s1 in
        let based = b.event_source event_source_name (
          b.system_event system_event (
            b.device_id id
              (b.device device (b.timestamp date_time (b.interval elapsed builder))))) in
        let (windowed, s3) =
          set_window_fields (set_modifier_value query_pointer.effective based) s2 in
        set_device_name_fields event query_pointer.screen_number windowed s3 >>= λ named.
        returns (named, s3)

  -- AddMotionEvent
  unfoldable pub add_motion_event : RawEvent D → T → String → Data → S → Throws (Data × S)
  unfolding set_fields query_pointer_for_device
  add_motion_event event date_time system_event d s =
      let (query_pointer, s1) = query_pointer_for_device s in
      let builder =
        MouseMove.with_position_y query_pointer.root_y
          (MouseMove.with_position_x query_pointer.root_x MouseMove.empty) in
      set_fields event date_time system_event query_pointer builder s1 >>= λ r.
      returns (MouseMove.build formats r.0 d, r.1)

  abbrev text_of : Option String → String
  text_of none = ""
  text_of (some name) = name

  -- button_map_[id][button]: a missing name is made, and is empty.
  abbrev pub mapped_name : ℤ → ℤ → S → String × S
  mapped_name id button s =
      let buttons = inner_map s.event_switch.button_map id in
      let name = text_of (buttons button) in
      (
        name,
        record s {
          event_switch = record s.event_switch {
            button_map =
                insert same_int id (insert same_int button name buttons) s.event_switch.button_map;
          };
        },
      )

  -- AddButtonEvent
  unfoldable pub add_button_event :
      RawEvent D → T → ButtonAction → ℤ → String → Data → S → Throws (Data × S)
  unfolding set_fields query_pointer_for_device
  add_button_event event date_time action button system_event d s =
      let (query_pointer, s1) = query_pointer_for_device s in
      let (name, s2) = mapped_name event.sourceid button s1 in
      let builder = MouseClick.with_button_name name (
        MouseClick.with_button button (
          MouseClick.with_action action (
            MouseClick.with_position_y query_pointer.root_y
              (MouseClick.with_position_x query_pointer.root_x MouseClick.empty)))) in
      set_fields event date_time system_event query_pointer builder s2 >>= λ r.
      returns (MouseClick.build formats r.0 d, r.1)

  -- The loop of SetButtonMap over the labels and the buttons that they stand for.
  unfoldable pub name_buttons : ℤ → List ℕ → List ℕ → S → S
  name_buttons device_id [] map s = s
  name_buttons device_id (label ∷ labels) [] s = s
  name_buttons device_id (label ∷ labels) (button_index ∷ map) s =
      let (name, s1) = call (api.atom_name label) s in
      let named = record s1 {
        event_switch = record s1.event_switch {
          button_map =
              insert same_int device_id
                (insert same_int (pos button_index) (text_of name)
                  (inner_map s1.event_switch.button_map device_id))
                s1.event_switch.button_map;
        };
      } in
      let skipped = name_buttons device_id labels map s in
      let rest = name_buttons device_id labels map named in if label == 0 then skipped else rest

  -- The rest of SetButtonMap, once the mapping is there.
  abbrev pub name_mapped : ℤ → List ℕ → Option (List ℕ) → S → S
  name_mapped device_id labels none s = s
  name_mapped device_id labels (some map) s = name_buttons device_id labels map s

  -- SetButtonMap
  unfoldable pub set_button_map : List ℕ → ℤ → S → S
  unfolding name_buttons
  set_button_map labels device_id s =
      let (map_buf, s1) = call (api.get_device_button_mapping device_id (length labels)) s in
      name_mapped device_id labels map_buf s1

  -- The first button class.
  unfoldable pub find_buttons : List (Option ClassInfo) → Option (List ℕ)
  find_buttons [] = none
  find_buttons (some (button_class labels) ∷ classes) = some labels
  find_buttons (_ ∷ classes) = find_buttons classes

  -- The end of RefreshDevices: a button class with buttons is mapped.
  abbrev pub map_buttons : Option (List ℕ) → ℤ → S → S
  map_buttons none device_id s = s
  map_buttons (some []) device_id s = s
  map_buttons (some labels) device_id s = set_button_map labels device_id s

  abbrev pub set_pointer_id : Option ℤ → EventSwitch → EventSwitch
  set_pointer_id none e = e
  set_pointer_id (some id) e = record e { pointer_id = id }

  -- EventSwitch::RefreshDevices
  unfoldable pub refresh_devices : ℤ → Option ℤ → DeviceType → String → Xi2DeviceInfo → S → S
  unfolding find_buttons set_button_map
  refresh_devices device_id pointer_id device name info s =
      let e = set_pointer_id pointer_id s.event_switch in
      map_buttons (find_buttons info.classes) info.deviceid (record s {
        event_switch = record e {
          devices = emplace device_id device e.devices;
          id_to_name = emplace device_id name e.id_to_name;
        };
      })
