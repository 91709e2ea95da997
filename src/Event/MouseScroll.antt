-- ===== src/Event/MouseScroll.antt =====
-- evget/src/event/mouse_scroll.cpp: the builder of mouse scroll entries. A setter with the optional interval is
-- `with_interval_optional`.
use evget.Prelude.{String, Option, none, some, List, [], ◌∷◌, ◌++◌}
use evget.Prelude.Int.{ℤ}
use evget.Event.Enums.{
  DeviceType, ModifierValue, EntryType, to_underlying, to_underlying_optional, device_type_enum,
  modifier_value_enum,
}
use evget.Event.Format.{Formats, from_interval, from_timestamp, from_double, from_string, from_int}
use evget.Event.Data.{Data, add_entry}
use evget.Event.Builder.{BuilderHasBaseFields, BuilderHasWindowFunctions, BuilderHasScreenFunction}

pub record MouseScroll (D T : Type 0) : Type 0 where
  pub interval : Option ℤ
  pub timestamp : Option T
  pub device : Option DeviceType
  pub position_x : Option D
  pub position_y : Option D
  pub device_id : Option String
  pub vertical : Option D
  pub horizontal : Option D
  pub device_name : Option String
  pub focus_window_name : Option String
  pub focus_window_position_x : Option D
  pub focus_window_position_y : Option D
  pub focus_window_width : Option D
  pub focus_window_height : Option D
  pub screen : Option ℤ
  pub system_event : Option String
  pub event_source : Option String
  pub modifiers : List String

module _ {D T : Type 0} where
  abbrev pub empty : MouseScroll D T
  empty = record {
    interval = none;
    timestamp = none;
    device = none;
    position_x = none;
    position_y = none;
    device_id = none;
    vertical = none;
    horizontal = none;
    device_name = none;
    focus_window_name = none;
    focus_window_position_x = none;
    focus_window_position_y = none;
    focus_window_width = none;
    focus_window_height = none;
    screen = none;
    system_event = none;
    event_source = none;
    modifiers = [];
  }

  unfoldable pub with_interval : ℤ → MouseScroll D T → MouseScroll D T
  with_interval x b = record b { interval = some x }

  unfoldable pub with_interval_optional : Option ℤ → MouseScroll D T → MouseScroll D T
  with_interval_optional x b = record b { interval = x }

  unfoldable pub with_timestamp : T → MouseScroll D T → MouseScroll D T
  with_timestamp x b = record b { timestamp = some x }

  unfoldable pub with_device : DeviceType → MouseScroll D T → MouseScroll D T
  with_device x b = record b { device = some x }

  unfoldable pub with_position_x : D → MouseScroll D T → MouseScroll D T
  with_position_x x b = record b { position_x = some x }

  unfoldable pub with_position_y : D → MouseScroll D T → MouseScroll D T
  with_position_y x b = record b { position_y = some x }

  unfoldable pub with_vertical : D → MouseScroll D T → MouseScroll D T
  with_vertical x b = record b { vertical = some x }

  unfoldable pub with_horizontal : D → MouseScroll D T → MouseScroll D T
  with_horizontal x b = record b { horizontal = some x }

  unfoldable pub with_device_name : String → MouseScroll D T → MouseScroll D T
  with_device_name x b = record b { device_name = some x }

  unfoldable pub with_focus_window_name : String → MouseScroll D T → MouseScroll D T
  with_focus_window_name x b = record b { focus_window_name = some x }

  unfoldable pub with_focus_window_position_x : D → MouseScroll D T → MouseScroll D T
  with_focus_window_position_x x b = record b { focus_window_position_x = some x }

  unfoldable pub with_focus_window_position_y : D → MouseScroll D T → MouseScroll D T
  with_focus_window_position_y x b = record b { focus_window_position_y = some x }

  unfoldable pub with_focus_window_width : D → MouseScroll D T → MouseScroll D T
  with_focus_window_width x b = record b { focus_window_width = some x }

  unfoldable pub with_focus_window_height : D → MouseScroll D T → MouseScroll D T
  with_focus_window_height x b = record b { focus_window_height = some x }

  unfoldable pub with_device_id : String → MouseScroll D T → MouseScroll D T
  with_device_id x b = record b { device_id = some x }

  unfoldable pub with_modifier : ModifierValue → MouseScroll D T → MouseScroll D T
  unfolding to_underlying
  with_modifier m b = record b { modifiers = b.modifiers ++ to_underlying m ∷ [] }

  unfoldable pub with_screen : ℤ → MouseScroll D T → MouseScroll D T
  with_screen x b = record b { screen = some x }

  unfoldable pub with_system_event : String → MouseScroll D T → MouseScroll D T
  with_system_event x b = record b { system_event = some x }

  unfoldable pub with_event_source : String → MouseScroll D T → MouseScroll D T
  with_event_source x b = record b { event_source = some x }

  -- MouseScroll::Build
  unfoldable pub build : Formats D T → MouseScroll D T → Data → Data
  unfolding add_entry from_interval from_timestamp from_double from_string from_int
      to_underlying_optional
  build formats b d =
      add_entry d
        (record { entry_type = EntryType.mouse_scroll; values = values; modifiers = b.modifiers })
    where
      values : List String
      values =
          from_interval b.interval
          ∷ from_timestamp formats b.timestamp
          ∷ from_double formats b.position_x
          ∷ from_double formats b.position_y
          ∷ from_string b.device_name
          ∷ from_string b.focus_window_name
          ∷ from_double formats b.focus_window_position_x
          ∷ from_double formats b.focus_window_position_y
          ∷ from_double formats b.focus_window_width
          ∷ from_double formats b.focus_window_height
          ∷ from_int b.screen
          ∷ from_string b.device_id
          ∷ from_string b.system_event
          ∷ from_string b.event_source
          ∷ to_underlying_optional b.device
          ∷ from_double formats b.vertical
          ∷ from_double formats b.horizontal
          ∷ []

  instance abbrev pub mouse_scroll_base_fields : BuilderHasBaseFields T (MouseScroll D T)
  mouse_scroll_base_fields = record {
    timestamp = with_timestamp;
    interval = with_interval_optional;
    device = with_device;
    device_name = with_device_name;
    device_id = with_device_id;
    system_event = with_system_event;
    event_source = with_event_source;
    modifier = with_modifier;
  }

  instance abbrev pub mouse_scroll_window_functions : BuilderHasWindowFunctions D (MouseScroll D T)
  mouse_scroll_window_functions = record {
    focus_window_name = with_focus_window_name;
    focus_window_position_x = with_focus_window_position_x;
    focus_window_position_y = with_focus_window_position_y;
    focus_window_width = with_focus_window_width;
    focus_window_height = with_focus_window_height;
  }

  instance abbrev pub mouse_scroll_screen_function : BuilderHasScreenFunction (MouseScroll D T)
  mouse_scroll_screen_function = record { screen = with_screen }
