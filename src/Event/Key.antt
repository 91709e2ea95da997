-- ===== src/Event/Key.antt =====
-- evget/src/event/key.cpp: the builder of key entries. A setter with the optional interval is
-- `with_interval_optional`.
use evget.Prelude.{String, Option, none, some, List, [], ◌∷◌, ◌++◌}
use evget.Prelude.Int.{ℤ}
use evget.Event.Enums.{
  DeviceType, ButtonAction, ModifierValue, EntryType, to_underlying, to_underlying_optional,
  device_type_enum, button_action_enum, modifier_value_enum,
}
use evget.Event.Format.{Formats, from_interval, from_timestamp, from_double, from_string, from_int}
use evget.Event.Data.{Data, add_entry}
use evget.Event.Builder.{
  BuilderHasBaseFields, BuilderHasButtonName, BuilderHasWindowFunctions, BuilderHasScreenFunction,
}

pub record Key (D T : Type 0) : Type 0 where
  pub interval : Option ℤ
  pub timestamp : Option T
  pub device : Option DeviceType
  pub position_x : Option D
  pub position_y : Option D
  pub device_id : Option String
  pub action : Option ButtonAction
  pub button : Option ℤ
  pub name : Option String
  pub character : Option String
  pub device_name : Option String
  pub focus_window_name : Option String
  pub focus_window_position_x : Option D
  pub focus_window_position_y : Option D
  pub focus_window_width : Option D
  pub focus_window_height : Option D
  pub screen : Option ℤ
  pub system_event : Option String
  pub event_source : Option String
  pub modifiers : List String

module _ {D T : Type 0} where
  abbrev pub empty : Key D T
  empty = record {
    interval = none;
    timestamp = none;
    device = none;
    position_x = none;
    position_y = none;
    device_id = none;
    action = none;
    button = none;
    name = none;
    character = none;
    device_name = none;
    focus_window_name = none;
    focus_window_position_x = none;
    focus_window_position_y = none;
    focus_window_width = none;
    focus_window_height = none;
    screen = none;
    system_event = none;
    event_source = none;
    modifiers = [];
  }

  unfoldable pub with_interval : ℤ → Key D T → Key D T
  with_interval x b = record b { interval = some x }

  unfoldable pub with_interval_optional : Option ℤ → Key D T → Key D T
  with_interval_optional x b = record b { interval = x }

  unfoldable pub with_timestamp : T → Key D T → Key D T
  with_timestamp x b = record b { timestamp = some x }

  unfoldable pub with_device : DeviceType → Key D T → Key D T
  with_device x b = record b { device = some x }

  unfoldable pub with_position_x : D → Key D T → Key D T
  with_position_x x b = record b { position_x = some x }

  unfoldable pub with_position_y : D → Key D T → Key D T
  with_position_y x b = record b { position_y = some x }

  unfoldable pub with_action : ButtonAction → Key D T → Key D T
  with_action x b = record b { action = some x }

  unfoldable pub with_button : ℤ → Key D T → Key D T
  with_button x b = record b { button = some x }

  unfoldable pub with_button_name : String → Key D T → Key D T
  with_button_name x b = record b { name = some x }

  unfoldable pub with_character : String → Key D T → Key D T
  with_character x b = record b { character = some x }

  unfoldable pub with_device_name : String → Key D T → Key D T
  with_device_name x b = record b { device_name = some x }

  unfoldable pub with_focus_window_name : String → Key D T → Key D T
  with_focus_window_name x b = record b { focus_window_name = some x }

  unfoldable pub with_focus_window_position_x : D → Key D T → Key D T
  with_focus_window_position_x x b = record b { focus_window_position_x = some x }

  unfoldable pub with_focus_window_position_y : D → Key D T → Key D T
  with_focus_window_position_y x b = record b { focus_window_position_y = some x }

  unfoldable pub with_focus_window_width : D → Key D T → Key D T
  with_focus_window_width x b = record b { focus_window_width = some x }

  unfoldable pub with_focus_window_height : D → Key D T → Key D T
  with_focus_window_height x b = record b { focus_window_height = some x }

  unfoldable pub with_screen : ℤ → Key D T → Key D T
  with_screen x b = record b { screen = some x }

  unfoldable pub with_device_id : String → Key D T → Key D T
  with_device_id x b = record b { device_id = some x }

  unfoldable pub with_modifier : ModifierValue → Key D T → Key D T
  unfolding to_underlying
  with_modifier m b = record b { modifiers = b.modifiers ++ to_underlying m ∷ [] }

  unfoldable pub with_system_event : String → Key D T → Key D T
  with_system_event x b = record b { system_event = some x }

  unfoldable pub with_event_source : String → Key D T → Key D T
  with_event_source x b = record b { event_source = some x }

  -- Key::Build
  unfoldable pub build : Formats D T → Key D T → Data → Data
  unfolding add_entry from_interval from_timestamp from_double from_string from_int
      to_underlying_optional
  build formats b d =
      add_entry d (record { entry_type = EntryType.key; values = values; modifiers = b.modifiers })
    where
      values : List String
      values =
          from_interval b.interval
          ∷ from_timestamp formats b.timestamp
          ∷ from_double formats b.position_x
          ∷ from_double formats b.position_y
          ∷ from_string b.device_name
          ∷ from_string b.focus_window_name
          ∷ from_double formats b.focus_window_position_x
          ∷ from_double formats b.focus_window_position_y
          ∷ from_double formats b.focus_window_width
          ∷ from_double formats b.focus_window_height
          ∷ from_int b.screen
          ∷ from_string b.device_id
          ∷ from_string b.system_event
          ∷ from_string b.event_source
          ∷ to_underlying_optional b.device
          ∷ from_int b.button
          ∷ from_string b.name
          ∷ from_string b.character
          ∷ to_underlying_optional b.action
          ∷ []

  instance abbrev pub key_base_fields : BuilderHasBaseFields T (Key D T)
  key_base_fields = record {
    timestamp = with_timestamp;
    interval = with_interval_optional;
    device = with_device;
    device_name = with_device_name;
    device_id = with_device_id;
    system_event = with_system_event;
    event_source = with_event_source;
    modifier = with_modifier;
  }

  instance abbrev pub key_button_name : BuilderHasButtonName (Key D T)
  key_button_name = record { button_name = with_button_name }

  instance abbrev pub key_window_functions : BuilderHasWindowFunctions D (Key D T)
  key_window_functions = record {
    focus_window_name = with_focus_window_name;
    focus_window_position_x = with_focus_window_position_x;
    focus_window_position_y = with_focus_window_position_y;
    focus_window_width = with_focus_window_width;
    focus_window_height = with_focus_window_height;
  }

  instance abbrev pub key_screen_function : BuilderHasScreenFunction (Key D T)
  key_screen_function = record { screen = with_screen }
