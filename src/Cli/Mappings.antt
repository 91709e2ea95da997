-- ===== src/Cli/Mappings.antt =====
-- The enumerated options of evget/src/cli.cpp and their names.
use evget.Prelude.{String, Option, none, some, List, [], ◌∷◌, str_eq, if◌then◌else◌}
use evget.Event.Enums.{DeviceType, mouse, keyboard, touchpad, touchscreen, tablet}

pub data EventSource : Type 0 where
  lib_input x11 windows : EventSource

-- spdlog::level::level_enum
pub data Level : Type 0 where
  trace debug info warn error critical off : Level

-- mappings.contains(key) and mappings.at(key) of a std::map
unfoldable pub find : {V : Type 0} → String → List (String × V) → Option V
find key [] = none
find key (entry ∷ entries) =
    let rest = find key entries in if str_eq key entry.0 then some entry.1 else rest

-- EventSourceMappings
unfoldable pub event_source_mappings : List (String × EventSource)
event_source_mappings = ("libinput", lib_input) ∷ ("x11", x11) ∷ ("windows", windows) ∷ []

-- ToString
unfoldable pub to_string : EventSource → String
to_string lib_input = "libinput"
to_string x11 = "x11"
to_string windows = "windows"

-- LogLevelMappings
unfoldable pub log_level_mappings : List (String × Level)
log_level_mappings =
    ("trace", trace)
    ∷ ("debug", debug)
    ∷ ("info", info)
    ∷ ("warn", warn)
    ∷ ("error", error)
    ∷ ("critical", critical)
    ∷ ("off", off)
    ∷ []

-- DeviceTypeMappings
unfoldable pub device_type_mappings : List (String × DeviceType)
device_type_mappings =
    ("mouse", mouse)
    ∷ ("keyboard", keyboard)
    ∷ ("touchpad", touchpad)
    ∷ ("touchscreen", touchscreen)
    ∷ ("tablet", tablet)
    ∷ []

-- EventSourceDescriptions, LogLevelDescriptions and DeviceTypeDescriptions
unfoldable pub event_source_descriptions : List String
event_source_descriptions =
    "- libinput: source events from libinput" ∷ "- x11: source events from the X11 windowing system"
    ∷ "- windows: source events from the Windows Raw Input API" ∷ []

unfoldable pub log_level_descriptions : List String
log_level_descriptions =
    "- trace: show all messages" ∷ "- debug: show debug and above" ∷ "- info: show info and above"
    ∷ "- warn: show warnings and above" ∷ "- error: show errors and above"
    ∷ "- critical: show critical messages" ∷ "- off: disable logging" ∷ []

unfoldable pub device_type_descriptions : List String
device_type_descriptions =
    "- all: all device types" ∷ "- mouse: mouse events" ∷ "- keyboard: keyboard events"
    ∷ "- touchpad: touchpad events" ∷ "- touchscreen: touchscreen events"
    ∷ "- tablet: tablet events" ∷ []
