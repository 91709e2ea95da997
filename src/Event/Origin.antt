-- ===== src/Event/Origin.antt =====
-- What the entries of evget/src/event say of the event that made them, whichever backend made them:
-- the base fields of a builder, and the values that its `Build` writes for them.
use evget.Prelude.{◌≡◌, ap, String, List, [], ◌∷◌, ◌++◌, some, get_elem?}
use evget.Event.Format.{Formats, from_timestamp, from_string}
use evget.Event.Enums.{
  DeviceType, to_underlying, to_underlying_optional, device_type_enum, button_action_enum,
}
use evget.Event.Entry.{Entry}
use evget.Event.Data.{Data, add_entry}
use evget.Event.Key
use evget.Event.Key.{Key}
use evget.Event.MouseClick
use evget.Event.MouseClick.{MouseClick}
use evget.Event.MouseMove
use evget.Event.MouseMove.{MouseMove}
use evget.Event.MouseScroll
use evget.Event.MouseScroll.{MouseScroll}

-- Where an entry comes from.
pub record Origin (T : Type 0) : Type 0 where
  pub timestamp : T
  pub device_name : String
  pub device_id : String
  pub system_event : String
  pub event_source : String
  pub device_type : DeviceType

-- The values of an entry that tell its event, and its modifiers.
unfoldable pub CarriesOrigin :
    {D T : Type 0} → Formats D T → Origin T → List String → Entry → Type 0
unfolding from_timestamp to_underlying_optional
CarriesOrigin formats origin modifiers e =
    (get_elem? e.values 1 ≡ some (from_timestamp formats (some origin.timestamp)))
    × (get_elem? e.values 4 ≡ some origin.device_name)
    × (get_elem? e.values 11 ≡ some origin.device_id)
    × (get_elem? e.values 12 ≡ some origin.system_event)
    × (get_elem? e.values 13 ≡ some origin.event_source)
    × (get_elem? e.values 14 ≡ some (to_underlying origin.device_type))
    × (e.modifiers ≡ modifiers)

abbrev pub All : (Entry → Type 0) → List Entry → Type 0
All P [] = Unit
All P (e ∷ es) = P e × All P es

pub All-snoc :
    (P : Entry → Type 0) (es : List Entry) (e : Entry) → All P es → P e → All P (es ++ e ∷ [])
All-snoc P [] e h p = (p, tt)
All-snoc P (x ∷ xs) e h p = (h.0, All-snoc P xs e h.1 p)

-- A Key builder whose base fields are set.
abbrev pub KeyBased : {D T : Type 0} → Origin T → List String → Key D T → Type 0
KeyBased origin modifiers b =
    (b.timestamp ≡ some origin.timestamp)
    × (b.device_name ≡ some origin.device_name)
    × (b.device_id ≡ some origin.device_id)
    × (b.system_event ≡ some origin.system_event)
    × (b.event_source ≡ some origin.event_source)
    × (b.device ≡ some origin.device_type)
    × (b.modifiers ≡ modifiers)

pub key-build :
    {D T : Type 0} (formats : Formats D T) (origin : Origin T) (modifiers : List String)
    (b : Key D T) (d : Data)
    → KeyBased origin modifiers b
    → All (CarriesOrigin formats origin modifiers) d.entries
    → All (CarriesOrigin formats origin modifiers) (Key.build formats b d).entries
unfolding Key.build add_entry CarriesOrigin from_string to_underlying_optional from_timestamp
key-build formats origin modifiers b d h all =
    All-snoc (CarriesOrigin formats origin modifiers) d.entries _ all (
      ap (λ x. some (from_timestamp formats x)) h.0,
      ap (λ x. some (from_string x)) h.1,
      ap (λ x. some (from_string x)) h.2,
      ap (λ x. some (from_string x)) h.3,
      ap (λ x. some (from_string x)) h.4,
      ap (λ x. some (to_underlying_optional x)) h.5,
      h.6,
    )

-- A MouseClick builder whose base fields are set.
abbrev pub MouseClickBased : {D T : Type 0} → Origin T → List String → MouseClick D T → Type 0
MouseClickBased origin modifiers b =
    (b.timestamp ≡ some origin.timestamp)
    × (b.device_name ≡ some origin.device_name)
    × (b.device_id ≡ some origin.device_id)
    × (b.system_event ≡ some origin.system_event)
    × (b.event_source ≡ some origin.event_source)
    × (b.device ≡ some origin.device_type)
    × (b.modifiers ≡ modifiers)

pub mouse_click-build :
    {D T : Type 0} (formats : Formats D T) (origin : Origin T) (modifiers : List String)
    (b : MouseClick D T) (d : Data)
    → MouseClickBased origin modifiers b
    → All (CarriesOrigin formats origin modifiers) d.entries
    → All (CarriesOrigin formats origin modifiers) (MouseClick.build formats b d).entries
unfolding MouseClick.build add_entry CarriesOrigin from_string to_underlying_optional from_timestamp
mouse_click-build formats origin modifiers b d h all =
    All-snoc (CarriesOrigin formats origin modifiers) d.entries _ all (
      ap (λ x. some (from_timestamp formats x)) h.0,
      ap (λ x. some (from_string x)) h.1,
      ap (λ x. some (from_string x)) h.2,
      ap (λ x. some (from_string x)) h.3,
      ap (λ x. some (from_string x)) h.4,
      ap (λ x. some (to_underlying_optional x)) h.5,
      h.6,
    )

-- A MouseMove builder whose base fields are set.
abbrev pub MouseMoveBased : {D T : Type 0} → Origin T → List String → MouseMove D T → Type 0
MouseMoveBased origin modifiers b =
    (b.timestamp ≡ some origin.timestamp)
    × (b.device_name ≡ some origin.device_name)
    × (b.device_id ≡ some origin.device_id)
    × (b.system_event ≡ some origin.system_event)
    × (b.event_source ≡ some origin.event_source)
    × (b.device ≡ some origin.device_type)
    × (b.modifiers ≡ modifiers)

pub mouse_move-build :
    {D T : Type 0} (formats : Formats D T) (origin : Origin T) (modifiers : List String)
    (b : MouseMove D T) (d : Data)
    → MouseMoveBased origin modifiers b
    → All (CarriesOrigin formats origin modifiers) d.entries
    → All (CarriesOrigin formats origin modifiers) (MouseMove.build formats b d).entries
unfolding MouseMove.build add_entry CarriesOrigin from_string to_underlying_optional from_timestamp
mouse_move-build formats origin modifiers b d h all =
    All-snoc (CarriesOrigin formats origin modifiers) d.entries _ all (
      ap (λ x. some (from_timestamp formats x)) h.0,
      ap (λ x. some (from_string x)) h.1,
      ap (λ x. some (from_string x)) h.2,
      ap (λ x. some (from_string x)) h.3,
      ap (λ x. some (from_string x)) h.4,
      ap (λ x. some (to_underlying_optional x)) h.5,
      h.6,
    )

-- A MouseScroll builder whose base fields are set.
abbrev pub MouseScrollBased : {D T : Type 0} → Origin T → List String → MouseScroll D T → Type 0
MouseScrollBased origin modifiers b =
    (b.timestamp ≡ some origin.timestamp)
    × (b.device_name ≡ some origin.device_name)
    × (b.device_id ≡ some origin.device_id)
    × (b.system_event ≡ some origin.system_event)
    × (b.event_source ≡ some origin.event_source)
    × (b.device ≡ some origin.device_type)
    × (b.modifiers ≡ modifiers)

pub mouse_scroll-build :
    {D T : Type 0} (formats : Formats D T) (origin : Origin T) (modifiers : List String)
    (b : MouseScroll D T) (d : Data)
    → MouseScrollBased origin modifiers b
    → All (CarriesOrigin formats origin modifiers) d.entries
    → All (CarriesOrigin formats origin modifiers) (MouseScroll.build formats b d).entries
unfolding MouseScroll.build add_entry CarriesOrigin from_string to_underlying_optional
    from_timestamp
mouse_scroll-build formats origin modifiers b d h all =
    All-snoc (CarriesOrigin formats origin modifiers) d.entries _ all (
      ap (λ x. some (from_timestamp formats x)) h.0,
      ap (λ x. some (from_string x)) h.1,
      ap (λ x. some (from_string x)) h.2,
      ap (λ x. some (from_string x)) h.3,
      ap (λ x. some (from_string x)) h.4,
      ap (λ x. some (to_underlying_optional x)) h.5,
      h.6,
    )
