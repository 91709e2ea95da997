-- ===== src/Event/Display.antt =====
-- The display form of an entry, `ToNamedRepresentation` of evget/src/event/entry.cpp.
use evget.Prelude.{
  ℕ, ◌+◌, ◌≡◌, ◌<◌, refl, ◌∙◌, String, true, Option, some, List, [], ◌∷◌, map, length, get_elem?,
  set, ltb, leb, if◌then◌else◌, returns, arith, get_elem?→lt,
}
use evget.Event.Enums.{
  DeviceType, ButtonAction, ModifierValue, EntryType, key, mouse_click, mouse_move, mouse_scroll,
  to_underlying, to_underlying_optional, device_type_enum, button_action_enum, modifier_value_enum,
}
use evget.Event.Enumerators.{
  is_device_optional, is_action_optional, is_modifier, device_optional-read, action_optional-read,
  modifier-read,
}
use evget.Event.Names.{from_device, from_button_action, from_modifier_value}
use evget.Event.Fields.{device_type_index}
use evget.Event.Entry.{
  Entry, at-some, replace_at, display_device, display_action, display_modifier, display_modifiers,
  name_device, name_action, to_named_representation,
}

-- The text of an optional action stands in the last field of clicks and keys.
abbrev pub ActionWritten : EntryType → List String → Option ButtonAction → Type 0
ActionWritten key values a =
    (is_action_optional a ≡ true) × (get_elem? values 18 ≡ some (to_underlying_optional a))
ActionWritten mouse_click values a =
    (is_action_optional a ≡ true) × (get_elem? values 18 ≡ some (to_underlying_optional a))
ActionWritten mouse_move values a = Unit
ActionWritten mouse_scroll values a = Unit

abbrev pub AllModifiers : List ModifierValue → Type 0
AllModifiers [] = Unit
AllModifiers (m ∷ ms) = (is_modifier m ≡ true) × AllModifiers ms

-- An entry that says this device type, this action and these modifiers, by their numbers.
abbrev pub Written : Entry → Option DeviceType → Option ButtonAction → List ModifierValue → Type 0
Written e d a ms =
    (is_device_optional d ≡ true)
    × (get_elem? e.values device_type_index ≡ some (to_underlying_optional d))
    × ActionWritten e.entry_type e.values a
    × AllModifiers ms
    × (e.modifiers ≡ map to_underlying ms)

-- The values of an entry with names for numbers.
abbrev pub named_values : EntryType → List String → String → String → List String
named_values key values device action = set (set values 14 device) 18 action
named_values mouse_click values device action = set (set values 14 device) 18 action
named_values mouse_move values device action = set values 14 device
named_values mouse_scroll values device action = set values 14 device

get_elem?-set_other :
    (xs : List String) (i j : ℕ) (v : String) → i < j → get_elem? (set xs i v) j ≡ get_elem? xs j
get_elem?-set_other [] i j v h = refl
get_elem?-set_other (x ∷ xs) ℕ.zero ℕ.zero v h = ground arith
get_elem?-set_other (x ∷ xs) (ℕ.suc i) ℕ.zero v h = ground arith
get_elem?-set_other (x ∷ xs) ℕ.zero (ℕ.suc j) v h = refl
get_elem?-set_other (x ∷ xs) (ℕ.suc i) (ℕ.suc j) v h =
    get_elem?-set_other xs i j v (omega (arith, h))

lt→ltb : (a b : ℕ) → a < b → ltb a b ≡ true
lt→ltb a b h = ground arith

lt→leb_one : (a b : ℕ) → a < b → leb (a + 1) b ≡ true
lt→leb_one a b h = ground arith

display_modifiers-named :
    (ms : List ModifierValue)
    → AllModifiers ms
    → display_modifiers (map to_underlying ms)
      ≡ returns (map (λ m. from_modifier_value (some m)) ms)
unfolding display_modifiers display_modifier
display_modifiers-named [] h = refl
display_modifiers-named (m ∷ ms) h = rw (modifier-read m h.0, display_modifiers-named ms h.1) refl

name_device-named :
    (values : List String) (d : Option DeviceType)
    → is_device_optional d ≡ true
    → get_elem? values device_type_index ≡ some (to_underlying_optional d)
    → name_device values ≡ returns (set values 14 (from_device d))
unfolding name_device replace_at display_device
name_device-named values d h t =
    rw
      (
        lt→ltb device_type_index (length values) (get_elem?→lt values device_type_index _ t),
        at-some values device_type_index _ t,
        device_optional-read d h,
      )
      refl

-- The replacement of the last field of nineteen.
replace_action :
    (values : List String) (a : Option ButtonAction)
    → is_action_optional a ≡ true
    → get_elem? values 18 ≡ some (to_underlying_optional a)
    → (if leb 19 (length values) then replace_at 18 display_action values else returns values)
      ≡ returns (set values 18 (from_button_action a))
unfolding replace_at display_action
replace_action values a h t =
    rw
      (
        lt→leb_one 18 (length values) (get_elem?→lt values 18 _ t),
        at-some values 18 _ t,
        action_optional-read a h,
      )
      refl

name_action-named :
    (k : EntryType) (values : List String) (a : Option ButtonAction) (device : String)
    → ActionWritten k values a
    → name_action k (set values 14 device)
      ≡ returns (named_values k values device (from_button_action a))
unfolding name_action
name_action-named key values a device h =
    replace_action (set values 14 device) a h.0
      (get_elem?-set_other values 14 18 device (omega arith) ∙ h.1)
name_action-named mouse_click values a device h =
    replace_action (set values 14 device) a h.0
      (get_elem?-set_other values 14 18 device (omega arith) ∙ h.1)
name_action-named mouse_move values a device h = refl
name_action-named mouse_scroll values a device h = refl

-- An entry that says a device type, an action and modifiers by the numbers of their enumerators is
-- displayed without an exception: its device type and, for a key or a click, its action are replaced
-- by their names, or stay empty when they are absent; its modifiers are replaced by their names, in
-- order; and all other values stay.
pub to_named_representation-named :
    (e : Entry) (d : Option DeviceType) (a : Option ButtonAction) (ms : List ModifierValue)
    → Written e d a ms
    → to_named_representation e
      ≡ returns (record e {
        values = named_values e.entry_type e.values (from_device d) (from_button_action a);
        modifiers = map (λ m. from_modifier_value (some m)) ms;
      })
unfolding to_named_representation
to_named_representation-named e d a ms h =
    rw
      (
        name_device-named e.values d h.0 h.1,
        name_action-named e.entry_type e.values a (from_device d) h.2,
        h.4,
        display_modifiers-named ms h.3,
      )
      refl
