-- ===== src/Event/Entry.antt =====
-- evget/src/event/entry.cpp: an entry, its display form and its field names. A call of
-- `FromUnderlying` may throw, and the exception leaves the function.
use evget.Prelude.{
  ℕ, ◌-◌, ◌≡◌, ap, String, none, some, List, [], ◌∷◌, length, get_elem?, set, leb, ltb,
  if◌then◌else◌, Throws, returns, throws, out_of_range, ◌>>=◌,
}
use evget.Event.Enums.{
  EntryType, key, mouse_click, mouse_move, mouse_scroll, from_underlying, device_type_enum,
  button_action_enum, modifier_value_enum,
}
use evget.Event.Names.{from_device, from_button_action, from_modifier_value}
use evget.Event.Fields.{
  device_type_index, mouse_click_n_fields, key_n_fields, mouse_move_fields, mouse_scroll_fields,
  mouse_click_fields, key_fields,
}

-- `values` is `data_`
pub record Entry : Type 0 where
  pub entry_type : EntryType
  pub values : List String
  pub modifiers : List String

-- std::vector::at
abbrev pub at : List String → ℕ → Throws String
at xs i = elim (get_elem? xs i) [ none ↦ throws out_of_range | some x ↦ returns x ]

pub at-some :
    (xs : List String) (i : ℕ) (x : String) → get_elem? xs i ≡ some x → at xs i ≡ returns x
at-some xs i x h =
    ap (λ o. elim o as (λ o'. Throws String) [ none ↦ throws out_of_range | some y ↦ returns y ]) h

-- data_.at(i) = f(data_.at(i))
unfoldable pub replace_at : ℕ → (String → Throws String) → List String → Throws (List String)
replace_at i f xs = at xs i >>= λ x. f x >>= λ y. returns (set xs i y)

unfoldable pub display_device : String → Throws String
display_device s = from_underlying s >>= λ d. returns (from_device d)

unfoldable pub display_action : String → Throws String
display_action s = from_underlying s >>= λ a. returns (from_button_action a)

unfoldable pub display_modifier : String → Throws String
display_modifier s = from_underlying s >>= λ m. returns (from_modifier_value m)

-- std::ranges::for_each over the modifiers
unfoldable pub display_modifiers : List String → Throws (List String)
unfolding display_modifier
display_modifiers [] = returns []
display_modifiers (m ∷ ms) =
    display_modifier m >>= λ x. display_modifiers ms >>= λ xs. returns (x ∷ xs)

-- The first `if` of ToNamedRepresentation.
unfoldable pub name_device : List String → Throws (List String)
unfolding replace_at display_device
name_device values =
    if ltb device_type_index (length values)
    then replace_at device_type_index display_device values
    else returns values

-- The `switch` of ToNamedRepresentation.
unfoldable pub name_action : EntryType → List String → Throws (List String)
unfolding replace_at display_action
name_action mouse_click values =
    if leb mouse_click_n_fields (length values)
    then replace_at (mouse_click_n_fields - 1) display_action values
    else returns values
name_action key values =
    if leb key_n_fields (length values)
    then replace_at (key_n_fields - 1) display_action values
    else returns values
name_action mouse_move values = returns values
name_action mouse_scroll values = returns values

-- Entry::ToNamedRepresentation
unfoldable pub to_named_representation : Entry → Throws Entry
unfolding name_device name_action display_modifiers
to_named_representation e = name_device e.values >>= λ named.
    name_action e.entry_type named >>= λ values. display_modifiers e.modifiers >>= λ modifiers.
    returns (record e { values = values; modifiers = modifiers })

pub record EntryWithFields : Type 0 where
  pub entry_type : EntryType
  pub fields : List String
  pub values : List String
  pub modifiers : List String

unfoldable pub fields_of : EntryType → List String
unfolding key_fields mouse_click_fields mouse_move_fields mouse_scroll_fields
fields_of key = key_fields
fields_of mouse_click = mouse_click_fields
fields_of mouse_move = mouse_move_fields
fields_of mouse_scroll = mouse_scroll_fields

-- Entry::GetEntryWithFields
unfoldable pub get_entry_with_fields : Entry → EntryWithFields
unfolding fields_of
get_entry_with_fields e = record {
  entry_type = e.entry_type;
  fields = fields_of e.entry_type;
  values = e.values;
  modifiers = e.modifiers;
}
