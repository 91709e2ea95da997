-- ===== src/Storage/Json/Documents.antt =====
-- The documents that evget/src/storage/json_storage.cpp writes.
use mathlib.Core.Path.{subst}
use evget.Prelude.{
  ◌≡◌, ◌≤◌, refl, ap, ◌∙◌, String, ◌<>◌, Option, some, List, [], ◌∷◌, ◌++◌, map, length, length-set,
  length-append, append_assoc, get_elem?, returns, throws, Throws, arith,
}
use evget.Error.{ok}
use evget.Storage.Store.{Outcome}
use evget.Event.Enums.{
  DeviceType, ButtonAction, ModifierValue, EntryType, key, mouse_click, mouse_move, mouse_scroll,
}
use evget.Event.Names.{from_device, from_button_action, from_modifier_value}
use evget.Event.Entry.{Entry, at-some, get_entry_with_fields, fields_of}
use evget.Event.Display.{Written, named_values, to_named_representation-named}
use evget.Event.Data.{is_empty_data}
use evget.Storage.Json.{
  Json, formatted_field, formatted_entry, format_fields, format_entry, format_entries, document,
  append, write, store_event,
}

-- An entry, and what its numbers say.
pub record Said : Type 0 where
  pub entry : Entry
  pub device : Option DeviceType
  pub action : Option ButtonAction
  pub modifiers : List ModifierValue

-- Every value with the name of its field.
abbrev pub labelled : List String → List String → List Json
labelled (f ∷ fs) (v ∷ vs) = formatted_field f v ∷ labelled fs vs
labelled _ _ = []

-- The object of an entry: its type, its values in display form, and the names of its modifiers.
unfoldable pub entry_json : Said → Json
entry_json s =
    formatted_entry s.entry.entry_type
      (labelled (fields_of s.entry.entry_type) (
        named_values s.entry.entry_type s.entry.values (from_device s.device)
          (from_button_action s.action)))
      (map (λ m. from_modifier_value (some m)) s.modifiers)

-- The numbers are those of enumerators, and there is a field for each value.
abbrev pub Readable : Said → Type 0
Readable s =
    Written s.entry s.device s.action s.modifiers
    × (length s.entry.values ≤ length (fields_of s.entry.entry_type))

abbrev pub AllReadable : List Said → Type 0
AllReadable [] = Unit
AllReadable (s ∷ ss) = Readable s × AllReadable ss

get_elem?-behind :
    (before : List String) (f : String) (fs : List String)
    → get_elem? (before ++ f ∷ fs) (length before) ≡ some f
get_elem?-behind [] f fs = refl
get_elem?-behind (b ∷ bs) f fs = get_elem?-behind bs f fs

format_fields-labelled :
    (before fs vs : List String)
    → length vs ≤ length fs
    → format_fields (before ++ fs) vs (length before) ≡ returns (labelled fs vs)
unfolding format_fields
format_fields-labelled before [] [] h = refl
format_fields-labelled before (f ∷ fs) [] h = refl
format_fields-labelled before [] (v ∷ vs) h = ground arith
format_fields-labelled before (f ∷ fs) (v ∷ vs) h =
    let ih = format_fields-labelled (before ++ f ∷ []) fs vs (omega (arith, h)) in
    let same =
      subst (λ xs. format_fields xs vs (length (before ++ f ∷ [])) ≡ returns (labelled fs vs))
        (append_assoc before (f ∷ []) fs) ih in
    let rest =
      subst (λ n. format_fields (before ++ f ∷ fs) vs n ≡ returns (labelled fs vs))
        (length-append before (f ∷ [])) same in
    rw (at-some (before ++ f ∷ fs) (length before) f (get_elem?-behind before f fs), rest) refl

length-named_values :
    (k : EntryType) (values : List String) (device action : String)
    → length (named_values k values device action) ≡ length values
length-named_values key values device action = length-set _ 18 action ∙ length-set values 14 device
length-named_values mouse_click values device action =
    length-set _ 18 action ∙ length-set values 14 device
length-named_values mouse_move values device action = length-set values 14 device
length-named_values mouse_scroll values device action = length-set values 14 device

format_entry-json : (s : Said) → Readable s → format_entry s.entry ≡ returns (entry_json s)
unfolding format_entry entry_json get_entry_with_fields
format_entry-json s h =
    rw
      (
        to_named_representation-named s.entry s.device s.action s.modifiers h.0,
        format_fields-labelled [] (fields_of s.entry.entry_type)
            (named_values s.entry.entry_type s.entry.values (from_device s.device)
              (from_button_action s.action))
            (omega (
              arith,
              h.1,
              length-named_values s.entry.entry_type s.entry.values (from_device s.device)
                  (from_button_action s.action),
            )),
      )
      refl

format_entries-json :
    (ss : List Said)
    → AllReadable ss
    → format_entries (map (λ s. s.entry) ss) ≡ returns (map entry_json ss)
unfolding format_entries
format_entries-json [] h = refl
format_entries-json (s ∷ ss) h = rw (format_entry-json s h.0, format_entries-json ss h.1) refl

module _ (dump : Json → Throws String) where
  -- Nothing for no entries, and otherwise what the library makes of one document.
  abbrev pub written : List Json → String → Outcome × String
  written [] out = (returns (ok tt), out)
  written (j ∷ js) out = elim (dump (document (j ∷ js))) [
    | returns dumped ↦ (returns (ok tt), out <> dumped <> "\n")
    | throws x ↦ (throws x, out)
  ]

  -- When the numbers of the entries are those of enumerators and no entry has more values than its
  -- type has fields, a call with entries makes exactly one document: an object for each entry, in
  -- order, with the name of its type, each of its values in display form under the name of its
  -- field, and the names of its modifiers. If the library prints the document, the call succeeds and
  -- appends it to the stream with a line break; if the library throws, so does the call, and the
  -- stream is as before. A call with no entries succeeds and writes nothing.
  pub store_event-written :
      (ss : List Said) (out : String)
      → AllReadable ss
      → store_event dump (record { entries = map (λ s. s.entry) ss }) out
        ≡ written (map entry_json ss) out
  unfolding store_event write is_empty_data
  store_event-written [] out h = refl
  store_event-written (s ∷ ss) out h =
      ap (λ r. write dump r out) (format_entries-json (s ∷ ss) h)
      ∙ printed (dump (document (map entry_json (s ∷ ss))))
    where
      printed :
          (r : Throws String)
          → append dump r out ≡ elim r [
            | returns dumped ↦ (returns (ok tt), out <> dumped <> "\n")
            | throws x ↦ (throws x, out)
          ]
      printed (returns dumped) = refl
      printed (throws x) = refl
