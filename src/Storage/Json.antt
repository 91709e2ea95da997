-- ===== src/Storage/Json.antt =====
-- evget/src/storage/json_storage.cpp. The JSON library prints a value (`dump`), or throws
-- when one of its texts is not UTF-8, and the output stream is the text written so far.
pub mod Documents
use evget.Prelude.{
  ℕ, ◌+◌, String, ◌<>◌, some, List, [], ◌∷◌, if◌then◌else◌, Throws, returns, throws, ◌>>=◌,
}
use evget.Error.{ok}
use evget.Event.Enums.{EntryType}
use evget.Event.Names.{from_entry_type}
use evget.Event.Entry.{Entry, at, to_named_representation, get_entry_with_fields}
use evget.Event.Data.{Data, is_empty_data}
use evget.Storage.Store.{Store, Outcome}

mutual
  pub data Json : Type 0 where
    text : String → Json
    array : Items → Json
    object : Members → Json

  pub data Items : Type 0 where
    end : Items
    item : Json → Items → Items

  pub data Members : Type 0 where
    no_member : Members
    member : String → Json → Members → Members

-- nlohmann::json of a vector
abbrev pub to_array : List Json → Items
to_array [] = end
to_array (j ∷ js) = item j (to_array js)

abbrev pub texts : List String → Items
texts [] = end
texts (s ∷ ss) = item (text s) (texts ss)

-- {{"name", ...}, {"data", ...}}
abbrev pub formatted_field : String → String → Json
formatted_field name value =
    object (member "name" (text name) (member "data" (text value) no_member))

-- The inner loop of StoreEvent, from index `i` on: `fields` and `values` are read by `at(i)`.
unfoldable pub format_fields : List String → List String → ℕ → Throws (List Json)
format_fields fields [] i = returns []
format_fields fields (value ∷ values) i = at fields i >>= λ name.
    format_fields fields values (i + 1) >>= λ rest. returns (formatted_field name value ∷ rest)

-- {{"type", ...}, {"fields", ...}, {"modifiers", ...}}
abbrev pub formatted_entry : EntryType → List Json → List String → Json
formatted_entry entry_type fields modifiers = object (
    member "type" (text (from_entry_type (some entry_type))) (
      member "fields" (array (to_array fields))
        (member "modifiers" (array (texts modifiers)) no_member)))

-- The body of the loop over the entries.
unfoldable pub format_entry : Entry → Throws Json
unfolding format_fields get_entry_with_fields
format_entry entry = to_named_representation entry >>= λ named.
    let e = get_entry_with_fields named in
    format_fields e.fields e.values 0 >>= λ fields.
    returns (formatted_entry e.entry_type fields e.modifiers)

unfoldable pub format_entries : List Entry → Throws (List Json)
format_entries [] = returns []
format_entries (e ∷ es) = format_entry e >>= λ j. format_entries es >>= λ js. returns (j ∷ js)

-- {{"entries", formatted_entries}}
abbrev pub document : List Json → Json
document entries = object (member "entries" (array (to_array entries)) no_member)

module _ (dump : Json → Throws String) where
  -- The document, and the line break behind it, once `dump` has returned.
  abbrev pub append : Throws String → String → Outcome × String
  append (throws x) out = (throws x, out)
  append (returns dumped) out = (returns (ok tt), out <> dumped <> "\n")

  unfoldable pub write : Throws (List Json) → String → Outcome × String
  write (throws x) out = (throws x, out)
  write (returns entries) out = append (dump (document entries)) out

  -- JsonStorage::StoreEvent
  unfoldable pub store_event : Data → String → Outcome × String
  unfolding write format_entries is_empty_data
  store_event events out =
      if is_empty_data events
      then (returns (ok tt), out)
      else write (format_entries events.entries) out

  abbrev pub json_storage : Store String
  json_storage = record { store_event = store_event }
