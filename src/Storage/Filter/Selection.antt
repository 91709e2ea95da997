-- ===== src/Storage/Filter/Selection.antt =====
-- What evget/src/storage/filter_store.cpp lets through.
use evget.Prelude.{
  ◌≡◌, ◌≤◌, refl, sym, ap, ◌∙◌, String, true, Option, none, some, List, [], ◌∷◌, ◌++◌, length,
  get_elem?, select, returns, throws, append_assoc, append-nil, lt→leb, le→leb, get_elem?→lt, ◌⊎◌,
  inl, inr, Bool-cases, Exception,
}
use evget.Error.{ok}
use evget.Event.Enums.{DeviceType, device_type_enum, from_underlying, to_underlying_optional}
use evget.Event.Enumerators.{is_device_optional, device_optional-read}
use evget.Event.Fields.{device_type_index}
use evget.Event.Entry.{Entry, at-some}
use evget.Event.Data.{Data, empty, add_entry, into_entries, is_empty_data}
use evget.Storage.Store.{Store, Outcome}
use evget.Storage.Filter.{admits, keeps, filter_into, forward, store_event}

-- The entry has the text of this optional device type in its field, or it has no such field.
abbrev pub Recorded : Entry → Option DeviceType → Type 0
Recorded e o =
    (is_device_optional o ≡ true)
      × (get_elem? e.values device_type_index ≡ some (to_underlying_optional o))
    ⊎ ((length e.values ≤ device_type_index) × (o ≡ none))

abbrev pub AllRecorded : (Entry → Option DeviceType) → List Entry → Type 0
AllRecorded device [] = Unit
AllRecorded device (e ∷ es) = Recorded e (device e) × AllRecorded device es

keeps-Recorded :
    (allowed : List DeviceType) (e : Entry) (o : Option DeviceType)
    → Recorded e o
    → keeps allowed e ≡ returns (admits allowed o)
unfolding keeps
keeps-Recorded allowed e o (inl (named, text)) =
    rw
      (
        lt→leb (length e.values) device_type_index (get_elem?→lt e.values device_type_index _ text),
        at-some e.values device_type_index _ text,
        device_optional-read o named,
      )
      refl
keeps-Recorded allowed e o (inr (short, nothing)) =
    rw (le→leb (length e.values) device_type_index short, nothing) refl

filter_into-select :
    (allowed : List DeviceType) (device : Entry → Option DeviceType) (es : List Entry) (d : Data)
    → AllRecorded device es
    → filter_into allowed es d
      ≡ returns (record { entries = d.entries ++ select (λ e. admits allowed (device e)) es })
unfolding filter_into add_entry
filter_into-select allowed device [] d h =
    ap (λ es. returns (record { entries = es })) (sym (append-nil d.entries))
filter_into-select allowed device (e ∷ es) d h = elim (Bool-cases (admits allowed (device e))) [
  | inl y ↦
      rw (keeps-Recorded allowed e (device e) h.0, y)
        (filter_into-select allowed device es (add_entry d e) h.1
          ∙ ap (λ x. returns (record { entries = x })) (append_assoc d.entries (e ∷ []) _))
  | inr n ↦
      rw (keeps-Recorded allowed e (device e) h.0, n) (filter_into-select allowed device es d h.1)
]

-- The text of the device type of an entry does not read as a number.
abbrev pub Malformed : Entry → Exception → Type 0
Malformed e x =
    (text : String) × (get_elem? e.values device_type_index ≡ some text)
    × (from_underlying {E = DeviceType} text ≡ throws x)

keeps-Malformed :
    (allowed : List DeviceType) (e : Entry) (x : Exception)
    → Malformed e x
    → keeps allowed e ≡ throws x
unfolding keeps
keeps-Malformed allowed e x (text, there, bad) =
    rw
      (
        lt→leb (length e.values) device_type_index
            (get_elem?→lt e.values device_type_index _ there),
        at-some e.values device_type_index _ there,
        bad,
      )
      refl

filter_into-Malformed :
    (allowed : List DeviceType) (device : Entry → Option DeviceType) (before behind : List Entry)
    (e : Entry) (x : Exception) (d : Data)
    → AllRecorded device before
    → Malformed e x
    → filter_into allowed (before ++ e ∷ behind) d ≡ throws x
unfolding filter_into
filter_into-Malformed allowed device [] behind e x d h bad =
    rw (keeps-Malformed allowed e x bad) refl
filter_into-Malformed allowed device (b ∷ bs) behind e x d h bad =
    rw (keeps-Recorded allowed b (device b) h.0)
      (filter_into-Malformed allowed device bs behind e x _ h.1 bad)

module _ {W : Type 0} (inner : Store W) where
  -- One call with the entries, or none.
  abbrev pub deliver : List Entry → W → Outcome × W
  deliver [] w = (returns (ok tt), w)
  deliver (e ∷ es) w = inner.store_event (record { entries = e ∷ es }) w

  -- What a filter with a set of device types does when its entries carry the device types that
  -- `device` tells: the inner store has, in one call, the entries whose device type is in the set or
  -- absent, in their order, and is not called when there are none.
  pub store_event-select :
      (allowed : List DeviceType) (device : Entry → Option DeviceType) (event : Data) (w : W)
      → AllRecorded device event.entries
      → store_event inner (some allowed) event w
        ≡ deliver (select (λ e. admits allowed (device e)) event.entries) w
  unfolding store_event forward into_entries is_empty_data
  store_event-select allowed device event w h =
      ap (λ r. forward inner r w) (filter_into-select allowed device event.entries empty h)
      ∙ forwarded (select (λ e. admits allowed (device e)) event.entries)
    where
      forwarded :
          (es : List Entry) → forward inner (returns (record { entries = es })) w ≡ deliver es w
      forwarded [] = refl
      forwarded (e ∷ es) = refl

  -- An entry whose device type does not read as a number makes the filter throw what `std::stoi`
  -- throws, and the inner store is not called, whatever stands before (if it reads well) and behind
  -- the entry.
  pub store_event-Malformed :
      (allowed : List DeviceType) (device : Entry → Option DeviceType) (before behind : List Entry)
      (e : Entry) (x : Exception) (w : W)
      → AllRecorded device before
      → Malformed e x
      → store_event inner (some allowed) (record { entries = before ++ e ∷ behind }) w
        ≡ (throws x, w)
  unfolding store_event forward into_entries
  store_event-Malformed allowed device before behind e x w h bad =
      ap (λ r. forward inner r w)
        (filter_into-Malformed allowed device before behind e x empty h bad)
