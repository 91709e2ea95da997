-- ===== src/Storage/Filter.antt =====
-- evget/src/storage/filter_store.cpp: entries of devices that are not allowed are dropped.
pub mod Selection
use evget.Prelude.{
  Bool, true, false, ◌||◌, Option, none, some, List, [], ◌∷◌, length, leb, ◌==◌, if◌then◌else◌,
  Throws, returns, throws, ◌>>=◌,
}
use evget.Error.{ok}
use evget.Event.Enums.{DeviceType, device_type_enum, from_underlying}
use evget.Event.Fields.{device_type_index}
use evget.Event.Entry.{Entry, at}
use evget.Event.Data.{Data, empty, add_entry, into_entries, is_empty_data}
use evget.Storage.Store.{Store, Outcome}

-- A std::set of device types: an element is there if one with its number is.
unfoldable pub contains : List DeviceType → DeviceType → Bool
unfolding device_type_enum
contains [] d = false
contains (x ∷ xs) d = device_type_enum.to_ℕ x == device_type_enum.to_ℕ d || contains xs d

abbrev pub admits : List DeviceType → Option DeviceType → Bool
admits allowed none = true
admits allowed (some d) = contains allowed d

-- The tests on one entry in the loop of StoreEvent.
unfoldable pub keeps : List DeviceType → Entry → Throws Bool
keeps allowed entry =
    if leb (length entry.values) device_type_index
    then returns true
    else at entry.values device_type_index >>= λ text.
        from_underlying text >>= λ device. returns (admits allowed device)

-- The loop of StoreEvent.
unfoldable pub filter_into : List DeviceType → List Entry → Data → Throws Data
unfolding keeps add_entry
filter_into allowed [] filtered = returns filtered
filter_into allowed (e ∷ es) filtered = keeps allowed e >>= λ kept.
    filter_into allowed es (if kept then add_entry filtered e else filtered)

module _ {W : Type 0} (inner : Store W) where
  unfoldable pub forward : Throws Data → W → Outcome × W
  forward (throws x) w = (throws x, w)
  forward (returns filtered) w =
      if is_empty_data filtered then (returns (ok tt), w) else inner.store_event filtered w

  -- FilterStore::StoreEvent
  unfoldable pub store_event : Option (List DeviceType) → Data → W → Outcome × W
  unfolding forward filter_into into_entries is_empty_data
  store_event none event w = inner.store_event event w
  store_event (some allowed) event w = forward (filter_into allowed (into_entries event) empty) w

  -- The store that a FilterStore is.
  abbrev pub filter_store : Option (List DeviceType) → Store W
  filter_store allowed = record { store_event = store_event allowed }
