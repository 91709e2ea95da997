-- ===== src/Event/Data.antt =====
-- evget/src/event/data.cpp: the entries that one event gives, in order.
use evget.Prelude.{Bool, List, [], ◌∷◌, ◌++◌, is_empty}
use evget.Event.Entry.{Entry}

pub record Data : Type 0 where
  pub entries : List Entry

abbrev pub empty : Data
empty = record { entries = [] }

-- Data::AddEntry
unfoldable pub add_entry : Data → Entry → Data
add_entry d e = record { entries = d.entries ++ e ∷ [] }

-- Data::MergeWith
unfoldable pub merge_with : Data → Data → Data
merge_with d other = record { entries = d.entries ++ other.entries }

-- Data::IntoEntries; the moved-from object is not used again
unfoldable pub into_entries : Data → List Entry
into_entries d = d.entries

-- Data::Empty
unfoldable pub is_empty_data : Data → Bool
is_empty_data d = is_empty d.entries
