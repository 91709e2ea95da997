-- ===== src/Storage/Sql/Rows.antt =====
-- What evget/src/storage/database_storage.cpp relies on in a transactional database, and the rows
-- that a list of entries stands for.
use evget.Prelude.{
  ℕ, ◌+◌, ◌≡◌, String, Bool, true, List, [], ◌∷◌, ◌++◌, is_empty, Map, no_entries, insert, ◌==◌,
  if◌then◌else◌,
}
use evget.Error.{Error, ok, err}
use evget.Event.Entry.{Entry}
use evget.Database.Connection.{Connection, ConnectOptions}
use evget.Storage.Sql.{Queries, query_of}

-- An executed insert: the statement, and the value bound at each position.
pub record Row : Type 0 where
  pub sql : String
  pub bound : Map ℕ String

abbrev pub nothing_bound : Map ℕ String
nothing_bound = no_entries

abbrev pub bind : ℕ → String → Map ℕ String → Map ℕ String
bind = insert ◌==◌

-- Documented behaviour of SQLite transactions and prepared statements: what a transaction wrote is
-- durable when its commit succeeds and not before, and a statement inserts what is bound to it.
pub record Transactional {W Q : Type 0} (c : Connection W Q) : Type 0 where
  pub durable : W → List Row
  pub pending : W → List Row
  pub in_transaction : W → Bool
  pub sql_of : Q → String
  pub bound : Q → Map ℕ String
  pub connect-durable :
      (path : String) (o : ConnectOptions) (w : W) → durable (c.connect path o w).1 ≡ durable w
  pub transaction-durable : (w : W) → durable (c.transaction w).1 ≡ durable w
  pub transaction-opens :
      (w : W) (u : Unit {0})
      → (c.transaction w).0 ≡ ok u
      → (in_transaction (c.transaction w).1 ≡ true) × (pending (c.transaction w).1 ≡ [])
  pub build-sql : (s : String) → sql_of (c.build_query s) ≡ s
  pub build-bound : (s : String) → bound (c.build_query s) ≡ nothing_bound
  pub bind-sql : (i : ℕ) (v : String) (q : Q) → sql_of (c.bind_chars i v q) ≡ sql_of q
  pub bind-bound : (i : ℕ) (v : String) (q : Q) → bound (c.bind_chars i v q) ≡ bind i v (bound q)
  pub run-durable :
      (q : Q) (w : W) → in_transaction w ≡ true → durable (c.next_while q w).2 ≡ durable w
  pub run-inserts :
      (q : Q) (w : W) (u : Unit {0})
      → in_transaction w ≡ true
      → (c.next_while q w).0 ≡ ok u
      → (in_transaction (c.next_while q w).2 ≡ true)
        × (pending (c.next_while q w).2
            ≡ pending w ++ record { sql = sql_of q; bound = bound q } ∷ [])
        × (sql_of (c.next_while q w).1 ≡ sql_of q)
  pub reset-durable : (q : Q) (w : W) → durable (c.reset q w).2 ≡ durable w
  pub reset-clears :
      (q : Q) (w : W) (u : Unit {0})
      → (c.reset q w).0 ≡ ok u
      → (in_transaction (c.reset q w).2 ≡ in_transaction w)
        × (pending (c.reset q w).2 ≡ pending w)
        × (sql_of (c.reset q w).1 ≡ sql_of q)
        × (bound (c.reset q w).1 ≡ nothing_bound)
  pub commit-ok :
      (w : W) (u : Unit {0})
      → (c.commit w).0 ≡ ok u
      → durable (c.commit w).1 ≡ durable w ++ pending w
  pub commit-err : (w : W) (e : Error) → (c.commit w).0 ≡ err e → durable (c.commit w).1 ≡ durable w

-- The values of an entry stand at the positions from `i` on.
abbrev pub bind_values_at : ℕ → List String → Map ℕ String → Map ℕ String
bind_values_at i [] b = b
bind_values_at i (v ∷ vs) b = bind_values_at (i + 1) vs (bind i v b)

abbrev pub entry_row : String → String → List String → Row
entry_row sql uuid values = record {
  sql = sql;
  bound = bind_values_at 1 values (bind 0 uuid nothing_bound);
}

abbrev pub modifier_row : String → String → String → String → Row
modifier_row sql modifier_uuid uuid modifier = record {
  sql = sql;
  bound = bind 2 modifier (bind 1 uuid (bind 0 modifier_uuid nothing_bound));
}

module _ {R : Type 0} (generate : R → String × R) where
  -- The state of the generator after a number of identifiers, and the next one.
  abbrev pub after_uuid : R → R
  after_uuid r = (generate r).1

  abbrev pub uuid_at : R → String
  uuid_at r = (generate r).0

  -- A row for each modifier, each with an identifier of its own.
  abbrev pub modifier_rows : String → String → List String → R → List Row
  modifier_rows sql uuid [] r = []
  modifier_rows sql uuid (m ∷ ms) r =
      modifier_row sql (uuid_at r) uuid m ∷ modifier_rows sql uuid ms (after_uuid r)

  abbrev pub after_modifiers : List String → R → R
  after_modifiers [] r = r
  after_modifiers (m ∷ ms) r = after_modifiers ms (after_uuid r)

  -- The rows of one entry: its own, then those of its modifiers.
  abbrev pub entry_rows : Queries → Entry → R → List Row
  entry_rows queries e r =
      entry_row (query_of queries e.entry_type).0 (uuid_at r) e.values
      ∷ modifier_rows (query_of queries e.entry_type).1 (uuid_at r) e.modifiers (after_uuid r)

  abbrev pub after_entry : Entry → R → R
  after_entry e r = after_modifiers e.modifiers (after_uuid r)

  -- The rows of a list of entries; an entry without data has none.
  unfoldable pub rows_of : Queries → List Entry → R → List Row
  rows_of queries [] r = []
  rows_of queries (e ∷ es) r =
      if is_empty e.values
      then rows_of queries es r
      else entry_rows queries e r ++ rows_of queries es (after_entry e r)
