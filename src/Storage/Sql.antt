-- ===== src/Storage/Sql.antt =====
-- evget/src/storage/database_storage.cpp: entries become rows in one transaction. The state of a
-- call is the connection's `W` with the state `R` of the random generator of UUIDs.
pub mod Rows
pub mod Inserts
pub mod InsertEvents
pub mod Refinement
use evget.Prelude.{
  ℕ, ◌+◌, String, Option, none, some, List, [], ◌∷◌, is_empty, if◌then◌else◌, returns,
}
use evget.Error.{Result, ok, err}
use evget.Event.Enums.{EntryType, key, mouse_click, mouse_move, mouse_scroll}
use evget.Event.Entry.{Entry}
use evget.Event.Data.{Data, is_empty_data}
use evget.Database.Connection.{
  Connection, read_write_create, Action, ◌>>=◌, ◌>>◌, pure, as_database_error,
}
use evget.Storage.Store.{Store}

-- The texts of the eight insert statements, which the build makes of evget/database/queries.
pub record Queries : Type 0 where
  pub insert_key : String
  pub insert_key_modifier : String
  pub insert_mouse_click : String
  pub insert_mouse_click_modifier : String
  pub insert_mouse_move : String
  pub insert_mouse_move_modifier : String
  pub insert_mouse_scroll : String
  pub insert_mouse_scroll_modifier : String

-- The statement and the modifier statement of an entry type.
abbrev pub query_of : Queries → EntryType → String × String
query_of q key = (q.insert_key, q.insert_key_modifier)
query_of q mouse_click = (q.insert_mouse_click, q.insert_mouse_click_modifier)
query_of q mouse_move = (q.insert_mouse_move, q.insert_mouse_move_modifier)
query_of q mouse_scroll = (q.insert_mouse_scroll, q.insert_mouse_scroll_modifier)

-- The eight optional statements of StoreEvent, in pairs.
pub record Statements (Q : Type 0) : Type 0 where
  pub for_key : Option Q × Option Q
  pub for_mouse_click : Option Q × Option Q
  pub for_mouse_move : Option Q × Option Q
  pub for_mouse_scroll : Option Q × Option Q

abbrev pub no_statements : {Q : Type 0} → Statements Q
no_statements = record {
  for_key = (none, none);
  for_mouse_click = (none, none);
  for_mouse_move = (none, none);
  for_mouse_scroll = (none, none);
}

abbrev pub pick : {Q : Type 0} → EntryType → Statements Q → Option Q × Option Q
pick key st = st.for_key
pick mouse_click st = st.for_mouse_click
pick mouse_move st = st.for_mouse_move
pick mouse_scroll st = st.for_mouse_scroll

abbrev pub put : {Q : Type 0} → EntryType → Option Q × Option Q → Statements Q → Statements Q
put key p st = record st { for_key = p }
put mouse_click p st = record st { for_mouse_click = p }
put mouse_move p st = record st { for_mouse_move = p }
put mouse_scroll p st = record st { for_mouse_scroll = p }

pub record World (W R : Type 0) : Type 0 where
  pub connection : W
  pub random : R

-- A call of the connection, or of a query, in the world.
abbrev pub on_connection : {W R A : Type 0} → (W → Result A × W) → Action (World W R) A
on_connection f s = let (r, w) = f s.connection in (r, record s { connection = w })

-- A call of a query that returns the query as it leaves it.
abbrev pub on_query : {W R Q : Type 0} → (W → Result (Unit {0}) × Q × W) → Action (World W R) Q
on_query f s =
    let (r, q, w) = f s.connection in
    (elim r [ ok u ↦ ok q | err e ↦ err e ], record s { connection = w })

module _ {W Q R : Type 0} (c : Connection W Q) (generate : R → String × R) where
  -- to_string(random_generator()())
  abbrev pub fresh_uuid : Action (World W R) String
  fresh_uuid s = let (uuid, r) = generate s.random in (ok uuid, record s { random = r })

  -- SetOptionalStatement
  unfoldable pub set_optional_statement : Option Q → String → Q
  set_optional_statement none query_string = c.build_query query_string
  set_optional_statement (some q) query_string = q

  -- The loop of BindValues, from position `i` on.
  unfoldable pub bind_from : ℕ → List String → Q → Q
  bind_from i [] q = q
  bind_from i (value ∷ values) q = bind_from (i + 1) values (c.bind_chars i value q)

  -- NextWhile, then Reset
  unfoldable pub insert_row : Q → Action (World W R) Q
  insert_row q = as_database_error (on_query (c.next_while q) >>= λ q'. on_query (c.reset q'))

  -- BindValues
  unfoldable pub bind_values : Q → List String → String → Action (World W R) Q
  unfolding bind_from insert_row
  bind_values q values uuid = insert_row (bind_from 1 values (c.bind_chars 0 uuid q))

  -- BindValuesModifier
  unfoldable pub bind_values_modifier : Q → List String → String → Action (World W R) Q
  unfolding insert_row
  bind_values_modifier q [] uuid = pure q
  bind_values_modifier q (modifier ∷ modifiers) uuid = fresh_uuid >>= λ modifier_uuid.
      insert_row (c.bind_chars 2 modifier (c.bind_chars 1 uuid (c.bind_chars 0 modifier_uuid q)))
      >>= λ q'. bind_values_modifier q' modifiers uuid

  -- InsertEvents
  unfoldable pub insert_events :
      Entry → Option Q × Option Q → String × String → Action (World W R) (Option Q × Option Q)
  unfolding set_optional_statement bind_values bind_values_modifier
  insert_events entry (insert_statement, modifier_statement) (query, modifier_query) =
      fresh_uuid >>= λ uuid.
      bind_values (set_optional_statement insert_statement query) entry.values uuid >>= λ q.
      bind_values_modifier (set_optional_statement modifier_statement modifier_query)
        entry.modifiers uuid
      >>= λ m. pure (some q, some m)

  module _ (queries : Queries) (database : String) where
    -- The loop of StoreEvent: entries with no data are passed over.
    unfoldable pub insert_all : List Entry → Statements Q → Action (World W R) (Unit {0})
    unfolding insert_events
    insert_all [] st = pure tt
    insert_all (e ∷ es) st =
        let rest = insert_all es in
        if is_empty e.values
        then rest st
        else insert_events e (pick e.entry_type st) (query_of queries e.entry_type) >>= λ p.
            rest (put e.entry_type p st)

    -- DatabaseStorage::StoreEvent
    unfoldable pub store_event : Data → Action (World W R) (Unit {0})
    unfolding insert_all is_empty_data
    store_event events =
        if is_empty_data events
        then pure tt
        else as_database_error
            (on_connection (c.connect database read_write_create) >> on_connection c.transaction)
          >> (insert_all events.entries no_statements >> as_database_error (on_connection c.commit))

    -- The store that a DatabaseStorage is; its calls do not throw.
    abbrev pub database_storage : Store (World W R)
    database_storage = record {
      store_event = λ events s. let (r, s') = store_event events s in (returns r, s');
    }
