-- ===== src/Storage/Sql/Refinement.antt =====
-- evget/src/storage/database_storage.cpp is atomic: a call of `StoreEvent` makes the rows of its
-- entries durable, or none.
use mathlib.Core.Path.{ap₂}
use mathlib.Core.List.{append-nil}
use evget.Prelude.{
  ◌≡◌, refl, sym, ap, ◌∙◌, inl, inr, String, true, Option, List, [], ◌∷◌, ◌++◌, is_empty, arith,
  Bool-cases, if◌then◌else◌,
}
use evget.Error.{Error, Result, ok, err, database_error}
use evget.Event.Enums.{EntryType, key, mouse_click, mouse_move, mouse_scroll}
use evget.Event.Entry.{Entry}
use evget.Event.Data.{Data, is_empty_data}
use evget.Database.Connection.{Connection, Action, ◌>>◌, as_database_error, read_write_create}
use evget.Storage.Sql.{
  Queries, query_of, Statements, no_statements, pick, put, World, on_connection, insert_events,
  insert_all, store_event,
}
use evget.Storage.Sql.Rows.{Row, Transactional, entry_rows, after_entry, rows_of}
use evget.Storage.Sql.Inserts.{Inserts, Inserts-bind, ReadyPair}
use evget.Storage.Sql.InsertEvents.{insert_events-Inserts}

module _ {W Q R : Type 0} {c : Connection W Q} (t : Transactional c)
    (generate : R → String × R) where
  open t use {durable, pending, in_transaction, sql_of, bound}

  module _ (queries : Queries) (database : String) where
    abbrev AllReady : Statements Q → Type 0
    AllReady st =
        ReadyPair t (query_of queries key) st.for_key
        × ReadyPair t (query_of queries mouse_click) st.for_mouse_click
        × ReadyPair t (query_of queries mouse_move) st.for_mouse_move
        × ReadyPair t (query_of queries mouse_scroll) st.for_mouse_scroll

    pick-ReadyPair :
        (k : EntryType) (st : Statements Q)
        → AllReady st
        → ReadyPair t (query_of queries k) (pick k st)
    pick-ReadyPair key st h = h.0
    pick-ReadyPair mouse_click st h = h.1
    pick-ReadyPair mouse_move st h = h.2
    pick-ReadyPair mouse_scroll st h = h.3

    put-AllReady :
        (k : EntryType) (p : Option Q × Option Q) (st : Statements Q)
        → AllReady st
        → ReadyPair t (query_of queries k) p
        → AllReady (put k p st)
    put-AllReady key p st h r = (r, h.1, h.2, h.3)
    put-AllReady mouse_click p st h r = (h.0, r, h.2, h.3)
    put-AllReady mouse_move p st h r = (h.0, h.1, r, h.3)
    put-AllReady mouse_scroll p st h r = (h.0, h.1, h.2, r)

    abbrev after_entries : List Entry → R → R
    after_entries [] r = r
    after_entries (e ∷ es) r =
        if is_empty e.values
        then after_entries es r
        else after_entries es (after_entry generate e r)

    insert_all-Inserts :
        (es : List Entry) (st : Statements Q) (r : R) (s : World W R)
        → in_transaction s.connection ≡ true
        → s.random ≡ r
        → AllReady st
        → Inserts t s
            (rows_of generate queries es r)
            (after_entries es r)
            (λ u. Unit)
            (insert_all c generate queries database es st s)
    unfolding insert_all rows_of
    insert_all-Inserts [] st r s h er ready =
        (h, refl, sym (append-nil (pending s.connection)), er, tt)
    insert_all-Inserts (e ∷ es) st r s h er ready = elim (Bool-cases (is_empty e.values)) [
      | inl y ↦ rw y (insert_all-Inserts es st r s h er ready)
      | inr n ↦ rw n (
          Inserts-bind t
            (insert_events c generate e (pick e.entry_type st) (query_of queries e.entry_type))
            (λ p. insert_all c generate queries database es (put e.entry_type p st)) s
            (entry_rows generate queries e r)
            (rows_of generate queries es (after_entry generate e r)) (after_entry generate e r)
            (after_entries es (after_entry generate e r))
            (ReadyPair t (query_of queries e.entry_type)) (λ u. Unit)
            (insert_events-Inserts t generate queries e (pick e.entry_type st) r s h er
              (pick-ReadyPair e.entry_type st ready))
            λ p s1 rp h1 r1.
              insert_all-Inserts es (put e.entry_type p st) _ s1 h1 r1
                (put-AllReady e.entry_type p st ready rp))
    ]

    -- After Connect and Transaction: a transaction is open and empty, or nothing happened.
    abbrev Begins : World W R → Result (Unit {0}) × World W R → Type 0
    Begins s (ok u, s') =
        (in_transaction s'.connection ≡ true)
        × (pending s'.connection ≡ [])
        × (durable s'.connection ≡ durable s.connection)
        × (s'.random ≡ s.random)
    Begins s (err e, s') =
        (e.error_type ≡ database_error) × (durable s'.connection ≡ durable s.connection)

    abbrev begin : Action (World W R) (Unit {0})
    begin =
        as_database_error
          (on_connection (c.connect database read_write_create) >> on_connection c.transaction)

    begin-Begins : (s : World W R) → Begins s (begin s)
    begin-Begins s = ground (
      arith,
      t.connect-durable database read_write_create s.connection,
      t.transaction-durable (c.connect database read_write_create s.connection).1,
      t.transaction-opens (c.connect database read_write_create s.connection).1 tt,
    )

    -- The rows are durable after a success, and none after a database error.
    abbrev pub Stored : World W R → List Row → Result (Unit {0}) × World W R → Type 0
    Stored s rows (ok u, s') = durable s'.connection ≡ durable s.connection ++ rows
    Stored s rows (err e, s') =
        (e.error_type ≡ database_error) × (durable s'.connection ≡ durable s.connection)

    abbrev commit : Action (World W R) (Unit {0})
    commit = as_database_error (on_connection c.commit)

    commit-Stored : (s : World W R) → Stored s (pending s.connection) (commit s)
    commit-Stored s =
        go (c.commit s.connection).0 (t.commit-ok s.connection) (t.commit-err s.connection)
      where
        w : W
        w = (c.commit s.connection).1

        go :
            (out : Result (Unit {0}))
            → ((u : Unit {0})
                → out ≡ ok u
                → durable w ≡ durable s.connection ++ pending s.connection)
            → ((e : Error) → out ≡ err e → durable w ≡ durable s.connection)
            → Stored s (pending s.connection) (elim out [
              | ok u ↦ (ok u, record s { connection = w })
              | err e ↦ (
                err (record { error_type = database_error; message = e.message }),
                record s { connection = w },
              )
            ])
        go (ok u) good bad = good u refl
        go (err e) good bad = (refl, bad e refl)

    Stored-after :
        (s s1 : World W R) (rows : List Row) (out : Result (Unit {0}) × World W R)
        → durable s1.connection ≡ durable s.connection
        → pending s1.connection ≡ rows
        → Stored s1 (pending s1.connection) out
        → Stored s rows out
    Stored-after s s1 rows (ok u, s') d p h = h ∙ ap₂ (λ x y. x ++ y) d p
    Stored-after s s1 rows (err e, s') d p h = (h.0, h.1 ∙ d)

    -- The inserts of a transaction and its commit.
    insert-Stored :
        (es : List Entry) (s s1 : World W R)
        → in_transaction s1.connection ≡ true
        → pending s1.connection ≡ []
        → durable s1.connection ≡ durable s.connection
        → s1.random ≡ s.random
        → Stored s
            (rows_of generate queries es s.random)
            ((insert_all c generate queries database es no_statements >> commit) s1)
    insert-Stored es s s1 h p d er =
        go (insert_all c generate queries database es no_statements s1).0
          (insert_all c generate queries database es no_statements s1).1
          (insert_all-Inserts es no_statements s.random s1 h er
            ((tt, tt), (tt, tt), (tt, tt), (tt, tt)))
      where
        go :
            (out : Result (Unit {0})) (s2 : World W R)
            → Inserts t s1
                (rows_of generate queries es s.random)
                (after_entries es s.random)
                (λ u. Unit)
                (out, s2)
            → Stored s
                (rows_of generate queries es s.random)
                (elim out [ ok a ↦ commit s2 | err e ↦ (err e, s2) ])
        go (ok u) s2 i =
            Stored-after s s2 _ (commit s2) (i.1 ∙ d)
              (i.2 ∙ ap (λ x. x ++ rows_of generate queries es s.random) p) (commit-Stored s2)
        go (err e) s2 i = (i.0, i.1 ∙ d)

    -- A call of StoreEvent that succeeds makes exactly the rows of its entries durable, in order:
    -- one row for each entry that has data, with its identifier and its values at the positions
    -- from 0 on, followed by one row for each of its modifiers. A call that fails reports a
    -- database error and makes nothing durable.
    pub store_event-Stored :
        (events : Data) (s : World W R)
        → Stored s
            (rows_of generate queries events.entries s.random)
            (store_event c generate queries database events s)
    unfolding store_event is_empty_data rows_of
    store_event-Stored events s = go events.entries
      where
        run :
            (es : List Entry) (out : Result (Unit {0})) (s1 : World W R)
            → Begins s (out, s1)
            → Stored s (rows_of generate queries es s.random) (elim out [
              | ok a ↦ (insert_all c generate queries database es no_statements >> commit) s1
              | err e ↦ (err e, s1)
            ])
        run es (ok u) s1 b = insert-Stored es s s1 b.0 b.1 b.2 b.3
        run es (err e) s1 b = b

        go :
            (es : List Entry)
            → Stored s
                (rows_of generate queries es s.random)
                (store_event c generate queries database (record { entries = es }) s)
        go [] = sym (append-nil (durable s.connection))
        go (e ∷ es) = run (e ∷ es) (begin s).0 (begin s).1 (begin-Begins s)
