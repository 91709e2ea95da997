-- ===== src/Storage/Sql/InsertEvents.antt =====
-- The rows that `InsertEvents` of evget/src/storage/database_storage.cpp adds, from one row up to one
-- entry with its modifiers.
use mathlib.Core.Path.{subst}
use mathlib.Core.List.{append-nil}
use evget.Prelude.{
  ℕ, ◌+◌, ◌≡◌, refl, sym, ap, ◌∙◌, String, true, Option, none, some, List, [], ◌∷◌, Map, arith,
}
use evget.Event.Entry.{Entry}
use evget.Database.Connection.{Connection, Action, ◌>>=◌, pure}
use evget.Storage.Sql.{
  Queries, query_of, World, fresh_uuid, set_optional_statement, bind_from, insert_row, bind_values,
  bind_values_modifier, insert_events,
}
use evget.Storage.Sql.Rows.{
  Transactional, nothing_bound, bind, bind_values_at, entry_row, modifier_row, after_uuid, uuid_at,
  modifier_rows, after_modifiers, entry_rows, after_entry,
}
use evget.Storage.Sql.Inserts.{Inserts, Inserts-bind, Inserts-map, Ready, ReadyOption, ReadyPair}

module _ {W Q R : Type 0} {c : Connection W Q} (t : Transactional c)
    (generate : R → String × R) where
  open t use {durable, pending, in_transaction, sql_of, bound}

  insert_row-Inserts :
      (q : Q) (s : World W R)
      → in_transaction s.connection ≡ true
      → Inserts t s
          (record { sql = sql_of q; bound = bound q } ∷ [])
          s.random
          (Ready t (sql_of q))
          (insert_row c generate q s)
  unfolding insert_row
  insert_row-Inserts q s h = ground (
    arith,
    t.run-durable q s.connection,
    t.run-inserts q s.connection tt,
    t.reset-durable (c.next_while q s.connection).1 (c.next_while q s.connection).2,
    t.reset-clears (c.next_while q s.connection).1 (c.next_while q s.connection).2 tt,
  )

  -- A new identifier is drawn: no row, and the generator moves on.
  fresh_uuid-Inserts :
      (s : World W R)
      → in_transaction s.connection ≡ true
      → Inserts t s []
          (after_uuid generate s.random)
          (λ u. u ≡ uuid_at generate s.random)
          (fresh_uuid c generate s)
  fresh_uuid-Inserts s h = (h, refl, sym (append-nil (pending s.connection)), refl, refl)

  sql-bind_from :
      (i : ℕ) (vs : List String) (q : Q) → sql_of (bind_from c generate i vs q) ≡ sql_of q
  unfolding bind_from
  sql-bind_from i [] q = refl
  sql-bind_from i (v ∷ vs) q = sql-bind_from (i + 1) vs (c.bind_chars i v q) ∙ t.bind-sql i v q

  bound-bind_from :
      (i : ℕ) (vs : List String) (q : Q)
      → bound (bind_from c generate i vs q) ≡ bind_values_at i vs (bound q)
  unfolding bind_from
  bound-bind_from i [] q = refl
  bound-bind_from i (v ∷ vs) q =
      bound-bind_from (i + 1) vs (c.bind_chars i v q)
      ∙ ap (bind_values_at (i + 1) vs) (t.bind-bound i v q)

  -- One row, with what was bound when it ran.
  insert_row_bound :
      (sql : String) (b : Map ℕ String) (r : R) (q : Q) (s : World W R)
      → in_transaction s.connection ≡ true
      → s.random ≡ r
      → sql_of q ≡ sql
      → bound q ≡ b
      → Inserts t s
          (record { sql = sql; bound = b } ∷ [])
          r
          (Ready t sql)
          (insert_row c generate q s)
  insert_row_bound sql b r q s h er e f = rw (← e, ← f, ← er) (insert_row-Inserts q s h)

  bind_values-Inserts :
      (sql : String) (q : Q) (vs : List String) (uuid : String) (r : R) (s : World W R)
      → in_transaction s.connection ≡ true
      → s.random ≡ r
      → Ready t sql q
      → Inserts t s
          (entry_row sql uuid vs ∷ [])
          r
          (Ready t sql)
          (bind_values c generate q vs uuid s)
  unfolding bind_values
  bind_values-Inserts sql q vs uuid r s h er ready =
      insert_row_bound sql _ r _ s h er
        (sql-bind_from 1 vs (c.bind_chars 0 uuid q) ∙ t.bind-sql 0 uuid q ∙ ready.0)
        (bound-bind_from 1 vs (c.bind_chars 0 uuid q)
          ∙ ap (bind_values_at 1 vs) (t.bind-bound 0 uuid q ∙ ap (bind 0 uuid) ready.1))

  -- Binding the three values of a modifier row.
  bound-modifier :
      (sql mu uuid m : String) (q : Q)
      → Ready t sql q
      → (sql_of (c.bind_chars 2 m (c.bind_chars 1 uuid (c.bind_chars 0 mu q))) ≡ sql)
        × (bound (c.bind_chars 2 m (c.bind_chars 1 uuid (c.bind_chars 0 mu q)))
            ≡ bind 2 m (bind 1 uuid (bind 0 mu nothing_bound)))
  bound-modifier sql mu uuid m q ready = (
    simp (t.bind-sql) ready.0,
    simp (t.bind-bound) (ap (λ b. bind 2 m (bind 1 uuid (bind 0 mu b))) ready.1),
  )

  fresh_uuid_at :
      (r : R) (s : World W R)
      → in_transaction s.connection ≡ true
      → s.random ≡ r
      → Inserts t s []
          (after_uuid generate r)
          (λ u. u ≡ uuid_at generate r)
          (fresh_uuid c generate s)
  fresh_uuid_at r s h er = rw (← er) (fresh_uuid-Inserts s h)

  bind_values_modifier-Inserts :
      (sql : String) (ms : List String) (q : Q) (uuid : String) (r : R) (s : World W R)
      → in_transaction s.connection ≡ true
      → s.random ≡ r
      → Ready t sql q
      → Inserts t s
          (modifier_rows generate sql uuid ms r)
          (after_modifiers generate ms r)
          (Ready t sql)
          (bind_values_modifier c generate q ms uuid s)
  unfolding bind_values_modifier
  bind_values_modifier-Inserts sql [] q uuid r s h er ready =
      (h, refl, sym (append-nil (pending s.connection)), er, ready)
  bind_values_modifier-Inserts sql (m ∷ ms) q uuid r s h er ready =
      Inserts-bind t (fresh_uuid c generate) _ s [] (modifier_rows generate sql uuid (m ∷ ms) r)
        (after_uuid generate r) (after_modifiers generate (m ∷ ms) r) (λ u. u ≡ uuid_at generate r)
        (Ready t sql) (fresh_uuid_at r s h er)
        λ mu s1 e h1 r1.
          Inserts-bind t
            (insert_row c generate (c.bind_chars 2 m (c.bind_chars 1 uuid (c.bind_chars 0 mu q))))
            (λ q'. bind_values_modifier c generate q' ms uuid) s1
            (modifier_row sql (uuid_at generate r) uuid m ∷ [])
            (modifier_rows generate sql uuid ms (after_uuid generate r)) (after_uuid generate r)
            (after_modifiers generate (m ∷ ms) r) (Ready t sql) (Ready t sql)
            (insert_row_bound sql _ _ _ s1 h1 r1 (bound-modifier sql mu uuid m q ready).0 (
              (bound-modifier sql mu uuid m q ready).1
              ∙ ap (λ u. bind 2 m (bind 1 uuid (bind 0 u nothing_bound))) e))
            λ q' s2 ready' h2 r2. bind_values_modifier-Inserts sql ms q' uuid _ s2 h2 r2 ready'

  set_optional_statement-Ready :
      (sql : String) (o : Option Q)
      → ReadyOption t sql o
      → Ready t sql (set_optional_statement c generate o sql)
  unfolding set_optional_statement
  set_optional_statement-Ready sql none h = (t.build-sql sql, t.build-bound sql)
  set_optional_statement-Ready sql (some q) h = h

  module _ (queries : Queries) (e : Entry) where
    abbrev qs : String × String
    qs = query_of queries e.entry_type

    abbrev Insertion : Type 0
    Insertion = Action (World W R) (Option Q × Option Q)

    -- InsertEvents after the identifier of the entry is drawn.
    abbrev insert_with : Option Q × Option Q → String → Insertion
    insert_with p uuid =
        bind_values c generate (set_optional_statement c generate p.0 qs.0) e.values uuid >>= λ q.
        bind_values_modifier c generate (set_optional_statement c generate p.1 qs.1) e.modifiers
          uuid
        >>= λ m. pure (some q, some m)

    insert_with-Inserts :
        (p : Option Q × Option Q) (uuid : String) (r : R) (s : World W R)
        → in_transaction s.connection ≡ true
        → s.random ≡ r
        → ReadyPair t qs p
        → Inserts t s
            (entry_row qs.0 uuid e.values ∷ modifier_rows generate qs.1 uuid e.modifiers r)
            (after_modifiers generate e.modifiers r)
            (ReadyPair t qs)
            (insert_with p uuid s)
    insert_with-Inserts p uuid r s h er ready =
        Inserts-bind t
          (bind_values c generate (set_optional_statement c generate p.0 qs.0) e.values uuid)
          (λ q.
            bind_values_modifier c generate (set_optional_statement c generate p.1 qs.1) e.modifiers
              uuid
            >>= λ m. pure (some q, some m))
          s (entry_row qs.0 uuid e.values ∷ []) (modifier_rows generate qs.1 uuid e.modifiers r) r
          (after_modifiers generate e.modifiers r) (Ready t qs.0) (ReadyPair t qs)
          (bind_values-Inserts qs.0 _ e.values uuid r s h er
            (set_optional_statement-Ready qs.0 p.0 ready.0))
          λ q s1 rq h1 r1.
            Inserts-map t
              (bind_values_modifier c generate (set_optional_statement c generate p.1 qs.1)
                e.modifiers uuid)
              (λ m. (some q, some m)) s1 (modifier_rows generate qs.1 uuid e.modifiers r)
              (after_modifiers generate e.modifiers r) (Ready t qs.1) (ReadyPair t qs)
              (bind_values_modifier-Inserts qs.1 e.modifiers _ uuid r s1 h1 r1
                (set_optional_statement-Ready qs.1 p.1 ready.1))
              (λ m rm. (rq, rm))

    pub insert_events-Inserts :
        (p : Option Q × Option Q) (r : R) (s : World W R)
        → in_transaction s.connection ≡ true
        → s.random ≡ r
        → ReadyPair t qs p
        → Inserts t s
            (entry_rows generate queries e r)
            (after_entry generate e r)
            (ReadyPair t qs)
            (insert_events c generate e p qs s)
    unfolding insert_events
    insert_events-Inserts p r s h er ready =
        Inserts-bind t (fresh_uuid c generate) (insert_with p) s []
          (entry_rows generate queries e r) (after_uuid generate r) (after_entry generate e r)
          (λ u. u ≡ uuid_at generate r) (ReadyPair t qs) (fresh_uuid_at r s h er)
          λ uuid s1 eu h1 r1.
            subst
              (λ u.
                Inserts t s1 (entry_rows generate queries e r) (after_entry generate e r)
                  (ReadyPair t qs) (insert_with p u s1))
              (sym eu)
              (insert_with-Inserts p (uuid_at generate r) (after_uuid generate r) s1 h1 r1 ready)
