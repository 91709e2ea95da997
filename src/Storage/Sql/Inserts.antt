-- ===== src/Storage/Sql/Inserts.antt =====
-- Steps of evget/src/storage/database_storage.cpp inside a transaction: what such a step leaves, and
-- how steps in a row add up.
use mathlib.Core.List.{append_assoc}
use evget.Prelude.{◌≡◌, ap, ◌∙◌, String, true, Option, none, some, List, ◌++◌}
use evget.Error.{Result, ok, err, database_error}
use evget.Database.Connection.{Connection, Action, ◌>>=◌, pure}
use evget.Storage.Sql.{World}
use evget.Storage.Sql.Rows.{Row, Transactional, nothing_bound}

module _ {W Q R : Type 0} {c : Connection W Q} (t : Transactional c) where
  open t use {durable, pending, in_transaction, sql_of, bound}

  -- A step inside a transaction that adds `rows`, leaves the generator at `r` and returns a value
  -- with `P`; or fails as a database error and has made nothing durable.
  abbrev pub Inserts :
      {A : Type 0} → World W R → List Row → R → (A → Type 0) → Result A × World W R → Type 0
  Inserts s rows r P (ok a, s') =
      (in_transaction s'.connection ≡ true)
      × (durable s'.connection ≡ durable s.connection)
      × (pending s'.connection ≡ pending s.connection ++ rows)
      × (s'.random ≡ r)
      × P a
  Inserts s rows r P (err e, s') =
      (e.error_type ≡ database_error) × (durable s'.connection ≡ durable s.connection)

  pub Inserts-after :
      {A : Type 0} (s s1 : World W R) (rows₁ rows₂ : List Row) (r : R) (P : A → Type 0)
      (out : Result A × World W R)
      → durable s1.connection ≡ durable s.connection
      → pending s1.connection ≡ pending s.connection ++ rows₁
      → Inserts s1 rows₂ r P out
      → Inserts s (rows₁ ++ rows₂) r P out
  Inserts-after s s1 rows₁ rows₂ r P (ok a, s') d p h = (
    h.0,
    h.1 ∙ d,
    h.2 ∙ ap (λ x. x ++ rows₂) p ∙ append_assoc (pending s.connection) rows₁ rows₂,
    h.3,
    h.4,
  )
  Inserts-after s s1 rows₁ rows₂ r P (err e, s') d p h = (h.0, h.1 ∙ d)

  pub Inserts-bind :
      {A B : Type 0} (m : Action (World W R) A) (f : A → Action (World W R) B) (s : World W R)
      (rows₁ rows₂ : List Row) (r₁ r₂ : R) (P : A → Type 0) (P' : B → Type 0)
      → Inserts s rows₁ r₁ P (m s)
      → ((a : A) (s1 : World W R)
          → P a
          → in_transaction s1.connection ≡ true
          → s1.random ≡ r₁
          → Inserts s1 rows₂ r₂ P' (f a s1))
      → Inserts s (rows₁ ++ rows₂) r₂ P' ((m >>= f) s)
  Inserts-bind {A} {B} m f s rows₁ rows₂ r₁ r₂ P P' first next = go (m s).0 (m s).1 first
    where
      go :
          (out : Result A) (s1 : World W R)
          → Inserts s rows₁ r₁ P (out, s1)
          → Inserts s (rows₁ ++ rows₂) r₂ P' (elim out [ ok a ↦ f a s1 | err e ↦ (err e, s1) ])
      go (ok a) s1 h = Inserts-after s s1 rows₁ rows₂ r₂ P' (f a s1) h.1 h.2 (next a s1 h.4 h.0 h.3)
      go (err e) s1 h = h

  pub Inserts-map :
      {A B : Type 0} (m : Action (World W R) A) (f : A → B) (s : World W R) (rows : List Row)
      (r : R) (P : A → Type 0) (P' : B → Type 0)
      → Inserts s rows r P (m s)
      → ((a : A) → P a → P' (f a))
      → Inserts s rows r P' ((m >>= λ a. pure (f a)) s)
  Inserts-map {A} {B} m f s rows r P P' first keep = go (m s).0 (m s).1 first
    where
      go :
          (out : Result A) (s1 : World W R)
          → Inserts s rows r P (out, s1)
          → Inserts s rows r P' (elim out [ ok a ↦ (ok (f a), s1) | err e ↦ (err e, s1) ])
      go (ok a) s1 h = (h.0, h.1, h.2, h.3, keep a h.4)
      go (err e) s1 h = h

module _ {W Q : Type 0} {c : Connection W Q} (t : Transactional c) where
  open t use {durable, pending, in_transaction, sql_of, bound}

  -- A statement with nothing bound.
  abbrev pub Ready : String → Q → Type 0
  Ready sql q = (sql_of q ≡ sql) × (bound q ≡ nothing_bound)

  -- A statement that is not there yet, or that is ready.
  abbrev pub ReadyOption : String → Option Q → Type 0
  ReadyOption sql none = Unit
  ReadyOption sql (some q) = Ready sql q

  abbrev pub ReadyPair : String × String → Option Q × Option Q → Type 0
  ReadyPair qs p = ReadyOption qs.0 p.0 × ReadyOption qs.1 p.1
