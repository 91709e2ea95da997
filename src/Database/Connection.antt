-- ===== src/Database/Connection.antt =====
-- evget/include/evget/database/connection.h and query.h: what the stores and the migrations ask of
-- a connection. A query has one owner, so it is a value `Q`; `W` is the connection with its database.
use evget.Prelude.{ℕ, ◌<◌, ◌≡◌, Bool, true, String}
use evget.Prelude.Int.{ℤ}
use evget.Error.{Result, ok, err, database_error}

pub data ConnectOptions : Type 0 where
  read_only read_write read_write_create : ConnectOptions

-- The classes Connection and Query.
pub record Connection (W Q : Type 0) : Type 0 where
  pub connect : String → ConnectOptions → W → Result (Unit {0}) × W
  pub transaction : W → Result (Unit {0}) × W
  pub commit : W → Result (Unit {0}) × W
  pub rollback : W → Result (Unit {0}) × W
  pub build_query : String → Q
  pub bind_int : ℕ → ℤ → Q → Q
  pub bind_chars : ℕ → String → Q → Q
  pub next : Q → W → Result Bool × Q × W
  pub next_while : Q → W → Result (Unit {0}) × Q × W
  pub reset : Q → W → Result (Unit {0}) × Q × W
  pub exec : Q → W → Result (Unit {0}) × Q × W
  pub as_int : ℕ → Q → W → Result ℤ
  pub as_string : ℕ → Q → W → Result String

-- Documented behaviour of a result set: it is finite, and each row that `Next` reaches is one less.
pub record FiniteRows {W Q : Type 0} (c : Connection W Q) : Type 0 where
  pub rows_left : Q → W → ℕ
  pub next-decreases :
      (q : Q) (w : W)
      → (c.next q w).0 ≡ ok true
      → rows_left (c.next q w).1 (c.next q w).2 < rows_left q w

-- A step on a state that may fail; `and_then` is the bind.
abbrev pub Action {ℓ κ} : Type ℓ → Type κ → Type (ℓ ⊔ κ)
Action S A = S → Result A × S

infixl 5 ◌>>=◌ ◌>>◌
abbrev pub ◌>>=◌ {ℓ κ μ} :
    {S : Type ℓ} {A : Type κ} {B : Type μ} → Action S A → (A → Action S B) → Action S B
◌>>=◌ m f s = let (r, s') = m s in elim r [ ok a ↦ f a s' | err e ↦ (err e, s') ]

abbrev pub ◌>>◌ {ℓ κ μ} :
    {S : Type ℓ} {A : Type κ} {B : Type μ} → Action S A → Action S B → Action S B
m >> k = m >>= λ _. k

abbrev pub pure {ℓ κ} : {S : Type ℓ} {A : Type κ} → A → Action S A
pure a s = (ok a, s)

-- transform_error with the error type kDatabaseError
abbrev pub as_database_error {ℓ κ} : {S : Type ℓ} {A : Type κ} → Action S A → Action S A
as_database_error m s =
    let (r, s') = m s in
    elim r [
      | ok a ↦ (ok a, s')
      | err e ↦ (err (record { error_type = database_error; message = e.message }), s')
    ]
