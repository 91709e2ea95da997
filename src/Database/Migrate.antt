-- ===== src/Database/Migrate.antt =====
-- evget/src/database/migrate.cpp: migrations in the order of their versions, applied in one
-- transaction. The SHA-512 of mbedtls is the parameter `sha512_hex`, already written in hexadecimal.
pub mod Pending
pub mod Rows
use evget.Prelude.{
  ℕ, zero, suc, ◌+◌, ◌<◌, ◌≡◌, refl, below_zero, below_pred, below_suc, String, Bool, true, false,
  ◌&&◌, not, List, [], ◌∷◌, ◌++◌, length, ltb, ◌==◌, get_elem?, none, some, Option, str_eq,
  if◌then◌else◌,
}
use evget.Prelude.Int.{ℤ, pos, negsuc}
use evget.Error.{Error, Result, ok, err, database_error}
use evget.Database.Connection.{Connection, FiniteRows, Action, ◌>>=◌, ◌>>◌, pure}

pub record Migration : Type 0 where
  pub version : ℤ
  pub description : String
  pub sql : String
  pub exec : Bool

pub record AppliedMigration : Type 0 where
  pub version : ℤ
  pub checksum : String

abbrev pub int_eq : ℤ → ℤ → Bool
int_eq (pos m) (pos n) = m == n
int_eq (pos m) (negsuc n) = false
int_eq (negsuc m) (pos n) = false
int_eq (negsuc m) (negsuc n) = m == n

abbrev pub int_lt : ℤ → ℤ → Bool
int_lt (pos m) (pos n) = ltb m n
int_lt (pos m) (negsuc n) = false
int_lt (negsuc m) (pos n) = true
int_lt (negsuc m) (negsuc n) = ltb n m

insert_by_version : Migration → List Migration → List Migration
insert_by_version m [] = m ∷ []
insert_by_version m (n ∷ ns) =
    let rest = insert_by_version m ns in if int_lt n.version m.version then n ∷ rest else m ∷ n ∷ ns

-- The sort of the constructor. Migrations of one version keep their order, one of the orders that
-- std::ranges::sort allows.
unfoldable pub sort_by_version : List Migration → List Migration
unfolding insert_by_version
sort_by_version [] = []
sort_by_version (m ∷ ms) = insert_by_version m (sort_by_version ms)

abbrev pub missing : Error
missing = record { error_type = database_error; message = "missing version or checksum" }

abbrev pub mismatch : Error
mismatch = record {
  error_type = database_error;
  message = "applied migrations do not match current migrations";
}

-- A row of the table, if both columns are read.
abbrev pub applied_row : Result ℤ → Result String → Result AppliedMigration
applied_row (ok v) (ok c) = ok (record { version = v; checksum = c })
applied_row _ _ = err missing

module _ {W Q : Type 0} (c : Connection W Q) (sha512_hex : String → String) where
  -- A call of a query that returns the query as it leaves it.
  abbrev pub calling : {A : Type 0} → (W → Result A × Q × W) → Action W (A × Q)
  calling f w = let (r, q, w') = f w in (elim r [ ok a ↦ ok (a, q) | err e ↦ err e ], w')

  -- NextWhile, then Reset
  unfoldable pub run_query : Q → Action W (Unit {0})
  run_query q = calling (c.next_while q) >>= λ p. calling (c.reset p.1) >> pure tt

  -- CreateMigrationsTable
  unfoldable pub create_migrations_table : Action W (Unit {0})
  unfolding run_query
  create_migrations_table = run_query (
      c.build_query
        "create table if not exists _migrations (version integer primary key,description text not null,installed_on timestamp not null default current_timestamp,checksum text not null);")

  -- The body of the loop of GetAppliedMigrations: what a row, and what a call of Next, leads to.
  abbrev pub after_row :
      (List AppliedMigration → Result (List AppliedMigration) × W)
      → List AppliedMigration
      → Result AppliedMigration
      → W
      → Result (List AppliedMigration) × W
  after_row loop migrations (ok row) w = loop (migrations ++ row ∷ [])
  after_row loop migrations (err e) w = (err e, w)

  abbrev pub after_next :
      List AppliedMigration
      → (r : Result Bool)
      → (r ≡ ok true → List AppliedMigration → Result (List AppliedMigration) × W)
      → Q
      → W
      → Result (List AppliedMigration) × W
  after_next migrations (ok true) loop q w =
      after_row (loop refl) migrations (applied_row (c.as_int 0 q w) (c.as_string 1 q w)) w
  after_next migrations (ok false) loop q w = (calling (c.reset q) >> pure migrations) w
  after_next migrations (err e) loop q w = (err e, w)

  -- ApplyMigrationSql
  unfoldable pub apply_migration_sql : Migration → Action W (Unit {0})
  unfolding run_query
  apply_migration_sql m =
      let q = c.build_query m.sql in if m.exec then calling (c.exec q) >> pure tt else run_query q

  -- ApplyMigration
  unfoldable pub apply_migration : Migration → String → Action W (Unit {0})
  unfolding apply_migration_sql
  apply_migration m checksum = apply_migration_sql m >> (λ w.
      run_query
        (c.bind_chars 2 checksum (
          c.bind_chars 1 m.description (
            c.bind_int 0 m.version (
              c.build_query
                "insert into _migrations (version, description, checksum)values ($1, $2, $3);"))))
        w)

  -- Checksum
  unfoldable pub checksum_of : Migration → String
  checksum_of m = sha512_hex m.sql

  -- The test on a migration that was applied before.
  abbrev pub matches : Migration → AppliedMigration → Bool
  matches m a = int_eq a.version m.version && str_eq a.checksum (checksum_of m)

  -- The loop of ApplyMigrations over the migrations from index `i` on; `applied.at(i)` is in range.
  unfoldable pub apply_from : List AppliedMigration → ℕ → List Migration → Action W (Unit {0})
  unfolding apply_migration checksum_of
  apply_from applied i [] w = (ok tt, w)
  apply_from applied i (m ∷ ms) w =
      let rest = apply_from applied (i + 1) ms in
      if ltb i (length applied)
      then elim (get_elem? applied i) [
        | none ↦ (err mismatch, w)
        | some a ↦ if matches m a then rest w else (err mismatch, w)
      ]
      else (apply_migration m (checksum_of m) >> rest) w

  -- The rollback of or_else: the error stays, unless the rollback has one of its own.
  abbrev pub or_rollback : Result (Unit {0}) × W → Result (Unit {0}) × W
  or_rollback (ok u, w) = (ok u, w)
  or_rollback (err e, w) = (c.rollback >> λ w'. (err e, w')) w

-- The part that reads rows, on a connection whose result sets are finite.
module _ {W Q : Type 0} (c : Connection W Q) (sha512_hex : String → String)
    (finite : FiniteRows c) where
  -- The loop of GetAppliedMigrations, from the call of Next on. The number bounds the rows left, so
  -- the loop cannot run out of it.
  unfoldable pub applied_from :
      (bound : ℕ)
      → List AppliedMigration
      → (q : Q) (w : W) → finite.rows_left q w < bound
      → Result (List AppliedMigration) × W
  applied_from zero migrations q w h = elim (below_zero h) [ ]
  applied_from (suc bound) migrations q w h =
      after_next c sha512_hex migrations (c.next q w).0
        (λ more ms.
          applied_from bound ms (c.next q w).1 (c.next q w).2
            (below_pred (finite.next-decreases q w more) h))
        (c.next q w).1 (c.next q w).2

  -- GetAppliedMigrations
  unfoldable pub get_applied_migrations : Action W (List AppliedMigration)
  unfolding applied_from
  get_applied_migrations w =
      let q = c.build_query "select version, checksum from _migrations order by version;" in
      applied_from (suc (finite.rows_left q w)) [] q w (below_suc (finite.rows_left q w))

  -- ApplyMigrations
  unfoldable pub apply_migrations : List Migration → Action W (Unit {0})
  unfolding create_migrations_table get_applied_migrations apply_from
  apply_migrations migrations w = or_rollback c sha512_hex (
      ((c.transaction
            >> create_migrations_table c sha512_hex
            >> get_applied_migrations
            >>= λ applied. apply_from c sha512_hex applied 0 migrations)
          >> c.commit)
        w)

  -- A Migrate that is constructed from migrations, and applied.
  unfoldable pub migrate : List Migration → Action W (Unit {0})
  unfolding apply_migrations sort_by_version
  migrate migrations = apply_migrations (sort_by_version migrations)
