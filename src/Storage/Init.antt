-- ===== src/Storage/Init.antt =====
-- `Init` of evget/src/storage/database_storage.cpp: the connection, and the one migration that makes
-- the tables. Its SQL is a file that the build embeds, the parameter `initialize`.
use evget.Prelude.{◌≡◌, refl, String, true, List, [], ◌∷◌, if◌then◌else◌}
use evget.Prelude.Int.{pos}
use evget.Error.{Result, ok, err, database_error}
use evget.Database.Connection.{
  Connection, FiniteRows, Action, ◌>>◌, read_write_create, as_database_error,
}
use evget.Database.Migrate.{
  Migration, AppliedMigration, migrate, mismatch, matches, apply_migration, checksum_of,
}

-- An error of a call of the database has the type `database_error`.
abbrev pub IsDatabaseError : {A : Type 0} → Result A → Type 0
IsDatabaseError (ok a) = Unit
IsDatabaseError (err e) = e.error_type ≡ database_error

module _ {W Q : Type 0} (c : Connection W Q) (sha512_hex : String → String)
    (initialize : String) where
  -- The migration of the build.
  abbrev pub initial_migration : Migration
  initial_migration = record {
    version = pos 1;
    description = "initialize database tables";
    sql = initialize;
    exec = true;
  }

  -- DatabaseStorage::Init
  unfoldable pub init : FiniteRows c → String → Action W (Unit {0})
  unfolding migrate
  init finite database =
      as_database_error (c.connect database read_write_create)
      >> as_database_error (migrate c sha512_hex finite (initial_migration ∷ []))

  as_database_error-IsDatabaseError :
      {A : Type 0} (m : Action W A) (w : W) → IsDatabaseError (as_database_error m w).0
  as_database_error-IsDatabaseError {A = A} m w = go (m w)
    where
      go : (r : Result A × W) → IsDatabaseError (as_database_error (λ v. r) w).0
      go (ok a, w') = tt
      go (err e, w') = refl

  -- Whatever fails in `Init`, the connection or the migration, is reported as a database error.
  pub init-IsDatabaseError :
      (finite : FiniteRows c) (database : String) (w : W)
      → IsDatabaseError (init finite database w).0
  unfolding init
  init-IsDatabaseError finite database w =
      go (as_database_error (c.connect database read_write_create) w)
        (as_database_error-IsDatabaseError (c.connect database read_write_create) w)
    where
      migrated : Action W (Unit {0})
      migrated = as_database_error (migrate c sha512_hex finite (initial_migration ∷ []))

      go :
          (r : Result (Unit {0}) × W)
          → IsDatabaseError r.0
          → IsDatabaseError (((λ v. r) >> migrated) w).0
      go (ok u, w') h =
          as_database_error-IsDatabaseError (migrate c sha512_hex finite (initial_migration ∷ []))
            w'
      go (err e, w') h = h

  -- What the table of migrations decides: an empty one has the tables made, one whose first row is
  -- that of the build leaves them, and any other is a mismatch.
  abbrev pub make_tables : List AppliedMigration → Action W (Unit {0})
  make_tables [] w =
      apply_migration c sha512_hex initial_migration (checksum_of c sha512_hex initial_migration) w
  make_tables (a ∷ rest) w =
      if matches c sha512_hex initial_migration a then (ok tt, w) else (err mismatch, w)
