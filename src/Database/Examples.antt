-- ===== src/Database/Examples.antt =====
-- Runs of the migrations of evget/src/database/migrate.cpp on a database that keeps the statements
-- that ran.
use evget.Prelude.{
  ℕ, suc, ◌-◌, ◌≡◌, ◌<◌, refl, String, true, false, none, some, List, [], ◌∷◌, ◌++◌, length,
  get_elem?, ltb, if◌then◌else◌, arith,
}
use evget.Prelude.Int.{pos}
use evget.Error.{Result, ok, err}
use evget.Database.Connection.{Connection, FiniteRows}
use evget.Database.Migrate.{
  Migration, AppliedMigration, missing, migrate, apply_migration, sort_by_version, run_query,
  create_migrations_table, get_applied_migrations, checksum_of, apply_migration_sql,
}
use evget.Database.Migrate.Pending.{migrate-pending}
use evget.Storage.Init.{init, init-IsDatabaseError, IsDatabaseError}
use evget.Database.Migrate.Rows.{Reads, get_applied_migrations-Reads}

record Ledger : Type 0 where
  recorded : List AppliedMigration
  ran : List String

record Cursor : Type 0 where
  sql : String
  position : ℕ

abbrev ran_by : Cursor → Ledger → Result (Unit {0}) × Cursor × Ledger
ran_by q w = (ok tt, q, record w { ran = w.ran ++ q.sql ∷ [] })

abbrev ledger : Connection Ledger Cursor
ledger = record {
  connect = λ path o w. (ok tt, w);
  transaction = λ w. (ok tt, w);
  commit = λ w. (ok tt, record w { ran = w.ran ++ "commit" ∷ [] });
  rollback = λ w. (ok tt, record w { ran = w.ran ++ "rollback" ∷ [] });
  build_query = λ s. record { sql = s; position = 0 };
  bind_int = λ i z q. q;
  bind_chars = λ i v q. q;
  next = λ q w.
      if ltb q.position (length w.recorded)
      then (ok true, record q { position = suc q.position }, w)
      else (ok false, q, w);
  next_while = ran_by;
  reset = λ q w. (ok tt, q, w);
  exec = ran_by;
  as_int = λ i q w. elim (get_elem? w.recorded (q.position - 1)) [
    | none ↦ err missing
    | some a ↦ ok a.version
  ];
  as_string = λ i q w. elim (get_elem? w.recorded (q.position - 1)) [
    | none ↦ err missing
    | some a ↦ ok a.checksum
  ];
}

-- A row that is reached is one of those left.
next-decreases_lem :
    (q : Cursor) (w : Ledger)
    → (ledger.next q w).0 ≡ ok true
    → length (ledger.next q w).2.recorded - (ledger.next q w).1.position
      < length w.recorded - q.position
next-decreases_lem q w h = ground arith

abbrev ledger_rows : FiniteRows ledger
ledger_rows = record {
  rows_left = λ q w. length w.recorded - q.position;
  next-decreases = next-decreases_lem;
}

abbrev first : Migration
first = record { version = pos 1; description = "tables"; sql = "create a"; exec = true }

abbrev second : Migration
second = record { version = pos 2; description = "more"; sql = "create b"; exec = true }

-- The checksum of this machine is the text itself.
abbrev hash : String → String
hash s = s

abbrev one_applied : Ledger
one_applied = record { recorded = record { version = pos 1; checksum = "create a" } ∷ []; ran = [] }

abbrev table_made : Ledger
table_made = record one_applied {
  ran =
      "create table if not exists _migrations (version integer primary key,description text not null,installed_on timestamp not null default current_timestamp,checksum text not null);"
      ∷ [];
}

migrate-pending_example : migrate ledger hash ledger_rows (second ∷ first ∷ []) one_applied ≡ (
  ok tt,
  record one_applied {
    ran =
        table_made.ran
        ++ "create b"
          ∷ "insert into _migrations (version, description, checksum)values ($1, $2, $3);"
          ∷ "commit" ∷ [];
  },
)
unfolding create_migrations_table get_applied_migrations run_query apply_migration
    apply_migration_sql sort_by_version checksum_of
migrate-pending_example =
    migrate-pending ledger hash ledger_rows (second ∷ first ∷ [])
      (record { version = pos 1; checksum = "create a" } ∷ []) one_applied table_made refl

get_applied_migrations-Reads_example :
    Reads ledger hash []
      (record { sql = "select version, checksum from _migrations order by version;"; position = 0 })
      one_applied
      (ok (record { version = pos 1; checksum = "create a" } ∷ []), one_applied)
unfolding get_applied_migrations
get_applied_migrations-Reads_example =
    get_applied_migrations-Reads ledger hash ledger_rows one_applied

abbrev no_tables : Ledger
no_tables = record { recorded = []; ran = [] }

abbrev made : List String
made = table_made.ran

-- A table that records another migration.
init-IsDatabaseError_example :
    IsDatabaseError (init ledger hash "create c" ledger_rows "events.sqlite" one_applied).0
init-IsDatabaseError_example =
    init-IsDatabaseError ledger hash "create c" ledger_rows "events.sqlite" one_applied
