-- ===== src/Cli/Examples.antt =====
-- Runs of evget/src/cli.cpp: names of options, a filter, and outputs on databases that only log the
-- calls of their connection.
use Prim.Native.Char.{Char}
use evget.Prelude.{
  arith, ◌≡◌, refl, String, false, none, some, List, [], ◌∷◌, ◌++◌, str_eq, if◌then◌else◌,
}
use evget.Prelude.Int.{pos}
use evget.Error.{Error, ok, err, database_error}
use evget.Event.Enums.{tablet}
use evget.Database.Connection.{Connection, FiniteRows}
use evget.Storage.Init.{init, IsDatabaseError}
use evget.Cli.{contains_text, parse_filter}
use evget.Cli.Text.{sq_lite, map_chars, get_storage_type}
use evget.Cli.Filters.{names_type, is_name_of, lets_through, parse_filter-lets_through}
use evget.Cli.Stores.{
  to_stores, console, database, opened, databases, init_all, to_stores-init_all,
  to_stores-IsDatabaseError,
}
use evget.Cli.Extensions.{has_dot, dotted, get_storage_type-Suffix}

abbrev same_text : String → String
same_text s = s

-- A path whose connection cannot be made.
abbrev locked : Error
locked = record { error_type = database_error; message = "locked" }

abbrev logger : String → Connection (List String) String
logger path = record {
  connect = λ p o w. if str_eq p "locked.db" then (err locked, w) else (ok tt, w ++ p ∷ []);
  transaction = λ w. (ok tt, w);
  commit = λ w. (ok tt, w ++ "commit" ∷ []);
  rollback = λ w. (ok tt, w);
  build_query = λ s. s;
  bind_int = λ i n q. q;
  bind_chars = λ i s q. q;
  next = λ q w. (ok false, q, w);
  next_while = λ q w. (ok tt, q, w);
  reset = λ q w. (ok tt, q, w);
  exec = λ q w. (ok tt, q, w);
  as_int = λ i q w. ok (pos 0);
  as_string = λ i q w. ok "";
}

parse_filter-lets_through_example :
    lets_through (parse_filter none ("mouse" ∷ "touchpad" ∷ [])) tablet ≡ false
unfolding contains_text names_type is_name_of
parse_filter-lets_through_example = parse_filter-lets_through ("mouse" ∷ "touchpad" ∷ []) tablet

logger_rows : (path : String) → FiniteRows (logger path)
logger_rows path = record { rows_left = λ q w. 0; next-decreases = λ q w h. ground arith }

abbrev same : Char → Char
same c = c

to_stores-init_all_example :
    to_stores same logger same_text "create" logger_rows ("a.db" ∷ "-" ∷ []) []
    ≡ (ok (database "a.db" ∷ console ∷ []), "a.db" ∷ "commit" ∷ [])
unfolding opened databases init_all init
to_stores-init_all_example =
    to_stores-init_all same logger same_text "create" logger_rows ("a.db" ∷ "-" ∷ []) []

to_stores-IsDatabaseError_example :
    IsDatabaseError
      (to_stores same logger same_text "create" logger_rows ("locked.db" ∷ "b.db" ∷ []) []).0
to_stores-IsDatabaseError_example =
    to_stores-IsDatabaseError same logger same_text "create" logger_rows ("locked.db" ∷ "b.db" ∷ [])
      []

get_storage_type-Suffix_example : get_storage_type same "events.2024.sqlite3" ≡ sq_lite
unfolding map_chars has_dot
get_storage_type-Suffix_example =
    get_storage_type-Suffix same "events.2024.sqlite3" (some "sqlite3") refl
      (dotted "events.2024" "sqlite3" refl)
