-- ===== src/Storage/Examples.antt =====
-- Runs of the stores of evget/src/storage: an in-memory database, and stores that count.
use evget.Prelude.{
  ℕ, suc, ◌+◌, ◌≡◌, refl, String, Bool, true, false, Option, some, List, [], ◌∷◌, ◌++◌, Map,
  no_entries, insert, ◌==◌, if◌then◌else◌, inl, to_string, returns, throws, invalid_argument, stoi,
  length, arith,
}
use mathlib.Core.List.{Perm}
use evget.Prelude.Int.{pos}
use evget.Error.{Error, database_error, async_error, ok, err}
use evget.Event.Enums.{
  key, mouse_move, DeviceType, mouse, keyboard, to_underlying, to_underlying_optional,
  device_type_enum, from_underlying,
}
use evget.Event.Entry.{Entry}
use evget.Event.Data.{Data}
use evget.Database.Connection.{Connection}
use evget.Storage.Store.{Store}
use evget.Storage.Sql.{Queries, World}
use evget.Storage.Sql
use evget.Storage.Sql.Rows.{Row, Transactional, rows_of}
use evget.Storage.Sql.Refinement.{store_event-Stored, Stored}
use evget.Storage.Filter
use evget.Storage.Filter.Selection.{store_event-select, store_event-Malformed}
use evget.Event.Enums.{press, shift, button_action_enum, modifier_value_enum}
use evget.Event.Entry.{fields_of}
use evget.Event.Fields.{mouse_move_fields, key_fields}
use evget.Storage.Json
use evget.Storage.Json.{Json}
use evget.Prelude.{Throws}
use evget.Storage.Json.Documents.{Said, store_event-written}
use evget.Prelude.{map, none}
use evget.Storage.Manager.{
  Manager, Running, Action, push_action, flush_action, timer_action, start_action, continue_action,
  step,
}
use evget.Storage.Manager.Traces.{run, waiting}
use evget.Storage.Manager.Conservation.{run-Perm-conserves}
use evget.Storage.Manager.Failure.{Held, failing_store-Held}
use evget.Storage.Manager.Stopped.{Frozen, failing_timer-Frozen}
use evget.Storage.Manager.Flush.{Batches, store_all, store_all-Batches}

record Database : Type 0 where
  durable : List Row
  pending : List Row
  in_transaction : Bool

record Statement : Type 0 where
  sql : String
  bound : Map ℕ String

abbrev row_of : Statement → Row
row_of q = record { sql = q.sql; bound = q.bound }

abbrev inserted : Statement → Database → Database
inserted q w =
    if w.in_transaction
    then record w { pending = w.pending ++ row_of q ∷ [] }
    else record w { durable = w.durable ++ row_of q ∷ [] }

abbrev memory : Connection Database Statement
memory = record {
  connect = λ path o w. (ok tt, w);
  transaction = λ w. (ok tt, record w { pending = []; in_transaction = true });
  commit = λ w.
      (ok tt, record { durable = w.durable ++ w.pending; pending = []; in_transaction = false });
  rollback = λ w. (ok tt, record w { pending = []; in_transaction = false });
  build_query = λ s. record { sql = s; bound = no_entries };
  bind_int = λ i z q. record q { bound = insert ◌==◌ i (to_string z) q.bound };
  bind_chars = λ i v q. record q { bound = insert ◌==◌ i v q.bound };
  next = λ q w. (ok false, q, inserted q w);
  next_while = λ q w. (ok tt, q, inserted q w);
  reset = λ q w. (ok tt, record q { bound = no_entries }, w);
  exec = λ q w. (ok tt, q, inserted q w);
  as_int = λ i q w. ok (pos 0);
  as_string = λ i q w. ok "";
}

memory-Transactional : Transactional memory
memory-Transactional = record {
  durable = λ w. w.durable;
  pending = λ w. w.pending;
  in_transaction = λ w. w.in_transaction;
  sql_of = λ q. q.sql;
  bound = λ q. q.bound;
  connect-durable = λ path o w. refl;
  transaction-durable = λ w. refl;
  transaction-opens = λ w u h. (refl, refl);
  build-sql = λ s. refl;
  build-bound = λ s. refl;
  bind-sql = λ i v q. refl;
  bind-bound = λ i v q. refl;
  run-durable = λ q w h. rw h refl;
  run-inserts = λ q w u h e. rw h (refl, refl, refl);
  reset-durable = λ q w. refl;
  reset-clears = λ q w u h. (refl, refl, refl, refl);
  commit-ok = λ w u h. refl;
  commit-err = λ w e h. ground arith;
}

abbrev queries : Queries
queries = record {
  insert_key = "key";
  insert_key_modifier = "key modifier";
  insert_mouse_click = "click";
  insert_mouse_click_modifier = "click modifier";
  insert_mouse_move = "move";
  insert_mouse_move_modifier = "move modifier";
  insert_mouse_scroll = "scroll";
  insert_mouse_scroll_modifier = "scroll modifier";
}

abbrev next_uuid : ℕ → String × ℕ
next_uuid r = (to_string (pos r), suc r)

-- The first values of an entry, up to its device type.
abbrev values_with : String → List String
values_with device =
    "" ∷ "" ∷ "" ∷ "" ∷ "" ∷ "" ∷ "" ∷ "" ∷ "" ∷ "" ∷ "" ∷ "" ∷ "" ∷ "" ∷ device ∷ []

abbrev key_entry : Entry
key_entry = record {
  entry_type = key;
  values = values_with (to_underlying keyboard);
  modifiers = "0" ∷ "2" ∷ [];
}

abbrev move_entry : Entry
move_entry = record {
  entry_type = mouse_move;
  values = values_with (to_underlying mouse);
  modifiers = [];
}

abbrev broken_entry : Entry
broken_entry = record { entry_type = mouse_move; values = values_with "mouse"; modifiers = [] }

abbrev two_entries : Data
two_entries = record { entries = key_entry ∷ move_entry ∷ [] }

abbrev disk : World Database ℕ
disk = record {
  connection = record { durable = []; pending = []; in_transaction = false };
  random = 5;
}

store_event-Stored_example :
    Stored memory-Transactional next_uuid queries "evget.sqlite" disk
      (rows_of next_uuid queries two_entries.entries 5)
      (Sql.store_event memory next_uuid queries "evget.sqlite" two_entries disk)
store_event-Stored_example =
    store_event-Stored memory-Transactional next_uuid queries "evget.sqlite" two_entries disk

-- A store that counts the entries that it has, and one that fails.
abbrev counting : Store ℕ
counting = record { store_event = λ d w. (returns (ok tt), w + length d.entries) }

abbrev failing : Store ℕ
failing = record {
  store_event =
      λ d w. (returns (err (record { error_type = database_error; message = "full" })), w);
}

device_of_entry : Entry → Option DeviceType
device_of_entry e = elim e.entry_type [ key ↦ some keyboard | _ ↦ some mouse ]

store_event-select_example :
    Filter.store_event counting (some (keyboard ∷ [])) two_entries 0 ≡ (returns (ok tt), 1)
unfolding device_of_entry device_type_enum to_underlying_optional to_underlying Filter.contains
store_event-select_example =
    store_event-select counting (keyboard ∷ []) device_of_entry two_entries 0
      (inl (refl, refl), (inl (refl, refl), tt))

store_event-Malformed_example :
    Filter.store_event counting
      (some (keyboard ∷ []))
      (record { entries = key_entry ∷ broken_entry ∷ move_entry ∷ [] })
      0
    ≡ (throws invalid_argument, 0)
unfolding device_of_entry device_type_enum from_underlying stoi to_underlying_optional to_underlying
store_event-Malformed_example =
    store_event-Malformed counting (keyboard ∷ []) device_of_entry (key_entry ∷ [])
      (move_entry ∷ []) broken_entry invalid_argument 0 (inl (refl, refl), tt) ("mouse", refl, refl)

abbrev manager : Manager ℕ
manager = record {
  n_events = 2;
  buffer = record { inner = [] };
  stores = counting ∷ failing ∷ counting ∷ [];
  tasks = [];
  running = [];
  stopped = false;
  world = 0;
}

abbrev interleaved : List (Action ℕ)
interleaved =
    push_action two_entries
    ∷ push_action two_entries
    ∷ flush_action
    ∷ flush_action
    ∷ timer_action (ok tt)
    ∷ start_action 1
    ∷ start_action 0
    ∷ continue_action 1
    ∷ continue_action 0
    ∷ continue_action 1
    ∷ []

run-Perm-conserves_example :
    Perm
      ((run interleaved manager).0 ++ waiting (run interleaved manager).1)
      (key_entry ∷ move_entry ∷ key_entry ∷ move_entry ∷ [])
run-Perm-conserves_example = run-Perm-conserves interleaved manager

store_all-Batches_example :
    Batches manager
      (two_entries ∷ two_entries ∷ two_entries ∷ [])
      (store_all (two_entries ∷ two_entries ∷ two_entries ∷ []) manager)
store_all-Batches_example =
    store_all-Batches (two_entries ∷ two_entries ∷ two_entries ∷ []) manager (omega arith)

-- A coroutine that has called the first of its three stores, one that has not started, and a task.
abbrev halfway : Running ℕ
halfway = record { out = two_entries; left = failing ∷ counting ∷ []; ended = none }

abbrev other : Running ℕ
other = record { out = two_entries; left = counting ∷ []; ended = none }

abbrev busy : Manager ℕ
busy = record manager {
  tasks = record { out = two_entries; store_in = counting ∷ [] } ∷ [];
  running = other ∷ halfway ∷ [];
}

abbrev later : List (Action ℕ)
later = start_action 0 ∷ continue_action 2 ∷ timer_action (ok tt) ∷ []

failing_store-Held_example :
    ((step (continue_action 1) busy).1.world ≡ 0)
    × Held
        (record halfway {
          left = counting ∷ [];
          ended = some (returns (err (record { error_type = database_error; message = "full" })));
        })
        (run later (step (continue_action 1) busy).1).1
failing_store-Held_example =
    failing_store-Held busy 1 halfway (other ∷ []) failing (counting ∷ []) later refl refl refl refl

abbrev clock_error : Error
clock_error = record { error_type = async_error; message = "clock" }

abbrev stopped_busy : Manager ℕ
stopped_busy = (step (timer_action (err clock_error)) busy).1

failing_timer-Frozen_example :
    (stopped_busy.world ≡ 0)
    × (stopped_busy.running ≡ busy.running)
    × (stopped_busy.tasks ≡ busy.tasks)
    × Frozen stopped_busy later
failing_timer-Frozen_example = failing_timer-Frozen busy clock_error later

-- An entry with all the values of its type.
abbrev full_entry : Entry
full_entry = record {
  entry_type = key;
  values = values_with (to_underlying keyboard) ++ "30" ∷ "KEY_A" ∷ "a" ∷ to_underlying press ∷ [];
  modifiers = map to_underlying (shift ∷ []);
}

abbrev full_said : Said
full_said = record {
  entry = full_entry;
  device = some keyboard;
  action = some press;
  modifiers = shift ∷ [];
}

abbrev short_said : Said
short_said = record { entry = move_entry; device = some mouse; action = none; modifiers = [] }

one_line : Json → Throws String
one_line j = returns "{}"

store_event-written_example :
    Json.store_event one_line (record { entries = full_entry ∷ move_entry ∷ [] }) "first "
    ≡ (returns (ok tt), "first {}\n")
unfolding one_line to_underlying_optional to_underlying device_type_enum button_action_enum
    modifier_value_enum fields_of mouse_move_fields key_fields
store_event-written_example = store_event-written one_line (full_said ∷ short_said ∷ []) "first " (
  ((refl, refl, (refl, refl), (refl, tt), refl), omega arith),
  (((refl, refl, tt, tt, refl), omega arith), tt),
)
