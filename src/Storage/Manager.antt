-- ===== src/Storage/Manager.antt =====
-- evget/src/storage/database_manager.cpp, with the parts of evget/src/async/scheduler/scheduler.cpp
-- that it uses. Threads interleave between the critical sections, so each section is an action of
-- its own; a call of `StoreEvent` is the two actions `push` and `flush`. A coroutine that is spawned
-- waits in `tasks`. The pool starts waiting tasks in any order until it is stopped. A coroutine that
-- has been started is in `running`: each call of a store is an action, and so is the call of its
-- handler at its end, and a stop of the pool does not interrupt it.
pub mod Traces
pub mod Conservation
pub mod Flush
pub mod Stopped
pub mod Failure
use evget.Prelude.{
  ℕ, zero, suc, Bool, true, Option, none, some, List, [], ◌∷◌, ◌++◌, if◌then◌else◌, returns, throws,
}
use evget.Error.{Result, ok, err, database_manager_error}
use evget.Event.Data.{Data, empty, merge_with}
use evget.Async.LockingVector.{LockingVector, push_back, into_inner, into_inner_at}
use evget.Storage.Store.{Store, Outcome}

-- A spawned StoreCoroutine: its entries, and the stores that were there when it was spawned.
pub record Task (W : Type 0) : Type 0 where
  pub out : Data
  pub store_in : List (Store W)

-- A StoreCoroutine that has been started: the stores that it has not called, and its outcome once it
-- has one and waits for its handler.
pub record Running (W : Type 0) : Type 0 where
  pub out : Data
  pub left : List (Store W)
  pub ended : Option Outcome

pub record Manager (W : Type 0) : Type 0 where
  pub n_events : ℕ
  pub buffer : LockingVector Data
  pub stores : List (Store W)
  pub tasks : List (Task W)
  pub running : List (Running W)
  pub stopped : Bool
  pub world : W

-- The loop of SpawnStoreData that merges a batch.
unfoldable pub merge_all : Data → List Data → Data
unfolding merge_with
merge_all out [] = out
merge_all out (d ∷ ds) = merge_all (merge_with out d) ds

-- ResultHandler and LogException: an error or an exception stops the scheduler.
unfoldable pub result_handler : Outcome → Bool → Bool
result_handler (returns (ok u)) stopped = stopped
result_handler (returns (err e)) stopped = true
result_handler (throws x) stopped = true

-- Takes out the element at a position.
abbrev pub take_at : {A : Type 0} → ℕ → List A → Option (A × List A)
take_at i [] = none
take_at zero (x ∷ xs) = some (x, xs)
take_at (suc i) (x ∷ xs) = elim (take_at i xs) [ none ↦ none | some (y, ys) ↦ some (y, x ∷ ys) ]

-- What a coroutine that has been started changes: the coroutines that run, the world, and whether
-- the scheduler is stopped.
abbrev pub Progress : Type 0 → Type 0
Progress W = List (Running W) × W × Bool

module _ {W : Type 0} where
  -- The `if` of StoreCoroutine's loop.
  abbrev pub after_call : Running W → List (Store W) → Outcome → Running W
  after_call r ss (returns (ok u)) = record r { left = ss }
  after_call r ss (returns (err e)) = record r { left = ss; ended = some (returns (err e)) }
  after_call r ss (throws x) = record r { left = ss; ended = some (throws x) }

  -- One round of the loop of StoreCoroutine, or its end with success.
  unfoldable pub call_next : Running W → List (Store W) → W → Running W × W
  call_next r [] w = (record r { left = []; ended = some (returns (ok tt)) }, w)
  call_next r (s ∷ ss) w = let (o, w') = s.store_event r.out w in (after_call r ss o, w')

  -- SpawnStoreData, with the snapshot of the stores
  unfoldable pub spawn_store_data : Option (List Data) → Manager W → Manager W
  unfolding merge_all
  spawn_store_data none m = m
  spawn_store_data (some inner) m = record m {
    tasks = m.tasks ++ record { out = merge_all empty inner; store_in = m.stores } ∷ [];
  }

  -- The first statement of StoreEvent.
  unfoldable pub push : Data → Manager W → Manager W
  unfolding push_back
  push events m = record m { buffer = push_back events m.buffer }

  -- The rest of StoreEvent.
  unfoldable pub flush : Manager W → Manager W
  unfolding into_inner_at spawn_store_data
  flush m =
      let (inner, left) = into_inner_at m.n_events m.buffer in
      spawn_store_data inner (record m { buffer = left })

  -- DatabaseManager::StoreEvent, with no other thread in between
  unfoldable pub store_event : Data → Manager W → Manager W
  unfolding push flush
  store_event events m = flush (push events m)

  -- AddStore
  unfoldable pub add_store : Store W → Manager W → Manager W
  add_store s m = record m { stores = m.stores ++ s ∷ [] }

  -- The body of the loop of StoreAfterCoroutine after a tick.
  unfoldable pub tick : Manager W → Manager W
  unfolding into_inner spawn_store_data
  tick m =
      let (inner, left) = into_inner m.buffer in spawn_store_data inner (record m { buffer = left })

  -- What the timer's answer to a wait does: a tick, or the end of the coroutine, whose error the
  -- ResultHandler of SpawnStoreAfter takes.
  unfoldable pub after_wait : Result (Unit {0}) → Manager W → Manager W
  unfolding tick result_handler
  after_wait (ok u) m = tick m
  after_wait (err e) m = record m {
    stopped =
        result_handler
          (returns (err (record { error_type = database_manager_error; message = e.message })))
          m.stopped;
  }

  -- The pool starts the waiting task at a position.
  abbrev pub start_taken : Manager W → Option (Task W × List (Task W)) → Manager W
  start_taken m none = m
  start_taken m (some (t, rest)) = record m {
    tasks = rest;
    running = record { out = t.out; left = t.store_in; ended = none } ∷ m.running;
  }

  unfoldable pub start_task : ℕ → Manager W → Manager W
  start_task i m = if m.stopped then m else start_taken m (take_at i m.tasks)

  -- The next action of a coroutine: a call of a store, or its handler once it has an outcome. At its
  -- end it reports its entries.
  abbrev pub proceed :
      Running W → Option Outcome → List (Running W) → W → Bool → Option Data × Progress W
  proceed r none rest w stopped =
      let (r', w') = call_next r r.left w in (none, (r' ∷ rest, w', stopped))
  proceed r (some o) rest w stopped = (some r.out, (rest, w, result_handler o stopped))

  abbrev pub proceed_taken :
      Progress W → Option (Running W × List (Running W)) → Option Data × Progress W
  proceed_taken p none = (none, p)
  proceed_taken (running, w, stopped) (some (r, rest)) = proceed r r.ended rest w stopped

  abbrev pub progress_of : Manager W → Progress W
  progress_of m = (m.running, m.world, m.stopped)

  abbrev pub with_progress : Manager W → Option Data × Progress W → Option Data × Manager W
  with_progress m (done, (running, w, stopped)) =
      (done, record m { running = running; stopped = stopped; world = w })

  -- The coroutine at a position goes on, whether the scheduler is stopped or not.
  unfoldable pub continue_task : ℕ → Manager W → Option Data × Manager W
  unfolding call_next result_handler
  continue_task i m = with_progress m (proceed_taken (progress_of m) (take_at i m.running))

pub data Action (W : Type 0) : Type 0 where
  push_action : Data → Action W
  flush_action : Action W
  timer_action : Result (Unit {0}) → Action W
  add_action : Store W → Action W
  start_action : ℕ → Action W
  continue_action : ℕ → Action W

module _ {W : Type 0} where
  -- An action, and the entries of the coroutine that it ended.
  unfoldable pub step : Action W → Manager W → Option Data × Manager W
  unfolding push flush after_wait add_store start_task continue_task
  step (push_action d) m = (none, push d m)
  step flush_action m = (none, flush m)
  step (timer_action r) m = (none, after_wait r m)
  step (add_action s) m = (none, add_store s m)
  step (start_action i) m = (none, start_task i m)
  step (continue_action i) m = continue_task i m
