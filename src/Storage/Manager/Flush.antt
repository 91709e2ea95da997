-- ===== src/Storage/Manager/Flush.antt =====
-- The batches of evget/src/storage/database_manager.cpp: which calls of `StoreEvent` each spawned task
-- stores, and how full the buffer gets.
use mathlib.Core.Path.{subst}
use evget.Prelude.{
  leb→le, leb→lt, refl, sym, ap, ◌∙◌, ℕ, ◌<◌, ◌≡◌, Bool, true, List, [], ◌∷◌, ◌++◌, map, length,
  length-append, append_assoc, append-nil, Bool-cases, inl, inr, leb, arith, if◌then◌else◌,
}
use evget.Event.Data.{Data, empty}
use evget.Async.LockingVector.{push_back, into_inner, into_inner_at}
use evget.Storage.Store.{Store}
use evget.Storage.Manager.{Manager, Task, push, flush, store_event, spawn_store_data}
use evget.Storage.Manager.Traces.{entries_of, entries-merge_all}

abbrev pub concat : {A : Type 0} → List (List A) → List A
concat [] = []
concat (xs ∷ xss) = xs ++ concat xss

abbrev pub AllOfLength : {A : Type 0} → ℕ → List (List A) → Type 0
AllOfLength n [] = Unit
AllOfLength n (xs ∷ xss) = (length xs ≡ n) × AllOfLength n xss

module _ {W : Type 0} where
  -- Calls of StoreEvent, one after the other.
  unfoldable pub store_all : List Data → Manager W → Manager W
  unfolding store_event
  store_all [] m = m
  store_all (d ∷ ds) m = store_all ds (store_event d m)

  -- The task of a batch: the entries of its calls, in order, for these stores.
  abbrev pub task_of : List (Store W) → List Data → Task W
  task_of stores batch = record { out = record { entries = entries_of batch }; store_in = stores }

  -- The calls `ds` cut into full batches, each with a task of its own, and the calls that are left.
  abbrev pub Batches : Manager W → List Data → Manager W → Type 0
  Batches m ds m' =
      (batches : List (List Data)) × (concat batches ++ m'.buffer.inner ≡ m.buffer.inner ++ ds)
      × AllOfLength m.n_events batches
      × (length m'.buffer.inner < m.n_events)
      × (m'.tasks ≡ m.tasks ++ map (task_of m.stores) batches)

  -- The manager after a call that fills a batch, and after one that does not.
  abbrev filled : Data → Manager W → Manager W
  filled d m = record m {
    buffer = record { inner = [] };
    tasks = m.tasks ++ task_of m.stores (m.buffer.inner ++ d ∷ []) ∷ [];
  }

  abbrev grown : Data → Manager W → Manager W
  grown d m = record m { buffer = record { inner = m.buffer.inner ++ d ∷ [] } }

  is_full : Data → Manager W → Bool
  is_full d m = leb m.n_events (length (m.buffer.inner ++ d ∷ []))

  store_event-cases :
      (d : Data) (m : Manager W) → store_event d m ≡ (if is_full d m then filled d m else grown d m)
  unfolding is_full store_event push flush push_back into_inner_at into_inner spawn_store_data
  store_event-cases d m = elim (Bool-cases (leb m.n_events (length (m.buffer.inner ++ d ∷ [])))) [
    | inl y ↦ rw y (
        ap
          (λ es. record m {
            buffer = record { inner = [] };
            tasks = m.tasks ++ record { out = record { entries = es }; store_in = m.stores } ∷ [];
          })
          (entries-merge_all empty (m.buffer.inner ++ d ∷ [])))
    | inr n ↦ rw n refl
  ]

  filled-Batches :
      (d : Data) (ds : List Data) (m m' : Manager W)
      → length m.buffer.inner < m.n_events
      → is_full d m ≡ true
      → Batches (filled d m) ds m'
      → Batches m (d ∷ ds) m'
  unfolding is_full
  filled-Batches d ds m m' h y (bs, cut, all, less, spawned) =
      let batch = m.buffer.inner ++ d ∷ [] in
      (
        batch ∷ bs,
        append_assoc batch (concat bs) m'.buffer.inner
            ∙ ap (λ xs. batch ++ xs) cut
            ∙ append_assoc m.buffer.inner (d ∷ []) ds,
        (
          omega
              (arith, h, length-append m.buffer.inner (d ∷ []), leb→le m.n_events (length batch) y),
          all,
        ),
        less,
        spawned ∙ append_assoc m.tasks (task_of m.stores batch ∷ []) (map (task_of m.stores) bs),
      )

  grown-Batches :
      (d : Data) (ds : List Data) (m m' : Manager W)
      → Batches (grown d m) ds m'
      → Batches m (d ∷ ds) m'
  grown-Batches d ds m m' (bs, cut, all, less, spawned) =
      (bs, cut ∙ append_assoc m.buffer.inner (d ∷ []) ds, all, less, spawned)

  -- Starting with less than a full batch in the buffer, any number of calls of StoreEvent leaves
  -- less than a full batch in it. What was in the buffer and the calls, in order, are cut into
  -- batches of exactly `n_events` calls and what is left in the buffer; for each batch, in order,
  -- one task has been spawned, with the entries of the batch in order and the stores of the
  -- manager, and there is no other new task.
  pub store_all-Batches :
      (ds : List Data) (m : Manager W)
      → length m.buffer.inner < m.n_events
      → Batches m ds (store_all ds m)
  unfolding store_all is_full
  store_all-Batches [] m h = ([], sym (append-nil m.buffer.inner), tt, h, sym (append-nil m.tasks))
  store_all-Batches (d ∷ ds) m h = elim (Bool-cases (is_full d m)) [
    | inl y ↦
        subst (λ m1. Batches m (d ∷ ds) (store_all ds m1)) (sym (store_event-cases d m ∙ rw y refl))
          (filled-Batches d ds m (store_all ds (filled d m)) h y
            (store_all-Batches ds (filled d m) (omega (arith, h))))
    | inr n ↦
        subst (λ m1. Batches m (d ∷ ds) (store_all ds m1)) (sym (store_event-cases d m ∙ rw n refl))
          (grown-Batches d ds m (store_all ds (grown d m)) (
            store_all-Batches ds (grown d m)
              (leb→lt m.n_events (length (m.buffer.inner ++ d ∷ [])) n)))
  ]
