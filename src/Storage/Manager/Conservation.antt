-- ===== src/Storage/Manager/Conservation.antt =====
-- The entries of evget/src/storage/database_manager.cpp are neither lost nor duplicated on their way
-- from `StoreEvent` to the stores, whatever the interleaving.
use mathlib.Core.Path.{subst}
use mathlib.Core.List.{Perm, perm_middle}
use mathlib.Core.List.Perm
use evget.Prelude.{
  ℕ, suc, ◌≡◌, refl, sym, ap, ◌∙◌, Bool, true, false, Option, none, some, List, [], ◌∷◌, ◌++◌,
  append_assoc, append-nil, Bool-cases, inl, inr, leb, length, returns, throws, if◌then◌else◌,
}
use evget.Error.{Result, ok, err}
use evget.Event.Entry.{Entry}
use evget.Event.Data.{Data, empty}
use evget.Async.LockingVector.{push_back, into_inner, into_inner_at}
use evget.Storage.Store.{Store, Outcome}
use evget.Storage.Manager.{
  Manager, Task, Running, Action, push_action, flush_action, timer_action, add_action, start_action,
  continue_action, step, push, flush, tick, after_wait, add_store, start_task, start_taken,
  continue_task, spawn_store_data, take_at, merge_all, call_next, after_call, proceed,
  proceed_taken, progress_of, with_progress,
}
use evget.Storage.Manager.Traces.{
  entries_of, reported, outs, tasks_entries, running_entries, waiting, pushed, all_pushed, run,
  outs-append, entries_of-append, entries-merge_all,
}

Perm-of : {xs ys : List Entry} → xs ≡ ys → Perm xs ys
Perm-of {xs} e = subst (λ u. Perm xs u) e (Perm.refl xs)

Perm-swap-front : (xs ys zs : List Entry) → Perm (xs ++ (ys ++ zs)) (ys ++ (xs ++ zs))
Perm-swap-front xs [] zs = Perm.refl (xs ++ zs)
Perm-swap-front xs (y ∷ ys) zs =
    Perm.trans (perm_middle xs (ys ++ zs)) (Perm.cons y (Perm-swap-front xs ys zs))

-- Taking one out leaves the others.
abbrev Taken : {A : Type 0} → (A → Data) → List A → Option (A × List A) → Type 0
Taken out xs none = Unit
Taken out xs (some (x, rest)) = Perm ((out x).entries ++ outs out rest) (outs out xs)

take_at-Taken : {A : Type 0} (out : A → Data) (i : ℕ) (xs : List A) → Taken out xs (take_at i xs)
take_at-Taken out i [] = tt
take_at-Taken out ℕ.zero (x ∷ xs) = Perm.refl ((out x).entries ++ outs out xs)
take_at-Taken {A} out (suc i) (x ∷ xs) = go (take_at i xs) (take_at-Taken out i xs)
  where
    go :
        (o : Option (A × List A))
        → Taken out xs o
        → Taken out (x ∷ xs) (elim o [ none ↦ none | some (y, ys) ↦ some (y, x ∷ ys) ])
    go none h = tt
    go (some (y, ys)) h =
        Perm.trans (Perm-swap-front (out y).entries (out x).entries (outs out ys))
          (Perm.append_left (out x).entries h)

module _ {W : Type 0} where
  -- The entries behind those of the coroutines that run.
  abbrev queued : Manager W → List Entry
  queued m = tasks_entries m.tasks ++ entries_of m.buffer.inner

  -- What a call of SpawnStoreData moves from the buffer to the tasks.
  queued-spawn :
      (m : Manager W) (ds : List Data)
      → tasks_entries (m.tasks ++ record { out = merge_all empty ds; store_in = m.stores } ∷ [])
          ++ []
        ≡ tasks_entries m.tasks ++ entries_of ds
  queued-spawn m ds =
      append-nil _
      ∙ outs-append (λ t. t.out) m.tasks _
      ∙ ap (◌++◌ (tasks_entries m.tasks)) (append-nil _ ∙ entries-merge_all empty ds)

  waiting-push : (d : Data) (m : Manager W) → waiting (push d m) ≡ waiting m ++ d.entries
  unfolding push push_back
  waiting-push d m =
      ap (◌++◌ (running_entries m.running)) (
        ap (◌++◌ (tasks_entries m.tasks)) (
          entries_of-append m.buffer.inner (d ∷ [])
          ∙ ap (◌++◌ (entries_of m.buffer.inner)) (append-nil d.entries))
        ∙ sym (append_assoc (tasks_entries m.tasks) (entries_of m.buffer.inner) d.entries))
      ∙ sym (append_assoc (running_entries m.running) (queued m) d.entries)

  waiting-tick : (m : Manager W) → waiting (tick m) ≡ waiting m
  unfolding tick into_inner spawn_store_data
  waiting-tick m = ap (◌++◌ (running_entries m.running)) (queued-spawn m m.buffer.inner)

  waiting-after_wait :
      (r : Result (Unit {0})) (m : Manager W) → waiting (after_wait r m) ≡ waiting m
  unfolding after_wait
  waiting-after_wait (ok u) m = waiting-tick m
  waiting-after_wait (err e) m = refl

  waiting-flush : (m : Manager W) → waiting (flush m) ≡ waiting m
  unfolding flush into_inner_at into_inner spawn_store_data
  waiting-flush m = elim (Bool-cases (leb m.n_events (length m.buffer.inner))) [
    | inl y ↦ rw y (ap (◌++◌ (running_entries m.running)) (queued-spawn m m.buffer.inner))
    | inr n ↦ rw n refl
  ]

  -- A started task brings its entries to those of the coroutines that run.
  start-Perm : (i : ℕ) (m : Manager W) → Perm (waiting (start_task i m)) (waiting m)
  unfolding start_task
  start-Perm i m = stopped m.stopped
    where
      go :
          (o : Option (Task W × List (Task W)))
          → Taken (λ t. t.out) m.tasks o
          → Perm (waiting (start_taken m o)) (waiting m)
      go none h = Perm.refl (waiting m)
      go (some (t, rest)) h =
          let running = running_entries m.running in
          let buffered = entries_of m.buffer.inner in
          Perm.trans (Perm-of (append_assoc t.out.entries running (tasks_entries rest ++ buffered)))
            (Perm.trans (Perm-swap-front t.out.entries running (tasks_entries rest ++ buffered)) (
              Perm.append_left running (
                Perm.trans
                  (Perm-of (sym (append_assoc t.out.entries (tasks_entries rest) buffered)))
                  (Perm.append_right buffered h))))

      stopped :
          (b : Bool)
          → Perm (waiting (if b then m else start_taken m (take_at i m.tasks))) (waiting m)
      stopped true = Perm.refl (waiting m)
      stopped false = go (take_at i m.tasks) (take_at-Taken (λ t. t.out) i m.tasks)

  -- The entries of a coroutine do not change.
  call_next-out : (r : Running W) (ss : List (Store W)) (w : W) → (call_next r ss w).0.out ≡ r.out
  unfolding call_next
  call_next-out r [] w = refl
  call_next-out r (s ∷ ss) w = go (s.store_event r.out w).0
    where
      go : (o : Outcome) → (after_call r ss o).out ≡ r.out
      go (returns (ok u)) = refl
      go (returns (err e)) = refl
      go (throws x) = refl

  -- A coroutine that goes on keeps its entries, and reports them at its end.
  proceed-Perm :
      (r : Running W) (o : Option Outcome) (rest : List (Running W)) (w : W) (b : Bool)
      → let p = proceed r o rest w b in
        reported p.0 ++ running_entries p.1.0 ≡ r.out.entries ++ running_entries rest
  proceed-Perm r none rest w b =
      ap (λ (d : Data). d.entries ++ running_entries rest) (call_next-out r r.left w)
  proceed-Perm r (some o) rest w b = refl

  continue-Perm :
      (i : ℕ) (m : Manager W)
      → Perm (reported (continue_task i m).0 ++ waiting (continue_task i m).1) (waiting m ++ [])
  unfolding continue_task
  continue-Perm i m = go (take_at i m.running) (take_at-Taken (λ r. r.out) i m.running)
    where
      go :
          (o : Option (Running W × List (Running W)))
          → Taken (λ r. r.out) m.running o
          → let r = with_progress m (proceed_taken (progress_of m) o) in
            Perm (reported r.0 ++ waiting r.1) (waiting m ++ [])
      go none h = Perm-of (sym (append-nil (waiting m)))
      go (some (r, rest)) h =
          let p = proceed r r.ended rest m.world m.stopped in
          Perm.trans
            (Perm-of (
              sym (append_assoc (reported p.0) (running_entries p.1.0) (queued m))
              ∙ ap (λ es. es ++ queued m) (proceed-Perm r r.ended rest m.world m.stopped)))
            (Perm.trans (Perm.append_right (queued m) h) (Perm-of (sym (append-nil (waiting m)))))

  -- A step keeps the entries that wait, but for those it brings in and those it reports.
  step-Perm :
      (a : Action W) (m : Manager W)
      → Perm (reported (step a m).0 ++ waiting (step a m).1) (waiting m ++ pushed a)
  unfolding step add_store
  step-Perm (push_action d) m = Perm-of (waiting-push d m)
  step-Perm flush_action m = Perm-of (waiting-flush m ∙ sym (append-nil (waiting m)))
  step-Perm (timer_action r) m = Perm-of (waiting-after_wait r m ∙ sym (append-nil (waiting m)))
  step-Perm (add_action s) m = Perm-of (sym (append-nil (waiting m)))
  step-Perm (start_action i) m =
      Perm.trans (start-Perm i m) (Perm-of (sym (append-nil (waiting m))))
  step-Perm (continue_action i) m = continue-Perm i m

  -- In any interleaving of the actions (calls of StoreEvent, ticks of the timer, new stores, tasks
  -- that the pool starts in any order, and the single calls that the started coroutines make of the
  -- stores), the entries of the coroutines that ended and those that still wait or are being stored
  -- at the end are, up to order, those that waited at the start and those of the calls of
  -- StoreEvent: none is lost and none is handed over twice.
  pub run-Perm-conserves :
      (acts : List (Action W)) (m : Manager W)
      → Perm ((run acts m).0 ++ waiting (run acts m).1) (waiting m ++ all_pushed acts)
  unfolding run
  run-Perm-conserves [] m = Perm-of (sym (append-nil (waiting m)))
  run-Perm-conserves (a ∷ acts) m =
      Perm.trans (Perm-of (append_assoc (reported (step a m).0) (run acts (step a m).1).0 _)) (
        Perm.trans (Perm.append_left (reported (step a m).0) (run-Perm-conserves acts (step a m).1))
          (Perm.trans
            (Perm-of (sym (append_assoc (reported (step a m).0) (waiting (step a m).1) _)))
            (Perm.trans (Perm.append_right (all_pushed acts) (step-Perm a m))
              (Perm-of (append_assoc (waiting m) (pushed a) (all_pushed acts))))))
