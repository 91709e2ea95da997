-- ===== src/Storage/Manager/Stopped.antt =====
-- A stopped scheduler in evget/src/storage/database_manager.cpp: no waiting task is started any more,
-- and the coroutines that have been started go on by themselves.
use evget.Prelude.{
  ℕ, ◌≡◌, refl, sym, ap, ◌∙◌, true, Option, none, some, List, [], ◌∷◌, ◌++◌, append_assoc,
  append-nil, returns, throws, inl, inr, Bool-cases, leb, length,
}
use evget.Async.LockingVector.{into_inner, into_inner_at}
use evget.Error.{Error, ok, err}
use evget.Event.Entry.{Entry}
use evget.Storage.Store.{Outcome}
use evget.Storage.Manager.{
  Manager, Task, Running, Progress, Action, push_action, flush_action, timer_action, add_action,
  start_action, continue_action, step, push, flush, tick, after_wait, add_store, start_task,
  continue_task, spawn_store_data, take_at, proceed, proceed_taken, progress_of, result_handler,
}
use evget.Storage.Manager.Traces.{reported, run}

result_handler-stopped : (o : Outcome) → result_handler o true ≡ true
unfolding result_handler
result_handler-stopped (returns (ok u)) = refl
result_handler-stopped (returns (err e)) = refl
result_handler-stopped (throws x) = refl

module _ {W : Type 0} where
  -- The actions of the coroutines that have been started.
  abbrev pub continues : List (Action W) → List (Action W)
  continues [] = []
  continues (continue_action i ∷ acts) = continue_action i ∷ continues acts
  continues (push_action d ∷ acts) = continues acts
  continues (flush_action ∷ acts) = continues acts
  continues (timer_action r ∷ acts) = continues acts
  continues (add_action s ∷ acts) = continues acts
  continues (start_action i ∷ acts) = continues acts

  -- From here on the scheduler stays stopped, the tasks that wait go on waiting, and what the stores
  -- are called with, what the coroutines report, and those that still run at the end, are what the
  -- coroutines that run already would have done alone.
  abbrev pub Frozen : Manager W → List (Action W) → Type 0
  Frozen m acts =
      ((run acts m).1.stopped ≡ true)
      × ((new : List (Task W)) × ((run acts m).1.tasks ≡ m.tasks ++ new))
      × ((run acts m).0 ≡ (run (continues acts) m).0)
      × ((run acts m).1.running ≡ (run (continues acts) m).1.running)
      × ((run acts m).1.world ≡ (run (continues acts) m).1.world)

  proceed-stopped :
      (r : Running W) (o : Option Outcome) (rest : List (Running W)) (w : W)
      → (proceed r o rest w true).1.2 ≡ true
  proceed-stopped r none rest w = refl
  proceed-stopped r (some o) rest w = result_handler-stopped o

  proceed_taken-stopped :
      (p : Progress W) (o : Option (Running W × List (Running W)))
      → p.2 ≡ true
      → (proceed_taken p o).1.2 ≡ true
  proceed_taken-stopped p none h = h
  proceed_taken-stopped (running, w, b) (some (r, rest)) h = rw h (proceed-stopped r r.ended rest w)

  abbrev Added : Manager W → Manager W → Type 0
  Added m m' = (new : List (Task W)) × (m'.tasks ≡ m.tasks ++ new)

  none-Added : (m m' : Manager W) → m'.tasks ≡ m.tasks → Added m m'
  none-Added m m' h = ([], h ∙ sym (append-nil m.tasks))

  -- An action of a stopped scheduler: it stays stopped, and its tasks wait.
  pub step-stopped :
      (a : Action W) (m : Manager W)
      → m.stopped ≡ true
      → ((step a m).1.stopped ≡ true) × Added m (step a m).1
  unfolding step push flush tick after_wait add_store start_task continue_task spawn_store_data
      into_inner into_inner_at result_handler
  step-stopped (push_action d) m h = (h, none-Added m (push d m) refl)
  step-stopped flush_action m h = elim (Bool-cases (leb m.n_events (length m.buffer.inner))) [
    | inl y ↦ rw y (h, (_, refl))
    | inr n ↦ rw n (h, none-Added m m refl)
  ]
  step-stopped (timer_action (ok u)) m h = (h, (_, refl))
  step-stopped (timer_action (err e)) m h = (refl, none-Added m m refl)
  step-stopped (add_action s) m h = (h, none-Added m m refl)
  step-stopped (start_action i) m h = rw h (refl, ([], sym (append-nil m.tasks)))
  step-stopped (continue_action i) m h =
      (proceed_taken-stopped (progress_of m) (take_at i m.running) h, none-Added m m refl)

  Added-trans : (m1 m2 m3 : Manager W) → Added m1 m2 → Added m2 m3 → Added m1 m3
  Added-trans m1 m2 m3 (a, h) (b, k) =
      (a ++ b, k ∙ ap (λ ts. ts ++ b) h ∙ append_assoc m1.tasks a b)

  run-stopped :
      (acts : List (Action W)) (m : Manager W)
      → m.stopped ≡ true
      → ((run acts m).1.stopped ≡ true) × Added m (run acts m).1
  unfolding run
  run-stopped [] m h = (h, none-Added m m refl)
  run-stopped (a ∷ acts) m h =
      let s = step-stopped a m h in
      let r = run-stopped acts (step a m).1 s.0 in
      (r.0, Added-trans m (step a m).1 (run acts (step a m).1).1 s.1 r.1)

  -- What the actions of a stopped scheduler report, and the progress they leave.
  abbrev seen : List (Action W) → Manager W → List Entry × Progress W
  seen acts m = ((run acts m).0, progress_of (run acts m).1)

  -- A coroutine goes on in the same way in managers with the same progress.
  continue-same :
      (i : ℕ) (m1 m2 : Manager W)
      → progress_of m1 ≡ progress_of m2
      → ((step (continue_action i) m1).0 ≡ (step (continue_action i) m2).0)
        × (progress_of (step (continue_action i) m1).1
            ≡ progress_of (step (continue_action i) m2).1)
  unfolding step continue_task
  continue-same i m1 m2 h =
      let same = ap (λ (p : Progress W). proceed_taken p (take_at i p.0)) h in
      (ap (λ r. r.0) same, ap (λ r. r.1) same)

  -- Another action reports nothing and leaves the progress as it is.
  abbrev Others : Action W → Type 0
  Others (continue_action i) = ⊥
  Others _ = Unit

  other-same :
      (a : Action W) (m : Manager W)
      → Others a
      → m.stopped ≡ true
      → ((step a m).0 ≡ none) × (progress_of (step a m).1 ≡ progress_of m)
  unfolding step push flush tick after_wait add_store start_task spawn_store_data into_inner
      into_inner_at result_handler
  other-same (push_action d) m o h = (refl, refl)
  other-same flush_action m o h = elim (Bool-cases (leb m.n_events (length m.buffer.inner))) [
    | inl y ↦ rw y (refl, refl)
    | inr n ↦ rw n (refl, refl)
  ]
  other-same (timer_action (ok u)) m o h = (refl, refl)
  other-same (timer_action (err e)) m o h = (refl, λ i. (m.running, m.world, sym h i))
  other-same (add_action s) m o h = (refl, refl)
  other-same (start_action i) m o h = rw h (refl, refl)
  other-same (continue_action i) m o h = elim o [ ]

  skipped :
      (a : Action W) (acts : List (Action W)) (m1 m2 : Manager W)
      → Others a
      → m1.stopped ≡ true
      → progress_of m1 ≡ progress_of m2
      → (progress_of (step a m1).1 ≡ progress_of m2
          → seen acts (step a m1).1 ≡ seen (continues acts) m2)
      → seen (a ∷ acts) m1 ≡ seen (continues acts) m2
  unfolding run
  skipped a acts m1 m2 o h p ih =
      let s = other-same a m1 o h in
      (λ j.
        (reported (s.0 j) ++ (run acts (step a m1).1).0, progress_of (run acts (step a m1).1).1))
      ∙ ih (s.1 ∙ p)

  run-seen :
      (acts : List (Action W)) (m1 m2 : Manager W)
      → m1.stopped ≡ true
      → progress_of m1 ≡ progress_of m2
      → seen acts m1 ≡ seen (continues acts) m2
  unfolding run
  run-seen [] m1 m2 h p = λ i. ([], p i)
  run-seen (continue_action i ∷ acts) m1 m2 h p =
      let s = continue-same i m1 m2 p in
      let ih =
        run-seen acts (step (continue_action i) m1).1 (step (continue_action i) m2).1
          (step-stopped (continue_action i) m1 h).0 s.1 in
      λ j. (reported (s.0 j) ++ (ih j).0, (ih j).1)
  run-seen (push_action d ∷ acts) m1 m2 h p =
      skipped (push_action d) acts m1 m2 tt h p
        (run-seen acts (step (push_action d) m1).1 m2 (step-stopped (push_action d) m1 h).0)
  run-seen (flush_action ∷ acts) m1 m2 h p =
      skipped flush_action acts m1 m2 tt h p
        (run-seen acts (step flush_action m1).1 m2 (step-stopped flush_action m1 h).0)
  run-seen (timer_action r ∷ acts) m1 m2 h p =
      skipped (timer_action r) acts m1 m2 tt h p
        (run-seen acts (step (timer_action r) m1).1 m2 (step-stopped (timer_action r) m1 h).0)
  run-seen (add_action s ∷ acts) m1 m2 h p =
      skipped (add_action s) acts m1 m2 tt h p
        (run-seen acts (step (add_action s) m1).1 m2 (step-stopped (add_action s) m1 h).0)
  run-seen (start_action i ∷ acts) m1 m2 h p =
      skipped (start_action i) acts m1 m2 tt h p
        (run-seen acts (step (start_action i) m1).1 m2 (step-stopped (start_action i) m1 h).0)

  stopped-Frozen : (m : Manager W) (acts : List (Action W)) → m.stopped ≡ true → Frozen m acts
  stopped-Frozen m acts h =
      let s = run-stopped acts m h in
      let e = run-seen acts m m h refl in
      (s.0, s.1, ap (λ r. r.0) e, ap (λ r. r.1.0) e, ap (λ r. r.1.1) e)

  -- If a wait of the timer fails, no store is called by that, and the scheduler is stopped, whatever
  -- is running. However the run goes on, the scheduler stays stopped and every task that waits stays
  -- among those that wait, so that it is never stored; what the stores are called with and what the
  -- coroutines report is what the coroutines that were already started do alone, up to where they
  -- have got.
  pub failing_timer-Frozen :
      (m : Manager W) (e : Error) (acts : List (Action W))
      → let failed = (step (timer_action (err e)) m).1 in
        (failed.world ≡ m.world)
        × (failed.running ≡ m.running)
        × (failed.tasks ≡ m.tasks)
        × Frozen failed acts
  unfolding step after_wait result_handler
  failing_timer-Frozen m e acts =
      (refl, refl, refl, stopped-Frozen (step (timer_action (err e)) m).1 acts refl)
