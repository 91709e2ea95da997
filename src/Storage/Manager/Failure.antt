-- ===== src/Storage/Manager/Failure.antt =====
-- What a failing store does in evget/src/storage/database_manager.cpp: its coroutine ends, and the
-- handler of the coroutine stops the scheduler.
use mathlib.Core.Path.{subst}
use evget.Prelude.{
  ℕ, zero, suc, ◌≡◌, refl, sym, ap, ◌∙◌, ◌⊎◌, inl, inr, Bool, true, false, Option, none, some, List,
  [], ◌∷◌, returns, throws, if◌then◌else◌, Bool-cases, leb, length, arith,
}
use evget.Error.{ok, err}
use evget.Async.LockingVector.{into_inner, into_inner_at}
use evget.Storage.Store.{Store, Outcome}
use evget.Storage.Manager.{
  Manager, Task, Running, Action, push_action, flush_action, timer_action, add_action, start_action,
  continue_action, step, take_at, start_task, start_taken, continue_task, proceed, proceed_taken,
  Progress, push, flush, tick, after_wait, add_store, spawn_store_data, progress_of, with_progress,
  after_call, call_next, result_handler,
}
use evget.Storage.Manager.Traces.{run}
use evget.Storage.Manager.Stopped.{step-stopped}

abbrev pub is_ok : Outcome → Bool
is_ok (returns (ok u)) = true
is_ok _ = false

result_handler-bad : (o : Outcome) (b : Bool) → is_ok o ≡ false → result_handler o b ≡ true
unfolding result_handler
result_handler-bad (returns (err e)) b h = refl
result_handler-bad (throws x) b h = refl
result_handler-bad (returns (ok u)) b h = ground arith

abbrev In : {A : Type 0} → A → List A → Type 0
In x [] = ⊥
In x (y ∷ ys) = (x ≡ y) ⊎ In x ys

-- One that is taken out was at a position, and taking out another leaves it.
abbrev At : {A : Type 0} → A → List A → Type 0
At {A} x xs = (i : ℕ) × (rest : List A) × (take_at i xs ≡ some (x, rest))

In-At : {A : Type 0} (x : A) (xs : List A) → In x xs → At x xs
In-At x [] m = elim m [ ]
In-At x (y ∷ ys) (inl e) = (0, ys, ap (λ z. some (z, ys)) (sym e))
In-At x (y ∷ ys) (inr m) = let (i, rest, h) = In-At x ys m in (suc i, y ∷ rest, rw h refl)

abbrev Left : {A : Type 0} → A → List A → Option (A × List A) → Type 0
Left x xs none = Unit
Left x xs (some (y, rest)) = (In x xs → (x ≡ y) ⊎ In x rest) × (In y xs)

take_at-Left : {A : Type 0} (x : A) (i : ℕ) (xs : List A) → Left x xs (take_at i xs)
take_at-Left x i [] = tt
take_at-Left x zero (y ∷ ys) = (λ m. m, inl refl)
take_at-Left {A} x (suc i) (y ∷ ys) = go (take_at i ys) (take_at-Left x i ys)
  where
    go :
        (o : Option (A × List A))
        → Left x ys o
        → Left x (y ∷ ys) (elim o [ none ↦ none | some (z, zs) ↦ some (z, y ∷ zs) ])
    go none h = tt
    go (some (z, zs)) h = (later, inr h.1)
      where
        later : In x (y ∷ ys) → (x ≡ z) ⊎ In x (y ∷ zs)
        later (inl e) = inr (inl e)
        later (inr m) = elim (h.0 m) [ inl e ↦ inl e | inr n ↦ inr (inr n) ]

module _ {W : Type 0} where
  -- The scheduler is stopped, or this coroutine still waits for its handler, whose call stops it.
  abbrev pub Held : Running W → Manager W → Type 0
  Held r m =
      (m.stopped ≡ true)
      ⊎ ((i : ℕ) × (rest : List (Running W)) × (take_at i m.running ≡ some (r, rest))
          × ((step (continue_action i) m).1.stopped ≡ true))

  abbrev Kept : Running W → Manager W → Type 0
  Kept r m = (m.stopped ≡ true) ⊎ In r m.running

  -- The call of the handler of a coroutine that has failed.
  proceed-fails :
      (r : Running W) (o : Outcome) (rest : List (Running W)) (w : W) (b : Bool)
      → r.ended ≡ some o
      → is_ok o ≡ false
      → (proceed r r.ended rest w b).1.2 ≡ true
  proceed-fails r o rest w b e bad =
      ap (λ x. (proceed r x rest w b).1.2) e ∙ result_handler-bad o b bad

  proceed-In :
      (r y : Running W) (o : Option Outcome) (rest : List (Running W)) (w : W) (b : Bool)
      → In r rest
      → In r (proceed y o rest w b).1.0
  proceed-In r y none rest w b m = inr m
  proceed-In r y (some o) rest w b m = m

  module _ (r : Running W) (o : Outcome) (e : r.ended ≡ some o) (bad : is_ok o ≡ false) where
    continue-Kept : (i : ℕ) (m : Manager W) → In r m.running → Kept r (step (continue_action i) m).1
    unfolding step continue_task
    continue-Kept i m k = go (take_at i m.running) (take_at-Left r i m.running)
      where
        taken :
            (y : Running W) (rest : List (Running W))
            → (r ≡ y) ⊎ In r rest
            → Kept r (with_progress m (proceed y y.ended rest m.world m.stopped)).1
        taken y rest (inl same) = inl (
            subst (λ (z : Running W). (proceed z z.ended rest m.world m.stopped).1.2 ≡ true) same
              (proceed-fails r o rest m.world m.stopped e bad))
        taken y rest (inr n) = inr (proceed-In r y y.ended rest m.world m.stopped n)

        go :
            (t : Option (Running W × List (Running W)))
            → Left r m.running t
            → Kept r (with_progress m (proceed_taken (progress_of m) t)).1
        go none h = inr k
        go (some (y, rest)) h = taken y rest (h.0 k)

    start-In : (i : ℕ) (m : Manager W) → In r m.running → In r (start_task i m).running
    unfolding start_task
    start-In i m k = stopped m.stopped
      where
        go : (t : Option (Task W × List (Task W))) → In r (start_taken m t).running
        go none = k
        go (some (t, rest)) = inr k

        stopped : (b : Bool) → In r (if b then m else start_taken m (take_at i m.tasks)).running
        stopped true = k
        stopped false = go (take_at i m.tasks)

    step-Kept : (a : Action W) (m : Manager W) → Kept r m → Kept r (step a m).1
    unfolding step push flush tick after_wait add_store spawn_store_data into_inner into_inner_at
        result_handler
    step-Kept a m (inl h) = inl (step-stopped a m h).0
    step-Kept (push_action d) m (inr k) = inr k
    step-Kept flush_action m (inr k) = elim (Bool-cases (leb m.n_events (length m.buffer.inner))) [
      | inl y ↦ rw y (inr k)
      | inr n ↦ rw n (inr k)
    ]
    step-Kept (timer_action (ok u)) m (inr k) = inr k
    step-Kept (timer_action (err x)) m (inr k) = inl refl
    step-Kept (add_action s) m (inr k) = inr k
    step-Kept (start_action i) m (inr k) = inr (start-In i m k)
    step-Kept (continue_action i) m (inr k) = continue-Kept i m k

    run-Kept : (acts : List (Action W)) (m : Manager W) → Kept r m → Kept r (run acts m).1
    unfolding run
    run-Kept [] m k = k
    run-Kept (a ∷ acts) m k = run-Kept acts (step a m).1 (step-Kept a m k)

    Kept-Held : (m : Manager W) → Kept r m → Held r m
    unfolding step continue_task
    Kept-Held m (inl h) = inl h
    Kept-Held m (inr k) =
        let (i, rest, h) = In-At r m.running k in
        inr (
          i,
          rest,
          h,
          ap (λ t. (proceed_taken (progress_of m) t).1.2) h
              ∙ proceed-fails r o rest m.world m.stopped e bad,
        )

  -- The next store of a coroutine fails.
  continue_task-fails :
      (m : Manager W) (j : ℕ) (r : Running W) (rest : List (Running W)) (s : Store W)
      (ss : List (Store W)) (o : Outcome)
      → take_at j m.running ≡ some (r, rest)
      → r.ended ≡ none
      → r.left ≡ s ∷ ss
      → (s.store_event r.out m.world).0 ≡ o
      → is_ok o ≡ false
      → progress_of (step (continue_action j) m).1 ≡ (
        record r { left = ss; ended = some o } ∷ rest,
        (s.store_event r.out m.world).1,
        m.stopped,
      )
  unfolding step continue_task call_next
  continue_task-fails m j r rest s ss o h e l f bad =
      ap (λ t. (proceed_taken (progress_of m) t).1) h
      ∙ ap (λ x. (proceed r x rest m.world m.stopped).1) e
      ∙ ap
          (λ (xs : List (Store W)).
            let (r', w') = call_next r xs m.world in (r' ∷ rest, w', m.stopped))
          l
      ∙ ap (λ x. (after_call r ss x ∷ rest, (s.store_event r.out m.world).1, m.stopped)) f
      ∙ ap (λ x. (x ∷ rest, (s.store_event r.out m.world).1, m.stopped)) (failed o bad)
    where
      failed :
          (x : Outcome)
          → is_ok x ≡ false
          → after_call r ss x ≡ record r { left = ss; ended = some x }
      failed (returns (err y)) k = refl
      failed (throws y) k = refl
      failed (returns (ok u)) k = ground arith

  -- Suppose a coroutine has been started, and the next store that it calls reports an error or
  -- throws. The call leaves the world as that store left it. However the run goes on, with other
  -- coroutines calling stores and new tasks being started in between, either the scheduler is stopped
  -- or this coroutine is still among those that run as the failure left it, with the stores behind
  -- the one that failed not called, and its next action stops the scheduler.
  pub failing_store-Held :
      (m : Manager W) (j : ℕ) (r : Running W) (rest : List (Running W)) (s : Store W)
      (ss : List (Store W)) (acts : List (Action W))
      → take_at j m.running ≡ some (r, rest)
      → r.ended ≡ none
      → r.left ≡ s ∷ ss
      → is_ok (s.store_event r.out m.world).0 ≡ false
      → let failed = (step (continue_action j) m).1 in
        (failed.world ≡ (s.store_event r.out m.world).1)
        × Held
            (record r { left = ss; ended = some (s.store_event r.out m.world).0 })
            (run acts failed).1
  failing_store-Held m j r rest s ss acts h e l bad =
      let o = (s.store_event r.out m.world).0 in
      let left = record r { left = ss; ended = some o } in
      let failed = continue_task-fails m j r rest s ss o h e l refl bad in
      (
        ap (λ (p : Progress W). p.1) failed,
        Kept-Held left o refl bad (run acts (step (continue_action j) m).1).1 (
            run-Kept left o refl bad acts (step (continue_action j) m).1
              (inr (subst (λ (p : Progress W). In left p.0) (sym failed) (inl refl)))),
      )
