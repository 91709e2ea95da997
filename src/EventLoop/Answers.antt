-- ===== src/EventLoop/Answers.antt =====
-- The loop of evget/include/evget/event_handler.h as a function of the answers of its source.
use evget.Prelude.{
  ℕ, zero, suc, ◌≡◌, refl, ap, ◌∙◌, Bool, true, false, ◌||◌, Option, none, some, List, [], ◌∷◌,
  is_some, returns, throws, arith,
}
use evget.Error.{Result, ok, err}
use evget.Storage.Store.{Store, Outcome}
use evget.EventLoop.{
  NextEvent, Listener, EventTransformer, EventLoop, unless_failed, with_event, notify_listeners,
  next_round, start, notify, handler_start,
}

module _ {E Q : Type 0} (next_event : NextEvent E Q) where
  -- The first answers of a source.
  unfoldable pub answers : ℕ → Q → List (Result E × Bool)
  answers zero q = []
  answers (suc n) q = let (a, q') = next_event.next q in a ∷ answers n q'

-- An answer that ends the loop: an error, or an event while whose waiting the loop was stopped.
abbrev pub is_last : {E : Type 0} → Result E × Bool → Bool
is_last (err e, stops) = true
is_last (ok event, stops) = stops

unfoldable pub has_last : {E : Type 0} → List (Result E × Bool) → Bool
has_last [] = false
has_last (a ∷ rest) = is_last a || has_last rest

module _ {E W : Type 0} (listener : Listener E W) where
  abbrev on_success : (W → Option Outcome × W) → Outcome × W → Option Outcome × W
  on_success rest (returns (ok u), w) = rest w
  on_success rest (returns (err e), w) = (some (returns (err e)), w)
  on_success rest (throws x, w) = (some (throws x), w)

  -- A loop over a list of answers: it ends with the first error, of an answer or of the listener,
  -- and with success at the first answer during which it was stopped.
  unfoldable pub consume : Bool → List (Result E × Bool) → W → Option Outcome × W
  consume true rest w = (some (returns (ok tt)), w)
  consume false [] w = (none, w)
  consume false ((err e, stops) ∷ rest) w = (some (returns (err e)), w)
  consume false ((ok event, stops) ∷ rest) w =
      let next = consume stops rest in on_success next (listener event w)

-- The outcome of a loop and the world that it leaves.
abbrev pub outcome_of : {Q W : Type 0} → Option Outcome × EventLoop Q W → Option Outcome × W
outcome_of r = (r.0, r.1.world)

module _ {E Q W : Type 0} (next_event : NextEvent E Q) (listener : Listener E W) where
  abbrev loop_at : Bool → Q → W → EventLoop Q W
  loop_at b q w = record { stopped = b; source = q; world = w }

  start-consume :
      (n : ℕ) (b : Bool) (q : Q) (w : W)
      → outcome_of (start next_event n (listener ∷ []) (loop_at b q w))
        ≡ consume listener b (answers next_event n q) w
  unfolding start notify_listeners answers consume
  start-consume zero true q w = refl
  start-consume zero false q w = refl
  start-consume (suc n) true q w = refl
  start-consume (suc n) false q w =
      answered (next_event.next q).0.0 (next_event.next q).0.1 (next_event.next q).1
        λ b w'. start-consume n b (next_event.next q).1 w'
    where
      rest : EventLoop Q W → Option Outcome × EventLoop Q W
      rest = start next_event n (listener ∷ [])

      last : EventLoop Q W → Outcome × EventLoop Q W
      last l = (returns (ok tt), l)

      Ends : Bool → Q → Type 0
      Ends stops q' =
          (b : Bool) (w' : W)
          → outcome_of (rest (loop_at b q' w')) ≡ consume listener b (answers next_event n q') w'

      told :
          (stops : Bool) (q' : Q) (o : Outcome) (w' : W)
          → Ends stops q'
          → outcome_of (next_round rest (unless_failed last (o, loop_at stops q' w')))
            ≡ on_success listener (consume listener stops (answers next_event n q')) (o, w')
      told stops q' (returns (ok u)) w' ih = ih stops w'
      told stops q' (returns (err e)) w' ih = refl
      told stops q' (throws x) w' ih = refl

      answered :
          (r : Result E) (stops : Bool) (q' : Q)
          → Ends stops q'
          → outcome_of (next_round rest (with_event listener last (r, loop_at stops q' w)))
            ≡ consume listener false ((r, stops) ∷ answers next_event n q') w
      answered (err e) stops q' ih = refl
      answered (ok event) stops q' ih = told stops q' (listener event w).0 (listener event w).1 ih

module _ {E W : Type 0} (listener : Listener E W) where
  on_success-ends :
      (rest : W → Option Outcome × W) (o : Outcome × W)
      → ((w : W) → is_some (rest w).0 ≡ true)
      → is_some (on_success listener rest o).0 ≡ true
  on_success-ends rest (returns (ok u), w) h = h w
  on_success-ends rest (returns (err e), w) h = refl
  on_success-ends rest (throws x, w) h = refl

  consume-ends :
      (b : Bool) (rest : List (Result E × Bool)) (w : W)
      → b || has_last rest ≡ true
      → is_some (consume listener b rest w).0 ≡ true
  unfolding consume has_last
  consume-ends true rest w h = refl
  consume-ends false [] w h = ground arith
  consume-ends false ((err e, stops) ∷ rest) w h = refl
  consume-ends false ((ok event, stops) ∷ rest) w h =
      on_success-ends (consume listener stops rest) (listener event w)
        λ w'. consume-ends stops rest w' h

module _ {E Q W : Type 0} (transformer : EventTransformer E W) (storage : Store W)
    (next_event : NextEvent E Q) where
  -- The loop of a handler, run for n rounds, does what follows from the first n answers of its
  -- source, taken in order: each event is transformed and stored before the next is waited for; the
  -- first error, be it of the source, an exception or an error of the store, ends the loop and is
  -- its outcome; a stop ends it with success once the event that was waited for is stored; with
  -- neither the loop is not over after n rounds.
  pub handler_start-consume :
      (n : ℕ) (l : EventLoop Q W)
      → outcome_of (handler_start transformer storage next_event n l)
        ≡ consume (notify transformer storage) l.stopped (answers next_event n l.source) l.world
  unfolding handler_start
  handler_start-consume n l =
      start-consume next_event (notify transformer storage) n l.stopped l.source l.world

  -- If the loop is stopped, or one of the first n answers of the source is an error or comes with a
  -- stop, then n rounds end the loop of the handler, whatever the transformer and the store do.
  pub handler_start-ends :
      (n : ℕ) (l : EventLoop Q W)
      → l.stopped || has_last (answers next_event n l.source) ≡ true
      → is_some (handler_start transformer storage next_event n l).0 ≡ true
  handler_start-ends n l h =
      ap (λ (r : Option Outcome × W). is_some r.0) (handler_start-consume n l)
      ∙ consume-ends (notify transformer storage) l.stopped (answers next_event n l.source) l.world
          h
