-- ===== src/EventLoop.antt =====
-- evget/include/evget/event_loop.h and event_handler.h: the loop that waits for events and notifies
-- its listeners, and the handler, which is the only listener of its loop. While the loop waits for
-- an event other coroutines run, and one of them may call `Stop`: an answer of `Next` says whether
-- one did.
pub mod Answers
mod Examples
use evget.Prelude.{
  ℕ, zero, suc, Bool, true, false, ◌||◌, Option, none, some, List, [], ◌∷◌, if◌then◌else◌, Throws,
  returns, throws,
}
use evget.Error.{Result, ok, err}
use evget.Event.Data.{Data}
use evget.Storage.Store.{Store, Outcome}

-- NextEvent<T>, over the state `Q` of the source.
pub record NextEvent (E Q : Type 0) : Type 0 where
  pub next : Q → (Result E × Bool) × Q

-- EventListener<T>
abbrev pub Listener : Type 0 → Type 0 → Type 0
Listener E W = E → W → Outcome × W

-- EventTransformer<T>
pub record EventTransformer (E W : Type 0) : Type 0 where
  pub transform_event : E → W → Throws Data × W

-- EventLoop, with the state of its source and the world of its listeners.
pub record EventLoop (Q W : Type 0) : Type 0 where
  pub stopped : Bool
  pub source : Q
  pub world : W

-- Stop
unfoldable pub stop : {Q W : Type 0} → EventLoop Q W → EventLoop Q W
stop l = record l { stopped = true }

module _ {Q W : Type 0} where
  -- The test of the outcome of a call of Notify.
  abbrev pub unless_failed :
      (EventLoop Q W → Outcome × EventLoop Q W) → Outcome × EventLoop Q W → Outcome × EventLoop Q W
  unless_failed rest (returns (ok u), l) = rest l
  unless_failed rest (returns (err e), l) = (returns (err e), l)
  unless_failed rest (throws x, l) = (throws x, l)

  abbrev pub next_round :
      (EventLoop Q W → Option Outcome × EventLoop Q W)
      → Outcome × EventLoop Q W
      → Option Outcome × EventLoop Q W
  next_round rest (returns (ok u), l) = rest l
  next_round rest (returns (err e), l) = (some (returns (err e)), l)
  next_round rest (throws x, l) = (some (throws x), l)

module _ {E Q W : Type 0} where
  abbrev pub notified : Listener E W → E → EventLoop Q W → Outcome × EventLoop Q W
  notified listener event l =
      let (outcome, world) = listener event l.world in (outcome, record l { world = world })

  -- The test of the event, and the call of Notify.
  abbrev pub with_event :
      Listener E W
      → (EventLoop Q W → Outcome × EventLoop Q W)
      → Result E × EventLoop Q W
      → Outcome × EventLoop Q W
  with_event listener rest (ok event, l) = unless_failed rest (notified listener event l)
  with_event listener rest (err e, l) = (returns (err e), l)

module _ {E Q W : Type 0} (next_event : NextEvent E Q) where
  -- co_await Next()
  abbrev await_next : EventLoop Q W → Result E × EventLoop Q W
  await_next l =
      let ((event, stops), source) = next_event.next l.source in
      (event, record l { stopped = l.stopped || stops; source = source })

  -- The `for` of Start: an event for each listener.
  unfoldable pub notify_listeners : List (Listener E W) → EventLoop Q W → Outcome × EventLoop Q W
  notify_listeners [] l = (returns (ok tt), l)
  notify_listeners (listener ∷ listeners) l =
      let rest = notify_listeners listeners in with_event listener rest (await_next l)

  -- EventLoop::Start, for at most `n` rounds of its loop. The result is `none` if they do not end it.
  unfoldable pub start : ℕ → List (Listener E W) → EventLoop Q W → Option Outcome × EventLoop Q W
  unfolding notify_listeners
  start zero listeners l = if l.stopped then (some (returns (ok tt)), l) else (none, l)
  start (suc n) listeners l =
      let rest = start n listeners in
      if l.stopped
      then (some (returns (ok tt)), l)
      else next_round rest (notify_listeners listeners l)

module _ {E W : Type 0} (transformer : EventTransformer E W) (storage : Store W) where
  abbrev store_transformed : Throws Data × W → Outcome × W
  store_transformed (returns d, w) = storage.store_event d w
  store_transformed (throws x, w) = (throws x, w)

  -- EventHandler::Notify
  unfoldable pub notify : Listener E W
  notify event w = store_transformed (transformer.transform_event event w)

  -- EventHandler::Start
  unfoldable pub handler_start :
      {Q : Type 0} → NextEvent E Q → ℕ → EventLoop Q W → Option Outcome × EventLoop Q W
  unfolding start notify
  handler_start next_event n l = start next_event n (notify ∷ []) l

  -- EventHandler::Stop
  unfoldable pub handler_stop : {Q : Type 0} → EventLoop Q W → EventLoop Q W
  unfolding stop
  handler_stop l = stop l
