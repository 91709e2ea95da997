-- ===== src/EventLoop/Examples.antt =====
-- A run of the loop of evget/include/evget/event_handler.h: the source counts, fails after two
-- events, and the store keeps the entries it is given.
use evget.Prelude.{
  ℕ, suc, ◌≡◌, refl, true, false, some, List, [], ◌∷◌, ◌++◌, is_some, ◌==◌, if◌then◌else◌, returns,
  to_string,
}
use evget.Prelude.Int.{pos}
use evget.Error.{Error, ok, err, async_error}
use evget.Event.Enums.{EntryType}
use evget.Event.Entry.{Entry}
use evget.Storage.Store.{Store}
use evget.EventLoop.{NextEvent, EventTransformer, EventLoop, notify, handler_start}
use evget.EventLoop.Answers.{
  answers, has_last, consume, outcome_of, handler_start-consume, handler_start-ends,
}

abbrev closed : Error
closed = record { error_type = async_error; message = "closed" }

abbrev counter : NextEvent ℕ ℕ
counter = record { next = λ q. if q == 2 then ((err closed, false), q) else ((ok q, false), suc q) }

abbrev entry_of : ℕ → Entry
entry_of n = record { entry_type = EntryType.key; values = to_string (pos n) ∷ []; modifiers = [] }

abbrev numbered : EventTransformer ℕ (List Entry)
numbered = record { transform_event = λ n w. (returns (record { entries = entry_of n ∷ [] }), w) }

abbrev keeper : Store (List Entry)
keeper = record { store_event = λ d w. (returns (ok tt), w ++ d.entries) }

abbrev fresh : EventLoop ℕ (List Entry)
fresh = record { stopped = false; source = 0; world = [] }

handler_start-consume_example :
    outcome_of (handler_start numbered keeper counter 5 fresh)
    ≡ (some (returns (err closed)), entry_of 0 ∷ entry_of 1 ∷ [])
unfolding consume answers notify
handler_start-consume_example = handler_start-consume numbered keeper counter 5 fresh

handler_start-ends_example : is_some (handler_start numbered keeper counter 3 fresh).0 ≡ true
unfolding has_last answers
handler_start-ends_example = handler_start-ends numbered keeper counter 3 fresh refl
