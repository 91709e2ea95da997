-- ===== src/Storage/Store.antt =====
-- evget/include/evget/storage/store.h: a store takes entries, acts on the world `W` and reports a
-- result. A call may throw, and what it did before stays done.
use evget.Prelude.{Throws}
use evget.Error.{Result}
use evget.Event.Data.{Data}

abbrev pub Outcome : Type 0
Outcome = Throws (Result (Unit {0}))

pub record Store (W : Type 0) : Type 0 where
  pub store_event : Data → W → Outcome × W
