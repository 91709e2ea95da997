-- ===== src/IntervalTracker.antt =====
-- evget/src/interval_tracker.cpp: the time between consecutive events.
pub mod Telescoping
use evget.Prelude.{ℕ, ◌-◌, Option, none, some, ltb, if◌then◌else◌}
use evget.Prelude.Int.{ℤ, signed}

pub record IntervalTracker : Type 0 where
  pub previous : Option ℕ

abbrev pub empty : IntervalTracker
empty = record { previous = none }

-- IntervalTracker::Interval. Times are 64-bit words, and the count of the interval is a signed one.
unfoldable pub interval : ℕ → IntervalTracker → Option ℤ × IntervalTracker
interval time t =
    let next : IntervalTracker = record { previous = some time } in
    elim t.previous [
      | none ↦ (none, next)
      | some previous ↦
          if ltb time previous then (none, next) else (some (signed 64 (time - previous)), next)
    ]
