-- ===== src/IntervalTracker/Telescoping.antt =====
-- The intervals that evget/src/interval_tracker.cpp gives for times that do not go back.
use evget.Prelude.{ℕ, ◌+◌, ◌-◌, ◌^◌, ◌≤◌, ◌<◌, ◌≡◌, ap, Option, none, some, List, [], ◌∷◌, arith}
use evget.Prelude.Int.{ℤ, pos}
use evget.IntervalTracker.{IntervalTracker, interval}

-- The intervals of a sequence of calls.
unfoldable pub intervals : List ℕ → IntervalTracker → List (Option ℤ)
intervals [] t = []
intervals (time ∷ times) t = let (elapsed, t') = interval time t in elapsed ∷ intervals times t'

-- Each time is at least the one before, and all are below a bound.
abbrev pub Ascending : ℕ → ℕ → List ℕ → Type 0
Ascending bound p [] = p < bound
Ascending bound p (t ∷ ts) = (p ≤ t) × Ascending bound t ts

abbrev pub last : ℕ → List ℕ → ℕ
last p [] = p
last p (t ∷ ts) = last t ts

abbrev add_interval : Option ℤ → Option ℕ → Option ℕ
add_interval (some (pos n)) (some m) = some (n + m)
add_interval _ _ = none

-- The sum of intervals that are all there and not negative.
abbrev pub sum_of : List (Option ℤ) → Option ℕ
sum_of [] = some 0
sum_of (i ∷ is) = add_interval i (sum_of is)

le-last : (bound p : ℕ) (ts : List ℕ) → Ascending bound p ts → (p ≤ last p ts) × (p < bound)
le-last bound p [] h = (omega arith, h)
le-last bound p (t ∷ ts) h =
    let (le, lt) = le-last bound t ts h.1 in (omega (arith, h.0, le), omega (arith, h.0, lt))

interval-between :
    (p t : ℕ)
    → p ≤ t
    → t < 2 ^ 63
    → interval t (record { previous = some p }) ≡ (some (pos (t - p)), record { previous = some t })
unfolding interval
interval-between p t h b = ground arith

-- After a call at a first time, when the times of the calls that follow do not go back and are below
-- 2^63, each of these calls has an interval, and the intervals add up to the time between the first
-- call and the last.
pub intervals-sum :
    (first : ℕ) (times : List ℕ)
    → Ascending (2 ^ 63) first times
    → sum_of (intervals times (record { previous = some first })) ≡ some (last first times - first)
unfolding intervals
intervals-sum first [] h = ap some (omega arith)
intervals-sum first (t ∷ ts) h =
    let (le, lt) = le-last (2 ^ 63) t ts h.1 in
    rw (interval-between first t h.0 lt, intervals-sum t ts h.1) (ap some (omega (arith, le, h.0)))
