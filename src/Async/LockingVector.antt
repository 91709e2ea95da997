-- ===== src/Async/LockingVector.antt =====
-- evget/include/evget/async/container/locking_vector.h. Each public method holds the lock for its
-- whole body, so a method is one step, and the methods named Unsafe are those bodies.
use evget.Prelude.{ℕ, Option, none, some, List, [], ◌∷◌, ◌++◌, length, leb, if◌then◌else◌}

pub record LockingVector (A : Type 0) : Type 0 where
  pub inner : List A

module _ {A : Type 0} where
  abbrev pub empty : LockingVector A
  empty = record { inner = [] }

  -- PushBack
  unfoldable pub push_back : A → LockingVector A → LockingVector A
  push_back value v = record { inner = v.inner ++ value ∷ [] }

  -- IntoInner: the vector is moved out and cleared, and the optional always holds it.
  unfoldable pub into_inner : LockingVector A → Option (List A) × LockingVector A
  into_inner v = (some v.inner, record { inner = [] })

  -- IntoInnerAt
  unfoldable pub into_inner_at : ℕ → LockingVector A → Option (List A) × LockingVector A
  unfolding into_inner
  into_inner_at size v = if leb size (length v.inner) then into_inner v else (none, v)
