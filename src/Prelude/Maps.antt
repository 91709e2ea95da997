-- ===== src/Prelude/Maps.antt =====
-- Maps as functions. The program looks its maps up, writes single keys and erases single keys, and
-- nowhere walks over one of those that are modelled so.
use mathlib.Core.Bool.{Bool}
use mathlib.Core.Option.{Option, none, some}
use evget.Prelude.Tests.{if◌then◌else◌}

abbrev pub Map {ℓ κ} : Type ℓ → Type κ → Type (ℓ ⊔ κ)
Map K V = K → Option V

module _ {ℓ κ} {K : Type ℓ} {V : Type κ} where
  abbrev pub no_entries : Map K V
  no_entries k = none

  module _ (same : K → K → Bool) where
    -- m[k] = v
    abbrev pub insert : K → V → Map K V → Map K V
    insert k v m j = if same k j then some v else m j

    -- m.erase(k)
    abbrev pub erase : K → Map K V → Map K V
    erase k m j = if same k j then none else m j
