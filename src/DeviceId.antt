-- ===== src/DeviceId.antt =====
-- evget/include/evget/device_id.h: devices and the identifiers that are made for them. The random
-- generator of UUIDs is not part of the program: it is a function of its own state `R`.
pub mod Stability
use evget.Prelude.{String, Bool, none, some, Map, no_entries, insert}

pub record DeviceId (K : Type 0) : Type 0 where
  pub device_uuids : Map K String

abbrev pub empty : {K : Type 0} → DeviceId K
empty = record { device_uuids = no_entries }

module _ {K R : Type 0} (same : K → K → Bool) (generate : R → String × R) where
  -- DeviceId::Uuid: the identifier, and what the call leaves behind.
  unfoldable pub uuid : K → DeviceId K → R → String × DeviceId K × R
  uuid key ids r = elim (ids.device_uuids key) [
    | some found ↦ (found, ids, r)
    | none ↦
        let (fresh, r') = generate r in
        (fresh, record { device_uuids = insert same key fresh ids.device_uuids }, r')
  ]
