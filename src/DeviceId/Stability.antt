-- ===== src/DeviceId/Stability.antt =====
-- evget/include/evget/device_id.h never changes the identifier of a device.
use evget.Prelude.{
  ◌≡◌, ◌↔◌, refl, sym, ap, ◌∙◌, String, Bool, true, Option, none, some, insert, Bool-cases, inl,
  inr, arith,
}
use evget.DeviceId.{DeviceId, uuid}

-- Devices are told apart by a test that decides their equality.
abbrev pub Decides : {K : Type 0} → (K → K → Bool) → Type 0
Decides {K} same = (j k : K) → (same j k ≡ true) ↔ (j ≡ k)

module _ {K R : Type 0} (same : K → K → Bool) (generate : R → String × R) where
  -- The identifier that a device was given is remembered.
  pub uuid-known :
      (decides : Decides same) (k : K) (ids : DeviceId K) (r : R)
      → (uuid same generate k ids r).1.device_uuids k ≡ some (uuid same generate k ids r).0
  unfolding uuid
  uuid-known decides k ids r = go (ids.device_uuids k) refl
    where
      found : Option String → String × DeviceId K × R
      found o = elim o [
        | some u ↦ (u, ids, r)
        | none ↦
            let (fresh, r') = generate r in
            (fresh, record { device_uuids = insert same k fresh ids.device_uuids }, r')
      ]

      go :
          (o : Option String)
          → ids.device_uuids k ≡ o
          → (found o).1.device_uuids k ≡ some (found o).0
      go none e = rw ((decides k k).1 refl) refl
      go (some u) e = e

  -- Asking for another device forgets none.
  pub uuid-keeps :
      (decides : Decides same) (j k : K) (u : String) (ids : DeviceId K) (r : R)
      → ids.device_uuids k ≡ some u
      → (uuid same generate j ids r).1.device_uuids k ≡ some u
  unfolding uuid
  uuid-keeps decides j k u ids r h = go (ids.device_uuids j) refl
    where
      found : Option String → String × DeviceId K × R
      found o = elim o [
        | some v ↦ (v, ids, r)
        | none ↦
            let (fresh, r') = generate r in
            (fresh, record { device_uuids = insert same j fresh ids.device_uuids }, r')
      ]

      go : (o : Option String) → ids.device_uuids j ≡ o → (found o).1.device_uuids k ≡ some u
      go (some v) e = h
      go none e = elim (Bool-cases (same j k)) [
        | inl y ↦ ground (arith, sym h ∙ sym (ap ids.device_uuids ((decides j k).0 y)) ∙ e)
        | inr n ↦ rw n h
      ]

  pub uuid-found :
      (k : K) (u : String) (ids : DeviceId K) (r : R)
      → ids.device_uuids k ≡ some u
      → (uuid same generate k ids r).0 ≡ u
  unfolding uuid
  uuid-found k u ids r h = rw (uuid, h) refl
