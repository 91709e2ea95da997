-- ===== src/LibInput/Devices.antt =====
-- A device keeps its identifier through any sequence of events of
-- evgetlibinput/src/event_transformer.cpp.
use evget.Prelude.{◌≡◌, refl, ap, ◌∙◌, String, Option, none, some, List, [], ◌∷◌}
use evget.Event.Data.{Data}
use evget.Event.Data
use evget.DeviceId.Stability.{Decides, uuid-known, uuid-keeps, uuid-found}
use evget.LibInput.Api.{Environment}
use evget.LibInput.Transformer.{transform_event, transform_from}
use evget.LibInput.Runs.{S, Input, run, uuid_of, transform_from-Follows}

module _ {D T X R : Type 0} (env : Environment D T X R) where
  open env use {api, generate}

  -- The transformer knows a device by an identifier.
  abbrev pub Known : api.Device → String → S env → Type 0
  Known device u s = s.device_ids.device_uuids device ≡ some u

  -- An event that stems from a device.
  abbrev pub StemsFrom : Input env → api.Event → api.Device → Type 0
  StemsFrom e inner device = (e.view_data ≡ some inner) × (api.get_device inner ≡ some device)

  pub transform_event-from :
      (e : Input env) (inner : api.Event) (device : api.Device) (s : S env)
      → StemsFrom e inner device
      → transform_event env e s ≡ transform_from env e.timestamp inner device s
  unfolding transform_event
  transform_event-from e inner device s (v, d) = rw (transform_event, v, d) refl

  -- A property of the state that every event with a device keeps is kept.
  pub transform_event-cases :
      (P : S env → Type 0) (e : Input env) (s : S env)
      → P s
      → ((inner : api.Event) (device : api.Device)
          → e.view_data ≡ some inner
          → P (transform_from env e.timestamp inner device s).1)
      → P (transform_event env e s).1
  unfolding transform_event
  transform_event-cases P e s h step = go e.view_data step
    where
      with_device :
          (inner : api.Event) (o : Option api.Device)
          → ((device : api.Device) → P (transform_from env e.timestamp inner device s).1)
          → P
              (elim o as (λ x. Data × S env) [
                | none ↦ (Data.empty, s)
                | some other ↦ transform_from env e.timestamp inner other s
              ]).1
      with_device inner none k = h
      with_device inner (some other) k = k other

      go :
          (v : Option api.Event)
          → ((inner : api.Event) (device : api.Device)
              → v ≡ some inner
              → P (transform_from env e.timestamp inner device s).1)
          → P (transform_event env (record e { view_data = v }) s).1
      go none k = h
      go (some inner) k = with_device inner (api.get_device inner) (λ device. k inner device refl)

  module _ (decides : Decides api.same_device) where
    pub transform_event-knows :
        (e : Input env) (inner : api.Event) (device : api.Device) (s : S env)
        → StemsFrom e inner device
        → Known device (uuid_of env device s) (transform_event env e s).1
    transform_event-knows e inner device s from =
        ap (λ x. x.1.device_ids.device_uuids device) (transform_event-from e inner device s from)
        ∙ ap (λ ids. ids.device_uuids device)
            (transform_from-Follows env e.timestamp inner device s).1
        ∙ uuid-known api.same_device generate decides device s.device_ids s.random

    transform_event-Known :
        (e : Input env) (device : api.Device) (u : String) (s : S env)
        → Known device u s
        → Known device u (transform_event env e s).1
    transform_event-Known e device u s h =
        transform_event-cases (Known device u) e s h λ inner other v.
          ap (λ ids. ids.device_uuids device)
            (transform_from-Follows env e.timestamp inner other s).1
          ∙ uuid-keeps api.same_device generate decides other device u s.device_ids s.random h

    pub run-Known :
        (es : List (Input env)) (device : api.Device) (u : String) (s : S env)
        → Known device u s
        → Known device u (run env es s)
    unfolding run
    run-Known [] device u s h = h
    run-Known (e ∷ es) device u s h =
        run-Known es device u (transform_event env e s).1 (transform_event-Known e device u s h)

    -- Once an event of a device was transformed, the device keeps the identifier that this event
    -- had, whatever events of whatever devices follow.
    pub uuid_of-run :
        (e : Input env) (inner : api.Event) (device : api.Device) (s : S env)
        (es : List (Input env))
        → StemsFrom e inner device
        → uuid_of env device (run env es (transform_event env e s).1) ≡ uuid_of env device s
    uuid_of-run e inner device s es from = uuid-found api.same_device generate device _ _ _ (
        run-Known es device (uuid_of env device s) (transform_event env e s).1
          (transform_event-knows e inner device s from))
