-- ===== src/LibInput/Runs.antt =====
-- Sequences of events through `TransformEvent` of evgetlibinput/src/event_transformer.cpp.
use evget.Prelude.{String, Option, none, some, List, [], ◌∷◌}
use evget.Event.Data.{Data}
use evget.Event.Data
use evget.DeviceId.{uuid}
use evget.LibInput.Api.{Environment}
use evget.LibInput.State.{State}
use evget.LibInput.Values.{InputEvent}
use evget.LibInput.Transformer.{transform_event, transform_from}
use evget.LibInput.Frames.{next_keyboard, Follows, switch_on_type-Follows}

module _ {D T X R : Type 0} (env : Environment D T X R) where
  open env use {api, xkb, formats, generate}

  abbrev pub S : Type 0
  S = State D api.Device X R

  abbrev pub Input : Type 0
  Input = InputEvent T api.Event

  -- The state after a sequence of events.
  unfoldable pub run : List Input → S → S
  run [] s = s
  run (e ∷ es) s = run es (transform_event env e s).1

  -- The identifier by which the transformer knows a device.
  abbrev pub uuid_of : api.Device → S → String
  uuid_of device s = (uuid api.same_device generate device s.device_ids s.random).0

  -- What one event does to the keyboard.
  abbrev pub keyboard_step : Option api.Event → X → X
  keyboard_step none x = x
  keyboard_step (some event) x = elim (api.get_device event) [
    | none ↦ x
    | some device ↦ next_keyboard env (api.get_event_type event) event x
  ]

  abbrev pub keyboard_after : List Input → X → X
  keyboard_after [] x = x
  keyboard_after (e ∷ es) x = keyboard_after es (keyboard_step e.view_data x)

  abbrev prepared : api.Device → S → S
  prepared device s = record s {
    device_ids = (uuid api.same_device generate device s.device_ids s.random).1;
    random = (uuid api.same_device generate device s.device_ids s.random).2;
  }

  pub transform_from-Follows :
      (timestamp : T) (event : api.Event) (device : api.Device) (s : S)
      → Follows env
          (api.get_event_type event)
          (uuid_of device s)
          event
          (prepared device s)
          (transform_from env timestamp event device s).1
  unfolding transform_from
  transform_from-Follows timestamp event device s =
      switch_on_type-Follows env (api.get_event_type event) _ event (prepared device s) Data.empty
