-- ===== src/X11/Runs.antt =====
-- The states that evgetx11's transformer with both switches reaches: the constructor, then calls of
-- `TransformEvent`.
use mathlib.Core.Path.{subst}
use evget.Prelude.{
  ◌≡◌, refl, ap, sym, ◌∙◌, ◌⊎◌, inl, inr, String, true, false, Option, none, some, Bool-cases,
  Option-cases, Throws, Exception, returns, throws, arith,
}
use evget.Prelude.Int.{ℤ}
use evget.Event.Enums.{DeviceType}
use evget.Event.Data.{Data}
use evget.X11.Api.{Environment, EventType, RawEvent}
use evget.X11.State.{InputEvent, initial}
use evget.X11.EventSwitch.{S, get_button_name}
use evget.X11.Transformer.{construct, refresh_devices, transform_raw, transform_event}
use evget.X11.Outcomes.{Returning, WhenReturned, Returning-map, Returning-when, WhenReturned-bind}
use evget.X11.Events.{full, refreshes, Labelled, Expected, transform_raw-Records}
use evget.X11.Faults.{is_button, button_raw, Labelled-plain, unknown_raw}
use evget.X11.Growth.{Named, Grown, Grown-refl, Grown-trans, Grown-same, refresh_devices-Grown}

when : {A : Type 0} (Q : A → Type 0) (t : Throws A) (a : A) → WhenReturned Q t → t ≡ returns a → Q a
when Q t a h e = subst (WhenReturned Q) e h

returned : {A : Type 0} (Q : A → Type 0) (t : Throws A) → Returning Q t → (a : A) × (t ≡ returns a)
returned Q (returns a) h = (a, refl)
returned Q (throws e) h = elim h [ ]

Throws-cases :
    {A : Type 0} (t : Throws A) → ((a : A) × (t ≡ returns a)) ⊎ ((e : Exception) × (t ≡ throws e))
Throws-cases (returns a) = inl (a, refl)
Throws-cases (throws e) = inr (e, refl)

module _ {D T W R : Type 0} (env : Environment D T W R) where
  -- The states that are reached from the constructor.
  pub data Reach : S env → Type 0 where
    start : (w : W) (r : R) {s : S env} → construct env full w r ≡ returns s → Reach s
    step :
        {s s' : S env} (d : Data) (event : InputEvent T D)
        → Reach s
        → transform_event env full event s ≡ returns (d, s')
        → Reach s'

  -- The states that are reached from a state.
  pub data Run (s : S env) : S env → Type 0 where
    here : Run s s
    next :
        {t u : S env} (d : Data) (event : InputEvent T D)
        → Run s t
        → transform_event env full event t ≡ returns (d, u)
        → Run s u

  -- An event with a button that has no name throws; any other has a label.
  thrown_or_Labelled :
      (type : EventType) (timestamp : T) (raw : RawEvent D) (s : S env)
      → ((e : Exception) × (transform_raw env type full timestamp (record raw { evtype = type }) s
            ≡ throws e))
        ⊎ ((label : String) × Labelled env type raw label s)
  thrown_or_Labelled EventType.raw_button_press timestamp raw s =
      elim (Throws-cases (get_button_name raw.sourceid raw.detail s)) [
        | inl (label, h) ↦ inr (label, h)
        | inr (e, h) ↦ inl (e, button_raw env EventType.raw_button_press timestamp raw s e refl h)
      ]
  thrown_or_Labelled EventType.raw_button_release timestamp raw s =
      elim (Throws-cases (get_button_name raw.sourceid raw.detail s)) [
        | inl (label, h) ↦ inr (label, h)
        | inr (e, h) ↦ inl (e, button_raw env EventType.raw_button_release timestamp raw s e refl h)
      ]
  thrown_or_Labelled _ timestamp raw s = inr ("", tt)

  -- An event with a label is transformed, whether its device is known or not.
  Labelled-returns :
      (type : EventType) (label : String) (timestamp : T) (raw : RawEvent D) (s : S env)
      → Named env s
      → refreshes type ≡ false
      → Labelled env type raw label s
      → Returning
          (λ r. Grown env s r.1)
          (transform_raw env type full timestamp (record raw { evtype = type }) s)
  Labelled-returns type label timestamp raw s named plain l =
      elim (Option-cases (s.event_switch.devices raw.sourceid)) [
        | inl h ↦
            subst (Returning (λ (r : Data × S env). Grown env s r.1))
              (sym (unknown_raw env type label timestamp raw s h plain l)) (Grown-refl env s)
        | inr (t, h) ↦
            let (name, k) = named raw.sourceid t h in
            Returning-map (Expected env type t name label timestamp raw s) (λ r. Grown env s r.1) _
              (λ r x. Grown-same env s r.1 x.1.devices x.1.names)
              (transform_raw-Records env type t name label timestamp raw s h k plain l)
      ]

  refresh_raw :
      (type : EventType) (timestamp : T) (raw : RawEvent D) (s : S env)
      → refreshes type ≡ true
      → WhenReturned (λ r. Grown env s r.1) (transform_raw env type full timestamp raw s)
  unfolding transform_raw refreshes
  refresh_raw EventType.device_changed timestamp raw s h =
      WhenReturned-bind (Grown env s) _ (refresh_devices env full s) _
        (refresh_devices-Grown env full s) λ t k. k
  refresh_raw EventType.hierarchy_changed timestamp raw s h =
      WhenReturned-bind (Grown env s) _ (refresh_devices env full s) _
        (refresh_devices-Grown env full s) λ t k. k
  refresh_raw _ timestamp raw s h = ground arith

  raw-Grown :
      (timestamp : T) (raw : RawEvent D) (s : S env)
      → Named env s
      → WhenReturned (λ r. Grown env s r.1) (transform_raw env raw.evtype full timestamp raw s)
  raw-Grown timestamp raw s named = elim (Bool-cases (refreshes raw.evtype)) [
    | inl y ↦ refresh_raw raw.evtype timestamp raw s y
    | inr n ↦ elim (thrown_or_Labelled raw.evtype timestamp raw s) [
      | inl (e, h) ↦ subst (WhenReturned (λ (r : Data × S env). Grown env s r.1)) (sym h) tt
      | inr (label, l) ↦
          Returning-when (λ (r : Data × S env). Grown env s r.1)
            (transform_raw env raw.evtype full timestamp raw s)
            (Labelled-returns raw.evtype label timestamp raw s named n l)
    ]
  ]

  event-Grown :
      (event : InputEvent T D) (s : S env)
      → Named env s
      → WhenReturned (λ r. Grown env s r.1) (transform_event env full event s)
  unfolding transform_event
  event-Grown event s named = go event.cookie refl
    where
      go :
          (o : Option (RawEvent D))
          → event.cookie ≡ o
          → WhenReturned
              (λ r. Grown env s r.1)
              (transform_event env full (record event { cookie = o }) s)
      go none e = Grown-refl env s
      go (some raw) e = raw-Grown event.timestamp raw s named

  Reach-Named : (s : S env) → Reach s → Named env s
  unfolding construct
  Reach-Named s (Reach.start w r e) =
      (when (Grown env (initial w r)) _ s (refresh_devices-Grown env full (initial w r)) e).names
        λ id t h. ground arith
  Reach-Named s (Reach.step {s = u} d event reached e) =
      (when (λ r. Grown env u r.1) _ (d, s) (event-Grown event u (Reach-Named u reached)) e).names
        (Reach-Named u reached)

  -- In every state that the transformer reaches, an event of any type but the two that refresh the
  -- devices and the two of buttons is transformed without an exception.
  pub Reach-returns :
      (s : S env) (event : InputEvent T D) (raw : RawEvent D)
      → Reach s
      → event.cookie ≡ some raw
      → refreshes raw.evtype ≡ false
      → is_button raw.evtype ≡ false
      → (r : Data × S env) × (transform_event env full event s ≡ returns r)
  unfolding transform_event
  Reach-returns s event raw reached c plain b =
      let (r, h) =
        returned (λ (r : Data × S env). Grown env s r.1)
          (transform_raw env raw.evtype full event.timestamp raw s)
          (Labelled-returns raw.evtype "" event.timestamp raw s (Reach-Named s reached) plain
            (Labelled-plain env raw.evtype raw s b)) in
      (r, ap (λ o. transform_event env full (record event { cookie = o }) s) c ∙ h)

  Run-Grown : (s t : S env) → Reach s → Run s t → Reach t × Grown env s t
  Run-Grown s t reached Run.here = (reached, Grown-refl env s)
  Run-Grown s t reached (Run.next {t = u} d event run e) =
      let (there, grown) = Run-Grown s u reached run in
      (
        Reach.step d event there e,
        Grown-trans env s u t grown
            (when (λ r. Grown env u r.1) _ (d, t) (event-Grown event u (Reach-Named u there)) e),
      )

  -- From a state that the transformer reaches, a device that the event switch knows keeps its type
  -- through any further events that are transformed, refreshes of the devices included, and it has
  -- a name in all of them.
  pub Run-device :
      (s t : S env) (id : ℤ) (type : DeviceType)
      → Reach s
      → Run s t
      → s.event_switch.devices id ≡ some type
      → (t.event_switch.devices id ≡ some type)
        × ((name : String) × (t.event_switch.id_to_name id ≡ some name))
  Run-device s t id type reached run h =
      let (there, grown) = Run-Grown s t reached run in
      (grown.keeps id type h, Reach-Named t there id type (grown.keeps id type h))
