-- ===== src/X11/Events.antt =====
-- `TransformEvent` of evgetx11/include/evgetx11/event_transformer.h, with both switches: the entries of
-- an event of a device that is known.
use mathlib.Core.Path.{subst}
use evget.Prelude.{
  ◌≡◌, refl, ap, sym, ◌∙◌, String, Bool, true, false, some, List, [], ◌∷◌, ◌++◌, if◌then◌else◌,
  Throws, returns, throws, ◌>>=◌, arith,
}
use evget.Event.Enums.{DeviceType, EntryType, ButtonAction, press, release}
use evget.Event.Data.{Data}
use evget.Event.Data
use evget.X11.Api.{Environment, EventType, RawEvent, ValuatorState}
use evget.X11.State.{InputEvent}
use evget.X11.EventSwitch.{S, get_button_name}
use evget.X11.PointerKey.{button_event, key_event}
use evget.X11.Motion.{motion_event, scroll_event}
use evget.X11.Touch.{touch_button, touch_motion}
use evget.X11.Motion
use evget.X11.Touch
use evget.X11.Transformer.{
  Switch, pointer_key, touch, switch_with, switch_all, transform_raw, transform_event,
}
use evget.X11.Outcomes.{Returning, Returning-bind, Returning-map}
use evget.X11.Fields.{Kept, Kept-refl, Kept-trans}
use evget.X11.Origins.{origin_of}
use evget.X11.Recorded.{Adds-none, Adds-append, Records}
use evget.X11.Entries.{
  button_types, touch_motion-Records, touch_button-Records, button_event-Records, key_event-Records,
}
use evget.X11.Axes.{motion_types, scroll_types}
use evget.X11.Scrolling.{later, motion_event-Records, scroll_event-Records}

-- The switches of a transformer that is built with pointer, keys and touch.
abbrev pub full : List Switch
full = pointer_key ∷ touch ∷ []

-- The name that entries give the type of their event.
unfoldable pub system_event_of : EventType → String
system_event_of EventType.raw_motion = "XI_RawMotion"
system_event_of EventType.raw_button_press = "XI_RawButtonPress"
system_event_of EventType.raw_button_release = "XI_RawButtonRelease"
system_event_of EventType.raw_key_press = "XI_RawKeyPress"
system_event_of EventType.raw_key_release = "XI_RawKeyRelease"
system_event_of EventType.raw_touch_begin = "XI_RawTouchBegin"
system_event_of EventType.raw_touch_update = "XI_RawTouchUpdate"
system_event_of EventType.raw_touch_end = "XI_RawTouchEnd"
system_event_of _ = ""

-- The types that make the transformer refresh its devices.
unfoldable pub refreshes : EventType → Bool
refreshes EventType.device_changed = true
refreshes EventType.hierarchy_changed = true
refreshes _ = false

pub bind_assoc :
    {A B C : Type 0} (t : Throws A) (f : A → Throws B) (g : B → Throws C)
    → (t >>= λ a. f a >>= g) ≡ ((t >>= f) >>= g)
bind_assoc (returns a) f g = refl
bind_assoc (throws e) f g = refl

module _ {D T W R : Type 0} (env : Environment D T W R) where
  -- The types of the entries of an event, where `label` is the name of its button.
  unfoldable pub expected_types : EventType → RawEvent D → String → S env → List EntryType
  unfolding motion_types scroll_types button_types
  expected_types EventType.raw_motion raw label s = motion_types env raw s ++ scroll_types env raw s
  expected_types EventType.raw_button_press raw label s = button_types env raw label
  expected_types EventType.raw_button_release raw label s = button_types env raw label
  expected_types EventType.raw_key_press raw label s = EntryType.key ∷ []
  expected_types EventType.raw_key_release raw label s = EntryType.key ∷ []
  expected_types EventType.raw_touch_begin raw label s =
      EntryType.mouse_move ∷ EntryType.mouse_click ∷ []
  expected_types EventType.raw_touch_update raw label s = EntryType.mouse_move ∷ []
  expected_types EventType.raw_touch_end raw label s =
      EntryType.mouse_move ∷ EntryType.mouse_click ∷ []
  expected_types _ raw label s = []

  -- The button of a button event has a name.
  abbrev pub Labelled : EventType → RawEvent D → String → S env → Type 0
  Labelled EventType.raw_button_press raw label s =
      get_button_name raw.sourceid raw.detail s ≡ returns label
  Labelled EventType.raw_button_release raw label s =
      get_button_name raw.sourceid raw.detail s ≡ returns label
  Labelled _ raw label s = Unit

  module _ (t : DeviceType) (name : String) (timestamp : T) (raw : RawEvent D) (s : S env)
      (known : s.event_switch.devices raw.sourceid ≡ some t)
      (named : s.event_switch.id_to_name raw.sourceid ≡ some name) where
    abbrev After : String → Data → S env → List EntryType → Data × S env → Type 0
    After system_event d u types =
        Records env (origin_of env t name timestamp raw system_event u) raw.sourceid types d u

    -- A step for the event after another.
    and_after :
        (system_event : String) (ts us : List EntryType) (r r2 : Data × S env) (d : Data)
        → After system_event d s ts r
        → After system_event r.0 r.1 us r2
        → After system_event d s (ts ++ us) r2
    and_after system_event ts us r r2 d h k = (
      Adds-append env _ ts us d r.0 r2.0 h.0
          (later env t name timestamp raw system_event s r.1 us r.0 r2.0 h.1 k.0),
      Kept-trans env raw.sourceid s r.1 r2.1 h.1 k.1,
    )

    still_known :
        (u : S env) → Kept env raw.sourceid s u → u.event_switch.devices raw.sourceid ≡ some t
    still_known u h = ap (λ m. m raw.sourceid) h.devices ∙ known

    still_named :
        (u : S env) → Kept env raw.sourceid s u → u.event_switch.id_to_name raw.sourceid ≡ some name
    still_named u h = ap (λ m. m raw.sourceid) h.names ∙ named

    touched :
        (action : ButtonAction) (system_event : String)
        → Returning
            (After system_event Data.empty s (EntryType.mouse_move ∷ EntryType.mouse_click ∷ []))
            (touch_motion env timestamp raw system_event Data.empty s >>= λ moved.
              touch_button env action timestamp raw system_event moved.0 moved.1)
    touched action system_event =
        let both =
          After system_event Data.empty s (EntryType.mouse_move ∷ EntryType.mouse_click ∷ []) in
        Returning-bind (After system_event Data.empty s (EntryType.mouse_move ∷ [])) both _
          (λ moved. touch_button env action timestamp raw system_event moved.0 moved.1)
          (touch_motion-Records env t name timestamp raw system_event Data.empty s known named)
          λ r h.
            Returning-map (After system_event r.0 r.1 (EntryType.mouse_click ∷ [])) both _
              (λ r2 k.
                and_after system_event (EntryType.mouse_move ∷ []) (EntryType.mouse_click ∷ []) r r2
                  Data.empty h k)
              (touch_button-Records env t name timestamp raw system_event r.0 r.1
                (still_known r.1 h.1) (still_named r.1 h.1) action)

    scroll_types-same :
        (v : ValuatorState D) (u : S env)
        → v.mask ≡ raw.valuators.mask
        → u.pointer_key ≡ s.pointer_key
        → scroll_types env (record raw { valuators = v }) u ≡ scroll_types env raw s
    unfolding scroll_types
    scroll_types-same v u h k =
        ap (λ m. scroll_types env (record raw { valuators = record v { mask = m } }) u) h
        ∙ ap (λ p. scroll_types env raw (record u { pointer_key = p })) k

    moved :
        Returning
          (After "XI_RawMotion" Data.empty s (motion_types env raw s ++ scroll_types env raw s))
          (motion_event env timestamp raw "XI_RawMotion" Data.empty s >>= λ m.
            scroll_event env timestamp m.1 "XI_RawMotion" m.0.0 m.0.1)
    moved =
        let both =
          After "XI_RawMotion" Data.empty s (motion_types env raw s ++ scroll_types env raw s) in
        Returning-bind _ both _ (λ m. scroll_event env timestamp m.1 "XI_RawMotion" m.0.0 m.0.1)
          (motion_event-Records env t name timestamp raw "XI_RawMotion" Data.empty s known named)
          λ r h.
            let left = record raw { valuators = h.1.valuators } in
            subst (λ l. Returning both (scroll_event env timestamp l "XI_RawMotion" r.0.0 r.0.1))
              (sym h.1.same)
              (Returning-map (After "XI_RawMotion" r.0.0 r.0.1 (scroll_types env left r.0.1)) both _
                (λ r2 k.
                  and_after "XI_RawMotion" (motion_types env raw s) (scroll_types env raw s) r.0 r2
                    Data.empty h.0
                    (subst (λ types. After "XI_RawMotion" r.0.0 r.0.1 types r2)
                      (scroll_types-same h.1.valuators r.0.1 h.1.same_mask h.0.1.pointer_key) k))
                (scroll_event-Records env t name timestamp left "XI_RawMotion" r.0.0 r.0.1
                  (still_known r.0.1 h.0.1) (still_named r.0.1 h.0.1)))

  module _ (P : Data × S env → Type 0) (w : Switch) (ws : List Switch) (timestamp : T)
      (raw : RawEvent D) (d : Data) (s : S env) where
    -- A switch that handles the event is the last that is tried.
    pub handled :
        (t : Throws (Data × S env))
        → switch_with env w timestamp raw d s ≡ (t >>= λ r. returns (true, r))
        → Returning P t
        → Returning P (switch_all env (w ∷ ws) timestamp raw d s)
    unfolding switch_all Motion.switch_on_event Touch.switch_on_event
    handled t e h = subst (λ u. Returning P (u >>= next)) (sym e) (go t h)
      where
        next : Bool × (Data × S env) → Throws (Data × S env)
        next r =
            let rest = switch_all env ws timestamp raw r.1.0 r.1.1 in
            if r.0 then returns r.1 else rest

        go :
            (u : Throws (Data × S env))
            → Returning P u
            → Returning P ((u >>= λ r. returns (true, r)) >>= next)
        go (returns a) k = k
        go (throws e) k = k

  -- What is expected of an event of a type.
  abbrev pub Expected :
      EventType → DeviceType → String → String → T → RawEvent D → S env → Data × S env → Type 0
  Expected type t name label timestamp raw s =
      Records env
        (origin_of env t name timestamp (record raw { evtype = type }) (system_event_of type) s)
        raw.sourceid (expected_types type raw label s) Data.empty s

  pub transform_raw-Records :
      (type : EventType) (t : DeviceType) (name label : String) (timestamp : T) (raw : RawEvent D)
      (s : S env)
      → s.event_switch.devices raw.sourceid ≡ some t
      → s.event_switch.id_to_name raw.sourceid ≡ some name
      → refreshes type ≡ false
      → Labelled type raw label s
      → Returning
          (Expected type t name label timestamp raw s)
          (transform_raw env type full timestamp (record raw { evtype = type }) s)
  unfolding transform_raw Motion.switch_on_event Touch.switch_on_event expected_types
      system_event_of refreshes switch_all
  transform_raw-Records EventType.device_changed t name label timestamp raw s k n plain l =
      ground arith
  transform_raw-Records EventType.hierarchy_changed t name label timestamp raw s k n plain l =
      ground arith
  transform_raw-Records EventType.raw_motion t name label timestamp raw s k n plain l =
      let event = record raw { evtype = EventType.raw_motion } in
      handled (Expected EventType.raw_motion t name label timestamp raw s) pointer_key (touch ∷ [])
        timestamp event Data.empty s
        (motion_event env timestamp event "XI_RawMotion" Data.empty s >>= λ m.
          scroll_event env timestamp m.1 "XI_RawMotion" m.0.0 m.0.1)
        (bind_assoc (motion_event env timestamp event "XI_RawMotion" Data.empty s) _ _)
        (moved t name timestamp event s k n)
  transform_raw-Records EventType.raw_button_press t name label timestamp raw s k n plain l =
      let event = record raw { evtype = EventType.raw_button_press } in
      handled (Expected EventType.raw_button_press t name label timestamp raw s) pointer_key
        (touch ∷ []) timestamp event Data.empty s
        (button_event env press timestamp event "XI_RawButtonPress" Data.empty s) refl
        (button_event-Records env t name timestamp event "XI_RawButtonPress" Data.empty s k n press
          label l)
  transform_raw-Records EventType.raw_button_release t name label timestamp raw s k n plain l =
      let event = record raw { evtype = EventType.raw_button_release } in
      handled (Expected EventType.raw_button_release t name label timestamp raw s) pointer_key
        (touch ∷ []) timestamp event Data.empty s
        (button_event env release timestamp event "XI_RawButtonRelease" Data.empty s) refl
        (button_event-Records env t name timestamp event "XI_RawButtonRelease" Data.empty s k n
          release label l)
  transform_raw-Records EventType.raw_key_press t name label timestamp raw s k n plain l =
      let event = record raw { evtype = EventType.raw_key_press } in
      handled (Expected EventType.raw_key_press t name label timestamp raw s) pointer_key
        (touch ∷ []) timestamp event Data.empty s
        (key_event env timestamp event "XI_RawKeyPress" Data.empty s) refl
        (key_event-Records env t name timestamp event "XI_RawKeyPress" Data.empty s k n)
  transform_raw-Records EventType.raw_key_release t name label timestamp raw s k n plain l =
      let event = record raw { evtype = EventType.raw_key_release } in
      handled (Expected EventType.raw_key_release t name label timestamp raw s) pointer_key
        (touch ∷ []) timestamp event Data.empty s
        (key_event env timestamp event "XI_RawKeyRelease" Data.empty s) refl
        (key_event-Records env t name timestamp event "XI_RawKeyRelease" Data.empty s k n)
  transform_raw-Records EventType.raw_touch_begin t name label timestamp raw s k n plain l =
      let event = record raw { evtype = EventType.raw_touch_begin } in
      handled (Expected EventType.raw_touch_begin t name label timestamp raw s) touch [] timestamp
        event Data.empty s
        (touch_motion env timestamp event "XI_RawTouchBegin" Data.empty s >>= λ moved.
          touch_button env press timestamp event "XI_RawTouchBegin" moved.0 moved.1)
        (bind_assoc (touch_motion env timestamp event "XI_RawTouchBegin" Data.empty s) _ _)
        (touched t name timestamp event s k n press "XI_RawTouchBegin")
  transform_raw-Records EventType.raw_touch_end t name label timestamp raw s k n plain l =
      let event = record raw { evtype = EventType.raw_touch_end } in
      handled (Expected EventType.raw_touch_end t name label timestamp raw s) touch [] timestamp
        event Data.empty s
        (touch_motion env timestamp event "XI_RawTouchEnd" Data.empty s >>= λ moved.
          touch_button env release timestamp event "XI_RawTouchEnd" moved.0 moved.1)
        (bind_assoc (touch_motion env timestamp event "XI_RawTouchEnd" Data.empty s) _ _)
        (touched t name timestamp event s k n release "XI_RawTouchEnd")
  transform_raw-Records EventType.raw_touch_update t name label timestamp raw s k n plain l =
      let event = record raw { evtype = EventType.raw_touch_update } in
      handled (Expected EventType.raw_touch_update t name label timestamp raw s) touch [] timestamp
        event Data.empty s (touch_motion env timestamp event "XI_RawTouchUpdate" Data.empty s) refl
        (touch_motion-Records env t name timestamp event "XI_RawTouchUpdate" Data.empty s k n)
  transform_raw-Records _ t name label timestamp raw s k n plain l =
      (Adds-none env _ Data.empty, Kept-refl env raw.sourceid s)

  -- For a transformer with both switches, an event of a known device, of any type but the two that
  -- refresh the devices, whose button has a name if it is a button event, never throws. The entries
  -- have exactly the types that belong to the event (a key for key events; a click for button events
  -- that are neither emulated nor of a wheel; a move and a scroll for a motion event that is not
  -- emulated, as far as its mask has a valuator of an axis and of a scroll class; a move and a click
  -- for the begin and end of a touch, a move for its update), each carries the time of the event,
  -- the name, identifier and type of the device (keyboard for key events), the name of the event
  -- type, the source "x11" and the modifiers that a query of the pointer reported, and the known
  -- devices stay as they are.
  pub transform_event-Records :
      (t : DeviceType) (name label : String) (event : InputEvent T D) (raw : RawEvent D) (s : S env)
      → event.cookie ≡ some raw
      → s.event_switch.devices raw.sourceid ≡ some t
      → s.event_switch.id_to_name raw.sourceid ≡ some name
      → refreshes raw.evtype ≡ false
      → Labelled raw.evtype raw label s
      → Returning
          (Expected raw.evtype t name label event.timestamp raw s)
          (transform_event env full event s)
  unfolding transform_event
  transform_event-Records t name label event raw s c k n plain l =
      subst
        (λ o.
          Returning (Expected raw.evtype t name label event.timestamp raw s)
            (transform_event env full (record event { cookie = o }) s))
        (sym c) (transform_raw-Records raw.evtype t name label event.timestamp raw s k n plain l)
