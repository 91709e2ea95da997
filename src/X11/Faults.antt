-- ===== src/X11/Faults.antt =====
-- `TransformEvent` of evgetx11/include/evgetx11/event_transformer.h for devices and buttons that are
-- not known, and the action that `KeyEvent` records.
use mathlib.Core.Path.{subst}
use evget.Prelude.{
  ◌≡◌, refl, ap, sym, ◌∙◌, String, Bool, true, false, not, ◌||◌, none, some, List, [], ◌∷◌, is_some,
  get_elem?, inl, inr, Bool-cases, if◌then◌else◌, Throws, Exception, returns, throws, out_of_range,
  ◌>>=◌, arith,
}
use evget.Event.Enums.{
  DeviceType, ButtonAction, press, release, repeat, to_underlying, to_underlying_optional,
  button_action_enum, device_type_enum,
}
use evget.Event.Entry.{Entry}
use evget.Event.Data.{Data, add_entry}
use evget.Event.Data
use evget.Event.Modifiers.{key_appends}
use evget.Event.Key
use evget.Event.Key.{Key, key_base_fields, key_window_functions, key_screen_function}
use evget.X11.Api.{
  Environment, QueryPointerResult, EventType, RawEvent, key_repeat, pointer_emulated,
}
use evget.X11.State.{InputEvent, at, at-none, call}
use evget.X11.EventSwitch.{S, has_device, get_button_name, set_fields}
use evget.X11.PointerKey.{is_wheel, button_event, key_event, key_action}
use evget.X11.Motion.{motion_event, scroll_event}
use evget.X11.Touch.{touch_button, touch_motion}
use evget.X11.Motion
use evget.X11.Touch
use evget.X11.Transformer.{
  Switch, switch_with, switch_all, transform_raw, transform_event, pointer_key, touch,
}
use evget.X11.Outcomes.{Returning, Returning-bind, Returning-eq, throws-bind}
use evget.X11.Fields.{Kept, set_modifier_value-append, set_fields-keeps}
use evget.X11.Events.{full, refreshes, Labelled, handled, bind_assoc}
use evget.X11.Entries.{guard-only}

abbrev pub is_button : EventType → Bool
is_button EventType.raw_button_press = true
is_button EventType.raw_button_release = true
is_button _ = false

abbrev pub is_key : EventType → Bool
is_key EventType.raw_key_press = true
is_key EventType.raw_key_release = true
is_key _ = false

module _ {D T W R : Type 0} (env : Environment D T W R) where
  after :
      {A B : Type 0} (t : Throws A) (a : A) (f : A → Throws B) (b : B)
      → t ≡ returns a
      → f a ≡ returns b
      → (t >>= f) ≡ returns b
  after t a f b h k = ap (λ u. u >>= f) h ∙ k

  -- A method whose guard needs the device.
  skip :
      {A : Type 0} (raw : RawEvent D) (s : S env) (c : Bool) (x y : A)
      → s.event_switch.devices raw.sourceid ≡ none
      → (if not (has_device raw.sourceid s) || c then x else y) ≡ x
  unfolding has_device
  skip raw s c x y h = ap (λ o. if not (is_some o) || c then x else y) h

  skip_only :
      {A : Type 0} (raw : RawEvent D) (s : S env) (x y : A)
      → s.event_switch.devices raw.sourceid ≡ none
      → (if not (has_device raw.sourceid s) then x else y) ≡ x
  unfolding has_device
  skip_only raw s x y h = ap (λ o. if not (is_some o) then x else y) h

  module _ (timestamp : T) (raw : RawEvent D) (name : String) (d : Data) (s : S env)
      (h : s.event_switch.devices raw.sourceid ≡ none) where
    motion_event-unknown : motion_event env timestamp raw name d s ≡ returns ((d, s), raw)
    unfolding motion_event
    motion_event-unknown = skip raw s (pointer_emulated raw.flags) _ _ h

    scroll_event-unknown : scroll_event env timestamp raw name d s ≡ returns (d, s)
    unfolding scroll_event
    scroll_event-unknown = skip raw s (pointer_emulated raw.flags) _ _ h

    key_event-unknown : key_event env timestamp raw name d s ≡ returns (d, s)
    unfolding key_event
    key_event-unknown = skip_only raw s _ _ h

    touch_motion-unknown : touch_motion env timestamp raw name d s ≡ returns (d, s)
    unfolding touch_motion
    touch_motion-unknown = skip_only raw s _ _ h

    touch_button-unknown :
        (action : ButtonAction) → touch_button env action timestamp raw name d s ≡ returns (d, s)
    unfolding touch_button
    touch_button-unknown action = skip_only raw s _ _ h

  button_event-unknown :
      (action : ButtonAction) (timestamp : T) (raw : RawEvent D) (name label : String) (d : Data)
      (s : S env)
      → s.event_switch.devices raw.sourceid ≡ none
      → get_button_name raw.sourceid raw.detail s ≡ returns label
      → button_event env action timestamp raw name d s ≡ returns (d, s)
  unfolding button_event
  button_event-unknown action timestamp raw name label d s h k =
      after (get_button_name raw.sourceid raw.detail s) label _ (d, s) k
        (skip raw s (pointer_emulated raw.flags || is_wheel env label) _ _ h)

  button_event-throws :
      (action : ButtonAction) (timestamp : T) (raw : RawEvent D) (name : String) (d : Data)
      (s : S env) (e : Exception)
      → get_button_name raw.sourceid raw.detail s ≡ throws e
      → button_event env action timestamp raw name d s ≡ throws e
  unfolding button_event
  button_event-throws action timestamp raw name d s e h =
      throws-bind (get_button_name raw.sourceid raw.detail s) _ e h

  get_button_name-unknown :
      (raw : RawEvent D) (s : S env)
      → s.event_switch.button_map raw.sourceid ≡ none
      → get_button_name raw.sourceid raw.detail s ≡ throws out_of_range
  unfolding get_button_name
  get_button_name-unknown raw s h =
      throws-bind (at s.event_switch.button_map raw.sourceid) _ out_of_range
        (at-none s.event_switch.button_map raw.sourceid h)

  thrown :
      (raw : RawEvent D) (timestamp : T) (s : S env) (t : Throws (Data × S env)) (e : Exception)
      → switch_with env pointer_key timestamp raw Data.empty s ≡ (t >>= λ r. returns (true, r))
      → t ≡ throws e
      → switch_all env full timestamp raw Data.empty s ≡ throws e
  unfolding switch_all Motion.switch_on_event Touch.switch_on_event
  thrown raw timestamp s t e h k =
      ap (λ u. u >>= next) (h ∙ ap (λ u. u >>= λ r. returns (true, r)) k)
    where
      next : Bool × (Data × S env) → Throws (Data × S env)
      next r =
          let rest = switch_all env (touch ∷ []) timestamp raw r.1.0 r.1.1 in
          if r.0 then returns r.1 else rest

  -- A button event throws what looking its button up throws.
  pub button_raw :
      (type : EventType) (timestamp : T) (raw : RawEvent D) (s : S env) (e : Exception)
      → is_button type ≡ true
      → get_button_name raw.sourceid raw.detail s ≡ throws e
      → transform_raw env type full timestamp (record raw { evtype = type }) s ≡ throws e
  unfolding transform_raw Motion.switch_on_event
  button_raw EventType.raw_button_press timestamp raw s e b h =
      let event = record raw { evtype = EventType.raw_button_press } in
      thrown event timestamp s _ e refl
        (button_event-throws press timestamp event "XI_RawButtonPress" Data.empty s e h)
  button_raw EventType.raw_button_release timestamp raw s e b h =
      let event = record raw { evtype = EventType.raw_button_release } in
      thrown event timestamp s _ e refl
        (button_event-throws release timestamp event "XI_RawButtonRelease" Data.empty s e h)
  button_raw _ timestamp raw s e b h = ground arith

  ignored :
      (w : Switch) (ws : List Switch) (timestamp : T) (raw : RawEvent D) (s : S env)
      (t : Throws (Data × S env))
      → switch_with env w timestamp raw Data.empty s ≡ (t >>= λ r. returns (true, r))
      → t ≡ returns (Data.empty, s)
      → switch_all env (w ∷ ws) timestamp raw Data.empty s ≡ returns (Data.empty, s)
  ignored w ws timestamp raw s t e h =
      Returning-eq (Data.empty, s) _
        (handled env (λ r. r ≡ (Data.empty, s)) w ws timestamp raw Data.empty s t e
          (subst (Returning (λ r. r ≡ (Data.empty, s))) (sym h) refl))

  -- A button event whose button has no name is the one that throws.
  pub Labelled-plain :
      (type : EventType) (raw : RawEvent D) (s : S env)
      → is_button type ≡ false
      → Labelled env type raw "" s
  Labelled-plain EventType.raw_button_press raw s b = ground arith
  Labelled-plain EventType.raw_button_release raw s b = ground arith
  Labelled-plain _ raw s b = tt

  pub unknown_raw :
      (type : EventType) (label : String) (timestamp : T) (raw : RawEvent D) (s : S env)
      → s.event_switch.devices raw.sourceid ≡ none
      → refreshes type ≡ false
      → Labelled env type raw label s
      → transform_raw env type full timestamp (record raw { evtype = type }) s
        ≡ returns (Data.empty, s)
  unfolding transform_raw Motion.switch_on_event Touch.switch_on_event refreshes switch_all
  unknown_raw EventType.device_changed label timestamp raw s h plain l = ground arith
  unknown_raw EventType.hierarchy_changed label timestamp raw s h plain l = ground arith
  unknown_raw EventType.raw_button_press label timestamp raw s h plain l =
      let event = record raw { evtype = EventType.raw_button_press } in
      ignored pointer_key (touch ∷ []) timestamp event s _ refl
        (button_event-unknown press timestamp event "XI_RawButtonPress" label Data.empty s h l)
  unknown_raw EventType.raw_button_release label timestamp raw s h plain l =
      let event = record raw { evtype = EventType.raw_button_release } in
      ignored pointer_key (touch ∷ []) timestamp event s _ refl
        (button_event-unknown release timestamp event "XI_RawButtonRelease" label Data.empty s h l)
  unknown_raw EventType.raw_motion label timestamp raw s h plain l =
      let event = record raw { evtype = EventType.raw_motion } in
      let moved = motion_event env timestamp event "XI_RawMotion" Data.empty s in
      ignored pointer_key (touch ∷ []) timestamp event s
        (moved >>= λ m. scroll_event env timestamp m.1 "XI_RawMotion" m.0.0 m.0.1)
        (bind_assoc moved _ _)
        (after moved _ _ _ (motion_event-unknown timestamp event "XI_RawMotion" Data.empty s h)
          (scroll_event-unknown timestamp event "XI_RawMotion" Data.empty s h))
  unknown_raw EventType.raw_key_press label timestamp raw s h plain l =
      let event = record raw { evtype = EventType.raw_key_press } in
      ignored pointer_key (touch ∷ []) timestamp event s _ refl
        (key_event-unknown timestamp event "XI_RawKeyPress" Data.empty s h)
  unknown_raw EventType.raw_key_release label timestamp raw s h plain l =
      let event = record raw { evtype = EventType.raw_key_release } in
      ignored pointer_key (touch ∷ []) timestamp event s _ refl
        (key_event-unknown timestamp event "XI_RawKeyRelease" Data.empty s h)
  unknown_raw EventType.raw_touch_begin label timestamp raw s h plain l =
      let event = record raw { evtype = EventType.raw_touch_begin } in
      let moved = touch_motion env timestamp event "XI_RawTouchBegin" Data.empty s in
      ignored touch [] timestamp event s
        (moved >>= λ m. touch_button env press timestamp event "XI_RawTouchBegin" m.0 m.1)
        (bind_assoc moved _ _)
        (after moved _ _ _ (touch_motion-unknown timestamp event "XI_RawTouchBegin" Data.empty s h)
          (touch_button-unknown timestamp event "XI_RawTouchBegin" Data.empty s h press))
  unknown_raw EventType.raw_touch_end label timestamp raw s h plain l =
      let event = record raw { evtype = EventType.raw_touch_end } in
      let moved = touch_motion env timestamp event "XI_RawTouchEnd" Data.empty s in
      ignored touch [] timestamp event s
        (moved >>= λ m. touch_button env release timestamp event "XI_RawTouchEnd" m.0 m.1)
        (bind_assoc moved _ _)
        (after moved _ _ _ (touch_motion-unknown timestamp event "XI_RawTouchEnd" Data.empty s h)
          (touch_button-unknown timestamp event "XI_RawTouchEnd" Data.empty s h release))
  unknown_raw EventType.raw_touch_update label timestamp raw s h plain l =
      let event = record raw { evtype = EventType.raw_touch_update } in
      ignored touch [] timestamp event s _ refl
        (touch_motion-unknown timestamp event "XI_RawTouchUpdate" Data.empty s h)
  unknown_raw _ label timestamp raw s h plain l = refl

  -- For a transformer with both switches, an event of a device that the event switch does not know,
  -- of any type but the two that refresh the devices: a button event throws `out_of_range` if the
  -- device has no buttons in the button map, and any other event is ignored: it gives no entry and
  -- leaves the state as it is.
  pub transform_event-unknown :
      (event : InputEvent T D) (raw : RawEvent D) (s : S env)
      → event.cookie ≡ some raw
      → s.event_switch.devices raw.sourceid ≡ none
      → s.event_switch.button_map raw.sourceid ≡ none
      → refreshes raw.evtype ≡ false
      → transform_event env full event s
        ≡ (if is_button raw.evtype then throws out_of_range else returns (Data.empty, s))
  unfolding transform_event
  transform_event-unknown event raw s c h k plain =
      ap (λ o. transform_event env full (record event { cookie = o }) s) c
      ∙ elim (Bool-cases (is_button raw.evtype)) [
        | inl y ↦ rw y (
            button_raw raw.evtype event.timestamp raw s out_of_range y
              (get_button_name-unknown raw s k))
        | inr n ↦ rw n (
            unknown_raw raw.evtype "" event.timestamp raw s h plain
              (Labelled-plain raw.evtype raw s n))
      ]

  -- A builder of keys with an action.
  abbrev Acts : ButtonAction → Key D T → Type 0
  Acts action b = b.action ≡ some action

  -- The data has one entry, whose last value is the action.
  abbrev pub OneAction : ButtonAction → Data → Type 0
  OneAction action d =
      (e : Entry) × (d.entries ≡ e ∷ []) × (get_elem? e.values 18 ≡ some (to_underlying action))

  key-OneAction :
      (action : ButtonAction) (b : Key D T)
      → Acts action b
      → OneAction action (Key.build env.formats b Data.empty)
  unfolding Key.build add_entry to_underlying_optional
  key-OneAction action b h = (_, refl, ap (λ x. some (to_underlying_optional x)) h)

  set_fields-Acts :
      (action : ButtonAction) (t : DeviceType) (name : String) (raw : RawEvent D) (timestamp : T)
      (system_event : String) (q : QueryPointerResult D) (y : Key D T) (s : S env)
      → s.event_switch.devices raw.sourceid ≡ some t
      → s.event_switch.id_to_name raw.sourceid ≡ some name
      → Acts action y
      → Returning
          (λ r. Acts action r.0 × Kept env raw.sourceid s r.1)
          (set_fields env raw timestamp system_event q y s)
  unfolding key_appends Key.with_interval_optional Key.with_timestamp Key.with_device
      Key.with_device_name Key.with_device_id Key.with_system_event Key.with_event_source
      Key.with_screen Key.with_focus_window_name Key.with_focus_window_position_x
      Key.with_focus_window_position_y Key.with_focus_window_width Key.with_focus_window_height
  set_fields-Acts action t name raw timestamp system_event q y s known named h =
      set_fields-keeps env key_base_fields key_window_functions key_screen_function (Acts action)
        raw timestamp system_event q y s t name known named
        (record {
          name = λ x b k. k;
          position_x = λ x b k. k;
          position_y = λ x b k. k;
          width = λ x b k. k;
          height = λ x b k. k;
        })
        λ elapsed.
          subst (λ x. Acts action (Key.with_screen q.screen_number (Key.with_device_name name x)))
            (sym (set_modifier_value-append env key_base_fields key_appends q.effective _)) h

  -- `KeyEvent` for a known device.
  key_event-Acts :
      (t : DeviceType) (name : String) (timestamp : T) (raw : RawEvent D) (system_event : String)
      (s : S env)
      → s.event_switch.devices raw.sourceid ≡ some t
      → s.event_switch.id_to_name raw.sourceid ≡ some name
      → Returning
          (λ r. OneAction (key_action env raw.evtype raw.flags) r.0)
          (key_event env timestamp raw system_event Data.empty s)
  unfolding key_event Key.with_button_name Key.with_character Key.with_button Key.with_action
      Key.with_position_x Key.with_position_y has_device
  key_event-Acts t name timestamp raw system_event s known named =
      let ask = env.api.query_pointer s.pointer_key.pointer_id in
      let q = (ask s.server).0 in
      let s1 = (call ask s).1 in
      let s2 = (call (env.api.lookup_character raw q 0) s1).1 in
      let action = key_action env raw.evtype raw.flags in
      let Q : Data × S env → Type 0 = λ r. OneAction action r.0 in
      let P : Key D T × S env → Type 0 = λ r. Acts action r.0 × Kept env raw.sourceid s2 r.1 in
      guard-only env t name timestamp raw system_event Data.empty s known named Q _ _ (
        Returning-bind P Q _ (λ r. returns (Key.build env.formats r.0 Data.empty, r.1))
          (set_fields-Acts action t name raw timestamp system_event q _ s2 known named refl)
          λ r h. key-OneAction action r.0 h.0)

  key_raw :
      (type : EventType) (t : DeviceType) (name : String) (timestamp : T) (raw : RawEvent D)
      (s : S env)
      → s.event_switch.devices raw.sourceid ≡ some t
      → s.event_switch.id_to_name raw.sourceid ≡ some name
      → is_key type ≡ true
      → Returning
          (λ r. OneAction (if key_repeat raw.flags then repeat else press) r.0)
          (transform_raw env type full timestamp (record raw { evtype = type }) s)
  unfolding transform_raw Motion.switch_on_event key_action
  key_raw EventType.raw_key_press t name timestamp raw s known named k =
      let event = record raw { evtype = EventType.raw_key_press } in
      handled env (λ r. OneAction (if key_repeat raw.flags then repeat else press) r.0) pointer_key
        (touch ∷ []) timestamp event Data.empty s _ refl
        (key_event-Acts t name timestamp event "XI_RawKeyPress" s known named)
  key_raw EventType.raw_key_release t name timestamp raw s known named k =
      let event = record raw { evtype = EventType.raw_key_release } in
      handled env (λ r. OneAction (if key_repeat raw.flags then repeat else press) r.0) pointer_key
        (touch ∷ []) timestamp event Data.empty s _ refl
        (key_event-Acts t name timestamp event "XI_RawKeyRelease" s known named)
  key_raw _ t name timestamp raw s known named k = ground arith

  -- For a transformer with both switches, a key event of a known device, be it a press or a release,
  -- is recorded as one entry whose action is a repeat if the event has the flag of a repeat and a
  -- press otherwise: the action is never a release.
  pub transform_event-key_action :
      (t : DeviceType) (name : String) (event : InputEvent T D) (raw : RawEvent D) (s : S env)
      → event.cookie ≡ some raw
      → s.event_switch.devices raw.sourceid ≡ some t
      → s.event_switch.id_to_name raw.sourceid ≡ some name
      → is_key raw.evtype ≡ true
      → Returning
          (λ r. OneAction (if key_repeat raw.flags then repeat else press) r.0)
          (transform_event env full event s)
  unfolding transform_event
  transform_event-key_action t name event raw s c known named k =
      subst
        (λ o.
          Returning (λ r. OneAction (if key_repeat raw.flags then repeat else press) r.0)
            (transform_event env full (record event { cookie = o }) s))
        (sym c) (key_raw raw.evtype t name event.timestamp raw s known named k)
