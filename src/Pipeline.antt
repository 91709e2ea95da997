-- ===== src/Pipeline.antt =====
-- evgetlibinput/src/event_transformer.cpp in front of evget/src/storage/filter_store.cpp: the device
-- type that the transformer writes into entries is the one that the filter reads.
use mathlib.Core.Path.{subst}
use evget.Prelude.{
  ◌≡◌, refl, ap, ◌∙◌, Bool, true, false, inl, if◌then◌else◌, Option, none, some, List, [], ◌∷◌,
  select, returns,
}
use evget.Error.{ok}
use evget.Event.Enums.{DeviceType, unknown, touchpad, touchscreen, mouse, to_underlying_optional}
use evget.Event.Enumerators.{is_device}
use evget.Event.Entry.{Entry}
use evget.LibInput.Api.{LibInputApi, Environment, EventType, cap_touch, cap_pointer}
use evget.LibInput.State.{EventContext}
use evget.LibInput.Values.{get_device_type, get_capability_type, positive}
use evget.LibInput.Transformer.{transform_event}
use evget.Event.Origin.{CarriesOrigin, All}
use evget.LibInput.Provenance.{Provenance}
use evget.LibInput.Contexts.{ExplainedBy, Explained, context_of, transform_event-Explained}
use evget.LibInput.Runs.{S, Input}
use evget.LibInput.Devices.{StemsFrom}
use evget.Storage.Store.{Store}
use evget.Storage.Filter
use evget.Storage.Filter.{contains}
use evget.Storage.Filter.Selection.{AllRecorded, deliver, store_event-select}

select-const : (b : Bool) (es : List Entry) → select (λ e. b) es ≡ (if b then es else [])
select-const true [] = refl
select-const true (e ∷ es) = ap (λ r. e ∷ r) (select-const true es)
select-const false [] = refl
select-const false (e ∷ es) = select-const false es

module _ {D : Type 0} (api : LibInputApi D) where
  -- The type of a device is an enumerator.
  if-device :
      (b : Bool) (x y : DeviceType)
      → is_device x ≡ true
      → is_device y ≡ true
      → is_device (if b then x else y) ≡ true
  if-device true x y h k = h
  if-device false x y h k = k

  get_capability_type-device :
      (o : Option api.Device) → is_device (get_capability_type api o) ≡ true
  unfolding get_capability_type
  get_capability_type-device none = refl
  get_capability_type-device (some device) =
      if-device (positive (api.get_device_finger_count device)) touchpad by_touch refl (
        if-device (api.device_has_capability device cap_touch) touchscreen by_pointer refl
          (if-device (api.device_has_capability device cap_pointer) mouse unknown refl refl))
    where
      by_pointer : DeviceType
      by_pointer = if api.device_has_capability device cap_pointer then mouse else unknown

      by_touch : DeviceType
      by_touch = if api.device_has_capability device cap_touch then touchscreen else by_pointer

  get_device_type-device :
      (event : api.Event) (t : EventType) → is_device (get_device_type api (some event) t) ≡ true
  unfolding get_device_type
  get_device_type-device event EventType.keyboard_key = refl
  get_device_type-device event EventType.tablet_pad_key = refl
  get_device_type-device event EventType.tablet_tool_axis = refl
  get_device_type-device event EventType.tablet_tool_proximity = refl
  get_device_type-device event EventType.tablet_tool_tip = refl
  get_device_type-device event EventType.tablet_tool_button = refl
  get_device_type-device event EventType.tablet_pad_button = refl
  get_device_type-device event EventType.tablet_pad_ring = refl
  get_device_type-device event EventType.tablet_pad_strip = refl
  get_device_type-device event _ = get_capability_type-device (api.get_device event)

module _ {D T X R W : Type 0} (env : Environment D T X R) (inner : Store W) where
  open env use {api, xkb, formats}

  recorded :
      (ctx : EventContext T) (ms : _) (es : List Entry)
      → is_device ctx.device_type ≡ true
      → All (Provenance formats ctx ms) es
      → AllRecorded (λ e. some ctx.device_type) es
  unfolding CarriesOrigin to_underlying_optional
  recorded ctx ms [] named h = tt
  recorded ctx ms (e ∷ es) named h = (inl (named, h.0.5), recorded ctx ms es named h.1)

  -- An event that stems from a device, through a filter with a set of device types: if the set has
  -- the type that the transformer gives to the device for this event, the inner store has all
  -- entries of the event in one call (and no call if there are none); otherwise it is not called.
  pub transform_event-filtered :
      (allowed : List DeviceType) (event : Input env) (data_event : api.Event) (device : api.Device)
      (s : S env) (w : W)
      → StemsFrom env event data_event device
      → Filter.store_event inner (some allowed) (transform_event env event s).0 w ≡ (
          if contains allowed
            (get_device_type api (some data_event) (api.get_event_type data_event))
          then deliver inner (transform_event env event s).0.entries w
          else (returns (ok tt), w))
  transform_event-filtered allowed event data_event device s w (v, d) =
      let es = (transform_event env event s).0.entries in
      let t = get_device_type api (some data_event) (api.get_event_type data_event) in
      let explained = transform_event-Explained env event s in
      let by_device =
        subst (λ o. ExplainedBy env event.timestamp data_event o s es) d
          (subst (λ o. Explained env (record event { view_data = o }) s es) v explained) in
      store_event-select inner allowed (λ e. some t) (transform_event env event s).0 w
        (recorded (context_of env event.timestamp data_event device s) _ es
          (get_device_type-device api data_event _) by_device)
      ∙ ap (λ l. deliver inner l w) (select-const (contains allowed t) es)
      ∙ delivered (contains allowed t)
    where
      delivered :
          (b : Bool)
          → deliver inner (if b then (transform_event env event s).0.entries else []) w ≡ (
              if b
              then deliver inner (transform_event env event s).0.entries w
              else (returns (ok tt), w))
      delivered true = refl
      delivered false = refl
