-- ===== src/LibInput/Contexts.antt =====
-- `TransformEvent` of evgetlibinput/src/event_transformer.cpp as a whole: what entries an event has,
-- and what they say of the event.
use evget.Prelude.{◌≡◌, refl, String, List, [], Option, none, some}
use evget.Event.Entry.{Entry}
use evget.Event.Data.{Data, add_entry}
use evget.Event.Data
use evget.DeviceId
use evget.LibInput.Api.{Environment, EventType}
use evget.LibInput.State.{State, EventContext}
use evget.LibInput.Values.{InputEvent, get_device_type}
use evget.LibInput.Transformer.{transform_event, transform_from, switch_on_type}
use evget.LibInput.BaseFields.{active}
use evget.Event.Origin.{All}
use evget.LibInput.Provenance.{Provenance}
use evget.LibInput.Origins.{
  pointer_motion-Traced, pointer_motion_absolute-Traced, pointer_button-Traced,
  tablet_tool_proximity-Traced, tablet_tool_axis-Traced, tablet_tool_tip-Traced,
  tablet_tool_button-Traced, tablet_pad_button-Traced, tablet_pad_key-Traced, touch_down-Traced,
  touch_motion-Traced, build_touch_release-Traced, build_scroll_event-Traced, keyboard_key-Traced,
}

-- The name that the entries of an event carry as their system event.
abbrev pub system_event_of : EventType → String
system_event_of EventType.pointer_motion = "LIBINPUT_EVENT_POINTER_MOTION"
system_event_of EventType.pointer_motion_absolute = "LIBINPUT_EVENT_POINTER_MOTION_ABSOLUTE"
system_event_of EventType.pointer_button = "LIBINPUT_EVENT_POINTER_BUTTON"
system_event_of EventType.tablet_tool_proximity = "LIBINPUT_EVENT_TABLET_TOOL_PROXIMITY"
system_event_of EventType.tablet_tool_axis = "LIBINPUT_EVENT_TABLET_TOOL_AXIS"
system_event_of EventType.tablet_tool_tip = "LIBINPUT_EVENT_TABLET_TOOL_TIP"
system_event_of EventType.tablet_tool_button = "LIBINPUT_EVENT_TABLET_TOOL_BUTTON"
system_event_of EventType.tablet_pad_button = "LIBINPUT_EVENT_TABLET_PAD_BUTTON"
system_event_of EventType.tablet_pad_key = "LIBINPUT_EVENT_TABLET_PAD_KEY"
system_event_of EventType.touch_down = "LIBINPUT_EVENT_TOUCH_DOWN"
system_event_of EventType.touch_motion = "LIBINPUT_EVENT_TOUCH_MOTION"
system_event_of EventType.touch_cancel = "LIBINPUT_EVENT_TOUCH_CANCEL"
system_event_of EventType.touch_up = "LIBINPUT_EVENT_TOUCH_UP"
system_event_of EventType.pointer_scroll_wheel = "LIBINPUT_EVENT_POINTER_SCROLL_WHEEL"
system_event_of EventType.pointer_scroll_finger = "LIBINPUT_EVENT_POINTER_SCROLL_FINGER"
system_event_of EventType.pointer_scroll_continuous = "LIBINPUT_EVENT_POINTER_SCROLL_CONTINUOUS"
system_event_of EventType.keyboard_key = "LIBINPUT_EVENT_KEYBOARD_KEY"
system_event_of _ = ""

module _ {D T X R : Type 0} (env : Environment D T X R) where
  open env use {api, xkb, formats, generate}

  -- What the entries of an event say: its time, its device with the identifier that the transformer
  -- knows it by, and the name of its case.
  abbrev pub context_of : T → api.Event → api.Device → State D api.Device X R → EventContext T
  context_of timestamp event device s = record {
    timestamp = timestamp;
    device_type = get_device_type api (some event) (api.get_event_type event);
    device_name = api.get_device_name device;
    device_uuid = (DeviceId.uuid api.same_device generate device s.device_ids s.random).0;
    system_event = system_event_of (api.get_event_type event);
  }

  -- An event without a device has no entries.
  abbrev pub ExplainedBy :
      T → api.Event → Option api.Device → State D api.Device X R → List Entry → Type 0
  ExplainedBy timestamp event none s entries = entries ≡ []
  ExplainedBy timestamp event (some device) s entries =
      All (Provenance formats (context_of timestamp event device s) (active xkb s.keyboard)) entries

  -- An event without data has no entries.
  abbrev pub Explained : InputEvent T api.Event → State D api.Device X R → List Entry → Type 0
  Explained event s entries = elim event.view_data [
    | none ↦ entries ≡ []
    | some inner ↦ ExplainedBy event.timestamp inner (api.get_device inner) s entries
  ]

  switch_on_type-Traced :
      (t : EventType) (ctx : EventContext T) (event : api.Event) (s : State D api.Device X R)
      → All
          (Provenance formats
            (record ctx { system_event = system_event_of t })
            (active xkb s.keyboard))
          (switch_on_type env t ctx event s Data.empty).0.entries
  unfolding switch_on_type
  switch_on_type-Traced EventType.pointer_motion ctx e s =
      pointer_motion-Traced env _ e s Data.empty tt
  switch_on_type-Traced EventType.pointer_motion_absolute ctx e s =
      pointer_motion_absolute-Traced env _ e s Data.empty tt
  switch_on_type-Traced EventType.pointer_button ctx e s =
      pointer_button-Traced env _ e s Data.empty tt
  switch_on_type-Traced EventType.tablet_tool_proximity ctx e s =
      tablet_tool_proximity-Traced env _ e s Data.empty tt
  switch_on_type-Traced EventType.tablet_tool_axis ctx e s =
      tablet_tool_axis-Traced env _ e s Data.empty tt
  switch_on_type-Traced EventType.tablet_tool_tip ctx e s =
      tablet_tool_tip-Traced env _ e s Data.empty tt
  switch_on_type-Traced EventType.tablet_tool_button ctx e s =
      tablet_tool_button-Traced env _ e s Data.empty tt
  switch_on_type-Traced EventType.tablet_pad_button ctx e s =
      tablet_pad_button-Traced env _ e s Data.empty tt
  switch_on_type-Traced EventType.tablet_pad_key ctx e s =
      tablet_pad_key-Traced env _ e s Data.empty tt
  switch_on_type-Traced EventType.touch_down ctx e s = touch_down-Traced env _ e s Data.empty tt
  switch_on_type-Traced EventType.touch_motion ctx e s = touch_motion-Traced env _ e s Data.empty tt
  switch_on_type-Traced EventType.touch_cancel ctx e s =
      build_touch_release-Traced env _ e s Data.empty tt
  switch_on_type-Traced EventType.touch_up ctx e s =
      build_touch_release-Traced env _ e s Data.empty tt
  switch_on_type-Traced EventType.pointer_scroll_wheel ctx e s =
      build_scroll_event-Traced env _ e s Data.empty tt
  switch_on_type-Traced EventType.pointer_scroll_finger ctx e s =
      build_scroll_event-Traced env _ e s Data.empty tt
  switch_on_type-Traced EventType.pointer_scroll_continuous ctx e s =
      build_scroll_event-Traced env _ e s Data.empty tt
  switch_on_type-Traced EventType.keyboard_key ctx e s = keyboard_key-Traced env _ e s Data.empty tt
  switch_on_type-Traced EventType.tablet_pad_ring ctx e s = tt
  switch_on_type-Traced EventType.tablet_pad_strip ctx e s = tt
  switch_on_type-Traced (EventType.other n) ctx e s = tt

  -- Every entry of an event carries the time of the event, the name and the type of its device, the
  -- identifier by which the transformer knows the device, the name of the event's case, the source
  -- "libinput", and exactly the modifiers that are active before the event, in the order of the
  -- table. An event without data or without a device has no entries.
  pub transform_event-Explained :
      (event : InputEvent T api.Event) (s : State D api.Device X R)
      → Explained event s (transform_event env event s).0.entries
  unfolding transform_event transform_from
  transform_event-Explained event s = go event.view_data
    where
      with_device :
          (inner : api.Event) (o : Option api.Device)
          → ExplainedBy event.timestamp inner o s
              (elim o as (λ x. Data × State D api.Device X R) [
                | none ↦ (Data.empty, s)
                | some device ↦ transform_from env event.timestamp inner device s
              ]).0.entries
      with_device inner none = refl
      with_device inner (some device) =
          switch_on_type-Traced (api.get_event_type inner) _ inner (record s {
            device_ids = (DeviceId.uuid api.same_device generate device s.device_ids s.random).1;
            random = (DeviceId.uuid api.same_device generate device s.device_ids s.random).2;
          })

      go :
          (v : Option api.Event)
          → Explained
              (record event { view_data = v })
              s
              (transform_event env (record event { view_data = v }) s).0.entries
      go none = refl
      go (some inner) = with_device inner (api.get_device inner)
