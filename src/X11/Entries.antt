-- ===== src/X11/Entries.antt =====
-- What each method of evgetx11's switches records for an event of a device that is known.
use mathlib.Core.Path.{subst}
use evget.Prelude.{
  ◌≡◌, refl, sym, String, Bool, true, false, ◌||◌, not, some, List, [], ◌∷◌, is_some, if◌then◌else◌,
  Throws, returns,
}
use evget.Prelude.Int.{ℤ}
use evget.Event.Enums.{DeviceType, EntryType, ButtonAction}
use evget.Event.Data.{Data}
use evget.Event.Origin.{Origin}
use evget.Event.Key
use evget.Event.Key.{Key}
use evget.Event.MouseClick
use evget.Event.MouseClick.{MouseClick}
use evget.Event.MouseMove
use evget.Event.MouseMove.{MouseMove}
use evget.X11.Api.{Environment, RawEvent, pointer_emulated}
use evget.X11.State.{call}
use evget.X11.EventSwitch.{
  S, has_device, query_pointer_for_device, add_motion_event, add_button_event, mapped_name,
  get_button_name,
}
use evget.X11.PointerKey.{is_wheel, button_event, key_event}
use evget.X11.Touch.{touch_button, touch_motion}
use evget.X11.Outcomes.{Returning, Returning-step}
use evget.X11.Fields.{Kept, Kept-refl, Kept-trans, call-Kept, uuid_of}
use evget.X11.Origins.{origin_of, key-fields, mouse_click-fields, mouse_move-fields}
use evget.X11.Recorded.{Adds-none, Records, key-Records, mouse_click-Records, mouse_move-Records}

module _ {D T W R : Type 0} (env : Environment D T W R) where
  open env use {api}

  -- A click is recorded unless it is emulated or stands for scrolling.
  unfoldable pub button_types : RawEvent D → String → List EntryType
  unfolding is_wheel
  button_types event label =
      if pointer_emulated event.flags || is_wheel env label then [] else EntryType.mouse_click ∷ []

  module _ (t : DeviceType) (name : String) (timestamp : T) (event : RawEvent D)
      (system_event : String) (d : Data) (s : S env)
      (known : s.event_switch.devices event.sourceid ≡ some t)
      (named : s.event_switch.id_to_name event.sourceid ≡ some name) where
    abbrev id : ℤ
    id = event.sourceid

    abbrev o : Origin T
    o = origin_of env t name timestamp event system_event s

    abbrev Now : List EntryType → Data × S env → Type 0
    Now types = Records env o id types d s

    -- The guard of a method lets the event of a known device pass.
    pub guard-known :
        {A : Type 0} (Q : A → Type 0) (c : Bool) (x y : Throws A)
        → Returning Q (if c then x else y)
        → Returning Q (if not (has_device id s) || c then x else y)
    unfolding has_device
    guard-known Q c x y h =
        subst (λ p. Returning Q (if not (is_some p) || c then x else y)) (sym known) h

    pub guard-only :
        {A : Type 0} (Q : A → Type 0) (x y : Throws A)
        → Returning Q y
        → Returning Q (if not (has_device id s) then x else y)
    unfolding has_device
    guard-only Q x y h = subst (λ p. Returning Q (if not (is_some p) then x else y)) (sym known) h

    pub touch_motion-Records :
        Returning
          (Now (EntryType.mouse_move ∷ []))
          (touch_motion env timestamp event system_event d s)
    unfolding touch_motion query_pointer_for_device uuid_of MouseMove.with_touch_id
        MouseMove.with_position_x MouseMove.with_position_y
    touch_motion-Records =
        let ask = api.query_pointer s.event_switch.pointer_id in
        let q = (ask s.server).0 in
        guard-only (Now (EntryType.mouse_move ∷ [])) _ _ (
          mouse_move-Records env o id s.event_switch.pointer_id s.server d s _
            (call-Kept env id ask s) _
            (mouse_move-fields env t name timestamp event system_event q (call ask s).1 known named
              _ refl))

    pub touch_button-Records :
        (action : ButtonAction)
        → Returning
            (Now (EntryType.mouse_click ∷ []))
            (touch_button env action timestamp event system_event d s)
    unfolding touch_button query_pointer_for_device uuid_of MouseClick.with_touch_id
        MouseClick.with_action MouseClick.with_position_x MouseClick.with_position_y
    touch_button-Records action =
        let ask = api.query_pointer s.event_switch.pointer_id in
        let q = (ask s.server).0 in
        guard-only (Now (EntryType.mouse_click ∷ [])) _ _ (
          mouse_click-Records env o id s.event_switch.pointer_id s.server d s _
            (call-Kept env id ask s) _
            (mouse_click-fields env t name timestamp event system_event q (call ask s).1 known named
              _ refl))

    pub add_motion_event-Records :
        Returning
          (Now (EntryType.mouse_move ∷ []))
          (add_motion_event env event timestamp system_event d s)
    unfolding add_motion_event query_pointer_for_device uuid_of MouseMove.with_position_x
        MouseMove.with_position_y
    add_motion_event-Records =
        let ask = api.query_pointer s.event_switch.pointer_id in
        let q = (ask s.server).0 in
        mouse_move-Records env o id s.event_switch.pointer_id s.server d s _
          (call-Kept env id ask s) _
          (mouse_move-fields env t name timestamp event system_event q (call ask s).1 known named _
            refl)

    mapped_name-Kept :
        (button : ℤ) (u : S env) → Kept env id s u → Kept env id s (mapped_name env id button u).1
    unfolding uuid_of
    mapped_name-Kept button u h = record {
      devices = h.devices;
      names = h.names;
      pointer_key = h.pointer_key;
      same_uuid = h.same_uuid;
    }

    add_button_event-Records :
        (action : ButtonAction) (button : ℤ)
        → Returning
            (Now (EntryType.mouse_click ∷ []))
            (add_button_event env event timestamp action button system_event d s)
    unfolding add_button_event query_pointer_for_device uuid_of MouseClick.with_button_name
        MouseClick.with_button MouseClick.with_action MouseClick.with_position_x
        MouseClick.with_position_y
    add_button_event-Records action button =
        let ask = api.query_pointer s.event_switch.pointer_id in
        let q = (ask s.server).0 in
        let s1 = (call ask s).1 in
        mouse_click-Records env o id s.event_switch.pointer_id s.server d s _
          (mapped_name-Kept button s1 (call-Kept env id ask s)) _
          (mouse_click-fields env t name timestamp event system_event q
            (mapped_name env id button s1).1 known named _ refl)

    if-Records :
        (c : Bool) (types : List EntryType) (y : Throws (Data × S env))
        → Returning (Now types) y
        → Returning (Now (if c then [] else types)) (if c then returns (d, s) else y)
    if-Records true types y h = (Adds-none env o d, Kept-refl env id s)
    if-Records false types y h = h

    pub button_event-Records :
        (action : ButtonAction) (label : String)
        → get_button_name id event.detail s ≡ returns label
        → Returning
            (Now (button_types event label))
            (button_event env action timestamp event system_event d s)
    unfolding button_event button_types
    button_event-Records action label e =
        Returning-step (Now (button_types event label)) _ label _ e (
          guard-known (Now (button_types event label))
            (pointer_emulated event.flags || is_wheel env label) _ _
            (if-Records (pointer_emulated event.flags || is_wheel env label) _ _
              (add_button_event-Records action event.detail)))

    pub key_event-Records :
        Returning (Now (EntryType.key ∷ [])) (key_event env timestamp event system_event d s)
    unfolding key_event uuid_of Key.with_button_name Key.with_character Key.with_button
        Key.with_action Key.with_position_x Key.with_position_y
    key_event-Records =
        let ask = api.query_pointer s.pointer_key.pointer_id in
        let q = (ask s.server).0 in
        let s1 = (call ask s).1 in
        let look = api.lookup_character event q 0 in
        let s2 = (call look s1).1 in
        guard-only (Now (EntryType.key ∷ [])) _ _ (
          key-Records env o id s.pointer_key.pointer_id s.server d s _
            (Kept-trans env id s s1 s2 (call-Kept env id ask s) (call-Kept env id look s1)) _
            (key-fields env t name timestamp event system_event q s2 known named _ refl))
