-- ===== src/LibInput/Transformer.antt =====
-- evgetlibinput/src/event_transformer.cpp: touch, scroll and key events, and `TransformEvent` itself.
use evget.Prelude.{ℕ, ◌+◌, ◌%◌, ◌^◌, String, Option, none, some, if◌then◌else◌}
use evget.Event.Enums.{press, release}
use evget.Event.Data.{Data}
use evget.Event.Data
use evget.Event.Key
use evget.Event.Key.{Key, key_base_fields, key_button_name}
use evget.Event.MouseClick
use evget.Event.MouseClick.{MouseClick, mouse_click_base_fields, mouse_click_button_name}
use evget.Event.MouseMove
use evget.Event.MouseMove.{MouseMove, mouse_move_base_fields}
use evget.Event.MouseScroll
use evget.Event.MouseScroll.{MouseScroll, mouse_scroll_base_fields}
use evget.DeviceId
use evget.LibInput.Api.{Environment, EventType, scroll_vertical, scroll_horizontal}
use evget.LibInput.State.{
  State, EventContext, set_base_fields, set_touch_relative_position, clear_touch_position,
}
use evget.LibInput.Values.{InputEvent, get_key_action, get_xkb_direction, get_device_type, to_int}
use evget.LibInput.Handlers
use evget.LibInput.Handlers.{Handler}

-- The keycodes of xkbcommon are those of evdev plus 8, in 32 bits.
abbrev pub key_code_offset : ℕ
key_code_offset = 8

module _ {D T X R : Type 0} (env : Environment D T X R) where
  open env use {api, xkb, formats, generate}

  abbrev S : Type 0
  S = State D api.Device X R

  -- LIBINPUT_EVENT_TOUCH_DOWN
  unfoldable pub touch_down : Handler env
  touch_down ctx event s d =
      let touch = api.get_touch_event event in
      let time = api.get_touch_time touch in
      let slot = api.get_touch_seat_slot touch in
      let (b, s1) = set_base_fields env ctx time s MouseMove.empty in
      let (b', s2) =
        set_touch_relative_position env ctx.device_uuid slot touch s1
          (MouseMove.with_touch_id slot b) in
      let d1 = MouseMove.build formats b' d in
      let (c, s3) = set_base_fields env ctx time s2 MouseClick.empty in
      (
        MouseClick.build formats (MouseClick.with_touch_id slot (MouseClick.with_action press c))
            d1,
        s3,
      )

  -- LIBINPUT_EVENT_TOUCH_MOTION
  unfoldable pub touch_motion : Handler env
  touch_motion ctx event s d =
      let touch = api.get_touch_event event in
      let slot = api.get_touch_seat_slot touch in
      let (b, s1) = set_base_fields env ctx (api.get_touch_time touch) s MouseMove.empty in
      let (b', s2) =
        set_touch_relative_position env ctx.device_uuid slot touch s1
          (MouseMove.with_touch_id slot b) in
      (MouseMove.build formats b' d, s2)

  -- BuildTouchRelease
  unfoldable pub build_touch_release : Handler env
  build_touch_release ctx event s d =
      let touch = api.get_touch_event event in
      let time = api.get_touch_time touch in
      let slot = api.get_touch_seat_slot touch in
      let (b, s1) = set_base_fields env ctx time s MouseMove.empty in
      let d1 = MouseMove.build formats (MouseMove.with_touch_id slot b) d in
      let (c, s2) = set_base_fields env ctx time s1 MouseClick.empty in
      (
        MouseClick.build formats (MouseClick.with_touch_id slot (MouseClick.with_action release c))
            d1,
        clear_touch_position env ctx.device_uuid slot s2,
      )

  -- BuildScrollEvent
  unfoldable pub build_scroll_event : Handler env
  build_scroll_event ctx event s d =
      let pointer = api.get_pointer_event event in
      let (b, s1) = set_base_fields env ctx (api.get_pointer_time pointer) s MouseScroll.empty in
      let b1 =
        if api.get_pointer_has_axis pointer scroll_vertical
        then MouseScroll.with_vertical (api.get_pointer_scroll_value pointer scroll_vertical) b
        else b in
      let b2 =
        if api.get_pointer_has_axis pointer scroll_horizontal
        then MouseScroll.with_horizontal (api.get_pointer_scroll_value pointer scroll_horizontal) b1
        else b1 in
      (MouseScroll.build formats b2 d, s1)

  abbrev pub name_key : Option String → Key D T → Key D T
  name_key none b = b
  name_key (some name) b = Key.with_button_name name b

  abbrev pub set_character : Option String → Key D T → Key D T
  set_character none b = b
  set_character (some character) b = Key.with_character character b

  -- LIBINPUT_EVENT_KEYBOARD_KEY
  unfoldable pub keyboard_key : Handler env
  keyboard_key ctx event s d =
      let keyboard_event = api.get_keyboard_event event in
      let code = api.get_keyboard_key keyboard_event in
      let key_state = api.get_keyboard_key_state keyboard_event in
      let xkb_key = (code + key_code_offset) % 2 ^ 32 in
      let key_name = xkb.get_key_name xkb_key s.keyboard in
      let character = xkb.get_key_character xkb_key s.keyboard in
      let (b, s1) = set_base_fields env ctx (api.get_keyboard_time keyboard_event) s Key.empty in
      (
        Key.build formats
            (set_character character (
              name_key key_name
                (Key.with_action (get_key_action key_state) (Key.with_button (to_int code) b))))
            d,
        record s1 {
          keyboard = xkb.update_key_state xkb_key (get_xkb_direction key_state) s1.keyboard;
        },
      )

  -- A context with the name of the case that is taken.
  abbrev pub named : EventContext T → String → EventContext T
  named ctx name = record ctx { system_event = name }

  abbrev nothing : api.Event → S → Data → Data × S
  nothing event s d = (d, s)

  -- The switch of TransformEvent; tablet rings and strips take its default.
  unfoldable pub switch_on_type : EventType → Handler env
  unfolding touch_down touch_motion build_touch_release build_scroll_event keyboard_key
  switch_on_type EventType.pointer_motion ctx =
      Handlers.pointer_motion env (named ctx "LIBINPUT_EVENT_POINTER_MOTION")
  switch_on_type EventType.pointer_motion_absolute ctx =
      Handlers.pointer_motion_absolute env (named ctx "LIBINPUT_EVENT_POINTER_MOTION_ABSOLUTE")
  switch_on_type EventType.pointer_button ctx =
      Handlers.pointer_button env (named ctx "LIBINPUT_EVENT_POINTER_BUTTON")
  switch_on_type EventType.tablet_tool_proximity ctx =
      Handlers.tablet_tool_proximity env (named ctx "LIBINPUT_EVENT_TABLET_TOOL_PROXIMITY")
  switch_on_type EventType.tablet_tool_axis ctx =
      Handlers.tablet_tool_axis env (named ctx "LIBINPUT_EVENT_TABLET_TOOL_AXIS")
  switch_on_type EventType.tablet_tool_tip ctx =
      Handlers.tablet_tool_tip env (named ctx "LIBINPUT_EVENT_TABLET_TOOL_TIP")
  switch_on_type EventType.tablet_tool_button ctx =
      Handlers.tablet_tool_button env (named ctx "LIBINPUT_EVENT_TABLET_TOOL_BUTTON")
  switch_on_type EventType.tablet_pad_button ctx =
      Handlers.tablet_pad_button env (named ctx "LIBINPUT_EVENT_TABLET_PAD_BUTTON")
  switch_on_type EventType.touch_down ctx = touch_down (named ctx "LIBINPUT_EVENT_TOUCH_DOWN")
  switch_on_type EventType.touch_motion ctx = touch_motion (named ctx "LIBINPUT_EVENT_TOUCH_MOTION")
  switch_on_type EventType.touch_cancel ctx =
      build_touch_release (named ctx "LIBINPUT_EVENT_TOUCH_CANCEL")
  switch_on_type EventType.touch_up ctx = build_touch_release (named ctx "LIBINPUT_EVENT_TOUCH_UP")
  switch_on_type EventType.pointer_scroll_wheel ctx =
      build_scroll_event (named ctx "LIBINPUT_EVENT_POINTER_SCROLL_WHEEL")
  switch_on_type EventType.pointer_scroll_finger ctx =
      build_scroll_event (named ctx "LIBINPUT_EVENT_POINTER_SCROLL_FINGER")
  switch_on_type EventType.pointer_scroll_continuous ctx =
      build_scroll_event (named ctx "LIBINPUT_EVENT_POINTER_SCROLL_CONTINUOUS")
  switch_on_type EventType.keyboard_key ctx = keyboard_key (named ctx "LIBINPUT_EVENT_KEYBOARD_KEY")
  switch_on_type EventType.tablet_pad_key ctx =
      Handlers.tablet_pad_key env (named ctx "LIBINPUT_EVENT_TABLET_PAD_KEY")
  switch_on_type EventType.tablet_pad_ring ctx = nothing
  switch_on_type EventType.tablet_pad_strip ctx = nothing
  switch_on_type (EventType.other n) ctx = nothing

  -- TransformEvent for an event with a device: the context, then the switch.
  unfoldable pub transform_from : T → api.Event → api.Device → S → Data × S
  unfolding switch_on_type
  transform_from timestamp event device s =
      let (device_uuid, ids, random) =
        DeviceId.uuid api.same_device generate device s.device_ids s.random in
      let event_type = api.get_event_type event in
      let ctx : EventContext T = record {
        timestamp = timestamp;
        device_type = get_device_type api (some event) event_type;
        device_name = api.get_device_name device;
        device_uuid = device_uuid;
        system_event = "";
      } in
      switch_on_type event_type ctx event (record s { device_ids = ids; random = random })
        Data.empty

  -- EventTransformer::TransformEvent
  unfoldable pub transform_event : InputEvent T api.Event → S → Data × S
  unfolding transform_from
  transform_event event s = elim event.view_data [
    | none ↦ (Data.empty, s)
    | some inner ↦ elim (api.get_device inner) [
      | none ↦ (Data.empty, s)
      | some device ↦ transform_from event.timestamp inner device s
    ]
  ]
