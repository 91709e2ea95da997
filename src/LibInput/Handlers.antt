-- ===== src/LibInput/Handlers.antt =====
-- evgetlibinput/src/event_transformer.cpp: the methods and the cases of `TransformEvent` that build
-- entries. Each adds its entries to `d` and returns the new state.
use evget.Prelude.{ℕ}
use evget.Event.Data.{Data}
use evget.Event.Key
use evget.Event.Key.{Key, key_base_fields, key_button_name}
use evget.Event.MouseClick
use evget.Event.MouseClick.{MouseClick, mouse_click_base_fields, mouse_click_button_name}
use evget.Event.MouseMove
use evget.Event.MouseMove.{MouseMove, mouse_move_base_fields}
use evget.LibInput.Api.{Environment, proximity_in, proximity_out}
use evget.LibInput.State.{
  State, EventContext, set_base_fields, set_button_name, set_relative_position,
}
use evget.LibInput.Values.{get_button_action, get_key_action, get_tip_action, to_int}

module _ {D T X R : Type 0} (env : Environment D T X R) where
  open env use {api, xkb, formats}

  abbrev S : Type 0
  S = State D api.Device X R

  -- What a case of the switch is: it adds entries for an event in a context.
  abbrev pub Handler : Type 0
  Handler = EventContext T → api.Event → S → Data → Data × S

  -- LIBINPUT_EVENT_POINTER_MOTION
  unfoldable pub pointer_motion : Handler
  pointer_motion ctx event s d =
      let pointer = api.get_pointer_event event in
      let (b, s1) = set_base_fields env ctx (api.get_pointer_time pointer) s MouseMove.empty in
      (
        MouseMove.build formats
            (MouseMove.with_position_y (api.get_pointer_dy pointer)
              (MouseMove.with_position_x (api.get_pointer_dx pointer) b))
            d,
        s1,
      )

  -- LIBINPUT_EVENT_POINTER_MOTION_ABSOLUTE
  unfoldable pub pointer_motion_absolute : Handler
  pointer_motion_absolute ctx event s d =
      let pointer = api.get_pointer_event event in
      let (b, s1) = set_base_fields env ctx (api.get_pointer_time pointer) s MouseMove.empty in
      let (b', s2) = set_relative_position env ctx.device_uuid pointer s1 b in
      (MouseMove.build formats b' d, s2)

  -- LIBINPUT_EVENT_POINTER_BUTTON
  unfoldable pub pointer_button : Handler
  pointer_button ctx event s d =
      let pointer = api.get_pointer_event event in
      let code = api.get_pointer_button pointer in
      let action = get_button_action (api.get_pointer_button_state pointer) in
      let (b, s1) = set_base_fields env ctx (api.get_pointer_time pointer) s MouseClick.empty in
      (
        MouseClick.build formats
            (set_button_name env code
              (MouseClick.with_action action (MouseClick.with_button (to_int code) b)))
            d,
        s1,
      )

  -- BuildTabletToolMove
  unfoldable pub build_tablet_tool_move : EventContext T → ℕ → api.Tool → S → Data → Data × S
  build_tablet_tool_move ctx time tool s d =
      let (b, s1) = set_base_fields env ctx time s MouseMove.empty in
      (
        MouseMove.build formats
            (MouseMove.with_position_y (api.get_tablet_tool_dy tool)
              (MouseMove.with_position_x (api.get_tablet_tool_dx tool) b))
            d,
        s1,
      )

  -- LIBINPUT_EVENT_TABLET_TOOL_PROXIMITY
  unfoldable pub tablet_tool_proximity : Handler
  unfolding build_tablet_tool_move
  tablet_tool_proximity ctx event s d =
      let tool = api.get_tablet_tool_event event in
      elim (api.get_tablet_tool_proximity_state tool) [
        | proximity_in ↦ build_tablet_tool_move ctx (api.get_tablet_tool_time tool) tool s d
        | proximity_out ↦ (d, s)
      ]

  -- LIBINPUT_EVENT_TABLET_TOOL_AXIS
  unfoldable pub tablet_tool_axis : Handler
  unfolding build_tablet_tool_move
  tablet_tool_axis ctx event s d =
      let tool = api.get_tablet_tool_event event in
      build_tablet_tool_move ctx (api.get_tablet_tool_time tool) tool s d

  -- LIBINPUT_EVENT_TABLET_TOOL_TIP
  unfoldable pub tablet_tool_tip : Handler
  unfolding build_tablet_tool_move
  tablet_tool_tip ctx event s d =
      let tool = api.get_tablet_tool_event event in
      let time = api.get_tablet_tool_time tool in
      let (d1, s1) = build_tablet_tool_move ctx time tool s d in
      let action = get_tip_action (api.get_tablet_tool_tip_state tool) in
      let (b, s2) = set_base_fields env ctx time s1 MouseClick.empty in
      (MouseClick.build formats (MouseClick.with_action action b) d1, s2)

  -- LIBINPUT_EVENT_TABLET_TOOL_BUTTON
  unfoldable pub tablet_tool_button : Handler
  tablet_tool_button ctx event s d =
      let tool = api.get_tablet_tool_event event in
      let action = get_button_action (api.get_tablet_tool_button_state tool) in
      let code = api.get_tablet_tool_button tool in
      let (b, s1) = set_base_fields env ctx (api.get_tablet_tool_time tool) s MouseClick.empty in
      (
        MouseClick.build formats
            (MouseClick.with_action action
              (MouseClick.with_button (to_int code) (set_button_name env code b)))
            d,
        s1,
      )

  -- LIBINPUT_EVENT_TABLET_PAD_BUTTON
  unfoldable pub tablet_pad_button : Handler
  tablet_pad_button ctx event s d =
      let pad = api.get_tablet_pad_event event in
      let (b, s1) = set_base_fields env ctx (api.get_tablet_pad_time pad) s MouseClick.empty in
      let number = api.get_tablet_pad_button_number pad in
      let action = get_button_action (api.get_tablet_pad_button_state pad) in
      (
        MouseClick.build formats
            (MouseClick.with_action action (MouseClick.with_button (to_int number) b)) d,
        s1,
      )

  -- LIBINPUT_EVENT_TABLET_PAD_KEY
  unfoldable pub tablet_pad_key : Handler
  tablet_pad_key ctx event s d =
      let pad = api.get_tablet_pad_event event in
      let code = api.get_tablet_pad_key pad in
      let action = get_key_action (api.get_tablet_pad_key_state pad) in
      let (b, s1) = set_base_fields env ctx (api.get_tablet_pad_time pad) s Key.empty in
      (
        Key.build formats
            (set_button_name env code (Key.with_action action (Key.with_button (to_int code) b))) d,
        s1,
      )
