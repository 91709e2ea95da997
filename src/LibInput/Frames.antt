-- ===== src/LibInput/Frames.antt =====
-- What `TransformEvent` of evgetlibinput/src/event_transformer.cpp changes of the transformer's members.
use evget.Prelude.{◌+◌, ◌%◌, ◌^◌, ◌≡◌, refl, String, Map, insert, erase, str_eq}
use evget.Event.Data.{Data}
use evget.Event.Key.{key_base_fields}
use evget.Event.MouseClick.{mouse_click_base_fields}
use evget.Event.MouseMove.{mouse_move_base_fields}
use evget.Event.MouseScroll.{mouse_scroll_base_fields}
use evget.LibInput.Api.{Environment, EventType, ProximityState, proximity_in, proximity_out}
use evget.LibInput.State.{
  State, EventContext, TouchKey, same_touch, set_base_fields, set_relative_position,
  set_touch_relative_position, clear_touch_position,
}
use evget.LibInput.Values.{get_xkb_direction}
use evget.LibInput.Handlers
use evget.LibInput.Handlers.{build_tablet_tool_move}
use evget.LibInput.Transformer
use evget.LibInput.Transformer.{
  switch_on_type, build_touch_release, build_scroll_event, key_code_offset,
}

module _ {D T X R : Type 0} (env : Environment D T X R) where
  open env use {api, xkb, width, height}

  -- The keyboard follows the key events.
  abbrev pub next_keyboard : EventType → api.Event → X → X
  next_keyboard EventType.keyboard_key event x =
      let key = api.get_keyboard_event event in
      xkb.update_key_state ((api.get_keyboard_key key + key_code_offset) % 2 ^ 32)
        (get_xkb_direction (api.get_keyboard_key_state key)) x
  next_keyboard _ event x = x

  -- The last absolute position of a device is that of its last absolute motion.
  abbrev pub next_absolute :
      EventType → api.Event → String → (api.Pointer → D) → Map String D → Map String D
  next_absolute EventType.pointer_motion_absolute event uuid coordinate m =
      insert str_eq uuid (coordinate (api.get_pointer_event event)) m
  next_absolute _ event uuid coordinate m = m

  abbrev pub touch_key : api.Event → String → TouchKey
  touch_key event uuid = (uuid, api.get_touch_seat_slot (api.get_touch_event event))

  -- The last position of a touch is written when it is down or moves, and is forgotten at its end.
  abbrev pub next_touch :
      EventType → api.Event → String → (api.Touch → D) → Map TouchKey D → Map TouchKey D
  next_touch EventType.touch_down event uuid coordinate m =
      insert same_touch (touch_key event uuid) (coordinate (api.get_touch_event event)) m
  next_touch EventType.touch_motion event uuid coordinate m =
      insert same_touch (touch_key event uuid) (coordinate (api.get_touch_event event)) m
  next_touch EventType.touch_up event uuid coordinate m = erase same_touch (touch_key event uuid) m
  next_touch EventType.touch_cancel event uuid coordinate m =
      erase same_touch (touch_key event uuid) m
  next_touch _ event uuid coordinate m = m

  -- The members after a case, but for the intervals.
  abbrev pub Follows :
      EventType → String → api.Event → State D api.Device X R → State D api.Device X R → Type 0
  Follows t uuid event s s' =
      (s'.keyboard ≡ next_keyboard t event s.keyboard)
      × (s'.device_ids ≡ s.device_ids)
      × (s'.random ≡ s.random)
      × (s'.previous_absolute_x
          ≡ next_absolute t event uuid (λ p. api.get_pointer_absolute_x p width)
              s.previous_absolute_x)
      × (s'.previous_absolute_y
          ≡ next_absolute t event uuid (λ p. api.get_pointer_absolute_y p height)
              s.previous_absolute_y)
      × (s'.previous_touch_x
          ≡ next_touch t event uuid (λ p. api.get_touch_x p width) s.previous_touch_x)
      × (s'.previous_touch_y
          ≡ next_touch t event uuid (λ p. api.get_touch_y p height) s.previous_touch_y)

  proximity-Follows :
      (ctx : EventContext T) (event : api.Event) (s : State D api.Device X R) (d : Data)
      → Follows EventType.tablet_tool_proximity ctx.device_uuid event s
          (Handlers.tablet_tool_proximity env ctx event s d).1
  unfolding Handlers.tablet_tool_proximity build_tablet_tool_move set_base_fields
  proximity-Follows ctx event s d =
      go (api.get_tablet_tool_proximity_state (api.get_tablet_tool_event event))
    where
      tool : api.Tool
      tool = api.get_tablet_tool_event event

      go :
          (p : ProximityState)
          → Follows EventType.tablet_tool_proximity ctx.device_uuid event s
              (elim p as (λ x. Data × State D api.Device X R) [
                | proximity_in ↦
                    build_tablet_tool_move env ctx (api.get_tablet_tool_time tool) tool s d
                | proximity_out ↦ (d, s)
              ]).1
      go proximity_in = (refl, refl, refl, refl, refl, refl, refl)
      go proximity_out = (refl, refl, refl, refl, refl, refl, refl)

  pub switch_on_type-Follows :
      (t : EventType) (ctx : EventContext T) (event : api.Event) (s : State D api.Device X R)
      (d : Data)
      → Follows t ctx.device_uuid event s (switch_on_type env t ctx event s d).1
  unfolding switch_on_type set_base_fields set_relative_position set_touch_relative_position
      clear_touch_position build_tablet_tool_move Handlers.pointer_motion
      Handlers.pointer_motion_absolute Handlers.pointer_button Handlers.tablet_tool_axis
      Handlers.tablet_tool_tip Handlers.tablet_tool_button Handlers.tablet_pad_button
      Handlers.tablet_pad_key Transformer.touch_down Transformer.touch_motion build_touch_release
      build_scroll_event Transformer.keyboard_key
  switch_on_type-Follows EventType.pointer_motion ctx e s d =
      (refl, refl, refl, refl, refl, refl, refl)
  switch_on_type-Follows EventType.pointer_motion_absolute ctx e s d =
      (refl, refl, refl, refl, refl, refl, refl)
  switch_on_type-Follows EventType.pointer_button ctx e s d =
      (refl, refl, refl, refl, refl, refl, refl)
  switch_on_type-Follows EventType.tablet_tool_proximity ctx e s d = proximity-Follows _ e s d
  switch_on_type-Follows EventType.tablet_tool_axis ctx e s d =
      (refl, refl, refl, refl, refl, refl, refl)
  switch_on_type-Follows EventType.tablet_tool_tip ctx e s d =
      (refl, refl, refl, refl, refl, refl, refl)
  switch_on_type-Follows EventType.tablet_tool_button ctx e s d =
      (refl, refl, refl, refl, refl, refl, refl)
  switch_on_type-Follows EventType.tablet_pad_button ctx e s d =
      (refl, refl, refl, refl, refl, refl, refl)
  switch_on_type-Follows EventType.tablet_pad_key ctx e s d =
      (refl, refl, refl, refl, refl, refl, refl)
  switch_on_type-Follows EventType.touch_down ctx e s d = (refl, refl, refl, refl, refl, refl, refl)
  switch_on_type-Follows EventType.touch_motion ctx e s d =
      (refl, refl, refl, refl, refl, refl, refl)
  switch_on_type-Follows EventType.touch_cancel ctx e s d =
      (refl, refl, refl, refl, refl, refl, refl)
  switch_on_type-Follows EventType.touch_up ctx e s d = (refl, refl, refl, refl, refl, refl, refl)
  switch_on_type-Follows EventType.pointer_scroll_wheel ctx e s d =
      (refl, refl, refl, refl, refl, refl, refl)
  switch_on_type-Follows EventType.pointer_scroll_finger ctx e s d =
      (refl, refl, refl, refl, refl, refl, refl)
  switch_on_type-Follows EventType.pointer_scroll_continuous ctx e s d =
      (refl, refl, refl, refl, refl, refl, refl)
  switch_on_type-Follows EventType.keyboard_key ctx e s d =
      (refl, refl, refl, refl, refl, refl, refl)
  switch_on_type-Follows EventType.tablet_pad_ring ctx e s d =
      (refl, refl, refl, refl, refl, refl, refl)
  switch_on_type-Follows EventType.tablet_pad_strip ctx e s d =
      (refl, refl, refl, refl, refl, refl, refl)
  switch_on_type-Follows (EventType.other n) ctx e s d = (refl, refl, refl, refl, refl, refl, refl)
