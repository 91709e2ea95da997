-- ===== src/LibInput/Origins.antt =====
-- The entries of every case of `TransformEvent` in evgetlibinput/src/event_transformer.cpp carry the
-- time, the device and the modifiers of the event.
use evget.Prelude.{ℕ, String, List, if◌then◌else◌}
use evget.Prelude.Int.{ℤ}
use evget.Event.Data.{Data}
use evget.Event.Key
use evget.Event.Key.{Key, key_base_fields, key_button_name}
use evget.Event.MouseClick
use evget.Event.MouseClick.{MouseClick, mouse_click_base_fields, mouse_click_button_name}
use evget.Event.MouseMove
use evget.Event.MouseMove.{MouseMove, mouse_move_base_fields}
use evget.Event.MouseScroll
use evget.Event.MouseScroll.{MouseScroll, mouse_scroll_base_fields}
use evget.LibInput.Api.{
  Environment, Axis, scroll_vertical, scroll_horizontal, ProximityState, proximity_in,
  proximity_out,
}
use evget.LibInput.State.{
  State, EventContext, set_base_fields, set_relative_position, set_touch_relative_position,
}
use evget.LibInput.Handlers
use evget.LibInput.Handlers.{Handler, build_tablet_tool_move}
use evget.LibInput.Transformer
use evget.LibInput.Transformer.{
  name_key, set_character, named, transform_event, transform_from, switch_on_type,
  build_touch_release,
}
use evget.LibInput.BaseFields.{active}
use evget.LibInput.Provenance.{
  Provenance, origin_of, MouseClickBased, MouseScrollBased, key-Based, mouse_click-Based,
  mouse_move-Based, mouse_scroll-Based,
}
use evget.Event.Origin.{All, key-build, mouse_click-build, mouse_move-build, mouse_scroll-build}
use evget.LibInput.Setters.{
  key-named, mouse_click-named, difference-Based, name_key-Based, set_character-Based, if-Based,
}

module _ {D T X R : Type 0} (env : Environment D T X R) where
  open env use {api, xkb, formats, generate}

  -- A case whose entries carry the fields of its context, if those before do.
  abbrev pub Traced : Handler env → Type 0
  Traced handler =
      (ctx : EventContext T) (event : api.Event) (s : State D api.Device X R) (d : Data)
      → All (Provenance formats ctx (active xkb s.keyboard)) d.entries
      → All (Provenance formats ctx (active xkb s.keyboard)) (handler ctx event s d).0.entries

  pub pointer_motion-Traced : Traced (Handlers.pointer_motion env)
  unfolding Handlers.pointer_motion MouseMove.with_position_x MouseMove.with_position_y
  pointer_motion-Traced ctx event s d h =
      mouse_move-build formats (origin_of ctx) _ _ d (mouse_move-Based env ctx _ s) h

  pub pointer_motion_absolute-Traced : Traced (Handlers.pointer_motion_absolute env)
  unfolding Handlers.pointer_motion_absolute set_relative_position
  pointer_motion_absolute-Traced ctx event s d h =
      mouse_move-build formats (origin_of ctx) _ _ d
        (difference-Based env ctx _ _ _ _ _ _ (mouse_move-Based env ctx _ s)) h

  pub pointer_button-Traced : Traced (Handlers.pointer_button env)
  unfolding Handlers.pointer_button MouseClick.with_action MouseClick.with_button
  pointer_button-Traced ctx event s d h =
      mouse_click-build formats (origin_of ctx) _ _ d
        (mouse_click-named env ctx _ _ _ (mouse_click-Based env ctx _ s)) h

  -- The click that follows a move of the same event.
  later_click :
      (ctx : EventContext T) (time time' : ℕ) (s : State D api.Device X R)
      → MouseClickBased {D = D} ctx
          (active xkb s.keyboard)
          (set_base_fields env ctx time'
            (set_base_fields env ctx time s (MouseMove.empty {D = D} {T = T})).1
            MouseClick.empty).0
  unfolding set_base_fields
  later_click ctx time time' s =
      mouse_click-Based env ctx time'
        (set_base_fields env ctx time s (MouseMove.empty {D = D} {T = T})).1

  pub build_tablet_tool_move-Traced :
      (ctx : EventContext T) (time : ℕ) (tool : api.Tool) (s : State D api.Device X R) (d : Data)
      → All (Provenance formats ctx (active xkb s.keyboard)) d.entries
      → All
          (Provenance formats ctx (active xkb s.keyboard))
          (build_tablet_tool_move env ctx time tool s d).0.entries
  unfolding build_tablet_tool_move MouseMove.with_position_x MouseMove.with_position_y
  build_tablet_tool_move-Traced ctx time tool s d h =
      mouse_move-build formats (origin_of ctx) _ _ d (mouse_move-Based env ctx time s) h

  pub tablet_tool_proximity-Traced : Traced (Handlers.tablet_tool_proximity env)
  unfolding Handlers.tablet_tool_proximity
  tablet_tool_proximity-Traced ctx event s d h =
      go (api.get_tablet_tool_proximity_state (api.get_tablet_tool_event event))
    where
      tool : api.Tool
      tool = api.get_tablet_tool_event event

      go :
          (p : ProximityState)
          → All
              (Provenance formats ctx (active xkb s.keyboard))
              (elim p as (λ x. Data × State D api.Device X R) [
                | proximity_in ↦
                    build_tablet_tool_move env ctx (api.get_tablet_tool_time tool) tool s d
                | proximity_out ↦ (d, s)
              ]).0.entries
      go proximity_in = build_tablet_tool_move-Traced ctx (api.get_tablet_tool_time tool) tool s d h
      go proximity_out = h

  pub tablet_tool_axis-Traced : Traced (Handlers.tablet_tool_axis env)
  unfolding Handlers.tablet_tool_axis
  tablet_tool_axis-Traced ctx event s d h = build_tablet_tool_move-Traced ctx _ _ s d h

  pub tablet_tool_tip-Traced : Traced (Handlers.tablet_tool_tip env)
  unfolding Handlers.tablet_tool_tip MouseClick.with_action build_tablet_tool_move
  tablet_tool_tip-Traced ctx event s d h =
      mouse_click-build formats (origin_of ctx) _ _ _ (later_click ctx _ _ s)
        (build_tablet_tool_move-Traced ctx _ (api.get_tablet_tool_event event) s d h)

  pub tablet_tool_button-Traced : Traced (Handlers.tablet_tool_button env)
  unfolding Handlers.tablet_tool_button MouseClick.with_action MouseClick.with_button
  tablet_tool_button-Traced ctx event s d h =
      mouse_click-build formats (origin_of ctx) _ _ d
        (mouse_click-named env ctx _ _ _ (mouse_click-Based env ctx _ s)) h

  pub tablet_pad_button-Traced : Traced (Handlers.tablet_pad_button env)
  unfolding Handlers.tablet_pad_button MouseClick.with_action MouseClick.with_button
  tablet_pad_button-Traced ctx event s d h =
      mouse_click-build formats (origin_of ctx) _ _ d (mouse_click-Based env ctx _ s) h

  pub tablet_pad_key-Traced : Traced (Handlers.tablet_pad_key env)
  unfolding Handlers.tablet_pad_key Key.with_action Key.with_button
  tablet_pad_key-Traced ctx event s d h =
      key-build formats (origin_of ctx) _ _ d (key-named env ctx _ _ _ (key-Based env ctx _ s)) h

  later_touch_click :
      (ctx : EventContext T) (time time' : ℕ) (s : State D api.Device X R) (slot : ℤ)
      (touch : api.Touch) (b : MouseMove D T)
      → MouseClickBased {D = D} ctx
          (active xkb s.keyboard)
          (set_base_fields env ctx time'
            (set_touch_relative_position env ctx.device_uuid slot touch
              (set_base_fields env ctx time s (MouseMove.empty {D = D} {T = T})).1
              b).1
            MouseClick.empty).0
  unfolding set_base_fields set_touch_relative_position
  later_touch_click ctx time time' s slot touch b =
      mouse_click-Based env ctx time'
        (set_touch_relative_position env ctx.device_uuid slot touch
          (set_base_fields env ctx time s (MouseMove.empty {D = D} {T = T})).1 b).1

  pub touch_down-Traced : Traced (Transformer.touch_down env)
  unfolding Transformer.touch_down MouseMove.with_touch_id MouseClick.with_touch_id
      MouseClick.with_action set_touch_relative_position
  touch_down-Traced ctx event s d h =
      mouse_click-build formats (origin_of ctx) _ _ _
        (later_touch_click ctx _ _ s _ _ (
          MouseMove.with_touch_id (api.get_touch_seat_slot (api.get_touch_event event))
            (set_base_fields env ctx (api.get_touch_time (api.get_touch_event event)) s
              (MouseMove.empty {D = D})).0))
        (mouse_move-build formats (origin_of ctx) _ _ d
          (difference-Based env ctx _ _ _ _ _ _ (mouse_move-Based env ctx _ s)) h)

  pub touch_motion-Traced : Traced (Transformer.touch_motion env)
  unfolding Transformer.touch_motion MouseMove.with_touch_id set_touch_relative_position
  touch_motion-Traced ctx event s d h =
      mouse_move-build formats (origin_of ctx) _ _ d
        (difference-Based env ctx _ _ _ _ _ _ (mouse_move-Based env ctx _ s)) h

  pub build_touch_release-Traced : Traced (build_touch_release env)
  unfolding build_touch_release MouseMove.with_touch_id MouseClick.with_touch_id
      MouseClick.with_action
  build_touch_release-Traced ctx event s d h =
      mouse_click-build formats (origin_of ctx) _ _ _ (later_click ctx _ _ s)
        (mouse_move-build formats (origin_of ctx) _ _ d (mouse_move-Based env ctx _ s) h)

  pub build_scroll_event-Traced : Traced (Transformer.build_scroll_event env)
  unfolding Transformer.build_scroll_event MouseScroll.with_vertical MouseScroll.with_horizontal
  build_scroll_event-Traced ctx event s d h =
      mouse_scroll-build formats (origin_of ctx) (active xkb s.keyboard) _ d
        (axis scroll_horizontal MouseScroll.with_horizontal b1 (λ v. vertical) vertical) h
    where
      pointer : api.Pointer
      pointer = api.get_pointer_event event

      ms : List String
      ms = active xkb s.keyboard

      b : MouseScroll D T
      b = (set_base_fields env ctx (api.get_pointer_time pointer) s (MouseScroll.empty {D = D})).0

      b1 : MouseScroll D T
      b1 =
          if api.get_pointer_has_axis pointer scroll_vertical
          then MouseScroll.with_vertical (api.get_pointer_scroll_value pointer scroll_vertical) b
          else b

      axis :
          (a : Axis) (set_axis : D → MouseScroll D T → MouseScroll D T) (c : MouseScroll D T)
          → ((v : D) → MouseScrollBased ctx ms (set_axis v c))
          → MouseScrollBased ctx ms c
          → MouseScrollBased ctx ms (
              if api.get_pointer_has_axis pointer a
              then set_axis (api.get_pointer_scroll_value pointer a) c
              else c)
      axis a set_axis c h k =
          if-Based env ctx ms (api.get_pointer_has_axis pointer a)
            (set_axis (api.get_pointer_scroll_value pointer a) c) c
            (h (api.get_pointer_scroll_value pointer a)) k

      based : MouseScrollBased ctx ms b
      based = mouse_scroll-Based env ctx (api.get_pointer_time pointer) s

      vertical : MouseScrollBased ctx ms b1
      vertical = axis scroll_vertical MouseScroll.with_vertical b (λ v. based) based

  pub keyboard_key-Traced : Traced (Transformer.keyboard_key env)
  unfolding Transformer.keyboard_key Key.with_action Key.with_button
  keyboard_key-Traced ctx event s d h =
      key-build formats (origin_of ctx) _ _ d
        (set_character-Based env ctx _ _ _ (name_key-Based env ctx _ _ _ (key-Based env ctx _ s))) h
