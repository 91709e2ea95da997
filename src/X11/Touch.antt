-- ===== src/X11/Touch.antt =====
-- evgetx11/include/evgetx11/event_switch_touch.h: touches.
use evget.Prelude.{String, Bool, true, false, not, Option, if◌then◌else◌, Throws, returns, ◌>>=◌}
use evget.Prelude.Int.{ℤ}
use evget.Event.Enums.{DeviceType, ButtonAction, press, release}
use evget.Event.Data.{Data}
use evget.Event.MouseClick
use evget.Event.MouseClick.{
  MouseClick, mouse_click_base_fields, mouse_click_window_functions, mouse_click_screen_function,
}
use evget.Event.MouseMove
use evget.Event.MouseMove.{
  MouseMove, mouse_move_base_fields, mouse_move_window_functions, mouse_move_screen_function,
}
use evget.X11.Api.{Environment, EventType, RawEvent, Xi2DeviceInfo}
use evget.X11.State.{State}
use evget.X11.EventSwitch.{has_device, query_pointer_for_device, set_fields}
use evget.X11.PointerKey.{Handler}

module _ {D T W R : Type 0} (env : Environment D T W R) where
  open env use {formats}

  abbrev S : Type 0
  S = State W R

  -- TouchButton
  unfoldable pub touch_button : ButtonAction → Handler env
  unfolding has_device query_pointer_for_device set_fields
  touch_button action timestamp raw_event system_event d s =
      if not (has_device raw_event.sourceid s) then returns (d, s) else record_click
    where
      record_click : Throws (Data × S)
      record_click =
          let (query_pointer, s1) = query_pointer_for_device env s in
          let builder = MouseClick.with_touch_id raw_event.detail (
            MouseClick.with_action action (
              MouseClick.with_position_y query_pointer.root_y
                (MouseClick.with_position_x query_pointer.root_x MouseClick.empty))) in
          set_fields env raw_event timestamp system_event query_pointer builder s1 >>= λ r.
          returns (MouseClick.build formats r.0 d, r.1)

  -- TouchMotion
  unfoldable pub touch_motion : Handler env
  unfolding has_device query_pointer_for_device set_fields
  touch_motion timestamp raw_event system_event d s =
      if not (has_device raw_event.sourceid s) then returns (d, s) else record_move
    where
      record_move : Throws (Data × S)
      record_move =
          let (query_pointer, s1) = query_pointer_for_device env s in
          let builder = MouseMove.with_touch_id raw_event.detail (
            MouseMove.with_position_y query_pointer.root_y
              (MouseMove.with_position_x query_pointer.root_x MouseMove.empty)) in
          set_fields env raw_event timestamp system_event query_pointer builder s1 >>= λ r.
          returns (MouseMove.build formats r.0 d, r.1)

  -- EventSwitchTouch::SwitchOnEvent
  unfoldable pub switch_on_event :
      EventType → T → RawEvent D → Data → S → Throws (Bool × (Data × S))
  unfolding touch_button touch_motion
  switch_on_event EventType.raw_touch_begin timestamp raw d s =
      touch_motion timestamp raw "XI_RawTouchBegin" d s >>= λ moved.
      touch_button press timestamp raw "XI_RawTouchBegin" moved.0 moved.1 >>= λ r. returns (true, r)
  switch_on_event EventType.raw_touch_update timestamp raw d s =
      touch_motion timestamp raw "XI_RawTouchUpdate" d s >>= λ r. returns (true, r)
  switch_on_event EventType.raw_touch_end timestamp raw d s =
      touch_motion timestamp raw "XI_RawTouchEnd" d s >>= λ moved.
      touch_button release timestamp raw "XI_RawTouchEnd" moved.0 moved.1 >>= λ r. returns (true, r)
  switch_on_event _ timestamp raw d s = returns (false, (d, s))

  -- EventSwitchTouch::RefreshDevices has nothing to do.
  unfoldable pub refresh_devices : ℤ → Option ℤ → DeviceType → String → Xi2DeviceInfo → S → S
  refresh_devices device_id pointer_id device name info s = s
