-- ===== src/X11/Motion.antt =====
-- evgetx11/include/evgetx11/event_switch_pointer_key.h: motion and scrolling, and the switch.
use evget.Prelude.{
  ℕ, String, Bool, true, false, ◌||◌, not, Option, none, some, List, [], ◌∷◌, is_some,
  if◌then◌else◌, Throws, returns, ◌>>=◌,
}
use evget.Prelude.Int.{ℤ, pos, same_int}
use evget.Event.Enums.{press, release}
use evget.Event.Data.{Data}
use evget.Event.MouseScroll
use evget.Event.MouseScroll.{
  MouseScroll, mouse_scroll_base_fields, mouse_scroll_window_functions,
  mouse_scroll_screen_function,
}
use evget.X11.Api.{
  Environment, EventType, RawEvent, ScrollClassInfo, ScrollType, scroll_horizontal, scroll_vertical,
  pointer_emulated,
}
use evget.X11.State.{State, call}
use evget.X11.EventSwitch.{has_device, add_motion_event, set_fields}
use evget.X11.PointerKey.{
  Valuators, find_valuator, valuator_value, get_valuators, button_event, key_event, Handler,
}

-- valuator == valuator_x_[id], where the right side may be empty
abbrev pub is_valuator : ℕ → Option ℤ → Bool
is_valuator valuator none = false
is_valuator valuator (some id) = same_int (pos valuator) id

module _ {D T W R : Type 0} (env : Environment D T W R) where
  open env use {api, formats, of_int, walk}

  abbrev S : Type 0
  S = State W R

  -- Whether the loop of MotionEvent reaches its `break`.
  unfoldable pub moves : Valuators → Option ℤ → Option ℤ → Bool
  moves [] x y = false
  moves ((valuator, value) ∷ vs) x y =
      is_valuator valuator x || is_valuator valuator y || moves vs x y

  -- MotionEvent, with the event that it leaves.
  unfoldable pub motion_event :
      T → RawEvent D → String → Data → S → Throws ((Data × S) × RawEvent D)
  unfolding has_device get_valuators moves add_motion_event
  motion_event timestamp raw_event system_event d s =
      if not (has_device raw_event.sourceid s) || pointer_emulated raw_event.flags
      then returns ((d, s), raw_event)
      else read_motion
    where
      read_motion : Throws ((Data × S) × RawEvent D)
      read_motion =
          let (vs, read) = get_valuators env raw_event.valuators in
          let left = record raw_event { valuators = read } in
          let moved =
            moves vs (s.pointer_key.valuator_x raw_event.sourceid)
              (s.pointer_key.valuator_y raw_event.sourceid) in
          if moved
          then (add_motion_event env left timestamp system_event d s >>= λ r. returns (r, left))
          else returns ((d, s), left)

  -- The scroll classes whose valuators the event has.
  unfoldable pub processed : Valuators → List (ℤ × ScrollClassInfo) → List (ℤ × ScrollClassInfo)
  processed vs [] = []
  processed vs (info ∷ infos) =
      let rest = processed vs infos in
      if is_some (find_valuator info.0 vs) then info ∷ rest else rest

  -- One round of the loop over the processed valuators.
  abbrev pub set_scroll : ScrollType → D → MouseScroll D T → MouseScroll D T
  set_scroll scroll_horizontal value builder = MouseScroll.with_horizontal value builder
  set_scroll scroll_vertical value builder = MouseScroll.with_vertical value builder

  unfoldable pub set_scrolls :
      Valuators → List (ℤ × ScrollClassInfo) → MouseScroll D T → MouseScroll D T
  set_scrolls vs [] builder = builder
  set_scrolls vs ((valuator, info) ∷ infos) builder =
      set_scrolls vs infos
        (set_scroll info.scroll_type (of_int (valuator_value valuator vs)) builder)

  -- The end of ScrollEvent.
  abbrev pub record_scroll : List (ℤ × ScrollClassInfo) → Valuators → Handler env
  record_scroll [] vs timestamp raw_event system_event d s = returns (d, s)
  record_scroll infos vs timestamp raw_event system_event d s =
      let (query_pointer, s1) = call (api.query_pointer s.pointer_key.pointer_id) s in
      let builder = MouseScroll.with_position_y query_pointer.root_y (
        MouseScroll.with_position_x query_pointer.root_x
          (set_scrolls vs (walk infos) MouseScroll.empty)) in
      set_fields env raw_event timestamp system_event query_pointer builder s1 >>= λ r.
      returns (MouseScroll.build formats r.0 d, r.1)

  abbrev pub scroll_classes : Option (List (ℤ × ScrollClassInfo)) → Handler env
  scroll_classes none timestamp raw_event system_event d s = returns (d, s)
  scroll_classes (some infos) timestamp raw_event system_event d s =
      let (vs, read) = get_valuators env raw_event.valuators in
      record_scroll (processed vs (walk infos)) vs timestamp (record raw_event { valuators = read })
        system_event d s

  -- ScrollEvent
  unfoldable pub scroll_event : Handler env
  unfolding has_device get_valuators processed set_scrolls set_fields
  scroll_event timestamp raw_event system_event d s =
      if not (has_device raw_event.sourceid s) || pointer_emulated raw_event.flags
      then returns (d, s)
      else scroll_classes (s.pointer_key.scroll_map raw_event.sourceid) timestamp raw_event
          system_event d s

  -- EventSwitchPointerKey::SwitchOnEvent: whether the event is handled, and its entries.
  unfoldable pub switch_on_event :
      EventType → T → RawEvent D → Data → S → Throws (Bool × (Data × S))
  unfolding motion_event scroll_event button_event key_event
  switch_on_event EventType.raw_motion timestamp raw d s =
      motion_event timestamp raw "XI_RawMotion" d s >>= λ moved.
      scroll_event timestamp moved.1 "XI_RawMotion" moved.0.0 moved.0.1 >>= λ r. returns (true, r)
  switch_on_event EventType.raw_button_press timestamp raw d s =
      button_event env press timestamp raw "XI_RawButtonPress" d s >>= λ r. returns (true, r)
  switch_on_event EventType.raw_button_release timestamp raw d s =
      button_event env release timestamp raw "XI_RawButtonRelease" d s >>= λ r. returns (true, r)
  switch_on_event EventType.raw_key_press timestamp raw d s =
      key_event env timestamp raw "XI_RawKeyPress" d s >>= λ r. returns (true, r)
  switch_on_event EventType.raw_key_release timestamp raw d s =
      key_event env timestamp raw "XI_RawKeyRelease" d s >>= λ r. returns (true, r)
  switch_on_event _ timestamp raw d s = returns (false, (d, s))
