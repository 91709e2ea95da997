-- ===== src/X11/Origins.antt =====
-- What the builders of evgetx11's switches hold when their fields are set.
use mathlib.Core.Path.{subst}
use evget.Prelude.{◌≡◌, refl, ap, sym, String, List, [], ◌++◌, some}
use evget.Event.Enums.{DeviceType}
use evget.Event.Modifiers.{
  key_appends, mouse_click_appends, mouse_move_appends, mouse_scroll_appends,
}
use evget.Event.Origin.{Origin, KeyBased, MouseClickBased, MouseMoveBased, MouseScrollBased}
use evget.Event.Key
use evget.Event.Key.{Key, key_base_fields, key_window_functions, key_screen_function}
use evget.Event.MouseClick
use evget.Event.MouseClick.{
  MouseClick, mouse_click_base_fields, mouse_click_window_functions, mouse_click_screen_function,
}
use evget.Event.MouseMove
use evget.Event.MouseMove.{
  MouseMove, mouse_move_base_fields, mouse_move_window_functions, mouse_move_screen_function,
}
use evget.Event.MouseScroll
use evget.Event.MouseScroll.{
  MouseScroll, mouse_scroll_base_fields, mouse_scroll_window_functions,
  mouse_scroll_screen_function,
}
use evget.X11.Api.{Environment, RawEvent, QueryPointerResult}
use evget.X11.EventSwitch.{S, set_fields, event_source_name}
use evget.X11.Outcomes.{Returning}
use evget.X11.Fields.{
  active, device_of, uuid_of, Kept, set_modifier_value-append, WindowFree, set_fields-keeps,
}

module _ {D T W R : Type 0} (env : Environment D T W R) where
  -- The origin of the entries of an event of a device with a type and a name.
  abbrev pub origin_of : DeviceType → String → T → RawEvent D → String → S env → Origin T
  origin_of t name timestamp event system_event s = record {
    timestamp = timestamp;
    device_name = name;
    device_id = uuid_of env event.sourceid s;
    system_event = system_event;
    event_source = event_source_name;
    device_type = device_of event.evtype t;
  }

  module _ (t : DeviceType) (name : String) (timestamp : T) (event : RawEvent D)
      (system_event : String) (q : QueryPointerResult D) (s : S env)
      (known : s.event_switch.devices event.sourceid ≡ some t)
      (named : s.event_switch.id_to_name event.sourceid ≡ some name) where
    abbrev o : Origin T
    o = origin_of t name timestamp event system_event s

    abbrev ms : List String
    ms = active q.effective

    key-WindowFree : WindowFree env key_window_functions (λ (x : Key D T).
        KeyBased o ms (Key.with_screen q.screen_number (Key.with_device_name name x)))
    unfolding Key.with_screen Key.with_device_name Key.with_focus_window_name
        Key.with_focus_window_position_x Key.with_focus_window_position_y
        Key.with_focus_window_width Key.with_focus_window_height
    key-WindowFree = record {
      name = λ x y h. h;
      position_x = λ x y h. h;
      position_y = λ x y h. h;
      width = λ x y h. h;
      height = λ x y h. h;
    }

    pub key-fields :
        (y : Key D T)
        → y.modifiers ≡ []
        → Returning
            (λ r. KeyBased o ms r.0 × Kept env event.sourceid s r.1)
            (set_fields env event timestamp system_event q y s)
    unfolding key_appends Key.with_interval_optional Key.with_timestamp Key.with_device
        Key.with_device_name Key.with_device_id Key.with_system_event Key.with_event_source
        Key.with_screen
    key-fields y h =
        set_fields-keeps env key_base_fields key_window_functions key_screen_function
          (KeyBased o ms) event timestamp system_event q y s t name known named key-WindowFree
          λ elapsed.
            subst
              (λ x. KeyBased o ms (Key.with_screen q.screen_number (Key.with_device_name name x)))
              (sym (set_modifier_value-append env key_base_fields key_appends q.effective _))
              (refl, refl, refl, refl, refl, refl, ap (λ l. l ++ ms) h)

    mouse_click-WindowFree : WindowFree env mouse_click_window_functions (λ (x : MouseClick D T).
        MouseClickBased o ms
          (MouseClick.with_screen q.screen_number (MouseClick.with_device_name name x)))
    unfolding MouseClick.with_screen MouseClick.with_device_name MouseClick.with_focus_window_name
        MouseClick.with_focus_window_position_x MouseClick.with_focus_window_position_y
        MouseClick.with_focus_window_width MouseClick.with_focus_window_height
    mouse_click-WindowFree = record {
      name = λ x y h. h;
      position_x = λ x y h. h;
      position_y = λ x y h. h;
      width = λ x y h. h;
      height = λ x y h. h;
    }

    pub mouse_click-fields :
        (y : MouseClick D T)
        → y.modifiers ≡ []
        → Returning
            (λ r. MouseClickBased o ms r.0 × Kept env event.sourceid s r.1)
            (set_fields env event timestamp system_event q y s)
    unfolding mouse_click_appends MouseClick.with_interval_optional MouseClick.with_timestamp
        MouseClick.with_device MouseClick.with_device_name MouseClick.with_device_id
        MouseClick.with_system_event MouseClick.with_event_source MouseClick.with_screen
    mouse_click-fields y h =
        set_fields-keeps env mouse_click_base_fields mouse_click_window_functions
          mouse_click_screen_function (MouseClickBased o ms) event timestamp system_event q y s t
          name known named mouse_click-WindowFree
          λ elapsed.
            subst
              (λ x.
                MouseClickBased o ms
                  (MouseClick.with_screen q.screen_number (MouseClick.with_device_name name x)))
              (sym (
                set_modifier_value-append env mouse_click_base_fields mouse_click_appends
                  q.effective _))
              (refl, refl, refl, refl, refl, refl, ap (λ l. l ++ ms) h)

    mouse_move-WindowFree : WindowFree env mouse_move_window_functions (λ (x : MouseMove D T).
        MouseMoveBased o ms
          (MouseMove.with_screen q.screen_number (MouseMove.with_device_name name x)))
    unfolding MouseMove.with_screen MouseMove.with_device_name MouseMove.with_focus_window_name
        MouseMove.with_focus_window_position_x MouseMove.with_focus_window_position_y
        MouseMove.with_focus_window_width MouseMove.with_focus_window_height
    mouse_move-WindowFree = record {
      name = λ x y h. h;
      position_x = λ x y h. h;
      position_y = λ x y h. h;
      width = λ x y h. h;
      height = λ x y h. h;
    }

    pub mouse_move-fields :
        (y : MouseMove D T)
        → y.modifiers ≡ []
        → Returning
            (λ r. MouseMoveBased o ms r.0 × Kept env event.sourceid s r.1)
            (set_fields env event timestamp system_event q y s)
    unfolding mouse_move_appends MouseMove.with_interval_optional MouseMove.with_timestamp
        MouseMove.with_device MouseMove.with_device_name MouseMove.with_device_id
        MouseMove.with_system_event MouseMove.with_event_source MouseMove.with_screen
    mouse_move-fields y h =
        set_fields-keeps env mouse_move_base_fields mouse_move_window_functions
          mouse_move_screen_function (MouseMoveBased o ms) event timestamp system_event q y s t name
          known named mouse_move-WindowFree
          λ elapsed.
            subst
              (λ x.
                MouseMoveBased o ms
                  (MouseMove.with_screen q.screen_number (MouseMove.with_device_name name x)))
              (sym (
                set_modifier_value-append env mouse_move_base_fields mouse_move_appends q.effective
                  _))
              (refl, refl, refl, refl, refl, refl, ap (λ l. l ++ ms) h)

    mouse_scroll-WindowFree : WindowFree env mouse_scroll_window_functions (λ (x : MouseScroll D T).
        MouseScrollBased o ms
          (MouseScroll.with_screen q.screen_number (MouseScroll.with_device_name name x)))
    unfolding MouseScroll.with_screen MouseScroll.with_device_name
        MouseScroll.with_focus_window_name MouseScroll.with_focus_window_position_x
        MouseScroll.with_focus_window_position_y MouseScroll.with_focus_window_width
        MouseScroll.with_focus_window_height
    mouse_scroll-WindowFree = record {
      name = λ x y h. h;
      position_x = λ x y h. h;
      position_y = λ x y h. h;
      width = λ x y h. h;
      height = λ x y h. h;
    }

    pub mouse_scroll-fields :
        (y : MouseScroll D T)
        → y.modifiers ≡ []
        → Returning
            (λ r. MouseScrollBased o ms r.0 × Kept env event.sourceid s r.1)
            (set_fields env event timestamp system_event q y s)
    unfolding mouse_scroll_appends MouseScroll.with_interval_optional MouseScroll.with_timestamp
        MouseScroll.with_device MouseScroll.with_device_name MouseScroll.with_device_id
        MouseScroll.with_system_event MouseScroll.with_event_source MouseScroll.with_screen
    mouse_scroll-fields y h =
        set_fields-keeps env mouse_scroll_base_fields mouse_scroll_window_functions
          mouse_scroll_screen_function (MouseScrollBased o ms) event timestamp system_event q y s t
          name known named mouse_scroll-WindowFree
          λ elapsed.
            subst
              (λ x.
                MouseScrollBased o ms
                  (MouseScroll.with_screen q.screen_number (MouseScroll.with_device_name name x)))
              (sym (
                set_modifier_value-append env mouse_scroll_base_fields mouse_scroll_appends
                  q.effective _))
              (refl, refl, refl, refl, refl, refl, ap (λ l. l ++ ms) h)
