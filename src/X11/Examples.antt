-- ===== src/X11/Examples.antt =====
-- Runs of the transformer of evgetx11 on a small server: a mouse with two buttons, a wheel and two
-- axes, whose state counts the calls of QueryPointer.
use evget.Prelude.{
  ℕ, zero, suc, ◌/◌, ◌%◌, ◌≡◌, refl, String, Bool, true, false, none, some, [], ◌∷◌, get_elem?,
  to_string, Throws, returns, throws, out_of_range, ◌==◌, if◌then◌else◌,
}
use evget.Prelude.Int.{ℤ, pos, negsuc}
use evget.Event.Enums.{mouse, press}
use evget.Event.Data.{Data}
use evget.Event.Data
use evget.X11.Api.{
  Environment, X11Api, EventType, RawEvent, QueryPointerResult, button_class, scroll_class,
  valuator_class, scroll_vertical,
}
use evget.X11.State.{State, InputEvent, initial}
use evget.X11.PointerKey.{on_masks}
use evget.X11.Transformer.{construct, transform_event, build, build-none, with_touch, new_builder}
use evget.X11.Outcomes.{Returning}
use evget.X11.Events.{refreshes, full, Expected, transform_event-Records}
use evget.X11.Faults.{OneAction, transform_event-unknown, transform_event-key_action}
use evget.X11.Valuators.{
  incremented, counted, counted_up, moved_by, scrolled_by, switch_on_event-counted,
}
use evget.X11.Motion.{switch_on_event}
use evget.X11.EventSwitch.{has_device}
use evget.Prelude.{◌>>=◌}
use evget.X11.Runs.{Reach, Run, Reach-returns, Run-device}

sample_pointer : ℤ → ℕ → QueryPointerResult ℕ × ℕ
sample_pointer id w =
    (record { root_x = w; root_y = 5; effective = 5; screen_number = pos 0 }, suc w)

sample_atom : ℕ → String
sample_atom n =
    if n == 1
    then "MOUSE"
    else if n == 2
    then "Rel X"
    else if n == 3
    then "Rel Y"
    else if n == 4
    then "Button Left"
    else "Button Wheel Up"

abbrev sample_api : X11Api ℕ ℕ
sample_api = record {
  lookup_character = λ event q sym w. (("a", 97), w);
  get_device_button_mapping = λ id size w. (some (1 ∷ 4 ∷ []), w);
  list_input_devices =
      λ w. (record { id = 7; type = 1; name = "Mouse"; is_x_pointer = true } ∷ [], w);
  query_device = λ w. (
    record {
      deviceid = pos 7;
      enabled = true;
      classes =
          some (button_class (4 ∷ 5 ∷ []))
          ∷ some (valuator_class (record { number = pos 0; label = 2 }))
          ∷ some (valuator_class (record { number = pos 1; label = 3 }))
          ∷ some (scroll_class (record { number = pos 3; scroll_type = scroll_vertical }))
          ∷ none
          ∷ [];
    }
        ∷ [],
    w,
  );
  atom_name = λ atom w. (some (sample_atom atom), w);
  get_active_window = λ w. (none, w);
  get_focus_window = λ w. (some 3, w);
  get_window_name = λ window w. (some "Terminal", w);
  get_window_size = λ window w. (some (record { width = 640; height = 480 }), w);
  get_window_position = λ window w. (none, w);
  query_pointer = sample_pointer;
}

absolute : ℤ → ℕ
absolute (pos n) = n
absolute (negsuc n) = suc n

abbrev sample_environment : Environment ℕ ℕ ℕ ℕ
sample_environment = record {
  api = sample_api;
  formats = record {
    double_to_string = λ d. to_string (pos d);
    format_timestamp = λ t. to_string (pos t);
  };
  labels = record {
    button_wheel_up = "Button Wheel Up";
    button_wheel_down = "Button Wheel Down";
    button_hwheel_left = "Button Horiz Wheel Left";
    button_hwheel_right = "Button Horiz Wheel Right";
    abs_x = "Abs X";
    rel_x = "Rel X";
    abs_y = "Abs Y";
    rel_y = "Rel Y";
    xi_mouse = "MOUSE";
    xi_keyboard = "KEYBOARD";
    xi_touchpad = "TOUCHPAD";
    xi_touchscreen = "TOUCHSCREEN";
    xi_tablet = "TABLET";
  };
  generate = λ r. (to_string (pos r), suc r);
  increment = suc;
  to_int = pos;
  of_int = absolute;
  keysym_name = λ sym. some "a";
  mask_is_set =
      λ mask i. elim (get_elem? mask (i / 8)) [ none ↦ false | some byte ↦ byte_has (i % 8) byte ];
  walk = λ infos. infos;
}
  where
    byte_has : ℕ → ℕ → Bool
    byte_has zero byte = byte % 2 == 1
    byte_has (suc k) byte = byte_has k (byte / 2)

abbrev state_of : Throws (State ℕ ℕ) → State ℕ ℕ
state_of (returns s) = s
state_of (throws e) = initial 0 0

-- The transformer once it is constructed.
abbrev ready : State ℕ ℕ
ready = state_of (construct sample_environment full 0 100)

abbrev event_of : EventType → ℤ → ℤ → RawEvent ℕ
event_of type source detail = record {
  evtype = type;
  time = 1000;
  sourceid = source;
  detail = detail;
  flags = 0;
  valuators = record { mask = 9 ∷ []; first_value = 20; more_values = 30 ∷ [] };
}

abbrev captured : RawEvent ℕ → InputEvent ℕ ℕ
captured raw = record { timestamp = 17; cookie = some raw }

is_returned : {A : Type 0} → Throws A → Bool
is_returned (returns a) = true
is_returned (throws e) = false

ready_returned : is_returned (construct sample_environment full 0 100) ≡ true
unfolding construct is_returned
ready_returned = refl

-- A motion event that has the valuators of the x axis and of the wheel.
abbrev motion : RawEvent ℕ
motion = event_of EventType.raw_motion (pos 7) (pos 0)

transform_event-Records_example :
    Returning
      (Expected sample_environment EventType.raw_motion mouse "Mouse" "" 17 motion ready)
      (transform_event sample_environment full (captured motion) ready)
unfolding construct sample_atom refreshes
transform_event-Records_example =
    transform_event-Records sample_environment mouse "Mouse" "" (captured motion) motion ready refl
      refl refl refl tt

transform_event-unknown_example :
    transform_event sample_environment full
      (captured (event_of EventType.raw_button_press (pos 9) (pos 1)))
      ready
    ≡ throws out_of_range
unfolding construct refreshes
transform_event-unknown_example =
    transform_event-unknown sample_environment
      (captured (event_of EventType.raw_button_press (pos 9) (pos 1)))
      (event_of EventType.raw_button_press (pos 9) (pos 1)) ready refl refl refl refl

abbrev released : RawEvent ℕ
released = event_of EventType.raw_key_release (pos 7) (pos 38)

transform_event-key_action_example :
    Returning
      (λ (r : Data × State ℕ ℕ). OneAction sample_environment press r.0)
      (transform_event sample_environment full (captured released) ready)
unfolding construct sample_atom
transform_event-key_action_example =
    transform_event-key_action sample_environment mouse "Mouse" (captured released) released ready
      refl refl refl refl

switch_on_event-counted_example :
    switch_on_event sample_environment EventType.raw_motion 17 motion Data.empty ready ≡ (
      moved_by sample_environment 17
        (counted_up sample_environment 2 motion)
        Data.empty
        ready
        ((0, pos 20) ∷ (3, pos 21) ∷ [])
      >>= λ moved.
          scrolled_by sample_environment 17
            (counted_up sample_environment 4 motion)
            ((0, pos 22) ∷ (3, pos 23) ∷ [])
            moved
          >>= λ r. returns (true, r))
unfolding on_masks incremented counted construct has_device
switch_on_event-counted_example =
    switch_on_event-counted sample_environment 17 motion Data.empty ready refl refl

ready_reached : Reach sample_environment ready
unfolding construct
ready_reached = Reach.start 0 100 refl

Reach-returns_example :
    (r : Data × State ℕ ℕ) × (transform_event sample_environment full (captured motion) ready
      ≡ returns r)
unfolding construct refreshes
Reach-returns_example =
    Reach-returns sample_environment ready (captured motion) motion ready_reached refl refl refl

-- A change of the devices, after which they are read again.
abbrev changed : InputEvent ℕ ℕ
changed = captured (event_of EventType.device_changed (pos 7) (pos 0))

abbrev refreshed : State ℕ ℕ
refreshed = data_state (transform_event sample_environment full changed ready)
  where
    data_state : Throws (Data × State ℕ ℕ) → State ℕ ℕ
    data_state (returns r) = r.1
    data_state (throws e) = initial 0 0

refreshed-Run : Run sample_environment ready refreshed
unfolding construct transform_event
refreshed-Run = Run.next Data.empty changed Run.here refl

Run-device_example :
    (refreshed.event_switch.devices (pos 7) ≡ some mouse)
    × ((name : String) × (refreshed.event_switch.id_to_name (pos 7) ≡ some name))
unfolding construct transform_event sample_atom
Run-device_example =
    Run-device sample_environment ready refreshed (pos 7) mouse ready_reached refreshed-Run refl

build-none_example : build (with_touch new_builder) ≡ none
unfolding with_touch
build-none_example = build-none (with_touch new_builder)
