-- ===== src/X11/PointerKey.antt =====
-- evgetx11/include/evgetx11/event_switch_pointer_key.h and evgetx11/src/event_switch_pointer_key.cpp:
-- keys, buttons, motion and scrolling.
use evget.Prelude.{
  ℕ, zero, suc, ◌*◌, String, Bool, ◌||◌, not, Option, none, some, List, [], ◌∷◌, str_eq, length,
  if◌then◌else◌, Throws, returns, ◌>>=◌,
}
use evget.Prelude.Int.{ℤ, pos, same_int}
use evget.Event.Enums.{ButtonAction, press, release, repeat}
use evget.Event.Data.{Data}
use evget.Event.Key
use evget.Event.Key.{Key, key_base_fields, key_window_functions, key_screen_function}
use evget.Event.MouseScroll.{
  mouse_scroll_base_fields, mouse_scroll_window_functions, mouse_scroll_screen_function,
}
use evget.X11.Api.{Environment, EventType, RawEvent, ValuatorState, pointer_emulated, key_repeat}
use evget.X11.State.{State, call}
use evget.X11.EventSwitch.{has_device, get_button_name, add_button_event, set_fields}

-- The valuators of an event, with their values, in the order of a std::map.
abbrev pub Valuators : Type 0
Valuators = List (ℕ × ℤ)

abbrev pub find_valuator : ℤ → Valuators → Option ℤ
find_valuator id [] = none
find_valuator id ((mask, value) ∷ rest) =
    if same_int (pos mask) id then some value else find_valuator id rest

-- valuators[id] of a std::map<int, int>
abbrev pub valuator_value : ℤ → Valuators → ℤ
valuator_value id vs = elim (find_valuator id vs) [ none ↦ pos 0 | some value ↦ value ]

abbrev pub mask_bits : ℕ
mask_bits = 8

module _ {D T W R : Type 0} (env : Environment D T W R) where
  open env use {api, formats, labels, increment, to_int, of_int, keysym_name, mask_is_set, walk}

  abbrev pub S : Type 0
  S = State W R

  -- The loop of X11::OnMasks, from the bit `i` on: the bits that are set, in order.
  unfoldable pub on_masks_from : ℕ → ℕ → List ℕ → List ℕ
  on_masks_from zero i mask = []
  on_masks_from (suc n) i mask =
      let rest = on_masks_from n (suc i) mask in if mask_is_set mask i then i ∷ rest else rest

  -- X11::OnMasks, as the list of its calls
  unfoldable pub on_masks : List ℕ → List ℕ
  unfolding on_masks_from
  on_masks mask = on_masks_from (length mask * mask_bits) 0 mask

  -- The calls of GetValuators' function. `(*values)++` reads the value that `values` points to and
  -- adds one to it: the pointer stays.
  unfoldable pub read_values : List ℕ → D → Valuators × D
  read_values [] first = ([], first)
  read_values (mask ∷ masks) first =
      let (vs, last) = read_values masks (increment first) in ((mask, to_int first) ∷ vs, last)

  -- GetValuators, and what it leaves of the event's memory.
  unfoldable pub get_valuators : ValuatorState D → Valuators × ValuatorState D
  unfolding read_values on_masks
  get_valuators v =
      let (vs, first) = read_values (on_masks v.mask) v.first_value in
      (vs, record v { first_value = first })

  -- X11::KeySymToString; NoSymbol is 0.
  unfoldable pub key_sym_to_string : ℕ → String
  key_sym_to_string zero = ""
  key_sym_to_string (suc k) = elim (keysym_name (suc k)) [ none ↦ "" | some name ↦ name ]

  -- The labels of buttons that stand for scrolling.
  unfoldable pub is_wheel : String → Bool
  is_wheel button =
      str_eq button labels.button_wheel_up
      || str_eq button labels.button_wheel_down
      || str_eq button labels.button_hwheel_left
      || str_eq button labels.button_hwheel_right

  -- What a method of the switch is: it adds entries for an event.
  abbrev pub Handler : Type 0
  Handler = T → RawEvent D → String → Data → S → Throws (Data × S)

  -- ButtonEvent
  unfoldable pub button_event : ButtonAction → Handler
  unfolding get_button_name has_device is_wheel add_button_event
  button_event action timestamp raw_event system_event d s =
      get_button_name raw_event.sourceid raw_event.detail s >>= λ button.
      if not (has_device raw_event.sourceid s)
        || (pointer_emulated raw_event.flags || is_wheel button)
      then returns (d, s)
      else add_button_event env raw_event timestamp action raw_event.detail system_event d s

  -- The action of KeyEvent.
  unfoldable pub key_action : EventType → ℕ → ButtonAction
  key_action EventType.key_release flags = release
  key_action _ flags = if key_repeat flags then repeat else press

  -- KeyEvent
  unfoldable pub key_event : Handler
  unfolding has_device set_fields key_sym_to_string key_action
  key_event timestamp raw_event system_event d s =
      if not (has_device raw_event.sourceid s) then returns (d, s) else record_key
    where
      record_key : Throws (Data × S)
      record_key =
          let (query_pointer, s1) = call (api.query_pointer s.pointer_key.pointer_id) s in
          let ((character, key_sym), s2) =
            call (api.lookup_character raw_event query_pointer 0) s1 in
          let builder = Key.with_button_name (key_sym_to_string key_sym) (
            Key.with_character character (
              Key.with_button raw_event.detail (
                Key.with_action (key_action raw_event.evtype raw_event.flags) (
                  Key.with_position_y query_pointer.root_y
                    (Key.with_position_x query_pointer.root_x Key.empty))))) in
          set_fields env raw_event timestamp system_event query_pointer builder s2 >>= λ r.
          returns (Key.build formats r.0 d, r.1)
