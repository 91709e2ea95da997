-- ===== src/X11/Refresh.antt =====
-- evgetx11/src/event_switch_pointer_key.cpp, `RefreshDevices`: the scroll classes and the valuators of
-- a device.
use evget.Prelude.{String, Option, none, some, List, [], ◌∷◌, insert, ◌||◌, str_eq, if◌then◌else◌}
use evget.Prelude.Int.{ℤ, same_int}
use evget.Event.Enums.{DeviceType}
use evget.X11.Api.{
  Environment, Xi2DeviceInfo, ClassInfo, scroll_class, valuator_class, ScrollClassInfo,
  ValuatorClassInfo,
}
use evget.X11.State.{EventSwitchPointerKey, State, call}
use evget.X11.EventSwitch

module _ {D T W R : Type 0} (env : Environment D T W R) where
  open env use {api, labels}

  abbrev S : Type 0
  S = State W R

  -- The loop over the classes: the scroll infos and the valuator infos.
  unfoldable pub scroll_infos : List (Option ClassInfo) → List ScrollClassInfo
  scroll_infos [] = []
  scroll_infos (some (scroll_class info) ∷ classes) = info ∷ scroll_infos classes
  scroll_infos (_ ∷ classes) = scroll_infos classes

  unfoldable pub valuator_infos : List (Option ClassInfo) → List ValuatorClassInfo
  valuator_infos [] = []
  valuator_infos (some (valuator_class info) ∷ classes) = info ∷ valuator_infos classes
  valuator_infos (_ ∷ classes) = valuator_infos classes

  -- m[number] = info of the infos of one device
  unfoldable pub put_scroll :
      ScrollClassInfo → List (ℤ × ScrollClassInfo) → List (ℤ × ScrollClassInfo)
  put_scroll info [] = (info.number, info) ∷ []
  put_scroll info (entry ∷ entries) =
      let rest = put_scroll info entries in
      if same_int entry.0 info.number then (entry.0, info) ∷ entries else entry ∷ rest

  abbrev listed : Option (List (ℤ × ScrollClassInfo)) → List (ℤ × ScrollClassInfo)
  listed none = []
  listed (some infos) = infos

  -- The loop over the scroll infos.
  unfoldable pub add_scrolls :
      ℤ → List ScrollClassInfo → EventSwitchPointerKey → EventSwitchPointerKey
  unfolding put_scroll
  add_scrolls device_id [] p = p
  add_scrolls device_id (info ∷ infos) p = add_scrolls device_id infos (record p {
    scroll_map =
        insert same_int device_id (put_scroll info (listed (p.scroll_map device_id))) p.scroll_map;
  })

  -- The axis that a valuator has by its label.
  unfoldable pub set_axis : ℤ → ℤ → Option String → EventSwitchPointerKey → EventSwitchPointerKey
  set_axis device_id number none p = p
  set_axis device_id number (some name) p =
      if str_eq name labels.abs_x || str_eq name labels.rel_x
      then record p { valuator_x = insert same_int device_id number p.valuator_x }
      else if str_eq name labels.abs_y || str_eq name labels.rel_y
      then record p { valuator_y = insert same_int device_id number p.valuator_y }
      else p

  -- The loop over the valuator infos.
  unfoldable pub add_valuators : ℤ → List ValuatorClassInfo → S → S
  unfolding set_axis
  add_valuators device_id [] s = s
  add_valuators device_id (info ∷ infos) s =
      let (name, s1) = call (api.atom_name info.label) s in
      add_valuators device_id infos
        (record s1 { pointer_key = set_axis device_id info.number name s1.pointer_key })

  abbrev pub set_pointer : Option ℤ → EventSwitchPointerKey → EventSwitchPointerKey
  set_pointer none p = p
  set_pointer (some id) p = record p { pointer_id = id }

  -- EventSwitchPointerKey::RefreshDevices
  unfoldable pub refresh_devices : ℤ → Option ℤ → DeviceType → String → Xi2DeviceInfo → S → S
  unfolding EventSwitch.refresh_devices scroll_infos valuator_infos add_scrolls add_valuators
  refresh_devices device_id pointer_id device name info s =
      let s1 = EventSwitch.refresh_devices env device_id pointer_id device name info s in
      let p = set_pointer pointer_id s1.pointer_key in
      let scrolled = add_scrolls device_id (scroll_infos info.classes) p in
      add_valuators device_id (valuator_infos info.classes) (record s1 { pointer_key = scrolled })
