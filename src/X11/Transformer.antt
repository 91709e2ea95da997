-- ===== src/X11/Transformer.antt =====
-- evgetx11/include/evgetx11/event_transformer.h and evgetx11/src/event_transformer.cpp: the devices,
-- the switches in turn, and the builder of transformers.
use evget.Prelude.{
  ◌≡◌, refl, ℕ, ◌^◌, String, Bool, true, false, ◌&&◌, ◌||◌, not, Option, none, some, List, [], ◌∷◌,
  ltb, ◌==◌, str_eq, if◌then◌else◌, Throws, returns, throws, ◌>>=◌, out_of_range, bad_numeric_cast,
  null_pointer,
}
use evget.Prelude.Int.{ℤ, pos, same_int}
use evget.Event.Enums.{DeviceType, unknown, mouse, keyboard, touchpad, touchscreen, tablet}
use evget.Event.Data.{Data}
use evget.Event.Data
use evget.X11.Api.{Environment, EventType, RawEvent, XDeviceInfo, Xi2DeviceInfo}
use evget.X11.State.{State, InputEvent, emplace, call, initial}
use evget.X11.Refresh
use evget.X11.Motion
use evget.X11.Touch

-- The types in the tuple `switches_`; the state of the first is in `State`.
pub data Switch : Type 0 where
  pointer_key touch : Switch

-- xi2_devices: the first info of an id stays.
unfoldable pub find_xi2 : List Xi2DeviceInfo → ℤ → Option Xi2DeviceInfo
find_xi2 [] id = none
find_xi2 (info ∷ infos) id =
    let rest = find_xi2 infos id in if same_int info.deviceid id then some info else rest

-- boost::numeric_cast<int> of an XID
unfoldable pub numeric_cast : ℕ → Throws ℤ
numeric_cast id = if ltb id (2 ^ 31) then returns (pos id) else throws bad_numeric_cast

module _ {D T W R : Type 0} (env : Environment D T W R) where
  open env use {api, labels}

  abbrev pub S : Type 0
  S = State W R

  -- The type of a device by the name of its type's atom.
  unfoldable pub type_of_name : String → DeviceType
  type_of_name type =
      if str_eq type labels.xi_mouse
      then mouse
      else if str_eq type labels.xi_keyboard
      then keyboard
      else if str_eq type labels.xi_touchpad
      then touchpad
      else if str_eq type labels.xi_touchscreen
      then touchscreen
      else if str_eq type labels.xi_tablet
          || str_eq type "PAD"
          || str_eq type "STYLUS"
          || str_eq type "ERASER"
          || str_eq type "CURSOR"
      then tablet
      else unknown

  abbrev pub refresh_switch : Switch → ℤ → Option ℤ → DeviceType → String → Xi2DeviceInfo → S → S
  refresh_switch Switch.pointer_key = Refresh.refresh_devices env
  refresh_switch Switch.touch = Touch.refresh_devices env

  -- std::apply over the switches
  unfoldable pub refresh_switches : List Switch → ℤ → DeviceType → String → Xi2DeviceInfo → S → S
  unfolding Refresh.refresh_devices Touch.refresh_devices
  refresh_switches [] device_id type name info s = s
  refresh_switches (w ∷ ws) device_id type name info s =
      refresh_switches ws device_id type name info
        (refresh_switch w device_id s.pointer_id type name info s)

  -- A device with the name of its type, which strcmp reads.
  unfoldable pub add_typed :
      List Switch → ℤ → XDeviceInfo → Xi2DeviceInfo → Option String → S → Throws S
  unfolding type_of_name refresh_switches
  add_typed switches device_id device xi2_device none s = throws null_pointer
  add_typed switches device_id device xi2_device (some type) s =
      let device_type = type_of_name type in
      returns (
        refresh_switches switches device_id device_type device.name xi2_device (record s {
          devices = emplace device_id device_type s.devices;
          id_to_name = emplace device_id device.name s.id_to_name;
        }))

  -- A device that is enabled and has a type is added.
  unfoldable pub add_device : List Switch → ℤ → XDeviceInfo → Xi2DeviceInfo → S → Throws S
  unfolding add_typed
  add_device switches device_id device xi2_device s =
      let (type, s1) = call (api.atom_name device.type) s in
      let added = add_typed switches device_id device xi2_device type s1 in
      if xi2_device.enabled && not (device.type == 0) then added else returns s

  abbrev pub at_xi2 : List Xi2DeviceInfo → ℤ → Throws Xi2DeviceInfo
  at_xi2 infos id = elim (find_xi2 infos id) [ none ↦ throws out_of_range | some i ↦ returns i ]

  -- One round of the loop of RefreshDevices.
  unfoldable pub refresh_device : List Switch → List Xi2DeviceInfo → XDeviceInfo → S → Throws S
  unfolding numeric_cast find_xi2 add_device
  refresh_device switches xi2_infos device s = numeric_cast device.id >>= λ device_id.
      at_xi2 xi2_infos device_id >>= λ xi2_device.
      add_device switches device_id device xi2_device
        (if device.is_x_pointer then record s { pointer_id = some device_id } else s)

  unfoldable pub refresh_all : List Switch → List Xi2DeviceInfo → List XDeviceInfo → S → Throws S
  unfolding refresh_device
  refresh_all switches xi2_infos [] s = returns s
  refresh_all switches xi2_infos (device ∷ rest) s =
      refresh_device switches xi2_infos device s >>= λ s1. refresh_all switches xi2_infos rest s1

  -- EventTransformer::RefreshDevices
  unfoldable pub refresh_devices : List Switch → S → Throws S
  unfolding refresh_all
  refresh_devices switches s =
      let (info, s1) = call api.list_input_devices s in
      let (xi2_info, s2) = call api.query_device s1 in refresh_all switches xi2_info info s2

  -- The constructor of EventTransformer.
  unfoldable pub construct : List Switch → W → R → Throws S
  unfolding refresh_devices
  construct switches w r = refresh_devices switches (initial w r)

  abbrev pub switch_with : Switch → T → RawEvent D → Data → S → Throws (Bool × (Data × S))
  switch_with Switch.pointer_key timestamp raw = Motion.switch_on_event env raw.evtype timestamp raw
  switch_with Switch.touch timestamp raw = Touch.switch_on_event env raw.evtype timestamp raw

  -- The switches in turn, until one handles the event.
  unfoldable pub switch_all : List Switch → T → RawEvent D → Data → S → Throws (Data × S)
  unfolding Motion.switch_on_event Touch.switch_on_event
  switch_all [] timestamp raw d s = returns (d, s)
  switch_all (w ∷ ws) timestamp raw d s = switch_with w timestamp raw d s >>= λ r.
      let rest = switch_all ws timestamp raw r.1.0 r.1.1 in if r.0 then returns r.1 else rest

  -- TransformEvent of an event with data.
  unfoldable pub transform_raw : EventType → List Switch → T → RawEvent D → S → Throws (Data × S)
  unfolding switch_all refresh_devices
  transform_raw EventType.device_changed switches timestamp raw s =
      refresh_devices switches s >>= λ s1. returns (Data.empty, s1)
  transform_raw EventType.hierarchy_changed switches timestamp raw s =
      refresh_devices switches s >>= λ s1. returns (Data.empty, s1)
  transform_raw _ switches timestamp raw s = switch_all switches timestamp raw Data.empty s

  -- EventTransformer::TransformEvent
  unfoldable pub transform_event : List Switch → InputEvent T D → S → Throws (Data × S)
  unfolding transform_raw
  transform_event switches event s = elim event.cookie [
    | none ↦ returns (Data.empty, s)
    | some raw ↦ transform_raw raw.evtype switches event.timestamp raw s
  ]

-- EventTransformerBuilder
pub record EventTransformerBuilder : Type 0 where
  pub has_pointer_key : Bool
  pub has_touch : Bool

abbrev pub new_builder : EventTransformerBuilder
new_builder = record { has_pointer_key = false; has_touch = false }

unfoldable pub with_pointer_key : EventTransformerBuilder → EventTransformerBuilder
with_pointer_key b = record b { has_pointer_key = true }

unfoldable pub with_touch : EventTransformerBuilder → EventTransformerBuilder
with_touch b = record b { has_touch = true }

-- EventTransformerBuilder::Build: the switches of the transformer, and `none` for the null pointer.
unfoldable pub build : EventTransformerBuilder → Option (List Switch)
build b =
    if b.has_pointer_key && b.has_touch
    then some (pointer_key ∷ touch ∷ [])
    else if b.has_pointer_key
    then some (pointer_key ∷ [])
    else if b.has_pointer_key && b.has_touch
    then some (touch ∷ [])
    else none

-- A transformer with pointer and keys has the touch switch if touch was asked for too. Without
-- pointer and keys the builder gives none, whether touch was asked for or not.
pub build-none :
    (b : EventTransformerBuilder)
    → build b ≡ (
        if b.has_pointer_key
        then some (pointer_key ∷ (if b.has_touch then touch ∷ [] else []))
        else none)
unfolding build
build-none b = go b.has_pointer_key b.has_touch
  where
    go :
        (p t : Bool)
        → build (record { has_pointer_key = p; has_touch = t })
          ≡ (if p then some (pointer_key ∷ (if t then touch ∷ [] else [])) else none)
    go true true = refl
    go true false = refl
    go false t = refl
