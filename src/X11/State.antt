-- ===== src/X11/State.antt =====
-- The members of `EventSwitch`, `EventSwitchPointerKey` and `EventTransformer`, evgetx11/include/evgetx11,
-- as one state. A method takes it and returns what it leaves; one that may throw returns `Throws`.
use evget.Prelude.{
  ℕ, ◌≡◌, ap, String, Bool, Option, none, some, Map, no_entries, insert, is_some, if◌then◌else◌,
  Throws, returns, throws, out_of_range, List,
}
use evget.Prelude.Int.{ℤ, pos, same_int}
use evget.Event.Enums.{DeviceType}
use evget.DeviceId.{DeviceId}
use evget.DeviceId
use evget.IntervalTracker.{IntervalTracker}
use evget.IntervalTracker
use evget.X11.Api.{RawEvent, ScrollClassInfo}

pub record InputEvent (T D : Type 0) : Type 0 where
  pub timestamp : T
  -- the cookie with its data
  pub cookie : Option (RawEvent D)

-- HasData
unfoldable pub has_data : {T D : Type 0} → InputEvent T D → Bool
has_data event = is_some event.cookie

pub record EventSwitch : Type 0 where
  pub button_map : Map ℤ (Map ℤ String)
  pub devices : Map ℤ DeviceType
  pub id_to_name : Map ℤ String
  pub device_ids : DeviceId ℤ
  pub pointer_id : ℤ

-- A missing optional of `valuator_x_` and `valuator_y_` reads as an empty one. The infos of a device
-- in `scroll_map_` are listed in the order in which they were added.
pub record EventSwitchPointerKey : Type 0 where
  pub scroll_map : Map ℤ (List (ℤ × ScrollClassInfo))
  pub valuator_x : Map ℤ ℤ
  pub valuator_y : Map ℤ ℤ
  pub pointer_id : ℤ

-- EventTransformer, with the states of the connection and of the generator of UUIDs.
pub record State (W R : Type 0) : Type 0 where
  pub event_switch : EventSwitch
  pub pointer_key : EventSwitchPointerKey
  pub devices : Map ℤ DeviceType
  pub id_to_name : Map ℤ String
  pub device_intervals : Map ℤ IntervalTracker
  pub pointer_id : Option ℤ
  pub server : W
  pub random : R

abbrev pub no_switch : EventSwitch
no_switch = record {
  button_map = no_entries;
  devices = no_entries;
  id_to_name = no_entries;
  device_ids = DeviceId.empty;
  pointer_id = pos 0;
}

abbrev pub no_pointer_key : EventSwitchPointerKey
no_pointer_key = record {
  scroll_map = no_entries;
  valuator_x = no_entries;
  valuator_y = no_entries;
  pointer_id = pos 0;
}

-- The members before the constructor's RefreshDevices.
abbrev pub initial : {W R : Type 0} → W → R → State W R
initial w r = record {
  event_switch = no_switch;
  pointer_key = no_pointer_key;
  devices = no_entries;
  id_to_name = no_entries;
  device_intervals = no_entries;
  pointer_id = none;
  server = w;
  random = r;
}

-- std::unordered_map::at
abbrev pub at : {V : Type 0} → Map ℤ V → ℤ → Throws V
at m k = elim (m k) [ none ↦ throws out_of_range | some v ↦ returns v ]

pub at-some : {V : Type 0} (m : Map ℤ V) (k : ℤ) (v : V) → m k ≡ some v → at m k ≡ returns v
at-some {V} m k v h =
    ap (λ o. elim o as (λ o'. Throws V) [ none ↦ throws out_of_range | some x ↦ returns x ]) h

pub at-none : {V : Type 0} (m : Map ℤ V) (k : ℤ) → m k ≡ none → at m k ≡ throws out_of_range
at-none {V} m k h =
    ap (λ o. elim o as (λ o'. Throws V) [ none ↦ throws out_of_range | some x ↦ returns x ]) h

-- std::unordered_map::emplace: a key that is there keeps its value.
abbrev pub emplace : {V : Type 0} → ℤ → V → Map ℤ V → Map ℤ V
emplace k v m = if is_some (m k) then m else insert same_int k v m

-- m[k] of a map of maps
abbrev pub inner_map : {V : Type 0} → Map ℤ (Map ℤ V) → ℤ → Map ℤ V
inner_map m k = elim (m k) [ none ↦ no_entries | some inner ↦ inner ]

module _ {W R : Type 0} where
  -- A call of the connection.
  abbrev pub call : {A : Type 0} → (W → A × W) → State W R → A × State W R
  call f s = let (x, w) = f s.server in (x, record s { server = w })

  abbrev pub tracker : State W R → ℤ → IntervalTracker
  tracker s id = elim (s.device_intervals id) [ none ↦ IntervalTracker.empty | some t ↦ t ]

  -- The `get_time` of TransformEvent.
  unfoldable pub get_time : ℤ → ℕ → State W R → Option ℤ × State W R
  unfolding IntervalTracker.interval
  get_time source_id time s =
      let (elapsed, t) = IntervalTracker.interval time (tracker s source_id) in
      (elapsed, record s { device_intervals = insert same_int source_id t s.device_intervals })
