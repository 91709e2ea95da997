-- ===== src/LibInput/State.antt =====
-- The state of evgetlibinput's `EventTransformer`, and its methods that write fields of a builder:
-- evgetlibinput/include/evgetlibinput/event_transformer.h and the end of
-- evgetlibinput/src/event_transformer.cpp. A method returns the builder and the new state.
use evget.Prelude.{
  ℕ, String, Bool, ◌&&◌, Option, none, some, Map, insert, erase, str_eq, if◌then◌else◌,
}
use evget.Prelude.Int.{ℤ, same_int}
use evget.Event.Enums.{
  DeviceType, ModifierValue, shift, caps_lock, control, alt, num_lock, mod3, super, mod5,
}
use evget.Event.Builder.{BuilderHasBaseFields, BuilderHasButtonName}
use evget.Event.MouseMove.{MouseMove, with_position_x, with_position_y}
use evget.IntervalTracker.{IntervalTracker}
use evget.IntervalTracker
use evget.DeviceId.{DeviceId}
use evget.LibInput.Api.{
  Environment, ModifierName, name_shift, name_caps, name_ctrl, name_alt, name_num, name_mod3,
  name_super, name_mod5,
}

-- The keys of `previous_touch_x_`, pairs of a UUID and a seat slot.
abbrev pub TouchKey : Type 0
TouchKey = String × ℤ

abbrev pub same_touch : TouchKey → TouchKey → Bool
same_touch (u, s) (v, t) = str_eq u v && same_int s t

-- EventTransformer's members, with the states of xkbcommon and of the generator of UUIDs.
pub record State (D Device X R : Type 0) : Type 0 where
  pub device_ids : DeviceId Device
  pub previous_absolute_x : Map String D
  pub previous_absolute_y : Map String D
  pub previous_touch_x : Map TouchKey D
  pub previous_touch_y : Map TouchKey D
  pub device_intervals : Map String IntervalTracker
  pub keyboard : X
  pub random : R

pub record EventContext (T : Type 0) : Type 0 where
  pub timestamp : T
  pub device_type : DeviceType
  pub device_name : String
  pub device_uuid : String
  pub system_event : String

abbrev pub event_source_name : String
event_source_name = "libinput"

module _ {D T X R : Type 0} (env : Environment D T X R) where
  open env use {api, xkb, subtract, event_code_name, width, height}

  abbrev pub S : Type 0
  S = State D api.Device X R

  -- One `if` of SetModifierValues.
  abbrev set_modifier :
      {B : Type 0} ⦃b : BuilderHasBaseFields T B⦄ → X → ModifierName → ModifierValue → B → B
  set_modifier ⦃b⦄ x name value builder =
      if xkb.is_modifier_active name x then b.modifier value builder else builder

  unfoldable pub set_modifier_values : {B : Type 0} ⦃b : BuilderHasBaseFields T B⦄ → X → B → B
  set_modifier_values ⦃b⦄ x builder = set_modifier x name_mod5 mod5 (
      set_modifier x name_super super (
        set_modifier x name_mod3 mod3 (
          set_modifier x name_num num_lock (
            set_modifier x name_alt alt (
              set_modifier x name_ctrl control
                (set_modifier x name_caps caps_lock (set_modifier x name_shift shift builder)))))))

  -- device_intervals_[uuid]: a missing tracker is made.
  abbrev pub tracker : S → String → IntervalTracker
  tracker s uuid = elim (s.device_intervals uuid) [ none ↦ IntervalTracker.empty | some t ↦ t ]

  unfoldable pub set_base_fields :
      {B : Type 0} ⦃b : BuilderHasBaseFields T B⦄ → EventContext T → ℕ → S → B → B × S
  unfolding set_modifier_values IntervalTracker.interval
  set_base_fields ⦃b⦄ ctx time s builder =
      let (elapsed, tracked) = IntervalTracker.interval time (tracker s ctx.device_uuid) in
      (
        set_modifier_values s.keyboard (
            b.event_source event_source_name (
              b.system_event ctx.system_event (
                b.device_id ctx.device_uuid (
                  b.device_name ctx.device_name (
                    b.device ctx.device_type
                      (b.interval elapsed (b.timestamp ctx.timestamp builder))))))),
        record s { device_intervals = insert str_eq ctx.device_uuid tracked s.device_intervals },
      )

  unfoldable pub set_button_name : {B : Type 0} ⦃b : BuilderHasButtonName B⦄ → ℕ → B → B
  set_button_name ⦃b⦄ code builder = elim (event_code_name code) [
    | none ↦ builder
    | some name ↦ b.button_name name builder
  ]

  -- The position of a builder, if both coordinates have a previous value.
  abbrev pub set_difference : Option D → Option D → D → D → MouseMove D T → MouseMove D T
  set_difference (some px) (some py) x y builder =
      with_position_y (subtract y py) (with_position_x (subtract x px) builder)
  set_difference _ _ x y builder = builder

  unfoldable pub set_relative_position :
      String → api.Pointer → S → MouseMove D T → MouseMove D T × S
  unfolding with_position_x with_position_y
  set_relative_position uuid pointer s builder =
      let x = api.get_pointer_absolute_x pointer width in
      let y = api.get_pointer_absolute_y pointer height in
      (
        set_difference (s.previous_absolute_x uuid) (s.previous_absolute_y uuid) x y builder,
        record s {
          previous_absolute_x = insert str_eq uuid x s.previous_absolute_x;
          previous_absolute_y = insert str_eq uuid y s.previous_absolute_y;
        },
      )

  unfoldable pub set_touch_relative_position :
      String → ℤ → api.Touch → S → MouseMove D T → MouseMove D T × S
  unfolding with_position_x with_position_y
  set_touch_relative_position uuid seat_slot touch s builder =
      let x = api.get_touch_x touch width in
      let y = api.get_touch_y touch height in
      let k : TouchKey = (uuid, seat_slot) in
      (
        set_difference (s.previous_touch_x k) (s.previous_touch_y k) x y builder,
        record s {
          previous_touch_x = insert same_touch k x s.previous_touch_x;
          previous_touch_y = insert same_touch k y s.previous_touch_y;
        },
      )

  unfoldable pub clear_touch_position : String → ℤ → S → S
  clear_touch_position uuid seat_slot s = record s {
    previous_touch_x = erase same_touch (uuid, seat_slot) s.previous_touch_x;
    previous_touch_y = erase same_touch (uuid, seat_slot) s.previous_touch_y;
  }
