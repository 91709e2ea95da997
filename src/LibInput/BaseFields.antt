-- ===== src/LibInput/BaseFields.antt =====
-- What `SetBaseFields` of evgetlibinput/include/evgetlibinput/event_transformer.h leaves in a builder.
use evget.Prelude.{ℕ, ◌≡◌, refl, String, List, [], ◌∷◌, Option}
use evget.Prelude.Int.{ℤ}
use evget.Event.Enums.{
  ModifierValue, shift, caps_lock, control, alt, num_lock, mod3, super, mod5, modifier_value_enum,
}
use evget.Event.Builder.{BuilderHasBaseFields}
use evget.Event.Modifiers.{AppendsModifiers, tested, set_tested, set_tested-append}
use evget.LibInput.Api.{
  Environment, XkbCommon, ModifierName, name_shift, name_caps, name_ctrl, name_alt, name_num,
  name_mod3, name_super, name_mod5,
}
use evget.IntervalTracker
use evget.LibInput.State.{
  tracker, set_modifier_values, set_base_fields, State, EventContext, event_source_name,
}

-- The modifiers of the keyboard and what they are called in an entry.
abbrev pub modifier_table : List (ModifierName × ModifierValue)
modifier_table =
    (name_shift, shift)
    ∷ (name_caps, caps_lock)
    ∷ (name_ctrl, control)
    ∷ (name_alt, alt)
    ∷ (name_num, num_lock)
    ∷ (name_mod3, mod3)
    ∷ (name_super, super)
    ∷ (name_mod5, mod5)
    ∷ []

module _ {X : Type 0} (xkb : XkbCommon X) where
  -- The texts of the modifiers that are active.
  unfoldable pub active : X → List String
  active x = tested (λ name. xkb.is_modifier_active name x) modifier_table

module _ {D T X R : Type 0} (env : Environment D T X R) {B : Type 0} (b : BuilderHasBaseFields T B)
    (law : AppendsModifiers b) where
  -- The active modifiers are appended, in the order of the table.
  pub set_modifier_values-append :
      (x : X) (builder : B)
      → set_modifier_values env ⦃b = b⦄ x builder ≡ law.append (active env.xkb x) builder
  unfolding set_modifier_values active set_tested
  set_modifier_values-append x builder =
      set_tested-append (λ name. env.xkb.is_modifier_active name x) b law modifier_table builder

  -- The fields that every entry of an event has, but for the modifiers.
  abbrev pub base_of : EventContext T → Option ℤ → B → B
  base_of ctx elapsed builder = b.event_source event_source_name (
      b.system_event ctx.system_event (
        b.device_id ctx.device_uuid (
          b.device_name ctx.device_name
            (b.device ctx.device_type (b.interval elapsed (b.timestamp ctx.timestamp builder))))))

  -- The time since the last event of the device.
  abbrev pub elapsed_of : EventContext T → ℕ → State D env.api.Device X R → Option ℤ
  elapsed_of ctx time s = (IntervalTracker.interval time (tracker env s ctx.device_uuid)).0

  pub set_base_fields-append :
      (ctx : EventContext T) (time : ℕ) (s : State D env.api.Device X R) (builder : B)
      → (set_base_fields env ⦃b = b⦄ ctx time s builder).0
        ≡ law.append (active env.xkb s.keyboard) (base_of ctx (elapsed_of ctx time s) builder)
  unfolding set_base_fields
  set_base_fields-append ctx time s builder =
      set_modifier_values-append s.keyboard (base_of ctx (elapsed_of ctx time s) builder)

  -- The other members of the transformer stay.
  pub set_base_fields-keyboard :
      (ctx : EventContext T) (time : ℕ) (s : State D env.api.Device X R) (builder : B)
      → (set_base_fields env ⦃b = b⦄ ctx time s builder).1.keyboard ≡ s.keyboard
  unfolding set_base_fields
  set_base_fields-keyboard ctx time s builder = refl
