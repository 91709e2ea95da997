-- ===== src/LibInput/Provenance.antt =====
-- Where the entries of evgetlibinput/src/event_transformer.cpp come from: every entry carries the
-- time, the device and the active modifiers of the event that made it.
use mathlib.Core.Path.{subst}
use evget.Prelude.{ℕ, refl, sym, String, List}
use evget.Event.Format.{Formats}
use evget.Event.Entry.{Entry}
use evget.Event.Modifiers.{
  key_appends, mouse_click_appends, mouse_move_appends, mouse_scroll_appends,
}
use evget.Event.Origin
use evget.Event.Origin.{Origin, CarriesOrigin}
use evget.Event.Key
use evget.Event.Key.{Key, key_base_fields}
use evget.Event.MouseClick
use evget.Event.MouseClick.{MouseClick, mouse_click_base_fields}
use evget.Event.MouseMove
use evget.Event.MouseMove.{MouseMove, mouse_move_base_fields}
use evget.Event.MouseScroll
use evget.Event.MouseScroll.{MouseScroll, mouse_scroll_base_fields}
use evget.LibInput.Api.{Environment}
use evget.LibInput.State.{set_base_fields, State, EventContext, event_source_name}
use evget.LibInput.BaseFields.{active, set_base_fields-append}

-- The context of an event as the origin of its entries.
abbrev pub origin_of : {T : Type 0} → EventContext T → Origin T
origin_of ctx = record {
  timestamp = ctx.timestamp;
  device_name = ctx.device_name;
  device_id = ctx.device_uuid;
  system_event = ctx.system_event;
  event_source = event_source_name;
  device_type = ctx.device_type;
}

-- The values of an entry that tell its event, and its modifiers.
abbrev pub Provenance : {D T : Type 0} → Formats D T → EventContext T → List String → Entry → Type 0
Provenance formats ctx = CarriesOrigin formats (origin_of ctx)

abbrev pub KeyBased : {D T : Type 0} → EventContext T → List String → Key D T → Type 0
KeyBased ctx = Origin.KeyBased (origin_of ctx)

abbrev pub MouseClickBased : {D T : Type 0} → EventContext T → List String → MouseClick D T → Type 0
MouseClickBased ctx = Origin.MouseClickBased (origin_of ctx)

abbrev pub MouseMoveBased : {D T : Type 0} → EventContext T → List String → MouseMove D T → Type 0
MouseMoveBased ctx = Origin.MouseMoveBased (origin_of ctx)

abbrev pub MouseScrollBased :
    {D T : Type 0} → EventContext T → List String → MouseScroll D T → Type 0
MouseScrollBased ctx = Origin.MouseScrollBased (origin_of ctx)

module _ {D T X R : Type 0} (env : Environment D T X R) (ctx : EventContext T) (time : ℕ)
    (s : State D env.api.Device X R) where
  pub key-Based :
      KeyBased {D = D} ctx (active env.xkb s.keyboard) (set_base_fields env ctx time s Key.empty).0
  unfolding key_appends Key.with_interval_optional Key.with_timestamp Key.with_device
      Key.with_device_name Key.with_device_id Key.with_system_event Key.with_event_source
  key-Based =
      subst (KeyBased {D = D} ctx (active env.xkb s.keyboard))
        (sym (set_base_fields-append env key_base_fields key_appends ctx time s Key.empty))
        (refl, refl, refl, refl, refl, refl, refl)

  pub mouse_click-Based :
      MouseClickBased {D = D} ctx
        (active env.xkb s.keyboard)
        (set_base_fields env ctx time s MouseClick.empty).0
  unfolding mouse_click_appends MouseClick.with_interval_optional MouseClick.with_timestamp
      MouseClick.with_device MouseClick.with_device_name MouseClick.with_device_id
      MouseClick.with_system_event MouseClick.with_event_source
  mouse_click-Based =
      subst (MouseClickBased {D = D} ctx (active env.xkb s.keyboard))
        (sym (
          set_base_fields-append env mouse_click_base_fields mouse_click_appends ctx time s
            MouseClick.empty))
        (refl, refl, refl, refl, refl, refl, refl)

  pub mouse_move-Based :
      MouseMoveBased {D = D} ctx
        (active env.xkb s.keyboard)
        (set_base_fields env ctx time s MouseMove.empty).0
  unfolding mouse_move_appends MouseMove.with_interval_optional MouseMove.with_timestamp
      MouseMove.with_device MouseMove.with_device_name MouseMove.with_device_id
      MouseMove.with_system_event MouseMove.with_event_source
  mouse_move-Based =
      subst (MouseMoveBased {D = D} ctx (active env.xkb s.keyboard))
        (sym (
          set_base_fields-append env mouse_move_base_fields mouse_move_appends ctx time s
            MouseMove.empty))
        (refl, refl, refl, refl, refl, refl, refl)

  pub mouse_scroll-Based :
      MouseScrollBased {D = D} ctx
        (active env.xkb s.keyboard)
        (set_base_fields env ctx time s MouseScroll.empty).0
  unfolding mouse_scroll_appends MouseScroll.with_interval_optional MouseScroll.with_timestamp
      MouseScroll.with_device MouseScroll.with_device_name MouseScroll.with_device_id
      MouseScroll.with_system_event MouseScroll.with_event_source
  mouse_scroll-Based =
      subst (MouseScrollBased {D = D} ctx (active env.xkb s.keyboard))
        (sym (
          set_base_fields-append env mouse_scroll_base_fields mouse_scroll_appends ctx time s
            MouseScroll.empty))
        (refl, refl, refl, refl, refl, refl, refl)
