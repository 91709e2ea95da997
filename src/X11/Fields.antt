-- ===== src/X11/Fields.antt =====
-- evgetx11/include/evgetx11/event_switch.h: what the shared methods leave in a builder, and what they
-- leave of the state.
use evget.Prelude.{ℕ, ◌≡◌, refl, ap, ◌∙◌, String, Option, none, some, List, [], ◌∷◌, returns, ◌>>=◌}
use evget.Prelude.Int.{ℤ, same_int, same_int_iff}
use evget.Event.Enums.{
  DeviceType, keyboard, ModifierValue, shift, caps_lock, control, alt, num_lock, mod3, super, mod5,
}
use evget.Event.Builder.{BuilderHasBaseFields, BuilderHasWindowFunctions, BuilderHasScreenFunction}
use evget.Event.Modifiers.{AppendsModifiers, tested, set_tested, set_tested-append}
use evget.DeviceId
use evget.DeviceId.Stability.{uuid-known, uuid-found}
use evget.X11.Api.{Environment, EventType, RawEvent, QueryPointerResult, XWindowDimensions, bit_set}
use evget.X11.State.{at-some, call, get_time}
use evget.X11.EventSwitch.{
  S, get_device, get_device_uuid, set_modifier_value, set_window_fields, set_device_name_fields,
  set_fields, set_fields_of, set_window_name, set_window_position, set_window_size,
  event_source_name, find_window,
}
use evget.X11.Outcomes.{Returning, Returning-step}

-- The masks of the modifiers, by their bit.
abbrev pub mask_table : List (ℕ × ModifierValue)
mask_table =
    (0, shift)
    ∷ (1, caps_lock)
    ∷ (2, control)
    ∷ (3, alt)
    ∷ (4, num_lock)
    ∷ (5, mod3)
    ∷ (6, super)
    ∷ (7, mod5)
    ∷ []

-- The texts of the modifiers whose bit is set.
unfoldable pub active : ℕ → List String
active effective = tested (bit_set effective) mask_table

-- The type that an entry names: keys are of a keyboard.
unfoldable pub device_of : EventType → DeviceType → DeviceType
device_of EventType.raw_key_press t = keyboard
device_of EventType.raw_key_release t = keyboard
device_of _ t = t

module _ {D T W R : Type 0} (env : Environment D T W R) where
  open env use {generate}

  -- The identifier that a device has or is going to be given.
  unfoldable pub uuid_of : ℤ → S env → String
  uuid_of id s = (DeviceId.uuid same_int generate id s.event_switch.device_ids s.random).0

  -- What a step for an event of the device `id` leaves as it is.
  pub record Kept (id : ℤ) (s s' : S env) : Type 0 where
    pub devices : s'.event_switch.devices ≡ s.event_switch.devices
    pub names : s'.event_switch.id_to_name ≡ s.event_switch.id_to_name
    pub pointer_key : s'.pointer_key ≡ s.pointer_key
    pub same_uuid : uuid_of id s' ≡ uuid_of id s

  pub Kept-refl : (id : ℤ) (s : S env) → Kept id s s
  Kept-refl id s = record { devices = refl; names = refl; pointer_key = refl; same_uuid = refl }

  pub Kept-trans : (id : ℤ) (s t u : S env) → Kept id s t → Kept id t u → Kept id s u
  Kept-trans id s t u h k = record {
    devices = k.devices ∙ h.devices;
    names = k.names ∙ h.names;
    pointer_key = k.pointer_key ∙ h.pointer_key;
    same_uuid = k.same_uuid ∙ h.same_uuid;
  }

  pub call-Kept : {A : Type 0} (id : ℤ) (f : W → A × W) (s : S env) → Kept id s (call f s).1
  unfolding uuid_of
  call-Kept id f s = record { devices = refl; names = refl; pointer_key = refl; same_uuid = refl }

  pub get_time-Kept : (id j : ℤ) (time : ℕ) (s : S env) → Kept id s (get_time j time s).1
  unfolding uuid_of get_time
  get_time-Kept id j time s = record {
    devices = refl;
    names = refl;
    pointer_key = refl;
    same_uuid = refl;
  }

  pub get_device_uuid-Kept : (id : ℤ) (s : S env) → Kept id s (get_device_uuid env id s).1
  unfolding uuid_of get_device_uuid
  get_device_uuid-Kept id s = record {
    devices = refl;
    names = refl;
    pointer_key = refl;
    same_uuid =
        uuid-found same_int generate id _ _ _
          (uuid-known same_int generate same_int_iff id s.event_switch.device_ids s.random);
  }

  pub get_device-known :
      (id : ℤ) (t : DeviceType) (type : EventType) (s : S env)
      → s.event_switch.devices id ≡ some t
      → get_device id type s ≡ returns (device_of type t)
  unfolding get_device device_of
  get_device-known id t EventType.raw_key_press s h = refl
  get_device-known id t EventType.raw_key_release s h = refl
  get_device-known id t _ s h = at-some s.event_switch.devices id t h

  module _ {B : Type 0} (b : BuilderHasBaseFields T B) where
    pub set_modifier_value-append :
        (law : AppendsModifiers b) (m : ℕ) (builder : B)
        → set_modifier_value env ⦃b = b⦄ m builder ≡ law.append (active m) builder
    unfolding set_modifier_value active set_tested
    set_modifier_value-append law m builder = set_tested-append (bit_set m) b law mask_table builder

    -- The base fields but for the name of the device.
    abbrev pub base_of : T → DeviceType → String → String → Option ℤ → B → B
    base_of date_time device id system_event elapsed builder = b.event_source event_source_name (
        b.system_event system_event
          (b.device_id id (b.device device (b.timestamp date_time (b.interval elapsed builder)))))

  -- A property of builders that the fields of the focused window do not touch.
  pub record WindowFree {B : Type 0} (w : BuilderHasWindowFunctions D B) (P : B → Type 0)
      : Type 0 where
    pub name : (x : String) (y : B) → P y → P (w.focus_window_name x y)
    pub position_x : (x : D) (y : B) → P y → P (w.focus_window_position_x x y)
    pub position_y : (x : D) (y : B) → P y → P (w.focus_window_position_y x y)
    pub width : (x : D) (y : B) → P y → P (w.focus_window_width x y)
    pub height : (x : D) (y : B) → P y → P (w.focus_window_height x y)

  module _ {B : Type 0} (w : BuilderHasWindowFunctions D B) (P : B → Type 0)
      (free : WindowFree w P) where
    set_window_name-keeps : (o : Option String) (y : B) → P y → P (set_window_name env ⦃w = w⦄ o y)
    set_window_name-keeps none y h = h
    set_window_name-keeps (some x) y h = free.name x y h

    set_window_position-keeps :
        (o : Option XWindowDimensions) (y : B) → P y → P (set_window_position env ⦃w = w⦄ o y)
    set_window_position-keeps none y h = h
    set_window_position-keeps (some d) y h = free.position_y _ _ (free.position_x _ y h)

    set_window_size-keeps :
        (o : Option XWindowDimensions) (y : B) → P y → P (set_window_size env ⦃w = w⦄ o y)
    set_window_size-keeps none y h = h
    set_window_size-keeps (some d) y h = free.height _ _ (free.width _ y h)

    pub set_fields_of-keeps :
        (id : ℤ) (o : Option ℕ) (y : B) (s : S env)
        → P y
        → P (set_fields_of env ⦃w = w⦄ o y s).0 × Kept id s (set_fields_of env ⦃w = w⦄ o y s).1
    unfolding uuid_of
    set_fields_of-keeps id none y s h = (h, Kept-refl id s)
    set_fields_of-keeps id (some window) y s h = (
      set_window_size-keeps _ _ (set_window_position-keeps _ _ (set_window_name-keeps _ y h)),
      record { devices = refl; names = refl; pointer_key = refl; same_uuid = refl },
    )

    find_window-Kept : (id : ℤ) (s : S env) → Kept id s (find_window env s).1
    find_window-Kept id s = go (env.api.get_active_window s.server).0 refl
      where
        go :
            (o : Option ℕ)
            → (env.api.get_active_window s.server).0 ≡ o
            → Kept id s (find_window env s).1
        go none e =
            rw (find_window, e)
              (Kept-trans id s _ _ (call-Kept id env.api.get_active_window s)
                (call-Kept id env.api.get_focus_window _))
        go (some window) e = rw (find_window, e) (call-Kept id env.api.get_active_window s)

    pub set_window_fields-keeps :
        (id : ℤ) (y : B) (s : S env)
        → P y
        → P (set_window_fields env ⦃w = w⦄ y s).0 × Kept id s (set_window_fields env ⦃w = w⦄ y s).1
    unfolding set_window_fields
    set_window_fields-keeps id y s h =
        let r = set_fields_of-keeps id (find_window env s).0 y (find_window env s).1 h in
        (r.0, Kept-trans id s _ _ (find_window-Kept id s) r.1)

  module _ {B : Type 0} (b : BuilderHasBaseFields T B) (w : BuilderHasWindowFunctions D B)
      (c : BuilderHasScreenFunction B) where
    set_device_name_fields-known :
        (event : RawEvent D) (screen : ℤ) (y : B) (s : S env) (name : String)
        → s.event_switch.id_to_name event.sourceid ≡ some name
        → set_device_name_fields env ⦃b = b⦄ ⦃w = w⦄ ⦃c = c⦄ event screen y s
          ≡ returns (c.screen screen (b.device_name name y))
    unfolding set_device_name_fields
    set_device_name_fields-known event screen y s name h =
        ap (λ r. r >>= λ n. returns (c.screen screen (b.device_name n y)))
          (at-some s.event_switch.id_to_name event.sourceid name h)

    -- The fields are set for a device that is known, and `P` holds of the builder if it holds of
    -- one with the base fields, the modifiers, the screen and the name of the device.
    pub set_fields-keeps :
        (P : B → Type 0) (event : RawEvent D) (date_time : T) (system_event : String)
        (q : QueryPointerResult D) (y : B) (s : S env) (t : DeviceType) (name : String)
        → s.event_switch.devices event.sourceid ≡ some t
        → s.event_switch.id_to_name event.sourceid ≡ some name
        → WindowFree w (λ x. P (c.screen q.screen_number (b.device_name name x)))
        → ((elapsed : Option ℤ)
            → P (
                c.screen q.screen_number (
                  b.device_name name (
                    set_modifier_value env ⦃b = b⦄ q.effective (
                      base_of b date_time
                        (device_of event.evtype t)
                        (uuid_of event.sourceid s)
                        system_event
                        elapsed
                        y)))))
        → Returning
            (λ r. P r.0 × Kept event.sourceid s r.1)
            (set_fields env ⦃b = b⦄ ⦃w = w⦄ ⦃c = c⦄ event date_time system_event q y s)
    unfolding set_fields uuid_of get_time get_device_uuid
    set_fields-keeps P event date_time system_event q y s t name h k free start =
        let id = event.sourceid in
        let s1 = (get_time id event.time s).1 in
        let s2 = (get_device_uuid env id s1).1 in
        let based = set_modifier_value env ⦃b = b⦄ q.effective (
          base_of b date_time (device_of event.evtype t) (uuid_of event.sourceid s) system_event
            (get_time id event.time s).0 y) in
        let windowed =
          set_window_fields-keeps w (λ x. P (c.screen q.screen_number (b.device_name name x))) free
            id based s2 (start _) in
        let kept =
          Kept-trans id s s2 _
            (Kept-trans id s s1 s2 (get_time-Kept id id event.time s) (get_device_uuid-Kept id s1))
            windowed.1 in
        let settled : B × S env → Type 0 = λ r. P r.0 × Kept id s r.1 in
        let left = (set_window_fields env ⦃w = w⦄ based s2).1 in
        Returning-step settled (get_device id event.evtype s1) (device_of event.evtype t) _
          (get_device-known id t event.evtype s1 h)
          (Returning-step settled _ _ (λ x. returns (x, left))
            (set_device_name_fields-known event q.screen_number _ left name
              (ap (λ m. m id) kept.names ∙ k))
            (windowed.0, kept))
