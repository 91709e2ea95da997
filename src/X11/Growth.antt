-- ===== src/X11/Growth.antt =====
-- `RefreshDevices` of evgetx11: a device that the event switch knows keeps its type, and every device
-- that it knows has a name.
use mathlib.Core.Path.{subst}
use evget.Prelude.{
  ℕ, ◌≡◌, refl, ap, sym, ◌∙◌, ◌⊎◌, inl, inr, String, Bool, true, false, ◌&&◌, not, Option, none,
  some, List, [], ◌∷◌, Map, insert, is_some, length, ◌==◌, Bool-cases, Option-cases, if◌then◌else◌,
  Throws, returns, throws, arith,
}
use evget.Prelude.Int.{ℤ, same_int, same_int_iff, same_int_refl}
use evget.Event.Enums.{DeviceType}
use evget.X11.Api.{Environment, XDeviceInfo, Xi2DeviceInfo, ValuatorClassInfo}
use evget.X11.State.{EventSwitch, emplace, call}
use evget.X11.EventSwitch.{
  S, set_pointer_id, map_buttons, name_mapped, name_buttons, set_button_map, find_buttons,
}
use evget.X11.EventSwitch
use evget.X11.Refresh.{
  add_valuators, add_scrolls, scroll_infos, valuator_infos, set_pointer, set_axis,
}
use evget.X11.Refresh
use evget.X11.Touch
use evget.X11.Transformer.{
  Switch, refresh_switch, refresh_switches, add_typed, add_device, at_xi2, refresh_device,
  refresh_all, refresh_devices, numeric_cast, type_of_name,
}
use evget.X11.Outcomes.{WhenReturned, WhenReturned-bind}

module _ {V : Type 0} (k : ℤ) (v : V) (m : Map ℤ V) where
  insert-here : insert same_int k v m k ≡ some v
  insert-here = rw (same_int_refl k) refl

  -- A key that is there stays with its value.
  pub emplace-keeps : (j : ℤ) (t : V) → m j ≡ some t → emplace k v m j ≡ some t
  emplace-keeps j t h = elim (Option-cases (m k)) [
    | inr (x, e) ↦ rw e h
    | inl e ↦ rw e (elim (Bool-cases (same_int k j)) [
      | inl y ↦ ground (arith, sym h ∙ sym (ap m ((same_int_iff k j).0 y)) ∙ e)
      | inr n ↦ rw n h
    ])
  ]

  pub emplace-there : (x : V) × (emplace k v m k ≡ some x)
  emplace-there = elim (Option-cases (m k)) [
    | inr (x, e) ↦ (x, rw e e)
    | inl e ↦ (v, rw e insert-here)
  ]

  -- Only the given key can be new.
  pub emplace-new : (j : ℤ) (t : V) → emplace k v m j ≡ some t → (m j ≡ some t) ⊎ (k ≡ j)
  emplace-new j t h = elim (Bool-cases (same_int k j)) [
    | inl y ↦ inr ((same_int_iff k j).0 y)
    | inr n ↦ inl (go (m k) refl n h)
  ]
    where
      go :
          (o : Option V)
          → m k ≡ o
          → same_int k j ≡ false
          → (if is_some o then m else insert same_int k v m) j ≡ some t
          → m j ≡ some t
      go (some x) e n h = h
      go none e n h = ground (arith, h, n)

module _ {D T W R : Type 0} (env : Environment D T W R) where
  -- Every device that the event switch knows has a name there.
  abbrev pub Named : S env → Type 0
  Named s =
      (id : ℤ) (t : DeviceType)
      → s.event_switch.devices id ≡ some t
      → (n : String) × (s.event_switch.id_to_name id ≡ some n)

  -- What a step does to the devices that the event switch knows.
  pub record Grown (s s' : S env) : Type 0 where
    pub keeps :
        (id : ℤ) (t : DeviceType)
        → s.event_switch.devices id ≡ some t
        → s'.event_switch.devices id ≡ some t
    pub names : Named s → Named s'

  pub Grown-refl : (s : S env) → Grown s s
  Grown-refl s = record { keeps = λ id t h. h; names = λ h. h }

  pub Grown-trans : (s t u : S env) → Grown s t → Grown t u → Grown s u
  Grown-trans s t u h k = record {
    keeps = λ id type e. k.keeps id type (h.keeps id type e);
    names = λ n. k.names (h.names n);
  }

  pub Grown-same :
      (s s' : S env)
      → s'.event_switch.devices ≡ s.event_switch.devices
      → s'.event_switch.id_to_name ≡ s.event_switch.id_to_name
      → Grown s s'
  Grown-same s s' h k = record {
    keeps = λ id t e. ap (λ m. m id) h ∙ e;
    names = λ n id t e.
        let (name, named) = n id t (ap (λ m. m id) (sym h) ∙ e) in (name, ap (λ m. m id) k ∙ named);
  }

  call-Grown : {A : Type 0} (f : W → A × W) (s : S env) → Grown s (call f s).1
  call-Grown f s = Grown-same s (call f s).1 refl refl

  name_buttons-Grown :
      (id : ℤ) (labels map : List ℕ) (s : S env) → Grown s (name_buttons env id labels map s)
  unfolding name_buttons
  name_buttons-Grown id [] map s = Grown-refl s
  name_buttons-Grown id (label ∷ labels) [] s = Grown-refl s
  name_buttons-Grown id (label ∷ labels) (b ∷ map) s = elim (Bool-cases (label == 0)) [
    | inl y ↦
        rw y (Grown-trans s _ _ (Grown-same s _ refl refl) (name_buttons-Grown id labels map _))
    | inr n ↦
        rw n (Grown-trans s _ _ (Grown-same s _ refl refl) (name_buttons-Grown id labels map _))
  ]

  name_mapped-Grown :
      (id : ℤ) (labels : List ℕ) (o : Option (List ℕ)) (s : S env)
      → Grown s (name_mapped env id labels o s)
  name_mapped-Grown id labels none s = Grown-refl s
  name_mapped-Grown id labels (some map) s = name_buttons-Grown id labels map s

  map_buttons-Grown : (o : Option (List ℕ)) (id : ℤ) (s : S env) → Grown s (map_buttons env o id s)
  unfolding set_button_map
  map_buttons-Grown none id s = Grown-refl s
  map_buttons-Grown (some []) id s = Grown-refl s
  map_buttons-Grown (some (l ∷ ls)) id s =
      let ask = env.api.get_device_button_mapping id (length (l ∷ ls)) in
      Grown-trans s (call ask s).1 _ (call-Grown ask s)
        (name_mapped-Grown id (l ∷ ls) (call ask s).0 (call ask s).1)

  set_pointer_id-devices :
      (o : Option ℤ) (e : EventSwitch) → (set_pointer_id env o e).devices ≡ e.devices
  set_pointer_id-devices none e = refl
  set_pointer_id-devices (some id) e = refl

  set_pointer_id-names :
      (o : Option ℤ) (e : EventSwitch) → (set_pointer_id env o e).id_to_name ≡ e.id_to_name
  set_pointer_id-names none e = refl
  set_pointer_id-names (some id) e = refl

  emplaced-Grown :
      (k : ℤ) (t : DeviceType) (name : String) (s : S env) (e : EventSwitch)
      → Grown
          (record s { event_switch = e })
          (record s {
            event_switch = record e {
              devices = emplace k t e.devices;
              id_to_name = emplace k name e.id_to_name;
            };
          })
  emplaced-Grown k t name s e = record {
    keeps = emplace-keeps k t e.devices;
    names = λ n id u h. elim (emplace-new k t e.devices id u h) [
      | inl old ↦ let (x, p) = n id u old in (x, emplace-keeps k name e.id_to_name id x p)
      | inr here ↦
          subst (λ j. (x : String) × (emplace k name e.id_to_name j ≡ some x)) here
            (emplace-there k name e.id_to_name)
    ];
  }

  switch-refresh-Grown :
      (id : ℤ) (o : Option ℤ) (t : DeviceType) (name : String) (info : Xi2DeviceInfo) (s : S env)
      → Grown s (EventSwitch.refresh_devices env id o t name info s)
  unfolding EventSwitch.refresh_devices
  switch-refresh-Grown id o t name info s =
      let e = set_pointer_id env o s.event_switch in
      Grown-trans s (record s { event_switch = e }) _
        (Grown-same s _ (set_pointer_id-devices o s.event_switch)
          (set_pointer_id-names o s.event_switch))
        (Grown-trans (record s { event_switch = e }) (emplaced s) _ (emplaced-Grown id t name s e)
          (map_buttons-Grown (find_buttons env info.classes) info.deviceid (emplaced s)))
    where
      emplaced : S env → S env
      emplaced u =
          let e = set_pointer_id env o u.event_switch in
          record u {
            event_switch = record e {
              devices = emplace id t e.devices;
              id_to_name = emplace id name e.id_to_name;
            };
          }

  add_valuators-Grown :
      (id : ℤ) (infos : List ValuatorClassInfo) (s : S env) → Grown s (add_valuators env id infos s)
  unfolding add_valuators
  add_valuators-Grown id [] s = Grown-refl s
  add_valuators-Grown id (info ∷ infos) s =
      let ask = env.api.atom_name info.label in
      let s1 = (call ask s).1 in
      let s2 = record s1 {
        pointer_key = set_axis env id info.number (call ask s).0 s1.pointer_key;
      } in
      Grown-trans s s2 _ (Grown-same s s2 refl refl) (add_valuators-Grown id infos s2)

  refresh_switch-Grown :
      (w : Switch) (id : ℤ) (o : Option ℤ) (t : DeviceType) (name : String) (info : Xi2DeviceInfo)
      (s : S env)
      → Grown s (refresh_switch env w id o t name info s)
  unfolding Refresh.refresh_devices Touch.refresh_devices
  refresh_switch-Grown Switch.pointer_key id o t name info s =
      let s1 = EventSwitch.refresh_devices env id o t name info s in
      let p =
        add_scrolls env id (scroll_infos env info.classes) (set_pointer env o s1.pointer_key) in
      let s2 = record s1 { pointer_key = p } in
      Grown-trans s s1 _ (switch-refresh-Grown id o t name info s) (
        Grown-trans s1 s2 _ (Grown-same s1 s2 refl refl)
          (add_valuators-Grown id (valuator_infos env info.classes) s2))
  refresh_switch-Grown Switch.touch id o t name info s = Grown-refl s

  refresh_switches-Grown :
      (ws : List Switch) (id : ℤ) (t : DeviceType) (name : String) (info : Xi2DeviceInfo)
      (s : S env)
      → Grown s (refresh_switches env ws id t name info s)
  unfolding refresh_switches
  refresh_switches-Grown [] id t name info s = Grown-refl s
  refresh_switches-Grown (w ∷ ws) id t name info s =
      let s1 = refresh_switch env w id s.pointer_id t name info s in
      Grown-trans s s1 _ (refresh_switch-Grown w id s.pointer_id t name info s)
        (refresh_switches-Grown ws id t name info s1)

  add_typed-Grown :
      (ws : List Switch) (id : ℤ) (device : XDeviceInfo) (info : Xi2DeviceInfo) (o : Option String)
      (s : S env)
      → WhenReturned (Grown s) (add_typed env ws id device info o s)
  unfolding add_typed
  add_typed-Grown ws id device info none s = tt
  add_typed-Grown ws id device info (some type) s =
      let device_type = type_of_name env type in
      let s1 = record s {
        devices = emplace id device_type s.devices;
        id_to_name = emplace id device.name s.id_to_name;
      } in
      Grown-trans s s1 _ (Grown-same s s1 refl refl)
        (refresh_switches-Grown ws id device_type device.name info s1)

  if-Grown :
      (b : Bool) (s : S env) (x : Throws (S env))
      → WhenReturned (Grown s) x
      → WhenReturned (Grown s) (if b then x else returns s)
  if-Grown true s x h = h
  if-Grown false s x h = Grown-refl s

  from-Grown :
      (s t : S env) (x : Throws (S env))
      → Grown s t
      → WhenReturned (Grown t) x
      → WhenReturned (Grown s) x
  from-Grown s t (returns u) h k = Grown-trans s t u h k
  from-Grown s t (throws e) h k = tt

  refresh_device-Grown :
      (ws : List Switch) (infos : List Xi2DeviceInfo) (device : XDeviceInfo) (s : S env)
      → WhenReturned (Grown s) (refresh_device env ws infos device s)
  unfolding refresh_device add_device
  refresh_device-Grown ws infos device s =
      WhenReturned-bind (λ id. Unit) (Grown s) (numeric_cast device.id) _ (always _)
        λ id u.
          WhenReturned-bind (λ info. Unit) (Grown s) (at_xi2 env infos id) _ (always _)
            λ info v.
              let s1 = if device.is_x_pointer then record s { pointer_id = some id } else s in
              let ask = env.api.atom_name device.type in
              from-Grown s s1 _ (pointer device.is_x_pointer id) (
                if-Grown (info.enabled && not (device.type == 0)) s1
                  (add_typed env ws id device info (call ask s1).0 (call ask s1).1)
                  (from-Grown s1 (call ask s1).1 _ (call-Grown ask s1)
                    (add_typed-Grown ws id device info (call ask s1).0 (call ask s1).1)))
    where
      always : {A : Type 0} (x : Throws A) → WhenReturned (λ a. Unit) x
      always (returns a) = tt
      always (throws e) = tt

      pointer : (b : Bool) (id : ℤ) → Grown s (if b then record s { pointer_id = some id } else s)
      pointer true id = Grown-same s _ refl refl
      pointer false id = Grown-refl s

  refresh_all-Grown :
      (ws : List Switch) (infos : List Xi2DeviceInfo) (devices : List XDeviceInfo) (s : S env)
      → WhenReturned (Grown s) (refresh_all env ws infos devices s)
  unfolding refresh_all
  refresh_all-Grown ws infos [] s = Grown-refl s
  refresh_all-Grown ws infos (device ∷ devices) s =
      WhenReturned-bind (Grown s) (Grown s) (refresh_device env ws infos device s)
        (λ t. refresh_all env ws infos devices t) (refresh_device-Grown ws infos device s)
        λ t h. from-Grown s t _ h (refresh_all-Grown ws infos devices t)

  -- `RefreshDevices`: known devices keep their type, and names stay complete.
  pub refresh_devices-Grown :
      (ws : List Switch) (s : S env) → WhenReturned (Grown s) (refresh_devices env ws s)
  unfolding refresh_devices
  refresh_devices-Grown ws s =
      let s1 = (call env.api.list_input_devices s).1 in
      let s2 = (call env.api.query_device s1).1 in
      from-Grown s s2 _ (Grown-same s s2 refl refl) (
        refresh_all-Grown ws (call env.api.query_device s1).0 (call env.api.list_input_devices s).0
          s2)
