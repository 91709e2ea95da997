-- ===== src/LibInput/Motion.antt =====
-- Positions of absolute motions of evgetlibinput/src/event_transformer.cpp: the difference to the last
-- absolute motion of the same device.
use mathlib.Core.Path.{subst}
use evget.Prelude.{
  ◌≡◌, refl, sym, ap, ◌∙◌, String, Bool, true, false, Option, none, some, List, [], ◌∷◌, map,
  get_elem?, Map, eq_refl, arith,
}
use evget.Event.Format.{from_double}
use evget.Event.Data.{Data, add_entry}
use evget.Event.Data
use evget.Event.MouseMove
use evget.Event.MouseMove.{MouseMove, mouse_move_base_fields}
use evget.DeviceId.Stability.{Decides}
use evget.LibInput.Api.{Environment, EventType}
use evget.LibInput.State.{EventContext, set_relative_position, set_base_fields}
use evget.LibInput.Handlers
use evget.LibInput.Transformer.{transform_event, transform_from, switch_on_type, named}
use evget.LibInput.Runs.{S, Input, run, uuid_of, transform_from-Follows}
use evget.LibInput.Frames.{next_absolute}
use evget.LibInput.Devices.{StemsFrom, transform_event-from, uuid_of-run, transform_event-cases}

abbrev pub is_absolute : EventType → Bool
is_absolute EventType.pointer_motion_absolute = true
is_absolute _ = false

-- The text of the position in each entry.
abbrev pub positions : Data → List (Option String × Option String)
positions d = map (λ e. (get_elem? e.values 2, get_elem? e.values 3)) d.entries

module _ {D T X R : Type 0} (env : Environment D T X R) where
  open env use {api, formats, subtract, width, height}

  abbrev NotAbsolute : Option api.Event → Type 0
  NotAbsolute none = Unit
  NotAbsolute (some event) = is_absolute (api.get_event_type event) ≡ false

  -- No event of a sequence is an absolute motion.
  abbrev pub NoAbsolute : List (Input env) → Type 0
  NoAbsolute [] = Unit
  NoAbsolute (e ∷ es) = NotAbsolute e.view_data × NoAbsolute es

  abbrev pub absolute_x : api.Event → D
  absolute_x event = api.get_pointer_absolute_x (api.get_pointer_event event) width

  abbrev pub absolute_y : api.Event → D
  absolute_y event = api.get_pointer_absolute_y (api.get_pointer_event event) height

  next_absolute-quiet :
      (t : EventType) (event : api.Event) (u : String) (f : api.Pointer → D) (m : Map String D)
      → is_absolute t ≡ false
      → next_absolute env t event u f m ≡ m
  next_absolute-quiet EventType.pointer_motion_absolute event u f m h = ground arith
  next_absolute-quiet _ event u f m h = refl

  next_absolute-here :
      (t : EventType) (event : api.Event) (u : String) (f : api.Pointer → D) (m : Map String D)
      → t ≡ EventType.pointer_motion_absolute
      → next_absolute env t event u f m u ≡ some (f (api.get_pointer_event event))
  next_absolute-here t event u f m h = rw (h, eq_refl u) refl

  -- The last absolute position of a device is (x, y).
  abbrev LastAt : String → D → D → S env → Type 0
  LastAt u x y s = (s.previous_absolute_x u ≡ some x) × (s.previous_absolute_y u ≡ some y)

  LastAt-quiet :
      (e : Input env) (u : String) (x y : D) (s : S env)
      → NotAbsolute e.view_data
      → LastAt u x y s
      → LastAt u x y (transform_event env e s).1
  LastAt-quiet e u x y s quiet h = transform_event-cases env (LastAt u x y) e s h λ inner device v.
      let f = transform_from-Follows env e.timestamp inner device s in
      let q = subst NotAbsolute v quiet in
      (
        ap (λ m. m u) (f.3 ∙ next_absolute-quiet _ inner _ _ _ q) ∙ h.0,
        ap (λ m. m u) (f.4 ∙ next_absolute-quiet _ inner _ _ _ q) ∙ h.1,
      )

  run-LastAt :
      (es : List (Input env)) (u : String) (x y : D) (s : S env)
      → NoAbsolute es
      → LastAt u x y s
      → LastAt u x y (run env es s)
  unfolding run
  run-LastAt [] u x y s quiet h = h
  run-LastAt (e ∷ es) u x y s quiet h =
      run-LastAt es u x y (transform_event env e s).1 quiet.1 (LastAt-quiet e u x y s quiet.0 h)

  transform_event-LastAt :
      (e : Input env) (inner : api.Event) (device : api.Device) (s : S env)
      → StemsFrom env e inner device
      → api.get_event_type inner ≡ EventType.pointer_motion_absolute
      → LastAt
          (uuid_of env device s)
          (absolute_x inner)
          (absolute_y inner)
          (transform_event env e s).1
  transform_event-LastAt e inner device s from t =
      let f = transform_from-Follows env e.timestamp inner device s in
      let whole = transform_event-from env e inner device s from in
      let u = uuid_of env device s in
      (
        ap (λ r. r.1.previous_absolute_x u) whole
            ∙ ap (λ m. m u) f.3
            ∙ next_absolute-here _ inner u _ _ t,
        ap (λ r. r.1.previous_absolute_y u) whole
            ∙ ap (λ m. m u) f.4
            ∙ next_absolute-here _ inner u _ _ t,
      )

  -- The entry of an absolute motion after a known position.
  motion-positions :
      (ctx : EventContext T) (event : api.Event) (x y : D) (s : S env)
      → LastAt ctx.device_uuid x y s
      → positions (Handlers.pointer_motion_absolute env ctx event s Data.empty).0
        ≡ (
          some (from_double formats (some (subtract (absolute_x event) x))),
          some (from_double formats (some (subtract (absolute_y event) y))),
        )
          ∷ []
  unfolding Handlers.pointer_motion_absolute set_relative_position set_base_fields MouseMove.build
      add_entry MouseMove.with_position_x MouseMove.with_position_y
  motion-positions ctx event x y s h = rw (h.0, h.1) refl

  switch-positions :
      (t : EventType) (ctx : EventContext T) (event : api.Event) (x y : D) (s : S env)
      → t ≡ EventType.pointer_motion_absolute
      → LastAt ctx.device_uuid x y s
      → positions (switch_on_type env t ctx event s Data.empty).0
        ≡ (
          some (from_double formats (some (subtract (absolute_x event) x))),
          some (from_double formats (some (subtract (absolute_y event) y))),
        )
          ∷ []
  unfolding switch_on_type
  switch-positions t ctx event x y s e h =
      rw e (motion-positions (named env ctx "LIBINPUT_EVENT_POINTER_MOTION_ABSOLUTE") event x y s h)

  -- An absolute motion of a device, then any events of any devices that are not absolute motions,
  -- then another absolute motion of the device: the transformer gives the second motion one entry,
  -- whose position is the difference between the two absolute positions.
  pub absolute_motion-difference :
      (decides : Decides api.same_device) (device : api.Device) (e1 e2 : Input env)
      (inner1 inner2 : api.Event) (es : List (Input env)) (s : S env)
      → StemsFrom env e1 inner1 device
      → api.get_event_type inner1 ≡ EventType.pointer_motion_absolute
      → NoAbsolute es
      → StemsFrom env e2 inner2 device
      → api.get_event_type inner2 ≡ EventType.pointer_motion_absolute
      → positions (transform_event env e2 (run env es (transform_event env e1 s).1)).0
        ≡ (
          some (from_double formats (some (subtract (absolute_x inner2) (absolute_x inner1)))),
          some (from_double formats (some (subtract (absolute_y inner2) (absolute_y inner1)))),
        )
          ∷ []
  unfolding transform_from switch_on_type
  absolute_motion-difference decides device e1 e2 inner1 inner2 es s from1 t1 quiet from2 t2 =
      let s2 = run env es (transform_event env e1 s).1 in
      let u = uuid_of env device s in
      let last =
        run-LastAt es u (absolute_x inner1) (absolute_y inner1) (transform_event env e1 s).1 quiet
          (transform_event-LastAt e1 inner1 device s from1 t1) in
      let known = uuid_of-run env decides e1 inner1 device s es from1 in
      ap (λ r. positions r.0) (transform_event-from env e2 inner2 device s2 from2)
      ∙ switch-positions _ _ inner2 (absolute_x inner1) (absolute_y inner1) _ t2
          (subst (λ v. LastAt v (absolute_x inner1) (absolute_y inner1) s2) (sym known) last)
