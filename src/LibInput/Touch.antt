-- ===== src/LibInput/Touch.antt =====
-- Positions of touches of evgetlibinput/src/event_transformer.cpp: each seat slot of each device has
-- its own last position, which the end of the touch forgets.
use mathlib.Core.Path.{subst}
use evget.Prelude.{
  ◌≡◌, refl, ap, ◌∙◌, ◌⊎◌, inl, inr, ◌&&◌, String, Bool, true, false, Option, none, some, List, [],
  ◌∷◌, Map, str_eq, eq_refl, arith, if◌then◌else◌,
}
use evget.Prelude.Int.{ℤ, same_int, same_int_refl}
use evget.Event.MouseMove.{mouse_move_base_fields}
use evget.Event.MouseClick.{mouse_click_base_fields}
use evget.LibInput.Api.{Environment, EventType}
use evget.LibInput.State.{TouchKey, same_touch}
use evget.LibInput.Transformer.{transform_event}
use evget.LibInput.Runs.{S, Input, run, uuid_of, transform_from-Follows}
use evget.LibInput.Frames.{next_touch}
use evget.LibInput.Devices.{StemsFrom, transform_event-from, transform_event-cases}

abbrev pub is_touch : EventType → Bool
is_touch EventType.touch_down = true
is_touch EventType.touch_motion = true
is_touch EventType.touch_up = true
is_touch EventType.touch_cancel = true
is_touch _ = false

and-false : (b : Bool) → (b && false) ≡ false
and-false true = refl
and-false false = refl

same_touch_refl : (u : String) (k : ℤ) → same_touch (u, k) (u, k) ≡ true
same_touch_refl u k = rw (eq_refl u, same_int_refl k) refl

module _ {D T X R : Type 0} (env : Environment D T X R) where
  open env use {api, formats, subtract, width, height}

  abbrev pub slot_of : api.Event → ℤ
  slot_of event = api.get_touch_seat_slot (api.get_touch_event event)

  -- The event is not of a touch, or of one in another seat slot.
  abbrev pub Elsewhere : ℤ → Option api.Event → Type 0
  Elsewhere slot none = Unit
  Elsewhere slot (some event) =
      (is_touch (api.get_event_type event) ≡ false) ⊎ (same_int (slot_of event) slot ≡ false)

  abbrev pub AllElsewhere : ℤ → List (Input env) → Type 0
  AllElsewhere slot [] = Unit
  AllElsewhere slot (e ∷ es) = Elsewhere slot e.view_data × AllElsewhere slot es

  touches-apart :
      (u v : String) (j k : ℤ) (o : Option D) (m : Map TouchKey D)
      → same_int j k ≡ false
      → (if same_touch (u, j) (v, k) then o else m (v, k)) ≡ m (v, k)
  touches-apart u v j k o m h = rw (h, and-false (str_eq u v)) refl

  next_touch-Elsewhere :
      (t : EventType) (event : api.Event) (u v : String) (slot : ℤ) (f : api.Touch → D)
      (m : Map TouchKey D)
      → (is_touch t ≡ false) ⊎ (same_int (slot_of event) slot ≡ false)
      → next_touch env t event u f m (v, slot) ≡ m (v, slot)
  next_touch-Elsewhere EventType.touch_down event u v slot f m (inr h) =
      touches-apart u v _ slot _ m h
  next_touch-Elsewhere EventType.touch_motion event u v slot f m (inr h) =
      touches-apart u v _ slot _ m h
  next_touch-Elsewhere EventType.touch_up event u v slot f m (inr h) =
      touches-apart u v _ slot _ m h
  next_touch-Elsewhere EventType.touch_cancel event u v slot f m (inr h) =
      touches-apart u v _ slot _ m h
  next_touch-Elsewhere EventType.touch_down event u v slot f m (inl h) = ground arith
  next_touch-Elsewhere EventType.touch_motion event u v slot f m (inl h) = ground arith
  next_touch-Elsewhere EventType.touch_up event u v slot f m (inl h) = ground arith
  next_touch-Elsewhere EventType.touch_cancel event u v slot f m (inl h) = ground arith
  next_touch-Elsewhere _ event u v slot f m h = refl

  -- The last position of the touch.
  abbrev pub TouchAt : TouchKey → Option D → Option D → S env → Type 0
  TouchAt k x y s = (s.previous_touch_x k ≡ x) × (s.previous_touch_y k ≡ y)

  TouchAt-Elsewhere :
      (e : Input env) (v : String) (slot : ℤ) (x y : Option D) (s : S env)
      → Elsewhere slot e.view_data
      → TouchAt (v, slot) x y s
      → TouchAt (v, slot) x y (transform_event env e s).1
  TouchAt-Elsewhere e v slot x y s quiet h =
      transform_event-cases env (TouchAt (v, slot) x y) e s h λ inner device seen.
        let f = transform_from-Follows env e.timestamp inner device s in
        let q = subst (Elsewhere slot) seen quiet in
        (
          ap (λ m. m (v, slot)) f.5 ∙ next_touch-Elsewhere _ inner _ v slot _ _ q ∙ h.0,
          ap (λ m. m (v, slot)) f.6 ∙ next_touch-Elsewhere _ inner _ v slot _ _ q ∙ h.1,
        )

  pub run-TouchAt :
      (es : List (Input env)) (v : String) (slot : ℤ) (x y : Option D) (s : S env)
      → AllElsewhere slot es
      → TouchAt (v, slot) x y s
      → TouchAt (v, slot) x y (run env es s)
  unfolding run
  run-TouchAt [] v slot x y s quiet h = h
  run-TouchAt (e ∷ es) v slot x y s quiet h =
      run-TouchAt es v slot x y (transform_event env e s).1 quiet.1
        (TouchAt-Elsewhere e v slot x y s quiet.0 h)

  -- What an event of the touch itself leaves.
  abbrev pub left_by : EventType → D → Option D
  left_by EventType.touch_down v = some v
  left_by EventType.touch_motion v = some v
  left_by _ v = none

  pub next_touch-here :
      (t : EventType) (event : api.Event) (u : String) (f : api.Touch → D) (m : Map TouchKey D)
      → is_touch t ≡ true
      → next_touch env t event u f m (u, slot_of event) ≡ left_by t (f (api.get_touch_event event))
  next_touch-here EventType.touch_down event u f m h = rw (same_touch_refl u (slot_of event)) refl
  next_touch-here EventType.touch_motion event u f m h = rw (same_touch_refl u (slot_of event)) refl
  next_touch-here EventType.touch_up event u f m h = rw (same_touch_refl u (slot_of event)) refl
  next_touch-here EventType.touch_cancel event u f m h = rw (same_touch_refl u (slot_of event)) refl
  next_touch-here _ event u f m h = ground arith

  -- After an event of a touch, the touch is where the event was, or forgotten at its end.
  pub transform_event-TouchAt :
      (e : Input env) (inner : api.Event) (device : api.Device) (s : S env)
      → StemsFrom env e inner device
      → is_touch (api.get_event_type inner) ≡ true
      → TouchAt
          (uuid_of env device s, slot_of inner)
          (left_by (api.get_event_type inner) (api.get_touch_x (api.get_touch_event inner) width))
          (left_by (api.get_event_type inner) (api.get_touch_y (api.get_touch_event inner) height))
          (transform_event env e s).1
  transform_event-TouchAt e inner device s from h =
      let f = transform_from-Follows env e.timestamp inner device s in
      let whole = transform_event-from env e inner device s from in
      let u = uuid_of env device s in
      (
        ap (λ r. r.1.previous_touch_x (u, slot_of inner)) whole
            ∙ ap (λ m. m (u, slot_of inner)) f.5
            ∙ next_touch-here _ inner u _ _ h,
        ap (λ r. r.1.previous_touch_y (u, slot_of inner)) whole
            ∙ ap (λ m. m (u, slot_of inner)) f.6
            ∙ next_touch-here _ inner u _ _ h,
      )
