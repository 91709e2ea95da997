-- ===== src/LibInput/TouchPositions.antt =====
-- The positions in the entries of touches of evgetlibinput/src/event_transformer.cpp.
use mathlib.Core.Path.{subst, ap₂}
use evget.Prelude.{
  ℕ, ◌≡◌, refl, sym, ap, ◌∙◌, String, Bool, true, false, Option, none, some, List, [], ◌∷◌, arith,
}
use evget.Prelude.Int.{ℤ}
use evget.Event.Format.{from_double}
use evget.Event.Data.{Data, add_entry}
use evget.Event.Data
use evget.Event.MouseMove
use evget.Event.MouseMove.{MouseMove, mouse_move_base_fields}
use evget.Event.MouseClick
use evget.Event.MouseClick.{MouseClick, mouse_click_base_fields}
use evget.Event.Modifiers.{mouse_move_appends, mouse_click_appends}
use evget.DeviceId.Stability.{Decides}
use evget.LibInput.Api.{Environment, EventType}
use evget.LibInput.State.{
  EventContext, set_touch_relative_position, set_base_fields, set_difference,
}
use evget.LibInput.BaseFields.{set_base_fields-append}
use evget.LibInput.Transformer.{
  transform_event, transform_from, switch_on_type, named, touch_down, touch_motion,
}
use evget.LibInput.Runs.{S, Input, run, uuid_of}
use evget.LibInput.Devices.{StemsFrom, transform_event-from, uuid_of-run}
use evget.LibInput.Motion.{positions}
use evget.LibInput.Touch.{
  is_touch, slot_of, AllElsewhere, TouchAt, left_by, run-TouchAt, transform_event-TouchAt,
}

abbrev pub is_down_or_motion : EventType → Bool
is_down_or_motion EventType.touch_down = true
is_down_or_motion EventType.touch_motion = true
is_down_or_motion _ = false

-- The entries that follow the move: a touch that goes down has a click, without a position.
abbrev pub clicks_of : EventType → List (Option String × Option String)
clicks_of EventType.touch_down = (some "", some "") ∷ []
clicks_of _ = []

module _ {D T X R : Type 0} (env : Environment D T X R) where
  open env use {api, formats, subtract, width, height}

  abbrev pub touch_x : api.Event → D
  touch_x event = api.get_touch_x (api.get_touch_event event) width

  abbrev pub touch_y : api.Event → D
  touch_y event = api.get_touch_y (api.get_touch_event event) height

  -- The texts of the difference of an event to the last position, or nothing.
  abbrev difference : Option D → Option D → api.Event → Option String × Option String
  difference (some px) (some py) event = (
    some (from_double formats (some (subtract (touch_x event) px))),
    some (from_double formats (some (subtract (touch_y event) py))),
  )
  difference _ _ event = (some "", some "")

  -- A touch goes on from the event before it in its seat slot, unless that event ended it.
  abbrev pub position_after : EventType → api.Event → api.Event → Option String × Option String
  position_after t before event =
      difference (left_by env t (touch_x before)) (left_by env t (touch_y before)) event

  -- No position is in a builder whose base fields are set.
  move-unplaced :
      (ctx : EventContext T) (time : ℕ) (s : S env)
      → ((set_base_fields env ctx time s (MouseMove.empty {D = D} {T = T})).0.position_x ≡ none)
        × ((set_base_fields env ctx time s (MouseMove.empty {D = D} {T = T})).0.position_y ≡ none)
  unfolding mouse_move_appends MouseMove.with_interval_optional MouseMove.with_timestamp
      MouseMove.with_device MouseMove.with_device_name MouseMove.with_device_id
      MouseMove.with_system_event MouseMove.with_event_source
  move-unplaced ctx time s =
      let e =
        set_base_fields-append env mouse_move_base_fields mouse_move_appends ctx time s
          (MouseMove.empty {D = D} {T = T}) in
      (ap (λ b. b.position_x) e, ap (λ b. b.position_y) e)

  click-unplaced :
      (ctx : EventContext T) (time : ℕ) (s : S env)
      → ((set_base_fields env ctx time s (MouseClick.empty {D = D} {T = T})).0.position_x ≡ none)
        × ((set_base_fields env ctx time s (MouseClick.empty {D = D} {T = T})).0.position_y ≡ none)
  unfolding mouse_click_appends MouseClick.with_interval_optional MouseClick.with_timestamp
      MouseClick.with_device MouseClick.with_device_name MouseClick.with_device_id
      MouseClick.with_system_event MouseClick.with_event_source
  click-unplaced ctx time s =
      let e =
        set_base_fields-append env mouse_click_base_fields mouse_click_appends ctx time s
          (MouseClick.empty {D = D} {T = T}) in
      (ap (λ b. b.position_x) e, ap (λ b. b.position_y) e)

  -- Where a builder without a position is put.
  difference-placed :
      (px py : Option D) (event : api.Event) (b : MouseMove D T)
      → b.position_x ≡ none
      → b.position_y ≡ none
      → (
        some (
            from_double formats
              (set_difference env px py (touch_x event) (touch_y event) b).position_x),
        some (
            from_double formats
              (set_difference env px py (touch_x event) (touch_y event) b).position_y),
      )
        ≡ difference px py event
  unfolding MouseMove.with_position_x MouseMove.with_position_y from_double
  difference-placed (some px) (some py) event b h k = refl
  difference-placed (some px) none event b h k = rw (h, k) refl
  difference-placed none py event b h k = rw (h, k) refl

  -- The move of a touch, before it is built.
  abbrev touched : EventContext T → ℕ → ℤ → S env → MouseMove D T
  touched ctx time slot s =
      MouseMove.with_touch_id slot
        (set_base_fields env ctx time s (MouseMove.empty {D = D} {T = T})).0

  touched-placed :
      (ctx : EventContext T) (time : ℕ) (slot : ℤ) (event : api.Event) (px py : Option D)
      (s : S env)
      → (
        some (
            from_double formats
              (set_difference env px py
                (touch_x event)
                (touch_y event)
                (touched ctx time slot s)).position_x),
        some (
            from_double formats
              (set_difference env px py
                (touch_x event)
                (touch_y event)
                (touched ctx time slot s)).position_y),
      )
        ≡ difference px py event
  unfolding MouseMove.with_touch_id
  touched-placed ctx time slot event px py s =
      let free = move-unplaced ctx time s in
      difference-placed px py event (touched ctx time slot s) free.0 free.1

  motion-positions :
      (ctx : EventContext T) (event : api.Event) (px py : Option D) (s : S env)
      → TouchAt env (ctx.device_uuid, slot_of env event) px py s
      → positions (touch_motion env ctx event s Data.empty).0 ≡ difference px py event ∷ []
  unfolding touch_motion set_touch_relative_position MouseMove.build add_entry
      MouseMove.with_touch_id from_double set_base_fields
  motion-positions ctx event px py s h =
      let time = api.get_touch_time (api.get_touch_event event) in
      ap (λ p. p ∷ []) (touched-placed ctx time (slot_of env event) event _ _ s)
      ∙ ap₂ (λ x y. difference x y event ∷ []) h.0 h.1

  -- The state between the move and the click of a touch that goes down.
  abbrev after_touch : EventContext T → api.Event → S env → S env
  after_touch ctx event s =
      let touch = api.get_touch_event event in
      let slot = api.get_touch_seat_slot touch in
      let (b, s1) =
        set_base_fields env ctx (api.get_touch_time touch) s (MouseMove.empty {D = D} {T = T}) in
      (set_touch_relative_position env ctx.device_uuid slot touch s1
        (MouseMove.with_touch_id slot b)).1

  down-positions :
      (ctx : EventContext T) (event : api.Event) (px py : Option D) (s : S env)
      → TouchAt env (ctx.device_uuid, slot_of env event) px py s
      → positions (touch_down env ctx event s Data.empty).0
        ≡ difference px py event ∷ (some "", some "") ∷ []
  unfolding touch_down set_touch_relative_position MouseMove.build MouseClick.build add_entry
      MouseMove.with_touch_id from_double set_base_fields MouseClick.with_touch_id
      MouseClick.with_action
  down-positions ctx event px py s h =
      let time = api.get_touch_time (api.get_touch_event event) in
      let placed = touched-placed ctx time (slot_of env event) event _ _ s in
      let free = click-unplaced ctx time (after_touch ctx event s) in
      ap₂ (λ p c. p ∷ c ∷ []) placed
        (ap₂ (λ x y. (some (from_double formats x), some (from_double formats y))) free.0 free.1)
      ∙ ap₂ (λ x y. difference x y event ∷ (some "", some "") ∷ []) h.0 h.1

  switch-positions :
      (t : EventType) (ctx : EventContext T) (event : api.Event) (px py : Option D) (s : S env)
      → is_down_or_motion t ≡ true
      → TouchAt env (ctx.device_uuid, slot_of env event) px py s
      → positions (switch_on_type env t ctx event s Data.empty).0
        ≡ difference px py event ∷ clicks_of t
  unfolding switch_on_type
  switch-positions EventType.touch_down ctx event px py s e h =
      down-positions (named env ctx _) event px py s h
  switch-positions EventType.touch_motion ctx event px py s e h =
      motion-positions (named env ctx _) event px py s h
  switch-positions _ ctx event px py s e h = ground arith

  -- An event of a touch of a device, then any events that are not of touches or of touches in other
  -- seat slots, then the same device's next event in the seat slot, a touch that goes down or moves:
  -- the position of its move is the difference between the two if the first event was a touch that
  -- went down or moved, and is absent if the first event was the end of a touch.
  pub touch-positions :
      (decides : Decides api.same_device) (device : api.Device) (e1 e2 : Input env)
      (inner1 inner2 : api.Event) (es : List (Input env)) (s : S env)
      → StemsFrom env e1 inner1 device
      → is_touch (api.get_event_type inner1) ≡ true
      → AllElsewhere env (slot_of env inner1) es
      → StemsFrom env e2 inner2 device
      → is_down_or_motion (api.get_event_type inner2) ≡ true
      → slot_of env inner2 ≡ slot_of env inner1
      → positions (transform_event env e2 (run env es (transform_event env e1 s).1)).0
        ≡ position_after (api.get_event_type inner1) inner1 inner2
          ∷ clicks_of (api.get_event_type inner2)
  unfolding transform_from
  touch-positions decides device e1 e2 inner1 inner2 es s from1 t1 elsewhere from2 t2 same =
      let s1 = (transform_event env e1 s).1 in
      let s2 = run env es s1 in
      let t = api.get_event_type inner1 in
      let px = left_by env t (touch_x inner1) in
      let py = left_by env t (touch_y inner1) in
      let last =
        run-TouchAt env es (uuid_of env device s) (slot_of env inner1) px py s1 elsewhere
          (transform_event-TouchAt env e1 inner1 device s from1 t1) in
      let known = uuid_of-run env decides e1 inner1 device s es from1 in
      ap (λ r. positions r.0) (transform_event-from env e2 inner2 device s2 from2)
      ∙ switch-positions _ _ inner2 px py _ t2 (
          subst (λ v. TouchAt env (v, slot_of env inner2) px py s2) (sym known)
            (subst (λ k. TouchAt env (uuid_of env device s, k) px py s2) (sym same) last))
