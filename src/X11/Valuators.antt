-- ===== src/X11/Valuators.antt =====
-- `GetValuators` of evgetx11/src/event_switch_pointer_key.cpp. It reads the first value of the event
-- for every valuator, and adds one to it each time.
use evget.Prelude.{
  ℕ, zero, suc, ◌+◌, ◌≡◌, refl, ap, ◌∙◌, Bool, true, false, not, none, some, List, [], ◌∷◌, length,
  if◌then◌else◌, Option, Bool-cases, inl, inr, Throws, returns, throws, ◌>>=◌, arith,
}
use evget.Prelude.Int.{ℤ}
use evget.Event.Data.{Data}
use evget.X11.Api.{
  Environment, EventType, RawEvent, ScrollClassInfo, ValuatorState, pointer_emulated,
}
use evget.X11.State.{State}
use evget.X11.EventSwitch.{has_device, add_motion_event}
use evget.X11.PointerKey.{Valuators, read_values, get_valuators, on_masks}
use evget.X11.Motion.{
  scroll_classes, moves, processed, record_scroll, motion_event, scroll_event, switch_on_event,
}

module _ {D T W R : Type 0} (env : Environment D T W R) where
  open env use {increment, to_int, walk}

  -- `x` after `n` increments
  unfoldable pub incremented : ℕ → D → D
  incremented zero x = x
  incremented (suc n) x = incremented n (increment x)

  read_values-left :
      (masks : List ℕ) (first : D)
      → (read_values env masks first).1 ≡ incremented (length masks) first
  unfolding read_values incremented
  read_values-left [] first = refl
  read_values-left (mask ∷ masks) first = read_values-left masks (increment first)

  incremented-add_one : (n : ℕ) (x : D) → increment (incremented n x) ≡ incremented (suc n) x
  unfolding incremented
  incremented-add_one zero x = refl
  incremented-add_one (suc n) x = incremented-add_one n (increment x)

  incremented-add : (n k : ℕ) (x : D) → incremented k (incremented n x) ≡ incremented (n + k) x
  unfolding incremented
  incremented-add zero k x = let e : k ≡ 0 + k = omega arith in ap (λ j. incremented j x) e
  incremented-add (suc n) k x =
      let e : suc (n + k) ≡ suc n + k = omega arith in
      incremented-add n k (increment x) ∙ ap (λ j. incremented j x) e

  -- Each valuator with a value: the first one of the event after n increments, after n + 1, and
  -- so on.
  unfoldable pub counted : ℕ → List ℕ → D → Valuators
  unfolding incremented
  counted n [] first = []
  counted n (mask ∷ masks) first =
      (mask, to_int (incremented n first)) ∷ counted (suc n) masks first

  read_values-counted :
      (n : ℕ) (masks : List ℕ) (first : D)
      → (read_values env masks (incremented n first)).0 ≡ counted n masks first
  unfolding read_values counted
  read_values-counted n [] first = refl
  read_values-counted n (mask ∷ masks) first =
      ap (λ vs. (mask, to_int (incremented n first)) ∷ vs)
        (ap (λ x. (read_values env masks x).0) (incremented-add_one n first)
          ∙ read_values-counted (suc n) masks first)

  -- The event whose first value has been incremented n times.
  abbrev pub counted_up : ℕ → RawEvent D → RawEvent D
  counted_up n raw = record raw {
    valuators = record raw.valuators { first_value = incremented n raw.valuators.first_value };
  }

  get_valuators-counted :
      (n m : ℕ) (raw : RawEvent D)
      → n + length (on_masks env raw.valuators.mask) ≡ m
      → get_valuators env (counted_up n raw).valuators ≡ (
        counted n (on_masks env raw.valuators.mask) raw.valuators.first_value,
        (counted_up m raw).valuators,
      )
  unfolding get_valuators
  get_valuators-counted n m raw h =
      let masks = on_masks env raw.valuators.mask in
      let first = raw.valuators.first_value in
      λ i. (
        read_values-counted n masks first i,
        record raw.valuators {
          first_value =
              (read_values-left masks (incremented n first)
                  ∙ incremented-add n (length masks) first
                  ∙ ap (λ k. incremented k first) h)
                i;
        },
      )

  -- MotionEvent and ScrollEvent on given valuators.
  abbrev pub moved_by : T → RawEvent D → Data → State W R → Valuators → Throws (Data × State W R)
  moved_by timestamp raw d s vs =
      if moves env vs (s.pointer_key.valuator_x raw.sourceid)
        (s.pointer_key.valuator_y raw.sourceid)
      then add_motion_event env raw timestamp "XI_RawMotion" d s
      else returns (d, s)

  abbrev pub scrolled_by : T → RawEvent D → Valuators → Data × State W R → Throws (Data × State W R)
  scrolled_by timestamp raw vs (d, s) =
      if not (has_device raw.sourceid s)
      then returns (d, s)
      else elim (s.pointer_key.scroll_map raw.sourceid) [
        | none ↦ returns (d, s)
        | some infos ↦
            record_scroll env (processed env vs (walk infos)) vs timestamp raw "XI_RawMotion" d s
      ]

  -- A raw event's mask, as the list of its valuators.
  abbrev masks_of : RawEvent D → List ℕ
  masks_of raw = on_masks env raw.valuators.mask

  motion_event-counted :
      (timestamp : T) (raw : RawEvent D) (d : Data) (s : State W R)
      → has_device raw.sourceid s ≡ true
      → pointer_emulated raw.flags ≡ false
      → let left = counted_up (length (masks_of raw)) raw in
        motion_event env timestamp raw "XI_RawMotion" d s ≡ (
          moved_by timestamp left d s (counted 0 (masks_of raw) raw.valuators.first_value) >>= λ r.
          returns (r, left))
  unfolding motion_event incremented
  motion_event-counted timestamp raw d s known plain =
      rw (known, plain)
        (ap after (get_valuators-counted 0 (length (masks_of raw)) raw (omega arith))
          ∙ split (moves env vs x y))
    where
      x : Option ℤ
      x = s.pointer_key.valuator_x raw.sourceid

      y : Option ℤ
      y = s.pointer_key.valuator_y raw.sourceid

      vs : Valuators
      vs = counted 0 (masks_of raw) raw.valuators.first_value

      Moved : Type 0
      Moved = Throws ((Data × State W R) × RawEvent D)

      moving : RawEvent D → Bool → Moved
      moving left b =
          if b
          then (add_motion_event env left timestamp "XI_RawMotion" d s >>= λ r. returns (r, left))
          else returns ((d, s), left)

      after : Valuators × ValuatorState D → Moved
      after (us, read) = moving (record raw { valuators = read }) (moves env us x y)

      split :
          (b : Bool)
          → let left = counted_up (length (masks_of raw)) raw in
            moving left b ≡ (
              (if b then add_motion_event env left timestamp "XI_RawMotion" d s else returns (d, s))
              >>= λ r. returns (r, left))
      split true = refl
      split false = refl

  scroll_event-counted :
      (timestamp : T) (raw : RawEvent D) (moved : Data × State W R)
      → pointer_emulated raw.flags ≡ false
      → let n = length (masks_of raw) in
        scroll_event env timestamp (counted_up n raw) "XI_RawMotion" moved.0 moved.1
        ≡ scrolled_by timestamp
            (counted_up (n + n) raw)
            (counted n (masks_of raw) raw.valuators.first_value)
            moved
  unfolding scroll_event
  scroll_event-counted timestamp raw (d, s) plain = elim (Bool-cases (has_device raw.sourceid s)) [
    | inr unknown ↦ rw unknown refl
    | inl known ↦ rw (known, plain) (classes (s.pointer_key.scroll_map raw.sourceid))
  ]
    where
      n : ℕ
      n = length (masks_of raw)

      classes :
          (o : Option (List (ℤ × ScrollClassInfo)))
          → scroll_classes env o timestamp (counted_up n raw) "XI_RawMotion" d s ≡ elim o [
            | none ↦ returns (d, s)
            | some infos ↦
                let vs = counted n (masks_of raw) raw.valuators.first_value in
                record_scroll env
                  (processed env vs (walk infos))
                  vs
                  timestamp
                  (counted_up (n + n) raw)
                  "XI_RawMotion"
                  d
                  s
          ]
      classes none = refl
      classes (some infos) =
          ap
            (λ (r : Valuators × ValuatorState D).
              record_scroll env (processed env r.0 (walk infos)) r.0 timestamp
                (record raw { valuators = r.1 }) "XI_RawMotion" d s)
            (get_valuators-counted n (n + n) raw refl)

  -- A raw motion event of a known device that is no emulated one, whose mask has n valuators: the
  -- motion is decided by values that count up from the first value of the event by one for each
  -- valuator, and the scrolling by values that count on from there, that is from the first value
  -- plus n. The other values of the event are not read.
  pub switch_on_event-counted :
      (timestamp : T) (raw : RawEvent D) (d : Data) (s : State W R)
      → has_device raw.sourceid s ≡ true
      → pointer_emulated raw.flags ≡ false
      → let masks = on_masks env raw.valuators.mask in
        let n = length masks in
        let first = raw.valuators.first_value in
        switch_on_event env EventType.raw_motion timestamp raw d s ≡ (
          moved_by timestamp (counted_up n raw) d s (counted 0 masks first) >>= λ moved.
          scrolled_by timestamp (counted_up (n + n) raw) (counted n masks first) moved >>= λ r.
          returns (true, r))
  unfolding switch_on_event motion_event scroll_event
  switch_on_event-counted timestamp raw d s known plain =
      ap (λ r. r >>= scrolling) (motion_event-counted timestamp raw d s known plain)
      ∙ scrolled (moved_by timestamp (counted_up n raw) d s (counted 0 (masks_of raw) first))
    where
      n : ℕ
      n = length (masks_of raw)

      first : D
      first = raw.valuators.first_value

      scrolling : (Data × State W R) × RawEvent D → Throws (Bool × (Data × State W R))
      scrolling moved =
          scroll_event env timestamp moved.1 "XI_RawMotion" moved.0.0 moved.0.1 >>= λ r.
          returns (true, r)

      scrolled :
          (m : Throws (Data × State W R))
          → ((m >>= λ r. returns (r, counted_up n raw)) >>= scrolling) ≡ (
              m >>= λ moved.
              scrolled_by timestamp (counted_up (n + n) raw) (counted n (masks_of raw) first) moved
              >>= λ r. returns (true, r))
      scrolled (throws e) = refl
      scrolled (returns moved) =
          ap (λ r. r >>= λ v. returns (true, v)) (scroll_event-counted timestamp raw moved plain)
