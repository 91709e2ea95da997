-- ===== src/X11/Axes.antt =====
-- evgetx11/src/event_switch_pointer_key.cpp: which valuators an event has. The values that
-- `GetValuators` reads do not matter for that.
use evget.Prelude.{
  ℕ, ◌≡◌, refl, ap, Bool, true, false, ◌||◌, Option, none, some, List, [], ◌∷◌, is_some, is_empty,
  not, inl, inr, Bool-cases, if◌then◌else◌,
}
use evget.Prelude.Int.{ℤ, pos, same_int}
use evget.Event.Enums.{EntryType}
use evget.X11.Api.{Environment, RawEvent, ScrollClassInfo, pointer_emulated}
use evget.X11.EventSwitch.{S}
use evget.X11.PointerKey.{find_valuator, read_values, on_masks}
use evget.X11.Motion.{is_valuator, moves, processed}

-- Whether a mask has the valuator of an axis, or of a scroll class.
unfoldable pub mask_has : ℤ → List ℕ → Bool
mask_has id [] = false
mask_has id (mask ∷ masks) =
    let rest = mask_has id masks in if same_int (pos mask) id then true else rest

unfoldable pub axis_moved : List ℕ → Option ℤ → Option ℤ → Bool
axis_moved [] x y = false
axis_moved (mask ∷ masks) x y = is_valuator mask x || is_valuator mask y || axis_moved masks x y

unfoldable pub scrolled : List ℕ → List (ℤ × ScrollClassInfo) → Bool
unfolding mask_has
scrolled masks [] = false
scrolled masks (info ∷ infos) =
    let rest = scrolled masks infos in if mask_has info.0 masks then true else rest

module _ {D T W R : Type 0} (env : Environment D T W R) where
  open env use {walk}

  pub moves-axis_moved :
      (masks : List ℕ) (first : D) (x y : Option ℤ)
      → moves env (read_values env masks first).0 x y ≡ axis_moved masks x y
  unfolding moves axis_moved read_values
  moves-axis_moved [] first x y = refl
  moves-axis_moved (mask ∷ masks) first x y =
      ap (λ rest. is_valuator mask x || is_valuator mask y || rest)
        (moves-axis_moved masks (env.increment first) x y)

  find_valuator-mask_has :
      (id : ℤ) (masks : List ℕ) (first : D)
      → is_some (find_valuator id (read_values env masks first).0) ≡ mask_has id masks
  unfolding mask_has read_values
  find_valuator-mask_has id [] first = refl
  find_valuator-mask_has id (mask ∷ masks) first = elim (Bool-cases (same_int (pos mask) id)) [
    | inl y ↦ rw y refl
    | inr n ↦ rw n (find_valuator-mask_has id masks (env.increment first))
  ]

  pub processed-scrolled :
      (masks : List ℕ) (first : D) (infos : List (ℤ × ScrollClassInfo))
      → is_empty (processed env (read_values env masks first).0 infos) ≡ not (scrolled masks infos)
  unfolding processed scrolled
  processed-scrolled masks first [] = refl
  processed-scrolled masks first (info ∷ infos) = elim (Bool-cases (mask_has info.0 masks)) [
    | inl y ↦ rw (find_valuator-mask_has info.0 masks first, y) refl
    | inr n ↦
        rw (find_valuator-mask_has info.0 masks first, n) (processed-scrolled masks first infos)
  ]

  -- The entries of a motion event: a move if the event has the valuator of an axis.
  unfoldable pub motion_types : RawEvent D → S env → List EntryType
  motion_types event s =
      if pointer_emulated event.flags
      then []
      else if axis_moved (on_masks env event.valuators.mask)
          (s.pointer_key.valuator_x event.sourceid) (s.pointer_key.valuator_y event.sourceid)
      then EntryType.mouse_move ∷ []
      else []

  -- And a scroll if it has the valuator of a scroll class.
  abbrev pub scroll_types_of : Option (List (ℤ × ScrollClassInfo)) → List ℕ → List EntryType
  scroll_types_of none masks = []
  scroll_types_of (some infos) masks =
      if scrolled masks (walk infos) then EntryType.mouse_scroll ∷ [] else []

  unfoldable pub scroll_types : RawEvent D → S env → List EntryType
  scroll_types event s =
      if pointer_emulated event.flags
      then []
      else scroll_types_of (s.pointer_key.scroll_map event.sourceid)
          (on_masks env event.valuators.mask)
