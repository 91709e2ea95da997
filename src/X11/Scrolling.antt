-- ===== src/X11/Scrolling.antt =====
-- What a motion event of a known device records, evgetx11/include/evgetx11/event_switch_pointer_key.h:
-- `MotionEvent` and then `ScrollEvent`, on the event that the first leaves.
use mathlib.Core.Path.{subst}
use evget.Prelude.{
  ◌≡◌, refl, ap, ◌∙◌, String, Bool, true, false, not, Option, none, some, List, [], ◌∷◌, is_empty,
  if◌then◌else◌, Throws, returns, ◌>>=◌,
}
use evget.Prelude.Int.{ℤ}
use evget.Event.Enums.{DeviceType, EntryType}
use evget.Event.Data.{Data}
use evget.Event.MouseScroll
use evget.Event.MouseScroll.{MouseScroll}
use evget.X11.Api.{
  Environment, RawEvent, ValuatorState, ScrollClassInfo, ScrollType, scroll_horizontal,
  scroll_vertical, pointer_emulated,
}
use evget.X11.State.{call}
use evget.X11.EventSwitch.{S, add_motion_event}
use evget.X11.PointerKey.{Valuators, get_valuators, on_masks, read_values, valuator_value}
use evget.X11.Motion.{
  moves, motion_event, processed, set_scroll, set_scrolls, record_scroll, scroll_classes,
  scroll_event,
}
use evget.X11.Outcomes.{Returning, Returning-bind}
use evget.X11.Fields.{Kept, Kept-refl, call-Kept, uuid_of}
use evget.X11.Origins.{origin_of, mouse_scroll-fields}
use evget.X11.Recorded.{Adds, Adds-none, Records, mouse_scroll-Records}
use evget.X11.Entries.{guard-known, add_motion_event-Records}
use evget.X11.Axes.{
  scrolled, moves-axis_moved, processed-scrolled, motion_types, scroll_types, scroll_types_of,
}

module _ {D T W R : Type 0} (env : Environment D T W R) where
  open env use {api, formats, of_int, walk}

  set_scroll-modifiers :
      (type : ScrollType) (x : D) (b : MouseScroll D T)
      → (set_scroll env type x b).modifiers ≡ b.modifiers
  unfolding MouseScroll.with_horizontal MouseScroll.with_vertical
  set_scroll-modifiers scroll_horizontal x b = refl
  set_scroll-modifiers scroll_vertical x b = refl

  set_scrolls-modifiers :
      (vs : Valuators) (infos : List (ℤ × ScrollClassInfo)) (b : MouseScroll D T)
      → (set_scrolls env vs infos b).modifiers ≡ b.modifiers
  unfolding set_scrolls
  set_scrolls-modifiers vs [] b = refl
  set_scrolls-modifiers vs ((valuator, info) ∷ infos) b =
      set_scrolls-modifiers vs infos _
      ∙ set_scroll-modifiers info.scroll_type (of_int (valuator_value valuator vs)) b

  -- Steps for the same event, one after the other.
  pub later :
      (t : DeviceType) (name : String) (timestamp : T) (event : RawEvent D) (system_event : String)
      (s s1 : S env) (types : List EntryType) (d d' : Data)
      → Kept env event.sourceid s s1
      → Adds env (origin_of env t name timestamp event system_event s1) types d d'
      → Adds env (origin_of env t name timestamp event system_event s) types d d'
  later t name timestamp event system_event s s1 types d d' kept h =
      subst
        (λ u.
          Adds env (record (origin_of env t name timestamp event system_event s) { device_id = u })
            types d d')
        kept.same_uuid h

  module _ (t : DeviceType) (name : String) (timestamp : T) (event : RawEvent D)
      (system_event : String) (d : Data) (s : S env)
      (known : s.event_switch.devices event.sourceid ≡ some t)
      (named : s.event_switch.id_to_name event.sourceid ≡ some name) where
    abbrev Now : List EntryType → Data × S env → Type 0
    Now types =
        Records env (origin_of env t name timestamp event system_event s) event.sourceid types d s

    nothing : Now [] (d, s)
    nothing = (Adds-none env _ d, Kept-refl env event.sourceid s)

    -- The event that MotionEvent leaves has other values, and is the same otherwise.
    pub record Left (left : RawEvent D) : Type 0 where
      pub valuators : ValuatorState D
      pub same_mask : valuators.mask ≡ event.valuators.mask
      pub same : left ≡ record event { valuators = valuators }

    abbrev read : ValuatorState D
    read = (get_valuators env event.valuators).1

    read-mask : read.mask ≡ event.valuators.mask
    unfolding get_valuators
    read-mask = refl

    abbrev Moved : List EntryType → (Data × S env) × RawEvent D → Type 0
    Moved types r = Now types r.0 × Left r.1

    add_or_skip-Records :
        (b : Bool)
        → Returning (Moved (if b then EntryType.mouse_move ∷ [] else [])) (
            if b
            then (add_motion_event env
                  (record event { valuators = read })
                  timestamp
                  system_event
                  d
                  s
                >>= λ r. returns (r, record event { valuators = read }))
            else returns ((d, s), record event { valuators = read }))
    unfolding uuid_of
    add_or_skip-Records true =
        Returning-bind (Now (EntryType.mouse_move ∷ [])) (Moved (EntryType.mouse_move ∷ [])) _
          (λ r. returns (r, record event { valuators = read }))
          (add_motion_event-Records env t name timestamp (record event { valuators = read })
            system_event d s known named)
          λ r h. (h, record { valuators = read; same_mask = read-mask; same = refl })
    add_or_skip-Records false =
        (nothing, record { valuators = read; same_mask = read-mask; same = refl })

    by_flags :
        (c : Bool) (types : List EntryType) (y : Throws ((Data × S env) × RawEvent D))
        → Returning (Moved types) y
        → Returning (Moved (if c then [] else types)) (if c then returns ((d, s), event) else y)
    by_flags true types y h =
        (nothing, record { valuators = event.valuators; same_mask = refl; same = refl })
    by_flags false types y h = h

    pub motion_event-Records :
        Returning
          (Moved (motion_types env event s))
          (motion_event env timestamp event system_event d s)
    unfolding motion_event motion_types get_valuators
    motion_event-Records =
        let masks = on_masks env event.valuators.mask in
        let vx = s.pointer_key.valuator_x event.sourceid in
        let vy = s.pointer_key.valuator_y event.sourceid in
        let b = moves env (read_values env masks event.valuators.first_value).0 vx vy in
        guard-known env t name timestamp event system_event d s known named
          (Moved (motion_types env event s)) (pointer_emulated event.flags) _ _
          (by_flags (pointer_emulated event.flags) _ _ (
            subst
              (λ c. Returning (Moved (if c then EntryType.mouse_move ∷ [] else [])) (
                if b
                then (add_motion_event env (record event { valuators = read }) timestamp
                      system_event d s
                    >>= λ r. returns (r, record event { valuators = read }))
                else returns ((d, s), record event { valuators = read })))
              (moves-axis_moved env masks event.valuators.first_value vx vy)
              (add_or_skip-Records b)))

    -- The scroll classes that are processed, if there are any.
    record_scroll-Records :
        (vs : Valuators) (infos : List (ℤ × ScrollClassInfo)) (v : ValuatorState D)
        → Returning
            (Now (if is_empty infos then [] else EntryType.mouse_scroll ∷ []))
            (record_scroll env infos vs timestamp (record event { valuators = v }) system_event d s)
    unfolding uuid_of MouseScroll.with_position_x MouseScroll.with_position_y
    record_scroll-Records vs [] v = nothing
    record_scroll-Records vs (info ∷ infos) v =
        let ask = api.query_pointer s.pointer_key.pointer_id in
        let q = (ask s.server).0 in
        let s1 = (call ask s).1 in
        let builder : MouseScroll D T =
          set_scrolls env vs (walk (info ∷ infos)) MouseScroll.empty in
        mouse_scroll-Records env (origin_of env t name timestamp event system_event s)
          event.sourceid s.pointer_key.pointer_id s.server d s s1
          (call-Kept env event.sourceid ask s) _
          (mouse_scroll-fields env t name timestamp (record event { valuators = v }) system_event q
            s1 known named
            (MouseScroll.with_position_y q.root_y (MouseScroll.with_position_x q.root_x builder))
            (set_scrolls-modifiers vs (walk (info ∷ infos)) MouseScroll.empty))

    if-not :
        (b : Bool) (types : List EntryType)
        → (if not b then [] else types) ≡ (if b then types else [])
    if-not true types = refl
    if-not false types = refl

    scroll_classes-Records :
        (o : Option (List (ℤ × ScrollClassInfo)))
        → Returning
            (Now (scroll_types_of env o (on_masks env event.valuators.mask)))
            (scroll_classes env o timestamp event system_event d s)
    unfolding get_valuators
    scroll_classes-Records none = nothing
    scroll_classes-Records (some infos) =
        let masks = on_masks env event.valuators.mask in
        let vs = (read_values env masks event.valuators.first_value).0 in
        subst
          (λ types. Returning (Now types) (
            record_scroll env (processed env vs (walk infos)) vs timestamp
              (record event { valuators = read }) system_event d s))
          (ap (λ b. if b then [] else EntryType.mouse_scroll ∷ [])
              (processed-scrolled env masks event.valuators.first_value (walk infos))
            ∙ if-not (scrolled masks (walk infos)) (EntryType.mouse_scroll ∷ []))
          (record_scroll-Records vs (processed env vs (walk infos)) read)

    scroll_if :
        (c : Bool) (types : List EntryType) (y : Throws (Data × S env))
        → Returning (Now types) y
        → Returning (Now (if c then [] else types)) (if c then returns (d, s) else y)
    scroll_if true types y h = nothing
    scroll_if false types y h = h

    pub scroll_event-Records :
        Returning
          (Now (scroll_types env event s))
          (scroll_event env timestamp event system_event d s)
    unfolding scroll_event scroll_types
    scroll_event-Records =
        guard-known env t name timestamp event system_event d s known named
          (Now (scroll_types env event s)) (pointer_emulated event.flags) _ _
          (scroll_if (pointer_emulated event.flags) _ _
            (scroll_classes-Records (s.pointer_key.scroll_map event.sourceid)))
