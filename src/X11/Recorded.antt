-- ===== src/X11/Recorded.antt =====
-- What a method of evgetx11's switches records: the entries that it adds to the data of an event.
use evget.Prelude.{
  ◌≡◌, refl, ap, sym, ◌∙◌, String, List, [], ◌∷◌, ◌++◌, map, append_assoc, append-nil, Throws,
  returns, ◌>>=◌,
}
use evget.Prelude.Int.{ℤ}
use evget.Event.Enums.{EntryType}
use evget.Event.Entry.{Entry}
use evget.Event.Data.{Data, add_entry}
use evget.Event.Origin.{
  Origin, CarriesOrigin, All, KeyBased, MouseClickBased, MouseMoveBased, MouseScrollBased,
  key-build, mouse_click-build, mouse_move-build, mouse_scroll-build,
}
use evget.Event.Key
use evget.Event.Key.{Key}
use evget.Event.MouseClick
use evget.Event.MouseClick.{MouseClick}
use evget.Event.MouseMove
use evget.Event.MouseMove.{MouseMove}
use evget.Event.MouseScroll
use evget.Event.MouseScroll.{MouseScroll}
use evget.X11.Api.{Environment}
use evget.X11.EventSwitch.{S}
use evget.X11.Outcomes.{Returning, Returning-bind}
use evget.X11.Fields.{active, Kept, Kept-trans}

pub All-append : (P : Entry → Type 0) (es fs : List Entry) → All P es → All P fs → All P (es ++ fs)
All-append P [] fs h k = k
All-append P (e ∷ es) fs h k = (h.0, All-append P es fs h.1 k)

pub map-append :
    (es fs : List Entry)
    → map (λ (e : Entry). e.entry_type) (es ++ fs)
      ≡ map (λ (e : Entry). e.entry_type) es ++ map (λ (e : Entry). e.entry_type) fs
map-append [] fs = refl
map-append (e ∷ es) fs = ap (λ l. e.entry_type ∷ l) (map-append es fs)

module _ {D T W R : Type 0} (env : Environment D T W R) where
  open env use {api, formats}

  -- An entry has an origin, and the modifiers that a query of the pointer reported.
  abbrev pub Carries : Origin T → Entry → Type 0
  Carries o e =
      (id : ℤ) × (w : W) × CarriesOrigin formats o (active (api.query_pointer id w).0.effective) e

  -- Entries of the given types are added.
  pub record Adds (o : Origin T) (types : List EntryType) (d d' : Data) : Type 0 where
    pub added : List Entry
    pub appended : d'.entries ≡ d.entries ++ added
    pub typed : map (λ (e : Entry). e.entry_type) added ≡ types
    pub carried : All (Carries o) added

  pub Adds-none : (o : Origin T) (d : Data) → Adds o [] d d
  Adds-none o d = record {
    added = [];
    appended = sym (append-nil d.entries);
    typed = refl;
    carried = tt;
  }

  pub Adds-append :
      (o : Origin T) (ts us : List EntryType) (d d1 d2 : Data)
      → Adds o ts d d1
      → Adds o us d1 d2
      → Adds o (ts ++ us) d d2
  Adds-append o ts us d d1 d2 h k = record {
    added = h.added ++ k.added;
    appended =
        k.appended ∙ ap (λ l. l ++ k.added) h.appended ∙ append_assoc d.entries h.added k.added;
    typed =
        map-append h.added k.added
        ∙ ap (λ l. l ++ map (λ (e : Entry). e.entry_type) k.added) h.typed
        ∙ ap (λ l. ts ++ l) k.typed;
    carried = All-append (Carries o) h.added k.added h.carried k.carried;
  }

  module _ (o : Origin T) (id : ℤ) (w : W) (d : Data) where
    abbrev ms : List String
    ms = active (api.query_pointer id w).0.effective

    pub key-Adds :
        (b : Key D T) → KeyBased o ms b → Adds o (EntryType.key ∷ []) d (Key.build formats b d)
    unfolding Key.build add_entry
    key-Adds b h = record {
      added = _;
      appended = refl;
      typed = refl;
      carried = ((id, w, (key-build formats o ms b (record { entries = [] }) h tt).0), tt);
    }

    pub mouse_click-Adds :
        (b : MouseClick D T)
        → MouseClickBased o ms b
        → Adds o (EntryType.mouse_click ∷ []) d (MouseClick.build formats b d)
    unfolding MouseClick.build add_entry
    mouse_click-Adds b h = record {
      added = _;
      appended = refl;
      typed = refl;
      carried = ((id, w, (mouse_click-build formats o ms b (record { entries = [] }) h tt).0), tt);
    }

    pub mouse_move-Adds :
        (b : MouseMove D T)
        → MouseMoveBased o ms b
        → Adds o (EntryType.mouse_move ∷ []) d (MouseMove.build formats b d)
    unfolding MouseMove.build add_entry
    mouse_move-Adds b h = record {
      added = _;
      appended = refl;
      typed = refl;
      carried = ((id, w, (mouse_move-build formats o ms b (record { entries = [] }) h tt).0), tt);
    }

    pub mouse_scroll-Adds :
        (b : MouseScroll D T)
        → MouseScrollBased o ms b
        → Adds o (EntryType.mouse_scroll ∷ []) d (MouseScroll.build formats b d)
    unfolding MouseScroll.build add_entry
    mouse_scroll-Adds b h = record {
      added = _;
      appended = refl;
      typed = refl;
      carried = ((id, w, (mouse_scroll-build formats o ms b (record { entries = [] }) h tt).0), tt);
    }

  -- Entries of the given types and origin are added, and the devices stay.
  abbrev pub Records : Origin T → ℤ → List EntryType → Data → S env → Data × S env → Type 0
  Records o id types d s r = Adds o types d r.0 × Kept env id s r.1

  -- The end of a method: its builder, with the fields set, becomes an entry.
  module _ (o : Origin T) (source id : ℤ) (w : W) (d : Data) (s s1 : S env)
      (h : Kept env source s s1) where
    abbrev asked : List String
    asked = active (api.query_pointer id w).0.effective

    pub key-Records :
        (u : Throws (Key D T × S env))
        → Returning (λ r. KeyBased o asked r.0 × Kept env source s1 r.1) u
        → Returning
            (Records o source (EntryType.key ∷ []) d s)
            (u >>= λ r. returns (Key.build formats r.0 d, r.1))
    key-Records u k =
        Returning-bind {B = Data × S env} (λ r. KeyBased o asked r.0 × Kept env source s1 r.1)
          (Records o source (EntryType.key ∷ []) d s) u
          (λ r. returns (Key.build formats r.0 d, r.1)) k
          λ r based. (key-Adds o id w d r.0 based.0, Kept-trans env source s s1 r.1 h based.1)

    pub mouse_click-Records :
        (u : Throws (MouseClick D T × S env))
        → Returning (λ r. MouseClickBased o asked r.0 × Kept env source s1 r.1) u
        → Returning
            (Records o source (EntryType.mouse_click ∷ []) d s)
            (u >>= λ r. returns (MouseClick.build formats r.0 d, r.1))
    mouse_click-Records u k =
        Returning-bind {B = Data × S env}
          (λ r. MouseClickBased o asked r.0 × Kept env source s1 r.1)
          (Records o source (EntryType.mouse_click ∷ []) d s) u
          (λ r. returns (MouseClick.build formats r.0 d, r.1)) k
          λ r based.
            (mouse_click-Adds o id w d r.0 based.0, Kept-trans env source s s1 r.1 h based.1)

    pub mouse_move-Records :
        (u : Throws (MouseMove D T × S env))
        → Returning (λ r. MouseMoveBased o asked r.0 × Kept env source s1 r.1) u
        → Returning
            (Records o source (EntryType.mouse_move ∷ []) d s)
            (u >>= λ r. returns (MouseMove.build formats r.0 d, r.1))
    mouse_move-Records u k =
        Returning-bind {B = Data × S env} (λ r. MouseMoveBased o asked r.0 × Kept env source s1 r.1)
          (Records o source (EntryType.mouse_move ∷ []) d s) u
          (λ r. returns (MouseMove.build formats r.0 d, r.1)) k
          λ r based.
            (mouse_move-Adds o id w d r.0 based.0, Kept-trans env source s s1 r.1 h based.1)

    pub mouse_scroll-Records :
        (u : Throws (MouseScroll D T × S env))
        → Returning (λ r. MouseScrollBased o asked r.0 × Kept env source s1 r.1) u
        → Returning
            (Records o source (EntryType.mouse_scroll ∷ []) d s)
            (u >>= λ r. returns (MouseScroll.build formats r.0 d, r.1))
    mouse_scroll-Records u k =
        Returning-bind {B = Data × S env}
          (λ r. MouseScrollBased o asked r.0 × Kept env source s1 r.1)
          (Records o source (EntryType.mouse_scroll ∷ []) d s) u
          (λ r. returns (MouseScroll.build formats r.0 d, r.1)) k
          λ r based.
            (mouse_scroll-Adds o id w d r.0 based.0, Kept-trans env source s s1 r.1 h based.1)
