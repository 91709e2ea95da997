-- ===== src/X11/Outcomes.antt =====
-- Calls that may throw: what holds of the values that they return.
use mathlib.Core.Path.{subst}
use evget.Prelude.{◌≡◌, ap, sym, Throws, Exception, returns, throws, ◌>>=◌}

-- The call returns, and what it returns satisfies `Q`.
abbrev pub Returning : {A : Type 0} → (A → Type 0) → Throws A → Type 0
Returning Q (returns a) = Q a
Returning Q (throws e) = ⊥

-- If the call returns, what it returns satisfies `Q`.
abbrev pub WhenReturned : {A : Type 0} → (A → Type 0) → Throws A → Type 0
WhenReturned Q (returns a) = Q a
WhenReturned Q (throws e) = Unit

pub Returning-bind :
    {A B : Type 0} (P : A → Type 0) (Q : B → Type 0) (t : Throws A) (f : A → Throws B)
    → Returning P t
    → ((a : A) → P a → Returning Q (f a))
    → Returning Q (t >>= f)
Returning-bind P Q (returns a) f h k = k a h
Returning-bind P Q (throws e) f h k = elim h [ ]

pub WhenReturned-bind :
    {A B : Type 0} (P : A → Type 0) (Q : B → Type 0) (t : Throws A) (f : A → Throws B)
    → WhenReturned P t
    → ((a : A) → P a → WhenReturned Q (f a))
    → WhenReturned Q (t >>= f)
WhenReturned-bind P Q (returns a) f h k = k a h
WhenReturned-bind P Q (throws e) f h k = tt

pub Returning-map :
    {A : Type 0} (P Q : A → Type 0) (t : Throws A)
    → ((a : A) → P a → Q a)
    → Returning P t
    → Returning Q t
Returning-map P Q (returns a) f h = f a h
Returning-map P Q (throws e) f h = elim h [ ]

pub Returning-when : {A : Type 0} (Q : A → Type 0) (t : Throws A) → Returning Q t → WhenReturned Q t
Returning-when Q (returns a) h = h
Returning-when Q (throws e) h = elim h [ ]

-- A call whose value is known, and what follows it.
pub Returning-step :
    {A B : Type 0} (Q : B → Type 0) (t : Throws A) (a : A) (f : A → Throws B)
    → t ≡ returns a
    → Returning Q (f a)
    → Returning Q (t >>= f)
Returning-step Q t a f e h = subst (λ u. Returning Q (u >>= f)) (sym e) h

pub Returning-eq : {A : Type 0} (a : A) (t : Throws A) → Returning (λ x. x ≡ a) t → t ≡ returns a
Returning-eq a (returns x) h = ap returns h
Returning-eq a (throws e) h = elim h [ ]

pub throws-bind :
    {A B : Type 0} (t : Throws A) (f : A → Throws B) (e : Exception)
    → t ≡ throws e
    → (t >>= f) ≡ throws e
throws-bind t f e h = ap (λ u. u >>= f) h
