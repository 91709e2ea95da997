-- ===== src/Cli/Filters.antt =====
-- The option `--filter` of evget/src/cli.cpp and the filter store that it makes.
use evget.Prelude.{
  ◌≡◌, refl, ap, sym, ◌∙◌, String, Bool, true, false, ◌||◌, Option, none, some, List, [], ◌∷◌, ◌++◌,
  is_empty, str_eq, eq_iff, Bool-cases, inl, inr, ◌⊎◌, ◌==◌, ==_iff, if◌then◌else◌, arith,
}
use mathlib.Core.Path.{subst}
use mathlib.Core.Bool.{or_assoc, or-false}
use evget.Event.Enums.{DeviceType, device_type_enum}
use evget.Storage.Filter.{contains}
use evget.Cli.{contains_text, insert_type, insert_mapped, filter_from, parse_filter}
use evget.Cli.Mappings.{find, device_type_mappings}

-- A value of `--filter` names the device type.
unfoldable pub is_name_of : DeviceType → String → Bool
unfolding device_type_enum
is_name_of u v =
    let n = device_type_enum.to_ℕ u in
    if n == 0
    then str_eq v "mouse"
    else if n == 1
    then str_eq v "keyboard"
    else if n == 2
    then str_eq v "touchpad"
    else if n == 3
    then str_eq v "touchscreen"
    else if n == 4
    then str_eq v "tablet"
    else false

-- One of the values names the device type.
unfoldable pub names_type : List String → DeviceType → Bool
names_type [] u = false
names_type (v ∷ vs) u = is_name_of u v || names_type vs u

contains-append :
    (types : List DeviceType) (t u : DeviceType)
    → contains (types ++ t ∷ []) u ≡ (contains types u || contains (t ∷ []) u)
unfolding contains
contains-append [] t u = refl
contains-append (x ∷ xs) t u =
    ap (λ b. device_type_enum.to_ℕ x == device_type_enum.to_ℕ u || b) (contains-append xs t u)
    ∙ sym (or_assoc (device_type_enum.to_ℕ x == device_type_enum.to_ℕ u) (contains xs u) _)

-- Types with one number are in the same sets.
contains-same :
    (types : List DeviceType) (t u : DeviceType)
    → device_type_enum.to_ℕ t ≡ device_type_enum.to_ℕ u
    → contains types t ≡ contains types u
unfolding contains
contains-same [] t u h = refl
contains-same (x ∷ xs) t u h =
    ap (λ n. device_type_enum.to_ℕ x == n || contains xs t) h
    ∙ ap (λ b. device_type_enum.to_ℕ x == device_type_enum.to_ℕ u || b) (contains-same xs t u h)

contains-there :
    (types : List DeviceType) (t u : DeviceType)
    → contains types t ≡ true
    → contains types u ≡ (contains types u || contains (t ∷ []) u)
unfolding contains
contains-there types t u h =
    elim (Bool-cases (device_type_enum.to_ℕ t == device_type_enum.to_ℕ u)) [
      | inl same ↦ rw (sym (contains-same types t u ((==_iff _ _).0 same)), h) refl
      | inr other ↦ rw other (sym (or-false (contains types u)))
    ]

-- Inserting a type that is there changes nothing that `contains` sees.
contains-insert_type :
    (types : List DeviceType) (t u : DeviceType)
    → contains (insert_type types t) u ≡ (contains types u || contains (t ∷ []) u)
contains-insert_type types t u = elim (Bool-cases (contains types t)) [
  | inr h ↦ rw h (contains-append types t u)
  | inl h ↦ rw h (contains-there types t u h)
]

-- The set of an optional type has a type.
abbrev one : Option DeviceType → DeviceType → Bool
one none u = false
one (some t) u = contains (t ∷ []) u

abbrev Finds : DeviceType → String → Type 0
Finds u v = one (find v device_type_mappings) u ≡ is_name_of u v

-- The values that name types, and all others.
Finds-value :
    (u : DeviceType)
    → Finds u "mouse"
      × Finds u "keyboard"
      × Finds u "touchpad"
      × Finds u "touchscreen"
      × Finds u "tablet"
unfolding find device_type_mappings is_name_of contains device_type_enum
Finds-value u = (ground arith, ground arith, ground arith, ground arith, ground arith)

Finds-other :
    (v : String) (u : DeviceType)
    → str_eq v "mouse" ≡ false
    → str_eq v "keyboard" ≡ false
    → str_eq v "touchpad" ≡ false
    → str_eq v "touchscreen" ≡ false
    → str_eq v "tablet" ≡ false
    → Finds u v
unfolding find device_type_mappings is_name_of contains
Finds-other v u h1 h2 h3 h4 h5 = rw (h1, h2, h3, h4, h5) (ground arith)

one-is_name_of : (v : String) (u : DeviceType) → Finds u v
one-is_name_of v u =
    by_cases (Bool-cases (str_eq v "mouse")) (Bool-cases (str_eq v "keyboard"))
      (Bool-cases (str_eq v "touchpad")) (Bool-cases (str_eq v "touchscreen"))
      (Bool-cases (str_eq v "tablet"))
  where
    at : (s : String) → Finds u s → str_eq v s ≡ true → Finds u v
    at s f h = subst (Finds u) (sym ((eq_iff v s).0 h)) f

    Split : String → Type 0
    Split s = (str_eq v s ≡ true) ⊎ (str_eq v s ≡ false)

    by_cases :
        Split "mouse"
        → Split "keyboard"
        → Split "touchpad"
        → Split "touchscreen"
        → Split "tablet"
        → Finds u v
    by_cases (inl h) b c d e = at "mouse" (Finds-value u).0 h
    by_cases (inr a) (inl h) c d e = at "keyboard" (Finds-value u).1 h
    by_cases (inr a) (inr b) (inl h) d e = at "touchpad" (Finds-value u).2 h
    by_cases (inr a) (inr b) (inr c) (inl h) e = at "touchscreen" (Finds-value u).3 h
    by_cases (inr a) (inr b) (inr c) (inr d) (inl h) = at "tablet" (Finds-value u).4 h
    by_cases (inr a) (inr b) (inr c) (inr d) (inr e) = Finds-other v u a b c d e

contains-insert_mapped :
    (types : List DeviceType) (v : String) (u : DeviceType)
    → contains (insert_mapped types (find v device_type_mappings)) u
      ≡ (contains types u || is_name_of u v)
contains-insert_mapped types v u =
    inserted (find v device_type_mappings) ∙ ap (λ b. contains types u || b) (one-is_name_of v u)
  where
    inserted :
        (o : Option DeviceType) → contains (insert_mapped types o) u ≡ (contains types u || one o u)
    inserted none = sym (or-false (contains types u))
    inserted (some t) = contains-insert_type types t u

contains-filter_from :
    (types : List DeviceType) (values : List String) (u : DeviceType)
    → contains (filter_from types values) u ≡ (contains types u || names_type values u)
unfolding filter_from names_type
contains-filter_from types [] u = sym (or-false (contains types u))
contains-filter_from types (v ∷ vs) u =
    contains-filter_from (insert_mapped types (find v device_type_mappings)) vs u
    ∙ ap (λ b. b || names_type vs u) (contains-insert_mapped types v u)
    ∙ or_assoc (contains types u) (is_name_of u v) (names_type vs u)

-- A filter store with this filter keeps the entries of a device type.
abbrev pub lets_through : Option (List DeviceType) → DeviceType → Bool
lets_through none u = true
lets_through (some types) u = contains types u

-- A parse from no filter gives one that lets a device type through if there is no value of
-- `--filter`, if one is `all`, or if one is the name of the type, and not otherwise.
pub parse_filter-lets_through :
    (values : List String) (u : DeviceType)
    → lets_through (parse_filter none values) u
      ≡ (is_empty values || contains_text values "all" || names_type values u)
unfolding parse_filter names_type contains
parse_filter-lets_through [] u = refl
parse_filter-lets_through (v ∷ vs) u = elim (Bool-cases (contains_text (v ∷ vs) "all")) [
  | inl h ↦ rw h refl
  | inr h ↦ rw h (contains-filter_from [] (v ∷ vs) u)
]
