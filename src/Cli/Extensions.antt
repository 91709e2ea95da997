-- ===== src/Cli/Extensions.antt =====
-- `GetStorageType` of evget/src/cli.cpp on paths with an extension.
use Prim.Native.Char.{Char, code}
use text.Mathlib.TextLemmas.{cons-append, nil-append, tail-eq_of_cons-eq}
use evget.Prelude.{
  Option, List, [], ◌∷◌, true, str_eq, eq_iff, ◌≡◌, refl, ap, sym, ◌∙◌, String, Bool, false, ◌||◌,
  some, none, ◌<>◌, ◌==◌, Bool-cases, inl, inr, ◌⊎◌, arith, if◌then◌else◌,
}
use evget.Cli.Text.{
  StorageType, sq_lite, json, extension, map_chars, is_database, type_of_extension,
  get_storage_type,
}

-- A text has a dot.
unfoldable pub has_dot : String → Bool
has_dot String.[] = false
has_dot (String.◌∷◌ c s) = code c == b'.' || has_dot s

extension-none : (s : String) → has_dot s ≡ false → extension s ≡ none
unfolding has_dot extension
extension-none String.[] h = refl
extension-none (String.◌∷◌ c s) h = elim (Bool-cases (code c == b'.')) [
  | inl dot ↦ ground arith
  | inr other ↦ rw (extension-none s (ground arith), other) refl
]

-- The last dot of a text stays the last with a text in front of it.
extension-append :
    (stem e tail : String) → extension tail ≡ some e → extension (stem <> tail) ≡ some e
unfolding extension
extension-append String.[] e tail h = ap extension (nil-append tail) ∙ h
extension-append (String.◌∷◌ c s) e tail h =
    ap extension (cons-append c s tail) ∙ rw (extension-append s e tail h, extension) refl

abbrev dot : Char
dot = "."

dot-append : (ext : String) → "." <> ext ≡ String.◌∷◌ dot ext
dot-append ext = cons-append dot String.[] ext ∙ ap (String.◌∷◌ dot) (nil-append ext)

extension-dot : (ext : String) → has_dot ext ≡ false → extension ("." <> ext) ≡ some ("." <> ext)
unfolding extension
extension-dot ext h =
    ap extension (dot-append ext) ∙ rw (extension-none ext h) (ap some (sym (dot-append ext)))

-- The text behind the last dot of a path, if it has a dot.
pub data Suffix : String → Option String → Type 0 where
  plain : (s : String) → has_dot s ≡ false → Suffix s none
  dotted : (stem ext : String) → has_dot ext ≡ false → Suffix (stem <> "." <> ext) (some ext)

-- The extensions of databases.
abbrev pub database_extensions : List String
database_extensions = "sqlite" ∷ "sqlite3" ∷ "db" ∷ "db3" ∷ "s3db" ∷ "sl3" ∷ []

abbrev pub one_of : List String → String → Bool
one_of [] s = false
one_of (x ∷ xs) s = str_eq s x || one_of xs s

-- The type for a suffix, with each of its letters in lower case.
abbrev pub type_of_suffix : (Char → Char) → Option String → StorageType
type_of_suffix tolower none = json
type_of_suffix tolower (some ext) =
    if one_of database_extensions (map_chars tolower ext) then sq_lite else json

-- Equality of texts behind one dot.
str_eq-dot : (s t : String) → str_eq (String.◌∷◌ dot s) (String.◌∷◌ dot t) ≡ str_eq s t
str_eq-dot s t = by_cases (Bool-cases (str_eq s t))
  where
    front : String → String
    front u = String.◌∷◌ dot u

    differ : str_eq s t ≡ false → (b : Bool) → str_eq (front s) (front t) ≡ b → b ≡ false
    differ h true k =
        sym ((eq_iff s t).1 (tail-eq_of_cons-eq ((eq_iff (front s) (front t)).0 k))) ∙ h
    differ h false k = refl

    by_cases : (str_eq s t ≡ true) ⊎ (str_eq s t ≡ false) → str_eq (front s) (front t) ≡ str_eq s t
    by_cases (inl h) = (eq_iff (front s) (front t)).1 (ap front ((eq_iff s t).0 h)) ∙ sym h
    by_cases (inr h) = differ h _ refl ∙ sym h

is_database-one_of : (s : String) → is_database (String.◌∷◌ dot s) ≡ one_of database_extensions s
unfolding is_database
is_database-one_of s =
    rw
      (
        str_eq-dot s "sqlite",
        str_eq-dot s "sqlite3",
        str_eq-dot s "db",
        str_eq-dot s "db3",
        str_eq-dot s "s3db",
        str_eq-dot s "sl3",
      )
      (ground arith)

-- If `std::tolower` leaves the dot as it is, the type of the storage of every path depends on the
-- text behind its last dot alone: it is SQLite if that text, with each letter in lower case, is one
-- of the six extensions of databases, and JSON if it is another or if the path has no dot.
pub get_storage_type-Suffix :
    (tolower : Char → Char) (output : String) (ext : Option String)
    → tolower dot ≡ dot
    → Suffix output ext
    → get_storage_type tolower output ≡ type_of_suffix tolower ext
unfolding get_storage_type map_chars
get_storage_type-Suffix tolower output ext keeps (plain s h) =
    ap (type_of_extension tolower) (extension-none s h)
get_storage_type-Suffix tolower output ext keeps (dotted stem e h) =
    ap (type_of_extension tolower)
      (extension-append stem ("." <> e) ("." <> e) (extension-dot e h) ∙ ap some (dot-append e))
    ∙ ap (λ c. if is_database (String.◌∷◌ c (map_chars tolower e)) then sq_lite else json) keeps
    ∙ ap (λ b. if b then sq_lite else json) (is_database-one_of (map_chars tolower e))
