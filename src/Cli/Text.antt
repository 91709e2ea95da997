-- ===== src/Cli/Text.antt =====
-- The text of evget/src/cli.cpp: extensions, dimensions and the description of enumerated options.
use Prim.Native.Char.{Char, code}
use evget.Prelude.{
  ℕ, zero, suc, ◌+◌, String, Bool, ◌||◌, Option, none, some, List, [], ◌∷◌, ◌==◌, ltb, str_eq, ◌<>◌,
  if◌then◌else◌,
}

pub data StorageType : Type 0 where
  sq_lite json : StorageType

-- output.substr(output.rfind('.')), if there is a dot.
unfoldable pub extension : String → Option String
extension String.[] = none
extension (String.◌∷◌ c s) =
    let here = if code c == b'.' then some (String.◌∷◌ c s) else none in
    elim (extension s) [ some e ↦ some e | none ↦ here ]

-- std::ranges::transform with std::tolower, the parameter `tolower`
unfoldable pub map_chars : (Char → Char) → String → String
map_chars f String.[] = String.[]
map_chars f (String.◌∷◌ c s) = String.◌∷◌ (f c) (map_chars f s)

unfoldable pub is_database : String → Bool
is_database ext =
    str_eq ext ".sqlite"
    || str_eq ext ".sqlite3"
    || str_eq ext ".db"
    || str_eq ext ".db3"
    || str_eq ext ".s3db"
    || str_eq ext ".sl3"

abbrev pub type_of_extension : (Char → Char) → Option String → StorageType
type_of_extension tolower none = json
type_of_extension tolower (some ext) = if is_database (map_chars tolower ext) then sq_lite else json

-- GetStorageType
unfoldable pub get_storage_type : (Char → Char) → String → StorageType
unfolding extension map_chars is_database
get_storage_type tolower output = type_of_extension tolower (extension output)

-- The texts in front of and behind the first 'x'.
unfoldable pub split_at_x : String → Option (String × String)
split_at_x String.[] = none
split_at_x (String.◌∷◌ c s) =
    let rest = split_at_x s in
    if code c == b'x'
    then some (String.[], s)
    else elim rest [ none ↦ none | some (before, behind) ↦ some (String.◌∷◌ c before, behind) ]

abbrev pub indent_by : ℕ
indent_by = 30

-- `n` spaces
unfoldable pub spaces : ℕ → String
spaces zero = ""
spaces (suc n) = " " <> spaces n

-- The loop of FormatEnum over the descriptions from index `i` on, of `size` in all.
unfoldable pub format_descriptions : ℕ → ℕ → List String → String
unfolding spaces
format_descriptions size i [] = ""
format_descriptions size i (d ∷ ds) =
    let rest = format_descriptions size (i + 1) ds in
    spaces indent_by
    <> d
    <> (if ltb 1 size then (if ltb (i + 1) size then "\n" else "") else "")
    <> rest

-- FormatEnum
unfoldable pub format_enum : String → String → List String → String → String
unfolding format_descriptions spaces
format_enum value_descriptor enum_description descriptions default_value =
    value_descriptor
    <> " ["
    <> default_value
    <> "]\n"
    <> spaces indent_by
    <> enum_description
    <> "\n"
    <> spaces indent_by
    <> "Possible values:\n"
    <> format_descriptions (length_of descriptions) 0 descriptions
  where
    length_of : List String → ℕ
    length_of [] = 0
    length_of (d ∷ ds) = suc (length_of ds)
