-- ===== src/Cli.antt =====
-- evget/src/cli.cpp: what the command line does with its options once they are read. The parsing of
-- the arguments, the case of enumerated values and the text of errors are those of the library CLI11.
pub mod Text
pub mod Mappings
pub mod Filters
pub mod Stores
pub mod Extensions
mod Examples
use evget.Prelude.{
  ℕ, ◌%◌, ◌^◌, String, Bool, true, false, ◌&&◌, not, Option, none, some, List, [], ◌∷◌, ◌++◌,
  is_empty, str_eq, if◌then◌else◌, Throws, returns, ◌>>=◌,
}
use evget.Error.{Result, ok, err}
use evget.Event.Enums.{DeviceType}
use evget.Database.Connection.{Action, ◌>>=◌ as ◌then◌, pure}
use evget.Storage.Filter.{contains}
use evget.Cli.Text.{StorageType, sq_lite, json, get_storage_type}
use evget.Cli.Mappings.{EventSource, Level, off, find, device_type_mappings}

-- The members of Cli that its options set.
pub record Cli : Type 0 where
  pub output : List String
  pub store_n_events : ℕ
  pub store_after : ℕ
  pub event_source : EventSource
  pub log_level : Option Level
  pub screen_dimensions : Option (ℕ × ℕ)
  pub display : Option String
  pub seat : Option String
  pub filter : Option (List DeviceType)

-- std::ranges::contains
unfoldable pub contains_text : List String → String → Bool
contains_text [] s = false
contains_text (x ∷ xs) s = let rest = contains_text xs s in if str_eq x s then true else rest

-- std::set::insert
abbrev pub insert_type : List DeviceType → DeviceType → List DeviceType
insert_type types t = if contains types t then types else types ++ t ∷ []

abbrev pub insert_mapped : List DeviceType → Option DeviceType → List DeviceType
insert_mapped types none = types
insert_mapped types (some t) = insert_type types t

-- The loop of Parse over the values of `--filter`.
unfoldable pub filter_from : List DeviceType → List String → List DeviceType
unfolding device_type_mappings
filter_from types [] = types
filter_from types (value ∷ values) =
    filter_from (insert_mapped types (find value device_type_mappings)) values

-- The filter that Parse leaves, from the one that was there.
unfoldable pub parse_filter : Option (List DeviceType) → List String → Option (List DeviceType)
unfolding filter_from contains_text
parse_filter filter raw_filter =
    if not (is_empty raw_filter) && not (contains_text raw_filter "all")
    then some (filter_from [] raw_filter)
    else filter

-- The output that Parse leaves.
unfoldable pub parse_output : List String → List String
parse_output [] = "-" ∷ []
parse_output output = output

-- The level that Parse sets, if it sets one.
unfoldable pub parse_level : List String → Option Level → Option Level
unfolding contains_text
parse_level output log_level = if contains_text output "-" then some off else log_level

-- The end of Parse, after the library has read the options.
unfoldable pub finish_parse : List String → Cli → Cli × Option Level
unfolding parse_filter parse_output parse_level
finish_parse raw_filter cli =
    let output = parse_output cli.output in
    (
      record cli { filter = parse_filter cli.filter raw_filter; output = output },
      parse_level output cli.log_level,
    )

module _ (stoul : String → Throws ℕ) where
  -- The callback of `--screen-dimensions`; `none` is its ValidationError.
  unfoldable pub parse_dimensions : String → Option (Throws (ℕ × ℕ))
  unfolding Text.split_at_x
  parse_dimensions value = elim (Text.split_at_x value) [
    | none ↦ none
    | some (before, behind) ↦ some (
        stoul before >>= λ width.
        stoul behind >>= λ height. returns (width % 2 ^ 32, height % 2 ^ 32))
  ]
