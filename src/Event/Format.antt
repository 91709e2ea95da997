-- ===== src/Event/Format.antt =====
-- The values of fields as text, evget/include/evget/event/schema.h. Floating-point numbers and clock
-- times are types of the platform: `D` is `double` with its `std::to_string`, and `T` is
-- `TimestampType` with the text that `std::format` gives it.
use evget.Prelude.{String, Option, to_string}
use evget.Prelude.Int.{ℤ}
use evget.Event.Names.{optional_to_string}

pub record Formats (D T : Type 0) : Type 0 where
  pub double_to_string : D → String
  pub format_timestamp : T → String

unfoldable pub from_string : Option String → String
from_string value = optional_to_string value (λ s. s)

unfoldable pub from_int : Option ℤ → String
unfolding to_string
from_int value = optional_to_string value to_string

unfoldable pub from_interval : Option ℤ → String
unfolding to_string
from_interval value = optional_to_string value to_string

module _ {D T : Type 0} (formats : Formats D T) where
  unfoldable pub from_timestamp : Option T → String
  from_timestamp value = optional_to_string value formats.format_timestamp

  unfoldable pub from_double : Option D → String
  from_double value = optional_to_string value formats.double_to_string
