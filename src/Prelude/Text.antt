-- ===== src/Prelude/Text.antt =====
-- Text as the standard library treats it: `std::to_string` of an integer, and `std::stoi`.
use Prim.Native.Nat.{ℕ, zero, suc, ◌+◌, ◌-◌, ◌*◌, ◌/◌, ◌%◌, ◌^◌}
use Prim.Native.Char.{Char, code}
use Prim.Native.String.{String}
use mathlib.Core.Bool.{Bool, ◌&&◌, ◌||◌}
use mathlib.Core.Option.{Option, none, some}
use text.Mathlib.Text.{◌==◌ as text_eq}
use evget.Prelude.Tests.{ltb, leb, ◌==◌, if◌then◌else◌}
use evget.Prelude.Int.{ℤ, pos, negsuc}

-- Equality of two texts.
abbrev pub str_eq : String → String → Bool
str_eq = text_eq

infixr 65 ◌<>◌
abbrev pub ◌<>◌ : String → String → String
s <> t = Prim.Native.String.◌++◌ s t

digit : ℕ → String
digit d =
    if d == 0
    then "0"
    else if d == 1
    then "1"
    else if d == 2
    then "2"
    else if d == 3
    then "3"
    else if d == 4
    then "4"
    else if d == 5
    then "5"
    else if d == 6
    then "6"
    else if d == 7
    then "7"
    else if d == 8
    then "8"
    else "9"

-- The decimal digits of `n` in front of `rest`; `n + 1` rounds are enough.
digits : ℕ → ℕ → String → String
unfolding digit
digits zero n rest = rest
digits (suc fuel) n rest =
    let more = digits fuel (n / 10) (digit (n % 10) <> rest) in
    if ltb n 10 then digit n <> rest else more

-- std::to_string
unfoldable pub to_string : ℤ → String
unfolding digits
to_string (pos n) = digits (suc n) n ""
to_string (negsuc n) = "-" <> digits (suc (suc n)) (suc n) ""

-- What the standard library and Boost throw, and `null_pointer` where the program reads through a null
-- pointer, which ends it.
pub data Exception : Type 0 where
  invalid_argument out_of_range bad_numeric_cast null_pointer type_error : Exception

-- A call that may throw.
pub data Throws {ℓ} (A : Type ℓ) : Type ℓ where
  returns : A → Throws A
  throws : Exception → Throws A

infixl 5 ◌>>=◌
abbrev pub ◌>>=◌ {ℓ κ} : {A : Type ℓ} {B : Type κ} → Throws A → (A → Throws B) → Throws B
returns a >>= f = f a
throws e >>= f = throws e

is_digit : Char → Bool
is_digit c = leb b'0' (code c) && leb (code c) b'9'

is_space : Char → Bool
is_space c = code c == b' ' || leb 9 (code c) && leb (code c) 13

-- The number that the leading digits of a text write, after the digits read so far.
read_digits : Option ℕ → String → Option ℕ
unfolding is_digit
read_digits seen String.[] = seen
read_digits seen (String.◌∷◌ c s) =
    let more = read_digits (some (elim seen [ none ↦ 0 | some n ↦ n * 10 ] + (code c - b'0'))) s in
    if is_digit c then more else seen

in_int_range : ℤ → Throws ℤ
in_int_range (pos n) = if ltb n (2 ^ 31) then returns (pos n) else throws out_of_range
in_int_range (negsuc n) = if ltb n (2 ^ 31) then returns (negsuc n) else throws out_of_range

negated : ℕ → ℤ
negated zero = pos 0
negated (suc n) = negsuc n

unsigned_int : (ℕ → ℤ) → String → Throws ℤ
unfolding read_digits in_int_range
unsigned_int sign s = elim (read_digits none s) [
  | none ↦ throws invalid_argument
  | some n ↦ in_int_range (sign n)
]

-- std::stoi in base 10: white space, a sign, digits, and any rest.
unfoldable pub stoi : String → Throws ℤ
unfolding unsigned_int negated is_space
stoi String.[] = throws invalid_argument
stoi (String.◌∷◌ c s) =
    let rest = stoi s in
    if is_space c
    then rest
    else if code c == b'-'
    then unsigned_int negated s
    else if code c == b'+'
    then unsigned_int pos s
    else unsigned_int pos (String.◌∷◌ c s)
