-- ===== src/Numeric/Parse.antt =====
-- Reading an integer from text (include/lumiere/interpreter/runtime/numeric.hpp). Text is a list of
-- bytes; the readers of the C++ library that the two functions call are written out here.
pub mod Bounds
use lumiere.Common.{
  ℕ, zero, suc, ◌+◌, ◌-◌, ◌*◌, Bool, not, ◌&&◌, ◌||◌, Option, none, some, List, [], ◌∷◌, leb, ◌==◌,
  if◌then◌else◌,
}
use lumiere.Common.Int.{ℤ, pos, negsuc, sub_ℕ}

unfoldable pub without_digit_separators : List ℕ → List ℕ
without_digit_separators [] = []
without_digit_separators (c ∷ rest) =
    if c == 95 then without_digit_separators rest else c ∷ without_digit_separators rest

unfoldable pub digit : ℕ → Option ℕ
digit c = if leb 48 c && leb c 57 then some (c - 48) else none

-- The value of a text of decimal digits behind `value`; a text that goes on with another byte is not
-- read to its end, which both functions refuse.
unfoldable pub decimal_digits : ℕ → List ℕ → Option ℕ
decimal_digits value [] = some value
decimal_digits value (c ∷ rest) =
    let behind : ℕ → Option ℕ = λ d. decimal_digits (value * 10 + d) rest in
    elim (digit c) [ none ↦ none | some d ↦ behind d ]

-- One digit at least, and a magnitude up to `limit`.
unfoldable pub magnitude_of : ℕ → List ℕ → Option ℕ
magnitude_of limit [] = none
magnitude_of limit (c ∷ rest) = elim (decimal_digits 0 (c ∷ rest)) [
  | none ↦ none
  | some value ↦ if leb value limit then some value else none
]

unfoldable pub positive : List ℕ → Option ℤ
positive text = elim (magnitude_of 9223372036854775807 text) [
  | none ↦ none
  | some value ↦ some (pos value)
]

unfoldable pub negative : List ℕ → Option ℤ
negative text = elim (magnitude_of 9223372036854775808 text) [
  | none ↦ none
  | some value ↦ some (sub_ℕ 0 value)
]

-- `std::from_chars`: no white space, and a minus sign only.
unfoldable pub from_chars : List ℕ → Option ℤ
from_chars [] = none
from_chars (c ∷ rest) = if c == 45 then negative rest else positive (c ∷ rest)

-- `std::stoll`: white space first (that of the C locale), then either sign.
unfoldable pub stoll : List ℕ → Option ℤ
stoll [] = none
stoll (c ∷ rest) =
    let behind : Option ℤ = stoll rest in
    if c == 32 || (leb 9 c && leb c 13)
    then behind
    else if c == 45
    then negative rest
    else if c == 43
    then positive rest
    else positive (c ∷ rest)

unfoldable pub parse_integer_literal : List ℕ → Option ℤ
parse_integer_literal text = stoll (without_digit_separators text)

unfoldable pub drop_plus : List ℕ → List ℕ
drop_plus [] = []
drop_plus (c ∷ rest) = if c == 43 then rest else c ∷ rest

unfoldable pub parse_integer : List ℕ → Option ℤ
parse_integer text = from_chars (drop_plus text)
