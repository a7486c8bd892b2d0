-- ===== src/Numeric/Tests.antt =====
-- The checked operations at the ends of their range (tests/test_numeric.cpp), and the theorems there.
use lumiere.Common.{ℕ, List, [], ◌∷◌, ◌⊎◌, ◌≡◌, ◌<◌, ◌≤◌, refl, none, some, arith, if◌then◌else◌}
use lumiere.Common.Int.{ℤ, pos, negsuc, pos_part, neg_part, ◌+ℤ◌, ◌-ℤ◌, ◌*ℤ◌}
use lumiere.Numeric.{
  minimum, maximum, add, subtract, multiply, divide, remainder, negate, returns, modulo, ◌%ℤ◌, ◌/ℤ◌,
  ◌==ℤ◌,
}
use lumiere.Numeric.Parse.{
  without_digit_separators, digit, decimal_digits, magnitude_of, positive, negative, from_chars,
  stoll, parse_integer_literal, drop_plus, parse_integer,
}
use lumiere.Numeric.Parse.Bounds.{StartsPlusMinus, parse_integer-literal}
use lumiere.Numeric.Checked.{
  in_range, magnitude, add_lem, subtract_lem, negate_lem, multiply_lem, divide_lem, remainder_lem,
}

minimum_by_minus_one :
    (divide minimum (negsuc 0) ≡ none) × (remainder minimum (negsuc 0) ≡ returns (some (pos 0)))
unfolding divide remainder
minimum_by_minus_one = (refl, refl)

negative_remainder : remainder (negsuc 6) (pos 3) ≡ returns (some (negsuc 0))
unfolding remainder modulo ◌%ℤ◌
negative_remainder = refl

product_too_large : multiply (pos 3037000500) (pos 3037000500) ≡ none
unfolding multiply
product_too_large = refl

add_lem_example : add maximum (pos 1) ≡ in_range (maximum +ℤ pos 1)
add_lem_example = add_lem maximum (pos 1) (omega arith, omega arith) (omega arith, omega arith)

subtract_lem_example : subtract minimum (pos 1) ≡ in_range (minimum -ℤ pos 1)
subtract_lem_example =
    subtract_lem minimum (pos 1) (omega arith, omega arith) (omega arith, omega arith)

negate_lem_example : negate minimum ≡ in_range (pos 0 -ℤ minimum)
negate_lem_example = negate_lem minimum (omega arith, omega arith)

multiply_lem_example : multiply (negsuc 6) (pos 3) ≡ in_range (negsuc 6 *ℤ pos 3)
multiply_lem_example =
    multiply_lem (negsuc 6) (pos 3) (omega arith, omega arith) (omega arith, omega arith)

divide_lem_example :
    divide minimum (negsuc 0)
    ≡ (if negsuc 0 ==ℤ pos 0 then none else in_range (minimum /ℤ negsuc 0))
divide_lem_example =
    divide_lem minimum (negsuc 0) (omega arith, omega arith) (omega arith, omega arith)

remainder_lem_example :
    ((negsuc 0 ≡ pos 0) × (remainder minimum (negsuc 0) ≡ returns none))
    ⊎ ((r : ℤ) × (remainder minimum (negsuc 0) ≡ returns (some r))
        × (negsuc 0 *ℤ (minimum /ℤ negsuc 0) +ℤ r ≡ minimum)
        × (magnitude r < magnitude (negsuc 0))
        × (pos_part r ≤ pos_part minimum)
        × (neg_part r ≤ neg_part minimum))
remainder_lem_example = remainder_lem minimum (negsuc 0)

-- "+-5"
abbrev plus_minus : List ℕ
plus_minus = 43 ∷ 45 ∷ 53 ∷ []

plus_minus_accepted :
    (parse_integer plus_minus ≡ some (negsuc 4)) × (parse_integer_literal plus_minus ≡ none)
unfolding parse_integer drop_plus from_chars negative positive magnitude_of decimal_digits digit
    parse_integer_literal stoll without_digit_separators
plus_minus_accepted = (refl, refl)

-- "+42"
plus_accepted : parse_integer (43 ∷ 52 ∷ 50 ∷ []) ≡ some (pos 42)
unfolding parse_integer drop_plus from_chars negative positive magnitude_of decimal_digits digit
plus_accepted = refl

parse_integer-literal_example :
    StartsPlusMinus (43 ∷ 52 ∷ 50 ∷ [])
    ⊎ (parse_integer_literal (43 ∷ 52 ∷ 50 ∷ []) ≡ some (pos 42))
parse_integer-literal_example = parse_integer-literal (43 ∷ 52 ∷ 50 ∷ []) (pos 42) plus_accepted
