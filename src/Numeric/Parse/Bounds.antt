-- ===== src/Numeric/Parse/Bounds.antt =====
-- What the two readers of an integer accept.
use mathlib.Core.Path.{subst}
use lumiere.Common.{
  ℕ, ◌+◌, ◌*◌, ◌≤◌, ◌≡◌, refl, ap, ◌∙◌, some, List, [], ◌∷◌, get_elem?, ◌==◌, arith, Bool-cases,
  Option-cases, inl, inr, ◌⊎◌,
}
use lumiere.Common.Int.{ℤ}
use lumiere.Numeric.Parse.{
  without_digit_separators, digit, decimal_digits, magnitude_of, positive, negative, from_chars,
  stoll, parse_integer_literal, drop_plus, parse_integer,
}

digit_range : (c d : ℕ) → digit c ≡ some d → (48 ≤ c) × (c ≤ 57)
unfolding digit
digit_range c d h = (ground arith, ground arith)

first_digit :
    (c : ℕ) (rest : List ℕ) (value v : ℕ)
    → decimal_digits value (c ∷ rest) ≡ some v
    → (d : ℕ) × (digit c ≡ some d) × (decimal_digits (value * 10 + d) rest ≡ some v)
unfolding decimal_digits
first_digit c rest value v h = elim (Option-cases (digit c)) [
  | inl nothing ↦ absurd (cc (rw (nothing, decimal_digits) at h))
  | inr (d, found) ↦ (d, found, rw (found, decimal_digits) at h)
]

-- A text of digits has no separators to take out.
plain_digits :
    (text : List ℕ) (value v : ℕ)
    → decimal_digits value text ≡ some v
    → without_digit_separators text ≡ text
unfolding without_digit_separators
plain_digits [] value v h = refl
plain_digits (c ∷ rest) value v h =
    let (d, found, behind) = first_digit c rest value v h in
    ground (arith, digit_range c d found, plain_digits rest (value * 10 + d) v behind)

magnitude_of-digits :
    (limit : ℕ) (text : List ℕ) (v : ℕ)
    → magnitude_of limit text ≡ some v
    → decimal_digits 0 text ≡ some v
unfolding magnitude_of
magnitude_of-digits limit [] v h = absurd (cc)
magnitude_of-digits limit (c ∷ rest) v h = elim (Option-cases (decimal_digits 0 (c ∷ rest))) [
  | inl nothing ↦ absurd (ground arith)
  | inr (value, found) ↦ ground arith
]

positive-digits :
    (text : List ℕ) (v : ℤ) → positive text ≡ some v → (n : ℕ) × (decimal_digits 0 text ≡ some n)
unfolding positive
positive-digits text v h = elim (Option-cases (magnitude_of 9223372036854775807 text)) [
  | inl nothing ↦ absurd (ground arith)
  | inr (n, found) ↦ (n, magnitude_of-digits 9223372036854775807 text n found)
]

negative-digits :
    (text : List ℕ) (v : ℤ) → negative text ≡ some v → (n : ℕ) × (decimal_digits 0 text ≡ some n)
unfolding negative
negative-digits text v h = elim (Option-cases (magnitude_of 9223372036854775808 text)) [
  | inl nothing ↦ absurd (ground arith)
  | inr (n, found) ↦ (n, magnitude_of-digits 9223372036854775808 text n found)
]

-- `stoll` on digits, behind a sign or none.
literal_minus :
    (rest : List ℕ) (v : ℤ) → negative rest ≡ some v → parse_integer_literal (45 ∷ rest) ≡ some v
unfolding parse_integer_literal without_digit_separators stoll
literal_minus rest v h =
    let (n, digits) = negative-digits rest v h in rw (plain_digits rest 0 n digits) h

literal_plus :
    (rest : List ℕ) (v : ℤ) → positive rest ≡ some v → parse_integer_literal (43 ∷ rest) ≡ some v
unfolding parse_integer_literal without_digit_separators stoll
literal_plus rest v h =
    let (n, digits) = positive-digits rest v h in rw (plain_digits rest 0 n digits) h

stoll-digit :
    (c : ℕ) (rest : List ℕ) (d : ℕ) → digit c ≡ some d → stoll (c ∷ rest) ≡ positive (c ∷ rest)
unfolding stoll
stoll-digit c rest d h = ground (arith, digit_range c d h)

literal_plain :
    (text : List ℕ) (v : ℤ) → positive text ≡ some v → parse_integer_literal text ≡ some v
unfolding parse_integer_literal positive magnitude_of
literal_plain [] v h = absurd (cc)
literal_plain (c ∷ rest) v h =
    let (n, digits) = positive-digits (c ∷ rest) v h in
    let (d, found, behind) = first_digit c rest 0 n digits in
    ap stoll (plain_digits (c ∷ rest) 0 n digits) ∙ stoll-digit c rest d found ∙ h

-- "+-" at the start of a text.
abbrev pub StartsPlusMinus : List ℕ → Type 0
StartsPlusMinus text = (get_elem? text 0 ≡ some 43) × (get_elem? text 1 ≡ some 45)

literal_signed :
    (c : ℕ) (rest : List ℕ) (v : ℤ)
    → from_chars (c ∷ rest) ≡ some v
    → parse_integer_literal (c ∷ rest) ≡ some v
unfolding from_chars
literal_signed c rest v h = elim (Bool-cases (c == 45)) [
  | inl minus ↦
      subst (λ byte. parse_integer_literal (byte ∷ rest) ≡ some v) {x = 45} {y = c} (ground arith)
        (literal_minus rest v (rw minus at h))
  | inr plain ↦ literal_plain (c ∷ rest) v (rw plain at h)
]

behind_plus :
    (rest : List ℕ) (v : ℤ)
    → from_chars rest ≡ some v
    → (get_elem? rest 0 ≡ some 45) ⊎ (parse_integer_literal (43 ∷ rest) ≡ some v)
unfolding from_chars
behind_plus [] v h = absurd (cc)
behind_plus (c ∷ rest) v h = elim (Bool-cases (c == 45)) [
  | inl minus ↦ inl (ground arith)
  | inr plain ↦ inr (literal_plus (c ∷ rest) v (rw plain at h))
]

-- What `parse_integer` reads from a text, `parse_integer_literal` reads too, unless the text starts
-- with "+-".
pub parse_integer-literal :
    (text : List ℕ) (v : ℤ)
    → parse_integer text ≡ some v
    → StartsPlusMinus text ⊎ (parse_integer_literal text ≡ some v)
unfolding parse_integer drop_plus from_chars
parse_integer-literal [] v h = absurd (cc)
parse_integer-literal (c ∷ rest) v h = elim (Bool-cases (c == 43)) [
  | inl plus ↦ elim (behind_plus rest v (rw plus at h)) [
    | inl minus ↦ inl (ground arith, minus)
    | inr same ↦ inr (
        subst (λ byte. parse_integer_literal (byte ∷ rest) ≡ some v) {x = 43} {y = c} (ground arith)
          same)
  ]
  | inr other ↦ inr (literal_signed c rest v (rw other at h))
]
