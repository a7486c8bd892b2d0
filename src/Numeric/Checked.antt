-- ===== src/Numeric/Checked.antt =====
-- Each checked operation gives the exact result where that is an `int64_t`, and nothing otherwise.
use lumiere.Common.{
  ℕ, zero, suc, ◌+◌, ◌*◌, ◌/◌, ◌%◌, ◌≤◌, ◌<◌, ◌≡◌, refl, ◌⊎◌, inl, inr, ◌||◌, Option, none, some,
  if◌then◌else◌, arith,
}
use lumiere.Common.Int.{ℤ, pos, negsuc, pos_part, neg_part, ◌+ℤ◌, ◌-ℤ◌, ◌*ℤ◌, ltb_ℤ, sub_ℕ}
use native.Mathlib.Nat.{le-div_iff_mul-le, div-le_self, div-add-mod, mod-lt}
use lumiere.Numeric.{
  ◌==ℤ◌, maximum, minimum, IsInt64, add, subtract, multiply, divide, remainder, negate, ◌/ℤ◌, ◌%ℤ◌,
  modulo, returns,
}

-- The exact result, if it is in range.
abbrev pub in_range : ℤ → Option ℤ
in_range v = if ltb_ℤ v minimum || ltb_ℤ maximum v then none else some v

-- On two `int64_t` values, `add` gives the exact sum where that is an `int64_t`, and nothing otherwise.
pub add_lem : (a b : ℤ) → IsInt64 a → IsInt64 b → add a b ≡ in_range (a +ℤ b)
unfolding add
add_lem a b ha hb = ground arith

-- On two `int64_t` values, `subtract` gives the exact difference where that is an `int64_t`, and
-- nothing otherwise.
pub subtract_lem : (a b : ℤ) → IsInt64 a → IsInt64 b → subtract a b ≡ in_range (a -ℤ b)
unfolding subtract
subtract_lem a b ha hb = ground arith

-- On an `int64_t` value, `negate` gives the opposite where that is an `int64_t`, and nothing otherwise.
pub negate_lem : (a : ℤ) → IsInt64 a → negate a ≡ in_range (pos 0 -ℤ a)
unfolding negate
negate_lem a ha = ground arith

-- `x <= y / k` is `x * k <= y`.
fits : (x y k : ℕ) → (x ≤ y / suc k → x * suc k ≤ y) × (x * suc k ≤ y → x ≤ y / suc k)
fits x y k = le-div_iff_mul-le (omega arith)

-- On two `int64_t` values, `multiply` gives the exact product where that is an `int64_t`, and nothing
-- otherwise.
pub multiply_lem : (a b : ℤ) → IsInt64 a → IsInt64 b → multiply a b ≡ in_range (a *ℤ b)
unfolding multiply
multiply_lem (pos zero) b ha hb = ground arith
multiply_lem (pos (suc a)) (pos zero) ha hb = ground arith
multiply_lem (pos (suc a)) (pos (suc b)) ha hb = ground (arith, fits (suc a) 9223372036854775807 b)
multiply_lem (pos (suc a)) (negsuc b) ha hb = ground (arith, fits (suc b) 9223372036854775808 a)
multiply_lem (negsuc a) (pos zero) ha hb = ground arith
multiply_lem (negsuc a) (pos (suc b)) ha hb = ground (arith, fits (suc a) 9223372036854775808 b)
multiply_lem (negsuc a) (negsuc b) ha hb = ground (arith, fits (suc a) 9223372036854775807 b)

-- On two `int64_t` values, `divide` gives nothing for the divisor 0; otherwise it gives the quotient cut
-- towards zero where that is an `int64_t`, and nothing where it is not.
pub divide_lem :
    (a b : ℤ)
    → IsInt64 a
    → IsInt64 b
    → divide a b ≡ (if b ==ℤ pos 0 then none else in_range (a /ℤ b))
unfolding divide
divide_lem (pos a) (pos zero) ha hb = ground arith
divide_lem (pos a) (pos (suc b)) ha hb = ground (arith, div-le_self a (suc b))
divide_lem (pos a) (negsuc b) ha hb = ground (arith, div-le_self a (suc b))
divide_lem (negsuc a) (pos zero) ha hb = ground arith
divide_lem (negsuc a) (pos (suc b)) ha hb = ground (arith, div-le_self (suc a) (suc b))
divide_lem (negsuc a) (negsuc zero) ha hb = ground arith
divide_lem (negsuc a) (negsuc (suc b)) ha hb =
    ground (arith, fits 9223372036854775808 (suc a) (suc b))

abbrev pub magnitude : ℤ → ℕ
magnitude a = pos_part a + neg_part a

-- `remainder` never comes to the undefined cases of `%`. For a zero divisor it gives nothing; for every
-- other one it gives a value that, with the quotient cut towards zero, gives back the dividend, that is
-- smaller than the divisor in magnitude and whose positive and negative parts do not exceed the
-- dividend's.
pub remainder_lem :
    (a b : ℤ)
    → ((b ≡ pos 0) × (remainder a b ≡ returns none))
      ⊎ ((r : ℤ) × (remainder a b ≡ returns (some r))
          × (b *ℤ (a /ℤ b) +ℤ r ≡ a)
          × (magnitude r < magnitude b)
          × (pos_part r ≤ pos_part a)
          × (neg_part r ≤ neg_part a))
unfolding remainder modulo ◌/ℤ◌ ◌%ℤ◌ ◌*ℤ◌ ◌+ℤ◌
remainder_lem (pos a) (pos zero) = inl (refl, ground arith)
remainder_lem (pos a) (pos (suc b)) =
    let d = div-add-mod a (suc b) in
    let m = mod-lt a {m = suc b} in
    inr (
      pos (a % suc b),
      ground arith,
      ground (arith, d, m),
      ground (arith, d, m),
      ground (arith, d, m),
      ground (arith, d, m),
    )
remainder_lem (pos a) (negsuc b) =
    let d = div-add-mod a (suc b) in
    let m = mod-lt a {m = suc b} in
    inr (
      pos (a % suc b),
      ground arith,
      ground (arith, d, m),
      ground (arith, d, m),
      ground (arith, d, m),
      ground (arith, d, m),
    )
remainder_lem (negsuc a) (pos zero) = inl (refl, ground arith)
remainder_lem (negsuc a) (pos (suc b)) =
    let d = div-add-mod (suc a) (suc b) in
    let m = mod-lt (suc a) {m = suc b} in
    inr (
      sub_ℕ 0 (suc a % suc b),
      ground arith,
      ground (arith, d, m),
      ground (arith, d, m),
      ground (arith, d, m),
      ground (arith, d, m),
    )
remainder_lem (negsuc a) (negsuc b) =
    let d = div-add-mod (suc a) (suc b) in
    let m = mod-lt (suc a) {m = suc b} in
    inr (
      sub_ℕ 0 (suc a % suc b),
      ground (arith, d, m),
      ground (arith, d, m),
      ground (arith, d, m),
      ground (arith, d, m),
      ground (arith, d, m),
    )
