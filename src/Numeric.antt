-- ===== src/Numeric.antt =====
-- Checked arithmetic on `std::int64_t` (include/lumiere/interpreter/runtime/numeric.hpp). A value is
-- an integer; every subexpression of the tests stays in range, so no operation here wraps around.
pub mod Checked
pub mod Parse
mod Tests
use lumiere.Common.{
  ℕ, suc, ◌+◌, ◌-◌, ◌*◌, ◌/◌, ◌%◌, ◌^◌, ◌≤◌, Bool, ◌&&◌, ◌||◌, Option, none, some, ltb, ◌==◌,
  if◌then◌else◌,
}
use lumiere.Common.Int.{ℤ, pos, negsuc, pos_part, neg_part, sub_ℕ, ◌+ℤ◌, ◌-ℤ◌, ◌*ℤ◌, ◌≤ℤ◌, ltb_ℤ}

abbrev pub maximum : ℤ
maximum = pos 9223372036854775807

abbrev pub minimum : ℤ
minimum = negsuc 9223372036854775807

abbrev pub IsInt64 : ℤ → Type 0
IsInt64 v = (minimum ≤ℤ v) × (v ≤ℤ maximum)

abbrev pub ◌==ℤ◌ : ℤ → ℤ → Bool

infix 50 ◌==ℤ◌
a ==ℤ b = pos_part a + neg_part b == pos_part b + neg_part a

-- C++ `/` and `%`: the quotient is cut towards zero and the remainder has the sign of `a`. A zero
-- divisor, which C++ leaves undefined, is not passed.
unfoldable pub ◌/ℤ◌ : ℤ → ℤ → ℤ

infixl 70 ◌/ℤ◌ ◌%ℤ◌
pos a /ℤ pos b = pos (a / b)
pos a /ℤ negsuc b = sub_ℕ 0 (a / suc b)
negsuc a /ℤ pos b = sub_ℕ 0 (suc a / b)
negsuc a /ℤ negsuc b = pos (suc a / suc b)

unfoldable pub ◌%ℤ◌ : ℤ → ℤ → ℤ
pos a %ℤ pos b = pos (a % b)
pos a %ℤ negsuc b = pos (a % suc b)
negsuc a %ℤ pos b = sub_ℕ 0 (suc a % b)
negsuc a %ℤ negsuc b = sub_ℕ 0 (suc a % suc b)

unfoldable pub add : ℤ → ℤ → Option ℤ
unfolding ◌-ℤ◌ ◌+ℤ◌
add a b =
    if (ltb_ℤ (pos 0) b && ltb_ℤ (maximum -ℤ b) a) || (ltb_ℤ b (pos 0) && ltb_ℤ a (minimum -ℤ b))
    then none
    else some (a +ℤ b)

unfoldable pub subtract : ℤ → ℤ → Option ℤ
unfolding ◌-ℤ◌ ◌+ℤ◌
subtract a b =
    if (ltb_ℤ b (pos 0) && ltb_ℤ (maximum +ℤ b) a) || (ltb_ℤ (pos 0) b && ltb_ℤ a (minimum +ℤ b))
    then none
    else some (a -ℤ b)

unfoldable pub multiply : ℤ → ℤ → Option ℤ
unfolding ◌*ℤ◌ ◌/ℤ◌
multiply a b =
    if ltb_ℤ (pos 0) a
      && ((ltb_ℤ (pos 0) b && ltb_ℤ (maximum /ℤ b) a)
          || (ltb_ℤ b (pos 0) && ltb_ℤ b (minimum /ℤ a)))
    then none
    else if ltb_ℤ a (pos 0)
        && ((ltb_ℤ (pos 0) b && ltb_ℤ a (minimum /ℤ b))
            || (ltb_ℤ b (pos 0) && ltb_ℤ a (maximum /ℤ b)))
    then none
    else some (a *ℤ b)

unfoldable pub divide : ℤ → ℤ → Option ℤ
unfolding ◌/ℤ◌
divide a b = if b ==ℤ pos 0 || (a ==ℤ minimum && b ==ℤ negsuc 0) then none else some (a /ℤ b)

-- What an evaluation gives: a result, or behaviour that C++ leaves undefined.
pub data Evaluated : Type 0 where
  returns : Option ℤ → Evaluated
  undefined : Evaluated

-- The operator `%` on `int64_t`: undefined for a zero divisor and where the quotient is no `int64_t`.
unfoldable pub modulo : ℤ → ℤ → Evaluated
unfolding ◌%ℤ◌
modulo a b =
    if b ==ℤ pos 0 || (a ==ℤ minimum && b ==ℤ negsuc 0) then undefined else returns (some (a %ℤ b))

unfoldable pub remainder : ℤ → ℤ → Evaluated
unfolding modulo
remainder a b =
    if b ==ℤ pos 0
    then returns none
    else if a ==ℤ minimum && b ==ℤ negsuc 0
    then returns (some (pos 0))
    else modulo a b

unfoldable pub negate : ℤ → Option ℤ
unfolding subtract
negate value = subtract (pos 0) value
