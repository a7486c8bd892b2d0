-- ===== src/Common/Bits.antt =====
-- `|` of disjoint bit fields and `&` with a mask of low bits, as arithmetic. The native operations
-- stand for a recursion on binary digits with fuel, so each law is proved for any fuel that is enough.
use Prim.Native.Nat.{bit_and, bit_or, digits, min, max, bit_and-bitwise, bit_or-bitwise}
use native.Mathlib.Nat.{le_refl, pow-suc, one-le-pow, div-add-mod, mod-lt}
use lumiere.Common.{ℕ, zero, suc, ◌+◌, ◌-◌, ◌*◌, ◌/◌, ◌%◌, ◌^◌, ◌≤◌, ◌<◌, ◌≡◌, refl, ap, ◌∙◌, arith}

double : (k q : ℕ) → q * 2 ^ suc k ≡ 2 * (q * 2 ^ k)
double k q = omega (arith, ap (λ (t : ℕ). q * t) (pow-suc 2 k))

half_mask : (k : ℕ) → ((2 ^ suc k - 1) / 2 ≡ 2 ^ k - 1) × ((2 ^ suc k - 1) % 2 ≡ 1)
half_mask k =
    (omega (arith, pow-suc 2 k, one-le-pow k 2), omega (arith, pow-suc 2 k, one-le-pow k 2))

mask_digits :
    (n k a q r : ℕ)
    → a ≤ n
    → a ≡ q * 2 ^ k + r
    → r < 2 ^ k
    → digits (λ y. 0) min n a (2 ^ k - 1) ≡ r
mask_digits zero k zero q r h e l = omega arith
mask_digits zero k (suc a) q r h e l = absurd (omega arith)
mask_digits (suc n) k zero q r h e l = omega arith
mask_digits (suc n) zero (suc a) q r h e l =
    omega (
      arith,
      mask_digits n zero (suc a / 2) (suc a / 2) 0 (omega arith) (omega arith) (omega arith),
    )
mask_digits (suc n) (suc k) (suc a) q r h e l =
    rw
      (
        (half_mask k).0,
        (half_mask k).1,
        mask_digits n k (suc a / 2) q (r / 2) (omega arith) (omega (arith, double k q))
            (omega (arith, pow-suc 2 k)),
      )
      (omega (arith, double k q))

or_digits : (n k a q r : ℕ) → a ≤ n → a ≡ q * 2 ^ k → r < 2 ^ k → digits (λ y. y) max n a r ≡ a + r
or_digits zero k zero q r h e l = omega arith
or_digits zero k (suc a) q r h e l = absurd (omega arith)
or_digits (suc n) k zero q r h e l = omega arith
or_digits (suc n) zero (suc a) q r h e l = omega (
  arith,
  or_digits n zero (suc a / 2) (suc a / 2) (r / 2) (omega arith) (omega arith) (omega arith),
)
or_digits (suc n) (suc k) (suc a) q r h e l = omega (
  arith,
  double k q,
  pow-suc 2 k,
  or_digits n k (suc a / 2) q (r / 2) (omega arith) (omega (arith, double k q))
      (omega (arith, pow-suc 2 k)),
)

-- `a & ((1 << k) - 1)` is the remainder.
pub bit_and-mask : (k a : ℕ) → bit_and a (2 ^ k - 1) ≡ a % 2 ^ k
bit_and-mask k a =
    bit_and-bitwise a (2 ^ k - 1)
    ∙ mask_digits a k a (a / 2 ^ k) (a % 2 ^ k) (le_refl a) (omega (arith, div-add-mod a (2 ^ k)))
        (mod-lt a (omega (arith, one-le-pow k 2)))

-- `(q << k) | r` is a sum where `r` has at most `k` bits.
pub bit_or-shift : (k q r : ℕ) → r < 2 ^ k → bit_or (q * 2 ^ k) r ≡ q * 2 ^ k + r
bit_or-shift k q r h =
    bit_or-bitwise (q * 2 ^ k) r ∙ or_digits (q * 2 ^ k) k (q * 2 ^ k) q r (le_refl _) refl h
