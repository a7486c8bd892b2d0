-- ===== src/Common/Masks.antt =====
-- Masks and shifts of one byte as arithmetic, each checked over its whole range by evaluation.
use Prim.Native.Nat.{bit_and}
use lumiere.Common.{ℕ, zero, suc, ◌*◌, ◌/◌, ◌<◌, ◌≡◌, refl, Bool, true, ◌&&◌, ◌==◌, ==_iff, arith}

-- Equal at every number below `n`.
agree_below : ℕ → (ℕ → ℕ) → (ℕ → ℕ) → Bool
agree_below zero f g = true
agree_below (suc n) f g = (f n == g n) && agree_below n f g

agree_below_sound : (n : ℕ) (f g : ℕ → ℕ) → agree_below n f g ≡ true → (i : ℕ) → i < n → f i ≡ g i
unfolding agree_below
agree_below_sound zero f g e i h = absurd (omega arith)
agree_below_sound (suc n) f g e i h =
    ground (arith, ==_iff (f n) (g n), agree_below_sound n f g (ground arith) i)

-- The tests on the leading bits of a byte.
pub bit_and_c0 : (b : ℕ) → b < 256 → bit_and b 0xc0 ≡ b / 64 * 64
unfolding agree_below
bit_and_c0 = agree_below_sound 256 _ _ refl

pub bit_and_e0 : (b : ℕ) → b < 256 → bit_and b 0xe0 ≡ b / 32 * 32
unfolding agree_below
bit_and_e0 = agree_below_sound 256 _ _ refl

pub bit_and_f0 : (b : ℕ) → b < 256 → bit_and b 0xf0 ≡ b / 16 * 16
unfolding agree_below
bit_and_f0 = agree_below_sound 256 _ _ refl

pub bit_and_f8 : (b : ℕ) → b < 256 → bit_and b 0xf8 ≡ b / 8 * 8
unfolding agree_below
bit_and_f8 = agree_below_sound 256 _ _ refl
