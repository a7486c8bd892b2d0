-- ===== src/Utf8/Bytes.antt =====
-- The bytes of UTF-8 in plain arithmetic.
use Prim.Native.Nat.{bit_and, bit_or}
use lumiere.Common.{
  ℕ, ◌+◌, ◌*◌, ◌/◌, ◌%◌, ◌≤◌, ◌<◌, ◌≡◌, refl, some, suc, List, get_elem?, [], ◌∷◌, arith,
}
use lumiere.Common.Masks.{bit_and_c0, bit_and_e0, bit_and_f0, bit_and_f8}
use lumiere.Common.Bits.{bit_and-mask, bit_or-shift}
use lumiere.Utf8.{is_continuation, lead, continue_value, encode_character}

low_six : (v : ℕ) → bit_and v 0x3f ≡ v % 64
low_six v = bit_and-mask 6 v

tail_byte : (v : ℕ) → bit_or 0x80 (bit_and v 0x3f) ≡ 128 + v % 64
tail_byte v = rw low_six (bit_or-shift 6 2 (v % 64) (omega arith))

pub encode_two :
    (c : ℕ) → 0x7f < c → c ≤ 0x7ff → encode_character c ≡ (192 + c / 64) ∷ (128 + c % 64) ∷ []
unfolding encode_character
encode_two c lo hi =
    ground (arith, tail_byte c, bit_and-mask 5 (c / 64), bit_or-shift 5 6 (c / 64 % 32))

pub encode_three :
    (c : ℕ)
    → 0x7ff < c
    → c ≤ 0xffff
    → encode_character c ≡ (224 + c / 4096) ∷ (128 + c / 64 % 64) ∷ (128 + c % 64) ∷ []
unfolding encode_character
encode_three c lo hi = ground (
  arith,
  tail_byte c,
  tail_byte (c / 64),
  bit_and-mask 4 (c / 4096),
  bit_or-shift 4 14 (c / 4096 % 16),
)

pub encode_four :
    (c : ℕ)
    → 0xffff < c
    → c ≤ 0x10ffff
    → encode_character c
      ≡ (240 + c / 262144) ∷ (128 + c / 4096 % 64) ∷ (128 + c / 64 % 64) ∷ (128 + c % 64) ∷ []
unfolding encode_character
encode_four c lo hi = ground (
  arith,
  tail_byte c,
  tail_byte (c / 64),
  tail_byte (c / 4096),
  bit_and-mask 3 (c / 262144),
  bit_or-shift 3 30 (c / 262144 % 8),
)

pub lead_one : (b : ℕ) → b ≤ 0x7f → lead b ≡ some (1, b)
unfolding lead
lead_one b h = ground arith

pub lead_two : (x : ℕ) → x < 32 → lead (192 + x) ≡ some (2, x)
unfolding lead
lead_two x h = ground (arith, bit_and_e0 (192 + x), bit_and-mask 5 (192 + x))

pub lead_three : (x : ℕ) → x < 16 → lead (224 + x) ≡ some (3, x)
unfolding lead
lead_three x h =
    ground (arith, bit_and_e0 (224 + x), bit_and_f0 (224 + x), bit_and-mask 4 (224 + x))

pub lead_four : (x : ℕ) → x < 8 → lead (240 + x) ≡ some (4, x)
unfolding lead
lead_four x h = ground (
  arith,
  bit_and_e0 (240 + x),
  bit_and_f0 (240 + x),
  bit_and_f8 (240 + x),
  bit_and-mask 3 (240 + x),
)

-- A continuation byte adds its six bits.
pub continue_value-step :
    (count : ℕ) (text : List ℕ) (at value x : ℕ)
    → get_elem? text at ≡ some (128 + x)
    → x < 64
    → continue_value (suc count) text at value ≡ continue_value count text (at + 1) (value * 64 + x)
unfolding continue_value is_continuation
continue_value-step count text at value x e h =
    ground (arith, bit_and_c0 (128 + x), low_six (128 + x), bit_or-shift 6 value x)

pub continue_value-zero :
    (text : List ℕ) (at value : ℕ) → continue_value 0 text at value ≡ some value
unfolding continue_value
continue_value-zero text at value = refl
