-- ===== src/Utf8/Canonical.antt =====
-- What `decode_one` accepts is canonical: the bytes are those that `encode_character` writes.
use Prim.Native.Nat.{bit_or}
use mathlib.Core.Path.{ap, subst, sym}
use lumiere.Common.{
  ℕ, zero, suc, ◌+◌, ◌-◌, ◌*◌, ◌/◌, ◌%◌, ◌≤◌, ◌<◌, ◌≡◌, ◌⊎◌, inl, inr, ◌∙◌, true, false, some, List,
  [], ◌∷◌, length, get_elem?, All, ltb, arith, Bool-cases, Option-cases, Holds,
}
use lumiere.Common.Masks.{bit_and_c0, bit_and_e0, bit_and_f0, bit_and_f8}
use lumiere.Common.Bits.{bit_and-mask, bit_or-shift}
use lumiere.Utf8.{
  is_continuation, lead, continue_value, is_refused, decode_width, decode_one, encode_character,
}
use lumiere.Utf8.Bytes.{encode_two, encode_three, encode_four}
use lumiere.Utf8.RoundTrip.{IsScalar, encode_one}

abbrev pub IsByte : ℕ → Type 0
IsByte b = b < 256

All-get_elem? : (text : List ℕ) (i b : ℕ) → All IsByte text → get_elem? text i ≡ some b → b < 256
All-get_elem? [] i b ok h = absurd (cc)
All-get_elem? (c ∷ rest) zero b (a, ok) h = ground arith
All-get_elem? (c ∷ rest) (suc i) b (a, ok) h = All-get_elem? rest i b ok h

-- The four leading bytes.
lead_cases :
    (b width value : ℕ)
    → b < 256
    → lead b ≡ some (width, value)
    → ((width ≡ 1) × (b ≡ value) × (value ≤ 0x7f))
      ⊎ (((width ≡ 2) × (b ≡ 192 + value) × (value < 32))
          ⊎ (((width ≡ 3) × (b ≡ 224 + value) × (value < 16))
              ⊎ ((width ≡ 4) × (b ≡ 240 + value) × (value < 8))))
unfolding lead
lead_cases b width value h e = ground (
  arith,
  bit_and_e0 b,
  bit_and_f0 b,
  bit_and_f8 b,
  bit_and-mask 5 b,
  bit_and-mask 4 b,
  bit_and-mask 3 b,
)

tests_c0 : (b : ℕ) → b < 256 → is_continuation b ≡ true → b / 64 * 64 ≡ 128
unfolding is_continuation
tests_c0 b h e = ground (arith, bit_and_c0 b)

-- A continuation byte that was accepted.
continue_value-inv :
    (count : ℕ) (text : List ℕ) (at value r : ℕ)
    → All IsByte text
    → continue_value (suc count) text at value ≡ some r
    → (x : ℕ) × (get_elem? text at ≡ some (128 + x))
      × (x < 64)
      × (continue_value count text (at + 1) (value * 64 + x) ≡ some r)
unfolding continue_value is_continuation
continue_value-inv count text at value r ok e = elim (Option-cases (get_elem? text at)) [
  | inl nothing ↦ absurd (ground arith)
  | inr (b, found) ↦ elim (Bool-cases (is_continuation b)) [
    | inr other ↦ absurd (ground (arith, rw (found, other, continue_value) at e))
    | inl goes_on ↦
        let small = All-get_elem? text at b ok found in
        let above : 128 ≤ b = omega (arith, tests_c0 b small goes_on) in
        let below : b < 192 = omega (arith, tests_c0 b small goes_on) in
        (
          b - 128,
          found ∙ ap some (omega arith),
          omega arith,
          ap (continue_value count text (at + 1)) (
                sym (
                  ap (bit_or (value * 64)) (bit_and-mask 6 b)
                  ∙ bit_or-shift 6 value (b % 64) (omega arith)
                  ∙ omega arith))
              ∙ rw (found, goes_on, continue_value) at e,
        )
  ]
]

-- The bytes of an accepted character, by its width.
abbrev IsEncoded : List ℕ → ℕ → ℕ → ℕ → Type 0
IsEncoded text offset c next =
    IsScalar c
    × (next ≡ offset + length (encode_character c))
    × Holds text offset (encode_character c)

encoded :
    (text : List ℕ) (offset c next : ℕ) (bytes : List ℕ)
    → IsScalar c
    → encode_character c ≡ bytes
    → next ≡ offset + length bytes
    → Holds text offset bytes
    → IsEncoded text offset c next
encoded text offset c next bytes scalar e n h = (
  scalar,
  n ∙ ap (λ (xs : List ℕ). offset + length xs) (sym e),
  subst (Holds text offset) (sym e) h,
)

-- The checks after the loop.
accepted :
    (text : List ℕ) (offset width value c next : ℕ)
    → decode_width text offset width value ≡ some (c, next)
    → (continue_value (width - 1) text (offset + 1) value ≡ some c)
      × (is_refused width c ≡ false)
      × (next ≡ offset + width)
unfolding decode_width
accepted text offset width value c next h = elim (Bool-cases (ltb (length text) (offset + width))) [
  | inl short ↦ absurd (cc (rw (short, decode_width) at h))
  | inr enough ↦ elim (Option-cases (continue_value (width - 1) text (offset + 1) value)) [
    | inl nothing ↦ absurd (cc (rw (enough, nothing, decode_width) at h))
    | inr (r, found) ↦ elim (Bool-cases (is_refused width r)) [
      | inl refused ↦ absurd (cc (rw (enough, found, refused, decode_width) at h))
      | inr fine ↦
          let e : some (r, offset + width) ≡ some (c, next) =
            rw (enough, found, fine, decode_width) at h in
          let same : r ≡ c = ground arith in
          (found ∙ ap some same, subst (λ t. is_refused width t ≡ false) same fine, ground arith)
    ]
  ]
]

module _ (text : List ℕ) (ok : All IsByte text) (offset c next : ℕ) where
  one_byte :
      (value : ℕ)
      → get_elem? text offset ≡ some value
      → value ≤ 0x7f
      → decode_width text offset 1 value ≡ some (c, next)
      → IsEncoded text offset c next
  unfolding continue_value
  one_byte value first small h =
      let (value_of, fine, n) = accepted text offset 1 value c next h in
      let same : value ≡ c = ground arith in
      encoded text offset c next (c ∷ []) (omega (arith, same), inl (omega (arith, same)))
        (encode_one c (omega (arith, same))) (omega (arith, n)) (first ∙ ap some same, tt)

  two_bytes :
      (value : ℕ)
      → get_elem? text offset ≡ some (192 + value)
      → value < 32
      → decode_width text offset 2 value ≡ some (c, next)
      → IsEncoded text offset c next
  unfolding continue_value is_refused
  two_bytes value first small h =
      let (value_of, fine, n) = accepted text offset 2 value c next h in
      let (x, second, x_small, last) = continue_value-inv 0 text (offset + 1) value c ok value_of in
      let same : value * 64 + x ≡ c = ground arith in
      let low : 0x7f < c = ground arith in
      encoded text offset c next ((192 + c / 64) ∷ (128 + c % 64) ∷ [])
        (omega (arith, same), inl (omega (arith, same))) (encode_two c low (omega (arith, same)))
        (omega (arith, n))
        (first ∙ ap some (omega (arith, same)), (second ∙ ap some (omega (arith, same)), tt))

  three_bytes :
      (value : ℕ)
      → get_elem? text offset ≡ some (224 + value)
      → value < 16
      → decode_width text offset 3 value ≡ some (c, next)
      → IsEncoded text offset c next
  unfolding continue_value is_refused
  three_bytes value first small h =
      let (value_of, fine, n) = accepted text offset 3 value c next h in
      let (x, second, x_small, more) = continue_value-inv 1 text (offset + 1) value c ok value_of in
      let (y, third, y_small, last) =
        continue_value-inv 0 text (offset + 1 + 1) (value * 64 + x) c ok more in
      let same : (value * 64 + x) * 64 + y ≡ c = ground arith in
      let low : 0x7ff < c = ground arith in
      encoded text offset c next ((224 + c / 4096) ∷ (128 + c / 64 % 64) ∷ (128 + c % 64) ∷ [])
        (omega (arith, same), ground arith) (encode_three c low (omega (arith, same)))
        (omega (arith, n))
        (
          first ∙ ap some (omega (arith, same)),
          (second ∙ ap some (omega (arith, same)), (third ∙ ap some (omega (arith, same)), tt)),
        )

  four_bytes :
      (value : ℕ)
      → get_elem? text offset ≡ some (240 + value)
      → value < 8
      → decode_width text offset 4 value ≡ some (c, next)
      → IsEncoded text offset c next
  unfolding continue_value is_refused
  four_bytes value first small h =
      let (value_of, fine, n) = accepted text offset 4 value c next h in
      let (x, second, x_small, more) = continue_value-inv 2 text (offset + 1) value c ok value_of in
      let (y, third, y_small, more') =
        continue_value-inv 1 text (offset + 1 + 1) (value * 64 + x) c ok more in
      let (z, fourth, z_small, last) =
        continue_value-inv 0 text (offset + 1 + 1 + 1) ((value * 64 + x) * 64 + y) c ok more' in
      let same : ((value * 64 + x) * 64 + y) * 64 + z ≡ c = ground arith in
      let low : 0xffff < c = ground arith in
      let high : c ≤ 0x10ffff = ground arith in
      encoded text offset c next
        ((240 + c / 262144) ∷ (128 + c / 4096 % 64) ∷ (128 + c / 64 % 64) ∷ (128 + c % 64) ∷ [])
        (high, inr (omega arith)) (encode_four c low high) (omega (arith, n))
        (
          first ∙ ap some (omega (arith, same)),
          (
            second ∙ ap some (omega (arith, same)),
            (third ∙ ap some (omega (arith, same)), (fourth ∙ ap some (omega (arith, same)), tt)),
          ),
        )

  by_width :
      (b width value : ℕ)
      → get_elem? text offset ≡ some b
      → decode_width text offset width value ≡ some (c, next)
      → ((width ≡ 1) × (b ≡ value) × (value ≤ 0x7f))
        ⊎ (((width ≡ 2) × (b ≡ 192 + value) × (value < 32))
            ⊎ (((width ≡ 3) × (b ≡ 224 + value) × (value < 16))
                ⊎ ((width ≡ 4) × (b ≡ 240 + value) × (value < 8))))
      → IsEncoded text offset c next
  by_width b width value first h (inl (w, v, small)) =
      one_byte value (first ∙ ap some v) small
        (subst (λ k. decode_width text offset k value ≡ some (c, next)) w h)
  by_width b width value first h (inr (inl (w, v, small))) =
      two_bytes value (first ∙ ap some v) small
        (subst (λ k. decode_width text offset k value ≡ some (c, next)) w h)
  by_width b width value first h (inr (inr (inl (w, v, small)))) =
      three_bytes value (first ∙ ap some v) small
        (subst (λ k. decode_width text offset k value ≡ some (c, next)) w h)
  by_width b width value first h (inr (inr (inr (w, v, small)))) =
      four_bytes value (first ∙ ap some v) small
        (subst (λ k. decode_width text offset k value ≡ some (c, next)) w h)

  -- What `decode_one` accepts in a text of bytes is a scalar value; the bytes at the offset are those
  -- that `encode_character` writes for it, and the next offset is just behind them.
  pub decode_one_canonical :
      decode_one text offset ≡ some (c, next)
      → IsScalar c
        × (next ≡ offset + length (encode_character c))
        × Holds text offset (encode_character c)
  unfolding decode_one
  decode_one_canonical h = elim (Option-cases (get_elem? text offset)) [
    | inl nothing ↦ absurd (cc (rw (nothing, decode_one) at h))
    | inr (b, first) ↦ elim (Option-cases (lead b)) [
      | inl nothing ↦ absurd (cc (rw (first, nothing, decode_one) at h))
      | inr ((width, value), led) ↦
          by_width b width value first (rw (first, led, decode_one) at h)
            (lead_cases b width value (All-get_elem? text offset b ok first) led)
    ]
  ]
