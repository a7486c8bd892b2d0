-- ===== src/Utf8/RoundTrip.antt =====
-- Encoding and decoding are inverse on the code points that Unicode calls scalar values.
use mathlib.Core.Path.{ap, subst, sym}
use native.Mathlib.Decide.{dec_lt}
use lumiere.Common.{
  ℕ, ◌+◌, ◌*◌, ◌/◌, ◌%◌, ◌≤◌, ◌<◌, ◌≡◌, ◌⊎◌, some, List, [], ◌∷◌, ◌++◌, length, get_elem?,
  length-append, arith,
}
use lumiere.Utf8.{continue_value, is_refused, decode_width, decode_one, encode_character}
use lumiere.Utf8.Bytes.{
  encode_two, encode_three, encode_four, lead_one, lead_two, lead_three, lead_four,
  continue_value-step, continue_value-zero,
}

-- The code points up to 0x10ffff without the surrogates.
abbrev pub IsScalar : ℕ → Type 0
IsScalar c = (c ≤ 0x10ffff) × ((c < 0xd800) ⊎ (0xdfff < c))

get_elem?-append_right {ℓ} :
    {A : Type ℓ} (xs ys : List A) (i : ℕ) → get_elem? (xs ++ ys) (length xs + i) ≡ get_elem? ys i
get_elem?-append_right [] ys i = ap (get_elem? ys) (omega arith)
get_elem?-append_right (x ∷ xs) ys i = ground (arith, get_elem?-append_right xs ys i)

pub encode_one : (c : ℕ) → c ≤ 0x7f → encode_character c ≡ c ∷ []
unfolding encode_character
encode_one c h = ground arith

module _ (before after : List ℕ) (c : ℕ) where
  decode_one_one :
      c ≤ 0x7f → decode_one (before ++ (c ∷ after)) (length before) ≡ some (c, length before + 1)
  unfolding decode_one decode_width continue_value is_refused
  decode_one_one h = ground (
    arith,
    lead_one c,
    get_elem?-append_right before (c ∷ after) 0,
    length-append before (c ∷ after),
  )

  decode_one_two :
      (x y : ℕ)
      → c ≡ x * 64 + y
      → y < 64
      → 0x7f < c
      → c ≤ 0x7ff
      → decode_one (before ++ ((192 + x) ∷ (128 + y) ∷ after)) (length before)
        ≡ some (c, length before + 2)
  unfolding decode_one decode_width is_refused
  decode_one_two x y e hy lo hi =
      let text = before ++ ((192 + x) ∷ (128 + y) ∷ after) in
      ground (
        arith,
        lead_two x,
        get_elem?-append_right before ((192 + x) ∷ (128 + y) ∷ after) 0,
        get_elem?-append_right before ((192 + x) ∷ (128 + y) ∷ after) 1,
        length-append before ((192 + x) ∷ (128 + y) ∷ after),
        continue_value-step 0 text (length before + 1) x y,
        continue_value-zero text (length before + 1 + 1) (x * 64 + y),
      )

  decode_one_three :
      (x y z : ℕ)
      → c ≡ (x * 64 + y) * 64 + z
      → y < 64
      → z < 64
      → 0x7ff < c
      → c ≤ 0xffff
      → IsScalar c
      → decode_one (before ++ ((224 + x) ∷ (128 + y) ∷ (128 + z) ∷ after)) (length before)
        ≡ some (c, length before + 3)
  unfolding decode_one decode_width is_refused
  decode_one_three x y z e hy hz lo hi ok =
      let bytes = (224 + x) ∷ (128 + y) ∷ (128 + z) ∷ after in
      let text = before ++ bytes in
      ground (
        arith,
        lead_three x,
        get_elem?-append_right before bytes 0,
        get_elem?-append_right before bytes 1,
        get_elem?-append_right before bytes 2,
        length-append before bytes,
        continue_value-step 1 text (length before + 1) x y,
        continue_value-step 0 text (length before + 1 + 1) (x * 64 + y) z,
        continue_value-zero text (length before + 1 + 1 + 1) ((x * 64 + y) * 64 + z),
      )

  decode_one_four :
      (x y z t : ℕ)
      → c ≡ ((x * 64 + y) * 64 + z) * 64 + t
      → y < 64
      → z < 64
      → t < 64
      → 0xffff < c
      → c ≤ 0x10ffff
      → decode_one
          (before ++ ((240 + x) ∷ (128 + y) ∷ (128 + z) ∷ (128 + t) ∷ after))
          (length before)
        ≡ some (c, length before + 4)
  unfolding decode_one decode_width is_refused
  decode_one_four x y z t e hy hz ht lo hi =
      let bytes = (240 + x) ∷ (128 + y) ∷ (128 + z) ∷ (128 + t) ∷ after in
      let text = before ++ bytes in
      ground (
        arith,
        lead_four x,
        get_elem?-append_right before bytes 0,
        get_elem?-append_right before bytes 1,
        get_elem?-append_right before bytes 2,
        get_elem?-append_right before bytes 3,
        length-append before bytes,
        continue_value-step 2 text (length before + 1) x y,
        continue_value-step 1 text (length before + 1 + 1) (x * 64 + y) z,
        continue_value-step 0 text (length before + 1 + 1 + 1) ((x * 64 + y) * 64 + z) t,
        continue_value-zero text (length before + 1 + 1 + 1 + 1) (((x * 64 + y) * 64 + z) * 64 + t),
      )

  in_bytes :
      {bytes : List ℕ}
      → encode_character c ≡ bytes
      → decode_one (before ++ (bytes ++ after)) (length before)
        ≡ some (c, length before + length bytes)
      → decode_one (before ++ (encode_character c ++ after)) (length before)
        ≡ some (c, length before + length (encode_character c))
  in_bytes e h =
      subst
        (λ bytes.
          decode_one (before ++ (bytes ++ after)) (length before)
          ≡ some (c, length before + length bytes))
        (sym e) h

  -- Anywhere in a text, the encoding of a scalar value is decoded to that value and passed over whole.
  pub decode_one-encode_character :
      IsScalar c
      → decode_one (before ++ (encode_character c ++ after)) (length before)
        ≡ some (c, length before + length (encode_character c))
  decode_one-encode_character (hi, ok) = elim (dec_lt 0x7f c) [
    | no one ↦ in_bytes (encode_one c (omega arith)) (decode_one_one (omega arith))
    | yes more ↦ elim (dec_lt 0x7ff c) [
      | no two ↦
          in_bytes (encode_two c more (omega arith))
            (decode_one_two (c / 64) (c % 64) (omega arith) (omega arith) more (omega arith))
      | yes more ↦ elim (dec_lt 0xffff c) [
        | no three ↦ in_bytes (encode_three c more (omega arith)) (
            decode_one_three (c / 4096) (c / 64 % 64) (c % 64) (omega arith) (omega arith)
              (omega arith) more (omega arith) (hi, ok))
        | yes more ↦ in_bytes (encode_four c more hi) (
            decode_one_four (c / 262144) (c / 4096 % 64) (c / 64 % 64) (c % 64) (omega arith)
              (omega arith) (omega arith) (omega arith) more hi)
      ]
    ]
  ]
