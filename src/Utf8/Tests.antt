-- ===== src/Utf8/Tests.antt =====
-- Texts of one to four bytes a character (tests/test_utf8.cpp), and the theorems on them.
use lumiere.Common.{
  Holds, ℕ, ◌≡◌, ◌++◌, ◌+◌, refl, none, some, List, [], ◌∷◌, inl, inr, length, All, arith,
}
use lumiere.Utf8.{
  is_continuation, lead, continue_value, is_refused, decode_width, decode_one,
  decode_single_character, character_at, character_count, encode_character,
}
use lumiere.Utf8.Canonical.{decode_one_canonical}
use lumiere.Utf8.RoundTrip.{IsScalar, decode_one-encode_character}
use lumiere.Utf8.Sequences.{encode_all, character_count-encode_all, character_at-encode_all}

-- "é", "€" and U+1F600.
abbrev characters : List ℕ
characters = 0xe9 ∷ 0x20ac ∷ 0x1f600 ∷ []

abbrev characters_scalar : All IsScalar characters
characters_scalar = (
  (omega arith, inl (omega arith)),
  ((omega arith, inl (omega arith)), ((omega arith, inr (omega arith)), tt)),
)

euro_bytes : encode_character 0x20ac ≡ 226 ∷ 130 ∷ 172 ∷ []
unfolding encode_character
euro_bytes = refl

-- An overlong "/", a surrogate, a cut character and a lone continuation byte.
refused :
    (decode_one (192 ∷ 175 ∷ []) 0 ≡ none)
    × (decode_one (237 ∷ 160 ∷ 128 ∷ []) 0 ≡ none)
    × (decode_one (226 ∷ 130 ∷ []) 0 ≡ none)
    × (decode_one (128 ∷ []) 0 ≡ none)
unfolding decode_one decode_width is_refused continue_value is_continuation lead
refused = (refl, refl, refl, refl)

single : decode_single_character (195 ∷ 169 ∷ []) ≡ some 0xe9
unfolding decode_single_character decode_one decode_width is_refused continue_value is_continuation
    lead
single = refl

decode_one-encode_character_example :
    decode_one ((65 ∷ []) ++ (encode_character 0x20ac ++ (66 ∷ []))) 1
    ≡ some (0x20ac, 1 + length (encode_character 0x20ac))
decode_one-encode_character_example =
    decode_one-encode_character (65 ∷ []) (66 ∷ []) 0x20ac (omega arith, inl (omega arith))

character_count-encode_all_example : character_count (encode_all characters) ≡ some 3
character_count-encode_all_example = character_count-encode_all characters characters_scalar

character_at-encode_all_example : character_at (encode_all characters) 1 ≡ some 0x20ac
character_at-encode_all_example = character_at-encode_all characters 1 characters_scalar

-- "A€" read at the second character.
euro_decoded : decode_one (65 ∷ 226 ∷ 130 ∷ 172 ∷ []) 1 ≡ some (0x20ac, 4)
unfolding decode_one decode_width is_refused continue_value is_continuation lead
euro_decoded = refl

decode_one_canonical_example :
    IsScalar 0x20ac
    × (4 ≡ 1 + length (encode_character 0x20ac))
    × Holds (65 ∷ 226 ∷ 130 ∷ 172 ∷ []) 1 (encode_character 0x20ac)
decode_one_canonical_example =
    decode_one_canonical (65 ∷ 226 ∷ 130 ∷ 172 ∷ [])
      (omega arith, (omega arith, (omega arith, (omega arith, tt)))) 1 0x20ac 4 euro_decoded
