-- ===== src/Lexer/Pieces/Escapes.antt =====
-- An escape sequence is decoded to what it stands for.
use lumiere.Common.{
  Holds, ℕ, zero, suc, ◌+◌, ◌*◌, ◌≤◌, ◌<◌, ◌≡◌, refl, ap, ◌∙◌, true, false, ◌&&◌, ◌||◌, none, some,
  List, [], ◌∷◌, ◌++◌, length, All, leb, ltb, ◌==◌, arith,
}
use lumiere.Utf8.{encode_character}
use lumiere.Utf8.RoundTrip.{IsScalar}
use lumiere.Lexer.Scanner.{Scanner, peek, advance, remaining}
use lumiere.Lexer.Literals.{
  Body, hexadecimal, finish_unicode, unicode_digits, decode_unicode_escape, simple_escape,
  decode_escape_sequence,
}
use lumiere.Lexer.Pieces.{digit_value, hex_value, unicode, IsHex, StandsFor, IsPiece}
use lumiere.Lexer.Pieces.Decodes.{
  IsHex-hexadecimal, StandsFor-simple_escape, hexadecimal-lt, join_digit, not_simple, Holds-lt,
  here, Decodes,
}

module _ (source : List ℕ) where
  pub simple-Decodes :
      (s : Scanner) (letter byte : ℕ) (rest : List ℕ)
      → StandsFor letter byte
      → Holds source s.current (letter ∷ rest)
      → Decodes source s (decode_escape_sequence source s) (byte ∷ []) 1
  unfolding decode_escape_sequence
  simple-Decodes s letter byte rest e h =
      let (a, b, c, d) = here source s letter rest h in
      let found : simple_escape (peek source s) ≡ some byte =
        ap simple_escape a ∙ StandsFor-simple_escape letter byte e in
      rw (b, found, decode_escape_sequence) (record { body = refl; moved = c })

  pub finish_unicode-Decodes :
      (s : Scanner) (code_point digit_count : ℕ) (rest : List ℕ)
      → 0 < digit_count
      → IsScalar code_point
      → Holds source s.current (125 ∷ rest)
      → Decodes source s
          (finish_unicode source code_point digit_count s)
          (encode_character code_point)
          1
  unfolding finish_unicode
  finish_unicode-Decodes s code_point digit_count rest some_digit (top, scalar) h =
      let (a, b, c, d) = here source s 125 rest h in
      let counted : (digit_count == 0) ≡ false = ground arith in
      let in_range : (ltb 0x10ffff code_point || (leb 0xd800 code_point && leb code_point 0xdfff))
          ≡ false =
        ground arith in
      rw (b, counted, in_range, finish_unicode) (record { body = refl; moved = c })

  pub Decodes-behind :
      {s : Scanner} {result : Body × Scanner} {out : List ℕ} {n k : ℕ} (t : Scanner)
      → t.current ≡ s.current + 1
      → k ≡ suc n
      → Decodes source t result out n
      → Decodes source s result out k
  Decodes-behind t e f p = record { body = p.body; moved = omega (arith, e, f, p.moved) }

  pub digits-Decodes :
      (digits : List ℕ) (fuel code_point digit_count : ℕ) (s : Scanner) (rest : List ℕ)
      → All IsHex digits
      → length digits < fuel
      → 0 < digit_count + length digits
      → digit_count + length digits ≤ 6
      → IsScalar (hex_value code_point digits)
      → Holds source s.current (digits ++ (125 ∷ rest))
      → Decodes source s
          (unicode_digits source fuel code_point digit_count s)
          (encode_character (hex_value code_point digits))
          (length digits + 1)
  unfolding unicode_digits
  digits-Decodes [] zero code_point digit_count s rest hex enough some_digit six scalar h =
      absurd (omega arith)
  digits-Decodes [] (suc fuel) code_point digit_count s rest hex enough some_digit six scalar h =
      let (a, b, c, d) = here source s 125 rest h in
      let closing : (peek source s == 125) ≡ true = ground (arith, a) in
      rw (b, closing, unicode_digits)
        (finish_unicode-Decodes s code_point digit_count rest (omega arith) scalar h)
  digits-Decodes (digit ∷ digits) zero code_point digit_count s rest hex enough some_digit six
        scalar h =
      absurd (omega arith)
  digits-Decodes (digit ∷ digits) (suc fuel) code_point digit_count s rest (is_hex, hex) enough
        some_digit six scalar h =
      let (a, b, c, d) = here source s digit (digits ++ (125 ∷ rest)) h in
      let (value, found) = IsHex-hexadecimal digit is_hex in
      let (small, other) = hexadecimal-lt digit value found in
      let open_ : (peek source s == 125) ≡ false = ground (arith, a, other) in
      let seen : hexadecimal (peek source s) ≡ some value = ap hexadecimal a ∙ found in
      let few : (digit_count == 6) ≡ false = ground arith in
      let joined = join_digit code_point digit value digits found (scalar.0) in
      rw (b, open_, seen, few, joined, unicode_digits)
        (Decodes-behind (advance source s) c (omega arith) (
          digits-Decodes digits fuel (code_point * 16 + digit_value digit) (digit_count + 1)
            (advance source s) rest hex (omega arith) (omega arith) (omega arith) scalar d))

  pub enough_rounds :
      (s : Scanner) (digits : List ℕ)
      → s.current + length digits < length source
      → length digits < remaining source s
  unfolding remaining
  enough_rounds s digits h = omega (arith, h)

  pub unicode-Decodes :
      (s : Scanner) (digits rest : List ℕ)
      → IsPiece (unicode digits)
      → Holds source s.current (117 ∷ 123 ∷ (digits ++ (125 ∷ rest)))
      → Decodes source s
          (decode_escape_sequence source s)
          (encode_character (hex_value 0 digits))
          (length digits + 3)
  unfolding decode_escape_sequence decode_unicode_escape
  unicode-Decodes s digits rest (some_digit, six, hex, scalar) h =
      let (a, b, c, d) = here source s 117 (123 ∷ (digits ++ (125 ∷ rest))) h in
      let (a', b', c', d') = here source (advance source s) 123 (digits ++ (125 ∷ rest)) d in
      let letter : (peek source s == 117) ≡ true = ground (arith, a) in
      let no_letter : simple_escape (peek source s) ≡ none = ap simple_escape a ∙ not_simple in
      let brace : (peek source (advance source s) == 123) ≡ true = ground (arith, a') in
      let enough : (advance source (advance source s)).current + length digits < length source =
        omega
          (arith, Holds-lt source digits (advance source (advance source s)).current 125 rest d') in
      rw (b, no_letter, letter, b', brace, decode_escape_sequence, decode_unicode_escape)
        (Decodes-behind (advance source s) c (omega arith) (
          Decodes-behind (advance source (advance source s)) c' refl (
            digits-Decodes digits (remaining source (advance source (advance source s))) 0 0
              (advance source (advance source s)) rest hex (enough_rounds _ digits enough)
              (omega arith) (omega arith) scalar d')))
