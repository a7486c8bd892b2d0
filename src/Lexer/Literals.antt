-- ===== src/Lexer/Literals.antt =====
-- Escape sequences, texts and symbols (src/lexer/tokenizer.cpp).
use Prim.Native.Nat.{bit_or}
use lumiere.Common.{
  ℕ, zero, suc, ◌+◌, ◌-◌, ◌*◌, ◌%◌, ◌^◌, not, ◌&&◌, ◌||◌, Option, none, some, List, [], ◌∷◌, ◌++◌,
  leb, ltb, ◌==◌, if◌then◌else◌,
}
use lumiere.Utf8.{encode_character, decode_single_character}
use lumiere.Lexer.Token.{
  TokenType, Token, LexError, text, message, missing_escape, unicode_needs_brace,
  unicode_needs_digits, unicode_too_long, unicode_empty, unicode_unclosed, unicode_out_of_range,
  unknown_escape, unterminated_text, missing_symbol, unterminated_symbol, invalid_symbol,
}
use lumiere.Lexer.Scanner.{
  Scanner, mark_line_end, is_at_end, peek, advance, remaining, lexeme, spent,
}

-- The bytes that an escape or a body stands for, or the message of the error.
pub data Body : Type 0 where
  bytes : List ℕ → Body
  failed : LexError → Body

unfoldable pub before : List ℕ → Body → Body
before first (bytes rest) = bytes (first ++ rest)
before first (failed error) = failed error

unfoldable pub hexadecimal : ℕ → Option ℕ
hexadecimal digit =
    if leb 48 digit && leb digit 57
    then some (digit - 48)
    else if leb 97 digit && leb digit 102
    then some (10 + (digit - 97))
    else if leb 65 digit && leb digit 70
    then some (10 + (digit - 65))
    else none

unfoldable pub simple_escape : ℕ → Option ℕ
simple_escape c =
    if c == 110
    then some 10
    else if c == 116
    then some 9
    else if c == 114
    then some 13
    else if c == 92
    then some 92
    else if c == 34
    then some 34
    else if c == 39
    then some 39
    else if c == 48
    then some 0
    else none

module _ (source : List ℕ) where
  unfoldable pub make_token : TokenType → Scanner → Token
  make_token kind s = record {
    token_type = kind;
    lexeme = text (lexeme source s);
    line = s.start_line;
    column = s.start_column;
    start_offset = s.start;
    end_offset = s.current;
    decoded = [];
  }

  unfoldable pub error_token : LexError → Scanner → Token
  error_token error s = record {
    token_type = TokenType.erreur;
    lexeme = message error;
    line = s.start_line;
    column = s.start_column;
    start_offset = s.start;
    end_offset = s.current;
    decoded = [];
  }

  -- What follows the loop over the digits.
  unfoldable pub finish_unicode : ℕ → ℕ → Scanner → Body × Scanner
  finish_unicode code_point digit_count s =
      if digit_count == 0
      then (failed unicode_empty, s)
      else if is_at_end source s
      then (failed unicode_unclosed, s)
      else if ltb 0x10ffff code_point || (leb 0xd800 code_point && leb code_point 0xdfff)
      then (failed unicode_out_of_range, advance source s)
      else (bytes (encode_character code_point), advance source s)

  -- A round of the loop over the digits: a seventh digit is refused, and `code_point` is 32 bits wide.
  unfoldable pub unicode_digits : ℕ → ℕ → ℕ → Scanner → Body × Scanner
  unicode_digits zero code_point digit_count s =
      finish_unicode code_point digit_count (spent source s)
  unicode_digits (suc fuel) code_point digit_count s =
      let rest : ℕ → Body × Scanner = λ value.
        unicode_digits fuel (bit_or (code_point * 16 % 2 ^ 32) value) (digit_count + 1)
          (advance source s) in
      if not (is_at_end source s) && not (peek source s == 125)
      then (elim (hexadecimal (peek source s)) [
        | none ↦ (failed unicode_needs_digits, s)
        | some value ↦ if digit_count == 6 then (failed unicode_too_long, s) else rest value
      ])
      else finish_unicode code_point digit_count s

  unfoldable pub decode_unicode_escape : Scanner → Body × Scanner
  decode_unicode_escape s =
      if is_at_end source s || not (peek source s == 123)
      then (failed unicode_needs_brace, s)
      else unicode_digits (remaining source (advance source s)) 0 0 (advance source s)

  unfoldable pub decode_escape_sequence : Scanner → Body × Scanner
  decode_escape_sequence s =
      if is_at_end source s
      then (failed missing_escape, s)
      else elim (simple_escape (peek source s)) [
        | some byte ↦ (bytes (byte ∷ []), advance source s)
        | none ↦
            if peek source s == 117
            then decode_unicode_escape (advance source s)
            else (failed (unknown_escape (peek source s)), advance source s)
      ]

  -- The rest of a body behind an escape, unless the escape failed.
  unfoldable pub after_escape : Body × Scanner → (Scanner → Body × Scanner) → Body × Scanner
  after_escape (bytes out, s) rest = (before out (rest s).0, (rest s).1)
  after_escape (failed error, s) rest = (failed error, s)

  -- The loop of `scan_string`.
  unfoldable pub string_body : ℕ → Scanner → Body × Scanner
  string_body zero s = (bytes [], spent source s)
  string_body (suc fuel) s =
      let rest : Scanner → Body × Scanner = string_body fuel in
      let marked : Scanner = if peek source s == 10 then mark_line_end s else s in
      let behind : Scanner = advance source marked in
      if not (is_at_end source s) && not (peek source s == 34)
      then (if peek source s == 92
          then after_escape (decode_escape_sequence behind) rest
          else (before (peek source s ∷ []) (rest behind).0, (rest behind).1))
      else (bytes [], s)

  unfoldable pub close_string : Body × Scanner → Token × Scanner
  close_string (failed error, s) = (error_token error s, s)
  close_string (bytes out, s) =
      if is_at_end source s then (error_token unterminated_text s, s) else (
        record (make_token TokenType.texte_lit (advance source s)) { decoded = out },
        advance source s,
      )

  unfoldable pub scan_string : Scanner → Token × Scanner
  scan_string s = close_string (string_body (remaining source s) s)

  -- The loop of `scan_symbol`.
  unfoldable pub symbol_body : ℕ → Scanner → Body × Scanner
  symbol_body zero s = (bytes [], spent source s)
  symbol_body (suc fuel) s =
      let rest : Scanner → Body × Scanner = symbol_body fuel in
      let behind : Scanner = advance source s in
      if not (is_at_end source s) && not (peek source s == 39)
      then (if peek source s == 10
          then (failed unterminated_symbol, s)
          else if peek source s == 92
          then after_escape (decode_escape_sequence behind) rest
          else (before (peek source s ∷ []) (rest behind).0, (rest behind).1))
      else (bytes [], s)

  unfoldable pub close_symbol : Body × Scanner → Token × Scanner
  close_symbol (failed error, s) = (error_token error s, s)
  close_symbol (bytes out, s) =
      if is_at_end source s || not (peek source s == 39)
      then (error_token unterminated_symbol s, s)
      else elim (decode_single_character out) [
        | none ↦ (error_token invalid_symbol s, s)
        | some _ ↦ (
          record (make_token TokenType.symbole_lit (advance source s)) { decoded = out },
          advance source s,
        )
      ]

  unfoldable pub scan_symbol : Scanner → Token × Scanner
  scan_symbol s =
      if is_at_end source s
      then (error_token missing_symbol s, s)
      else close_symbol (symbol_body (remaining source s) s)
