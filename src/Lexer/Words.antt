-- ===== src/Lexer/Words.antt =====
-- Numbers, identifiers and keywords (src/lexer/tokenizer.cpp). Whether a text is a decimal that the
-- type can hold, `parse_decimal_literal`, is a parameter: it needs the arithmetic of doubles.
use lumiere.Common.{
  ℕ, Bool, true, false, not, ◌&&◌, ◌||◌, none, some, List, [], ◌∷◌, ◌==◌, if◌then◌else◌,
}
use lumiere.Numeric.Parse.{parse_integer_literal}
use lumiere.Lexer.Token.{
  TokenType, Token, letter_after_number, decimal_out_of_range, integer_out_of_range,
  tant_without_que, agir_without_selon,
}
use lumiere.Lexer.Keywords.{is_digit, is_alpha_start, is_alpha_continue, same_text, keyword_type}
use lumiere.Lexer.Scanner.{
  Scanner, save, restore, is_at_end, peek, peek_next, advance, remaining, lexeme, advance_while,
}
use lumiere.Lexer.Literals.{make_token, error_token}

module _ (source : List ℕ) where
  -- The loop of `consume_digits` has no test for the end: there `peek` is 0, which is no digit.
  unfoldable pub consume_digits : Scanner → Scanner
  consume_digits s =
      advance_while source
        (λ t. is_digit (peek source t) || (peek source t == 95 && is_digit (peek_next source t)))
        (remaining source s) s

  -- The decimal point and the digits behind it, and whether they are there.
  unfoldable pub fraction : Scanner → Bool × Scanner
  fraction s =
      if peek source s == 46 && is_digit (peek_next source s)
      then (true, consume_digits (advance source s))
      else (false, s)

  unfoldable pub pass_sign : Scanner → Scanner
  pass_sign s = if peek source s == 43 || peek source s == 45 then advance source s else s

  -- An exponent, if digits follow the `e`.
  unfoldable pub exponent : Bool × Scanner → Bool × Scanner
  exponent (is_decimal, s) =
      if peek source s == 101 || peek source s == 69
      then (let signed = pass_sign (advance source s) in
          if is_digit (peek source signed)
          then (true, consume_digits signed)
          else (is_decimal, restore (save s) signed))
      else (is_decimal, s)

  unfoldable pub close_number : (List ℕ → Bool) → Bool × Scanner → Token × Scanner
  close_number parse_decimal_literal (is_decimal, s) =
      if is_alpha_start (peek source s)
      then (error_token source letter_after_number s, s)
      else if is_decimal
      then (if parse_decimal_literal (lexeme source s)
          then (make_token source TokenType.decimal_lit s, s)
          else (error_token source decimal_out_of_range s, s))
      else elim (parse_integer_literal (lexeme source s)) [
        | none ↦ (error_token source integer_out_of_range s, s)
        | some _ ↦ (make_token source TokenType.entier_lit s, s)
      ]

  unfoldable pub scan_number : (List ℕ → Bool) → Scanner → Token × Scanner
  scan_number parse_decimal_literal s =
      close_number parse_decimal_literal (exponent (fraction (consume_digits s)))

  unfoldable pub consume_word : Scanner → Scanner
  consume_word s =
      advance_while source (λ t. is_alpha_continue (peek source t)) (remaining source s) s

  unfoldable pub skip_spaces : Scanner → Scanner
  skip_spaces s =
      advance_while source (λ t. peek source t == 32 || peek source t == 9) (remaining source s) s

  -- Nothing that continues an identifier follows.
  unfoldable pub at_word_end : Scanner → Bool
  at_word_end s = is_at_end source s || not (is_alpha_continue (peek source s))

  unfoldable pub tant_que : Scanner → Token × Scanner
  tant_que s =
      let spaces = skip_spaces s in
      let behind = advance source (advance source spaces) in
      let refused : Token × Scanner =
        (error_token source tant_without_que (restore (save s) behind), restore (save s) behind) in
      if not (is_at_end source spaces)
        && peek source spaces == 113
        && peek_next source spaces == 117
      then (if not (is_at_end source behind)
            && peek source behind == 101
            && at_word_end (advance source behind)
          then (make_token source TokenType.tant_que (advance source behind), advance source behind)
          else refused)
      else refused

  -- The loop over the letters of "selon": whether they all match, and the cursor.
  unfoldable pub match_word : List ℕ → Scanner → Bool × Scanner
  match_word [] s = (true, s)
  match_word (c ∷ rest) s =
      let behind : Bool × Scanner = match_word rest (advance source s) in
      if is_at_end source s || not (peek source s == c) then (false, s) else behind

  unfoldable pub agir_selon : Scanner → Token × Scanner
  agir_selon s =
      let spaces = skip_spaces s in
      let (matches, behind) = match_word (115 ∷ 101 ∷ 108 ∷ 111 ∷ 110 ∷ []) spaces in
      let refused : Token × Scanner = (
        error_token source agir_without_selon (restore (save s) behind),
        restore (save s) behind,
      ) in
      if not (is_at_end source spaces) && peek source spaces == 115
      then (if matches && at_word_end behind
          then (make_token source TokenType.agir_selon behind, behind)
          else refused)
      else refused

  unfoldable pub scan_identifier_or_keyword : Scanner → Token × Scanner
  scan_identifier_or_keyword s =
      let behind = consume_word s in
      let word = lexeme source behind in
      if same_text word (116 ∷ 97 ∷ 110 ∷ 116 ∷ [])
      then tant_que behind
      else if same_text word (97 ∷ 103 ∷ 105 ∷ 114 ∷ [])
      then agir_selon behind
      else (make_token source (keyword_type word) behind, behind)
