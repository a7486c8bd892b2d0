-- ===== src/Lexer/Spans/Words.antt =====
-- A number, an identifier and a keyword take the bytes from their start to the cursor.
use lumiere.Common.{
  ℕ, Bool, true, false, not, ◌&&◌, ◌||◌, List, [], ◌∷◌, ◌==◌, if◌then◌else◌, Option-cases, inl, inr,
}
use lumiere.Numeric.Parse.{parse_integer_literal}
use lumiere.Lexer.Token.{tant_without_que, agir_without_selon}
use lumiere.Lexer.Keywords.{is_digit, is_alpha_start, is_alpha_continue, same_text}
use lumiere.Lexer.Scanner.{
  Scanner, save, restore, is_at_end, peek, peek_next, advance, remaining, lexeme,
}
use lumiere.Lexer.Words.{
  consume_digits, fraction, pass_sign, exponent, close_number, scan_number, consume_word,
  skip_spaces, at_word_end, tant_que, match_word, agir_selon, scan_identifier_or_keyword,
}
use lumiere.Lexer.Progress.{
  Onward, Within, stay, Onward-trans, advance-Onward, Onward-if, advance_while-Onward, rounds,
}
use lumiere.Lexer.Spanned.{Spanned, error_token-Spanned, make_token-Spanned, Spanned-if}

module _ (source : List ℕ) where
  consume_digits-Onward :
      (s : Scanner) → Within source s → Onward source s (consume_digits source s)
  unfolding consume_digits
  consume_digits-Onward s h =
      advance_while-Onward source _ (remaining source s) s h (rounds source s)

  -- The cursor after a part of a number.
  record Passes (s : Scanner) (result : Bool × Scanner) : Type 0 where
    onward : Onward source s result.1

  Passes-if :
      {s : Scanner} {x y : Bool × Scanner} (b : Bool)
      → Passes s x
      → Passes s y
      → Passes s (if b then x else y)
  Passes-if true p q = p
  Passes-if false p q = q

  passes : {s t : Scanner} {b : Bool} → Onward source s t → Passes s (b, t)
  passes p = record { onward = p }

  fraction-Passes : (s : Scanner) → Within source s → Passes s (fraction source s)
  unfolding fraction
  fraction-Passes s h =
      let one = advance-Onward source s h in
      Passes-if (peek source s == 46 && is_digit (peek_next source s))
        (passes (Onward-trans source one (consume_digits-Onward (advance source s) one.inside)))
        (passes (stay source s h))

  pass_sign-Onward : (s : Scanner) → Within source s → Onward source s (pass_sign source s)
  unfolding pass_sign
  pass_sign-Onward s h =
      Onward-if source (peek source s == 43 || peek source s == 45) (advance-Onward source s h)
        (stay source s h)

  -- A cursor that was saved is restored.
  restored :
      {s t u : Scanner}
      → Onward source s t
      → Onward source t u
      → Onward source s (restore (save t) u)
  restored p q = record {
    same_start = cc (p.same_start, q.same_start);
    forward = p.forward;
    inside = p.inside;
  }

  exponent-Passes :
      {s : Scanner} (before : Bool × Scanner) → Passes s before → Passes s (exponent source before)
  unfolding exponent
  exponent-Passes (is_decimal, t) p =
      let one = advance-Onward source t p.onward.inside in
      let sign = Onward-trans source one (pass_sign-Onward (advance source t) one.inside) in
      Passes-if (peek source t == 101 || peek source t == 69)
        (Passes-if (is_digit (peek source (pass_sign source (advance source t))))
          (passes (
            Onward-trans source p.onward
              (Onward-trans source sign (consume_digits-Onward _ sign.inside))))
          (passes (restored p.onward sign)))
        (passes p.onward)

  close_number-Spanned :
      {s : Scanner} (decimal : List ℕ → Bool) (number : Bool × Scanner)
      → Passes s number
      → Spanned source s (close_number source decimal number)
  unfolding close_number
  close_number-Spanned decimal (is_decimal, t) p =
      Spanned-if source (is_alpha_start (peek source t)) (error_token-Spanned source _ p.onward) (
        Spanned-if source is_decimal
          (Spanned-if source (decimal (lexeme source t)) (make_token-Spanned source _ p.onward)
            (error_token-Spanned source _ p.onward))
          (elim (Option-cases (parse_integer_literal (lexeme source t))) [
            | inl nothing ↦ rw nothing (error_token-Spanned source _ p.onward)
            | inr (value, found) ↦ rw found (make_token-Spanned source _ p.onward)
          ]))

  pub scan_number-Spanned :
      (decimal : List ℕ → Bool) (s : Scanner)
      → Within source s
      → Spanned source s (scan_number source decimal s)
  unfolding scan_number
  scan_number-Spanned decimal s h =
      let digits = consume_digits-Onward s h in
      let part = fraction-Passes (consume_digits source s) digits.inside in
      close_number-Spanned decimal (exponent source (fraction source (consume_digits source s))) (
        exponent-Passes (fraction source (consume_digits source s))
          (passes (Onward-trans source digits part.onward)))

  skip_spaces-Onward : (s : Scanner) → Within source s → Onward source s (skip_spaces source s)
  unfolding skip_spaces
  skip_spaces-Onward s h = advance_while-Onward source _ (remaining source s) s h (rounds source s)

  tant_que-Spanned : {s t : Scanner} → Onward source s t → Spanned source s (tant_que source t)
  unfolding tant_que
  tant_que-Spanned {t = t} p =
      let spaces = skip_spaces source t in
      let behind = advance source (advance source spaces) in
      let one = skip_spaces-Onward t p.inside in
      let two = advance-Onward source spaces one.inside in
      let three =
        Onward-trans source one
          (Onward-trans source two (advance-Onward source (advance source spaces) two.inside)) in
      let four = advance-Onward source behind three.inside in
      let refused = error_token-Spanned source tant_without_que (restored p three) in
      Spanned-if source
        (not (is_at_end source spaces)
          && peek source spaces == 113
          && peek_next source spaces == 117)
        (Spanned-if source
          (not (is_at_end source behind)
            && peek source behind == 101
            && at_word_end source (advance source behind))
          (make_token-Spanned source _ (Onward-trans source p (Onward-trans source three four)))
          refused)
        refused

  match_word-Passes :
      (word : List ℕ) (s : Scanner) → Within source s → Passes s (match_word source word s)
  unfolding match_word
  match_word-Passes [] s h = passes (stay source s h)
  match_word-Passes (c ∷ rest) s h =
      let one = advance-Onward source s h in
      Passes-if (is_at_end source s || not (peek source s == c)) (passes (stay source s h))
        (record {
          onward =
              Onward-trans source one (match_word-Passes rest (advance source s) one.inside).onward;
        })

  agir_selon-Spanned : {s t : Scanner} → Onward source s t → Spanned source s (agir_selon source t)
  unfolding agir_selon
  agir_selon-Spanned {t = t} p =
      let spaces = skip_spaces source t in
      let selon = match_word source (115 ∷ 101 ∷ 108 ∷ 111 ∷ 110 ∷ []) spaces in
      let one = skip_spaces-Onward t p.inside in
      let two =
        Onward-trans source one
          (match_word-Passes (115 ∷ 101 ∷ 108 ∷ 111 ∷ 110 ∷ []) spaces one.inside).onward in
      let refused = error_token-Spanned source agir_without_selon (restored p two) in
      Spanned-if source (not (is_at_end source spaces) && peek source spaces == 115)
        (Spanned-if source (selon.0 && at_word_end source selon.1)
          (make_token-Spanned source _ (Onward-trans source p two)) refused)
        refused

  pub scan_identifier_or_keyword-Spanned :
      (s : Scanner) → Within source s → Spanned source s (scan_identifier_or_keyword source s)
  unfolding scan_identifier_or_keyword consume_word
  scan_identifier_or_keyword-Spanned s h =
      let word =
        advance_while-Onward source (λ t. is_alpha_continue (peek source t)) (remaining source s) s
          h (rounds source s) in
      let text = lexeme source (consume_word source s) in
      Spanned-if source (same_text text (116 ∷ 97 ∷ 110 ∷ 116 ∷ [])) (tant_que-Spanned word) (
        Spanned-if source (same_text text (97 ∷ 103 ∷ 105 ∷ 114 ∷ [])) (agir_selon-Spanned word)
          (make_token-Spanned source _ word))
