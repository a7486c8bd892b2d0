-- ===== src/Lexer/Spans/Literals.antt =====
-- A text and a symbol take the bytes from their start to the cursor.
use lumiere.Common.{
  ℕ, zero, suc, ◌+◌, ◌≤◌, ◌≡◌, arith, length, refl, Bool, true, false, not, ◌&&◌, ◌||◌, List, ltb,
  leb, ◌==◌, if◌then◌else◌, Option-cases, inl, inr,
}
use lumiere.Lexer.Scanner.{Scanner, is_at_end, peek, advance, remaining, lexeme}
use lumiere.Lexer.Literals.{
  Body, bytes, failed, hexadecimal, make_token, finish_unicode, unicode_digits,
  decode_unicode_escape, simple_escape, decode_escape_sequence, after_escape, string_body,
  close_string, scan_string, symbol_body, close_symbol, scan_symbol,
}
use lumiere.Utf8.{decode_single_character}
use mathlib.Core.Path.{subst, sym}
use lumiere.Lexer.Progress.{
  Onward, Within, stay, Onward-trans, advance-Onward, advance-current, marked-Onward,
  marked-current, more_left, rounds, spent_same, spent-Onward,
}
use lumiere.Lexer.Spanned.{Spanned, spanned, error_token-Spanned, Spanned-if}

module _ (source : List ℕ) where
  -- The cursor after an escape or a body.
  record Moves (s : Scanner) (result : Body × Scanner) : Type 0 where
    onward : Onward source s result.1

  moves : {s t : Scanner} {body : Body} → Onward source s t → Moves s (body, t)
  moves p = record { onward = p }

  still : {s : Scanner} {body : Body} → Within source s → Moves s (body, s)
  still h = moves (stay source _ h)

  Moves-behind : {s t : Scanner} {x : Body × Scanner} → Onward source s t → Moves t x → Moves s x
  Moves-behind p q = record { onward = Onward-trans source p q.onward }

  Moves-body :
      {s t : Scanner} {x : Body × Scanner} {body : Body}
      → Onward source s t
      → Moves t x
      → Moves s (body, x.1)
  Moves-body p q = moves (Onward-trans source p q.onward)

  Moves-if :
      {s : Scanner} {x y : Body × Scanner} (b : Bool)
      → Moves s x
      → Moves s y
      → Moves s (if b then x else y)
  Moves-if true p q = p
  Moves-if false p q = q

  Moves-branch :
      {s : Scanner} {x y : Body × Scanner} (b : Bool)
      → (b ≡ true → Moves s x)
      → (b ≡ false → Moves s y)
      → Moves s (if b then x else y)
  Moves-branch true p q = p refl
  Moves-branch false p q = q refl

  finish_unicode-Moves :
      (code_point digit_count : ℕ) (s : Scanner)
      → Within source s
      → Moves s (finish_unicode source code_point digit_count s)
  unfolding finish_unicode
  finish_unicode-Moves code_point digit_count s h =
      let one = advance-Onward source s h in
      Moves-if (digit_count == 0) (still h) (
        Moves-if (is_at_end source s) (still h) (
          Moves-if (ltb 0x10ffff code_point || (leb 0xd800 code_point && leb code_point 0xdfff))
            (moves one) (moves one)))

  unicode_digits-Moves :
      (fuel code_point digit_count : ℕ) (s : Scanner)
      → Within source s
      → length source ≤ fuel + s.current
      → Moves s (unicode_digits source fuel code_point digit_count s)
  unfolding unicode_digits
  unicode_digits-Moves zero code_point digit_count s h enough =
      subst (λ t. Moves s (finish_unicode source code_point digit_count t))
        (sym (spent_same source s h (omega arith)))
        (finish_unicode-Moves code_point digit_count s h)
  unicode_digits-Moves (suc fuel) code_point digit_count s h enough =
      let one = advance-Onward source s h in
      Moves-branch (not (is_at_end source s) && not (peek source s == 125))
        (λ go. elim (Option-cases (hexadecimal (peek source s))) [
          | inl nothing ↦ rw nothing (still h)
          | inr (value, found) ↦ rw found (
              Moves-if (digit_count == 6) (still h) (
                Moves-behind one (
                  unicode_digits-Moves fuel _ _ (advance source s) one.inside (
                    omega (
                      arith,
                      advance-current source s
                          (more_left source s (not (peek source s == 125)) h go),
                    )))))
        ])
        (λ _. finish_unicode-Moves code_point digit_count s h)

  decode_unicode_escape-Moves :
      (s : Scanner) → Within source s → Moves s (decode_unicode_escape source s)
  unfolding decode_unicode_escape
  decode_unicode_escape-Moves s h =
      let one = advance-Onward source s h in
      Moves-if (is_at_end source s || not (peek source s == 123)) (still h) (
        Moves-behind one (
          unicode_digits-Moves (remaining source (advance source s)) 0 0 (advance source s)
            one.inside (rounds source (advance source s))))

  decode_escape_sequence-Moves :
      (s : Scanner) → Within source s → Moves s (decode_escape_sequence source s)
  unfolding decode_escape_sequence
  decode_escape_sequence-Moves s h =
      let one = advance-Onward source s h in
      Moves-if (is_at_end source s) (still h) (elim (Option-cases (simple_escape (peek source s))) [
        | inl nothing ↦ rw nothing (
            Moves-if (peek source s == 117)
              (Moves-behind one (decode_unicode_escape-Moves (advance source s) one.inside))
              (moves one))
        | inr (value, found) ↦ rw found (moves one)
      ])

  after_escape-Moves :
      {s : Scanner} (escape : Body × Scanner) (rest : Scanner → Body × Scanner)
      → Moves s escape
      → ((t : Scanner) → Within source t → s.current ≤ t.current → Moves t (rest t))
      → Moves s (after_escape source escape rest)
  unfolding after_escape
  after_escape-Moves (bytes out, t) rest p next =
      Moves-body p.onward (next t p.onward.inside p.onward.forward)
  after_escape-Moves (failed error, t) rest p next = moves p.onward

  string_body-Moves :
      (fuel : ℕ) (s : Scanner)
      → Within source s
      → length source ≤ fuel + s.current
      → Moves s (string_body source fuel s)
  unfolding string_body
  string_body-Moves zero s h enough = moves (spent-Onward source s h (omega arith))
  string_body-Moves (suc fuel) s h enough =
      let b = peek source s == 10 in
      let one = marked-Onward source b s h in
      Moves-branch (not (is_at_end source s) && not (peek source s == 34))
        (λ go.
          let moved =
            marked-current source b s (more_left source s (not (peek source s == 34)) h go) in
          Moves-if (peek source s == 92)
            (Moves-behind one (
              after_escape-Moves _ (string_body source fuel)
                (decode_escape_sequence-Moves _ one.inside)
                (λ t inside later. string_body-Moves fuel t inside (omega (arith, moved)))))
            (Moves-body one (string_body-Moves fuel _ one.inside (omega (arith, moved)))))
        (λ _. still h)

  symbol_body-Moves :
      (fuel : ℕ) (s : Scanner)
      → Within source s
      → length source ≤ fuel + s.current
      → Moves s (symbol_body source fuel s)
  unfolding symbol_body
  symbol_body-Moves zero s h enough = moves (spent-Onward source s h (omega arith))
  symbol_body-Moves (suc fuel) s h enough =
      let one = advance-Onward source s h in
      Moves-branch (not (is_at_end source s) && not (peek source s == 39))
        (λ go.
          let moved =
            advance-current source s (more_left source s (not (peek source s == 39)) h go) in
          Moves-if (peek source s == 10) (still h) (
            Moves-if (peek source s == 92)
              (Moves-behind one (
                after_escape-Moves _ (symbol_body source fuel)
                  (decode_escape_sequence-Moves _ one.inside)
                  (λ t inside later. symbol_body-Moves fuel t inside (omega (arith, moved)))))
              (Moves-body one (symbol_body-Moves fuel _ one.inside (omega (arith, moved))))))
        (λ _. still h)

  close_string-Spanned :
      {s : Scanner} (body : Body × Scanner)
      → Moves s body
      → Spanned source s (close_string source body)
  unfolding close_string make_token lexeme
  close_string-Spanned (failed error, t) p = error_token-Spanned source error p.onward
  close_string-Spanned (bytes out, t) p =
      let closed = Onward-trans source p.onward (advance-Onward source t p.onward.inside) in
      Spanned-if source (is_at_end source t) (error_token-Spanned source _ p.onward)
        (spanned source _ _ closed closed.same_start refl (inr (inr refl)))

  pub scan_string-Spanned :
      (s : Scanner) → Within source s → Spanned source s (scan_string source s)
  unfolding scan_string
  scan_string-Spanned s h =
      close_string-Spanned _ (string_body-Moves (remaining source s) s h (rounds source s))

  close_symbol-Spanned :
      {s : Scanner} (body : Body × Scanner)
      → Moves s body
      → Spanned source s (close_symbol source body)
  unfolding close_symbol make_token lexeme
  close_symbol-Spanned (failed error, t) p = error_token-Spanned source error p.onward
  close_symbol-Spanned (bytes out, t) p =
      let closed = Onward-trans source p.onward (advance-Onward source t p.onward.inside) in
      Spanned-if source (is_at_end source t || not (peek source t == 39))
        (error_token-Spanned source _ p.onward)
        (elim (Option-cases (decode_single_character out)) [
          | inl nothing ↦ rw nothing (error_token-Spanned source _ p.onward)
          | inr (character, found) ↦
              rw found (spanned source _ _ closed closed.same_start refl (inr (inr refl)))
        ])

  pub scan_symbol-Spanned :
      (s : Scanner) → Within source s → Spanned source s (scan_symbol source s)
  unfolding scan_symbol
  scan_symbol-Spanned s h =
      Spanned-if source (is_at_end source s) (error_token-Spanned source _ (stay source s h))
        (close_symbol-Spanned _ (symbol_body-Moves (remaining source s) s h (rounds source s)))
