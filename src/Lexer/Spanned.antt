-- ===== src/Lexer/Spanned.antt =====
-- Tokens that take the bytes from their start to the cursor.
use lumiere.Common.{
  ℕ, ◌-◌, ◌≡◌, refl, Bool, true, false, not, ◌&&◌, List, ◌==◌, if◌then◌else◌, ◌⊎◌, inl, inr,
}
use lumiere.Lexer.Token.{TokenType, Token, LexError, text}
use lumiere.Lexer.Literals.{make_token, error_token}
use lumiere.Lexer.Scanner.{Scanner, is_at_end, peek, peek_next, advance, remaining, lexeme, slice}
use lumiere.Lexer.Comments.{
  documentation_body, open_documentation, close_documentation, documentation_token,
  scan_documentation,
}
use lumiere.Lexer.Progress.{
  Onward, Onward-if, Onward-trans, Within, advance-Onward, documentation_body-Onward, stay, rounds,
}

module _ (source : List ℕ) where
  -- The lexeme is the bytes of the token's span, for every token but an error and a documentation.
  abbrev pub Reads : Token → Type 0
  Reads token =
      (token.token_type ≡ TokenType.erreur)
      ⊎ ((token.token_type ≡ TokenType.documentation)
          ⊎ (token.lexeme
              ≡ text (slice source token.start_offset (token.end_offset - token.start_offset))))

  -- What a scanning function gives: a token of the bytes from the start to the cursor.
  pub record Spanned (s : Scanner) (result : Token × Scanner) : Type 0 where
    pub onward : Onward source s result.1
    pub starts : result.0.start_offset ≡ s.start
    pub ends : result.0.end_offset ≡ result.1.current
    pub reads : Reads result.0

  pub spanned :
      {s : Scanner} (token : Token) (t : Scanner)
      → Onward source s t
      → token.start_offset ≡ s.start
      → token.end_offset ≡ t.current
      → Reads token
      → Spanned s (token, t)
  spanned token t p a b c = record { onward = p; starts = a; ends = b; reads = c }

  pub error_token-Spanned :
      {s t : Scanner} (error : LexError)
      → Onward source s t
      → Spanned s (error_token source error t, t)
  unfolding error_token
  error_token-Spanned {t = t} error p = spanned _ t p p.same_start refl (inl refl)

  pub make_token-Spanned :
      {s t : Scanner} (kind : TokenType)
      → Onward source s t
      → Spanned s (make_token source kind t, t)
  unfolding make_token lexeme
  make_token-Spanned {t = t} kind p = spanned _ t p p.same_start refl (inr (inr refl))

  pub Spanned-if :
      {s : Scanner} {x y : Token × Scanner} (b : Bool)
      → Spanned s x
      → Spanned s y
      → Spanned s (if b then x else y)
  Spanned-if true p q = p
  Spanned-if false p q = q

  pub Spanned-behind :
      {s t : Scanner} {x : Token × Scanner} → Onward source s t → Spanned t x → Spanned s x
  Spanned-behind p q = record {
    onward = Onward-trans source p q.onward;
    starts = cc (q.starts, p.same_start);
    ends = q.ends;
    reads = q.reads;
  }

  open_documentation-Onward :
      (s : Scanner) → Within source s → Onward source s (open_documentation source s)
  unfolding open_documentation
  open_documentation-Onward s h =
      let one = advance-Onward source s h in
      Onward-trans source one (
        Onward-if source
          (not (peek source (advance source s) == 42 && peek_next source (advance source s) == 47))
          (advance-Onward source (advance source s) one.inside)
          (stay source (advance source s) one.inside))

  close_documentation-Onward :
      (s : Scanner) → Within source s → Onward source s (close_documentation source s)
  unfolding close_documentation
  close_documentation-Onward s h =
      let one = advance-Onward source s h in
      Onward-if source (not (is_at_end source s))
        (Onward-trans source one (advance-Onward source _ one.inside)) (stay source s h)

  documentation_token-Spanned :
      {s : Scanner} (body : List ℕ × Scanner)
      → Onward source s body.1
      → Spanned s (documentation_token source body)
  unfolding documentation_token
  documentation_token-Spanned (raw, t) p =
      spanned _ _ (Onward-trans source p (close_documentation-Onward t p.inside)) p.same_start refl
        (inr (inl refl))

  pub scan_documentation-Spanned :
      (s : Scanner) → Within source s → Spanned s (scan_documentation source s)
  unfolding scan_documentation
  scan_documentation-Spanned s h =
      let opened = open_documentation-Onward s h in
      documentation_token-Spanned
        (documentation_body source (remaining source (open_documentation source s))
          (open_documentation source s))
        (Onward-trans source opened (
          documentation_body-Onward source (remaining source (open_documentation source s)) _
            opened.inside (rounds source (open_documentation source s))))
