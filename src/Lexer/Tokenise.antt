-- ===== src/Lexer/Tokenise.antt =====
-- The dispatch on the first byte of a token (src/lexer/tokenizer.cpp) and the loop over the source
-- (src/lexer/lexer.cpp).
use lumiere.Common.{
  ℕ, zero, suc, Bool, ◌&&◌, Option, none, some, List, [], ◌∷◌, ◌==◌, if◌then◌else◌, length,
}
use lumiere.Lexer.Token.{TokenType, Token, Lexeme, text, unexpected_character, is_erreur}
use lumiere.Lexer.Keywords.{is_digit, is_alpha_start}
use lumiere.Lexer.Scanner.{
  Scanner, initial, mark_start, is_at_end, peek, peek_next, advance, match_byte,
}
use lumiere.Lexer.Comments.{skip_whitespace_and_comments, scan_documentation}
use lumiere.Lexer.Literals.{make_token, error_token, scan_string, scan_symbol}
use lumiere.Lexer.Words.{scan_number, scan_identifier_or_keyword}

-- The tokens of one byte.
unfoldable pub single_byte : ℕ → Option TokenType
single_byte c =
    if c == 40
    then some TokenType.paren_ouv
    else if c == 41
    then some TokenType.paren_ferm
    else if c == 123
    then some TokenType.accolade_ouv
    else if c == 125
    then some TokenType.accolade_ferm
    else if c == 91
    then some TokenType.crochet_ouv
    else if c == 93
    then some TokenType.crochet_ferm
    else if c == 44
    then some TokenType.virgule
    else if c == 37
    then some TokenType.modulo
    else if c == 42
    then some TokenType.etoile
    else if c == 43
    then some TokenType.plus
    else if c == 38
    then some TokenType.ampersand
    else if c == 124
    then some TokenType.pipe
    else if c == 58
    then some TokenType.deux_points
    else if c == 46
    then some TokenType.point
    else none

-- A diagnostic of the lexer: its code and its level are always the same.
pub record Diagnostic : Type 0 where
  pub message_text : Lexeme
  pub start_offset : ℕ
  pub end_offset : ℕ
  pub line : ℕ
  pub column : ℕ

module _ (source : List ℕ) (parse_decimal_literal : List ℕ → Bool) where
  -- A token of one byte or two, by whether `expected` follows.
  unfoldable pub one_or_two : ℕ → TokenType → TokenType → Scanner → Token × Scanner
  one_or_two expected two one s =
      let (matched, behind) = match_byte source expected s in
      (make_token source (if matched then two else one) behind, behind)

  -- `!` is a token only before `=`.
  unfoldable pub bang : Scanner → Token × Scanner
  bang s =
      let (matched, behind) = match_byte source 61 s in
      if matched
      then (make_token source TokenType.bang_egal behind, behind)
      else (error_token source (unexpected_character 33) behind, behind)

  unfoldable pub slash : Scanner → Token × Scanner
  slash s =
      if peek source s == 42 && peek_next source s == 42
      then scan_documentation source s
      else (make_token source TokenType.slash s, s)

  -- The cases of the `switch` that look further; `c` is the byte that was passed over.
  unfoldable pub scan_longer : ℕ → Scanner → Token × Scanner
  scan_longer c s =
      if c == 47
      then slash s
      else if c == 61
      then one_or_two 61 TokenType.egal_egal TokenType.egal s
      else if c == 33
      then bang s
      else if c == 60
      then one_or_two 61 TokenType.inferieur_egal TokenType.inferieur s
      else if c == 62
      then one_or_two 61 TokenType.superieur_egal TokenType.superieur s
      else if c == 45
      then one_or_two 62 TokenType.fleche TokenType.moins s
      else if c == 34
      then scan_string source s
      else if c == 39
      then scan_symbol source s
      else if is_digit c
      then scan_number source parse_decimal_literal s
      else if is_alpha_start c
      then scan_identifier_or_keyword source s
      else (error_token source (unexpected_character c) s, s)

  unfoldable pub scan_token : Scanner → Token × Scanner
  scan_token s =
      let behind = advance source s in
      elim (single_byte (peek source s)) [
        | some kind ↦ (make_token source kind behind, behind)
        | none ↦ scan_longer (peek source s) behind
      ]

  -- The token that ends every sequence.
  unfoldable pub end_token : Scanner → Token
  end_token s = record {
    token_type = TokenType.fin_fichier;
    lexeme = text [];
    line = s.line;
    column = s.column;
    start_offset = s.current;
    end_offset = s.current;
    decoded = [];
  }

  -- `none` is no outcome of the source: the fuel of the loop ran out.
  unfoldable pub tokens_from : ℕ → Scanner → Option (List Token)
  tokens_from zero s = none
  tokens_from (suc fuel) s =
      let skipped = skip_whitespace_and_comments source s in
      let (token, behind) = scan_token (mark_start skipped) in
      let rest : Option (List Token) = tokens_from fuel behind in
      if is_at_end source s
      then some (end_token s ∷ [])
      else if is_at_end source skipped
      then some (end_token skipped ∷ [])
      else elim rest [ none ↦ none | some tokens ↦ some (token ∷ tokens) ]

  -- A token takes a byte at least, so one round more than there are bytes is enough.
  unfoldable pub tokenise : Option (List Token)
  tokenise = tokens_from (suc (length source)) initial

-- The diagnostics, one for each error token, in order.
unfoldable pub diagnostics : List Token → List Diagnostic
diagnostics [] = []
diagnostics (token ∷ rest) =
    if is_erreur token.token_type
    then record {
      message_text = token.lexeme;
      start_offset = token.start_offset;
      end_offset = token.end_offset;
      line = token.line;
      column = token.column;
    }
      ∷ diagnostics rest
    else diagnostics rest
