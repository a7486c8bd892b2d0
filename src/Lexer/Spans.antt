-- ===== src/Lexer/Spans.antt =====
-- A source is cut into tokens that lie one behind the other.
mod Literals
mod Words
use lumiere.Common.{
  ℕ, ◌-◌, ◌≤◌, ◌<◌, ◌≡◌, Bool, not, ◌||◌, Option, some, List, [], ◌∷◌, length, ltb, leb,
  if◌then◌else◌, ◌⊎◌,
}
use lumiere.Lexer.Token.{TokenType, Token, LexError}
use lumiere.Lexer.Scanner.{Scanner, remaining}
use lumiere.Lexer.Progress.{Onward, Onward-trans}
use lumiere.Lexer.Spanned.{Reads, Spanned, Spanned-behind}

-- The tokens lie in the source behind `at`, each with a byte at least, none overlapping the one
-- before; each reads what its span holds; FIN_FICHIER alone, empty, ends them at the source's end.
pub data Tiled (source : List ℕ) : ℕ → List Token → Type 0 where
  ending :
      {at : ℕ} {token : Token}
      → token.token_type ≡ TokenType.fin_fichier
      → token.start_offset ≡ length source
      → token.end_offset ≡ length source
      → Tiled source at (token ∷ [])
  onward :
      {at : ℕ} {token : Token} {rest : List Token}
      → at ≤ token.start_offset
      → token.start_offset < token.end_offset
      → token.end_offset ≤ length source
      → Reads source token
      → Tiled source token.end_offset rest
      → Tiled source at (token ∷ rest)

module _ (source : List ℕ) (decimal : List ℕ → Bool) where
  abbrev Tokenised : ℕ → Option (List Token) → Type 0
  Tokenised at result = (tokens : List Token) × (result ≡ some tokens) × Tiled source at tokens
