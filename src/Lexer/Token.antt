-- ===== src/Lexer/Token.antt =====
-- Tokens and their types (include/lumiere/lexer/token.hpp). Text is a list of bytes. The French
-- messages of the error tokens are named here.
use lumiere.Common.{ℕ, List, Bool, true, false}

pub data TokenType : Type 0 where
  entier_lit decimal_lit texte_lit symbole_lit vrai faux rien soit fixe fonction : TokenType
  retourne classe interface type realise remplace public prive si sinon pour : TokenType
  chaque dans tant_que agir_selon arreter continuer ici parent en importer : TokenType
  comme est propager ignorer plus moins etoile slash modulo egal_egal bang_egal : TokenType
  inferieur inferieur_egal superieur superieur_egal egal et ou non pipe ampersand : TokenType
  fleche point virgule deux_points paren_ouv paren_ferm accolade_ouv accolade_ferm : TokenType
  crochet_ouv crochet_ferm ident fin_fichier erreur documentation : TokenType

pub data LexError : Type 0 where
  unexpected_character : ℕ → LexError
  missing_escape unicode_needs_brace unicode_needs_digits unicode_too_long : LexError
  unicode_empty unicode_unclosed unicode_out_of_range : LexError
  unknown_escape : ℕ → LexError
  unterminated_text missing_symbol unterminated_symbol invalid_symbol : LexError
  letter_after_number decimal_out_of_range integer_out_of_range : LexError
  tant_without_que agir_without_selon : LexError

-- The `lexeme` of a token is a piece of the source, a documentation text or an error message.
pub data Lexeme : Type 0 where
  text : List ℕ → Lexeme
  message : LexError → Lexeme

pub record Token : Type 0 where
  pub token_type : TokenType
  pub lexeme : Lexeme
  pub line : ℕ
  pub column : ℕ
  pub start_offset : ℕ
  pub end_offset : ℕ
  pub decoded : List ℕ

-- `type == TokenType::ERREUR`
unfoldable pub is_erreur : TokenType → Bool
is_erreur erreur = true
is_erreur _ = false
