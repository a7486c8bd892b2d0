-- ===== src/Lexer/Tests.antt =====
-- Small sources (tests/test_lexer.cpp), and the theorems at them.
use lumiere.Common.{
  ℕ, ◌+◌, ◌≡◌, refl, Bool, true, Option, none, some, List, [], ◌∷◌, map, All, arith, inl, inr,
}
use lumiere.Lexer.Token.{TokenType, Token, is_erreur}
use lumiere.Lexer.Keywords.{
  is_digit, is_alpha, is_alpha_start, is_alpha_continue, same_text, find, keyword_type,
}
use lumiere.Lexer.Scanner.{
  Scanner, is_at_end, peek, peek_next, advance, match_byte, lexeme, remaining, advance_while, spent,
}
use lumiere.Lexer.Comments.{
  push_byte, lines_of, is_blank, trim_left, keep_right, trim_right, drop_byte, strip_star,
  drop_empty, keep_line, drop_empty_last, join, normalize_block_documentation,
  at_documentation_comment, skip_block, skip_round, skip_from, skip_whitespace_and_comments,
  documentation_body, open_documentation, close_documentation, documentation_token,
  scan_documentation,
}
use lumiere.Lexer.Literals.{
  before, hexadecimal, simple_escape, make_token, error_token, finish_unicode, unicode_digits,
  decode_unicode_escape, decode_escape_sequence, after_escape, string_body, close_string,
  scan_string, symbol_body, close_symbol, scan_symbol,
}
use lumiere.Lexer.Words.{
  consume_digits, fraction, pass_sign, exponent, close_number, scan_number, consume_word,
  skip_spaces, at_word_end, tant_que, match_word, agir_selon, scan_identifier_or_keyword,
}
use lumiere.Lexer.Tokenise.{
  single_byte, one_or_two, bang, slash, scan_longer, scan_token, end_token, tokens_from, tokenise,
}
use lumiere.Numeric.Parse.{
  without_digit_separators, digit, decimal_digits, magnitude_of, positive, negative, stoll,
  parse_integer_literal,
}
use lumiere.Utf8.{encode_character, decode_single_character}
use lumiere.Lexer.Skipped.{Skipped}
use lumiere.Lexer.Pieces.{Piece, plain, simple, unicode, IsPiece, all_meaning, line_feed}
use lumiere.Lexer.Pieces.Texts.{scan_string-pieces}

-- soit é=1_0 tant  que/* */"a\u{20ac}"<='x'
abbrev small : List ℕ
small =
    115 ∷ 111 ∷ 105 ∷ 116 ∷ 32 ∷ 195 ∷ 169 ∷ 61 ∷ 49 ∷ 95 ∷ 48 ∷ 32 ∷ 116 ∷ 97 ∷ 110 ∷ 116 ∷ 32 ∷ 32
    ∷ 113 ∷ 117 ∷ 101 ∷ 47 ∷ 42 ∷ 32 ∷ 42 ∷ 47 ∷ 34 ∷ 97 ∷ 92 ∷ 117 ∷ 123 ∷ 50 ∷ 48 ∷ 97 ∷ 99 ∷ 125
    ∷ 34 ∷ 60 ∷ 61 ∷ 39 ∷ 120 ∷ 39 ∷ []

abbrev any_decimal : List ℕ → Bool
any_decimal text = true

abbrev type_and_start : Token → TokenType × ℕ
type_and_start token = (token.token_type, token.start_offset)

abbrev types_of : Option (List Token) → List (TokenType × ℕ)
types_of none = []
types_of (some tokens) = map type_and_start tokens

small_tokens :
    types_of (tokenise small any_decimal)
    ≡ (TokenType.soit, 0)
      ∷ (TokenType.ident, 5)
      ∷ (TokenType.egal, 7)
      ∷ (TokenType.entier_lit, 8)
      ∷ (TokenType.tant_que, 12)
      ∷ (TokenType.texte_lit, 26)
      ∷ (TokenType.inferieur_egal, 37)
      ∷ (TokenType.symbole_lit, 39)
      ∷ (TokenType.fin_fichier, 42)
      ∷ []
unfolding tokenise tokens_from scan_token scan_longer single_byte one_or_two bang slash end_token
    is_at_end peek peek_next advance match_byte lexeme remaining advance_while spent
    skip_whitespace_and_comments skip_from skip_round skip_block at_documentation_comment
    scan_documentation documentation_token documentation_body open_documentation close_documentation
    normalize_block_documentation lines_of push_byte trim_left trim_right keep_right is_blank
    strip_star drop_byte drop_empty drop_empty_last keep_line join make_token error_token
    scan_string string_body close_string scan_symbol symbol_body close_symbol decode_escape_sequence
    simple_escape decode_unicode_escape unicode_digits finish_unicode hexadecimal after_escape
    before encode_character decode_single_character scan_number consume_digits fraction exponent
    pass_sign close_number scan_identifier_or_keyword consume_word skip_spaces at_word_end tant_que
    agir_selon match_word is_digit is_alpha is_alpha_start is_alpha_continue same_text find
    keyword_type parse_integer_literal stoll without_digit_separators positive negative magnitude_of
    decimal_digits digit is_erreur
small_tokens = refl

-- A text that ends in a backslash before the line feed, and a word on the second line: the escape
-- passes over the line feed without counting it, and the word is reported on the first line.
abbrev broken_text : List ℕ
broken_text = 34 ∷ 92 ∷ 10 ∷ 120 ∷ []

abbrev lines_of_tokens : Option (List Token) → List ℕ
lines_of_tokens none = []
lines_of_tokens (some tokens) = map (λ (token : Token). token.line) tokens

uncounted_line : lines_of_tokens (tokenise broken_text any_decimal) ≡ 1 ∷ 1 ∷ 1 ∷ []
unfolding tokenise tokens_from scan_token scan_longer single_byte one_or_two bang slash end_token
    is_at_end peek peek_next advance match_byte lexeme remaining advance_while spent
    skip_whitespace_and_comments skip_from skip_round skip_block at_documentation_comment
    scan_documentation documentation_token documentation_body open_documentation close_documentation
    normalize_block_documentation lines_of push_byte trim_left trim_right keep_right is_blank
    strip_star drop_byte drop_empty drop_empty_last keep_line join make_token error_token
    scan_string string_body close_string scan_symbol symbol_body close_symbol decode_escape_sequence
    simple_escape decode_unicode_escape unicode_digits finish_unicode hexadecimal after_escape
    before encode_character decode_single_character scan_number consume_digits fraction exponent
    pass_sign close_number scan_identifier_or_keyword consume_word skip_spaces at_word_end tant_que
    agir_selon match_word is_digit is_alpha is_alpha_start is_alpha_continue same_text find
    keyword_type parse_integer_literal stoll without_digit_separators positive negative magnitude_of
    decimal_digits digit is_erreur
uncounted_line = refl

-- A block comment and a line comment before a word.
abbrev commented : List ℕ
commented = 47 ∷ 42 ∷ 32 ∷ 97 ∷ 32 ∷ 42 ∷ 47 ∷ 32 ∷ 47 ∷ 47 ∷ 32 ∷ 98 ∷ 10 ∷ 120 ∷ []

-- A text with a letter, an escaped line feed and the number of "é".
abbrev quoted : List ℕ
quoted = 34 ∷ 97 ∷ 92 ∷ 110 ∷ 92 ∷ 117 ∷ 123 ∷ 69 ∷ 57 ∷ 125 ∷ 34 ∷ []

abbrev pieces : List Piece
pieces = plain 97 ∷ simple 110 10 ∷ unicode (69 ∷ 57 ∷ []) ∷ []

abbrev behind_quote : Scanner
behind_quote = record {
  start = 0;
  current = 1;
  start_line = 1;
  start_column = 1;
  line = 1;
  column = 2;
}

pieces_valid : All IsPiece pieces
pieces_valid = (
  ((λ h. absurd (omega (arith, h))), (λ h. absurd (omega (arith, h)))),
  (
    line_feed,
    (
      (
        omega arith,
        omega arith,
        (inr (inl (omega arith, omega arith)), (inl (omega arith, omega arith), tt)),
        (omega arith, inl (omega arith)),
      ),
      tt,
    ),
  ),
)

scan_string-pieces_example :
    ((scan_string quoted behind_quote).0.token_type ≡ TokenType.texte_lit)
    × ((scan_string quoted behind_quote).0.decoded ≡ all_meaning pieces)
    × ((scan_string quoted behind_quote).1.current ≡ 1 + 9 + 1)
scan_string-pieces_example =
    scan_string-pieces quoted pieces behind_quote pieces_valid
      (refl, (refl, (refl, (refl, (refl, (refl, (refl, (refl, (refl, (refl, tt))))))))))
