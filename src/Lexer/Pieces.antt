-- ===== src/Lexer/Pieces.antt =====
-- What the body of a text literal is made of: the pieces that the source writes and what each stands
-- for (src/lexer/tokenizer.cpp).
pub mod Decodes
pub mod Escapes
pub mod Texts
use Prim.Native.Nat.{bit_or}
use mathlib.Core.Path.{subst, sym, ap₂}
use mathlib.Core.List.{append_assoc}
use lumiere.Common.{
  ℕ, zero, suc, ◌+◌, ◌-◌, ◌*◌, ◌%◌, ◌^◌, ◌≤◌, ◌<◌, ◌≡◌, ◌≢◌, refl, ap, ◌∙◌, Bool, true, false, not,
  ◌&&◌, ◌||◌, Option, none, some, List, [], ◌∷◌, ◌++◌, length, get_elem?, get_or, length-append,
  All, leb, ltb, ◌==◌, if◌then◌else◌, arith, Bool-cases, Option-cases, ◌⊎◌, inl, inr,
}
use lumiere.Common.Bits.{bit_or-shift}
use lumiere.Utf8.{encode_character}
use lumiere.Utf8.RoundTrip.{IsScalar}
use lumiere.Lexer.Token.{TokenType, Token}
use lumiere.Lexer.Scanner.{Scanner, mark_line_end, is_at_end, peek, advance, remaining}
use lumiere.Lexer.Literals.{
  Body, bytes, failed, before, hexadecimal, make_token, finish_unicode, unicode_digits,
  decode_unicode_escape, simple_escape, decode_escape_sequence, after_escape, string_body,
  close_string, scan_string,
}
use lumiere.Lexer.Progress.{advance-current}

-- The digits 0 to 9, the letters A to F and the letters a to f.
abbrev pub IsHex : ℕ → Type 0
IsHex digit =
    ((48 ≤ digit) × (digit ≤ 57)) ⊎ (((65 ≤ digit) × (digit ≤ 70)) ⊎ ((97 ≤ digit) × (digit ≤ 102)))

-- 97 is the letter a, which is worth ten, and 65 the letter A.
abbrev pub digit_value : ℕ → ℕ
digit_value digit =
    if leb 97 digit then digit - 87 else if leb 65 digit then digit - 55 else digit - 48

-- The number that hexadecimal digits write, behind `value`.
abbrev pub hex_value : ℕ → List ℕ → ℕ
hex_value value [] = value
hex_value value (digit ∷ rest) = hex_value (value * 16 + digit_value digit) rest

-- A byte that stands for itself, a backslash with a letter, or a backslash with the number of a character.
pub data Piece : Type 0 where
  plain : ℕ → Piece
  simple : ℕ → ℕ → Piece
  unicode : List ℕ → Piece

abbrev pub written : Piece → List ℕ
written (plain c) = c ∷ []
written (simple letter byte) = 92 ∷ letter ∷ []
written (unicode digits) = 92 ∷ 117 ∷ 123 ∷ (digits ++ (125 ∷ []))

abbrev pub meaning : Piece → List ℕ
meaning (plain c) = c ∷ []
meaning (simple letter byte) = byte ∷ []
meaning (unicode digits) = encode_character (hex_value 0 digits)

-- What the language has behind a backslash: n, t, r, a backslash, both quotes and 0.
pub data StandsFor : ℕ → ℕ → Type 0 where
  line_feed : StandsFor 110 10
  tabulator : StandsFor 116 9
  carriage_return : StandsFor 114 13
  backslash : StandsFor 92 92
  double_quote : StandsFor 34 34
  single_quote : StandsFor 39 39
  null : StandsFor 48 0

-- The escaped letter stands for the byte; the number has up to six digits and is a scalar value.
abbrev pub IsPiece : Piece → Type 0
IsPiece (plain c) = (c ≢ 34) × (c ≢ 92)
IsPiece (simple letter byte) = StandsFor letter byte
IsPiece (unicode digits) =
    (0 < length digits) × (length digits ≤ 6) × All IsHex digits × IsScalar (hex_value 0 digits)

abbrev pub all_written : List Piece → List ℕ
all_written [] = []
all_written (piece ∷ rest) = written piece ++ all_written rest

abbrev pub all_meaning : List Piece → List ℕ
all_meaning [] = []
all_meaning (piece ∷ rest) = meaning piece ++ all_meaning rest
