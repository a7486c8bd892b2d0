-- ===== src/Lexer/Pieces/Decodes.antt =====
-- What the cursor sees of the bytes before it, and what a decoded result is.
use Prim.Native.Nat.{bit_or}
use mathlib.Core.Path.{subst, sym}
use lumiere.Common.{
  Holds, ℕ, zero, suc, ◌+◌, ◌-◌, inl, inr, ◌*◌, ◌%◌, ◌^◌, ◌≤◌, ◌<◌, ◌≡◌, ◌≢◌, refl, ap, ◌∙◌, false,
  none, some, List, [], ◌∷◌, ◌++◌, length, get_elem?, get_or, arith,
}
use lumiere.Common.Bits.{bit_or-shift}
use lumiere.Lexer.Scanner.{Scanner, is_at_end, peek, advance}
use lumiere.Lexer.Literals.{Body, bytes, failed, before, hexadecimal, simple_escape, after_escape}
use lumiere.Lexer.Progress.{advance-current}
use lumiere.Lexer.Pieces.{
  digit_value, hex_value, IsHex, StandsFor, line_feed, tabulator, carriage_return, backslash,
  double_quote, single_quote, null,
}

pub byte_at :
    (source : List ℕ) (offset byte : ℕ)
    → get_elem? source offset ≡ some byte
    → (get_or source offset 0 ≡ byte) × (offset < length source)
byte_at [] offset byte h = absurd (cc)
byte_at (c ∷ rest) zero byte h = (ground arith, omega arith)
byte_at (c ∷ rest) (suc offset) byte h =
    let (a, b) = byte_at rest offset byte h in (a, omega (arith, b))

pub hex_value-le : (digits : List ℕ) (value : ℕ) → value ≤ hex_value value digits
hex_value-le [] value = omega arith
hex_value-le (digit ∷ rest) value =
    omega (arith, hex_value-le rest (value * 16 + digit_value digit))

pub hexadecimal-lt :
    (digit value : ℕ) → hexadecimal digit ≡ some value → (value < 16) × (digit ≢ 125)
unfolding hexadecimal
hexadecimal-lt digit value h = (ground arith, ground arith)

hexadecimal_value : (digit value : ℕ) → hexadecimal digit ≡ some value → digit_value digit ≡ value
unfolding hexadecimal
hexadecimal_value digit value h = ground arith

-- The code reads what the language has for a digit and for an escape.
pub IsHex-hexadecimal : (digit : ℕ) → IsHex digit → (value : ℕ) × (hexadecimal digit ≡ some value)
unfolding hexadecimal
IsHex-hexadecimal digit (inl (low, high)) = (digit - 48, ground arith)
IsHex-hexadecimal digit (inr (inl (low, high))) = (10 + (digit - 65), ground arith)
IsHex-hexadecimal digit (inr (inr (low, high))) = (10 + (digit - 97), ground arith)

pub StandsFor-simple_escape :
    (letter byte : ℕ) → StandsFor letter byte → simple_escape letter ≡ some byte
unfolding simple_escape
StandsFor-simple_escape _ _ line_feed = refl
StandsFor-simple_escape _ _ tabulator = refl
StandsFor-simple_escape _ _ carriage_return = refl
StandsFor-simple_escape _ _ backslash = refl
StandsFor-simple_escape _ _ double_quote = refl
StandsFor-simple_escape _ _ single_quote = refl
StandsFor-simple_escape _ _ null = refl

-- No wrap-around while the number stays below that of the last character.
pub join_digit :
    (code_point digit value : ℕ) (digits : List ℕ)
    → hexadecimal digit ≡ some value
    → hex_value (code_point * 16 + digit_value digit) digits ≤ 0x10ffff
    → bit_or (code_point * 16 % 2 ^ 32) value ≡ code_point * 16 + digit_value digit
join_digit code_point digit value digits found top =
    let same : digit_value digit ≡ value = hexadecimal_value digit value found in
    let below = hex_value-le digits (code_point * 16 + digit_value digit) in
    let small = hexadecimal-lt digit value found in
    ap (λ high. bit_or high value) (omega (arith, below, top))
    ∙ bit_or-shift 4 code_point value (omega (arith, small.0))
    ∙ omega (arith, same)

pub not_simple : simple_escape 117 ≡ none
unfolding simple_escape
not_simple = refl

pub Holds-lt :
    (source xs : List ℕ) (offset byte : ℕ) (rest : List ℕ)
    → Holds source offset (xs ++ (byte ∷ rest))
    → offset + length xs < length source
Holds-lt source [] offset byte rest (h, more) = omega (arith, (byte_at source offset byte h).1)
Holds-lt source (x ∷ xs) offset byte rest (h, more) =
    omega (arith, Holds-lt source xs (offset + 1) byte rest more)

pub Holds-drop :
    (source xs ys : List ℕ) (offset : ℕ)
    → Holds source offset (xs ++ ys)
    → Holds source (offset + length xs) ys
Holds-drop source [] ys offset h = subst (λ at. Holds source at ys) {x = offset} (omega arith) h
Holds-drop source (x ∷ xs) ys offset (h, more) =
    subst (λ at. Holds source at ys) {x = offset + 1 + length xs} (omega arith)
      (Holds-drop source xs ys (offset + 1) more)

module _ (source : List ℕ) where
  -- What the cursor sees where a byte lies, and where it is behind it.
  pub here :
      (s : Scanner) (byte : ℕ) (rest : List ℕ)
      → Holds source s.current (byte ∷ rest)
      → (peek source s ≡ byte)
        × (is_at_end source s ≡ false)
        × ((advance source s).current ≡ s.current + 1)
        × Holds source (advance source s).current rest
  unfolding peek is_at_end
  here s byte rest (h, more) =
      let (a, b) = byte_at source s.current byte h in
      let c = advance-current source s b in
      (a, ground arith, c, subst (λ offset. Holds source offset rest) (sym c) more)

  -- The result is these bytes, and the cursor has passed over so many.
  pub record Decodes (s : Scanner) (result : Body × Scanner) (out : List ℕ) (count : ℕ)
      : Type 0 where
    pub body : result.0 ≡ bytes out
    pub moved : result.1.current ≡ s.current + count

  pub after_escape-Decodes :
      {s : Scanner} {out more : List ℕ} {n k : ℕ} (escape : Body × Scanner)
      (rest : Scanner → Body × Scanner)
      → Decodes s escape out n
      → Decodes escape.1 (rest escape.1) more k
      → Decodes s (after_escape source escape rest) (out ++ more) (n + k)
  unfolding after_escape before
  after_escape-Decodes {out = out} {more = more} (bytes found, t) rest p q =
      let same : found ≡ out = cc (p.body) in
      record {
        body = ap (before found) q.body ∙ ap (λ (first : List ℕ). bytes (first ++ more)) same;
        moved = omega (arith, p.moved, q.moved);
      }
  after_escape-Decodes (failed error, t) rest p q = absurd (cc (p.body))

  -- A byte that stands for itself, before the rest of the body.
  pub plain-Decodes :
      {s : Scanner} {more : List ℕ} {k : ℕ} (c : ℕ) (t : Scanner) (rest : Body × Scanner)
      → t.current ≡ s.current + 1
      → Decodes t rest more k
      → Decodes s (before (c ∷ []) rest.0, rest.1) (c ∷ more) (1 + k)
  unfolding before
  plain-Decodes c t rest e q = record {
    body = ap (before (c ∷ [])) q.body;
    moved = omega (arith, e, q.moved);
  }

  pub Decodes-count :
      {s : Scanner} {result : Body × Scanner} {out : List ℕ} {n k : ℕ}
      → n ≡ k
      → Decodes s result out n
      → Decodes s result out k
  Decodes-count e p = record { body = p.body; moved = omega (arith, e, p.moved) }
