-- ===== src/Lexer/Pieces/Texts.antt =====
-- A text literal is decoded piece by piece.
use mathlib.Core.Path.{subst, sym}
use mathlib.Core.List.{append_assoc}
use lumiere.Common.{
  Holds, ℕ, zero, suc, ◌+◌, ◌<◌, ◌≡◌, ◌≢◌, refl, Bool, true, false, List, [], ◌∷◌, ◌++◌, length,
  length-append, All, ◌==◌, if◌then◌else◌, arith,
}
use lumiere.Utf8.{encode_character}
use lumiere.Lexer.Token.{TokenType}
use lumiere.Lexer.Scanner.{Scanner, mark_line_end, peek, advance, remaining}
use lumiere.Lexer.Literals.{
  Body, bytes, failed, before, make_token, decode_escape_sequence, string_body, close_string,
  scan_string,
}
use lumiere.Lexer.Pieces.{
  hex_value, Piece, plain, simple, unicode, written, IsPiece, all_written, all_meaning,
}
use lumiere.Lexer.Pieces.Decodes.{
  Holds-lt, Holds-drop, here, Decodes, after_escape-Decodes, plain-Decodes, Decodes-count,
}
use lumiere.Lexer.Pieces.Escapes.{simple-Decodes, Decodes-behind, enough_rounds, unicode-Decodes}

module _ (source : List ℕ) where
  marked_here :
      (b : Bool) (s : Scanner) (byte : ℕ) (rest : List ℕ)
      → Holds source s.current (byte ∷ rest)
      → ((advance source (if b then mark_line_end s else s)).current ≡ s.current + 1)
        × Holds source (advance source (if b then mark_line_end s else s)).current rest
  marked_here true s byte rest h =
      let (a, b, c, d) = here source (mark_line_end s) byte rest h in (c, d)
  marked_here false s byte rest h = let (a, b, c, d) = here source s byte rest h in (c, d)

  -- The rest of a body lies behind an escape.
  behind_escape :
      {s : Scanner} {out : List ℕ} (escape : Body × Scanner) (xs ys : List ℕ)
      → Decodes source s escape out (length xs)
      → Holds source s.current (xs ++ ys)
      → Holds source escape.1.current ys
  behind_escape {s = s} escape xs ys p h =
      subst (λ at. Holds source at ys) (sym p.moved) (Holds-drop source xs ys s.current h)

  -- A round of the loop at a backslash.
  escape_round :
      (fuel : ℕ) (s : Scanner) (letter : ℕ) (escape ys out more : List ℕ) (k : ℕ)
      → Holds source s.current (92 ∷ (escape ++ ys))
      → ((t : Scanner)
          → Holds source t.current (escape ++ ys)
          → Decodes source t (decode_escape_sequence source t) out (length escape))
      → ((t : Scanner)
          → Holds source t.current ys
          → Decodes source t (string_body source fuel t) more k)
      → Decodes source s (string_body source (suc fuel) s) (out ++ more) (suc (length escape + k))
  unfolding string_body
  escape_round fuel s letter escape ys out more k h first rest =
      let (a, b, c, d) = here source s 92 (escape ++ ys) h in
      let (at, behind) = marked_here (peek source s == 10) s 92 (escape ++ ys) h in
      let quote : (peek source s == 34) ≡ false = ground (arith, a) in
      let slash : (peek source s == 92) ≡ true = ground (arith, a) in
      let t = advance source (if peek source s == 10 then mark_line_end s else s) in
      let p = first t behind in
      rw (b, quote, slash, string_body)
        (Decodes-behind source t at refl (
          after_escape-Decodes source (decode_escape_sequence source t) (string_body source fuel) p
            (rest (decode_escape_sequence source t).1
              (behind_escape (decode_escape_sequence source t) escape ys p behind))))

  plain_round :
      (fuel : ℕ) (s : Scanner) (c : ℕ) (ys more : List ℕ) (k : ℕ)
      → c ≢ 34
      → c ≢ 92
      → Holds source s.current (c ∷ ys)
      → ((t : Scanner)
          → Holds source t.current ys
          → Decodes source t (string_body source fuel t) more k)
      → Decodes source s (string_body source (suc fuel) s) (c ∷ more) (1 + k)
  unfolding string_body
  plain_round fuel s c ys more k no_quote no_slash h rest =
      let (a, b, _, _) = here source s c ys h in
      let (at, behind) = marked_here (peek source s == 10) s c ys h in
      let quote : (peek source s == 34) ≡ false = ground (arith, a, no_quote) in
      let slash : (peek source s == 92) ≡ false = ground (arith, a, no_slash) in
      let t = advance source (if peek source s == 10 then mark_line_end s else s) in
      rw (b, quote, slash, string_body)
        (subst
          (λ byte.
            Decodes source s
              (
                before (peek source s ∷ []) (string_body source fuel t).0,
                (string_body source fuel t).1,
              )
              (byte ∷ more) (1 + k))
          a (plain-Decodes source (peek source s) t (string_body source fuel t) at (rest t behind)))

  string_closed :
      (fuel : ℕ) (s : Scanner)
      → Holds source s.current (34 ∷ [])
      → Decodes source s (string_body source (suc fuel) s) [] 0
  unfolding string_body
  string_closed fuel s h =
      let (a, b, _, _) = here source s 34 [] h in
      let quote : (peek source s == 34) ≡ true = ground (arith, a) in
      rw (b, quote, string_body) (record { body = refl; moved = omega arith })

  length-written : (piece : Piece) → 0 < length (written piece)
  length-written (plain c) = omega arith
  length-written (simple letter byte) = omega arith
  length-written (unicode digits) = omega arith

  unicode_round :
      (fuel : ℕ) (s : Scanner) (digits ys more : List ℕ) (k : ℕ)
      → IsPiece (unicode digits)
      → Holds source s.current (written (unicode digits) ++ ys)
      → ((t : Scanner)
          → Holds source t.current ys
          → Decodes source t (string_body source fuel t) more k)
      → Decodes source s
          (string_body source (suc fuel) s)
          (encode_character (hex_value 0 digits) ++ more)
          (length (written (unicode digits)) + k)
  unicode_round fuel s digits ys more k ok h rest = Decodes-count source (omega arith) (
      escape_round fuel s 117 (117 ∷ 123 ∷ (digits ++ (125 ∷ []))) ys
        (encode_character (hex_value 0 digits)) more k h
        (λ t there. Decodes-count source (omega (arith, length-append digits (125 ∷ []))) (
          unicode-Decodes source t digits ys ok (
            subst (λ xs. Holds source t.current (117 ∷ 123 ∷ xs))
              (append_assoc digits (125 ∷ []) ys) there)))
        rest)

  string_body-Decodes :
      (pieces : List Piece) (fuel : ℕ) (s : Scanner)
      → All IsPiece pieces
      → length (all_written pieces) < fuel
      → Holds source s.current (all_written pieces ++ (34 ∷ []))
      → Decodes source s
          (string_body source fuel s)
          (all_meaning pieces)
          (length (all_written pieces))
  string_body-Decodes [] zero s ok enough h = absurd (omega arith)
  string_body-Decodes [] (suc fuel) s ok enough h = string_closed fuel s h
  string_body-Decodes (piece ∷ pieces) zero s ok enough h =
      absurd
        (omega (arith, length-append (written piece) (all_written pieces), length-written piece))
  string_body-Decodes (plain c ∷ pieces) (suc fuel) s ((a, b), ok) enough h =
      Decodes-count source (omega arith) (
        plain_round fuel s c (all_written pieces ++ (34 ∷ [])) (all_meaning pieces)
          (length (all_written pieces)) a b h
          (λ t. string_body-Decodes pieces fuel t ok (omega arith)))
  string_body-Decodes (simple letter byte ∷ pieces) (suc fuel) s (a, ok) enough h =
      Decodes-count source (omega arith) (
        escape_round fuel s letter (letter ∷ []) (all_written pieces ++ (34 ∷ [])) (byte ∷ [])
          (all_meaning pieces) (length (all_written pieces)) h
          (λ t. simple-Decodes source t letter byte (all_written pieces ++ (34 ∷ [])) a)
          (λ t. string_body-Decodes pieces fuel t ok (omega arith)))
  string_body-Decodes (unicode digits ∷ pieces) (suc fuel) s (a, ok) enough h =
      let both = length-append (written (unicode digits)) (all_written pieces) in
      Decodes-count source (sym both) (
        unicode_round fuel s digits (all_written pieces ++ (34 ∷ [])) (all_meaning pieces)
          (length (all_written pieces)) a
          (subst (Holds source s.current)
            (append_assoc (written (unicode digits)) (all_written pieces) (34 ∷ [])) h)
          (λ t. string_body-Decodes pieces fuel t ok (omega (arith, both))))

  close_string-Decodes :
      {s : Scanner} {out : List ℕ} {n : ℕ} (body : Body × Scanner)
      → Decodes source s body out n
      → Holds source body.1.current (34 ∷ [])
      → ((close_string source body).0.token_type ≡ TokenType.texte_lit)
        × ((close_string source body).0.decoded ≡ out)
        × ((close_string source body).1.current ≡ s.current + n + 1)
  unfolding close_string make_token
  close_string-Decodes (bytes found, t) p h =
      let (a, b, c, _) = here source t 34 [] h in
      rw (b, close_string) (refl, cc (p.body), omega (arith, c, p.moved))
  close_string-Decodes (failed error, t) p h = absurd (cc (p.body))

  -- Where the pieces of a text and the closing quote lie at the cursor, `scan_string` gives a TEXTE_LIT
  -- that is decoded to what the pieces stand for, and comes to just behind the quote.
  pub scan_string-pieces :
      (pieces : List Piece) (s : Scanner)
      → All IsPiece pieces
      → Holds source s.current (all_written pieces ++ (34 ∷ []))
      → ((scan_string source s).0.token_type ≡ TokenType.texte_lit)
        × ((scan_string source s).0.decoded ≡ all_meaning pieces)
        × ((scan_string source s).1.current ≡ s.current + length (all_written pieces) + 1)
  unfolding scan_string
  scan_string-pieces pieces s ok h =
      let room = Holds-lt source (all_written pieces) s.current 34 [] h in
      let p =
        string_body-Decodes pieces (remaining source s) s ok
          (enough_rounds source s (all_written pieces) (omega (arith, room))) h in
      close_string-Decodes (string_body source (remaining source s) s) p (
        behind_escape (string_body source (remaining source s) s) (all_written pieces) (34 ∷ []) p
          h)
