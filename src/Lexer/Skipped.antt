-- ===== src/Lexer/Skipped.antt =====
-- What white space and comments are, byte by byte, and that the loops of src/lexer/tokenizer.cpp pass over
-- just these.
use mathlib.Core.Path.{subst, sym}
use lumiere.Common.{
  ℕ, zero, suc, ◌+◌, ◌≤◌, ◌<◌, ◌≡◌, ◌≢◌, refl, Bool, true, false, not, ◌&&◌, List, [], ◌∷◌, length,
  get_or, ◌==◌, if◌then◌else◌, arith, Bool-cases, ◌⊎◌, inl, inr, ◌∙◌, ==→eq, ==→neq,
}
use lumiere.Lexer.Scanner.{
  Scanner, mark_line_end, is_at_end, peek, peek_next, advance, advance_while,
}
use lumiere.Lexer.Comments.{skip_block}
use lumiere.Lexer.Progress.{
  Within, advance-Onward, advance-current, marked-Onward, marked-current, not_over, spent_same,
}

pub get_or_inside : (xs : List ℕ) (i : ℕ) → 0 < get_or xs i 0 → i < length xs
get_or_inside [] i h = absurd (omega arith)
get_or_inside (x ∷ xs) zero h = omega arith
get_or_inside (x ∷ xs) (suc i) h = omega (arith, get_or_inside xs i h)

ends_here : {a b : ℕ} (c d : ℕ) → (c == 42 && d == 47) ≡ true → c ≡ a → d ≡ b → (a ≡ 42) × (b ≡ 47)
ends_here c d h e f = (ground arith, ground arith)

goes_on : {a b : ℕ} (c d : ℕ) → (c == 42 && d == 47) ≡ false → c ≡ a → d ≡ b → a ≡ 42 → b ≢ 47
goes_on c d h e f g k = absurd (ground arith)

module _ (source : List ℕ) where
  -- The byte at an offset; 0 stands for none.
  abbrev pub byte : ℕ → ℕ
  byte offset = get_or source offset 0

  -- From the offset up to the end of the line or of the source.
  abbrev pub LineEnd : ℕ → ℕ → Type 0
  LineEnd i k = ((x : ℕ) → i ≤ x → x < k → byte x ≢ 10) × ((k ≡ length source) ⊎ (byte k ≡ 10))

  -- Two slashes and what follows them on the line.
  abbrev pub LineComment : ℕ → ℕ → Type 0
  LineComment i k = (byte i ≡ 47) × (byte (i + 1) ≡ 47) × LineEnd i k

  -- From the offset up to the first star with a slash behind it, or to the end of the source.
  abbrev pub BlockEnd : ℕ → ℕ → Type 0
  BlockEnd i k =
      (e : ℕ) × ((x : ℕ) → i ≤ x → x < e → byte x ≡ 42 → byte (x + 1) ≢ 47)
      × (((e ≡ length source) × (k ≡ e)) ⊎ ((byte e ≡ 42) × (byte (e + 1) ≡ 47) × (k ≡ e + 2)))

  -- Two stars behind the slash begin a documentation comment.
  abbrev pub BlockComment : ℕ → ℕ → Type 0
  BlockComment i k = (byte i ≡ 47) × (byte (i + 1) ≡ 42) × (byte (i + 2) ≢ 42) × BlockEnd (i + 2) k

  abbrev pub IsBlank : ℕ → Type 0
  IsBlank c = (c ≡ 32) ⊎ ((c ≡ 9) ⊎ ((c ≡ 13) ⊎ (c ≡ 10)))

  -- White space and whole comments from one offset up to another.
  pub data Skipped : ℕ → ℕ → Type 0 where
    nothing : {i : ℕ} → Skipped i i
    blank : {i j : ℕ} → IsBlank (byte i) → Skipped (i + 1) j → Skipped i j
    line : {i k j : ℕ} → LineComment i k → Skipped k j → Skipped i j
    block : {i k j : ℕ} → BlockComment i k → Skipped k j → Skipped i j

  extend :
      (P : ℕ → Type 0) (i k : ℕ)
      → P i
      → ((x : ℕ) → i + 1 ≤ x → x < k → P x)
      → (x : ℕ) → i ≤ x
      → x < k
      → P x
  extend P i k first rest x low high = elim (Bool-cases (x == i)) [
    | inl same ↦ subst P (sym (==→eq x i same)) first
    | inr other ↦ rest x (omega (arith, low, ==→neq x i other)) high
  ]

  pub peek-byte : (s : Scanner) → peek source s ≡ byte s.current
  unfolding peek
  peek-byte s = refl

  pub peek_next-byte : (s : Scanner) → peek_next source s ≡ byte (s.current + 1)
  unfolding peek_next
  peek_next-byte s = refl

  over_end : (s : Scanner) → is_at_end source s ≡ true → s.current ≡ length source
  unfolding is_at_end
  over_end s h = ground arith

  -- The loop over a line comes to its end.
  pub advance_while-LineEnd :
      (fuel : ℕ) (s : Scanner)
      → Within source s
      → length source ≤ fuel + s.current
      → LineEnd s.current (advance_while source (λ t. not (peek source t == 10)) fuel s).current
  unfolding advance_while
  advance_while-LineEnd zero s h enough =
      subst (λ (t : Scanner). LineEnd s.current t.current)
        (sym (spent_same source s h (omega arith)))
        ((λ x low high. absurd (omega arith)), inl (omega arith))
  advance_while-LineEnd (suc fuel) s h enough = elim (Bool-cases (is_at_end source s)) [
    | inl over ↦
        rw (over, advance_while)
          ((λ x low high. absurd (omega (arith, low, high))), inl (over_end s over))
    | inr more ↦ elim (Bool-cases (peek source s == 10)) [
      | inl feed ↦
          rw (more, feed, advance_while)
            (
              (λ x low high. absurd (omega (arith, low, high))),
              inr (sym (peek-byte s) ∙ ==→eq (peek source s) 10 feed),
            )
      | inr other ↦
          let moved = advance-current source s (not_over source s h more) in
          let (rest, ends) =
            advance_while-LineEnd fuel (advance source s) (advance-Onward source s h).inside
              (omega (arith, moved)) in
          rw (more, other, advance_while)
            (
              extend (λ x. byte x ≢ 10) s.current _
                  (λ e. ==→neq (peek source s) 10 other (peek-byte s ∙ e))
                  (λ x low high. rest x (omega (arith, moved, low)) high),
              ends,
            )
    ]
  ]

  marked_peek :
      (b : Bool) (s : Scanner)
      → (peek source (if b then mark_line_end s else s) ≡ byte s.current)
        × (peek_next source (if b then mark_line_end s else s) ≡ byte (s.current + 1))
  unfolding peek peek_next
  marked_peek true s = (refl, refl)
  marked_peek false s = (refl, refl)

  twice-current :
      (b : Bool) (s : Scanner)
      → s.current + 1 < length source
      → (advance source (advance source (if b then mark_line_end s else s))).current ≡ s.current + 2
  twice-current b s h =
      let first = marked-current source b s (omega arith) in
      let second =
        advance-current source (advance source (if b then mark_line_end s else s))
          (omega (arith, first)) in
      omega (arith, first, second)

  -- The loop over a block comment comes to just behind its end.
  pub skip_block-BlockEnd :
      (fuel : ℕ) (s : Scanner)
      → Within source s
      → length source ≤ fuel + s.current
      → BlockEnd s.current (skip_block source fuel s).current
  unfolding skip_block
  skip_block-BlockEnd zero s h enough =
      subst (λ (t : Scanner). BlockEnd s.current t.current)
        (sym (spent_same source s h (omega arith)))
        (s.current, (λ x low high. absurd (omega arith)), inl (omega arith, refl))
  skip_block-BlockEnd (suc fuel) s h enough = elim (Bool-cases (is_at_end source s)) [
    | inl over ↦
        rw (over, skip_block)
          (
            s.current,
            (λ x low high. absurd (omega (arith, low, high))),
            inl (over_end s over, refl),
          )
    | inr more ↦
        let b = peek source s == 10 in
        let marked : Scanner = if b then mark_line_end s else s in
        let (star, slash) = marked_peek b s in
        elim (Bool-cases (peek source marked == 42 && peek_next source marked == 47)) [
          | inl closes ↦
              let both : (byte s.current ≡ 42) × (byte (s.current + 1) ≡ 47) =
                ends_here (peek source marked) (peek_next source marked) closes star slash in
              rw (more, closes, skip_block)
                (
                  s.current,
                  (λ x low high. absurd (omega (arith, low, high))),
                  inr (
                    both.0,
                    both.1,
                    twice-current b s
                        (get_or_inside source (s.current + 1) (omega (arith, both.1))),
                  ),
                )
          | inr open_ ↦
              let moved = marked-current source b s (not_over source s h more) in
              let (e, before, ends) =
                skip_block-BlockEnd fuel (advance source marked) (marked-Onward source b s h).inside
                  (omega (arith, moved)) in
              rw (more, open_, skip_block)
                (
                  e,
                  extend (λ x. byte x ≡ 42 → byte (x + 1) ≢ 47) s.current e
                      (λ c d.
                        goes_on (peek source marked) (peek_next source marked) open_ star slash c d)
                      (λ x low high. before x (omega (arith, moved, low)) high),
                  ends,
                )
        ]
  ]
