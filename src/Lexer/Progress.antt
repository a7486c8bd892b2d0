-- ===== src/Lexer/Progress.antt =====
-- Every part of the lexer moves the cursor onward inside the source and keeps the start of the token.
use lumiere.Common.{
  ℕ, zero, suc, ◌+◌, ◌≤◌, ◌<◌, ◌≡◌, refl, Bool, true, false, not, ◌&&◌, ◌||◌, List, length, ◌==◌,
  if◌then◌else◌, arith, Bool-cases, inl, inr,
}
use mathlib.Core.Path.{subst, sym}
use lumiere.Lexer.Scanner.{
  spent, Scanner, mark_line_end, is_at_end, peek, peek_next, advance, match_byte, remaining,
  advance_while,
}
use lumiere.Lexer.Comments.{
  at_documentation_comment, skip_block, skip_round, skip_from, skip_whitespace_and_comments,
  documentation_body,
}

module _ (source : List ℕ) where
  -- From `s` the cursor has come to `t`.
  pub record Onward (s t : Scanner) : Type 0 where
    pub same_start : t.start ≡ s.start
    pub forward : s.current ≤ t.current
    pub inside : t.current ≤ length source

  abbrev pub Within : Scanner → Type 0
  Within s = s.current ≤ length source

  pub stay : (s : Scanner) → Within s → Onward s s
  stay s h = record { same_start = refl; forward = omega arith; inside = h }

  pub Onward-trans : {s t u : Scanner} → Onward s t → Onward t u → Onward s u
  Onward-trans p q = record {
    same_start = cc (p.same_start, q.same_start);
    forward = omega (arith, p.forward, q.forward);
    inside = q.inside;
  }

  pub advance-Onward : (s : Scanner) → Within s → Onward s (advance source s)
  unfolding advance is_at_end
  advance-Onward s h = record {
    same_start = ground arith;
    forward = ground arith;
    inside = ground arith;
  }

  pub line_end-Onward : (s : Scanner) → Within s → Onward s (advance source (mark_line_end s))
  unfolding advance is_at_end
  line_end-Onward s h = record {
    same_start = ground arith;
    forward = ground arith;
    inside = ground arith;
  }

  -- Where a byte is left, `advance` passes over it.
  pub advance-current :
      (s : Scanner) → s.current < length source → (advance source s).current ≡ s.current + 1
  unfolding advance is_at_end
  advance-current s h = ground arith

  pub Onward-if :
      {s t u : Scanner} (b : Bool) → Onward s t → Onward s u → Onward s (if b then t else u)
  Onward-if true p q = p
  Onward-if false p q = q

  -- A branch may use that its test holds.
  pub Onward-branch :
      {s t u : Scanner} (b : Bool)
      → (b ≡ true → Onward s t)
      → (b ≡ false → Onward s u)
      → Onward s (if b then t else u)
  Onward-branch true p q = p refl
  Onward-branch false p q = q refl

  pub more_left :
      (s : Scanner) (b : Bool)
      → Within s
      → (not (is_at_end source s) && b) ≡ true
      → s.current < length source
  unfolding is_at_end
  more_left s b h go = ground arith

  pub not_over : (s : Scanner) → Within s → is_at_end source s ≡ false → s.current < length source
  unfolding is_at_end
  not_over s h go = ground arith

  -- The rounds that a loop is given are enough.
  pub rounds : (s : Scanner) → length source ≤ remaining source s + s.current
  unfolding remaining
  rounds s = omega arith

  pub spent_same : (s : Scanner) → Within s → length source ≤ s.current → spent source s ≡ s
  unfolding spent is_at_end
  spent_same s h enough =
      let over : (s.current == length source) ≡ true = ground arith in rw over refl

  pub spent-Onward :
      (s : Scanner) → Within s → length source ≤ s.current → Onward s (spent source s)
  spent-Onward s h enough = subst (Onward s) (sym (spent_same s h enough)) (stay s h)

  pub advance_while-Onward :
      (test : Scanner → Bool) (fuel : ℕ) (s : Scanner)
      → Within s
      → length source ≤ fuel + s.current
      → Onward s (advance_while source test fuel s)
  unfolding advance_while
  advance_while-Onward test zero s h enough = spent-Onward s h (omega arith)
  advance_while-Onward test (suc fuel) s h enough =
      let one = advance-Onward s h in
      Onward-branch (not (is_at_end source s) && test s)
        (λ go.
          let room = more_left s (test s) h go in
          Onward-trans one (
            advance_while-Onward test fuel (advance source s) one.inside
              (omega (arith, advance-current s room))))
        (λ _. stay s h)

  pub match_byte-Onward :
      (expected : ℕ) (s : Scanner) → Within s → Onward s (match_byte source expected s).1
  unfolding match_byte is_at_end
  match_byte-Onward expected s h = record {
    same_start = ground arith;
    forward = ground arith;
    inside = ground arith;
  }

  -- `advance`, where a line feed has been counted before it.
  pub marked-Onward :
      (b : Bool) (s : Scanner)
      → Within s
      → Onward s (advance source (if b then mark_line_end s else s))
  marked-Onward true s h = line_end-Onward s h
  marked-Onward false s h = advance-Onward s h

  pub marked-current :
      (b : Bool) (s : Scanner)
      → s.current < length source
      → (advance source (if b then mark_line_end s else s)).current ≡ s.current + 1
  marked-current true s h = advance-current (mark_line_end s) h
  marked-current false s h = advance-current s h

  marked_twice-Onward :
      (b : Bool) (s : Scanner)
      → Within s
      → Onward s (advance source (advance source (if b then mark_line_end s else s)))
  marked_twice-Onward b s h =
      let p = marked-Onward b s h in
      Onward-trans p (advance-Onward (advance source (if b then mark_line_end s else s)) p.inside)

  pub skip_block-Onward :
      (fuel : ℕ) (s : Scanner)
      → Within s
      → length source ≤ fuel + s.current
      → Onward s (skip_block source fuel s)
  unfolding skip_block
  skip_block-Onward zero s h enough = spent-Onward s h (omega arith)
  skip_block-Onward (suc fuel) s h enough =
      let b = peek source s == 10 in
      let one = marked-Onward b s h in
      Onward-branch (is_at_end source s) (λ _. stay s h)
        (λ go. Onward-if _ (marked_twice-Onward b s h) (
          Onward-trans one (
            skip_block-Onward fuel _ one.inside
              (omega (arith, marked-current b s (not_over s h go))))))

  at_documentation_comment-Onward :
      (s : Scanner) → Within s → Onward s (at_documentation_comment source s).1
  unfolding at_documentation_comment match_byte is_at_end
  at_documentation_comment-Onward s h = record {
    same_start = ground arith;
    forward = ground arith;
    inside = ground arith;
  }

  -- A line comment is not empty, since its first byte is no line feed.
  pub advance_while_moves :
      (test : Scanner → Bool) (fuel : ℕ) (s : Scanner)
      → s.current < length source
      → test s ≡ true
      → 0 < fuel
      → length source ≤ fuel + s.current
      → s.current < (advance_while source test fuel s).current
  unfolding advance_while is_at_end
  advance_while_moves test zero s more holds some_fuel enough = absurd (omega arith)
  advance_while_moves test (suc fuel) s more holds some_fuel enough =
      let more' : is_at_end source s ≡ false = ground arith in
      let one = advance-Onward s (omega arith) in
      let moved = advance-current s more in
      rw (more', holds, advance_while)
        (omega (
          arith,
          moved,
          (advance_while-Onward test fuel (advance source s) one.inside
              (omega (arith, moved))).forward,
        ))

  pub remaining_some : (s : Scanner) → s.current < length source → 0 < remaining source s
  unfolding remaining
  remaining_some s more = omega (arith, more)

  pub skip_round-Onward :
      (again : Scanner → Scanner) (s : Scanner)
      → ((t : Scanner) → Within t → s.current < t.current → Onward t (again t))
      → Within s
      → s.current < length source
      → Onward s (skip_round source again s)
  unfolding skip_round
  skip_round-Onward again s rest h more =
      let one = advance-Onward s h in
      let two = advance-Onward (advance source s) one.inside in
      let line = line_end-Onward s h in
      let moved = advance-current s more in
      let line_moved = advance-current (mark_line_end s) more in
      let line_comment =
        advance_while-Onward (λ t. not (peek source t == 10)) (remaining source s) s h (rounds s) in
      let block =
        skip_block-Onward (remaining source (advance source (advance source s)))
          (advance source (advance source s)) two.inside
          (rounds (advance source (advance source s))) in
      let c = peek source s in
      Onward-if (c == 32 || c == 9 || c == 13)
        (Onward-trans one (rest _ one.inside (omega (arith, moved))))
        (Onward-branch (c == 10)
          (λ _. Onward-trans line (rest _ line.inside (omega (arith, line_moved))))
          (λ no_feed.
            Onward-if (c == 47 && peek_next source s == 47)
              (Onward-trans line_comment (
                rest _ line_comment.inside (
                  advance_while_moves (λ t. not (peek source t == 10)) (remaining source s) s more
                    (rw no_feed refl) (remaining_some s more) (rounds s))))
              (Onward-if (c == 47 && peek_next source s == 42)
                (Onward-if (at_documentation_comment source s).0
                  (at_documentation_comment-Onward s h)
                  (Onward-trans one (
                    Onward-trans two (
                      Onward-trans block
                        (rest _ block.inside (omega (arith, moved, two.forward, block.forward)))))))
                (stay s h))))

  skip_from-Onward :
      (fuel : ℕ) (s : Scanner)
      → Within s
      → length source ≤ fuel + s.current
      → Onward s (skip_from source fuel s)
  unfolding skip_from
  skip_from-Onward zero s h enough = spent-Onward s h (omega arith)
  skip_from-Onward (suc fuel) s h enough =
      Onward-branch (is_at_end source s) (λ _. stay s h)
        (λ go.
          skip_round-Onward (skip_from source fuel) s
            (λ t inside later. skip_from-Onward fuel t inside (omega arith)) h (not_over s h go))

  pub skip_whitespace_and_comments-Onward :
      (s : Scanner) → Within s → Onward s (skip_whitespace_and_comments source s)
  unfolding skip_whitespace_and_comments
  skip_whitespace_and_comments-Onward s h = skip_from-Onward (remaining source s) s h (rounds s)

  pub documentation_body-Onward :
      (fuel : ℕ) (s : Scanner)
      → Within s
      → length source ≤ fuel + s.current
      → Onward s (documentation_body source fuel s).1
  unfolding documentation_body
  documentation_body-Onward zero s h enough = spent-Onward s h (omega arith)
  documentation_body-Onward (suc fuel) s h enough =
      elim (Bool-cases
        (not (is_at_end source s) && not (peek source s == 42 && peek_next source s == 47))) [
          | inl go ↦
              let b = peek source s == 10 in
              let one = marked-Onward b s h in
              let room = more_left s (not (peek source s == 42 && peek_next source s == 47)) h go in
              rw go (
                Onward-trans one (
                  documentation_body-Onward fuel _ one.inside
                    (omega (arith, marked-current b s room))))
          | inr over ↦ rw over (stay s h)
        ]
