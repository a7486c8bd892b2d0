-- ===== src/Lexer/Skipping.antt =====
-- Where the loops over white space and comments stop.
use mathlib.Core.Path.{ap}
use lumiere.Common.{
  ℕ, zero, suc, ◌+◌, ◌≤◌, ◌≡◌, Bool, true, false, not, ◌&&◌, ◌||◌, List, length, ◌==◌, arith,
  Bool-cases, ◌⊎◌, inl, inr, ◌∙◌,
}
use lumiere.Lexer.Scanner.{Scanner, is_at_end, peek, peek_next, advance, advance_while}
use lumiere.Lexer.Comments.{at_documentation_comment}
use lumiere.Lexer.Skipped.{Skipped}
use lumiere.Lexer.Progress.{Within, advance-Onward, advance-current, spent_same}

module _ (source : List ℕ) where
  -- At the end, or where neither white space nor a comment begins, but for a documentation comment.
  unfoldable pub at_token : Scanner → Bool
  at_token s =
      is_at_end source s
      || (not (peek source s == 32 || peek source s == 9 || peek source s == 13)
          && not (peek source s == 10)
          && not (peek source s == 47 && peek_next source s == 47)
          && not (
              peek source s == 47
              && peek_next source s == 42
              && not (at_documentation_comment source s).0))

  record Stops (s t : Scanner) : Type 0 where
    stops : at_token t ≡ true
    skipped : Skipped source s.current t.current

  -- Given a round for every byte that is left, the loop stops at the end or where its test fails.
  pub advance_while_stops :
      (test : Scanner → Bool) (fuel : ℕ) (s : Scanner)
      → Within source s
      → length source ≤ fuel + s.current
      → (is_at_end source (advance_while source test fuel s) ≡ true)
        ⊎ (test (advance_while source test fuel s) ≡ false)
  unfolding is_at_end advance_while
  advance_while_stops test zero s h enough =
      inl (ap (is_at_end source) (spent_same source s h (omega arith)) ∙ ground arith)
  advance_while_stops test (suc fuel) s h enough = elim (Bool-cases (is_at_end source s)) [
    | inl over ↦ inl (rw (over, advance_while) over)
    | inr more ↦ elim (Bool-cases (test s)) [
      | inr fails ↦ rw (more, fails, advance_while) (inr fails)
      | inl holds ↦
          rw (more, holds, advance_while)
            (advance_while_stops test fuel (advance source s) (advance-Onward source s h).inside
              (omega (arith, advance-current source s (ground arith))))
    ]
  ]
