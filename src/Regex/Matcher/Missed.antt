-- ===== src/Regex/Matcher/Missed.antt =====
-- The search for the end of a text, which gives up at its first position.
use lumiere.Common.{
  arith, ◌==◌, neq→==, ℕ, suc, ◌-◌, ◌≡◌, refl, true, false, Option, none, some, List, [], ◌∷◌,
  length,
}
use mathlib.Core.Path.{subst}
use lumiere.Regex.{anchor_end, RegexProgram, Inst, op_eol}
use lumiere.Regex.Compiler.{inst_of, compile, compile_node}
use lumiere.Regex.Compiler.Code.{Has}
use lumiere.Regex.Paths.{Matches}
use lumiere.Regex.Matcher.{
  Thread, unused, is_visited, RegexMatchResult, RegexMatcher, visit, unset, save_at, add_thread,
  run_loop, run,
}

abbrev pub answer_of :
    Option (RegexMatcher × Option RegexMatchResult) → Option (Option RegexMatchResult)
answer_of none = none
answer_of (some (after, answer)) = some answer

-- A thread ends at an anchor that does not hold.
eol_stops :
    (q : RegexProgram) (text : List ℕ) (fuel pc sp : ℕ) (saved : List (Option ℕ)) (m : RegexMatcher)
    (list : List Thread)
    → is_visited m pc ≡ false
    → (inst : Inst) → Has q pc inst
    → inst.op ≡ op_eol
    → (sp == length text) ≡ false
    → add_thread q text (suc fuel) pc sp saved (m, list) ≡ some (visit m pc, list)
unfolding add_thread
eol_stops q text fuel pc sp saved m list new inst found e apart =
    rw (add_thread, new, found, e, apart) refl

stops :
    (c : ℕ) (text : List ℕ)
    → (after : RegexMatcher) × (add_thread
          (compile anchor_end 0)
          (c ∷ text)
          5
          0
          0
          (none ∷ none ∷ [])
          (unused, [])
        ≡ some (after, []))
unfolding compile compile_node add_thread save_at
stops c text = (
  visit (visit unused 0) 1,
  eol_stops (compile anchor_end 0) (c ∷ text) 3 1 0 (some 0 ∷ none ∷ []) (visit unused 0) [] refl
      (inst_of op_eol) refl refl (neq→== 0 (suc (length text)) (omega arith)),
)

gives_up :
    (c : ℕ) (text : List ℕ) (positions : ℕ)
    → answer_of (run_loop (compile anchor_end 0) (c ∷ text) 0 true (suc positions) 0 unused [] none)
      ≡ some none
unfolding compile compile_node run_loop unset
gives_up c text positions = let (after, e) = stops c text in rw (run_loop, e) refl

-- In a text of at least one character the search for the end of the text, which is not anchored, gives no
-- match, though the pattern matches there.
pub run-anchor_end :
    (c : ℕ) (text : List ℕ)
    → (answer_of (run (compile anchor_end 0) (c ∷ text) 0 true unused) ≡ some none)
      × Matches (c ∷ text) anchor_end (length (c ∷ text)) (length (c ∷ text))
unfolding Matches
run-anchor_end c text =
    let n : ℕ = length text in
    let all : suc (suc n) ≡ suc (suc n) - 0 = omega arith in
    (
      subst
          (λ rounds.
            answer_of (run_loop (compile anchor_end 0) (c ∷ text) 0 true rounds 0 unused [] none)
            ≡ some none)
          all (gives_up c text (suc n)),
      (refl, refl),
    )
