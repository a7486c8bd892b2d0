-- ===== src/Regex/Tests.antt =====
-- The program of one pattern, a*b|c.
use lumiere.Common.{ℕ, ◌≡◌, refl, ◌↔◌, true, false, Option, none, some, List, [], ◌∷◌}
use lumiere.Regex.{RegexNode, literal, anchor_end, concat, alt, star, nodes, no_nodes, op_match}
use lumiere.Regex.Compiler.{
  compile, compile_node, compile_all, compile_alternatives, change, patch_all_x, inst_of,
}
use lumiere.Regex.Compiler.Code.{char_inst, save_inst, jmp_inst, split_inst}
use lumiere.Regex.Paths.{Matches}
use lumiere.Regex.Matching.{Spells, compile-Matches}
use lumiere.Regex.Matcher.{
  RegexMatchResult, RegexMatcher, unused, unset, save_at, add_thread, reads, step_threads, run_loop,
  run,
}
use lumiere.Regex.Matcher.Fine.{Groups, GroupsAll}
use lumiere.Regex.Matcher.Run.{IsMatch, run-Matches}
use lumiere.Regex.Matcher.Missed.{answer_of, run-anchor_end}

-- a*b|c
abbrev pattern : RegexNode
pattern = alt (
    nodes (concat (nodes (star (literal 97)) (nodes (literal 98) no_nodes)))
      (nodes (literal 99) no_nodes))

instructions-pattern :
    (compile pattern 0).instructions
    ≡ save_inst 0
      ∷ split_inst 2 7
      ∷ split_inst 3 5
      ∷ char_inst 97
      ∷ jmp_inst 2
      ∷ char_inst 98
      ∷ jmp_inst 8
      ∷ char_inst 99
      ∷ save_inst 1
      ∷ inst_of op_match
      ∷ []
unfolding compile compile_node compile_all compile_alternatives change patch_all_x
instructions-pattern = refl

compile-Matches_example :
    Spells (compile pattern 0) (97 ∷ 97 ∷ 98 ∷ []) 0 3 ↔ Matches (97 ∷ 97 ∷ 98 ∷ []) pattern 0 3
compile-Matches_example = compile-Matches pattern 0 (97 ∷ 97 ∷ 98 ∷ []) 0 3

pattern-Groups : Groups pattern 0
unfolding Groups GroupsAll
pattern-Groups = ((tt, (tt, tt)), (tt, tt))

-- xaab, not anchored
abbrev text : List ℕ
text = 120 ∷ 97 ∷ 97 ∷ 98 ∷ []

run-Matches_example :
    (after : RegexMatcher) × (answer : Option RegexMatchResult) × (run
        (compile pattern 0)
        text
        0
        true
        unused
      ≡ some (after, answer))
    × IsMatch pattern text 0 true answer
run-Matches_example = run-Matches pattern 0 pattern-Groups text 0 true unused

abbrev spans : Option (RegexMatcher × Option RegexMatchResult) → Option (ℕ × ℕ)
spans none = none
spans (some (after, none)) = none
spans (some (after, some found)) = some (found.start, found.end)

run-pattern : spans (run (compile pattern 0) text 0 true unused) ≡ some (1, 4)
unfolding compile compile_node compile_all compile_alternatives change patch_all_x run_loop
    step_threads reads add_thread save_at unset
run-pattern = refl

run-anchored : spans (run (compile pattern 0) text 0 false unused) ≡ none
unfolding compile compile_node compile_all compile_alternatives change patch_all_x run_loop
    step_threads reads add_thread save_at unset
run-anchored = refl

run-anchor_end_example :
    (answer_of (run (compile anchor_end 0) (120 ∷ []) 0 true unused) ≡ some none)
    × Matches (120 ∷ []) anchor_end 1 1
run-anchor_end_example = run-anchor_end 120 []
