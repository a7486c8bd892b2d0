-- ===== src/Regex/Matcher/Run.antt =====
-- The loop over the positions: it ends, and an answer is a match.
use lumiere.Common.{
  ℕ, zero, suc, ◌+◌, ◌-◌, ◌*◌, ◌≤◌, ◌<◌, ◌≡◌, refl, ◌⊎◌, Bool, true, false, ◌||◌, Option, none,
  some, List, [], ◌∷◌, length, arith, sym, inl, inr, ◌==◌, if◌then◌else◌, ==→eq,
}
use mathlib.Core.Path.{subst}
use mathlib.Core.Bool.{true≢false}
use lumiere.Regex.{RegexNode, RegexProgram}
use lumiere.Regex.Compiler.{here, compile}
use lumiere.Regex.Paths.{Matches}
use lumiere.Regex.Complete.{Runs-refl}
use lumiere.Regex.Matching.{compile-Layout, compile-Matches}
use lumiere.Regex.Matcher.{
  Thread, RegexMatchResult, RegexMatcher, add_thread, rounds, fresh, attempts, run_loop, run,
}
use lumiere.Regex.Matcher.Fine.{AllFine, Groups, compile-AllFine}
use lumiere.Regex.Matcher.Groups.{length-unset, group_count-compile}
use lumiere.Regex.Matcher.Threads.{Added, add_thread_lem, unvisited_le}
use lumiere.Regex.Matcher.Steps.{GoodAnswer, Threads, step_threads_lem}

-- Where a match may start: at the position, or anywhere from it on.
abbrev pub From : ℕ → Bool → ℕ → Type 0
From start true s = start ≤ s
From start false s = s ≡ start

-- A match, if one is given, is one of the tree.
abbrev pub IsMatch : RegexNode → List ℕ → ℕ → Bool → Option RegexMatchResult → Type 0
IsMatch root text start unanchored none = Unit {0}
IsMatch root text start unanchored (some found) =
    (s : ℕ) × From start unanchored s × Matches text root s found.end

From-attempts :
    (unanchored : Bool) (start sp : ℕ)
    → start ≤ sp
    → (unanchored || sp == start) ≡ true
    → From start unanchored sp
From-attempts true start sp low h = low
From-attempts false start sp low h = ==→eq sp start h

no_threads_or :
    (threads : List Thread)
    → (threads ≡ []) ⊎ ((t : Thread) × (others : List Thread) × (threads ≡ t ∷ others))
no_threads_or [] = inl refl
no_threads_or (t ∷ others) = inr (t, others, refl)

module _ (q : RegexProgram) (text : List ℕ) (start : ℕ) (unanchored : Bool)
    (fine : AllFine q (2 * (q.group_count + 1)) 0 (here q)) (inside : 0 < here q) where
  attempts-From :
      (matched : Option RegexMatchResult) (sp : ℕ)
      → start ≤ sp
      → attempts q text start unanchored matched sp ≡ true
      → From start unanchored sp
  attempts-From none sp low h = From-attempts unanchored start sp low h
  attempts-From (some found) sp low h = absurd (true≢false (sym h))

  -- The first threads of an attempt.
  begin_lem :
      (sp : ℕ) (m : RegexMatcher) (clist : List Thread)
      → Threads q text (2 * (q.group_count + 1)) (From start unanchored) fine sp clist
      → From start unanchored sp
      → Added q text
          (2 * (q.group_count + 1))
          (From start unanchored)
          fine
          sp
          m
          (add_thread q text (rounds q text) 0 sp (fresh q text) (m, clist))
  begin_lem sp m clist all at =
      let slots = 2 * (q.group_count + 1) in
      add_thread_lem q text slots (From start unanchored) fine (rounds q text) 0 sp (fresh q text) m
        clist
        (record {
          enough = omega (arith, unvisited_le q text slots (From start unanchored) fine m);
          inside = inside;
          width = length-unset slots;
          way = (sp, at, Runs-refl text q 0 sp);
          good = all;
        })

  begin :
      (begins : Bool) (sp : ℕ) (m : RegexMatcher) (clist : List Thread)
      → Threads q text (2 * (q.group_count + 1)) (From start unanchored) fine sp clist
      → (begins ≡ true → From start unanchored sp)
      → Added q text (2 * (q.group_count + 1)) (From start unanchored) fine sp m (
          if begins
          then add_thread q text (rounds q text) 0 sp (fresh q text) (m, clist)
          else some (m, clist))
  begin true sp m clist all at = begin_lem sp m clist all (at refl)
  begin false sp m clist all at = record {
    next = m;
    threads = clist;
    ends = refl;
    fewer = omega arith;
    good = all;
  }

  run_loop_lem :
      (positions sp : ℕ) (m : RegexMatcher) (clist : List Thread)
      (matched : Option RegexMatchResult)
      → start ≤ sp
      → Threads q text (2 * (q.group_count + 1)) (From start unanchored) fine sp clist
      → GoodAnswer q text (2 * (q.group_count + 1)) (From start unanchored) fine matched
      → (after : RegexMatcher) × (answer : Option RegexMatchResult) × (run_loop q text start
            unanchored positions sp m clist matched
          ≡ some (after, answer))
        × GoodAnswer q text (2 * (q.group_count + 1)) (From start unanchored) fine answer
  unfolding run_loop
  run_loop_lem zero sp m clist matched low all good = (m, matched, refl, good)
  run_loop_lem (suc positions) sp m clist matched low all good =
      let begun =
        begin (attempts q text start unanchored matched sp) sp m clist all
          (attempts-From matched sp low) in
      elim (no_threads_or begun.threads) [
        | inl e ↦ (begun.next, matched, rw (run_loop, begun.ends, e) refl, good)
        | inr (t, others, e) ↦
            let next = record begun.next { gen = begun.next.gen + 1 } in
            let from = From start unanchored in
            let slots = 2 * (q.group_count + 1) in
            let stepped =
              step_threads_lem q text slots from fine sp (t ∷ others) next [] matched
                (subst (Threads q text slots from fine sp) e begun.good) tt good in
            let (after, answer, ends, is_good) =
              run_loop_lem positions (sp + 1) stepped.next stepped.threads stepped.matched
                (omega (arith, low)) stepped.good stepped.answer in
            (after, answer, rw (run_loop, begun.ends, e, stepped.ends) ends, is_good)
      ]

IsMatch-GoodAnswer :
    (root : RegexNode) (groups : ℕ) (text : List ℕ) (start : ℕ) (unanchored : Bool)
    (fine : AllFine
      (compile root groups)
      (2 * ((compile root groups).group_count + 1))
      0
      (here (compile root groups)))
    (answer : Option RegexMatchResult)
    → GoodAnswer
        (compile root groups)
        text
        (2 * ((compile root groups).group_count + 1))
        (From start unanchored)
        fine
        answer
    → IsMatch root text start unanchored answer
IsMatch-GoodAnswer root groups text start unanchored fine none good = tt
IsMatch-GoodAnswer root groups text start unanchored fine (some found) (s, begun, spells) =
    let (to, from) = compile-Matches root groups text s found.end in (s, begun, to spells)

-- On a compiled pattern with its groups numbered up to the count, the matcher ends, at any state of its
-- visited marks: it reads no instruction, class or slot that is not there. A match that it gives ends
-- where the tree matches the text from the position of the attempt, or from a later one if the search is
-- not anchored.
pub run-Matches :
    (root : RegexNode) (groups : ℕ)
    → Groups root groups
    → (text : List ℕ) (start : ℕ) (unanchored : Bool) (m : RegexMatcher)
    → (after : RegexMatcher) × (answer : Option RegexMatchResult) × (run
          (compile root groups)
          text
          start
          unanchored
          m
        ≡ some (after, answer))
      × IsMatch root text start unanchored answer
run-Matches root groups numbered text start unanchored m =
    let q = compile root groups in
    let slots = 2 * (q.group_count + 1) in
    let fine : AllFine q slots 0 (here q) =
      subst (λ n. AllFine q (2 * (n + 1)) 0 (here q)) (sym (group_count-compile root groups))
        (compile-AllFine root groups numbered) in
    let l = compile-Layout root groups in
    let (after, answer, ends, good) =
      run_loop_lem q text start unanchored fine (omega (arith, l.size)) (suc (length text) - start)
        start m [] none (omega arith) tt tt in
    (after, answer, ends, IsMatch-GoodAnswer root groups text start unanchored fine answer good)
