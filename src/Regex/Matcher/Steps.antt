-- ===== src/Regex/Matcher/Steps.antt =====
-- The steps of the threads and the loop over the positions: they end, and an answer is a match.
use lumiere.Common.{
  ℕ, ◌+◌, ◌<◌, ◌≡◌, refl, ◌⊎◌, Bool, true, false, Option, none, some, List, [], ◌∷◌, All, get_elem?,
  arith, sym, ap, ◌∙◌, inl, inr, ◌==◌, ==→eq,
}
use mathlib.Core.Path.{subst}
use mathlib.Core.Bool.{true≢false}
use lumiere.Regex.{
  Op, op_char, op_any, op_class, op_bol, op_eol, op_save, op_jmp, op_split, op_match, Inst,
  RegexProgram,
}
use lumiere.Regex.Compiler.{here}
use lumiere.Regex.Compiler.Code.{Has}
use lumiere.Regex.Paths.{Next, class_holds}
use lumiere.Regex.Complete.{Runs-trans, Runs-step}
use lumiere.Regex.Matching.{Spells}
use lumiere.Regex.Matcher.{
  Thread, RegexMatchResult, RegexMatcher, class_matches, add_thread, rounds, reads, result_of,
  step_threads,
}
use lumiere.Regex.Matcher.Fine.{Fine, AllFine}
use lumiere.Regex.Matcher.Slots.{lookup}
use lumiere.Regex.Matcher.Threads.{IsThread, Added, add_thread_lem, unvisited_le}

false_true : {A : Type 0} → false ≡ true → A
false_true e = absurd (true≢false (sym e))

module _ (q : RegexProgram) (text : List ℕ) (slots : ℕ) (from : ℕ → Type 0)
    (fine : AllFine q slots 0 (here q)) where
  abbrev pub GoodAnswer : Option RegexMatchResult → Type 0
  GoodAnswer none = Unit {0}
  GoodAnswer (some found) = (s : ℕ) × from s × Spells q text s found.end

  abbrev pub Threads : ℕ → List Thread → Type 0
  Threads sp = All (IsThread q text slots from fine sp)

  -- The instruction is a test of the next character, or no thread is stopped at it.
  reads_lem :
      (pc sp : ℕ) (inst : Inst) (c : Option ℕ)
      → get_elem? text sp ≡ c
      → (op : Op) → inst.op ≡ op
      → Fine q slots op inst pc
      → (taken : Bool) × (reads q text inst c ≡ some taken)
        × (taken ≡ true → (pc + 1 < here q) × Next text q op inst pc sp (pc + 1) (sp + 1))
  unfolding reads class_matches
  reads_lem pc sp inst none h op e ok = (false, refl, λ t. false_true t)
  reads_lem pc sp inst (some ch) h op_char e ok =
      (ch == inst.ch, rw (reads, e) refl, λ t. (ok, (h ∙ ap some (==→eq ch inst.ch t), refl, refl)))
  reads_lem pc sp inst (some ch) h op_any e ok =
      (true, rw (reads, e) refl, λ t. (ok, ((ch, h), refl, refl)))
  reads_lem pc sp inst (some ch) h op_class e (ok, (k, ranges, negated, at, c, n)) = (
    class_holds ranges negated ch,
    rw (reads, e, class_matches, at, c, n) refl,
    λ t. (ok, ((ch, k, ranges, negated, h, at, c, n, t), refl, refl)),
  )
  reads_lem pc sp inst (some ch) h op_bol e ok = (false, rw (reads, e) refl, λ t. false_true t)
  reads_lem pc sp inst (some ch) h op_eol e ok = (false, rw (reads, e) refl, λ t. false_true t)
  reads_lem pc sp inst (some ch) h op_save e ok = (false, rw (reads, e) refl, λ t. false_true t)
  reads_lem pc sp inst (some ch) h op_jmp e ok = (false, rw (reads, e) refl, λ t. false_true t)
  reads_lem pc sp inst (some ch) h op_split e ok = (false, rw (reads, e) refl, λ t. false_true t)
  reads_lem pc sp inst (some ch) h op_match e ok = (false, rw (reads, e) refl, λ t. false_true t)

  pub record Stepped (sp : ℕ)
      (result : Option (RegexMatcher × List Thread × Option RegexMatchResult)) : Type 0 where
    pub next : RegexMatcher
    pub threads : List Thread
    pub matched : Option RegexMatchResult
    pub ends : result ≡ some (next, threads, matched)
    pub good : Threads (sp + 1) threads
    pub answer : GoodAnswer matched

  -- A thread that has read the character is added behind it.
  add_behind :
      (taken : Bool) (sp : ℕ) (t : Thread) (inst : Inst) (m : RegexMatcher) (nlist : List Thread)
      → IsThread q text slots from fine sp t
      → Has q t.pc inst
      → (taken ≡ true → (t.pc + 1 < here q) × Next text q inst.op inst t.pc sp (t.pc + 1) (sp + 1))
      → Threads (sp + 1) nlist
      → Added q text slots from fine
          (sp + 1)
          m
          (elim taken as (λ _. Option (RegexMatcher × List Thread)) [
            | true ↦ add_thread q text (rounds q text) (t.pc + 1) (sp + 1) t.saved (m, nlist)
            | false ↦ some (m, nlist)
          ])
  add_behind false sp t inst m nlist thread found next all = record {
    next = m;
    threads = nlist;
    ends = refl;
    fewer = omega arith;
    good = all;
  }
  add_behind true sp t inst m nlist thread found next all =
      let (inside, step) = next refl in
      let (s, begun, way) = thread.way in
      add_thread_lem q text slots from fine (rounds q text) (t.pc + 1) (sp + 1) t.saved m nlist
        (record {
          enough = omega (arith, unvisited_le q text slots from fine m);
          inside = inside;
          width = thread.width;
          way = (
            s,
            begun,
            Runs-trans text q 0 s t.pc sp (t.pc + 1) (sp + 1) way
                (Runs-step text q t.pc sp (t.pc + 1) (sp + 1) inst found step),
          );
          good = all;
        })

  Stepped-same :
      (sp : ℕ) (result later : Option (RegexMatcher × List Thread × Option RegexMatchResult))
      → result ≡ later
      → Stepped sp later
      → Stepped sp result
  Stepped-same sp result later same step = record {
    next = step.next;
    threads = step.threads;
    matched = step.matched;
    ends = same ∙ step.ends;
    good = step.good;
    answer = step.answer;
  }

  -- An instruction of the list, MATCH or another one.
  match_or_not :
      (op : Op) → (op ≡ op_match) ⊎ (elim op as (λ _. Bool) [ op_match ↦ true | _ ↦ false ] ≡ false)
  match_or_not op_char = inr refl
  match_or_not op_any = inr refl
  match_or_not op_class = inr refl
  match_or_not op_bol = inr refl
  match_or_not op_eol = inr refl
  match_or_not op_save = inr refl
  match_or_not op_jmp = inr refl
  match_or_not op_split = inr refl
  match_or_not op_match = inl refl

  answer_at_match :
      (sp : ℕ) (t : Thread) (inst : Inst)
      → IsThread q text slots from fine sp t
      → Has q t.pc inst
      → inst.op ≡ op_match
      → GoodAnswer (some (result_of q text sp t.saved))
  answer_at_match sp t inst thread found e =
      let (s, begun, way) = thread.way in
      let (last, same) =
        subst (λ o. Fine q slots o inst t.pc) e
          (fine t.pc inst (omega arith) thread.inside found) in
      (s, begun, (t.pc, last, found ∙ ap some same, way))

  pub step_threads_lem :
      (sp : ℕ) (clist : List Thread) (m : RegexMatcher) (nlist : List Thread)
      (matched : Option RegexMatchResult)
      → Threads sp clist
      → Threads (sp + 1) nlist
      → GoodAnswer matched
      → Stepped sp (step_threads q text sp clist (m, nlist) matched)
  unfolding step_threads
  step_threads_lem sp [] m nlist matched all good answer = record {
    next = m;
    threads = nlist;
    matched = matched;
    ends = refl;
    good = good;
    answer = answer;
  }
  step_threads_lem sp (t ∷ clist) m nlist matched (thread, all) good answer =
      let (inst, found) = lookup q.instructions t.pc thread.inside in
      elim (match_or_not inst.op) [
        | inl e ↦ record {
          next = m;
          threads = nlist;
          matched = some (result_of q text sp t.saved);
          ends = rw (step_threads, found, e) refl;
          good = good;
          answer = answer_at_match sp t inst thread found e;
        }
        | inr other ↦
            let (taken, test, next) =
              reads_lem t.pc sp inst (get_elem? text sp) refl inst.op refl
                (fine t.pc inst (omega arith) thread.inside found) in
            let added = add_behind taken sp t inst m nlist thread found next good in
            Stepped-same sp _ _ (rw (step_threads, found, other, test, added.ends) refl)
              (step_threads_lem sp clist added.next added.threads matched all added.good answer)
      ]
