-- ===== src/Regex/Matcher/Threads.antt =====
-- Adding a thread ends, stays inside the program, and each thread has come a way from the start.
use lumiere.Common.{
  ℕ, zero, suc, ◌+◌, ◌≤◌, ◌<◌, ◌≡◌, refl, Bool, false, not, Option, none, some, List, [], ◌∷◌, ◌++◌,
  All, length, arith, sym, ap, ◌∙◌, inl, inr, Bool-cases, ◌==◌, if◌then◌else◌, ==→eq, ==_refl,
  neq→==,
}
use mathlib.Core.Path.{subst}
use lumiere.Cycles.Sums.{total, total_more}
use lumiere.Regex.{
  Op, op_char, op_any, op_class, op_bol, op_eol, op_save, op_jmp, op_split, op_match, Inst,
  RegexProgram,
}
use lumiere.Regex.Compiler.{here}
use lumiere.Regex.Compiler.Code.{Has}
use lumiere.Regex.Paths.{Next}
use lumiere.Regex.Complete.{Runs, Runs-trans, Runs-step}
use lumiere.Regex.Matcher.{Thread, RegexMatcher, is_visited, visit, add_thread}
use lumiere.Regex.Matcher.Slots.{save_at_lem, lookup, All-snoc}
use lumiere.Regex.Matcher.Fine.{Fine, AllFine}

module _ (q : RegexProgram) (text : List ℕ) (slots : ℕ) (from : ℕ → Type 0)
    (fine : AllFine q slots 0 (here q)) where
  -- A thread that has come from a start.
  pub record IsThread (sp : ℕ) (t : Thread) : Type 0 where
    pub inside : t.pc < here q
    pub width : length t.saved ≡ slots
    pub way : (s : ℕ) × from s × Runs text q 0 s t.pc sp

  abbrev one : ℕ → ℕ
  one x = 1

  -- whether x was visited, if x is the instruction that is visited now
  abbrev is_current : ℕ → (ℕ → Option ℕ) → ℕ → Bool → Bool
  is_current gen visited x same = elim (if same then some gen else visited x) [
    | none ↦ false
    | some g ↦ g == gen
  ]

  -- how many instructions were not visited
  abbrev pub unvisited : RegexMatcher → ℕ
  unvisited m = total one (λ pc. not (is_visited m pc)) (here q)

  total_at_most : (test : ℕ → Bool) (n : ℕ) → total one test n ≤ n
  unfolding total
  total_at_most test zero = omega arith
  total_at_most test (suc n) = ground (arith, total_at_most test n)

  pub unvisited_le : (m : RegexMatcher) → unvisited m ≤ here q
  unvisited_le m = total_at_most (λ pc. not (is_visited m pc)) (here q)

  unvisited-visit :
      (m : RegexMatcher) (pc : ℕ)
      → pc < here q
      → is_visited m pc ≡ false
      → unvisited m ≡ 1 + unvisited (visit m pc)
  unvisited-visit m pc inside new =
      let before : ℕ → Bool = λ x. not (is_visited m x) in
      let after : ℕ → Bool = λ x. not (is_visited (visit m pc) x) in
      total_more one after before pc (here q) inside
        (ap not (ap (is_current m.gen m.visited pc) (==_refl pc) ∙ ==_refl m.gen)) (ap not new)
        (λ x apart.
          ap (λ b. not (is_current m.gen m.visited x b)) (neq→== pc x (λ e. apart (sym e))))

  pub record Added (sp : ℕ) (m : RegexMatcher) (result : Option (RegexMatcher × List Thread))
      : Type 0 where
    pub next : RegexMatcher
    pub threads : List Thread
    pub ends : result ≡ some (next, threads)
    pub fewer : unvisited next ≤ unvisited m
    pub good : All (IsThread sp) threads

  -- What is asked of a call of `add_thread`.
  pub record Call (fuel pc sp : ℕ) (saved : List (Option ℕ)) (m : RegexMatcher) (list : List Thread)
      : Type 0 where
    pub enough : unvisited m < fuel
    pub inside : pc < here q
    pub width : length saved ≡ slots
    pub way : (s : ℕ) × from s × Runs text q 0 s pc sp
    pub good : All (IsThread sp) list

  -- The visit of a new instruction, where the calls with less fuel are known.
  module _ (fuel pc sp : ℕ) (saved : List (Option ℕ)) (m : RegexMatcher) (list : List Thread)
      (again : (target : ℕ) (kept : List (Option ℕ)) (seen : RegexMatcher) (more : List Thread)
        → Call fuel target sp kept seen more
        → Added sp seen (add_thread q text fuel target sp kept (seen, more)))
      (c : Call (suc fuel) pc sp saved m list) (new : is_visited m pc ≡ false) (inst : Inst)
      (found : Has q pc inst) where
    abbrev called : Option (RegexMatcher × List Thread)
    called = add_thread q text (suc fuel) pc sp saved (m, list)

    -- The thread ends here.
    stops : called ≡ some (visit m pc, list) → Added sp m called
    stops ends = record {
      next = visit m pc;
      threads = list;
      ends = ends;
      fewer = omega (arith, unvisited-visit m pc c.inside new);
      good = c.good;
    }

    -- The thread stays at the instruction.
    stays :
        called ≡ some (visit m pc, list ++ record { pc = pc; saved = saved } ∷ [])
        → Added sp m called
    stays ends = record {
      next = visit m pc;
      threads = list ++ record { pc = pc; saved = saved } ∷ [];
      ends = ends;
      fewer = omega (arith, unvisited-visit m pc c.inside new);
      good =
          All-snoc (IsThread sp) list (record { pc = pc; saved = saved }) c.good
            (record { inside = c.inside; width = c.width; way = c.way });
    }

    -- A call for the next instruction is made.
    Call-go :
        (op : Op)
        → inst.op ≡ op
        → (target : ℕ) (kept : List (Option ℕ)) → target < here q
        → length kept ≡ length saved
        → Next text q op inst pc sp target sp
        → (seen : RegexMatcher) (more : List Thread) → unvisited seen ≤ unvisited (visit m pc)
        → All (IsThread sp) more
        → Call fuel target sp kept seen more
    Call-go op e target kept inside same next seen more fewer good =
        let (s, begun, way) = c.way in
        let step =
          Runs-step text q pc sp target sp inst found
            (subst (λ o. Next text q o inst pc sp target sp) (sym e) next) in
        record {
          enough = omega (arith, fewer, unvisited-visit m pc c.inside new, c.enough);
          inside = inside;
          width = same ∙ c.width;
          way = (s, begun, Runs-trans text q 0 s pc sp target sp way step);
          good = good;
        }

    -- The last call for a next instruction gives the result.
    goes :
        (op : Op)
        → inst.op ≡ op
        → (target : ℕ) (kept : List (Option ℕ)) → target < here q
        → length kept ≡ length saved
        → Next text q op inst pc sp target sp
        → (seen : RegexMatcher) (more : List Thread) → unvisited seen ≤ unvisited (visit m pc)
        → All (IsThread sp) more
        → called ≡ add_thread q text fuel target sp kept (seen, more)
        → Added sp m called
    goes op e target kept inside same next seen more fewer good same_result =
        let a =
          again target kept seen more
            (Call-go op e target kept inside same next seen more fewer good) in
        record {
          next = a.next;
          threads = a.threads;
          ends = same_result ∙ a.ends;
          fewer = omega (arith, fewer, a.fewer, unvisited-visit m pc c.inside new);
          good = a.good;
        }

    add_thread_op : (op : Op) → inst.op ≡ op → Fine q slots op inst pc → Added sp m called
    unfolding add_thread
    add_thread_op op_char e ok = stays (rw (add_thread, new, found, e) refl)
    add_thread_op op_any e ok = stays (rw (add_thread, new, found, e) refl)
    add_thread_op op_class e ok = stays (rw (add_thread, new, found, e) refl)
    add_thread_op op_match e ok = stays (rw (add_thread, new, found, e) refl)
    add_thread_op op_jmp e (t, x, inside) =
        goes op_jmp e t saved inside refl (x, refl) (visit m pc) list (omega arith) c.good
          (rw (add_thread, new, found, e, x) refl)
    add_thread_op op_split e ((t, x, one), (u, y, two)) =
        let first = again t saved (visit m pc) list (
          Call-go op_split e t saved one refl (inl x, refl) (visit m pc) list (omega arith)
            c.good) in
        goes op_split e u saved two refl (inr y, refl) first.next first.threads first.fewer
          first.good (rw (add_thread, new, found, e, x, y, first.ends) refl)
    add_thread_op op_save e (inside, (slot, at, room)) =
        let (kept, ends, same) = save_at_lem saved slot sp (omega (arith, room, c.width)) in
        goes op_save e (pc + 1) kept inside same (refl, refl) (visit m pc) list (omega arith) c.good
          (rw (add_thread, new, found, e, at, ends) refl)
    add_thread_op op_bol e inside = elim (Bool-cases (sp == 0)) [
      | inl here ↦
          goes op_bol e (pc + 1) saved inside refl (==→eq sp 0 here, refl, refl) (visit m pc) list
            (omega arith) c.good (rw (add_thread, new, found, e, here) refl)
      | inr apart ↦ stops (rw (add_thread, new, found, e, apart) refl)
    ]
    add_thread_op op_eol e inside = elim (Bool-cases (sp == length text)) [
      | inl here ↦
          goes op_eol e (pc + 1) saved inside refl (==→eq sp (length text) here, refl, refl)
            (visit m pc) list (omega arith) c.good (rw (add_thread, new, found, e, here) refl)
      | inr apart ↦ stops (rw (add_thread, new, found, e, apart) refl)
    ]

  pub add_thread_lem :
      (fuel pc sp : ℕ) (saved : List (Option ℕ)) (m : RegexMatcher) (list : List Thread)
      → Call fuel pc sp saved m list
      → Added sp m (add_thread q text fuel pc sp saved (m, list))
  unfolding add_thread
  add_thread_lem zero pc sp saved m list c = absurd (omega (arith, c.enough))
  add_thread_lem (suc fuel) pc sp saved m list c = elim (Bool-cases (is_visited m pc)) [
    | inl seen ↦ record {
      next = m;
      threads = list;
      ends = rw (add_thread, seen) refl;
      fewer = omega arith;
      good = c.good;
    }
    | inr new ↦
        let (inst, found) = lookup q.instructions pc c.inside in
        add_thread_op fuel pc sp saved m list
          (λ target kept seen more call. add_thread_lem fuel target sp kept seen more call) c new
          inst found inst.op refl (fine pc inst (omega arith) c.inside found)
  ]
