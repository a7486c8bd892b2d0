-- ===== src/Regex/Matcher.antt =====
-- The class RegexMatcher: lists of threads that read one character at a time. A read outside the
-- program, its tables or a thread's slots, and the end of the rounds, are `none`. Positions and generations are `int`s in the source: they are not bounded here.
pub mod Fine
pub mod Slots
pub mod Threads
pub mod Groups
pub mod Steps
pub mod Run
pub mod Missed
use lumiere.Common.{
  ℕ, zero, suc, ◌+◌, ◌-◌, ◌*◌, Bool, true, false, not, ◌&&◌, ◌||◌, Option, none, some, List, [],
  ◌∷◌, ◌++◌, length, get_elem?, ◌==◌, if◌then◌else◌,
}
use lumiere.Regex.{
  ClassRange, Op, op_char, op_any, op_class, op_bol, op_eol, op_save, op_jmp, op_split, op_match,
  Inst, RegexProgram,
}
use lumiere.Regex.Paths.{class_holds}

infixl 5 ◌>>=◌
abbrev pub ◌>>=◌ {ℓ κ} : {A : Type ℓ} {B : Type κ} → Option A → (A → Option B) → Option B
none >>= f = none
some a >>= f = f a

pub record Thread : Type 0 where
  pub pc : ℕ
  pub saved : List (Option ℕ)

pub record RegexMatchResult : Type 0 where
  pub start : ℕ
  pub end : ℕ
  pub saved : List (Option ℕ)

-- slots that hold nothing
unfoldable pub unset : ℕ → List (Option ℕ)
unset zero = []
unset (suc n) = none ∷ unset n

-- the last generation in which each instruction was visited, and the present one
pub record RegexMatcher : Type 0 where
  pub visited : ℕ → Option ℕ
  pub gen : ℕ

-- the matcher as it is made
abbrev pub unused : RegexMatcher
unused = record { visited = λ pc. none; gen = 0 }

abbrev pub is_visited : RegexMatcher → ℕ → Bool
is_visited m pc = elim (m.visited pc) [ none ↦ false | some gen ↦ gen == m.gen ]

abbrev pub visit : RegexMatcher → ℕ → RegexMatcher
visit m pc = record m { visited = λ x. if pc == x then some m.gen else m.visited x }

-- `saved[slot] = sp`
unfoldable pub save_at : List (Option ℕ) → ℕ → ℕ → Option (List (Option ℕ))
save_at [] slot sp = none
save_at (old ∷ saved) zero sp = some (some sp ∷ saved)
save_at (old ∷ saved) (suc slot) sp = do rest ← save_at saved slot sp; some (old ∷ rest)

module _ (q : RegexProgram) (text : List ℕ) where
  unfoldable pub class_matches : Option ℕ → ℕ → Option Bool
  class_matches index ch = do
    k ← index
    ranges ← get_elem? q.classes k
    negated ← get_elem? q.class_negated k
    some (class_holds ranges negated ch)

  unfoldable pub add_thread :
      ℕ → ℕ → ℕ → List (Option ℕ) → RegexMatcher × List Thread → Option (RegexMatcher × List Thread)
  add_thread zero pc sp saved (m, list) = none
  add_thread (suc fuel) pc sp saved (m, list) = if is_visited m pc then some (m, list) else do
    inst ← get_elem? q.instructions pc
    let seen = visit m pc
    elim inst.op [
      | op_jmp ↦ do target ← inst.x; add_thread fuel target sp saved (seen, list)
      | op_split ↦ do
        first ← inst.x
        second ← inst.y
        more ← add_thread fuel first sp saved (seen, list)
        add_thread fuel second sp saved more
      | op_save ↦ do
        slot ← inst.slot
        kept ← save_at saved slot sp
        add_thread fuel (pc + 1) sp kept (seen, list)
      | op_bol ↦ elim (sp == 0) [
        | true ↦ add_thread fuel (pc + 1) sp saved (seen, list)
        | false ↦ some (seen, list)
      ]
      | op_eol ↦ elim (sp == length text) [
        | true ↦ add_thread fuel (pc + 1) sp saved (seen, list)
        | false ↦ some (seen, list)
      ]
      | op_char ↦ some (seen, list ++ record { pc = pc; saved = saved } ∷ [])
      | op_any ↦ some (seen, list ++ record { pc = pc; saved = saved } ∷ [])
      | op_class ↦ some (seen, list ++ record { pc = pc; saved = saved } ∷ [])
      | op_match ↦ some (seen, list ++ record { pc = pc; saved = saved } ∷ [])
    ]

  -- enough for each instruction to be visited
  abbrev pub rounds : ℕ
  rounds = suc (length q.instructions)

  -- Whether the instruction reads this character; `none` at the end of the text.
  unfoldable pub reads : Inst → Option ℕ → Option Bool
  reads inst none = some false
  reads inst (some ch) = elim inst.op [
    | op_char ↦ some (ch == inst.ch)
    | op_any ↦ some true
    | op_class ↦ class_matches inst.class_index ch
    | op_bol ↦ some false
    | op_eol ↦ some false
    | op_save ↦ some false
    | op_jmp ↦ some false
    | op_split ↦ some false
    | op_match ↦ some false
  ]

  -- `saved[0]`, or the position where it holds nothing; a thread has two slots at least.
  abbrev pub result_of : ℕ → List (Option ℕ) → RegexMatchResult
  result_of sp saved = record {
    start = elim saved [ [] ↦ sp | first ∷ others ↦ elim first [ none ↦ sp | some s ↦ s ] ];
    end = sp;
    saved = saved;
  }

  -- The threads of one position, in the order of their priority.
  unfoldable pub step_threads :
      ℕ
      → List Thread
      → RegexMatcher × List Thread
      → Option RegexMatchResult
      → Option (RegexMatcher × List Thread × Option RegexMatchResult)
  step_threads sp [] (m, nlist) matched = some (m, nlist, matched)
  step_threads sp (thread ∷ clist) (m, nlist) matched = do
    inst ← get_elem? q.instructions thread.pc
    let is_match : Bool = elim inst.op as (λ x. Bool) [ op_match ↦ true | _ ↦ false ]
    if is_match then some (m, nlist, some (result_of sp thread.saved)) else do
      taken ← reads inst (get_elem? text sp)
      next ← elim taken [
        | true ↦ add_thread rounds (thread.pc + 1) (sp + 1) thread.saved (m, nlist)
        | false ↦ some (m, nlist)
      ]
      step_threads sp clist next matched

  abbrev pub fresh : List (Option ℕ)
  fresh = unset (2 * (q.group_count + 1))

  module _ (start_pos : ℕ) (unanchored : Bool) where
    -- Whether a new attempt starts at this position.
    abbrev pub attempts : Option RegexMatchResult → ℕ → Bool
    attempts none sp = unanchored || sp == start_pos
    attempts (some found) sp = false

    unfoldable pub run_loop :
        ℕ
        → ℕ
        → RegexMatcher
        → List Thread
        → Option RegexMatchResult
        → Option (RegexMatcher × Option RegexMatchResult)
    run_loop zero sp m clist matched = some (m, matched)
    run_loop (suc positions) sp m clist matched = do
      begun ←
          if attempts matched sp then add_thread rounds 0 sp fresh (m, clist) else some (m, clist)
      elim begun.1 [
        | [] ↦ some (begun.0, matched)
        | thread ∷ others ↦ do
          let next = record begun.0 { gen = begun.0.gen + 1 }
          stepped ← step_threads sp (thread ∷ others) (next, []) matched
          run_loop positions (sp + 1) stepped.0 stepped.1 stepped.2
      ]

    -- The positions from start_pos to the end of the text.
    abbrev pub run : RegexMatcher → Option (RegexMatcher × Option RegexMatchResult)
    run m = run_loop (suc (length text) - start_pos) start_pos m [] none
