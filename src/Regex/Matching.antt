-- ===== src/Regex/Matching.antt =====
-- The compiled program of a tree spells exactly the matches of the tree.
use lumiere.Common.{
  ℕ, zero, suc, ◌+◌, ◌≤◌, ◌<◌, ◌≡◌, refl, ◌↔◌, List, [], get_elem?, arith, sym, ap, ◌∙◌, inr,
}
use mathlib.Core.Path.{subst}
use mathlib.Core.Option.{some-injective}
use lumiere.Regex.{RegexNode, op_match, Inst, RegexProgram}
use lumiere.Regex.Compiler.{here, inst_of, emit_save, emit_match, compile_node, compile}
use lumiere.Regex.Compiler.Code.{Has, Code, save_inst}
use lumiere.Regex.Compiler.Code.Extends.{Agree, Code-Agree}
use lumiere.Regex.Compiler.Patches.{here-emit, Has-emit, Agree-trans, Agree-emit}
use lumiere.Regex.Compiler.Compiled.{compile_node-Code}
use lumiere.Regex.Paths.{Matches, Next, Way, Way-at, first_step}
use lumiere.Regex.Sound.{Code-sound}
use lumiere.Regex.Complete.{Runs, Runs-trans, Runs-step, Code-complete}

-- The program leads from its first instruction, at position i, to its last one, MATCH, at position j.
abbrev pub Spells : RegexProgram → List ℕ → ℕ → ℕ → Type 0
Spells q text i j =
    (pc : ℕ) × (here q ≡ pc + 1) × Has q pc (inst_of op_match) × Runs text q 0 i pc j

-- Where the parts of a compiled program lie.
pub record Layout (root : RegexNode) (q : RegexProgram) : Type 0 where
  pub end : ℕ
  pub opening : Has q 0 (save_inst 0)
  pub code : Code q root 1 end
  pub closing : Has q end (save_inst 1)
  pub match : Has q (end + 1) (inst_of op_match)
  pub size : here q ≡ end + 2
  pub forward : 1 ≤ end

pub compile-Layout : (root : RegexNode) (groups : ℕ) → Layout root (compile root groups)
unfolding compile
compile-Layout root groups =
    let empty : RegexProgram = record {
      instructions = [];
      classes = [];
      class_negated = [];
      group_count = groups;
    } in
    let started = emit_save empty 0 in
    let body = compile_node-Code root started 1 refl refl in
    let p = compile_node root started in
    let saved = emit_save p 1 in
    let q = emit_match saved in
    let b = body.end in
    let to_saved : (c d : ℕ) → Agree p saved c d = λ c d. Agree-emit p (save_inst 1) c d in
    let to_end : (c d : ℕ) → Agree saved q c d = λ c d. Agree-emit saved (inst_of op_match) c d in
    let at_b : Has saved b (save_inst 1) =
      subst (λ z. Has saved z (save_inst 1)) body.ends (Has-emit p (save_inst 1)) in
    let after : here saved ≡ b + 1 = omega (arith, here-emit p (save_inst 1), body.ends) in
    record {
      end = b;
      opening =
          (to_end 0 1).insts 0 (save_inst 0)
            ((to_saved 0 1).insts 0 (save_inst 0)
              (body.kept.insts 0 (save_inst 0) refl (omega arith) (omega arith)) (omega arith)
              (omega arith))
            (omega arith) (omega arith);
      code =
          Code-Agree p q root 1 b body.code (Agree-trans p saved q 1 b (to_saved 1 b) (to_end 1 b));
      closing = (to_end b (b + 1)).insts b (save_inst 1) at_b (omega arith) (omega arith);
      match = subst (λ z. Has q z (inst_of op_match)) after (Has-emit saved (inst_of op_match));
      size = omega (arith, here-emit saved (inst_of op_match), after);
      forward = body.forward;
    }

-- At MATCH a way is at its end.
Way-match :
    (text : List ℕ) (q : RegexProgram) (target stop k pc i : ℕ)
    → Has q target (inst_of op_match)
    → pc ≡ target
    → Way text q target stop k pc i
    → i ≡ stop
Way-match text q target stop zero pc i h at (e, f) = f
Way-match text q target stop (suc k) pc i h at (inst, pc', i', there, next, w) =
    let found : inst ≡ inst_of op_match =
      some-injective inst (inst_of op_match) (sym there ∙ ap (get_elem? q.instructions) at ∙ h) in
    let never : pc < 0 = subst (λ (x : Inst). Next text q x.op x pc i pc' i') found next in
    absurd (omega arith)

-- The compiled program of a tree leads from its first instruction at position i to its MATCH at position
-- j exactly if the tree matches the characters of the text from i up to j.
pub compile-Matches :
    (root : RegexNode) (groups : ℕ) (text : List ℕ) (i j : ℕ)
    → Spells (compile root groups) text i j ↔ Matches text root i j
compile-Matches root groups text i j =
    let q = compile root groups in
    let l = compile-Layout root groups in
    (
      λ (pc, size, match, (k, w)).
          let last : pc ≡ l.end + 1 = omega (arith, size, l.size) in
          let (k0, pc0, i0, less0, (next0, stays0), w0) =
            first_step text q pc j k 0 i (save_inst 0) l.opening (λ e. omega (arith, e, last)) w in
          let (j1, k1, matches, less1, w1) =
            Code-sound text q pc j root 1 l.end l.code (inr (omega (arith, last))) k0 i
              (Way-at text q pc j k0 pc0 i0 1 i next0 stays0 w0) in
          let (k2, pc2, i2, less2, (next2, stays2), w2) =
            first_step text q pc j k1 l.end j1 (save_inst 1) l.closing (λ e. omega (arith, e, last))
              w1 in
          subst (Matches text root i)
            (sym stays2 ∙ Way-match text q pc j k2 pc2 i2 match (next2 ∙ sym last) w2) matches,
      λ matches. (
        l.end + 1,
        omega (arith, l.size),
        l.match,
        Runs-trans text q 0 i 1 i (l.end + 1) j
            (Runs-step text q 0 i 1 i (save_inst 0) l.opening (refl, refl))
            (Runs-trans text q 1 i l.end j (l.end + 1) j
              (Code-complete text q root 1 l.end l.code i j matches)
              (Runs-step text q l.end j (l.end + 1) j (save_inst 1) l.closing (refl, refl))),
      ),
    )
