-- ===== src/Regex/Compiler/Places.antt =====
-- The compiler puts the code of each node behind what is there: loops and repetitions.
use lumiere.Common.{ℕ, zero, suc, ◌+◌, ◌≤◌, ◌<◌, ◌≡◌, refl, some, arith, ap, ◌∙◌, inl, inr}
use mathlib.Core.Path.{subst}
use lumiere.Regex.{op_jmp, op_split, Inst, RegexProgram}
use lumiere.Regex.Compiler.{
  here, inst_of, emit, emit_jmp, emit_split, patch_x, mandatory_copies, star_code, plus_code,
  opt_code,
}
use lumiere.Regex.Compiler.Code.{Has, Copies, Loop, split_inst}
use lumiere.Regex.Compiler.Code.Extends.{Agree, Agree-within}
use lumiere.Regex.Compiler.Patches.{
  here-rewritten, here-emit, Has-emit, Has-rewritten, Has-patch_x, Has-patch_y, Agree-refl,
  Agree-trans, Agree-emit, Agree-rewritten, IsEven,
}

-- A step of the compiler leaves what is there and puts a piece of code behind it.
pub record Placed (A : RegexProgram → ℕ → ℕ → Type 0) (p q : RegexProgram) (a : ℕ) : Type 0 where
  pub end : ℕ
  pub ends : here q ≡ end
  pub forward : a ≤ end
  pub kept : Agree p q 0 a
  pub code : A q a end
  pub even : IsEven q

abbrev pub Places : (RegexProgram → RegexProgram) → (RegexProgram → ℕ → ℕ → Type 0) → Type 0
Places f A = (p : RegexProgram) (a : ℕ) → here p ≡ a → IsEven p → Placed A p (f p) a

-- The code of a piece does not hang on what lies elsewhere.
abbrev pub Moves : (RegexProgram → ℕ → ℕ → Type 0) → Type 0
Moves A = (q r : RegexProgram) (a b : ℕ) → A q a b → Agree q r a b → A r a b

-- One instruction.
pub Placed-emit :
    (A : RegexProgram → ℕ → ℕ → Type 0) (p : RegexProgram) (inst : Inst) (a : ℕ)
    → here p ≡ a
    → IsEven p
    → (Has (emit p inst) a inst → A (emit p inst) a (a + 1))
    → Placed A p (emit p inst) a
Placed-emit A p inst a e ev code = record {
  end = a + 1;
  ends = omega (arith, here-emit p inst, e);
  forward = omega arith;
  kept = Agree-emit p inst 0 a;
  code = code (subst (λ z. Has (emit p inst) z inst) e (Has-emit p inst));
  even = ev;
}

-- A choice whose first way goes on behind it; `opened` is its program.
abbrev pub opened : RegexProgram → RegexProgram
opened p = patch_x (emit_split p) (here p) (here (emit_split p))

abbrev pub half_split : ℕ → Inst
half_split first = record (inst_of op_split) { x = some first }

pub record Opened (p : RegexProgram) (a : ℕ) : Type 0 where
  pub next : here (opened p) ≡ a + 1
  pub kept : Agree p (opened p) 0 a
  pub split : Has (opened p) a (half_split (a + 1))

pub Opened_lem : (p : RegexProgram) (a : ℕ) → here p ≡ a → Opened p a
Opened_lem p a e =
    let f : Inst → Inst = λ i. record i { x = some (here (emit_split p)) } in
    let h =
      Has-rewritten (emit_split p) (here p) f (inst_of op_split) (Has-emit p (inst_of op_split)) in
    let after = here-emit p (inst_of op_split) in
    record {
      next = omega (arith, here-rewritten (emit_split p) (here p) f, after, e);
      kept =
          Agree-trans p (emit_split p) (opened p) 0 a (Agree-emit p (inst_of op_split) 0 a)
            (Agree-rewritten (emit_split p) (here p) f 0 a (inr (omega (arith, e))));
      split =
          subst (λ z. Has (opened p) z (half_split (a + 1))) e
            (subst (λ (z : ℕ). Has (opened p) (here p) (half_split z))
              (after ∙ ap (λ (z : ℕ). z + 1) e) h);
    }

module _ (f : RegexProgram → RegexProgram) (A : RegexProgram → ℕ → ℕ → Type 0) (places : Places f A)
    (moves : Moves A) where
  pub Placed-opt : Places (opt_code f) (λ q a b. Has q a (split_inst (a + 1) b) × A q (a + 1) b)
  Placed-opt p a e ev =
      let o = Opened_lem p a e in
      let body = places (opened p) (a + 1) o.next ev in
      let q = f (opened p) in
      let b = body.end in
      let g : Inst → Inst = λ i. record i { y = some (here q) } in
      let same = here-rewritten q (here p) g in
      let fixed = Agree-rewritten q (here p) g in
      record {
        end = b;
        ends = same ∙ body.ends;
        forward = omega (arith, body.forward);
        kept = Agree-trans p (opened p) (opt_code f p) 0 a o.kept (
            Agree-trans (opened p) q (opt_code f p) 0 a
              (Agree-within (opened p) q 0 (a + 1) 0 a (omega arith) (omega arith) body.kept)
              (fixed 0 a (inr (omega (arith, e)))));
        code = (
          Has-patch_y q (here p) (here q) a b (half_split (a + 1)) e body.ends
              (body.kept.insts a (half_split (a + 1)) o.split (omega arith) (omega arith)),
          moves q (opt_code f p) (a + 1) b body.code (fixed (a + 1) b (inl (omega (arith, e)))),
        );
        even = body.even;
      }

  pub Placed-plus :
      Places (plus_code f) (λ q a b. (m : ℕ) × A q a m × Has q m (split_inst a b) × (b ≡ m + 1))
  Placed-plus p a e ev =
      let body = places p a e ev in
      let q = f p in
      let m = body.end in
      let grown = emit_split q in
      let split = inst_of op_split in
      let once = patch_x grown (here q) (here p) in
      let first : Inst → Inst = λ i. record i { x = some (here p) } in
      let second : Inst → Inst = λ i. record i { y = some (here once) } in
      let after : here once ≡ m + 1 =
        omega (arith, here-rewritten grown (here q) first, here-emit q split, body.ends) in
      let at_m = subst (λ z. Has grown z split) body.ends (Has-emit q split) in
      let half = Has-patch_x grown (here q) (here p) m a split body.ends e at_m in
      let behind : m ≤ here q = omega (arith, body.ends) in
      let kept : Agree q (plus_code f p) 0 m =
        Agree-trans q once (plus_code f p) 0 m
          (Agree-trans q grown once 0 m (Agree-emit q split 0 m)
            (Agree-rewritten grown (here q) first 0 m (inr behind)))
          (Agree-rewritten once (here q) second 0 m (inr behind)) in
      record {
        end = m + 1;
        ends = here-rewritten once (here q) second ∙ after;
        forward = omega (arith, body.forward);
        kept =
            Agree-trans p q (plus_code f p) 0 a body.kept
              (Agree-within q (plus_code f p) 0 m 0 a (omega arith) body.forward kept);
        code = (
          m,
          moves q (plus_code f p) a m body.code
              (Agree-within q (plus_code f p) 0 m a m (omega arith) (omega arith) kept),
          Has-patch_y once (here q) (here once) m (m + 1) (record split { x = some a }) body.ends
              after half,
          refl,
        );
        even = body.even;
      }

  pub Placed-star : Places (star_code f) (λ q a b. Loop q (A q) a b)
  Placed-star p a e ev =
      let o = Opened_lem p a e in
      let body = places (opened p) (a + 1) o.next ev in
      let q = f (opened p) in
      let m = body.end in
      let jmp = inst_of op_jmp in
      let grown = emit_jmp q in
      let back : Inst → Inst = λ i. record i { x = some (here p) } in
      let closed = patch_x grown (here q) (here p) in
      let away : Inst → Inst = λ i. record i { y = some (here closed) } in
      let after : here closed ≡ m + 1 =
        omega (arith, here-rewritten grown (here q) back, here-emit q jmp, body.ends) in
      let at_m = subst (λ z. Has grown z jmp) body.ends (Has-emit q jmp) in
      let jumps = Has-patch_x grown (here q) (here p) m a jmp body.ends e at_m in
      let behind : m ≤ here q = omega (arith, body.ends) in
      let kept : Agree q closed 0 m =
        Agree-trans q grown closed 0 m (Agree-emit q jmp 0 m)
          (Agree-rewritten grown (here q) back 0 m (inr behind)) in
      let choice =
        kept.insts a (half_split (a + 1))
          (body.kept.insts a (half_split (a + 1)) o.split (omega arith) (omega arith)) (omega arith)
          (omega (arith, body.forward)) in
      let low : (z : ℕ) → a < z → here p < z = λ z l. omega (arith, e) in
      record {
        end = m + 1;
        ends = here-rewritten closed (here p) away ∙ after;
        forward = omega (arith, body.forward);
        kept = Agree-trans p (opened p) (star_code f p) 0 a o.kept (
            Agree-trans (opened p) q (star_code f p) 0 a
              (Agree-within (opened p) q 0 (a + 1) 0 a (omega arith) (omega arith) body.kept)
              (Agree-trans q closed (star_code f p) 0 a
                (Agree-within q closed 0 m 0 a (omega arith) (omega (arith, body.forward)) kept)
                (Agree-rewritten closed (here p) away 0 a (inr (omega (arith, e))))));
        code = (
          m,
          Has-patch_y closed (here p) (here closed) a (m + 1) (half_split (a + 1)) e after choice,
          moves q (star_code f p) (a + 1) m body.code (
              Agree-trans q closed (star_code f p) (a + 1) m
                (Agree-within q closed 0 m (a + 1) m (omega arith) (omega arith) kept)
                (Agree-rewritten closed (here p) away (a + 1) m (inl (low (a + 1) (omega arith))))),
          (Agree-rewritten closed (here p) away m (m + 1)
                (inl (low m (omega (arith, body.forward))))).insts
              m _ jumps (omega arith) (omega arith),
          refl,
        );
        even = body.even;
      }

  pub Placed-Copies : (n : ℕ) → Places (mandatory_copies n f) (λ q a b. Copies (A q) n a b)
  unfolding mandatory_copies
  Placed-Copies zero p a e ev = record {
    end = a;
    ends = e;
    forward = omega arith;
    kept = Agree-refl p 0 a;
    code = refl;
    even = ev;
  }
  Placed-Copies (suc n) p a e ev =
      let one = places p a e ev in
      let rest = Placed-Copies n (f p) one.end one.ends one.even in
      let q = mandatory_copies n f (f p) in
      record {
        end = rest.end;
        ends = rest.ends;
        forward = omega (arith, one.forward, rest.forward);
        kept =
            Agree-trans p (f p) q 0 a one.kept
              (Agree-within (f p) q 0 one.end 0 a (omega arith) one.forward rest.kept);
        code = (
          one.end,
          moves (f p) q a one.end one.code
              (Agree-within (f p) q 0 one.end a one.end (omega arith) (omega arith) rest.kept),
          rest.code,
        );
        even = rest.even;
      }
