-- ===== src/Regex/Compiler/OneOf.antt =====
-- The compiler puts the code of each node behind what is there: one alternative before the others.
use lumiere.Common.{
  ℕ, ◌+◌, ◌≤◌, ◌<◌, ◌≡◌, ◌⊎◌, some, List, [], ◌∷◌, ◌++◌, All, arith, sym, ◌∙◌, inl, inr,
}
use mathlib.Core.Path.{subst}
use lumiere.Regex.{op_jmp, Inst, RegexProgram}
use lumiere.Regex.Compiler.{here, inst_of, emit_jmp, patch_y, patch_all_x}
use lumiere.Regex.Compiler.Code.{Has, jmp_inst, split_inst}
use lumiere.Regex.Compiler.Code.Extends.{Agree, Agree-within}
use lumiere.Regex.Compiler.Patches.{
  here-rewritten, here-emit, Has-emit, Has-patch_y, Agree-trans, Agree-emit, Agree-rewritten,
  IsEven,
}
use lumiere.Regex.Compiler.PatchAll.{Outside, All-append, All-map, Agree-patch_all_x}
use lumiere.Regex.Compiler.Places.{Places, Moves, opened, half_split, Opened_lem}
use lumiere.Regex.Compiler.Choices.{Half, Has-patched_x, append_again}

-- The code of an alternative, of the jump behind it and of the others.
abbrev pub OneOf :
    (RegexProgram → ℕ → ℕ → Type 0)
    → (RegexProgram → ℕ → ℕ → Type 0)
    → RegexProgram
    → ℕ
    → ℕ
    → Type 0
OneOf A C r a end =
    (m : ℕ) × Has r a (split_inst (a + 1) (m + 1))
    × A r (a + 1) m
    × Has r m (jmp_inst end)
    × C r (m + 1) end

module _ (f : RegexProgram → RegexProgram) (A : RegexProgram → ℕ → ℕ → Type 0) (places : Places f A)
    (moves : Moves A) (others : RegexProgram → List ℕ → RegexProgram × List ℕ)
    (C : RegexProgram → ℕ → ℕ → Type 0)
    (halves : (p : RegexProgram) (a : ℕ) (patches : List ℕ)
      → here p ≡ a
      → All (λ (k : ℕ). k < a) patches
      → IsEven p
      → Half patch_all_x p a patches (others p patches) C) where
  abbrev before_others : RegexProgram → RegexProgram
  before_others p = let left = emit_jmp (f (opened p)) in patch_y left (here p) (here left)

  pub Half-one :
      (p : RegexProgram) (a : ℕ) (patches : List ℕ)
      → here p ≡ a
      → All (λ (k : ℕ). k < a) patches
      → IsEven p
      → Half patch_all_x p a patches
          (others (before_others p) (patches ++ here (f (opened p)) ∷ []))
          (OneOf A C)
  Half-one p a patches e low ev =
      let o = Opened_lem p a e in
      let body = places (opened p) (a + 1) o.next ev in
      let q = f (opened p) in
      let m = body.end in
      let jmp = inst_of op_jmp in
      let left = emit_jmp q in
      let away : Inst → Inst = λ i. record i { y = some (here left) } in
      let ready = before_others p in
      let after : here left ≡ m + 1 = omega (arith, here-emit q jmp, body.ends) in
      let lower : All (λ (k : ℕ). k < m + 1) (patches ++ here q ∷ []) =
        All-append (λ (k : ℕ). k < m + 1) patches (here q ∷ [])
          (All-map (λ (k : ℕ). k < a) (λ (k : ℕ). k < m + 1) patches
            (λ k h. omega (arith, body.forward)) low)
          (omega (arith, body.ends), tt) in
      let rest =
        halves ready (m + 1) (patches ++ here q ∷ []) (here-rewritten left (here p) away ∙ after)
          lower body.even in
      let last = (others ready (patches ++ here q ∷ [])).0 in
      let ps = (others ready (patches ++ here q ∷ [])).1 in
      let r = patch_all_x last ps rest.end in
      let far =
        All-map (λ (k : ℕ). m + 1 ≤ k) (λ (k : ℕ). (k < a) ⊎ (m ≤ k)) rest.new
          (λ k h. inr (omega arith)) rest.behind in
      let patched : Agree last r a m = Agree-patch_all_x last ps rest.end a m (
        subst (Outside a m) (sym rest.is) (
          All-append (λ (k : ℕ). (k < a) ⊎ (m ≤ k)) (patches ++ here q ∷ []) rest.new
            (All-append (λ (k : ℕ). (k < a) ⊎ (m ≤ k)) patches (here q ∷ [])
              (All-map (λ (k : ℕ). k < a) (λ (k : ℕ). (k < a) ⊎ (m ≤ k)) patches (λ k h. inl h) low)
              (inr (omega (arith, body.ends)), tt))
            far)) in
      let to_left : (c d : ℕ) → Agree q left c d = λ c d. Agree-emit q jmp c d in
      let half =
        (to_left a (a + 1)).insts a (half_split (a + 1))
          (body.kept.insts a (half_split (a + 1)) o.split (omega arith) (omega arith)) (omega arith)
          (omega arith) in
      let choice =
        Has-patch_y left (here p) (here left) a (m + 1) (half_split (a + 1)) e after half in
      let jumps = subst (λ z. Has left z jmp) body.ends (Has-emit q jmp) in
      let jumps_ready =
        (Agree-rewritten left (here p) away m (m + 1) (inl (omega (arith, e, body.forward)))).insts
          m jmp jumps (omega arith) (omega arith) in
      let jumps_last = rest.kept.insts m jmp jumps_ready (omega arith) (omega arith) in
      let code_ready : Agree q ready (a + 1) m =
        Agree-trans q left ready (a + 1) m (to_left (a + 1) m)
          (Agree-rewritten left (here p) away (a + 1) m (inl (omega (arith, e)))) in
      let code_last : Agree ready last (a + 1) m =
        Agree-within ready last 0 (m + 1) (a + 1) m (omega arith) (omega arith) rest.kept in
      record {
        end = rest.end;
        ends = rest.ends;
        forward = omega (arith, body.forward, rest.forward);
        kept = Agree-trans p (opened p) last 0 a o.kept (
            Agree-trans (opened p) q last 0 a
              (Agree-within (opened p) q 0 (a + 1) 0 a (omega arith) (omega arith) body.kept)
              (Agree-trans q left last 0 a (to_left 0 a) (
                Agree-trans left ready last 0 a
                  (Agree-rewritten left (here p) away 0 a (inr (omega (arith, e))))
                  (Agree-within ready last 0 (m + 1) 0 a (omega arith) (omega (arith, body.forward))
                    rest.kept))));
        new = here q ∷ rest.new;
        is = rest.is ∙ append_again patches (here q ∷ []) rest.new;
        behind = (
          omega (arith, body.ends, body.forward),
          All-map (λ (k : ℕ). m + 1 ≤ k) (λ (k : ℕ). a ≤ k) rest.new
              (λ k h. omega (arith, body.forward)) rest.behind,
        );
        code = (
          m,
          patched.insts a (split_inst (a + 1) (m + 1))
              (rest.kept.insts a (split_inst (a + 1) (m + 1)) choice (omega arith)
                (omega (arith, body.forward)))
              (omega arith) (omega (arith, body.forward)),
          moves q r (a + 1) m body.code (
              Agree-trans q ready r (a + 1) m code_ready (
                Agree-trans ready last r (a + 1) m code_last
                  (Agree-within last r a m (a + 1) m (omega arith) (omega arith) patched))),
          Has-patched_x last ps patches rest.new rest.end (here q) m jmp body.ends rest.is
              (All-map (λ (k : ℕ). k < a) (λ (k : ℕ). k < m) patches
                (λ k h. omega (arith, body.forward)) low)
              (All-map (λ (k : ℕ). m + 1 ≤ k) (λ (k : ℕ). m < k) rest.new (λ k h. omega arith)
                rest.behind)
              jumps_last,
          rest.code,
        );
        even = rest.even;
      }
