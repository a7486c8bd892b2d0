-- ===== src/Regex/Compiler/Choices.antt =====
-- The compiler puts the code of each node behind what is there: choices that leave for one end.
use lumiere.Common.{
  ℕ, zero, suc, ◌+◌, ◌≤◌, ◌<◌, ◌≡◌, refl, ◌⊎◌, some, List, [], ◌∷◌, ◌++◌, All, arith, sym, ap, ◌∙◌,
  inl, inr,
}
use mathlib.Core.Path.{subst}
use lumiere.Regex.{Inst, RegexProgram}
use lumiere.Regex.Compiler.{here, optional_copies, patch_all_y, patch_all_x}
use lumiere.Regex.Compiler.Code.{Has, Optionals}
use lumiere.Regex.Compiler.Code.Extends.{Agree, Agree-within}
use lumiere.Regex.Compiler.Patches.{Agree-refl, Agree-trans, IsEven}
use lumiere.Regex.Compiler.PatchAll.{
  Outside, All-append, All-map, Agree-patch_all_y, Has-patch_all_y, Has-patch_all_x,
}
use lumiere.Regex.Compiler.Places.{Places, Moves, opened, half_split, Opened_lem}

pub append_again : (xs ys zs : List ℕ) → (xs ++ ys) ++ zs ≡ xs ++ (ys ++ zs)
append_again [] ys zs = refl
append_again (x ∷ xs) ys zs = ap (λ (l : List ℕ). x ∷ l) (append_again xs ys zs)

pub append_nothing : (xs : List ℕ) → xs ++ [] ≡ xs
append_nothing [] = refl
append_nothing (x ∷ xs) = ap (λ (l : List ℕ). x ∷ l) (append_nothing xs)

-- A choice among those that are patched at the end has its way out afterwards.
Has-patched_y :
    (q : RegexProgram) (patches before after : List ℕ) (target k a : ℕ) (inst : Inst)
    → k ≡ a
    → patches ≡ (before ++ k ∷ []) ++ after
    → All (λ (j : ℕ). j < a) before
    → All (λ (j : ℕ). a < j) after
    → Has q a inst
    → Has (patch_all_y q patches target) a (record inst { y = some target })
Has-patched_y q patches before after target k a inst e is low high h =
    let here_k = subst (λ z. Has q z inst) (sym e) h in
    let done =
      Has-patch_all_y q before after target k inst
        (All-map (λ (j : ℕ). j < a) (λ (j : ℕ). (j < k) ⊎ (k + 1 ≤ j)) before
          (λ j l. inl (omega (arith, e))) low)
        (All-map (λ (j : ℕ). a < j) (λ (j : ℕ). (j < k) ⊎ (k + 1 ≤ j)) after
          (λ j l. inr (omega (arith, e))) high)
        here_k in
    subst (λ (ps : List ℕ). Has (patch_all_y q ps target) a (record inst { y = some target }))
      (sym is)
      (subst
        (λ (z : ℕ).
          Has (patch_all_y q ((before ++ k ∷ []) ++ after) target) z
            (record inst { y = some target }))
        e done)

-- and a jump
pub Has-patched_x :
    (q : RegexProgram) (patches before after : List ℕ) (target k a : ℕ) (inst : Inst)
    → k ≡ a
    → patches ≡ (before ++ k ∷ []) ++ after
    → All (λ (j : ℕ). j < a) before
    → All (λ (j : ℕ). a < j) after
    → Has q a inst
    → Has (patch_all_x q patches target) a (record inst { x = some target })
Has-patched_x q patches before after target k a inst e is low high h =
    let here_k = subst (λ z. Has q z inst) (sym e) h in
    let done =
      Has-patch_all_x q before after target k inst
        (All-map (λ (j : ℕ). j < a) (λ (j : ℕ). (j < k) ⊎ (k + 1 ≤ j)) before
          (λ j l. inl (omega (arith, e))) low)
        (All-map (λ (j : ℕ). a < j) (λ (j : ℕ). (j < k) ⊎ (k + 1 ≤ j)) after
          (λ j l. inr (omega (arith, e))) high)
        here_k in
    subst (λ (ps : List ℕ). Has (patch_all_x q ps target) a (record inst { x = some target }))
      (sym is)
      (subst
        (λ (z : ℕ).
          Has (patch_all_x q ((before ++ k ∷ []) ++ after) target) z
            (record inst { x = some target }))
        e done)

-- Copies whose way out is still to be patched.
pub record Half (patch : RegexProgram → List ℕ → ℕ → RegexProgram) (p : RegexProgram) (a : ℕ)
    (patches : List ℕ) (result : RegexProgram × List ℕ) (C : RegexProgram → ℕ → ℕ → Type 0)
    : Type 0 where
  pub end : ℕ
  pub ends : here result.0 ≡ end
  pub forward : a ≤ end
  pub kept : Agree p result.0 0 a
  pub new : List ℕ
  pub is : result.1 ≡ patches ++ new
  pub behind : All (λ (k : ℕ). a ≤ k) new
  pub code : C (patch result.0 result.1 end) a end
  pub even : IsEven result.0

module _ (f : RegexProgram → RegexProgram) (A : RegexProgram → ℕ → ℕ → Type 0) (places : Places f A)
    (moves : Moves A) where
  pub Half-Optionals :
      (n : ℕ) (p : RegexProgram) (a : ℕ) (patches : List ℕ)
      → here p ≡ a
      → All (λ (k : ℕ). k < a) patches
      → IsEven p
      → Half patch_all_y p a patches
          (optional_copies n f p patches)
          (λ r c d. Optionals r (A r) n c d)
  unfolding optional_copies
  Half-Optionals zero p a patches e low ev = record {
    end = a;
    ends = e;
    forward = omega arith;
    kept = Agree-refl p 0 a;
    new = [];
    is = sym (append_nothing patches);
    behind = tt;
    code = refl;
    even = ev;
  }
  Half-Optionals (suc n) p a patches e low ev =
      let o = Opened_lem p a e in
      let body = places (opened p) (a + 1) o.next ev in
      let m = body.end in
      let split = here p in
      let lower : All (λ (k : ℕ). k < m) (patches ++ split ∷ []) =
        All-append (λ (k : ℕ). k < m) patches (split ∷ [])
          (All-map (λ (k : ℕ). k < a) (λ (k : ℕ). k < m) patches
            (λ k h. omega (arith, body.forward)) low)
          (omega (arith, e, body.forward), tt) in
      let rest =
        Half-Optionals n (f (opened p)) m (patches ++ split ∷ []) body.ends lower body.even in
      let q = (optional_copies n f (f (opened p)) (patches ++ split ∷ [])).0 in
      let ps = (optional_copies n f (f (opened p)) (patches ++ split ∷ [])).1 in
      let r = patch_all_y q ps rest.end in
      let g : Agree (opened p) q 0 (a + 1) =
        Agree-trans (opened p) (f (opened p)) q 0 (a + 1) body.kept
          (Agree-within (f (opened p)) q 0 m 0 (a + 1) (omega arith) body.forward rest.kept) in
      let patched : Agree q r (a + 1) m = Agree-patch_all_y q ps rest.end (a + 1) m (
        subst (Outside (a + 1) m) (sym rest.is) (
          All-append (λ (k : ℕ). (k < a + 1) ⊎ (m ≤ k)) (patches ++ split ∷ []) rest.new
            (All-append (λ (k : ℕ). (k < a + 1) ⊎ (m ≤ k)) patches (split ∷ [])
              (All-map (λ (k : ℕ). k < a) (λ (k : ℕ). (k < a + 1) ⊎ (m ≤ k)) patches
                (λ k h. inl (omega arith)) low)
              (inl (omega (arith, e)), tt))
            (All-map (λ (k : ℕ). m ≤ k) (λ (k : ℕ). (k < a + 1) ⊎ (m ≤ k)) rest.new (λ k h. inr h)
              rest.behind))) in
      record {
        end = rest.end;
        ends = rest.ends;
        forward = omega (arith, body.forward, rest.forward);
        kept =
            Agree-trans p (opened p) q 0 a o.kept
              (Agree-within (opened p) q 0 (a + 1) 0 a (omega arith) (omega arith) g);
        new = split ∷ rest.new;
        is = rest.is ∙ append_again patches (split ∷ []) rest.new;
        behind = (
          omega (arith, e),
          All-map (λ (k : ℕ). m ≤ k) (λ (k : ℕ). a ≤ k) rest.new
              (λ k h. omega (arith, body.forward)) rest.behind,
        );
        code = (
          m,
          Has-patched_y q ps patches rest.new rest.end split a (half_split (a + 1)) e rest.is low
              (All-map (λ (k : ℕ). m ≤ k) (λ (k : ℕ). a < k) rest.new
                (λ k h. omega (arith, body.forward)) rest.behind)
              (g.insts a (half_split (a + 1)) o.split (omega arith) (omega arith)),
          moves (f (opened p)) r (a + 1) m body.code (
              Agree-trans (f (opened p)) q r (a + 1) m
                (Agree-within (f (opened p)) q 0 m (a + 1) m (omega arith) (omega arith) rest.kept)
                patched),
          rest.code,
        );
        even = rest.even;
      }
