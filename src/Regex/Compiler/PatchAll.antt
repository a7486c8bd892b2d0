-- ===== src/Regex/Compiler/PatchAll.antt =====
-- Patching a list of instructions at the end.
use lumiere.Common.{ℕ, ◌+◌, ◌≤◌, ◌<◌, ◌≡◌, refl, ◌⊎◌, some, List, [], ◌∷◌, ◌++◌, All, arith, ◌∙◌}
use lumiere.Regex.{Inst, RegexProgram}
use lumiere.Regex.Compiler.{here, patch_x, patch_y, patch_all_x, patch_all_y}
use lumiere.Regex.Compiler.Code.{Has}
use lumiere.Regex.Compiler.Code.Extends.{Agree}
use lumiere.Regex.Compiler.Patches.{
  here-rewritten, Has-patch_x, Has-patch_y, Agree-refl, Agree-trans, Agree-rewritten, IsEven,
}

-- Each index lies outside a stretch.
abbrev pub Outside : ℕ → ℕ → List ℕ → Type 0
Outside a b = All (λ (k : ℕ). (k < a) ⊎ (b ≤ k))

pub All-append {κ} : (P : ℕ → Type κ) (xs ys : List ℕ) → All P xs → All P ys → All P (xs ++ ys)
All-append P [] ys all more = more
All-append P (x ∷ xs) ys (one, all) more = (one, All-append P xs ys all more)

pub All-map {κ μ} :
    (P : ℕ → Type κ) (Q : ℕ → Type μ) (xs : List ℕ) → ((x : ℕ) → P x → Q x) → All P xs → All Q xs
All-map P Q [] f all = tt
All-map P Q (x ∷ xs) f (one, all) = (f x one, All-map P Q xs f all)

pub here-patch_all_x :
    (q : RegexProgram) (patches : List ℕ) (target : ℕ)
    → here (patch_all_x q patches target) ≡ here q
unfolding patch_all_x
here-patch_all_x q [] target = refl
here-patch_all_x q (k ∷ ks) target =
    here-patch_all_x (patch_x q k target) ks target
    ∙ here-rewritten q k (λ i. record i { x = some target })

pub Agree-patch_all_x :
    (q : RegexProgram) (patches : List ℕ) (target a b : ℕ)
    → Outside a b patches
    → Agree q (patch_all_x q patches target) a b
unfolding patch_all_x
Agree-patch_all_x q [] target a b out = Agree-refl q a b
Agree-patch_all_x q (k ∷ ks) target a b (one, out) =
    Agree-trans q (patch_x q k target) (patch_all_x (patch_x q k target) ks target) a b
      (Agree-rewritten q k (λ i. record i { x = some target }) a b one)
      (Agree-patch_all_x (patch_x q k target) ks target a b out)

-- An index that is met once is patched.
pub Has-patch_all_x :
    (q : RegexProgram) (before after : List ℕ) (target k : ℕ) (inst : Inst)
    → Outside k (k + 1) before
    → Outside k (k + 1) after
    → Has q k inst
    → Has (patch_all_x q ((before ++ k ∷ []) ++ after) target) k (record inst { x = some target })
unfolding patch_all_x
Has-patch_all_x q [] after target k inst out later h =
    (Agree-patch_all_x (patch_x q k target) after target k (k + 1) later).insts k _
      (Has-patch_x q k target k target inst refl refl h) (omega arith) (omega arith)
Has-patch_all_x q (j ∷ js) after target k inst (one, out) later h =
    Has-patch_all_x (patch_x q j target) js after target k inst out later (
      (Agree-rewritten q j (λ i. record i { x = some target }) k (k + 1) one).insts k inst h
        (omega arith) (omega arith))

pub here-patch_all_y :
    (q : RegexProgram) (patches : List ℕ) (target : ℕ)
    → here (patch_all_y q patches target) ≡ here q
unfolding patch_all_y
here-patch_all_y q [] target = refl
here-patch_all_y q (k ∷ ks) target =
    here-patch_all_y (patch_y q k target) ks target
    ∙ here-rewritten q k (λ i. record i { y = some target })

pub Agree-patch_all_y :
    (q : RegexProgram) (patches : List ℕ) (target a b : ℕ)
    → Outside a b patches
    → Agree q (patch_all_y q patches target) a b
unfolding patch_all_y
Agree-patch_all_y q [] target a b out = Agree-refl q a b
Agree-patch_all_y q (k ∷ ks) target a b (one, out) =
    Agree-trans q (patch_y q k target) (patch_all_y (patch_y q k target) ks target) a b
      (Agree-rewritten q k (λ i. record i { y = some target }) a b one)
      (Agree-patch_all_y (patch_y q k target) ks target a b out)

-- An index that is met once is patched.
pub Has-patch_all_y :
    (q : RegexProgram) (before after : List ℕ) (target k : ℕ) (inst : Inst)
    → Outside k (k + 1) before
    → Outside k (k + 1) after
    → Has q k inst
    → Has (patch_all_y q ((before ++ k ∷ []) ++ after) target) k (record inst { y = some target })
unfolding patch_all_y
Has-patch_all_y q [] after target k inst out later h =
    (Agree-patch_all_y (patch_y q k target) after target k (k + 1) later).insts k _
      (Has-patch_y q k target k target inst refl refl h) (omega arith) (omega arith)
Has-patch_all_y q (j ∷ js) after target k inst (one, out) later h =
    Has-patch_all_y (patch_y q j target) js after target k inst out later (
      (Agree-rewritten q j (λ i. record i { y = some target }) k (k + 1) one).insts k inst h
        (omega arith) (omega arith))

pub IsEven-patch_all_x :
    (q : RegexProgram) (patches : List ℕ) (target : ℕ)
    → IsEven q
    → IsEven (patch_all_x q patches target)
unfolding patch_all_x
IsEven-patch_all_x q [] target e = e
IsEven-patch_all_x q (k ∷ ks) target e = IsEven-patch_all_x (patch_x q k target) ks target e

pub IsEven-patch_all_y :
    (q : RegexProgram) (patches : List ℕ) (target : ℕ)
    → IsEven q
    → IsEven (patch_all_y q patches target)
unfolding patch_all_y
IsEven-patch_all_y q [] target e = e
IsEven-patch_all_y q (k ∷ ks) target e = IsEven-patch_all_y (patch_y q k target) ks target e
