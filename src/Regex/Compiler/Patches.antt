-- ===== src/Regex/Compiler/Patches.antt =====
-- What emitting and patching instructions leave as it is.
use lumiere.Common.{
  ℕ, zero, suc, ◌+◌, ◌≤◌, ◌<◌, ◌≡◌, refl, ◌≢◌, ◌⊎◌, some, List, [], ◌∷◌, ◌++◌, length,
  length-append, get_elem?, arith, sym, ap, inl, inr,
}
use mathlib.Core.Path.{subst}
use mathlib.Core.Option.{some-injective}
use lumiere.Regex.{Inst, RegexProgram}
use lumiere.Regex.Compiler.{here, emit, change, patch_x, patch_y}
use lumiere.Regex.Compiler.Code.{Has}
use lumiere.Regex.Compiler.Code.Extends.{Agree}

-- Both tables of the classes have the same length.
abbrev pub IsEven : RegexProgram → Type 0
IsEven p = length p.class_negated ≡ length p.classes

abbrev pub rewritten : RegexProgram → ℕ → (Inst → Inst) → RegexProgram
rewritten p k f = record p { instructions = change p.instructions k f }

pub get_elem?-append {ℓ} :
    {A : Type ℓ} (xs ys : List A) (i : ℕ) (x : A)
    → get_elem? xs i ≡ some x
    → get_elem? (xs ++ ys) i ≡ some x
get_elem?-append [] ys i x h = absurd (cc)
get_elem?-append (z ∷ zs) ys zero x h = h
get_elem?-append (z ∷ zs) ys (suc i) x h = get_elem?-append zs ys i x h

pub get_elem?-end {ℓ} :
    {A : Type ℓ} (xs : List A) (x : A) → get_elem? (xs ++ x ∷ []) (length xs) ≡ some x
get_elem?-end [] x = refl
get_elem?-end (z ∷ zs) x = get_elem?-end zs x

pub get_elem?-under {ℓ} :
    {A : Type ℓ} (xs : List A) (i : ℕ) (x : A) → get_elem? xs i ≡ some x → i < length xs
get_elem?-under [] i x h = absurd (cc)
get_elem?-under (z ∷ zs) zero x h = omega arith
get_elem?-under (z ∷ zs) (suc i) x h = omega (arith, get_elem?-under zs i x h)

length-change : (xs : List Inst) (k : ℕ) (f : Inst → Inst) → length (change xs k f) ≡ length xs
unfolding change
length-change [] k f = refl
length-change (x ∷ xs) zero f = refl
length-change (x ∷ xs) (suc k) f = ap suc (length-change xs k f)

change_here :
    (xs : List Inst) (k : ℕ) (f : Inst → Inst) (x : Inst)
    → get_elem? xs k ≡ some x
    → get_elem? (change xs k f) k ≡ some (f x)
unfolding change
change_here [] k f x h = absurd (cc)
change_here (y ∷ ys) zero f x h = ap (λ (i : Inst). some (f i)) (some-injective y x h)
change_here (y ∷ ys) (suc k) f x h = change_here ys k f x h

change_other :
    (xs : List Inst) (k i : ℕ) (f : Inst → Inst) (x : Inst)
    → i ≢ k
    → get_elem? xs i ≡ some x
    → get_elem? (change xs k f) i ≡ some x
unfolding change
change_other [] k i f x apart h = h
change_other (y ∷ ys) zero zero f x apart h = absurd (apart refl)
change_other (y ∷ ys) zero (suc i) f x apart h = h
change_other (y ∷ ys) (suc k) zero f x apart h = h
change_other (y ∷ ys) (suc k) (suc i) f x apart h =
    change_other ys k i f x (λ e. apart (ap suc e)) h

pub here-rewritten : (p : RegexProgram) (k : ℕ) (f : Inst → Inst) → here (rewritten p k f) ≡ here p
here-rewritten p k f = length-change p.instructions k f

pub here-emit : (p : RegexProgram) (inst : Inst) → here (emit p inst) ≡ here p + 1
here-emit p inst = omega (arith, length-append p.instructions (inst ∷ []))

pub Has-emit : (p : RegexProgram) (inst : Inst) → Has (emit p inst) (here p) inst
Has-emit p inst = get_elem?-end p.instructions inst

pub Has-rewritten :
    (p : RegexProgram) (k : ℕ) (f : Inst → Inst) (inst : Inst)
    → Has p k inst
    → Has (rewritten p k f) k (f inst)
Has-rewritten p k f inst h = change_here p.instructions k f inst h

pub Agree-refl : (p : RegexProgram) (a b : ℕ) → Agree p p a b
Agree-refl p a b = record { insts = λ i inst h _ _. h; classes = λ k r h. h; negated = λ k f h. h }

pub Agree-trans : (p q r : RegexProgram) (a b : ℕ) → Agree p q a b → Agree q r a b → Agree p r a b
Agree-trans p q r a b g h = record {
  insts = λ i inst k l u. h.insts i inst (g.insts i inst k l u) l u;
  classes = λ k c e. h.classes k c (g.classes k c e);
  negated = λ k c e. h.negated k c (g.negated k c e);
}

pub Agree-emit : (p : RegexProgram) (inst : Inst) (a b : ℕ) → Agree p (emit p inst) a b
Agree-emit p inst a b = record {
  insts = λ i x h l u. get_elem?-append p.instructions (inst ∷ []) i x h;
  classes = λ k c e. e;
  negated = λ k c e. e;
}

-- A rewriting outside a stretch leaves it.
pub Agree-rewritten :
    (p : RegexProgram) (k : ℕ) (f : Inst → Inst) (a b : ℕ)
    → (k < a) ⊎ (b ≤ k)
    → Agree p (rewritten p k f) a b
Agree-rewritten p k f a b outside = record {
  insts = λ i x h l u.
      change_other p.instructions k i f x
        (λ e. elim outside [ inl before ↦ omega arith | inr behind ↦ omega arith ]) h;
  classes = λ k c e. e;
  negated = λ k c e. e;
}

pub Has-patch_x :
    (q : RegexProgram) (k target a b : ℕ) (inst : Inst)
    → k ≡ a
    → target ≡ b
    → Has q a inst
    → Has (patch_x q k target) a (record inst { x = some b })
Has-patch_x q k target a b inst e f h =
    let rewrite : Inst → Inst = λ i. record i { x = some target } in
    let there = subst (λ z. Has q z inst) (sym e) h in
    subst (λ z. Has (patch_x q k target) z (record inst { x = some b })) e
      (subst (λ z. Has (patch_x q k target) k (record inst { x = some z })) f
        (Has-rewritten q k rewrite inst there))

pub Has-patch_y :
    (q : RegexProgram) (k target a b : ℕ) (inst : Inst)
    → k ≡ a
    → target ≡ b
    → Has q a inst
    → Has (patch_y q k target) a (record inst { y = some b })
Has-patch_y q k target a b inst e f h =
    let rewrite : Inst → Inst = λ i. record i { y = some target } in
    let there = subst (λ z. Has q z inst) (sym e) h in
    subst (λ z. Has (patch_y q k target) z (record inst { y = some b })) e
      (subst (λ z. Has (patch_y q k target) k (record inst { y = some z })) f
        (Has-rewritten q k rewrite inst there))
