-- ===== src/Regex/Complete.antt =====
-- Every match of a node is spelled by a way through its code.
use lumiere.Common.{ℕ, zero, suc, ◌+◌, ◌-◌, ◌*◌, ◌≡◌, refl, none, some, List, sym, inl, inr}
use mathlib.Core.Path.{subst}
use lumiere.Regex.{
  RegexNode, literal, any, class, concat, alt, star, plus, opt, repeat, group, anchor_start,
  anchor_end, RegexNodes, no_nodes, nodes, Inst, RegexProgram, op_any, op_bol, op_eol,
}
use lumiere.Regex.Compiler.{inst_of}
use lumiere.Regex.Compiler.Code.{
  Has, Code, CodeAll, CodeAlternatives, Copies, Optionals, Loop, char_inst, class_inst, save_inst,
  jmp_inst, split_inst,
}
use lumiere.Regex.Paths.{Matches, MatchesAll, MatchesAny, Star, done, more, Times, UpTo, Next, Way}

module _ (text : List ℕ) (q : RegexProgram) where
  -- a way of some number of steps
  abbrev pub Runs : ℕ → ℕ → ℕ → ℕ → Type 0
  Runs a i b j = (steps : ℕ) × Way text q b j steps a i

  pub Runs-refl : (a i : ℕ) → Runs a i a i
  Runs-refl a i = (0, (refl, refl))

  pub Runs-at : (a i b j c : ℕ) → b ≡ c → Runs a i b j → Runs a i c j
  Runs-at a i b j c e r = subst (λ z. Runs a i z j) e r

  Way-then : (k a i b j c l : ℕ) → Way text q b j k a i → Runs b j c l → Runs a i c l
  Way-then zero a i b j c l (e, f) r =
      subst (λ z. Runs z i c l) (sym e) (subst (λ z. Runs b z c l) (sym f) r)
  Way-then (suc k) a i b j c l (inst, pc, i', h, next, w) r =
      let (steps, rest) = Way-then k pc i' b j c l w r in (suc steps, (inst, pc, i', h, next, rest))

  pub Runs-trans : (a i b j c l : ℕ) → Runs a i b j → Runs b j c l → Runs a i c l
  Runs-trans a i b j c l (k, w) r = Way-then k a i b j c l w r

  pub Runs-step :
      (a i b j : ℕ) (inst : Inst) → Has q a inst → Next text q inst.op inst a i b j → Runs a i b j
  Runs-step a i b j inst h next = (1, (inst, b, j, h, next, (refl, refl)))

  abbrev Complete : (ℕ → ℕ → Type 0) → (ℕ → ℕ → Type 0) → Type 0
  Complete P M = (a b : ℕ) → P a b → (i j : ℕ) → M i j → Runs a i b j

  module _ (P M : ℕ → ℕ → Type 0) (complete : Complete P M) where
    Copies-complete : (n : ℕ) → Complete (Copies P n) (Times M n)
    Copies-complete zero a b e i j f =
        subst (λ z. Runs a i z j) e (subst (λ z. Runs a i a z) f (Runs-refl a i))
    Copies-complete (suc n) a b (m, c, rest) i j (k, one, others) =
        Runs-trans a i m k b j (complete a m c i k one) (Copies-complete n m b rest k j others)

    -- The first choice is left for the end.
    Optionals-leave : (n a b : ℕ) → Optionals q P n a b → (i : ℕ) → Runs a i b i
    Optionals-leave zero a b e i = Runs-at a i a i b e (Runs-refl a i)
    Optionals-leave (suc n) a b (m, h, c, rest) i =
        Runs-step a i b i (split_inst (a + 1) b) h (inr refl, refl)

    Optionals-complete : (n : ℕ) → Complete (Optionals q P n) (UpTo M n)
    Optionals-complete zero a b e i j f =
        subst (λ z. Runs a i z j) e (subst (λ z. Runs a i a z) f (Runs-refl a i))
    Optionals-complete (suc n) a b code i j (inl same) =
        subst (λ z. Runs a i b z) same (Optionals-leave (suc n) a b code i)
    Optionals-complete (suc n) a b (m, h, c, rest) i j (inr (k, one, others)) =
        Runs-trans a i (a + 1) i b j
          (Runs-step a i (a + 1) i (split_inst (a + 1) b) h (inl refl, refl))
          (Runs-trans (a + 1) i m k b j (complete (a + 1) m c i k one)
            (Optionals-complete n m b rest k j others))

    Loop-complete : (a b : ℕ) → Loop q P a b → (i j : ℕ) → Star M i j → Runs a i b j
    Loop-complete a b (m, h, c, jumps, e) i j done =
        Runs-step a i b i (split_inst (a + 1) b) h (inr refl, refl)
    Loop-complete a b (m, h, c, jumps, e) i j (more {j = k} one others) =
        Runs-trans a i (a + 1) i b j
          (Runs-step a i (a + 1) i (split_inst (a + 1) b) h (inl refl, refl))
          (Runs-trans (a + 1) i m k b j (complete (a + 1) m c i k one) (
            Runs-trans m k a k b j (Runs-step m k a k (jmp_inst a) jumps (refl, refl))
              (Loop-complete a b (m, h, c, jumps, e) k j others)))

    Plus-complete :
        (a b m : ℕ)
        → P a m
        → Has q m (split_inst a b)
        → (i k j : ℕ) → M i k
        → Star M k j
        → Runs a i b j
    Plus-complete a b m c h i k j one done =
        Runs-trans a i m k b k (complete a m c i k one)
          (Runs-step m k b k (split_inst a b) h (inr refl, refl))
    Plus-complete a b m c h i k j one (more {j = l} two others) =
        Runs-trans a i m k b j (complete a m c i k one) (
          Runs-trans m k a k b j (Runs-step m k a k (split_inst a b) h (inl refl, refl))
            (Plus-complete a b m c h k l j two others))

  mutual
    unfolding Code CodeAll CodeAlternatives Matches MatchesAll MatchesAny

    pub Code-complete : (n : RegexNode) → Complete (Code q n) (Matches text n)
    Code-complete (literal c) a b (h, e) i j (read, f) =
        Runs-step a i b j (char_inst c) h (read, e, f)
    Code-complete any a b (h, e) i j (c, read, f) =
        Runs-step a i b j (inst_of op_any) h ((c, read), e, f)
    Code-complete (class negated ranges) a b (k, h, c, f, e) i j (ch, read, holds, g) =
        Runs-step a i b j (class_inst k) h ((ch, k, ranges, negated, read, refl, c, f, holds), e, g)
    Code-complete (concat children) a b c i j m = CodeAll-complete children a b c i j m
    Code-complete (alt alternatives) a b c i j m =
        CodeAlternatives-complete alternatives a b c i j m
    Code-complete (star child) a b c i j m =
        Loop-complete (Code q child) (Matches text child) (Code-complete child) a b c i j m
    Code-complete (plus child) a b (m, c, h, e) i j (k, one, others) =
        Plus-complete (Code q child) (Matches text child) (Code-complete child) a b m c h i k j one
          others
    Code-complete (opt child) a b (h, c) i j (inl same) =
        Runs-step a i b j (split_inst (a + 1) b) h (inr refl, sym same)
    Code-complete (opt child) a b (h, c) i j (inr one) =
        Runs-trans a i (a + 1) i b j
          (Runs-step a i (a + 1) i (split_inst (a + 1) b) h (inl refl, refl))
          (Code-complete child (a + 1) b c i j one)
    Code-complete (repeat child low none) a b (m, copies, loop) i j (k, one, others) =
        Runs-trans a i m k b j
          (Copies-complete (Code q child) (Matches text child) (Code-complete child) low a m copies
            i k one)
          (Loop-complete (Code q child) (Matches text child) (Code-complete child) m b loop k j
            others)
    Code-complete (repeat child low (some high)) a b (m, copies, optionals) i j (k, one, others) =
        Runs-trans a i m k b j
          (Copies-complete (Code q child) (Matches text child) (Code-complete child) low a m copies
            i k one)
          (Optionals-complete (Code q child) (Matches text child) (Code-complete child) (high - low)
            m b optionals k j others)
    Code-complete (group index child) a b (m, h, c, closing, e) i j one =
        Runs-trans a i (a + 1) i b j
          (Runs-step a i (a + 1) i (save_inst (2 * index)) h (refl, refl))
          (Runs-trans (a + 1) i m j b j (Code-complete child (a + 1) m c i j one)
            (Runs-step m j b j (save_inst (2 * index + 1)) closing (e, refl)))
    Code-complete anchor_start a b (h, e) i j (start, same) =
        Runs-step a i b j (inst_of op_bol) h (start, e, same)
    Code-complete anchor_end a b (h, e) i j (end, same) =
        Runs-step a i b j (inst_of op_eol) h (end, e, same)

    CodeAll-complete : (ns : RegexNodes) → Complete (CodeAll q ns) (MatchesAll text ns)
    CodeAll-complete no_nodes a b e i j f =
        subst (λ z. Runs a i z j) e (subst (λ z. Runs a i a z) f (Runs-refl a i))
    CodeAll-complete (nodes child children) a b (m, c, rest) i j (k, one, others) =
        Runs-trans a i m k b j (Code-complete child a m c i k one)
          (CodeAll-complete children m b rest k j others)

    CodeAlternatives-complete :
        (ns : RegexNodes) → Complete (CodeAlternatives q ns) (MatchesAny text ns)
    CodeAlternatives-complete no_nodes a b e i j f =
        subst (λ z. Runs a i z j) e (subst (λ z. Runs a i a z) f (Runs-refl a i))
    CodeAlternatives-complete (nodes last no_nodes) a b c i j m = Code-complete last a b c i j m
    CodeAlternatives-complete (nodes first (nodes second others)) a b (m, h, c, jumps, rest) i j
          (inl one) =
        Runs-trans a i (a + 1) i b j
          (Runs-step a i (a + 1) i (split_inst (a + 1) (m + 1)) h (inl refl, refl))
          (Runs-trans (a + 1) i m j b j (Code-complete first (a + 1) m c i j one)
            (Runs-step m j b j (jmp_inst b) jumps (refl, refl)))
    CodeAlternatives-complete (nodes first (nodes second others)) a b (m, h, c, jumps, rest) i j
          (inr another) =
        Runs-trans a i (m + 1) i b j
          (Runs-step a i (m + 1) i (split_inst (a + 1) (m + 1)) h (inr refl, refl))
          (CodeAlternatives-complete (nodes second others) (m + 1) b rest i j another)
