-- ===== src/Regex/Sound.antt =====
-- Every way through the code of a node spells a match of the node.
use lumiere.Common.{
  ℕ, zero, suc, ◌+◌, ◌-◌, ◌*◌, ◌≤◌, ◌<◌, ◌≡◌, refl, ◌≢◌, ◌⊎◌, none, some, List, get_elem?, arith,
  sym, ap, ◌∙◌, inl, inr,
}
use mathlib.Core.Option.{some-injective}
use lumiere.Regex.{
  RegexNode, literal, any, class, concat, alt, star, plus, opt, repeat, group, anchor_start,
  anchor_end, RegexNodes, no_nodes, nodes, RegexProgram, op_any, op_bol, op_eol,
}
use lumiere.Regex.Compiler.{inst_of}
use lumiere.Regex.Compiler.Code.{
  Has, Code, CodeAll, CodeAlternatives, Copies, Optionals, Loop, char_inst, class_inst, save_inst,
  jmp_inst, split_inst,
}
use lumiere.Regex.Compiler.Code.Extends.{
  Code-forward, CodeAll-forward, CodeAlternatives-forward, Copies-forward, Optionals-forward,
}
use lumiere.Regex.Paths.{
  Matches, MatchesAll, MatchesAny, Star, done, more, Times, UpTo, Way, Way-at, first_step,
}

module _ (text : List ℕ) (q : RegexProgram) (target stop : ℕ) where
  abbrev Ways : ℕ → ℕ → ℕ → Type 0
  Ways = Way text q target stop

  abbrev Away : ℕ → ℕ → Type 0
  Away a b = (target < a) ⊎ (b ≤ target)

  -- The way goes on at b, behind a match.
  abbrev Leaves : (ℕ → ℕ → Type 0) → ℕ → ℕ → ℕ → Type 0
  Leaves M b k i = (j : ℕ) × (rest : ℕ) × M i j × (rest ≤ k) × Ways rest b j

  abbrev Sound : (ℕ → ℕ → Type 0) → (ℕ → ℕ → Type 0) → Type 0
  Sound P M = (a b : ℕ) → P a b → Away a b → (k i : ℕ) → Ways k a i → Leaves M b k i

  Away-apart : (a b x : ℕ) → a ≤ x → x < b → Away a b → x ≢ target
  Away-apart a b x low high (inl h) e = omega arith
  Away-apart a b x low high (inr h) e = omega arith

  Away-within : (a b c d : ℕ) → a ≤ c → d ≤ b → Away a b → Away c d
  Away-within a b c d low high (inl h) = inl (omega arith)
  Away-within a b c d low high (inr h) = inr (omega arith)

  split_next :
      (a i pc i' one two : ℕ)
      → ((some one ≡ some pc) ⊎ (some two ≡ some pc)) × (i' ≡ i)
      → ((one ≡ pc) ⊎ (two ≡ pc)) × (i' ≡ i)
  split_next a i pc i' one two (inl x, stays) = (inl (some-injective one pc x), stays)
  split_next a i pc i' one two (inr y, stays) = (inr (some-injective two pc y), stays)

  -- A choice goes one of its two ways.
  split_step :
      (a one two k i : ℕ)
      → Has q a (split_inst one two)
      → a ≢ target
      → Ways k a i
      → (rest : ℕ) × (suc rest ≤ k) × (Ways rest one i ⊎ Ways rest two i)
  split_step a one two k i h apart w =
      let (rest, pc, i', less, next, w0) =
        first_step text q target stop k a i (split_inst one two) h apart w in
      let (way, stays) = split_next a i pc i' one two next in
      (
        rest,
        less,
        elim way [
          | inl x ↦ inl (Way-at text q target stop rest pc i' one i (sym x) stays w0)
          | inr y ↦ inr (Way-at text q target stop rest pc i' two i (sym y) stays w0)
        ],
      )

  jmp_step :
      (a to k i : ℕ)
      → Has q a (jmp_inst to)
      → a ≢ target
      → Ways k a i
      → (rest : ℕ) × (suc rest ≤ k) × Ways rest to i
  jmp_step a to k i h apart w =
      let (rest, pc, i', less, (x, stays), w0) =
        first_step text q target stop k a i (jmp_inst to) h apart w in
      (
        rest,
        less,
        Way-at text q target stop rest pc i' to i (sym (some-injective to pc x)) stays w0,
      )

  module _ (P M : ℕ → ℕ → Type 0) (forward : (c d : ℕ) → P c d → c ≤ d) (sound : Sound P M) where
    Copies-sound : (n : ℕ) → Sound (Copies P n) (Times M n)
    Copies-sound zero a b e away k i w =
        (i, k, refl, omega arith, Way-at text q target stop k a i b i e refl w)
    Copies-sound (suc n) a b (m, c, rest) away k i w =
        let first = forward a m c in
        let second = Copies-forward P n m b forward rest in
        let (j, k1, one, less1, w1) =
          sound a m c (Away-within a b a m (omega arith) second away) k i w in
        let (l, k2, others, less2, w2) =
          Copies-sound n m b rest (Away-within a b m b first (omega arith) away) k1 j w1 in
        (l, k2, (j, one, others), omega arith, w2)

    Optionals-sound : (n : ℕ) → Sound (Optionals q P n) (UpTo M n)
    Optionals-sound zero a b e away k i w =
        (i, k, refl, omega arith, Way-at text q target stop k a i b i e refl w)
    Optionals-sound (suc n) a b (m, h, c, rest) away k i w =
        let first = forward (a + 1) m c in
        let second = Optionals-forward q P n m b forward rest in
        let (k0, less, way) =
          split_step a (a + 1) b k i h
            (Away-apart a b a (omega arith) (omega (arith, first, second)) away) w in
        elim way [
          | inl into ↦
              let (j, k1, one, less1, w1) =
                sound (a + 1) m c (Away-within a b (a + 1) m (omega arith) second away) k0 i into in
              let (l, k2, others, less2, w2) =
                Optionals-sound n m b rest
                  (Away-within a b m b (omega (arith, first)) (omega arith) away) k1 j w1 in
              (l, k2, inr (j, one, others), omega arith, w2)
          | inr out ↦ (i, k0, inl refl, omega arith, out)
        ]

    Loop-sound_fuel :
        (fuel a b : ℕ)
        → Loop q P a b
        → Away a b
        → (k i : ℕ) → k < fuel
        → Ways k a i
        → Leaves (Star M) b k i
    Loop-sound_fuel zero a b code away k i enough w = absurd (omega arith)
    Loop-sound_fuel (suc fuel) a b (m, h, c, jumps, end) away k i enough w =
        let first = forward (a + 1) m c in
        let (k0, less, way) =
          split_step a (a + 1) b k i h
            (Away-apart a b a (omega arith) (omega (arith, first, end)) away) w in
        elim way [
          | inr out ↦ (i, k0, done, omega arith, out)
          | inl into ↦
              let (j, k1, one, less1, w1) =
                sound (a + 1) m c
                  (Away-within a b (a + 1) m (omega arith) (omega (arith, end)) away) k0 i into in
              let (k2, less2, again) =
                jmp_step m a k1 j jumps
                  (Away-apart a b m (omega (arith, first)) (omega (arith, end)) away) w1 in
              let (l, k3, others, less3, w3) =
                Loop-sound_fuel fuel a b (m, h, c, jumps, end) away k2 j (omega arith) again in
              (l, k3, more one others, omega arith, w3)
        ]

    Loop-sound : Sound (Loop q P) (Star M)
    Loop-sound a b code away k i w = Loop-sound_fuel (suc k) a b code away k i (omega arith) w

    Plus-sound_fuel :
        (fuel a b m : ℕ)
        → P a m
        → Has q m (split_inst a b)
        → b ≡ m + 1
        → Away a b
        → (k i : ℕ) → k < fuel
        → Ways k a i
        → Leaves (λ x y. (z : ℕ) × M x z × Star M z y) b k i
    Plus-sound_fuel zero a b m c h end away k i enough w = absurd (omega arith)
    Plus-sound_fuel (suc fuel) a b m c h end away k i enough w =
        let first = forward a m c in
        let (j, k1, one, less1, w1) =
          sound a m c (Away-within a b a m (omega arith) (omega (arith, end)) away) k i w in
        let (k2, less2, way) =
          split_step m a b k1 j h (Away-apart a b m first (omega (arith, end)) away) w1 in
        elim way [
          | inr out ↦ (j, k2, (j, one, done), omega arith, out)
          | inl again ↦
              let (l, k3, (z, two, others), less3, w3) =
                Plus-sound_fuel fuel a b m c h end away k2 j (omega arith) again in
              (l, k3, (j, one, more two others), omega arith, w3)
        ]

  mutual
    unfolding Code CodeAll CodeAlternatives Matches MatchesAll MatchesAny

    pub Code-sound : (n : RegexNode) → Sound (Code q n) (Matches text n)
    Code-sound (literal c) a b (h, e) away k i w =
        let (k0, pc, i', less, (read, next, moved), w0) =
          first_step text q target stop k a i (char_inst c) h
            (Away-apart a b a (omega arith) (omega (arith, e)) away) w in
        (
          i + 1,
          k0,
          (read, refl),
          omega arith,
          Way-at text q target stop k0 pc i' b (i + 1) (next ∙ sym e) moved w0,
        )
    Code-sound any a b (h, e) away k i w =
        let (k0, pc, i', less, ((c, read), next, moved), w0) =
          first_step text q target stop k a i (inst_of op_any) h
            (Away-apart a b a (omega arith) (omega (arith, e)) away) w in
        (
          i + 1,
          k0,
          (c, read, refl),
          omega arith,
          Way-at text q target stop k0 pc i' b (i + 1) (next ∙ sym e) moved w0,
        )
    Code-sound (class negated ranges) a b (n, h, c, f, e) away k i w =
        let (
          k0,
          pc,
          i',
          less,
          ((ch, n', ranges', negated', read, index, c', f', holds), next, moved),
          w0,
        ) =
          first_step text q target stop k a i (class_inst n) h
            (Away-apart a b a (omega arith) (omega (arith, e)) away) w in
        let same : n ≡ n' = some-injective n n' index in
        let one : ranges ≡ ranges' =
          some-injective ranges ranges' (sym c ∙ ap (get_elem? q.classes) same ∙ c') in
        let two : negated ≡ negated' =
          some-injective negated negated' (sym f ∙ ap (get_elem? q.class_negated) same ∙ f') in
        (
          i + 1,
          k0,
          (ch, read, rw (one, two) holds, refl),
          omega arith,
          Way-at text q target stop k0 pc i' b (i + 1) (next ∙ sym e) moved w0,
        )
    Code-sound (concat children) a b c away k i w = CodeAll-sound children a b c away k i w
    Code-sound (alt alternatives) a b c away k i w =
        CodeAlternatives-sound alternatives a b c away k i w
    Code-sound (star child) a b c away k i w =
        Loop-sound (Code q child) (Matches text child) (Code-forward q child) (Code-sound child) a b
          c away k i w
    Code-sound (plus child) a b (m, c, h, e) away k i w =
        Plus-sound_fuel (Code q child) (Matches text child) (Code-forward q child)
          (Code-sound child) (suc k) a b m c h e away k i (omega arith) w
    Code-sound (opt child) a b (h, c) away k i w =
        let first = Code-forward q child (a + 1) b c in
        let (k0, less, way) =
          split_step a (a + 1) b k i h (Away-apart a b a (omega arith) (omega (arith, first)) away)
            w in
        elim way [
          | inr out ↦ (i, k0, inl refl, omega arith, out)
          | inl into ↦
              let (j, k1, one, less1, w1) =
                Code-sound child (a + 1) b c
                  (Away-within a b (a + 1) b (omega arith) (omega arith) away) k0 i into in
              (j, k1, inr one, omega arith, w1)
        ]
    Code-sound (repeat child low none) a b (m, copies, loop) away k i w =
        let first = Copies-forward (Code q child) low a m (Code-forward q child) copies in
        let second = Code-forward q (star child) m b loop in
        let (j, k1, one, less1, w1) =
          Copies-sound (Code q child) (Matches text child) (Code-forward q child) (Code-sound child)
            low a m copies (Away-within a b a m (omega arith) second away) k i w in
        let (l, k2, two, less2, w2) =
          Loop-sound (Code q child) (Matches text child) (Code-forward q child) (Code-sound child) m
            b loop (Away-within a b m b first (omega arith) away) k1 j w1 in
        (l, k2, (j, one, two), omega arith, w2)
    Code-sound (repeat child low (some high)) a b (m, copies, others) away k i w =
        let first = Copies-forward (Code q child) low a m (Code-forward q child) copies in
        let second =
          Optionals-forward q (Code q child) (high - low) m b (Code-forward q child) others in
        let (j, k1, one, less1, w1) =
          Copies-sound (Code q child) (Matches text child) (Code-forward q child) (Code-sound child)
            low a m copies (Away-within a b a m (omega arith) second away) k i w in
        let (l, k2, two, less2, w2) =
          Optionals-sound (Code q child) (Matches text child) (Code-forward q child)
            (Code-sound child) (high - low) m b others
            (Away-within a b m b first (omega arith) away) k1 j w1 in
        (l, k2, (j, one, two), omega arith, w2)
    Code-sound (group index child) a b (m, h, c, closing, e) away k i w =
        let first = Code-forward q child (a + 1) m c in
        let (k0, pc, i', less, (next, stays), w0) =
          first_step text q target stop k a i (save_inst (2 * index)) h
            (Away-apart a b a (omega arith) (omega (arith, first, e)) away) w in
        let (j, k1, one, less1, w1) =
          Code-sound child (a + 1) m c
            (Away-within a b (a + 1) m (omega arith) (omega (arith, e)) away) k0 i
            (Way-at text q target stop k0 pc i' (a + 1) i next stays w0) in
        let (k2, pc2, j2, less2, (next2, stays2), w2) =
          first_step text q target stop k1 m j (save_inst (2 * index + 1)) closing
            (Away-apart a b m (omega (arith, first)) (omega (arith, e)) away) w1 in
        (j, k2, one, omega arith, Way-at text q target stop k2 pc2 j2 b j (next2 ∙ sym e) stays2 w2)
    Code-sound anchor_start a b (h, e) away k i w =
        let (k0, pc, i', less, (start, next, stays), w0) =
          first_step text q target stop k a i (inst_of op_bol) h
            (Away-apart a b a (omega arith) (omega (arith, e)) away) w in
        (
          i,
          k0,
          (start, refl),
          omega arith,
          Way-at text q target stop k0 pc i' b i (next ∙ sym e) stays w0,
        )
    Code-sound anchor_end a b (h, e) away k i w =
        let (k0, pc, i', less, (end, next, stays), w0) =
          first_step text q target stop k a i (inst_of op_eol) h
            (Away-apart a b a (omega arith) (omega (arith, e)) away) w in
        (
          i,
          k0,
          (end, refl),
          omega arith,
          Way-at text q target stop k0 pc i' b i (next ∙ sym e) stays w0,
        )

    CodeAll-sound : (ns : RegexNodes) → Sound (CodeAll q ns) (MatchesAll text ns)
    CodeAll-sound no_nodes a b e away k i w =
        (i, k, refl, omega arith, Way-at text q target stop k a i b i e refl w)
    CodeAll-sound (nodes child children) a b (m, c, rest) away k i w =
        let first = Code-forward q child a m c in
        let second = CodeAll-forward q children m b rest in
        let (j, k1, one, less1, w1) =
          Code-sound child a m c (Away-within a b a m (omega arith) second away) k i w in
        let (l, k2, others, less2, w2) =
          CodeAll-sound children m b rest (Away-within a b m b first (omega arith) away) k1 j w1 in
        (l, k2, (j, one, others), omega arith, w2)

    CodeAlternatives-sound : (ns : RegexNodes) → Sound (CodeAlternatives q ns) (MatchesAny text ns)
    CodeAlternatives-sound no_nodes a b e away k i w =
        (i, k, refl, omega arith, Way-at text q target stop k a i b i e refl w)
    CodeAlternatives-sound (nodes last no_nodes) a b c away k i w = Code-sound last a b c away k i w
    CodeAlternatives-sound (nodes first (nodes second others)) a b (m, h, c, jumps, rest) away k i
          w =
        let one = Code-forward q first (a + 1) m c in
        let two = CodeAlternatives-forward q (nodes second others) (m + 1) b rest in
        let (k0, less, way) =
          split_step a (a + 1) (m + 1) k i h
            (Away-apart a b a (omega arith) (omega (arith, one, two)) away) w in
        elim way [
          | inl into ↦
              let (j, k1, found, less1, w1) =
                Code-sound first (a + 1) m c
                  (Away-within a b (a + 1) m (omega arith) (omega (arith, two)) away) k0 i into in
              let (k2, less2, w2) =
                jmp_step m b k1 j jumps
                  (Away-apart a b m (omega (arith, one)) (omega (arith, two)) away) w1 in
              (j, k2, inl found, omega arith, w2)
          | inr over ↦
              let (j, k1, found, less1, w1) =
                CodeAlternatives-sound (nodes second others) (m + 1) b rest
                  (Away-within a b (m + 1) b (omega (arith, one)) (omega arith) away) k0 i over in
              (j, k1, inr found, omega arith, w1)
        ]
