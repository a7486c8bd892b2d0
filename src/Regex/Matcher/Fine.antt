-- ===== src/Regex/Matcher/Fine.antt =====
-- What the compiler writes stays inside the program, its tables and the slots of its groups.
use lumiere.Common.{
  ℕ, zero, suc, ◌+◌, ◌-◌, ◌*◌, ◌≤◌, ◌<◌, ◌≡◌, refl, ◌⊎◌, Bool, none, some, List, get_elem?, arith,
  sym, ap, ◌∙◌, inl, inr,
}
use mathlib.Core.Path.{subst}
use mathlib.Core.Option.{some-injective}
use lumiere.Regex.{
  ClassRange, RegexNode, literal, any, class, concat, alt, star, plus, opt, repeat, group,
  anchor_start, anchor_end, RegexNodes, no_nodes, nodes, Op, op_char, op_any, op_class, op_bol,
  op_eol, op_save, op_jmp, op_split, op_match, Inst, RegexProgram,
}
use lumiere.Regex.Compiler.{inst_of, here, compile}
use lumiere.Regex.Compiler.Code.{
  Has, Code, CodeAll, CodeAlternatives, Copies, Optionals, Loop, char_inst, class_inst, save_inst,
  jmp_inst, split_inst,
}
use lumiere.Regex.Matching.{compile-Layout}
use lumiere.Regex.Compiler.Code.Extends.{
  Code-forward, CodeAll-forward, CodeAlternatives-forward, Copies-forward, Optionals-forward,
}

-- The groups of a tree are numbered up to this number.
unfoldable mutual
  pub Groups : RegexNode → ℕ → Type 0
  Groups (literal c) count = Unit {0}
  Groups any count = Unit {0}
  Groups (class negated ranges) count = Unit {0}
  Groups (concat children) count = GroupsAll children count
  Groups (alt alternatives) count = GroupsAll alternatives count
  Groups (star child) count = Groups child count
  Groups (plus child) count = Groups child count
  Groups (opt child) count = Groups child count
  Groups (repeat child low high) count = Groups child count
  Groups (group index child) count = (index ≤ count) × Groups child count
  Groups anchor_start count = Unit {0}
  Groups anchor_end count = Unit {0}

  pub GroupsAll : RegexNodes → ℕ → Type 0
  GroupsAll no_nodes count = Unit {0}
  GroupsAll (nodes child children) count = Groups child count × GroupsAll children count

module _ (q : RegexProgram) (slots : ℕ) where
  -- An instruction leads to instructions, and its class and slot are there.
  abbrev pub Fine : Op → Inst → ℕ → Type 0
  Fine op_char inst pc = pc + 1 < here q
  Fine op_any inst pc = pc + 1 < here q
  Fine op_class inst pc =
      (pc + 1 < here q)
      × ((k : ℕ) × (ranges : List ClassRange) × (negated : Bool) × (inst.class_index ≡ some k)
          × (get_elem? q.classes k ≡ some ranges)
          × (get_elem? q.class_negated k ≡ some negated))
  Fine op_bol inst pc = pc + 1 < here q
  Fine op_eol inst pc = pc + 1 < here q
  Fine op_save inst pc = (pc + 1 < here q) × ((s : ℕ) × (inst.slot ≡ some s) × (s < slots))
  Fine op_jmp inst pc = (t : ℕ) × (inst.x ≡ some t) × (t < here q)
  Fine op_split inst pc =
      ((t : ℕ) × (inst.x ≡ some t) × (t < here q)) × ((t : ℕ) × (inst.y ≡ some t) × (t < here q))
  Fine op_match inst pc = (here q ≡ pc + 1) × (inst ≡ inst_of op_match)

  abbrev pub AllFine : ℕ → ℕ → Type 0
  AllFine a b = (pc : ℕ) (inst : Inst) → a ≤ pc → pc < b → Has q pc inst → Fine inst.op inst pc

  AllFine-nothing : (a b : ℕ) → b ≤ a → AllFine a b
  AllFine-nothing a b e pc inst low high h = absurd (omega arith)

  pub AllFine-one :
      (a b : ℕ) (inst : Inst) → b ≡ a + 1 → Has q a inst → Fine inst.op inst a → AllFine a b
  AllFine-one a b inst e h fine pc found low high there =
      let at : pc ≡ a = omega (arith, e) in
      let same : inst ≡ found =
        some-injective inst found (sym h ∙ ap (get_elem? q.instructions) (sym at) ∙ there) in
      subst (λ (x : Inst). Fine x.op x pc) same
        (subst (λ (z : ℕ). Fine inst.op inst z) (sym at) fine)

  below_or_from : (x m : ℕ) → (x < m) ⊎ (m ≤ x)
  below_or_from x m = ground arith

  pub AllFine-join : (a m b : ℕ) → AllFine a m → AllFine m b → AllFine a b
  AllFine-join a m b one two pc inst low high h = elim (below_or_from pc m) [
    | inl before ↦ one pc inst low before h
    | inr behind ↦ two pc inst behind high h
  ]

  module _ (P : ℕ → ℕ → Type 0) (forward : (c d : ℕ) → P c d → c ≤ d)
      (fine : (c d : ℕ) → P c d → d < here q → AllFine c d) where
    Copies-AllFine : (n a b : ℕ) → Copies P n a b → b < here q → AllFine a b
    Copies-AllFine zero a b e inside = AllFine-nothing a b (omega (arith, e))
    Copies-AllFine (suc n) a b (m, c, rest) inside =
        let second = Copies-forward P n m b forward rest in
        AllFine-join a m b (fine a m c (omega arith)) (Copies-AllFine n m b rest inside)

    Optionals-AllFine : (n a b end : ℕ) → Optionals q P n a b → b < here q → AllFine a b
    Optionals-AllFine zero a b end e inside = AllFine-nothing a b (omega (arith, e))
    Optionals-AllFine (suc n) a b end (m, h, c, rest) inside =
        let first = forward (a + 1) m c in
        let second = Optionals-forward q P n m b forward rest in
        AllFine-join a (a + 1) b
          (AllFine-one a (a + 1) (split_inst (a + 1) b) refl h
            ((a + 1, refl, omega arith), (b, refl, inside)))
          (AllFine-join (a + 1) m b (fine (a + 1) m c (omega arith))
            (Optionals-AllFine n m b end rest inside))

    Loop-AllFine : (a b : ℕ) → Loop q P a b → b < here q → AllFine a b
    Loop-AllFine a b (m, h, c, jumps, e) inside =
        let first = forward (a + 1) m c in
        AllFine-join a (a + 1) b
          (AllFine-one a (a + 1) (split_inst (a + 1) b) refl h
            ((a + 1, refl, omega (arith, e)), (b, refl, inside)))
          (AllFine-join (a + 1) m b (fine (a + 1) m c (omega (arith, e)))
            (AllFine-one m b (jmp_inst a) e jumps (a, refl, omega (arith, e))))

  module _ (count : ℕ) (room : 2 * (count + 1) ≤ slots) where
    mutual
      unfolding Code CodeAll CodeAlternatives Groups GroupsAll

      pub Code-AllFine :
          (n : RegexNode) → Groups n count → (a b : ℕ) → Code q n a b → b < here q → AllFine a b
      Code-AllFine (literal c) g a b (h, e) inside =
          AllFine-one a b (char_inst c) e h (omega (arith, e))
      Code-AllFine any g a b (h, e) inside = AllFine-one a b (inst_of op_any) e h (omega (arith, e))
      Code-AllFine (class negated ranges) g a b (k, h, c, f, e) inside =
          AllFine-one a b (class_inst k) e h (omega (arith, e), (k, ranges, negated, refl, c, f))
      Code-AllFine (concat children) g a b c inside = CodeAll-AllFine children g a b c inside
      Code-AllFine (alt alternatives) g a b c inside =
          CodeAlternatives-AllFine alternatives g a b c inside
      Code-AllFine (star child) g a b c inside =
          Loop-AllFine (Code q child) (Code-forward q child) (Code-AllFine child g) a b c inside
      Code-AllFine (plus child) g a b (m, c, h, e) inside =
          let first = Code-forward q child a m c in
          AllFine-join a m b (Code-AllFine child g a m c (omega (arith, e)))
            (AllFine-one m b (split_inst a b) e h ((a, refl, omega (arith, e)), (b, refl, inside)))
      Code-AllFine (opt child) g a b (h, c) inside =
          let first = Code-forward q child (a + 1) b c in
          AllFine-join a (a + 1) b
            (AllFine-one a (a + 1) (split_inst (a + 1) b) refl h
              ((a + 1, refl, omega arith), (b, refl, inside)))
            (Code-AllFine child g (a + 1) b c inside)
      Code-AllFine (repeat child low none) g a b (m, copies, loop) inside =
          let second = Code-forward q (star child) m b loop in
          AllFine-join a m b
            (Copies-AllFine (Code q child) (Code-forward q child) (Code-AllFine child g) low a m
              copies (omega arith))
            (Loop-AllFine (Code q child) (Code-forward q child) (Code-AllFine child g) m b loop
              inside)
      Code-AllFine (repeat child low (some high)) g a b (m, copies, others) inside =
          let second =
            Optionals-forward q (Code q child) (high - low) m b (Code-forward q child) others in
          AllFine-join a m b
            (Copies-AllFine (Code q child) (Code-forward q child) (Code-AllFine child g) low a m
              copies (omega arith))
            (Optionals-AllFine (Code q child) (Code-forward q child) (Code-AllFine child g)
              (high - low) m b b others inside)
      Code-AllFine (group index child) (small, g) a b (m, h, c, closing, e) inside =
          let first = Code-forward q child (a + 1) m c in
          AllFine-join a (a + 1) b
            (AllFine-one a (a + 1) (save_inst (2 * index)) refl h
              (omega (arith, e), (2 * index, refl, omega arith)))
            (AllFine-join (a + 1) m b (Code-AllFine child g (a + 1) m c (omega (arith, e))) (
              AllFine-one m b (save_inst (2 * index + 1)) e closing
                (omega (arith, e), (2 * index + 1, refl, omega arith))))
      Code-AllFine anchor_start g a b (h, e) inside =
          AllFine-one a b (inst_of op_bol) e h (omega (arith, e))
      Code-AllFine anchor_end g a b (h, e) inside =
          AllFine-one a b (inst_of op_eol) e h (omega (arith, e))

      CodeAll-AllFine :
          (ns : RegexNodes)
          → GroupsAll ns count
          → (a b : ℕ) → CodeAll q ns a b
          → b < here q
          → AllFine a b
      CodeAll-AllFine no_nodes g a b e inside = AllFine-nothing a b (omega (arith, e))
      CodeAll-AllFine (nodes child children) (one, g) a b (m, c, rest) inside =
          let second = CodeAll-forward q children m b rest in
          AllFine-join a m b (Code-AllFine child one a m c (omega arith))
            (CodeAll-AllFine children g m b rest inside)

      CodeAlternatives-AllFine :
          (ns : RegexNodes)
          → GroupsAll ns count
          → (a b : ℕ) → CodeAlternatives q ns a b
          → b < here q
          → AllFine a b
      CodeAlternatives-AllFine no_nodes g a b e inside = AllFine-nothing a b (omega (arith, e))
      CodeAlternatives-AllFine (nodes last no_nodes) (one, g) a b c inside =
          Code-AllFine last one a b c inside
      CodeAlternatives-AllFine (nodes first (nodes second others)) (one, g) a b
            (m, h, c, jumps, rest) inside =
          let x = Code-forward q first (a + 1) m c in
          let y = CodeAlternatives-forward q (nodes second others) (m + 1) b rest in
          AllFine-join a (a + 1) b
            (AllFine-one a (a + 1) (split_inst (a + 1) (m + 1)) refl h
              ((a + 1, refl, omega arith), (m + 1, refl, omega arith)))
            (AllFine-join (a + 1) m b (Code-AllFine first one (a + 1) m c (omega arith)) (
              AllFine-join m (m + 1) b
                (AllFine-one m (m + 1) (jmp_inst b) refl jumps (b, refl, inside))
                (CodeAlternatives-AllFine (nodes second others) g (m + 1) b rest inside)))

-- A compiled program whose tree numbers its groups up to the given count.
pub compile-AllFine :
    (root : RegexNode) (groups : ℕ)
    → Groups root groups
    → AllFine (compile root groups) (2 * (groups + 1)) 0 (here (compile root groups))
compile-AllFine root groups g =
    let q = compile root groups in
    let slots = 2 * (groups + 1) in
    let l = compile-Layout root groups in
    let n = here q in
    AllFine-join q slots 0 1 n
      (AllFine-one q slots 0 1 (save_inst 0) refl l.opening
        (omega (arith, l.size), (0, refl, omega arith)))
      (AllFine-join q slots 1 l.end n
        (Code-AllFine q slots groups (omega arith) root g 1 l.end l.code (omega (arith, l.size)))
        (AllFine-join q slots l.end (l.end + 1) n
          (AllFine-one q slots l.end (l.end + 1) (save_inst 1) refl l.closing
            (omega (arith, l.size), (1, refl, omega arith)))
          (AllFine-one q slots (l.end + 1) n (inst_of op_match) (omega (arith, l.size)) l.match
            (omega (arith, l.size), refl))))
