-- ===== src/Regex/Compiler/Compiled.antt =====
-- The compiler puts the code of each node behind what is there: every node.
use lumiere.Common.{
  ℕ, ◌+◌, ◌-◌, ◌*◌, ◌≤◌, ◌<◌, ◌≡◌, refl, ◌⊎◌, Bool, none, some, List, [], ◌∷◌, ◌++◌, All, length,
  length-append, get_elem?, arith, sym, ◌∙◌, inl, inr,
}
use mathlib.Core.Path.{subst}
use lumiere.Regex.{
  ClassRange, RegexNode, literal, any, class, concat, alt, star, plus, opt, repeat, group,
  anchor_start, anchor_end, RegexNodes, no_nodes, nodes, op_any, op_bol, op_eol, RegexProgram,
}
use lumiere.Regex.Compiler.{
  here, inst_of, emit, emit_save, emit_class, compile_node, compile_all, compile_alternatives,
  repeat_code, star_code, mandatory_copies, optional_copies, patch_all_x, patch_all_y,
}
use lumiere.Regex.Compiler.Code.{
  Has, Code, CodeAll, CodeAlternatives, Copies, Optionals, Loop, char_inst, class_inst, save_inst,
}
use lumiere.Regex.Compiler.Code.Extends.{
  Agree, Agree-within, Code-Agree, Copies-Agree, Code-forward,
}
use lumiere.Regex.Compiler.Patches.{
  here-emit, Has-emit, Agree-refl, Agree-trans, Agree-emit, IsEven, get_elem?-append, get_elem?-end,
}
use lumiere.Regex.Compiler.PatchAll.{
  Outside, IsEven-patch_all_x, IsEven-patch_all_y, here-patch_all_x, here-patch_all_y,
  Agree-patch_all_x, Agree-patch_all_y, All-map,
}
use lumiere.Regex.Compiler.Places.{
  Placed, Places, Moves, Placed-emit, Placed-opt, Placed-plus, Placed-star, Placed-Copies,
}
use lumiere.Regex.Compiler.Choices.{Half, Half-Optionals, append_nothing}
use lumiere.Regex.Compiler.OneOf.{Half-one}

abbrev CodeOf : RegexNode → RegexProgram → ℕ → ℕ → Type 0
CodeOf n q a b = Code q n a b

Code-moves : (n : RegexNode) → Moves (CodeOf n)
Code-moves n q r a b c g = Code-Agree q r n a b c g

-- A class with its entries in the two tables.
Placed-class :
    (negated : Bool) (ranges : List ClassRange)
    → Places (λ p. emit_class p ranges negated) (CodeOf (class negated ranges))
unfolding Code
Placed-class negated ranges p a e ev =
    let more : RegexProgram = record p {
      classes = p.classes ++ ranges ∷ [];
      class_negated = p.class_negated ++ negated ∷ [];
    } in
    let inst = class_inst (length p.classes) in
    record {
      end = a + 1;
      ends = omega (arith, here-emit more inst, e);
      forward = omega arith;
      kept = record {
        insts = λ i x h _ _. get_elem?-append p.instructions (inst ∷ []) i x h;
        classes = λ k c h. get_elem?-append p.classes (ranges ∷ []) k c h;
        negated = λ k c h. get_elem?-append p.class_negated (negated ∷ []) k c h;
      };
      code = (
        length p.classes,
        subst (λ z. Has (emit more inst) z inst) e (Has-emit more inst),
        get_elem?-end p.classes ranges,
        subst (λ (z : ℕ). get_elem? (p.class_negated ++ negated ∷ []) z ≡ some negated) ev
            (get_elem?-end p.class_negated negated),
        refl,
      );
      even = omega (
        arith,
        ev,
        length-append p.classes (ranges ∷ []),
        length-append p.class_negated (negated ∷ []),
      );
    }

-- One piece behind another.
Placed-then :
    (A B : RegexProgram → ℕ → ℕ → Type 0) (p q r : RegexProgram) (a : ℕ) (one : Placed A p q a)
    → Moves A
    → Placed B q r one.end
    → Placed (λ s c d. (m : ℕ) × A s c m × B s m d) p r a
Placed-then A B p q r a one moves two = record {
  end = two.end;
  ends = two.ends;
  forward = omega (arith, one.forward, two.forward);
  kept =
      Agree-trans p q r 0 a one.kept
        (Agree-within q r 0 one.end 0 a (omega arith) one.forward two.kept);
  code = (
    one.end,
    moves q r a one.end one.code
        (Agree-within q r 0 one.end a one.end (omega arith) (omega arith) two.kept),
    two.code,
  );
  even = two.even;
}

-- Choices are closed by the patches at the end.
Placed-closed_x :
    (p : RegexProgram) (a : ℕ) (result : RegexProgram × List ℕ) (C : RegexProgram → ℕ → ℕ → Type 0)
    → Half patch_all_x p a [] result C
    → Placed C p (patch_all_x result.0 result.1 (here result.0)) a
Placed-closed_x p a result C half =
    let closed = patch_all_x result.0 result.1 (here result.0) in
    record {
      end = half.end;
      ends = here-patch_all_x result.0 result.1 (here result.0) ∙ half.ends;
      forward = half.forward;
      kept = Agree-trans p result.0 closed 0 a half.kept (
          Agree-patch_all_x result.0 result.1 (here result.0) 0 a (
            subst (Outside 0 a) (sym half.is) (
              All-map (λ (k : ℕ). a ≤ k) (λ (k : ℕ). (k < 0) ⊎ (a ≤ k)) half.new (λ k h. inr h)
                half.behind)));
      code =
          subst (λ (t : ℕ). C (patch_all_x result.0 result.1 t) a half.end) (sym half.ends)
            half.code;
      even = IsEven-patch_all_x result.0 result.1 (here result.0) half.even;
    }

-- Choices are closed by the patches at the end.
Placed-closed_y :
    (p : RegexProgram) (a : ℕ) (result : RegexProgram × List ℕ) (C : RegexProgram → ℕ → ℕ → Type 0)
    → Half patch_all_y p a [] result C
    → Placed C p (patch_all_y result.0 result.1 (here result.0)) a
Placed-closed_y p a result C half =
    let closed = patch_all_y result.0 result.1 (here result.0) in
    record {
      end = half.end;
      ends = here-patch_all_y result.0 result.1 (here result.0) ∙ half.ends;
      forward = half.forward;
      kept = Agree-trans p result.0 closed 0 a half.kept (
          Agree-patch_all_y result.0 result.1 (here result.0) 0 a (
            subst (Outside 0 a) (sym half.is) (
              All-map (λ (k : ℕ). a ≤ k) (λ (k : ℕ). (k < 0) ⊎ (a ≤ k)) half.new (λ k h. inr h)
                half.behind)));
      code =
          subst (λ (t : ℕ). C (patch_all_y result.0 result.1 t) a half.end) (sym half.ends)
            half.code;
      even = IsEven-patch_all_y result.0 result.1 (here result.0) half.even;
    }

-- The last alternative is only passed by the patches of the others.
Half-last :
    (A : RegexProgram → ℕ → ℕ → Type 0) (p q : RegexProgram) (a : ℕ) (patches : List ℕ)
    → Moves A
    → All (λ (k : ℕ). k < a) patches
    → Placed A p q a
    → Half patch_all_x p a patches (q, patches) A
Half-last A p q a patches moves low one = record {
  end = one.end;
  ends = one.ends;
  forward = one.forward;
  kept = one.kept;
  new = [];
  is = sym (append_nothing patches);
  behind = tt;
  code = moves q (patch_all_x q patches one.end) a one.end one.code (
      Agree-patch_all_x q patches one.end a one.end (
        All-map (λ (k : ℕ). k < a) (λ (k : ℕ). (k < a) ⊎ (one.end ≤ k)) patches (λ k h. inl h)
          low));
  even = one.even;
}

Placed-nothing : (p : RegexProgram) (a : ℕ) → here p ≡ a → IsEven p → Placed (λ q c d. c ≡ d) p p a
Placed-nothing p a e ev = record {
  end = a;
  ends = e;
  forward = omega arith;
  kept = Agree-refl p 0 a;
  code = refl;
  even = ev;
}

Placed-group :
    (f : RegexProgram → RegexProgram) (A : RegexProgram → ℕ → ℕ → Type 0) (index : ℕ)
    → Places f A
    → Moves A
    → Places
        (λ p. emit_save (f (emit_save p (2 * index))) (2 * index + 1))
        (λ q a b.
          (m : ℕ) × Has q a (save_inst (2 * index))
          × A q (a + 1) m
          × Has q m (save_inst (2 * index + 1))
          × (b ≡ m + 1))
Placed-group f A index places moves p a e ev =
    let opening = save_inst (2 * index) in
    let closing = save_inst (2 * index + 1) in
    let started = emit p opening in
    let body = places started (a + 1) (omega (arith, here-emit p opening, e)) ev in
    let q = f started in
    let m = body.end in
    let to_end : (c d : ℕ) → Agree q (emit q closing) c d = λ c d. Agree-emit q closing c d in
    record {
      end = m + 1;
      ends = omega (arith, here-emit q closing, body.ends);
      forward = omega (arith, body.forward);
      kept = Agree-trans p started (emit q closing) 0 a (Agree-emit p opening 0 a) (
          Agree-trans started q (emit q closing) 0 a
            (Agree-within started q 0 (a + 1) 0 a (omega arith) (omega arith) body.kept)
            (to_end 0 a));
      code = (
        m,
        (to_end a (a + 1)).insts a opening
            (body.kept.insts a opening (subst (λ z. Has started z opening) e (Has-emit p opening))
              (omega arith) (omega arith))
            (omega arith) (omega arith),
        moves q (emit q closing) (a + 1) m body.code (to_end (a + 1) m),
        subst (λ z. Has (emit q closing) z closing) body.ends (Has-emit q closing),
        refl,
      );
      even = body.even;
    }

mutual
  unfolding compile_node compile_all compile_alternatives Code CodeAll CodeAlternatives repeat_code

  pub compile_node-Code : (n : RegexNode) → Places (compile_node n) (CodeOf n)
  compile_node-Code (literal c) p a e ev =
      Placed-emit (CodeOf (literal c)) p (char_inst c) a e ev (λ h. (h, refl))
  compile_node-Code any p a e ev =
      Placed-emit (CodeOf any) p (inst_of op_any) a e ev (λ h. (h, refl))
  compile_node-Code (class negated ranges) p a e ev = Placed-class negated ranges p a e ev
  compile_node-Code (concat children) p a e ev = compile_all-CodeAll children p a e ev
  compile_node-Code (alt alternatives) p a e ev =
      Placed-closed_x p a (compile_alternatives alternatives p [])
        (λ r c d. CodeAlternatives r alternatives c d)
        (compile_alternatives-Half alternatives p a [] e tt ev)
  compile_node-Code (star child) p a e ev =
      Placed-star (compile_node child) (CodeOf child) (compile_node-Code child) (Code-moves child) p
        a e ev
  compile_node-Code (plus child) p a e ev =
      Placed-plus (compile_node child) (CodeOf child) (compile_node-Code child) (Code-moves child) p
        a e ev
  compile_node-Code (opt child) p a e ev =
      Placed-opt (compile_node child) (CodeOf child) (compile_node-Code child) (Code-moves child) p
        a e ev
  compile_node-Code (repeat child low none) p a e ev =
      let copies =
        Placed-Copies (compile_node child) (CodeOf child) (compile_node-Code child)
          (Code-moves child) low p a e ev in
      let copied = mandatory_copies low (compile_node child) p in
      Placed-then (λ q c d. Copies (Code q child) low c d) (λ q c d. Loop q (Code q child) c d) p
        copied (star_code (compile_node child) copied) a copies
        (λ q r c d h g.
          Copies-Agree q r (Code q child) (Code r child) low c d (Code-forward q child)
            (Code-Agree q r child) h g)
        (Placed-star (compile_node child) (CodeOf child) (compile_node-Code child)
          (Code-moves child) copied copies.end copies.ends copies.even)
  compile_node-Code (repeat child low (some high)) p a e ev =
      let copies =
        Placed-Copies (compile_node child) (CodeOf child) (compile_node-Code child)
          (Code-moves child) low p a e ev in
      let copied = mandatory_copies low (compile_node child) p in
      let result = optional_copies (high - low) (compile_node child) copied [] in
      Placed-then (λ q c d. Copies (Code q child) low c d)
        (λ q c d. Optionals q (Code q child) (high - low) c d) p copied
        (patch_all_y result.0 result.1 (here result.0)) a copies
        (λ q r c d h g.
          Copies-Agree q r (Code q child) (Code r child) low c d (Code-forward q child)
            (Code-Agree q r child) h g)
        (Placed-closed_y copied copies.end result
          (λ q c d. Optionals q (Code q child) (high - low) c d)
          (Half-Optionals (compile_node child) (CodeOf child) (compile_node-Code child)
            (Code-moves child) (high - low) copied copies.end [] copies.ends tt copies.even))
  compile_node-Code (group index child) p a e ev =
      Placed-group (compile_node child) (CodeOf child) index (compile_node-Code child)
        (Code-moves child) p a e ev
  compile_node-Code anchor_start p a e ev =
      Placed-emit (CodeOf anchor_start) p (inst_of op_bol) a e ev (λ h. (h, refl))
  compile_node-Code anchor_end p a e ev =
      Placed-emit (CodeOf anchor_end) p (inst_of op_eol) a e ev (λ h. (h, refl))

  compile_all-CodeAll : (ns : RegexNodes) → Places (compile_all ns) (λ q a b. CodeAll q ns a b)
  compile_all-CodeAll no_nodes p a e ev = Placed-nothing p a e ev
  compile_all-CodeAll (nodes child children) p a e ev =
      let one = compile_node-Code child p a e ev in
      Placed-then (CodeOf child) (λ q c d. CodeAll q children c d) p (compile_node child p)
        (compile_all children (compile_node child p)) a one (Code-moves child)
        (compile_all-CodeAll children (compile_node child p) one.end one.ends one.even)

  compile_alternatives-Half :
      (ns : RegexNodes) (p : RegexProgram) (a : ℕ) (patches : List ℕ)
      → here p ≡ a
      → All (λ (k : ℕ). k < a) patches
      → IsEven p
      → Half patch_all_x p a patches
          (compile_alternatives ns p patches)
          (λ r c d. CodeAlternatives r ns c d)
  compile_alternatives-Half no_nodes p a patches e low ev =
      Half-last (λ q c d. c ≡ d) p p a patches (λ q r c d h g. h) low (Placed-nothing p a e ev)
  compile_alternatives-Half (nodes last no_nodes) p a patches e low ev =
      Half-last (CodeOf last) p (compile_node last p) a patches (Code-moves last) low
        (compile_node-Code last p a e ev)
  compile_alternatives-Half (nodes first (nodes second others)) p a patches e low ev =
      Half-one (compile_node first) (CodeOf first) (compile_node-Code first) (Code-moves first)
        (compile_alternatives (nodes second others))
        (λ r c d. CodeAlternatives r (nodes second others) c d)
        (compile_alternatives-Half (nodes second others)) p a patches e low ev
