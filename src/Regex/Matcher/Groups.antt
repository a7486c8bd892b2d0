-- ===== src/Regex/Matcher/Groups.antt =====
-- The compiler keeps the number of groups, for which the matcher makes room.
use lumiere.Common.{
  ℕ, zero, suc, ◌-◌, ◌*◌, ◌≡◌, refl, Option, none, some, List, [], ◌∷◌, ◌++◌, length, ap, ◌∙◌,
}
use lumiere.Regex.{
  RegexNode, literal, any, class, concat, alt, star, plus, opt, repeat, group, anchor_start,
  anchor_end, RegexNodes, no_nodes, nodes, RegexProgram,
}
use lumiere.Regex.Compiler.{
  here, emit_split, patch_x, patch_all_x, patch_all_y, mandatory_copies, optional_copies,
  repeat_code, compile_node, compile_all, compile_alternatives, compile, emit_jmp, patch_y,
  emit_save,
}
use lumiere.Regex.Matcher.{unset}

pub length-unset : (n : ℕ) → length (unset n) ≡ n
unfolding unset
length-unset zero = refl
length-unset (suc n) = ap suc (length-unset n)

group_count-patch_all_x :
    (p : RegexProgram) (patches : List ℕ) (target : ℕ)
    → (patch_all_x p patches target).group_count ≡ p.group_count
unfolding patch_all_x
group_count-patch_all_x p [] target = refl
group_count-patch_all_x p (index ∷ patches) target =
    group_count-patch_all_x (patch_x p index target) patches target

group_count-patch_all_y :
    (p : RegexProgram) (patches : List ℕ) (target : ℕ)
    → (patch_all_y p patches target).group_count ≡ p.group_count
unfolding patch_all_y
group_count-patch_all_y p [] target = refl
group_count-patch_all_y p (index ∷ patches) target =
    group_count-patch_all_y (patch_y p index target) patches target

module _ (child : RegexProgram → RegexProgram)
    (same : (p : RegexProgram) → (child p).group_count ≡ p.group_count) where
  group_count-mandatory_copies :
      (n : ℕ) (p : RegexProgram) → (mandatory_copies n child p).group_count ≡ p.group_count
  unfolding mandatory_copies
  group_count-mandatory_copies zero p = refl
  group_count-mandatory_copies (suc n) p = group_count-mandatory_copies n (child p) ∙ same p

  group_count-optional_copies :
      (n : ℕ) (p : RegexProgram) (patches : List ℕ)
      → ((optional_copies n child p patches).0).group_count ≡ p.group_count
  unfolding optional_copies
  group_count-optional_copies zero p patches = refl
  group_count-optional_copies (suc n) p patches =
      let opened = patch_x (emit_split p) (here p) (here (emit_split p)) in
      group_count-optional_copies n (child opened) (patches ++ here p ∷ []) ∙ same opened

  group_count-repeat_code :
      (low : ℕ) (high : Option ℕ) (p : RegexProgram)
      → (repeat_code child low high p).group_count ≡ p.group_count
  unfolding repeat_code
  group_count-repeat_code low none p =
      let copied = mandatory_copies low child p in
      same (patch_x (emit_split copied) (here copied) (here (emit_split copied)))
      ∙ group_count-mandatory_copies low p
  group_count-repeat_code low (some high) p =
      let copied = mandatory_copies low child p in
      let both = optional_copies (high - low) child copied [] in
      group_count-patch_all_y both.0 both.1 (here both.0)
      ∙ group_count-optional_copies (high - low) copied []
      ∙ group_count-mandatory_copies low p

mutual
  unfolding compile_node compile_all compile_alternatives

  group_count-compile_node :
      (n : RegexNode) (p : RegexProgram) → (compile_node n p).group_count ≡ p.group_count
  group_count-compile_node (literal c) p = refl
  group_count-compile_node any p = refl
  group_count-compile_node (class negated ranges) p = refl
  group_count-compile_node (concat children) p = group_count-compile_all children p
  group_count-compile_node (alt alternatives) p =
      let both = compile_alternatives alternatives p [] in
      group_count-patch_all_x both.0 both.1 (here both.0)
      ∙ group_count-compile_alternatives alternatives p []
  group_count-compile_node (star child) p =
      group_count-compile_node child (patch_x (emit_split p) (here p) (here (emit_split p)))
  group_count-compile_node (plus child) p = group_count-compile_node child p
  group_count-compile_node (opt child) p =
      group_count-compile_node child (patch_x (emit_split p) (here p) (here (emit_split p)))
  group_count-compile_node (repeat child low high) p =
      group_count-repeat_code (compile_node child) (λ p. group_count-compile_node child p) low high
        p
  group_count-compile_node (group index child) p =
      group_count-compile_node child (emit_save p (2 * index))
  group_count-compile_node anchor_start p = refl
  group_count-compile_node anchor_end p = refl

  group_count-compile_all :
      (ns : RegexNodes) (p : RegexProgram) → (compile_all ns p).group_count ≡ p.group_count
  group_count-compile_all no_nodes p = refl
  group_count-compile_all (nodes child children) p =
      group_count-compile_all children (compile_node child p) ∙ group_count-compile_node child p

  group_count-compile_alternatives :
      (ns : RegexNodes) (p : RegexProgram) (patches : List ℕ)
      → ((compile_alternatives ns p patches).0).group_count ≡ p.group_count
  group_count-compile_alternatives no_nodes p patches = refl
  group_count-compile_alternatives (nodes last no_nodes) p patches = group_count-compile_node last p
  group_count-compile_alternatives (nodes first (nodes second others)) p patches =
      let split = here p in
      let opened = patch_x (emit_split p) split (here (emit_split p)) in
      let body = compile_node first opened in
      let left = emit_jmp body in
      group_count-compile_alternatives (nodes second others) (patch_y left split (here left))
        (patches ++ here body ∷ [])
      ∙ group_count-compile_node first opened

pub group_count-compile :
    (root : RegexNode) (groups : ℕ) → (compile root groups).group_count ≡ groups
unfolding compile
group_count-compile root groups = group_count-compile_node root (
    emit_save (record { instructions = []; classes = []; class_negated = []; group_count = groups })
      0)
