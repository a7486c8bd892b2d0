-- ===== src/Regex/Compiler.antt =====
-- The class RegexCompiler.
pub mod Code
pub mod Patches
pub mod PatchAll
pub mod Places
pub mod Choices
pub mod OneOf
pub mod Compiled
use lumiere.Common.{
  ℕ, zero, suc, ◌+◌, ◌-◌, ◌*◌, Bool, true, false, Option, none, some, List, [], ◌∷◌, ◌++◌, length,
}
use lumiere.Regex.{
  ClassRange, RegexNode, literal, any, class, concat, alt, star, plus, opt, repeat, group,
  anchor_start, anchor_end, RegexNodes, no_nodes, nodes, Op, op_char, op_any, op_class, op_bol,
  op_eol, op_save, op_jmp, op_split, op_match, Inst, RegexProgram,
}

abbrev pub here : RegexProgram → ℕ
here p = length p.instructions

-- an instruction with nothing set but its operation
abbrev pub inst_of : Op → Inst
inst_of op = record { op = op; ch = 0; x = none; y = none; slot = none; class_index = none }

abbrev pub emit : RegexProgram → Inst → RegexProgram
emit p inst = record p { instructions = p.instructions ++ inst ∷ [] }

abbrev pub emit_save : RegexProgram → ℕ → RegexProgram
emit_save p slot = emit p (record (inst_of op_save) { slot = some slot })

abbrev pub emit_match : RegexProgram → RegexProgram
emit_match p = emit p (inst_of op_match)

abbrev pub emit_jmp : RegexProgram → RegexProgram
emit_jmp p = emit p (inst_of op_jmp)

abbrev pub emit_split : RegexProgram → RegexProgram
emit_split p = emit p (inst_of op_split)

abbrev pub emit_char : RegexProgram → ℕ → RegexProgram
emit_char p c = emit p (record (inst_of op_char) { ch = c })

abbrev pub emit_any : RegexProgram → RegexProgram
emit_any p = emit p (inst_of op_any)

abbrev pub emit_class : RegexProgram → List ClassRange → Bool → RegexProgram
emit_class p ranges negated =
    let more = record p {
      classes = p.classes ++ ranges ∷ [];
      class_negated = p.class_negated ++ negated ∷ [];
    } in
    emit more (record (inst_of op_class) { class_index = some (length p.classes) })

-- `instructions[index] = f(instructions[index])`
unfoldable pub change : List Inst → ℕ → (Inst → Inst) → List Inst
change [] index f = []
change (inst ∷ rest) zero f = f inst ∷ rest
change (inst ∷ rest) (suc index) f = inst ∷ change rest index f

abbrev pub patch_x : RegexProgram → ℕ → ℕ → RegexProgram
patch_x p index target = record p {
  instructions = change p.instructions index (λ i. record i { x = some target });
}

abbrev pub patch_y : RegexProgram → ℕ → ℕ → RegexProgram
patch_y p index target = record p {
  instructions = change p.instructions index (λ i. record i { y = some target });
}

-- The targets of the jumps behind each alternative.
unfoldable pub patch_all_x : RegexProgram → List ℕ → ℕ → RegexProgram
patch_all_x p [] target = p
patch_all_x p (index ∷ patches) target = patch_all_x (patch_x p index target) patches target

unfoldable pub patch_all_y : RegexProgram → List ℕ → ℕ → RegexProgram
patch_all_y p [] target = p
patch_all_y p (index ∷ patches) target = patch_all_y (patch_y p index target) patches target

-- Each of the copies is the code of the child.
unfoldable pub mandatory_copies : ℕ → (RegexProgram → RegexProgram) → RegexProgram → RegexProgram
mandatory_copies zero compile_child p = p
mandatory_copies (suc n) compile_child p = mandatory_copies n compile_child (compile_child p)

unfoldable pub optional_copies :
    ℕ → (RegexProgram → RegexProgram) → RegexProgram → List ℕ → RegexProgram × List ℕ
optional_copies zero compile_child p patches = (p, patches)
optional_copies (suc n) compile_child p patches =
    let split = here p in
    let opened = patch_x (emit_split p) split (here (emit_split p)) in
    optional_copies n compile_child (compile_child opened) (patches ++ split ∷ [])

abbrev pub star_code : (RegexProgram → RegexProgram) → RegexProgram → RegexProgram
star_code compile_child p =
    let split = here p in
    let opened = patch_x (emit_split p) split (here (emit_split p)) in
    let body = compile_child opened in
    let jmp = here body in
    let closed = patch_x (emit_jmp body) jmp split in patch_y closed split (here closed)

abbrev pub plus_code : (RegexProgram → RegexProgram) → RegexProgram → RegexProgram
plus_code compile_child p =
    let body_start = here p in
    let body = compile_child p in
    let split = here body in
    let opened = patch_x (emit_split body) split body_start in patch_y opened split (here opened)

abbrev pub opt_code : (RegexProgram → RegexProgram) → RegexProgram → RegexProgram
opt_code compile_child p =
    let split = here p in
    let opened = patch_x (emit_split p) split (here (emit_split p)) in
    let body = compile_child opened in patch_y body split (here body)

unfoldable pub repeat_code :
    (RegexProgram → RegexProgram) → ℕ → Option ℕ → RegexProgram → RegexProgram
repeat_code compile_child low none p =
    star_code compile_child (mandatory_copies low compile_child p)
repeat_code compile_child low (some high) p =
    let (copied, patches) =
      optional_copies (high - low) compile_child (mandatory_copies low compile_child p) [] in
    patch_all_y copied patches (here copied)

unfoldable mutual
  pub compile_node : RegexNode → RegexProgram → RegexProgram
  compile_node (literal c) p = emit_char p c
  compile_node any p = emit_any p
  compile_node (class negated ranges) p = emit_class p ranges negated
  compile_node (concat children) p = compile_all children p
  compile_node (alt alternatives) p =
      let (compiled, patches) = compile_alternatives alternatives p [] in
      patch_all_x compiled patches (here compiled)
  compile_node (star child) p = star_code (compile_node child) p
  compile_node (plus child) p = plus_code (compile_node child) p
  compile_node (opt child) p = opt_code (compile_node child) p
  compile_node (repeat child low high) p = repeat_code (compile_node child) low high p
  compile_node (group index child) p =
      emit_save (compile_node child (emit_save p (2 * index))) (2 * index + 1)
  compile_node anchor_start p = emit p (inst_of op_bol)
  compile_node anchor_end p = emit p (inst_of op_eol)

  pub compile_all : RegexNodes → RegexProgram → RegexProgram
  compile_all no_nodes p = p
  compile_all (nodes child children) p = compile_all children (compile_node child p)

  -- The alternatives of a node are two at least, so that the last one is there.
  pub compile_alternatives : RegexNodes → RegexProgram → List ℕ → RegexProgram × List ℕ
  compile_alternatives no_nodes p patches = (p, patches)
  compile_alternatives (nodes last no_nodes) p patches = (compile_node last p, patches)
  compile_alternatives (nodes first (nodes second others)) p patches =
      let split = here p in
      let opened = patch_x (emit_split p) split (here (emit_split p)) in
      let body = compile_node first opened in
      let jmp = here body in
      let left = emit_jmp body in
      compile_alternatives (nodes second others) (patch_y left split (here left))
        (patches ++ jmp ∷ [])

unfoldable pub compile : RegexNode → ℕ → RegexProgram
compile root group_count =
    let empty : RegexProgram = record {
      instructions = [];
      classes = [];
      class_negated = [];
      group_count = group_count;
    } in
    emit_match (emit_save (compile_node root (emit_save empty 0)) 1)
