-- ===== src/Regex/Compiler/Code.antt =====
-- Where the code of a node lies in a program, said without the order of its writing.
pub mod Extends
use lumiere.Common.{
  ℕ, zero, suc, ◌+◌, ◌-◌, ◌*◌, ◌≤◌, ◌<◌, ◌≡◌, Bool, Option, none, some, List, [], ◌∷◌, length,
  get_elem?,
}
use lumiere.Regex.{
  ClassRange, RegexNode, literal, any, class, concat, alt, star, plus, opt, repeat, group,
  anchor_start, anchor_end, RegexNodes, no_nodes, nodes, op_char, op_any, op_class, op_bol, op_eol,
  op_save, op_jmp, op_split, op_match, Inst, RegexProgram,
}
use lumiere.Regex.Compiler.{inst_of}

abbrev pub Has : RegexProgram → ℕ → Inst → Type 0
Has q i inst = get_elem? q.instructions i ≡ some inst

abbrev pub char_inst : ℕ → Inst
char_inst c = record (inst_of op_char) { ch = c }

abbrev pub class_inst : ℕ → Inst
class_inst k = record (inst_of op_class) { class_index = some k }

abbrev pub save_inst : ℕ → Inst
save_inst slot = record (inst_of op_save) { slot = some slot }

abbrev pub jmp_inst : ℕ → Inst
jmp_inst target = record (inst_of op_jmp) { x = some target }

abbrev pub split_inst : ℕ → ℕ → Inst
split_inst first second = record (inst_of op_split) { x = some first; y = some second }

-- n pieces of code, one behind the other
abbrev pub Copies : (ℕ → ℕ → Type 0) → ℕ → ℕ → ℕ → Type 0
Copies P zero a b = a ≡ b
Copies P (suc n) a b = (m : ℕ) × P a m × Copies P n m b

-- n pieces of code, each behind a choice to leave for the end
abbrev pub Optionals : RegexProgram → (ℕ → ℕ → Type 0) → ℕ → ℕ → ℕ → Type 0
Optionals q P zero a end = a ≡ end
Optionals q P (suc n) a end =
    (m : ℕ) × Has q a (split_inst (a + 1) end) × P (a + 1) m × Optionals q P n m end

abbrev pub Loop : RegexProgram → (ℕ → ℕ → Type 0) → ℕ → ℕ → Type 0
Loop q P a b =
    (m : ℕ) × Has q a (split_inst (a + 1) b) × P (a + 1) m × Has q m (jmp_inst a) × (b ≡ m + 1)

unfoldable mutual
  pub Code : RegexProgram → RegexNode → ℕ → ℕ → Type 0
  Code q (literal c) a b = Has q a (char_inst c) × (b ≡ a + 1)
  Code q any a b = Has q a (inst_of op_any) × (b ≡ a + 1)
  Code q (class negated ranges) a b =
      (k : ℕ) × Has q a (class_inst k)
      × (get_elem? q.classes k ≡ some ranges)
      × (get_elem? q.class_negated k ≡ some negated)
      × (b ≡ a + 1)
  Code q (concat children) a b = CodeAll q children a b
  Code q (alt alternatives) a b = CodeAlternatives q alternatives a b
  Code q (star child) a b = Loop q (Code q child) a b
  Code q (plus child) a b = (m : ℕ) × Code q child a m × Has q m (split_inst a b) × (b ≡ m + 1)
  Code q (opt child) a b = Has q a (split_inst (a + 1) b) × Code q child (a + 1) b
  Code q (repeat child low none) a b =
      (m : ℕ) × Copies (Code q child) low a m × Loop q (Code q child) m b
  Code q (repeat child low (some high)) a b =
      (m : ℕ) × Copies (Code q child) low a m × Optionals q (Code q child) (high - low) m b
  Code q (group index child) a b =
      (m : ℕ) × Has q a (save_inst (2 * index))
      × Code q child (a + 1) m
      × Has q m (save_inst (2 * index + 1))
      × (b ≡ m + 1)
  Code q anchor_start a b = Has q a (inst_of op_bol) × (b ≡ a + 1)
  Code q anchor_end a b = Has q a (inst_of op_eol) × (b ≡ a + 1)

  pub CodeAll : RegexProgram → RegexNodes → ℕ → ℕ → Type 0
  CodeAll q no_nodes a b = a ≡ b
  CodeAll q (nodes child children) a b = (m : ℕ) × Code q child a m × CodeAll q children m b

  -- each but the last behind a choice, and followed by a jump to the end
  pub CodeAlternatives : RegexProgram → RegexNodes → ℕ → ℕ → Type 0
  CodeAlternatives q no_nodes a end = a ≡ end
  CodeAlternatives q (nodes last no_nodes) a end = Code q last a end
  CodeAlternatives q (nodes first (nodes second others)) a end =
      (m : ℕ) × Has q a (split_inst (a + 1) (m + 1))
      × Code q first (a + 1) m
      × Has q m (jmp_inst end)
      × CodeAlternatives q (nodes second others) (m + 1) end
