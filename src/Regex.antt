-- ===== src/Regex.antt =====
-- The regular expressions of the standard library (src/interpreter/stdlib/regex.cpp): the tree of a
-- pattern, the program that is compiled from it, and what a tree matches.
pub mod Compiler
pub mod Paths
pub mod Sound
pub mod Complete
pub mod Matching
pub mod Matcher
mod Tests
use lumiere.Common.{
  ℕ, zero, suc, ◌+◌, Bool, true, false, not, ◌&&◌, ◌||◌, Option, none, some, List, [], ◌∷◌, ◌++◌,
  leb,
}

pub record ClassRange : Type 0 where
  pub lo : ℕ
  pub hi : ℕ

-- A node with the fields that its kind uses; `none` for an unbounded repetition.
mutual
  pub data RegexNode : Type 0 where
    literal : ℕ → RegexNode
    any : RegexNode
    class : Bool → List ClassRange → RegexNode
    concat : RegexNodes → RegexNode
    alt : RegexNodes → RegexNode
    star : RegexNode → RegexNode
    plus : RegexNode → RegexNode
    opt : RegexNode → RegexNode
    repeat : RegexNode → ℕ → Option ℕ → RegexNode
    group : ℕ → RegexNode → RegexNode
    anchor_start : RegexNode
    anchor_end : RegexNode

  pub data RegexNodes : Type 0 where
    no_nodes : RegexNodes
    nodes : RegexNode → RegexNodes → RegexNodes

pub data Op : Type 0 where
  op_char : Op
  op_any : Op
  op_class : Op
  op_bol : Op
  op_eol : Op
  op_save : Op
  op_jmp : Op
  op_split : Op
  op_match : Op

-- `none` is the -1 that a field starts with.
pub record Inst : Type 0 where
  pub op : Op
  pub ch : ℕ
  pub x : Option ℕ
  pub y : Option ℕ
  pub slot : Option ℕ
  pub class_index : Option ℕ

pub record RegexProgram : Type 0 where
  pub instructions : List Inst
  pub classes : List (List ClassRange)
  pub class_negated : List Bool
  pub group_count : ℕ
