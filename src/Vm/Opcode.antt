-- ===== src/Vm/Opcode.antt =====
-- The opcodes of the virtual machine (include/lumiere/interpreter/vm/bytecode.hpp) and the byte
-- that stands for each.
use lumiere.Common.{ℕ, Option, List, [], ◌∷◌, get_elem?}

pub data Opcode : Type 0 where
  constant constant_long nil true_value false_value get_global get_global_long : Opcode
  set_global set_global_long init_global init_global_long get_local set_local : Opcode
  clear_locals get_capture set_capture closure jump jump_if_false negate not add : Opcode
  subtract multiply divide modulo equal not_equal less less_equal greater : Opcode
  greater_equal call call_global call_global_long call_member call_member_long : Opcode
  call_parent call_parent_long get_member get_member_long get_parent get_parent_long : Opcode
  set_member set_member_long class interface namespace list dictionary ensemble : Opcode
  iteration_snapshot sequence_length index_get index_set cast cast_long type_check : Opcode
  type_check_long assert_type assert_type_long match_error result_is_success : Opcode
  result_failure_type result_failure_type_long result_payload pop propagate : Opcode
  ignore_result return : Opcode

-- `static_cast<std::uint8_t>(opcode)`: the position in the enumeration.
unfoldable pub byte_of : Opcode → ℕ
byte_of constant = 0
byte_of constant_long = 1
byte_of nil = 2
byte_of true_value = 3
byte_of false_value = 4
byte_of get_global = 5
byte_of get_global_long = 6
byte_of set_global = 7
byte_of set_global_long = 8
byte_of init_global = 9
byte_of init_global_long = 10
byte_of get_local = 11
byte_of set_local = 12
byte_of clear_locals = 13
byte_of get_capture = 14
byte_of set_capture = 15
byte_of closure = 16
byte_of jump = 17
byte_of jump_if_false = 18
byte_of negate = 19
byte_of not = 20
byte_of add = 21
byte_of subtract = 22
byte_of multiply = 23
byte_of divide = 24
byte_of modulo = 25
byte_of equal = 26
byte_of not_equal = 27
byte_of less = 28
byte_of less_equal = 29
byte_of greater = 30
byte_of greater_equal = 31
byte_of call = 32
byte_of call_global = 33
byte_of call_global_long = 34
byte_of call_member = 35
byte_of call_member_long = 36
byte_of call_parent = 37
byte_of call_parent_long = 38
byte_of get_member = 39
byte_of get_member_long = 40
byte_of get_parent = 41
byte_of get_parent_long = 42
byte_of set_member = 43
byte_of set_member_long = 44
byte_of class = 45
byte_of interface = 46
byte_of namespace = 47
byte_of list = 48
byte_of dictionary = 49
byte_of ensemble = 50
byte_of iteration_snapshot = 51
byte_of sequence_length = 52
byte_of index_get = 53
byte_of index_set = 54
byte_of cast = 55
byte_of cast_long = 56
byte_of type_check = 57
byte_of type_check_long = 58
byte_of assert_type = 59
byte_of assert_type_long = 60
byte_of match_error = 61
byte_of result_is_success = 62
byte_of result_failure_type = 63
byte_of result_failure_type_long = 64
byte_of result_payload = 65
byte_of pop = 66
byte_of propagate = 67
byte_of ignore_result = 68
byte_of return = 69

abbrev all_opcodes : List Opcode
all_opcodes =
    constant ∷ constant_long ∷ nil ∷ true_value ∷ false_value ∷ get_global ∷ get_global_long
    ∷ set_global ∷ set_global_long ∷ init_global ∷ init_global_long ∷ get_local ∷ set_local
    ∷ clear_locals ∷ get_capture ∷ set_capture ∷ closure ∷ jump ∷ jump_if_false ∷ negate ∷ not ∷ add
    ∷ subtract ∷ multiply ∷ divide ∷ modulo ∷ equal ∷ not_equal ∷ less ∷ less_equal ∷ greater
    ∷ greater_equal ∷ call ∷ call_global ∷ call_global_long ∷ call_member ∷ call_member_long
    ∷ call_parent ∷ call_parent_long ∷ get_member ∷ get_member_long ∷ get_parent ∷ get_parent_long
    ∷ set_member ∷ set_member_long ∷ class ∷ interface ∷ namespace ∷ list ∷ dictionary ∷ ensemble
    ∷ iteration_snapshot ∷ sequence_length ∷ index_get ∷ index_set ∷ cast ∷ cast_long ∷ type_check
    ∷ type_check_long ∷ assert_type ∷ assert_type_long ∷ match_error ∷ result_is_success
    ∷ result_failure_type ∷ result_failure_type_long ∷ result_payload ∷ pop ∷ propagate
    ∷ ignore_result ∷ return ∷ []

-- `static_cast<Opcode>(byte)` where the byte is at most that of RETURN.
unfoldable pub opcode_of : ℕ → Option Opcode
opcode_of byte = get_elem? all_opcodes byte
