-- ===== src/Vm/Tests.antt =====
-- Small modules run through the verifier and the interpreter's reads (tests/test_vm_verifier.cpp has
-- the first two), and the theorems at those modules.
use lumiere.Common.{ℕ, suc, ◌≡◌, ◌≢◌, refl, true, false, some, List, [], ◌∷◌, get_elem?, arith}
use lumiere.Vm.Opcode.{Opcode, opcode_of}
use lumiere.Vm.Bytecode.{Chunk, FunctionBytecode, ModuleBytecode}
use lumiere.Vm.Verifier.{
  ok, refused, fault, stuck, bad_jump, available, u8, u16, u24, skip, index, local_range, push_jump,
  jump, closure, argument_names, arity_and_names, call, operands, known, step, scan, check_jumps,
  finish, verify, verify_functions, verify_module, ends_function,
}
use lumiere.Vm.Verifier.Total.{verify_module_total}
use lumiere.Vm.Fetch.{
  Frame, fetch, fetch_opcode, fetch_operands, fetch_index, jump_to, read_byte_of, read_u16_of,
  ended,
}
use lumiere.Vm.Fetch.Safety.{Reaches, entry, onward, IsSafe, verify_module-IsSafe, verify-ended}
use lumiere.Vm.Writer.{written, write_index_ref}
use lumiere.Vm.Writer.Laws.{ReadsBack, write_index_ref-ReadsBack}

abbrev function_of : List ℕ → FunctionBytecode ℕ
function_of code = record {
  name = "essai";
  return_type = "";
  source_path = "";
  source_text = "";
  arity = 0;
  source_arity = 0;
  optional_params = [];
  parameter_names = [];
  local_slot_count = 0;
  capture_count = 0;
  is_module_initializer = false;
  chunk = record { code = code; constants = 1 ∷ []; locations = [] };
}

abbrev module_of : List ℕ → ModuleBytecode ℕ
module_of code = record {
  source_path = "";
  globals = [];
  types = [];
  annotations = [];
  members = [];
  classes = [];
  interfaces = [];
  argument_names = [];
  namespaces = [];
  functions = function_of code ∷ [];
  entry_function_index = 0;
  initializer_function_index = 0;
  initializer_function_indices = [];
}

-- JUMP over a RETURN to a CONSTANT and a JUMP_IF_FALSE back to the RETURN.
abbrev branch_last : List ℕ
branch_last = 17 ∷ 0 ∷ 4 ∷ 69 ∷ 0 ∷ 0 ∷ 18 ∷ 0 ∷ 3 ∷ 0 ∷ 3 ∷ []

-- A JUMP into the operand of a CONSTANT.
abbrev jump_inside : List ℕ
jump_inside = 0 ∷ 0 ∷ 17 ∷ 0 ∷ 1 ∷ 69 ∷ []

-- A CONSTANT and a PROPAGATE with nothing behind it.
abbrev propagate_last : List ℕ
propagate_last = 0 ∷ 0 ∷ 67 ∷ []

abbrev no_slots : Frame
no_slots = record { locals = 0; captures = 0 }

branch_last_accepted :
    verify_module (module_of branch_last) ≡ ok tt (record { offset = 0; jumps = [] })
unfolding verify_module verify_functions verify finish check_jumps ends_function scan step known
    operands call arity_and_names argument_names closure jump push_jump local_range index skip u8
    u16 u24 available opcode_of
branch_last_accepted = refl

jump_inside-refused :
    verify_module (module_of jump_inside)
    ≡ refused (record { function = "essai"; offset = 2; reason = bad_jump 1 })
unfolding verify_module verify_functions verify finish check_jumps ends_function scan step known
    operands call arity_and_names argument_names closure jump push_jump local_range index skip u8
    u16 u24 available opcode_of
jump_inside-refused = refl

propagate_last_accepted :
    verify (module_of propagate_last) (function_of propagate_last)
    ≡ ok tt (record { offset = 3; jumps = [] })
unfolding verify finish check_jumps ends_function scan step known operands call arity_and_names
    argument_names closure jump push_jump local_range index skip u8 u16 u24 available opcode_of
propagate_last_accepted = refl

branch_last_reached : Reaches (module_of branch_last) (function_of branch_last) no_slots 6
unfolding fetch fetch_opcode fetch_operands fetch_index jump_to read_byte_of read_u16_of opcode_of
branch_last_reached =
    onward {ip = 4} {ip' = 6} true (onward {ip = 0} {ip' = 4} true entry refl) refl

verify_module-IsSafe_example :
    IsSafe (fetch (module_of branch_last) (function_of branch_last) no_slots false 6)
verify_module-IsSafe_example =
    verify_module-IsSafe (module_of branch_last) 0 (function_of branch_last) no_slots false 6
      branch_last_accepted refl refl refl branch_last_reached

verify_module_total_example :
    (verify_module (module_of jump_inside) ≢ fault)
    × (verify_module (module_of jump_inside) ≢ stuck)
verify_module_total_example = verify_module_total (module_of jump_inside)

past_end_reached : Reaches (module_of propagate_last) (function_of propagate_last) no_slots 3
unfolding fetch fetch_opcode fetch_operands fetch_index jump_to read_byte_of read_u16_of opcode_of
past_end_reached = onward {ip = 2} {ip' = 3} true (onward {ip = 0} {ip' = 2} true entry refl) refl

runs_past_the_end :
    fetch (module_of propagate_last) (function_of propagate_last) no_slots true 3 ≡ ended
unfolding fetch
runs_past_the_end = refl

verify-ended_example :
    (k : ℕ) × (suc k ≡ 3)
    × ((byte : ℕ) × (get_elem? propagate_last k ≡ some byte)
        × (opcode_of byte ≡ some Opcode.propagate))
verify-ended_example =
    verify-ended (module_of propagate_last) (function_of propagate_last) no_slots refl refl
      propagate_last_accepted true 3 past_end_reached runs_past_the_end

abbrev empty_chunk : Chunk ℕ
empty_chunk = record { code = []; constants = []; locations = [] }

write_index_ref-ReadsBack_example :
    (chunk : Chunk ℕ) × (write_index_ref empty_chunk Opcode.cast Opcode.cast_long 70000
        (record { line = 1; column = 1 })
      ≡ written chunk)
    × ReadsBack chunk 0 Opcode.cast Opcode.cast_long 70000
write_index_ref-ReadsBack_example =
    write_index_ref-ReadsBack empty_chunk Opcode.cast Opcode.cast_long 70000
      (record { line = 1; column = 1 }) (omega arith)
