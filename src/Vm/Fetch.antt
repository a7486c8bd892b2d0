-- ===== src/Vm/Fetch.antt =====
-- How `run_frames` of src/interpreter/vm/vm.cpp reads the instruction at `ip` and moves `ip` on: the
-- operand reads, the checks of an index against its table and the choice of the next offset. The
-- stack and the values are not modelled: what an instruction raises because of them ends the run. The
-- source locations, which serve diagnostics, are not read.
mod Reads
mod Operands
mod Scan
pub mod Safety
use Prim.Native.Nat.{bit_or}
use lumiere.Common.{
  ℕ, zero, suc, ◌+◌, ◌*◌, Bool, true, not, ◌&&◌, Option, none, some, List, [], ◌∷◌, length,
  get_elem?, leb, ltb, ◌==◌, if◌then◌else◌,
}
use lumiere.Vm.Opcode.{Opcode, opcode_of}
use lumiere.Vm.Bytecode.{
  Chunk, FunctionBytecode, ModuleBytecode, CaptureSource, VmMethodDescriptor, VmNamespaceMember,
}
use lumiere.Vm.Verifier.{Operand}
use lumiere.Vm.Verifier.{
  constante, globale, variable_locale, membre, classe, espace_de_noms, annotation, fonction, appel,
}

-- What a frame holds for the function that it runs: its local slots and its captures.
pub record Frame : Type 0 where
  pub locals : ℕ
  pub captures : ℕ

pub data Fetched : Type 0 where
  -- Execution goes on at this offset, in this frame.
  next : ℕ → Fetched
  -- The frame is left: RETURN, or the error that MATCH_ERROR raises.
  leaves : Fetched
  -- "VM: fonction terminée sans RETURN"
  ended : Fetched
  -- An index that is outside its table, and a jump target outside the code: `VmRuntimeError`.
  invalid : Operand → Fetched
  invalid_target : Fetched
  -- An index that the verifier does not bound and that is outside its table: a capture's source, an
  -- argument's name, the type of an annotation, the global of an export. `VmRuntimeError`, too.
  raised : Fetched
  -- A read outside the code, which only the assertion of `read_byte` tests.
  fault : Fetched

-- A read from the code at `ip`, with the `ip` after it; `none` is a read outside the code.
abbrev pub Read : Type 0 → Type 0
Read A = ℕ → Option (A × ℕ)

infixl 5 ◌>>=◌
abbrev pub ◌>>=◌ : {A : Type 0} → Read A → (A → ℕ → Fetched) → ℕ → Fetched
◌>>=◌ m f ip = elim (m ip) [ none ↦ fault | some (a, ip') ↦ f a ip' ]

abbrev go_on : ℕ → Fetched
go_on ip = next ip

module _ {ℓ} {V : Type ℓ} (chunk : Chunk V) where
  unfoldable pub read_byte_of : Read ℕ
  read_byte_of ip = elim (get_elem? chunk.code ip) [ none ↦ none | some byte ↦ some (byte, ip + 1) ]

  unfoldable pub read_u16_of : Read ℕ
  read_u16_of ip = elim (read_byte_of ip) [
    | none ↦ none
    | some (byte1, ip1) ↦ elim (read_byte_of ip1) [
      | none ↦ none
      | some (byte0, ip0) ↦ some (bit_or (byte1 * 256) byte0, ip0)
    ]
  ]

  unfoldable pub read_u24_of : Read ℕ
  read_u24_of ip = elim (read_byte_of ip) [
    | none ↦ none
    | some (byte2, ip2) ↦ elim (read_byte_of ip2) [
      | none ↦ none
      | some (byte1, ip1) ↦ elim (read_byte_of ip1) [
        | none ↦ none
        | some (byte0, ip0) ↦ some (bit_or (bit_or (byte2 * 65536) (byte1 * 256)) byte0, ip0)
      ]
    ]
  ]

module _ {ℓ} {V : Type ℓ} (bytecode : ModuleBytecode V) (function : FunctionBytecode V)
    (frame : Frame) where
  abbrev read_byte : Read ℕ
  read_byte = read_byte_of function.chunk

  abbrev read_u16 : Read ℕ
  read_u16 = read_u16_of function.chunk

  abbrev read_u24 : Read ℕ
  read_u24 = read_u24_of function.chunk

  unfoldable pub fetch_index : Read ℕ → ℕ → Operand → ℕ → Fetched
  fetch_index read limit what = do
    value ← read
    λ ip. if leb limit value then invalid what else next ip

  unfoldable pub jump_to : ℕ → ℕ → Fetched
  jump_to target ip =
      if leb (length function.chunk.code) target then invalid_target else next target

  -- An index into a table whose entry is tested before execution goes on.
  unfoldable pub fetch_entry : Read ℕ → ℕ → Operand → (ℕ → Bool) → ℕ → Fetched
  fetch_entry read limit what fits = do
    value ← read
    λ ip. if leb limit value then invalid what else if fits value then next ip else raised

  -- `CallFrame::capture`
  unfoldable pub is_capture : Bool → ℕ → Bool
  is_capture from_capture index = ltb index (if from_capture then frame.captures else frame.locals)

  -- A source flag and an index for each capture.
  unfoldable pub fetch_captures : ℕ → ℕ → Fetched
  fetch_captures zero ip = next ip
  fetch_captures (suc count) ip =
      let rest : ℕ → Fetched = fetch_captures count in
      (do
        from_capture ← read_byte
        source_index ← read_byte
        λ ip'. if is_capture (not (from_capture == 0)) source_index then rest ip' else raised)
        ip

  unfoldable pub fetch_closure : ℕ → Fetched
  fetch_closure = do
    function_index ← read_u16
    capture_count ← read_byte
    λ ip.
        if leb (length bytecode.functions) function_index
        then invalid fonction
        else fetch_captures capture_count ip

  -- The name of each argument, which `ArgumentNames` reads without a test of the end of the code.
  unfoldable pub fetch_names : ℕ → ℕ → Fetched
  fetch_names zero ip = next ip
  fetch_names (suc arity) ip =
      let rest : ℕ → Fetched = fetch_names arity in
      (do
        name ← read_u16
        λ ip'. if leb (length bytecode.argument_names) name then raised else rest ip')
        ip

  unfoldable pub fetch_arguments : ℕ → Fetched
  fetch_arguments = do arity ← read_byte; fetch_names arity

  unfoldable pub fetch_call : Read ℕ → ℕ → ℕ → Fetched
  fetch_call read limit = do
    callee ← read
    arity ← read_byte
    λ ip. if leb limit callee then invalid appel else fetch_names arity ip

  unfoldable pub sources_fit : List CaptureSource → Bool
  sources_fit [] = true
  sources_fit (source ∷ sources) =
      is_capture source.from_capture source.index && sources_fit sources

  unfoldable pub methods_fit : List VmMethodDescriptor → Bool
  methods_fit [] = true
  methods_fit (method ∷ methods) = sources_fit method.capture_sources && methods_fit methods

  -- The captures of the methods of a class.
  unfoldable pub class_fits : ℕ → Bool
  class_fits index = elim (get_elem? bytecode.classes index) [
    | none ↦ true
    | some descriptor ↦ methods_fit descriptor.methods
  ]

  unfoldable pub members_fit : List VmNamespaceMember → Bool
  members_fit [] = true
  members_fit (member ∷ members) =
      ltb member.global_index (length bytecode.globals) && members_fit members

  -- The exports of a namespace; whether each global has its value is left to the values.
  unfoldable pub namespace_fits : ℕ → Bool
  namespace_fits index = elim (get_elem? bytecode.namespaces index) [
    | none ↦ true
    | some descriptor ↦ members_fit descriptor.members
  ]

  unfoldable pub annotation_fits : ℕ → Bool
  annotation_fits index = elim (get_elem? bytecode.annotations index) [
    | none ↦ true
    | some asserted ↦ ltb asserted.type_index (length bytecode.types)
  ]

  -- `condition` is the truth of the value that JUMP_IF_FALSE takes from the stack.
  unfoldable pub fetch_operands : Bool → Opcode → ℕ → Fetched
  fetch_operands condition Opcode.constant =
      fetch_index read_byte (length function.chunk.constants) constante
  fetch_operands condition Opcode.constant_long =
      fetch_index read_u24 (length function.chunk.constants) constante
  fetch_operands condition Opcode.get_global =
      fetch_index read_byte (length bytecode.globals) globale
  fetch_operands condition Opcode.set_global =
      fetch_index read_byte (length bytecode.globals) globale
  fetch_operands condition Opcode.init_global =
      fetch_index read_byte (length bytecode.globals) globale
  fetch_operands condition Opcode.get_global_long =
      fetch_index read_u24 (length bytecode.globals) globale
  fetch_operands condition Opcode.set_global_long =
      fetch_index read_u24 (length bytecode.globals) globale
  fetch_operands condition Opcode.init_global_long =
      fetch_index read_u24 (length bytecode.globals) globale
  fetch_operands condition Opcode.get_local = fetch_index read_byte frame.locals variable_locale
  fetch_operands condition Opcode.set_local = fetch_index read_byte frame.locals variable_locale
  fetch_operands condition Opcode.clear_locals = (do first ← read_byte; count ← read_byte; go_on)
  fetch_operands condition Opcode.get_capture = fetch_index read_byte frame.captures Operand.capture
  fetch_operands condition Opcode.set_capture = fetch_index read_byte frame.captures Operand.capture
  fetch_operands condition Opcode.list = (do count ← read_byte; go_on)
  fetch_operands condition Opcode.dictionary = (do count ← read_byte; go_on)
  fetch_operands condition Opcode.ensemble = (do count ← read_byte; go_on)
  fetch_operands condition Opcode.closure = fetch_closure
  fetch_operands condition Opcode.jump = (do target ← read_u16; jump_to target)
  fetch_operands condition Opcode.jump_if_false = (do
    true_target ← read_u16
    false_target ← read_u16
    jump_to (if condition then true_target else false_target))
  fetch_operands condition Opcode.call = fetch_arguments
  fetch_operands condition Opcode.call_global = fetch_call read_byte (length bytecode.globals)
  fetch_operands condition Opcode.call_global_long = fetch_call read_u24 (length bytecode.globals)
  fetch_operands condition Opcode.call_member = fetch_call read_byte (length bytecode.members)
  fetch_operands condition Opcode.call_parent = fetch_call read_byte (length bytecode.members)
  fetch_operands condition Opcode.call_member_long = fetch_call read_u24 (length bytecode.members)
  fetch_operands condition Opcode.call_parent_long = fetch_call read_u24 (length bytecode.members)
  fetch_operands condition Opcode.get_member =
      fetch_index read_byte (length bytecode.members) membre
  fetch_operands condition Opcode.get_parent =
      fetch_index read_byte (length bytecode.members) membre
  fetch_operands condition Opcode.set_member =
      fetch_index read_byte (length bytecode.members) membre
  fetch_operands condition Opcode.get_member_long =
      fetch_index read_u24 (length bytecode.members) membre
  fetch_operands condition Opcode.get_parent_long =
      fetch_index read_u24 (length bytecode.members) membre
  fetch_operands condition Opcode.set_member_long =
      fetch_index read_u24 (length bytecode.members) membre
  fetch_operands condition Opcode.class =
      fetch_entry read_u16 (length bytecode.classes) classe class_fits
  fetch_operands condition Opcode.interface =
      fetch_index read_u16 (length bytecode.interfaces) Operand.interface
  fetch_operands condition Opcode.namespace =
      fetch_entry read_u16 (length bytecode.namespaces) espace_de_noms namespace_fits
  fetch_operands condition Opcode.assert_type =
      fetch_entry read_byte (length bytecode.annotations) annotation annotation_fits
  fetch_operands condition Opcode.assert_type_long =
      fetch_entry read_u24 (length bytecode.annotations) annotation annotation_fits
  fetch_operands condition Opcode.cast = fetch_index read_byte (length bytecode.types) Operand.type
  fetch_operands condition Opcode.type_check =
      fetch_index read_byte (length bytecode.types) Operand.type
  fetch_operands condition Opcode.result_failure_type =
      fetch_index read_byte (length bytecode.types) Operand.type
  fetch_operands condition Opcode.cast_long =
      fetch_index read_u24 (length bytecode.types) Operand.type
  fetch_operands condition Opcode.type_check_long =
      fetch_index read_u24 (length bytecode.types) Operand.type
  fetch_operands condition Opcode.result_failure_type_long =
      fetch_index read_u24 (length bytecode.types) Operand.type
  fetch_operands condition Opcode.match_error = (λ ip. leaves)
  fetch_operands condition Opcode.return = (λ ip. leaves)
  fetch_operands condition _ = go_on

  -- A byte that is no opcode matches no case of the `switch`.
  unfoldable pub fetch_opcode : Bool → Option Opcode → ℕ → Fetched
  fetch_opcode condition none = go_on
  fetch_opcode condition (some opcode) = fetch_operands condition opcode

  unfoldable pub fetch : Bool → ℕ → Fetched
  fetch condition ip =
      if leb (length function.chunk.code) ip
      then ended
      else (do byte ← read_byte; fetch_opcode condition (opcode_of byte)) ip
