-- ===== src/Vm/Verifier.antt =====
-- src/interpreter/vm/verifier.cpp: the walk over one function's code. A method acts on the walk's
-- state; it succeeds, refuses the module with a reason, or reads outside the code (`fault`), which
-- in C++ would be undefined behaviour. `stuck` is no outcome of the source: the loop's fuel ran out.
pub mod Total
mod State
pub use State.*
use Prim.Native.Nat.{bit_or}
use Prim.Native.String.{String}
use lumiere.Common.{
  ℕ, zero, suc, ◌+◌, ◌*◌, Bool, true, false, not, ◌||◌, ◌≡◌, refl, Option, none, some, List, [],
  ◌∷◌, ◌++◌, length, get_elem?, ltb, leb, ◌==◌, if◌then◌else◌,
}
use lumiere.Vm.Opcode.{Opcode, opcode_of}
use lumiere.Vm.Bytecode.{FunctionBytecode, ModuleBytecode}

-- `width == 1 ? u8() : width == 2 ? u16() : u24()`
module _ {ℓ} {V : Type ℓ} (bytecode : ModuleBytecode V) (function : FunctionBytecode V)
    (instruction : ℕ) where
  abbrev pub fail {κ} : {A : Type κ} → Reason → Verify A
  fail reason w =
      refused (record { function = function.name; offset = instruction; reason = reason })

  unfoldable pub available : ℕ → Walk → Bool
  available bytes w = leb (w.offset + bytes) (length function.chunk.code)

  unfoldable pub u8 : Verify ℕ
  u8 w = elim (get_elem? function.chunk.code w.offset) [
    | none ↦ fault
    | some byte ↦ ok byte (record w { offset = w.offset + 1 })
  ]

  unfoldable pub u16 : Verify ℕ
  u16 = do high ← u8; low ← u8; λ w. ok (bit_or (high * 256) low) w

  unfoldable pub u24 : Verify ℕ
  u24 = do
    high ← u8
    middle ← u8
    low ← u8
    λ w. ok (bit_or (bit_or (high * 65536) (middle * 256)) low) w

  unfoldable pub skip : ℕ → Verify (Unit {0})
  skip bytes w =
      if not (available bytes w)
      then fail truncated_operand w
      else ok tt (record w { offset = w.offset + bytes })

  abbrev pub operand : ℕ → Verify ℕ
  operand width = if width == 1 then u8 else if width == 2 then u16 else u24

  unfoldable pub index : ℕ → ℕ → Operand → Verify (Unit {0})
  index width limit what w =
      if not (available width w)
      then fail (truncated_index what) w
      else (do
        value ← operand width
        if leb limit value then fail (outside_table what value limit) else return_ok)
          w

  unfoldable pub local_range : Verify (Unit {0})
  local_range w =
      if not (available 2 w)
      then fail truncated_range w
      else (do
        first ← u8
        count ← u8
        if ltb function.local_slot_count (first + count)
            then fail (range_outside_frame first count function.local_slot_count)
            else return_ok)
          w

  unfoldable pub push_jump : ℕ → Verify (Unit {0})
  push_jump target w = ok tt (record w { jumps = w.jumps ++ ((target, instruction) ∷ []) })

  -- The loop runs `targets` times.
  unfoldable pub jump : ℕ → Verify (Unit {0})
  jump zero w = ok tt w
  jump (suc targets) w =
      let rest : Verify (Unit {0}) = jump targets in
      if not (available 2 w)
      then fail truncated_jump w
      else (do target ← u16; push_jump target; rest) w

  unfoldable pub closure : Verify (Unit {0})
  closure = do
    index 2 (length bytecode.functions) fonction
    λ w.
        if not (available 1 w)
        then fail truncated_captures w
        else (do captures ← u8; skip (captures * 2)) w

  -- One argument-name index per argument.
  unfoldable pub argument_names : ℕ → Verify (Unit {0})
  argument_names zero = return_ok
  argument_names (suc arity) =
      index 2 (length bytecode.argument_names + 1) nom_d_argument >> argument_names arity

  unfoldable pub arity_and_names : Verify (Unit {0})
  arity_and_names w =
      if not (available 1 w)
      then fail truncated_arity w
      else (do arity ← u8; argument_names arity) w

  unfoldable pub call : ℕ → ℕ → Verify (Unit {0})
  call callee_width callee_limit =
      if callee_width == 0
      then arity_and_names
      else index callee_width callee_limit appel >> arity_and_names

  -- The `switch` of `step`: every opcode that it does not list takes no operand.
  unfoldable pub operands : Opcode → Verify (Unit {0})
  operands Opcode.constant = index 1 (length function.chunk.constants) constante
  operands Opcode.constant_long = index 3 (length function.chunk.constants) constante
  operands Opcode.get_global = index 1 (length bytecode.globals) globale
  operands Opcode.set_global = index 1 (length bytecode.globals) globale
  operands Opcode.init_global = index 1 (length bytecode.globals) globale
  operands Opcode.get_global_long = index 3 (length bytecode.globals) globale
  operands Opcode.set_global_long = index 3 (length bytecode.globals) globale
  operands Opcode.init_global_long = index 3 (length bytecode.globals) globale
  operands Opcode.get_local = index 1 function.local_slot_count variable_locale
  operands Opcode.set_local = index 1 function.local_slot_count variable_locale
  operands Opcode.clear_locals = local_range
  operands Opcode.get_capture = index 1 function.capture_count Operand.capture
  operands Opcode.set_capture = index 1 function.capture_count Operand.capture
  operands Opcode.list = skip 1
  operands Opcode.dictionary = skip 1
  operands Opcode.ensemble = skip 1
  operands Opcode.closure = closure
  operands Opcode.jump = jump 1
  operands Opcode.jump_if_false = jump 2
  operands Opcode.call = call 0 0
  operands Opcode.call_global = call 1 (length bytecode.globals)
  operands Opcode.call_global_long = call 3 (length bytecode.globals)
  operands Opcode.call_member = call 1 (length bytecode.members)
  operands Opcode.call_parent = call 1 (length bytecode.members)
  operands Opcode.call_member_long = call 3 (length bytecode.members)
  operands Opcode.call_parent_long = call 3 (length bytecode.members)
  operands Opcode.get_member = index 1 (length bytecode.members) membre
  operands Opcode.get_parent = index 1 (length bytecode.members) membre
  operands Opcode.set_member = index 1 (length bytecode.members) membre
  operands Opcode.get_member_long = index 3 (length bytecode.members) membre
  operands Opcode.get_parent_long = index 3 (length bytecode.members) membre
  operands Opcode.set_member_long = index 3 (length bytecode.members) membre
  operands Opcode.class = index 2 (length bytecode.classes) classe
  operands Opcode.interface = index 2 (length bytecode.interfaces) Operand.interface
  operands Opcode.namespace = index 2 (length bytecode.namespaces) espace_de_noms
  operands Opcode.assert_type = index 1 (length bytecode.annotations) annotation
  operands Opcode.assert_type_long = index 3 (length bytecode.annotations) annotation
  operands Opcode.cast = index 1 (length bytecode.types) Operand.type
  operands Opcode.type_check = index 1 (length bytecode.types) Operand.type
  operands Opcode.result_failure_type = index 1 (length bytecode.types) Operand.type
  operands Opcode.cast_long = index 3 (length bytecode.types) Operand.type
  operands Opcode.type_check_long = index 3 (length bytecode.types) Operand.type
  operands Opcode.result_failure_type_long = index 3 (length bytecode.types) Operand.type
  operands _ = return_ok

  unfoldable pub known : Option Opcode → ℕ → Verify Opcode
  known none byte = fail (unknown_opcode byte)
  known (some opcode) byte = do operands opcode; λ w. ok opcode w

  -- The opcode is what the source leaves in `last`.
  unfoldable pub step : Verify Opcode
  step = do byte ← u8; known (opcode_of byte) byte

-- The opcodes after which the source takes no instruction to follow.
unfoldable pub ends_function : Opcode → Bool
ends_function Opcode.return = true
ends_function Opcode.jump = true
ends_function Opcode.jump_if_false = true
ends_function Opcode.propagate = true
ends_function Opcode.match_error = true
ends_function _ = false

-- `m_starts`: which offsets begin an instruction.
abbrev pub mark : ℕ → (ℕ → Bool) → ℕ → Bool
mark offset starts k = k == offset || starts k

-- What the walk has found at its end: `m_starts`, `last` and `m_instruction`.
pub record Scan : Type 0 where
  pub starts : ℕ → Bool
  pub last : Opcode
  pub instruction : ℕ

abbrev pub no_scan : Scan
no_scan = record { starts = λ _. false; last = Opcode.return; instruction = 0 }

abbrev pub no_walk : Walk
no_walk = record { offset = 0; jumps = [] }

module _ {ℓ} {V : Type ℓ} (bytecode : ModuleBytecode V) (function : FunctionBytecode V) where
  -- The `while` loop of `verify`. Each round consumes a byte, so as many rounds as bytes are enough.
  unfoldable pub scan : ℕ → Scan → Verify Scan
  scan zero s w = if leb (length function.chunk.code) w.offset then ok s w else stuck
  scan (suc fuel) s w =
      let rest : Outcome Scan =
        (do
          opcode ← step bytecode function w.offset
          scan fuel
              (record { starts = mark w.offset s.starts; last = opcode; instruction = w.offset }))
          w in
      if leb (length function.chunk.code) w.offset then ok s w else rest

  -- The loop over `m_jumps`; `m_starts` has an entry for each offset up to the size of the code.
  unfoldable pub check_jumps : (ℕ → Bool) → List (ℕ × ℕ) → Verify (Unit {0})
  check_jumps starts [] w = ok tt w
  check_jumps starts ((target, site) ∷ rest) w =
      if leb (length function.chunk.code + 1) target || not (starts target)
      then fail bytecode function site (bad_jump target) w
      else check_jumps starts rest w

  unfoldable pub finish : Scan → Verify (Unit {0})
  finish s w =
      if not (w.offset == length function.chunk.code)
      then fail bytecode function s.instruction past_the_end w
      else if not (ends_function s.last)
      then fail bytecode function s.instruction falls_through w
      else check_jumps s.starts w.jumps w

  unfoldable pub verify : Outcome (Unit {0})
  verify =
      if length function.chunk.code == 0
      then fail bytecode function 0 empty_code no_walk
      else (do s ← scan (length function.chunk.code) no_scan; finish s) no_walk

module _ {ℓ} {V : Type ℓ} (bytecode : ModuleBytecode V) where
  -- The first problem found, in the order of the functions, each walked by a verifier of its own.
  unfoldable pub verify_functions : List (FunctionBytecode V) → Outcome (Unit {0})
  verify_functions [] = ok tt no_walk
  verify_functions (function ∷ rest) = elim (verify bytecode function) [
    | ok _ _ ↦ verify_functions rest
    | refused problem ↦ refused problem
    | fault ↦ fault
    | stuck ↦ stuck
  ]

  unfoldable pub verify_module : Outcome (Unit {0})
  unfolding verify_functions
  verify_module = verify_functions bytecode.functions
