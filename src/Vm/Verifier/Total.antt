-- ===== src/Vm/Verifier/Total.antt =====
-- The verifier itself never reads outside the code, and its loop ends.
mod Reads
use lumiere.Common.{
  ℕ, zero, suc, ◌+◌, ◌*◌, ◌≤◌, ◌<◌, ◌≡◌, ◌≢◌, refl, inl, inr, Bool, true, false, Option, none, some,
  List, [], ◌∷◌, length, get_elem?, leb, ◌==◌, ◌||◌, arith, tests, Bool-cases, not,
}
use mathlib.Core.Path.{subst, sym}
use lumiere.Vm.Opcode.{Opcode, opcode_of}
use lumiere.Vm.Bytecode.{FunctionBytecode, ModuleBytecode}
use lumiere.Vm.Verifier.{
  fail, Walk, Problem, Operand, Outcome, Verify, Scan, ok, refused, fault, stuck, ◌>>=◌, index,
  available, u8, u16, jump, push_jump, closure, argument_names, arity_and_names, call, operands,
  known, step, scan, check_jumps, finish, verify, verify_functions, verify_module, mark, no_scan,
  no_walk, ends_function,
}
use lumiere.Vm.Verifier.{
  constante, globale, variable_locale, membre, classe, espace_de_noms, annotation, appel, fonction,
  nom_d_argument,
}
use Reads.{Sane, accepts, rejects, Sane-mono, bind-Sane, guard-Sane, choose-Sane, bind-eq}

module _ {ℓ} {V : Type ℓ} (bytecode : ModuleBytecode V) (function : FunctionBytecode V)
    (i : ℕ) where
  jump-Sane : (targets : ℕ) (w : Walk) → Sane w.offset (jump bytecode function i targets w)
  unfolding jump push_jump
  jump-Sane zero w = accepts tt w (omega arith)
  jump-Sane (suc targets) w = guard-Sane (available bytecode function i 2 w) (rejects _) λ fits.
      Reads.read-Sane bytecode function i (u16 bytecode function i) 2 _ w w.offset
        (Reads.u16-Reads bytecode function i w (Reads.available-le bytecode function i 2 w fits))
        λ target. Sane-mono _ (omega arith) (jump-Sane targets _)

  argument_names-Sane :
      (arity : ℕ) (w : Walk) → Sane w.offset (argument_names bytecode function i arity w)
  unfolding argument_names
  argument_names-Sane zero w = accepts tt w (omega arith)
  argument_names-Sane (suc arity) w =
      bind-Sane (index bytecode function i 2 (length bytecode.argument_names + 1) nom_d_argument) _
        w w.offset (Reads.index_two-Sane bytecode function i _ _ w)
        λ u v le. Sane-mono _ le (argument_names-Sane arity v)

  arity_and_names-Sane : (w : Walk) → Sane w.offset (arity_and_names bytecode function i w)
  unfolding arity_and_names
  arity_and_names-Sane w = guard-Sane (available bytecode function i 1 w) (rejects _) λ fits.
      Reads.read-Sane bytecode function i (u8 bytecode function i) 1 _ w w.offset
        (Reads.u8-Reads bytecode function i w (Reads.available-le bytecode function i 1 w fits))
        λ arity. Sane-mono _ (omega arith) (argument_names-Sane arity _)

  closure-Sane : (w : Walk) → Sane w.offset (closure bytecode function i w)
  unfolding closure
  closure-Sane w =
      bind-Sane (index bytecode function i 2 (length bytecode.functions) fonction) _ w w.offset
        (Reads.index_two-Sane bytecode function i _ _ w)
        λ u v le. guard-Sane (available bytecode function i 1 v) (rejects _) λ fits.
          Reads.read-Sane bytecode function i (u8 bytecode function i) 1 _ v w.offset
            (Reads.u8-Reads bytecode function i v (Reads.available-le bytecode function i 1 v fits))
            λ captures.
              Sane-mono _ (omega arith) (Reads.skip-Sane bytecode function i (captures * 2) _)

  call_one-Sane : (limit : ℕ) (w : Walk) → Sane w.offset (call bytecode function i 1 limit w)
  unfolding call
  call_one-Sane limit w =
      bind-Sane (index bytecode function i 1 limit appel) _ w w.offset
        (Reads.index_one-Sane bytecode function i limit appel w)
        λ u v le. Sane-mono _ le (arity_and_names-Sane v)

  call_three-Sane : (limit : ℕ) (w : Walk) → Sane w.offset (call bytecode function i 3 limit w)
  unfolding call
  call_three-Sane limit w =
      bind-Sane (index bytecode function i 3 limit appel) _ w w.offset
        (Reads.index_three-Sane bytecode function i limit appel w)
        λ u v le. Sane-mono _ le (arity_and_names-Sane v)

  operands-Sane :
      (opcode : Opcode) (w : Walk) → Sane w.offset (operands bytecode function i opcode w)
  unfolding operands call
  operands-Sane Opcode.constant w =
      Reads.index_one-Sane bytecode function i (length function.chunk.constants) constante w
  operands-Sane Opcode.constant_long w =
      Reads.index_three-Sane bytecode function i (length function.chunk.constants) constante w
  operands-Sane Opcode.get_global w =
      Reads.index_one-Sane bytecode function i (length bytecode.globals) globale w
  operands-Sane Opcode.set_global w =
      Reads.index_one-Sane bytecode function i (length bytecode.globals) globale w
  operands-Sane Opcode.init_global w =
      Reads.index_one-Sane bytecode function i (length bytecode.globals) globale w
  operands-Sane Opcode.get_global_long w =
      Reads.index_three-Sane bytecode function i (length bytecode.globals) globale w
  operands-Sane Opcode.set_global_long w =
      Reads.index_three-Sane bytecode function i (length bytecode.globals) globale w
  operands-Sane Opcode.init_global_long w =
      Reads.index_three-Sane bytecode function i (length bytecode.globals) globale w
  operands-Sane Opcode.get_member w =
      Reads.index_one-Sane bytecode function i (length bytecode.members) membre w
  operands-Sane Opcode.get_parent w =
      Reads.index_one-Sane bytecode function i (length bytecode.members) membre w
  operands-Sane Opcode.set_member w =
      Reads.index_one-Sane bytecode function i (length bytecode.members) membre w
  operands-Sane Opcode.get_member_long w =
      Reads.index_three-Sane bytecode function i (length bytecode.members) membre w
  operands-Sane Opcode.get_parent_long w =
      Reads.index_three-Sane bytecode function i (length bytecode.members) membre w
  operands-Sane Opcode.set_member_long w =
      Reads.index_three-Sane bytecode function i (length bytecode.members) membre w
  operands-Sane Opcode.class w =
      Reads.index_two-Sane bytecode function i (length bytecode.classes) classe w
  operands-Sane Opcode.interface w =
      Reads.index_two-Sane bytecode function i (length bytecode.interfaces) Operand.interface w
  operands-Sane Opcode.namespace w =
      Reads.index_two-Sane bytecode function i (length bytecode.namespaces) espace_de_noms w
  operands-Sane Opcode.assert_type w =
      Reads.index_one-Sane bytecode function i (length bytecode.annotations) annotation w
  operands-Sane Opcode.assert_type_long w =
      Reads.index_three-Sane bytecode function i (length bytecode.annotations) annotation w
  operands-Sane Opcode.cast w =
      Reads.index_one-Sane bytecode function i (length bytecode.types) Operand.type w
  operands-Sane Opcode.type_check w =
      Reads.index_one-Sane bytecode function i (length bytecode.types) Operand.type w
  operands-Sane Opcode.result_failure_type w =
      Reads.index_one-Sane bytecode function i (length bytecode.types) Operand.type w
  operands-Sane Opcode.cast_long w =
      Reads.index_three-Sane bytecode function i (length bytecode.types) Operand.type w
  operands-Sane Opcode.type_check_long w =
      Reads.index_three-Sane bytecode function i (length bytecode.types) Operand.type w
  operands-Sane Opcode.result_failure_type_long w =
      Reads.index_three-Sane bytecode function i (length bytecode.types) Operand.type w
  operands-Sane Opcode.get_local w =
      Reads.index_one-Sane bytecode function i function.local_slot_count variable_locale w
  operands-Sane Opcode.set_local w =
      Reads.index_one-Sane bytecode function i function.local_slot_count variable_locale w
  operands-Sane Opcode.get_capture w =
      Reads.index_one-Sane bytecode function i function.capture_count Operand.capture w
  operands-Sane Opcode.set_capture w =
      Reads.index_one-Sane bytecode function i function.capture_count Operand.capture w
  operands-Sane Opcode.list w = Reads.skip-Sane bytecode function i 1 w
  operands-Sane Opcode.dictionary w = Reads.skip-Sane bytecode function i 1 w
  operands-Sane Opcode.ensemble w = Reads.skip-Sane bytecode function i 1 w
  operands-Sane Opcode.clear_locals w = Reads.local_range-Sane bytecode function i w
  operands-Sane Opcode.closure w = closure-Sane w
  operands-Sane Opcode.jump w = jump-Sane 1 w
  operands-Sane Opcode.jump_if_false w = jump-Sane 2 w
  operands-Sane Opcode.call w = arity_and_names-Sane w
  operands-Sane Opcode.call_global w = call_one-Sane (length bytecode.globals) w
  operands-Sane Opcode.call_global_long w = call_three-Sane (length bytecode.globals) w
  operands-Sane Opcode.call_member w = call_one-Sane (length bytecode.members) w
  operands-Sane Opcode.call_parent w = call_one-Sane (length bytecode.members) w
  operands-Sane Opcode.call_member_long w = call_three-Sane (length bytecode.members) w
  operands-Sane Opcode.call_parent_long w = call_three-Sane (length bytecode.members) w
  operands-Sane _ w = accepts tt w (omega arith)

  known-Sane :
      (o : Option Opcode) (byte : ℕ) (w : Walk) → Sane w.offset (known bytecode function i o byte w)
  unfolding known
  known-Sane none byte w = rejects _
  known-Sane (some opcode) byte w =
      bind-Sane (operands bytecode function i opcode) _ w w.offset (operands-Sane opcode w)
        λ u v le. accepts opcode v le

  -- A round moves on.
  step-Sane :
      (w : Walk)
      → w.offset < length function.chunk.code
      → Sane (w.offset + 1) (step bytecode function i w)
  unfolding step
  step-Sane w h =
      let (b, e) = Reads.u8-Reads bytecode function i w (omega arith) in
      subst (Sane (w.offset + 1)) (sym (bind-eq (u8 bytecode function i) _ w e))
        (known-Sane (opcode_of b) b _)

module _ {ℓ} {V : Type ℓ} (bytecode : ModuleBytecode V) (function : FunctionBytecode V) where
  scan-Sane :
      (fuel : ℕ) (s : Scan) (w : Walk)
      → length function.chunk.code ≤ w.offset + fuel
      → Sane w.offset (scan bytecode function fuel s w)
  unfolding scan
  scan-Sane zero s w h =
      choose-Sane (leb (length function.chunk.code) w.offset) (λ over. accepts s w (omega arith))
        (λ inside. absurd (ground arith))
  scan-Sane (suc fuel) s w h =
      choose-Sane (leb (length function.chunk.code) w.offset) (λ over. accepts s w (omega arith))
        (λ inside. Sane-mono _ (omega arith) (
          bind-Sane (step bytecode function w.offset) _ w (w.offset + 1)
            (step-Sane bytecode function w.offset w (ground arith))
            (λ opcode v le. Sane-mono _ le (scan-Sane fuel _ v (omega arith)))))

  check_jumps-Sane :
      (starts : ℕ → Bool) (jumps : List (ℕ × ℕ)) (w : Walk)
      → Sane w.offset (check_jumps bytecode function starts jumps w)
  unfolding check_jumps
  check_jumps-Sane starts [] w = accepts tt w (omega arith)
  check_jumps-Sane starts ((target, site) ∷ jumps) w =
      choose-Sane (leb (length function.chunk.code + 1) target || not (starts target))
        (λ _. rejects _) (λ _. check_jumps-Sane starts jumps w)

  finish-Sane : (s : Scan) (w : Walk) → Sane w.offset (finish bytecode function s w)
  unfolding finish
  finish-Sane s w =
      guard-Sane (w.offset == length function.chunk.code) (rejects _)
        λ _. guard-Sane (ends_function s.last) (rejects _) λ _. check_jumps-Sane s.starts w.jumps w

  verify-Sane : Sane 0 (verify bytecode function)
  unfolding verify
  verify-Sane =
      choose-Sane (length function.chunk.code == 0) (λ _. rejects _)
        (λ _.
          bind-Sane (scan bytecode function (length function.chunk.code) no_scan) _ no_walk 0
            (scan-Sane (length function.chunk.code) no_scan no_walk (omega arith))
            (λ s w le. Sane-mono _ le (finish-Sane s w)))

module _ {ℓ} {V : Type ℓ} (bytecode : ModuleBytecode V) where
  verify_functions-Sane :
      (functions : List (FunctionBytecode V)) → Sane 0 (verify_functions bytecode functions)
  unfolding verify_functions
  verify_functions-Sane [] = accepts tt no_walk (omega arith)
  verify_functions-Sane (function ∷ rest) =
      next_function (verify bytecode function) (verify-Sane bytecode function)
        (verify_functions-Sane rest)
    where
      next_function :
          {rest : Outcome (Unit {0})} (r : Outcome (Unit {0}))
          → Sane 0 r
          → Sane 0 rest
          → Sane {A = Unit {0}} 0
              (elim r [ ok _ _ ↦ rest | refused p ↦ refused p | fault ↦ fault | stuck ↦ stuck ])
      next_function (ok _ _) h k = k
      next_function (refused _) (rejects p) k = rejects p
      next_function fault h k = elim h [ ]
      next_function stuck h k = elim h [ ]

  -- On every module the verifier ends, and it has read no byte outside the code of a function.
  pub verify_module_total : (verify_module bytecode ≢ fault) × (verify_module bytecode ≢ stuck)
  unfolding verify_module
  verify_module_total = (
    λ e. not_fault (subst (Sane 0) e (verify_functions-Sane bytecode.functions)),
    λ e. not_stuck (subst (Sane 0) e (verify_functions-Sane bytecode.functions)),
  )
    where
      not_fault : Sane {A = Unit {0}} 0 fault → ⊥
      not_fault h = elim h [ ]

      not_stuck : Sane {A = Unit {0}} 0 stuck → ⊥
      not_stuck h = elim h [ ]
