-- ===== src/Vm/Fetch/Operands.antt =====
-- The operands of every opcode: where the verifier accepts them, the interpreter goes on behind them
-- or at a target that the verifier has recorded.
use lumiere.Common.{
  ℕ, ◌≤◌, ◌<◌, ◌≡◌, refl, ◌∙◌, ◌⊎◌, inl, inr, Bool, true, false, List, length, All, arith, ◌++◌,
  suc, [], ◌∷◌, some, tests, leb, if◌then◌else◌, Bool-cases, Option-cases,
}
use mathlib.Core.Path.{subst, sym}
use lumiere.Vm.Opcode.{Opcode}
use lumiere.Vm.Bytecode.{FunctionBytecode, ModuleBytecode}
use lumiere.Vm.Verifier.{
  Walk, Operand, ok, operands, index, jump, call, >>=-eq-ok, return_ok, u8, u16, push_jump,
  available,
}
use lumiere.Vm.Verifier.{
  constante, globale, variable_locale, membre, classe, espace_de_noms, annotation, appel,
}
use lumiere.Vm.Fetch.{
  Fetched, next, leaves, raised, fetch_entry, class_fits, namespace_fits, annotation_fits, Frame,
  Read, ◌>>=◌, fetch_operands, fetch_call, fetch_index, read_byte_of, read_u16_of, read_u24_of,
  jump_to,
}
use lumiere.Vm.Fetch.Reads.{Passes, index_one, index_two, index_three, index-Passes, entry-Passes}
use lumiere.Vm.Fetch.Reads.{
  skip-Passes, local_range-Passes, arguments-Passes, call-Passes, closure-Passes,
}

-- Execution goes on at the offset `after`, at an offset with `P`, or leaves the frame.
abbrev pub Continues : (ℕ → Type 0) → ℕ → Fetched → Type 0
Continues P after (next ip) = (ip ≡ after) ⊎ P ip
Continues P after leaves = Unit
Continues P after raised = Unit
Continues P after _ = ⊥

abbrev pub AllTargets : (ℕ → Type 0) → List (ℕ × ℕ) → Type 0
AllTargets P = All (λ j. P j.0)

-- If every target recorded up to `w'` has `P`, then so has every one recorded up to `w`, and
-- execution continues from the instruction between them.
pub record Sound (P : ℕ → Type 0) (w w' : Walk) (flow : Fetched) : Type 0 where
  pub continues : Continues P w'.offset flow
  pub targets : AllTargets P w.jumps
  pub moves : w.offset ≤ w'.offset

AllTargets-append :
    (P : ℕ → Type 0) (xs ys : List (ℕ × ℕ))
    → AllTargets P (xs ++ ys)
    → AllTargets P xs × AllTargets P ys
AllTargets-append P [] ys h = (tt, h)
AllTargets-append P (x ∷ xs) ys (a, h) = let (b, c) = AllTargets-append P xs ys h in ((a, b), c)

-- A read that succeeds hands its value on.
read-bind :
    {A : Type 0} (read : Read A) (f : A → ℕ → Fetched) (ip : ℕ) {a : A} {ip' : ℕ}
    → read ip ≡ some (a, ip')
    → ◌>>=◌ read f ip ≡ f a ip'
read-bind read f ip e = rw (e, ◌>>=◌)

Passes-Sound :
    (P : ℕ → Type 0) (w w' : Walk) (flow : Fetched)
    → Passes w w' flow
    → AllTargets P w'.jumps
    → Sound P w w' flow
Passes-Sound P w w' flow p h = record {
  continues = elim p.flows [ inl goes ↦ rw goes (inl refl) | inr stops ↦ rw stops tt ];
  targets = subst (AllTargets P) p.same_jumps h;
  moves = p.moves;
}

module _ {ℓ} {V : Type ℓ} (bytecode : ModuleBytecode V) (function : FunctionBytecode V) (i : ℕ)
    (frame : Frame) (P : ℕ → Type 0) (below : (t : ℕ) → P t → t < length function.chunk.code) where
  call_one :
      (limit : ℕ) (w w' : Walk)
      → call bytecode function i 1 limit w ≡ ok tt w'
      → Passes w w'
          (fetch_call bytecode function frame (read_byte_of function.chunk) limit w.offset)
  unfolding call
  call_one limit w w' h =
      let (u, v, first, rest) = >>=-eq-ok (index bytecode function i 1 limit appel) _ w h in
      call-Passes bytecode function i frame _ limit w v w'
        (index_one bytecode function i limit appel w first) rest

  call_three :
      (limit : ℕ) (w w' : Walk)
      → call bytecode function i 3 limit w ≡ ok tt w'
      → Passes w w' (fetch_call bytecode function frame (read_u24_of function.chunk) limit w.offset)
  unfolding call
  call_three limit w w' h =
      let (u, v, first, rest) = >>=-eq-ok (index bytecode function i 3 limit appel) _ w h in
      call-Passes bytecode function i frame _ limit w v w'
        (index_three bytecode function i limit appel w first) rest

  target-reads :
      (n : ℕ) (w : Walk) {w' : Walk}
      → jump bytecode function i (suc n) w ≡ ok tt w'
      → (t : ℕ) × (v : Walk) × (read_u16_of function.chunk w.offset ≡ some (t, v.offset))
        × (v.jumps ≡ w.jumps ++ ((t, i) ∷ []))
        × (jump bytecode function i n v ≡ ok tt w')
        × (w.offset ≤ v.offset)
  unfolding jump available u8 u16 push_jump read_byte_of read_u16_of
  target-reads n w h = elim (Option-cases (read_u16_of function.chunk w.offset)) [
    | inl e ↦ absurd (ground arith)
    | inr ((t, ip), e) ↦ (
      t,
      record { offset = ip; jumps = w.jumps ++ ((t, i) ∷ []) },
      ground arith,
      refl,
      ground arith,
      ground arith,
    )
  ]

  jump_to-Continues :
      (t ip after : ℕ) → P t → Continues P after (jump_to bytecode function frame t ip)
  unfolding jump_to
  jump_to-Continues t ip after h = elim (Bool-cases (leb (length function.chunk.code) t)) [
    | inl outside ↦ absurd (omega (tests, below t h))
    | inr inside ↦ rw inside (inr h)
  ]

  chosen : (condition : Bool) (t t' : ℕ) → P t → P t' → P (if condition then t else t')
  chosen true t t' h h' = h
  chosen false t t' h h' = h'

  no_more-jumps :
      (v w' : Walk)
      → jump bytecode function i 0 v ≡ ok tt w'
      → (w'.jumps ≡ v.jumps) × (w'.offset ≡ v.offset)
  unfolding jump
  no_more-jumps v w' h = ground arith

  jump-Sound :
      (condition : Bool) (w w' : Walk)
      → jump bytecode function i 1 w ≡ ok tt w'
      → AllTargets P w'.jumps
      → Sound P w w' (fetch_operands bytecode function frame condition Opcode.jump w.offset)
  unfolding fetch_operands
  jump-Sound condition w w' h good =
      let (t, v, e, js, rest, le) = target-reads 0 w h in
      let (same, at) = no_more-jumps v w' rest in
      let (old, new) =
        AllTargets-append P w.jumps ((t, i) ∷ []) (subst (AllTargets P) (same ∙ js) good) in
      record {
        continues =
            subst (Continues P w'.offset)
              (sym (
                read-bind (read_u16_of function.chunk) (jump_to bytecode function frame) w.offset
                  e))
              (jump_to-Continues t v.offset w'.offset new.0);
        targets = old;
        moves = omega (arith, le, at);
      }

  branch-Sound :
      (condition : Bool) (w w' : Walk)
      → jump bytecode function i 2 w ≡ ok tt w'
      → AllTargets P w'.jumps
      → Sound P w w'
          (fetch_operands bytecode function frame condition Opcode.jump_if_false w.offset)
  unfolding fetch_operands
  branch-Sound condition w w' h good =
      let (t, v, e, js, rest, le) = target-reads 1 w h in
      let (t', v', e', js', rest', le') = target-reads 0 v rest in
      let (same, at) = no_more-jumps v' w' rest' in
      let (old', new') =
        AllTargets-append P v.jumps ((t', i) ∷ []) (subst (AllTargets P) (same ∙ js') good) in
      let (old, new) = AllTargets-append P w.jumps ((t, i) ∷ []) (subst (AllTargets P) js old') in
      record {
        continues =
            subst (Continues P w'.offset)
              (sym (
                read-bind (read_u16_of function.chunk)
                  (λ true_target. ◌>>=◌ (read_u16_of function.chunk) (λ false_target.
                    jump_to bytecode function frame
                      (if condition then true_target else false_target)))
                  w.offset e
                ∙ read-bind (read_u16_of function.chunk)
                    (λ false_target.
                      jump_to bytecode function frame (if condition then t else false_target))
                    v.offset e'))
              (jump_to-Continues (if condition then t else t') v'.offset w'.offset
                (chosen condition t t' new.0 new'.0));
        targets = old;
        moves = omega (arith, le, le', at);
      }

  passes :
      (w w' : Walk) (flow : Fetched) → AllTargets P w'.jumps → Passes w w' flow → Sound P w w' flow
  passes w w' flow good p = Passes-Sound P w w' flow p good

module _ {ℓ} {V : Type ℓ} (bytecode : ModuleBytecode V) (function : FunctionBytecode V) (i : ℕ)
    (frame : Frame) (P : ℕ → Type 0) (below : (t : ℕ) → P t → t < length function.chunk.code)
    (w w' : Walk) (good : AllTargets P w'.jumps) where
  through : {flow : Fetched} → Passes w w' flow → Sound P w w' flow
  through p = Passes-Sound P w w' _ p good

  at_one :
      (limit : ℕ) (what : Operand)
      → index bytecode function i 1 limit what w ≡ ok tt w'
      → Sound P w w'
          (fetch_index bytecode function frame (read_byte_of function.chunk) limit what w.offset)
  at_one limit what h = through (
      index-Passes bytecode function i frame _ limit what w w'
        (index_one bytecode function i limit what w h))

  at_two :
      (limit : ℕ) (what : Operand)
      → index bytecode function i 2 limit what w ≡ ok tt w'
      → Sound P w w'
          (fetch_index bytecode function frame (read_u16_of function.chunk) limit what w.offset)
  at_two limit what h = through (
      index-Passes bytecode function i frame _ limit what w w'
        (index_two bytecode function i limit what w h))

  at_three :
      (limit : ℕ) (what : Operand)
      → index bytecode function i 3 limit what w ≡ ok tt w'
      → Sound P w w'
          (fetch_index bytecode function frame (read_u24_of function.chunk) limit what w.offset)
  at_three limit what h = through (
      index-Passes bytecode function i frame _ limit what w w'
        (index_three bytecode function i limit what w h))

  entry_one :
      (limit : ℕ) (what : Operand) (fits : ℕ → Bool)
      → index bytecode function i 1 limit what w ≡ ok tt w'
      → Sound P w w' (
          fetch_entry bytecode function frame
            (read_byte_of function.chunk)
            limit
            what
            fits
            w.offset)
  entry_one limit what fits h = through (
      entry-Passes bytecode function i frame _ limit what fits w w'
        (index_one bytecode function i limit what w h))

  entry_two :
      (limit : ℕ) (what : Operand) (fits : ℕ → Bool)
      → index bytecode function i 2 limit what w ≡ ok tt w'
      → Sound P w w' (
          fetch_entry bytecode function frame (read_u16_of function.chunk) limit what fits w.offset)
  entry_two limit what fits h = through (
      entry-Passes bytecode function i frame _ limit what fits w w'
        (index_two bytecode function i limit what w h))

  entry_three :
      (limit : ℕ) (what : Operand) (fits : ℕ → Bool)
      → index bytecode function i 3 limit what w ≡ ok tt w'
      → Sound P w w' (
          fetch_entry bytecode function frame (read_u24_of function.chunk) limit what fits w.offset)
  entry_three limit what fits h = through (
      entry-Passes bytecode function i frame _ limit what fits w w'
        (index_three bytecode function i limit what w h))

  plain :
      (flow : Fetched)
      → ((after : ℕ) → w.offset ≡ after → Continues P after flow)
      → return_ok w ≡ ok tt w'
      → Sound P w w' flow
  plain flow c h = record {
    continues = c w'.offset (ground arith);
    targets = subst (AllTargets P) (ground arith) good;
    moves = ground arith;
  }

  pub operands-Sound :
      (condition : Bool) (opcode : Opcode)
      → frame.locals ≡ function.local_slot_count
      → frame.captures ≡ function.capture_count
      → operands bytecode function i opcode w ≡ ok tt w'
      → Sound P w w' (fetch_operands bytecode function frame condition opcode w.offset)
  unfolding operands fetch_operands fetch_index fetch_entry
  operands-Sound condition Opcode.constant ls cs h =
      at_one (length function.chunk.constants) constante h
  operands-Sound condition Opcode.constant_long ls cs h =
      at_three (length function.chunk.constants) constante h
  operands-Sound condition Opcode.get_global ls cs h = at_one (length bytecode.globals) globale h
  operands-Sound condition Opcode.set_global ls cs h = at_one (length bytecode.globals) globale h
  operands-Sound condition Opcode.init_global ls cs h = at_one (length bytecode.globals) globale h
  operands-Sound condition Opcode.get_global_long ls cs h =
      at_three (length bytecode.globals) globale h
  operands-Sound condition Opcode.set_global_long ls cs h =
      at_three (length bytecode.globals) globale h
  operands-Sound condition Opcode.init_global_long ls cs h =
      at_three (length bytecode.globals) globale h
  operands-Sound condition Opcode.get_member ls cs h = at_one (length bytecode.members) membre h
  operands-Sound condition Opcode.get_parent ls cs h = at_one (length bytecode.members) membre h
  operands-Sound condition Opcode.set_member ls cs h = at_one (length bytecode.members) membre h
  operands-Sound condition Opcode.get_member_long ls cs h =
      at_three (length bytecode.members) membre h
  operands-Sound condition Opcode.get_parent_long ls cs h =
      at_three (length bytecode.members) membre h
  operands-Sound condition Opcode.set_member_long ls cs h =
      at_three (length bytecode.members) membre h
  operands-Sound condition Opcode.class ls cs h =
      entry_two (length bytecode.classes) classe (class_fits bytecode function frame) h
  operands-Sound condition Opcode.interface ls cs h =
      at_two (length bytecode.interfaces) Operand.interface h
  operands-Sound condition Opcode.namespace ls cs h =
      entry_two (length bytecode.namespaces) espace_de_noms (namespace_fits bytecode function frame)
        h
  operands-Sound condition Opcode.assert_type ls cs h =
      entry_one (length bytecode.annotations) annotation (annotation_fits bytecode function frame) h
  operands-Sound condition Opcode.assert_type_long ls cs h =
      entry_three (length bytecode.annotations) annotation (annotation_fits bytecode function frame)
        h
  operands-Sound condition Opcode.cast ls cs h = at_one (length bytecode.types) Operand.type h
  operands-Sound condition Opcode.type_check ls cs h = at_one (length bytecode.types) Operand.type h
  operands-Sound condition Opcode.result_failure_type ls cs h =
      at_one (length bytecode.types) Operand.type h
  operands-Sound condition Opcode.cast_long ls cs h =
      at_three (length bytecode.types) Operand.type h
  operands-Sound condition Opcode.type_check_long ls cs h =
      at_three (length bytecode.types) Operand.type h
  operands-Sound condition Opcode.result_failure_type_long ls cs h =
      at_three (length bytecode.types) Operand.type h
  operands-Sound condition Opcode.get_local ls cs h =
      rw ls (at_one function.local_slot_count variable_locale h)
  operands-Sound condition Opcode.set_local ls cs h =
      rw ls (at_one function.local_slot_count variable_locale h)
  operands-Sound condition Opcode.get_capture ls cs h =
      rw cs (at_one function.capture_count Operand.capture h)
  operands-Sound condition Opcode.set_capture ls cs h =
      rw cs (at_one function.capture_count Operand.capture h)
  operands-Sound condition Opcode.list ls cs h =
      through (skip-Passes bytecode function i frame w w' h)
  operands-Sound condition Opcode.dictionary ls cs h =
      through (skip-Passes bytecode function i frame w w' h)
  operands-Sound condition Opcode.ensemble ls cs h =
      through (skip-Passes bytecode function i frame w w' h)
  operands-Sound condition Opcode.clear_locals ls cs h =
      through (local_range-Passes bytecode function i frame w w' h)
  operands-Sound condition Opcode.closure ls cs h =
      through (closure-Passes bytecode function i frame w w' h)
  operands-Sound condition Opcode.jump ls cs h =
      unfold fetch_operands in jump-Sound bytecode function i frame P below condition w w' h good
  operands-Sound condition Opcode.jump_if_false ls cs h =
      branch-Sound bytecode function i frame P below condition w w' h good
  operands-Sound condition Opcode.call ls cs h =
      through (arguments-Passes bytecode function i frame w w' (unfold call in h))
  operands-Sound condition Opcode.call_global ls cs h =
      through (call_one bytecode function i frame P below (length bytecode.globals) w w' h)
  operands-Sound condition Opcode.call_global_long ls cs h =
      through (call_three bytecode function i frame P below (length bytecode.globals) w w' h)
  operands-Sound condition Opcode.call_member ls cs h =
      through (call_one bytecode function i frame P below (length bytecode.members) w w' h)
  operands-Sound condition Opcode.call_parent ls cs h =
      through (call_one bytecode function i frame P below (length bytecode.members) w w' h)
  operands-Sound condition Opcode.call_member_long ls cs h =
      through (call_three bytecode function i frame P below (length bytecode.members) w w' h)
  operands-Sound condition Opcode.call_parent_long ls cs h =
      through (call_three bytecode function i frame P below (length bytecode.members) w w' h)
  operands-Sound condition Opcode.match_error ls cs h = plain leaves (λ after e. tt) h
  operands-Sound condition Opcode.return ls cs h = plain leaves (λ after e. tt) h
  operands-Sound condition _ ls cs h = plain (next w.offset) (λ after e. inl e) h
