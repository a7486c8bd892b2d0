-- ===== src/Vm/Fetch/Safety.antt =====
-- What the interpreter may rely on once `verify` has accepted a function.
use lumiere.Common.{
  zero, some, get_elem?, ℕ, suc, ◌+◌, ◌≤◌, ◌<◌, ◌≡◌, refl, ◌∙◌, ◌⊎◌, inl, inr, Bool, true, List, [],
  ◌∷◌, length, ◌==◌, Bool-cases, arith,
}
use mathlib.Core.Path.{subst, sym}
use lumiere.Vm.Opcode.{Opcode}
use lumiere.Vm.Bytecode.{FunctionBytecode, ModuleBytecode}
use lumiere.Vm.Verifier.{
  Walk, Scan, ok, Outcome, refused, stuck, scan, check_jumps, finish, ends_function, no_scan,
  no_walk, verify, verify_functions, verify_module, >>=-eq-ok,
}
use lumiere.Vm.Fetch.{
  Fetched, next, leaves, ended, invalid, invalid_target, raised, fault, Frame, fetch,
  fetch_operands, jump_to,
}
use lumiere.Vm.Fetch.Operands.{Continues, AllTargets}
use lumiere.Vm.Fetch.Scan.{
  Checked, OpcodeAt, get_elem?_lt, scan-Scanned, scan-below, fetch-operands,
}

module _ {ℓ} {V : Type ℓ} (bytecode : ModuleBytecode V) (function : FunctionBytecode V) where
  -- The offsets that a frame of the function can come to, from its entry and by `fetch`.
  pub data Reaches (frame : Frame) : ℕ → Type 0 where
    entry : Reaches frame 0
    onward :
        {ip ip' : ℕ} (condition : Bool)
        → Reaches frame ip
        → fetch bytecode function frame condition ip ≡ next ip'
        → Reaches frame ip'

  check_jumps-AllTargets :
      (starts : ℕ → Bool) (jumps : List (ℕ × ℕ)) (w : Walk) {w' : Walk}
      → check_jumps bytecode function starts jumps w ≡ ok tt w'
      → AllTargets (λ t. starts t ≡ true) jumps
  unfolding check_jumps
  check_jumps-AllTargets starts [] w {w'} h = tt
  check_jumps-AllTargets starts ((t, site) ∷ jumps) w {w'} h =
      (ground arith, check_jumps-AllTargets starts jumps w {w' = w'} (ground arith))

  finish_parts :
      (end : Scan) (w : Walk) {w' : Walk}
      → finish bytecode function end w ≡ ok tt w'
      → (w.offset ≡ length function.chunk.code)
        × (ends_function end.last ≡ true)
        × AllTargets (λ t. end.starts t ≡ true) w.jumps
  unfolding finish
  finish_parts end w {w'} h = (
    ground arith,
    ground arith,
    check_jumps-AllTargets end.starts w.jumps w {w' = w'} (ground arith),
  )

  verify_parts :
      {w : Walk}
      → verify bytecode function ≡ ok tt w
      → (end : Scan) × (v : Walk) × (scan bytecode function
            (length function.chunk.code)
            no_scan
            no_walk
          ≡ ok end v)
        × (finish bytecode function end v ≡ ok tt w)
        × (0 < length function.chunk.code)
  unfolding verify
  verify_parts h = elim (Bool-cases (length function.chunk.code == 0)) [
    | inl empty ↦ absurd (ground arith)
    | inr some_code ↦
        let (end, v, first, rest) =
          >>=-eq-ok (scan bytecode function (length function.chunk.code) no_scan)
            (finish bytecode function) no_walk (rw some_code at h) in
        (end, v, first, rest, ground arith)
  ]

-- What no run of an accepted function meets: a read outside the code, an operand outside its table or
-- a jump outside the code.
abbrev pub IsSafe : Fetched → Type 0
IsSafe fault = ⊥
IsSafe (invalid what) = ⊥
IsSafe invalid_target = ⊥
IsSafe _ = Unit

Continues-IsSafe :
    (P : ℕ → Type 0) (after : ℕ) (flow : Fetched) → Continues P after flow → IsSafe flow
Continues-IsSafe P after (next ip) h = tt
Continues-IsSafe P after leaves h = tt
Continues-IsSafe P after raised h = tt
Continues-IsSafe P after ended h = tt
Continues-IsSafe P after _ h = h

either_right {ℓ κ} : {A : Type ℓ} {B : Type κ} → (A → B) → A ⊎ B → B
either_right f (inl a) = f a
either_right f (inr b) = b

either_left {ℓ κ} : {A : Type ℓ} {B : Type κ} → (B → A) → A ⊎ B → A
either_left f (inl a) = a
either_left f (inr b) = f b

fetch_past {ℓ} :
    {V : Type ℓ} (bytecode : ModuleBytecode V) (function : FunctionBytecode V) (frame : Frame)
    (condition : Bool) (ip : ℕ)
    → length function.chunk.code ≤ ip
    → fetch bytecode function frame condition ip ≡ ended
unfolding fetch
fetch_past bytecode function frame condition ip over = ground arith

-- An opcode that ends a function and still lets execution past the code is PROPAGATE.
ends_past {ℓ} :
    {V : Type ℓ} (bytecode : ModuleBytecode V) (function : FunctionBytecode V) (frame : Frame)
    (condition : Bool) (opcode : Opcode) (k ip : ℕ)
    → ends_function opcode ≡ true
    → fetch_operands bytecode function frame condition opcode k ≡ next ip
    → length function.chunk.code ≤ ip
    → (opcode ≡ Opcode.propagate) × (ip ≡ k)
unfolding ends_function fetch_operands jump_to
ends_past bytecode function frame condition Opcode.return k ip h e over = absurd (cc)
ends_past bytecode function frame condition Opcode.match_error k ip h e over = absurd (cc)
ends_past bytecode function frame condition Opcode.jump k ip h e over = absurd (ground arith)
ends_past bytecode function frame condition Opcode.jump_if_false k ip h e over =
    absurd (ground arith)
ends_past bytecode function frame condition Opcode.propagate k ip h e over = (refl, ground arith)
ends_past bytecode function frame condition _ k ip h e over = absurd (cc)

module _ {ℓ} {V : Type ℓ} (bytecode : ModuleBytecode V) (function : FunctionBytecode V)
    (frame : Frame) (ls : frame.locals ≡ function.local_slot_count)
    (cs : frame.captures ≡ function.capture_count) {w : Walk}
    (accepted : verify bytecode function ≡ ok tt w) where
  verified :
      (end : Scan) × ((t : ℕ) → end.starts t ≡ true → t < length function.chunk.code)
      × ((k : ℕ) → end.starts k ≡ true → Checked bytecode function frame ls cs end k)
      × (end.starts 0 ≡ true)
      × (ends_function end.last ≡ true)
  verified =
      let (end, v, first, rest, nonempty) = verify_parts bytecode function accepted in
      let (at_end, ends, good) = finish_parts bytecode function end v rest in
      let below =
        scan-below bytecode function _ no_scan no_walk first (λ t m. absurd (ground arith)) in
      let r = scan-Scanned bytecode function frame ls cs _ no_scan no_walk first below good in
      (
        end,
        below,
        λ k m. either_right (λ e. cc) (r.checked k m),
        either_left (λ over. absurd (omega (arith, over, nonempty))) r.here,
        ends,
      )

  came_to :
      (k ip : ℕ) (condition : Bool) (m : verified.0.starts k ≡ true)
      → fetch bytecode function frame condition k ≡ next ip
      → (ip ≡ (verified.2 k m).after) ⊎ (verified.0.starts ip ≡ true)
  came_to k ip condition m e =
      subst (Continues (λ t. verified.0.starts t ≡ true) (verified.2 k m).after) e
        ((verified.2 k m).continues condition)

  -- Every offset that a frame comes to is marked, or is past the code.
  Reaches-marked :
      {ip : ℕ}
      → Reaches bytecode function frame ip
      → (verified.0.starts ip ≡ true) ⊎ (length function.chunk.code ≤ ip)
  Reaches-marked entry = inl verified.3
  Reaches-marked (onward {ip = k} {ip' = ip} condition r e) = elim (Reaches-marked r) [
    | inl m ↦ elim (came_to k ip condition m e) [
      | inl same ↦
          subst (λ t. (verified.0.starts t ≡ true) ⊎ (length function.chunk.code ≤ t)) (sym same)
            (verified.2 k m).follows
      | inr m' ↦ inl m'
    ]
    | inr over ↦ absurd (cc (e, fetch_past bytecode function frame condition k over))
  ]

  -- A frame of an accepted function never reads outside its code, never has an operand outside its
  -- table and never jumps outside its code, whatever the values that it works on.
  pub verify-IsSafe :
      (condition : Bool) (ip : ℕ)
      → Reaches bytecode function frame ip
      → IsSafe (fetch bytecode function frame condition ip)
  verify-IsSafe condition ip r = elim (Reaches-marked r) [
    | inl m ↦ Continues-IsSafe _ _ _ ((verified.2 ip m).continues condition)
    | inr over ↦ rw (fetch_past bytecode function frame condition ip over) tt
  ]

  not-ended :
      (condition : Bool) (ip : ℕ)
      → verified.0.starts ip ≡ true
      → fetch bytecode function frame condition ip ≡ ended
      → ⊥
  not-ended condition ip m e =
      subst (Continues (λ t. verified.0.starts t ≡ true) (verified.2 ip m).after) e
        ((verified.2 ip m).continues condition)

  abbrev EndsInPropagate : Type 0
  EndsInPropagate =
      (k : ℕ) × (suc k ≡ length function.chunk.code) × OpcodeAt bytecode function k Opcode.propagate

  last_instruction :
      (k ip : ℕ) (condition : Bool) (c : Checked bytecode function frame ls cs verified.0 k)
      → fetch bytecode function frame condition k ≡ next ip
      → length function.chunk.code ≤ ip
      → length function.chunk.code ≤ c.after
      → EndsInPropagate
  last_instruction k ip condition c e past over =
      let (p, q) =
        ends_past bytecode function frame condition c.opcode (k + 1) ip
          (subst (λ o. ends_function o ≡ true) (c.is_last over) verified.4)
          (sym (fetch-operands bytecode function frame condition k c.opcode c.at) ∙ e) past in
      (
        k,
        omega (arith, q, get_elem?_lt function.chunk.code k c.at.1),
        subst (OpcodeAt bytecode function k) p c.at,
      )

  -- If a frame of an accepted function runs past its code, then the code ends in PROPAGATE.
  pub verify-ended :
      (condition : Bool) (ip : ℕ)
      → Reaches bytecode function frame ip
      → fetch bytecode function frame condition ip ≡ ended
      → EndsInPropagate
  verify-ended condition _ entry e = absurd (not-ended condition 0 verified.3 e)
  verify-ended condition _ (onward {ip = k} {ip' = ip} condition' r e') e =
      elim (Reaches-marked r) [
        | inr over ↦ absurd (cc (e', fetch_past bytecode function frame condition' k over))
        | inl m ↦ elim (came_to k ip condition' m e') [
          | inr m' ↦ absurd (not-ended condition ip m' e)
          | inl same ↦ elim (verified.2 k m).follows [
            | inl m' ↦
                absurd
                  (not-ended condition ip (subst (λ t. verified.0.starts t ≡ true) (sym same) m') e)
            | inr over ↦
                last_instruction k ip condition' (verified.2 k m) e' (omega (arith, same, over))
                  over
          ]
        ]
      ]

first_accepted :
    (r rest : Outcome (Unit {0})) {w : Walk}
    → elim r [
      | ok _ _ ↦ rest
      | refused p ↦ refused p
      | Outcome.fault ↦ Outcome.fault
      | stuck ↦ stuck
    ]
      ≡ ok tt w
    → ((v : Walk) × (r ≡ ok tt v)) × (rest ≡ ok tt w)
first_accepted (ok _ v) rest h = ((v, refl), h)
first_accepted (refused p) rest h = absurd (cc)
first_accepted Outcome.fault rest h = absurd (cc)
first_accepted stuck rest h = absurd (cc)

module _ {ℓ} {V : Type ℓ} (bytecode : ModuleBytecode V) where
  functions_accepted :
      (functions : List (FunctionBytecode V)) {w : Walk} (i : ℕ) {function : FunctionBytecode V}
      → verify_functions bytecode functions ≡ ok tt w
      → get_elem? functions i ≡ some function
      → (v : Walk) × (verify bytecode function ≡ ok tt v)
  unfolding verify_functions
  functions_accepted [] i h e = absurd (cc)
  functions_accepted (f ∷ rest) zero {function} h e =
      subst (λ (g : FunctionBytecode V). (v : Walk) × (verify bytecode g ≡ ok tt v)) {x = f}
        {y = function} (cc)
        (first_accepted (verify bytecode f) (verify_functions bytecode rest) h).0
  functions_accepted (f ∷ rest) (suc i) h e =
      functions_accepted rest i
        (first_accepted (verify bytecode f) (verify_functions bytecode rest) h).1 e

  -- Once `verify_module` has accepted a module, no frame of any of its functions reads outside its
  -- code, has an operand outside its table or jumps outside its code, at any offset that it comes to
  -- and whatever the values that it works on. The frame has the local slots and the captures that
  -- the function declares. Four indices that are no such operands may still raise an error: a
  -- capture's source, an argument's name, the type of an annotation and the global of an export.
  pub verify_module-IsSafe :
      (i : ℕ) (function : FunctionBytecode V) (frame : Frame) (condition : Bool) (ip : ℕ) {w : Walk}
      → verify_module bytecode ≡ ok tt w
      → get_elem? bytecode.functions i ≡ some function
      → frame.locals ≡ function.local_slot_count
      → frame.captures ≡ function.capture_count
      → Reaches bytecode function frame ip
      → IsSafe (fetch bytecode function frame condition ip)
  unfolding verify_module
  verify_module-IsSafe i function frame condition ip h e ls cs r =
      let (v, accepted) = functions_accepted bytecode.functions i h e in
      verify-IsSafe bytecode function frame ls cs accepted condition ip r
