-- ===== src/Vm/Fetch/Scan.antt =====
-- The walk of `verify` over a whole function: every offset that it marks is the start of an
-- instruction from which execution goes on at a marked offset or at the end of the code.
use lumiere.Common.{
  ℕ, zero, suc, ◌+◌, ◌≤◌, ◌<◌, ◌≡◌, ◌⊎◌, inl, inr, Bool, true, false, Option, none, some, List, [],
  ◌∷◌, length, get_elem?, leb, ◌==◌, ==_iff, Option-cases, Bool-cases, tests, arith,
}
use mathlib.Core.Path.{subst, sym, ap}
use lumiere.Vm.Opcode.{Opcode, opcode_of}
use lumiere.Vm.Bytecode.{FunctionBytecode, ModuleBytecode}
use lumiere.Vm.Verifier.{Walk, Scan, ok, mark, u8, operands, known, step, scan, >>=-eq-ok}
use lumiere.Vm.Fetch.{Frame, fetch, fetch_operands, fetch_opcode, read_byte_of}
use lumiere.Vm.Fetch.Operands.{Continues, AllTargets, Sound, operands-Sound}

abbrev marked : Scan → Walk → Opcode → Scan
marked s w opcode = record {
  starts = mark w.offset s.starts;
  last = opcode;
  instruction = w.offset;
}

pub get_elem?_lt {ℓ} :
    {A : Type ℓ} (xs : List A) (i : ℕ) {a : A} → get_elem? xs i ≡ some a → i < length xs
get_elem?_lt [] i e = cc
get_elem?_lt (x ∷ xs) zero e = omega arith
get_elem?_lt (x ∷ xs) (suc i) e = omega (arith, get_elem?_lt xs i e)

module _ {ℓ} {V : Type ℓ} (bytecode : ModuleBytecode V) (function : FunctionBytecode V) where
  -- The opcode that the code holds at an offset.
  abbrev pub OpcodeAt : ℕ → Opcode → Type 0
  OpcodeAt k opcode =
      (byte : ℕ) × (get_elem? function.chunk.code k ≡ some byte) × (opcode_of byte ≡ some opcode)

  known_parts :
      (i : ℕ) (o : Option Opcode) (byte : ℕ) (v w' : Walk) (opcode : Opcode)
      → known bytecode function i o byte v ≡ ok opcode w'
      → (o ≡ some opcode) × (operands bytecode function i opcode v ≡ ok tt w')
  unfolding known
  known_parts i none byte v w' opcode h = absurd (ground arith)
  known_parts i (some op) byte v w' opcode h =
      let (u, v', a, b) = >>=-eq-ok (operands bytecode function i op) (λ _ w. ok op w) v h in
      (cc, ground arith)

  step_parts :
      (i : ℕ) (w w' : Walk) (opcode : Opcode)
      → step bytecode function i w ≡ ok opcode w'
      → OpcodeAt w.offset opcode
        × (operands bytecode function i opcode (record w { offset = w.offset + 1 }) ≡ ok tt w')
  unfolding step u8
  step_parts i w w' opcode h = elim (Option-cases (get_elem? function.chunk.code w.offset)) [
    | inl e ↦ absurd (ground arith)
    | inr (byte, e) ↦
        let (f, g) =
          known_parts i (opcode_of byte) byte (record w { offset = w.offset + 1 }) w' opcode
            (ground arith) in
        ((byte, e, f), g)
  ]

  pub fetch-operands :
      (frame : Frame) (condition : Bool) (k : ℕ) (opcode : Opcode)
      → OpcodeAt k opcode
      → fetch bytecode function frame condition k
        ≡ fetch_operands bytecode function frame condition opcode (k + 1)
  unfolding fetch fetch_opcode read_byte_of
  fetch-operands frame condition k opcode (byte, e, f) =
      ground (arith, get_elem?_lt function.chunk.code k e)

module _ {ℓ} {V : Type ℓ} (bytecode : ModuleBytecode V) (function : FunctionBytecode V)
    (frame : Frame) (ls : frame.locals ≡ function.local_slot_count)
    (cs : frame.captures ≡ function.capture_count) where
  step-Sound :
      (P : ℕ → Type 0) (below : (t : ℕ) → P t → t < length function.chunk.code) (i : ℕ)
      (w w' : Walk) (opcode : Opcode)
      → step bytecode function i w ≡ ok opcode w'
      → AllTargets P w'.jumps
      → (condition : Bool)
      → Sound P
          (record w { offset = w.offset + 1 })
          w'
          (fetch bytecode function frame condition w.offset)
  step-Sound P below i w w' opcode h good condition =
      let (at, g) = step_parts bytecode function i w w' opcode h in
      subst (Sound P (record w { offset = w.offset + 1 }) w')
        (sym (fetch-operands bytecode function frame condition w.offset opcode at))
        (operands-Sound bytecode function i frame P below (record w { offset = w.offset + 1 }) w'
          good condition opcode ls cs g)

  -- What the walk has established of a marked offset `k`, with the marks and the last opcode at
  -- its end.
  pub record Checked (end : Scan) (k : ℕ) : Type 0 where
    pub opcode : Opcode
    pub after : ℕ
    pub at : OpcodeAt bytecode function k opcode
    pub continues :
        (condition : Bool)
        → Continues (λ t. end.starts t ≡ true) after (fetch bytecode function frame condition k)
    pub follows : (end.starts after ≡ true) ⊎ (length function.chunk.code ≤ after)
    pub is_last : length function.chunk.code ≤ after → end.last ≡ opcode

  pub record Scanned (s end : Scan) (w w' : Walk) : Type 0 where
    pub targets : AllTargets (λ t. end.starts t ≡ true) w.jumps
    pub keeps : (k : ℕ) → s.starts k ≡ true → end.starts k ≡ true
    pub checked : (k : ℕ) → end.starts k ≡ true → (s.starts k ≡ true) ⊎ Checked end k
    pub here : (end.starts w.offset ≡ true) ⊎ (length function.chunk.code ≤ w.offset)
    pub unmoved : length function.chunk.code ≤ w.offset → end.last ≡ s.last

  scan_stopped :
      (s : Scan) (w : Walk) {end : Scan} {w' : Walk}
      → s ≡ end
      → w ≡ w'
      → length function.chunk.code ≤ w.offset
      → AllTargets (λ t. end.starts t ≡ true) w'.jumps
      → Scanned s end w w'
  scan_stopped s w {end} {w'} p q over good = record {
    targets = subst (λ v. AllTargets (λ t. end.starts t ≡ true) v.jumps) (sym q) good;
    keeps = λ k h. subst (λ e. e.starts k ≡ true) p h;
    checked = λ k h. inl (subst (λ e. e.starts k ≡ true) (sym p) h);
    here = inr over;
    unmoved = λ _. ap (λ e. e.last) (sym p);
  }

  step-Scanned :
      (s : Scan) (w v : Walk) (opcode : Opcode) {end : Scan} {w' : Walk}
      → leb (length function.chunk.code) w.offset ≡ false
      → ((t : ℕ) → end.starts t ≡ true → t < length function.chunk.code)
      → step bytecode function w.offset w ≡ ok opcode v
      → Scanned (marked s w opcode) end v w'
      → Scanned s end w w'
  step-Scanned s w v opcode {end} {w'} inside below first ih = record {
    targets = (sound true).targets;
    keeps = λ k h. ih.keeps k (ground arith);
    checked = λ k h. earlier k (ih.checked k h);
    here = inl (ih.keeps w.offset (ground arith));
    unmoved = λ over. absurd (ground arith);
  }
    where
      sound :
          (condition : Bool)
          → Sound
              (λ t. end.starts t ≡ true)
              (record w { offset = w.offset + 1 })
              v
              (fetch bytecode function frame condition w.offset)
      sound = step-Sound (λ t. end.starts t ≡ true) below w.offset w v opcode first ih.targets

      now : Checked end w.offset
      now = record {
        opcode = opcode;
        after = v.offset;
        at = (step_parts bytecode function w.offset w v opcode first).0;
        continues = λ condition. (sound condition).continues;
        follows = ih.here;
        is_last = ih.unmoved;
      }

      earlier :
          (k : ℕ)
          → (mark w.offset s.starts k ≡ true) ⊎ Checked end k
          → (s.starts k ≡ true) ⊎ Checked end k
      earlier k (inr c) = inr c
      earlier k (inl m) = elim (Bool-cases (k == w.offset)) [
        | inl same ↦ inr (subst (Checked end) (sym ((==_iff k w.offset).0 same)) now)
        | inr other ↦ inl (ground arith)
      ]

  pub scan-Scanned :
      (fuel : ℕ) (s : Scan) (w : Walk) {end : Scan} {w' : Walk}
      → scan bytecode function fuel s w ≡ ok end w'
      → ((t : ℕ) → end.starts t ≡ true → t < length function.chunk.code)
      → AllTargets (λ t. end.starts t ≡ true) w'.jumps
      → Scanned s end w w'
  unfolding scan
  scan-Scanned zero s w {end} {w'} h below good =
      elim (Bool-cases (leb (length function.chunk.code) w.offset)) [
        | inl over ↦ scan_stopped s w (ground arith) (ground arith) (omega (tests, over)) good
        | inr inside ↦ absurd (ground arith)
      ]
  scan-Scanned (suc fuel) s w {end} {w'} h below good =
      elim (Bool-cases (leb (length function.chunk.code) w.offset)) [
        | inl over ↦ scan_stopped s w (ground arith) (ground arith) (omega (tests, over)) good
        | inr inside ↦
            let (opcode, v, first, rest) =
              >>=-eq-ok (step bytecode function w.offset)
                (λ opcode. scan bytecode function fuel (marked s w opcode)) w (rw inside at h) in
            step-Scanned s w v opcode inside below first
              (scan-Scanned fuel (marked s w opcode) v rest below good)
      ]

module _ {ℓ} {V : Type ℓ} (bytecode : ModuleBytecode V) (function : FunctionBytecode V) where
  -- Only offsets inside the code are marked.
  pub scan-below :
      (fuel : ℕ) (s : Scan) (w : Walk) {end : Scan} {w' : Walk}
      → scan bytecode function fuel s w ≡ ok end w'
      → ((t : ℕ) → s.starts t ≡ true → t < length function.chunk.code)
      → (t : ℕ) → end.starts t ≡ true
      → t < length function.chunk.code
  unfolding scan
  scan-below zero s w {end} {w'} h below =
      elim (Bool-cases (leb (length function.chunk.code) w.offset)) [
        | inl over ↦
            subst (λ (e : Scan). (t : ℕ) → e.starts t ≡ true → t < length function.chunk.code)
              {x = s} {y = end} (ground arith) below
        | inr inside ↦ absurd (ground arith)
      ]
  scan-below (suc fuel) s w {end} {w'} h below =
      elim (Bool-cases (leb (length function.chunk.code) w.offset)) [
        | inl over ↦
            subst (λ (e : Scan). (t : ℕ) → e.starts t ≡ true → t < length function.chunk.code)
              {x = s} {y = end} (ground arith) below
        | inr inside ↦
            let (opcode, v, first, rest) =
              >>=-eq-ok (step bytecode function w.offset)
                (λ opcode. scan bytecode function fuel (marked s w opcode)) w (rw inside at h) in
            scan-below fuel (marked s w opcode) v rest (λ t m. ground (arith, below t))
      ]
