-- ===== src/Vm/Fetch/Reads.antt =====
-- What the verifier's readers accept, the interpreter reads, and both end at the same offset.
use lumiere.Common.{
  ℕ, zero, suc, ◌+◌, ◌*◌, ◌≤◌, ◌<◌, ◌≡◌, refl, ap, ◌∙◌, false, Bool, not, Bool-cases, ◌==◌, ◌⊎◌,
  some, List, [], ◌∷◌, length, get_elem?, leb, Option-cases, inl, inr, arith,
}
use lumiere.Vm.Bytecode.{FunctionBytecode, ModuleBytecode}
use lumiere.Vm.Verifier.{Walk, Operand, ok, u8, u16, u24, skip, index, available, >>=-eq-ok}
use lumiere.Vm.Verifier.{local_range, closure, argument_names, arity_and_names}
use lumiere.Vm.Verifier.{fonction, nom_d_argument}
use lumiere.Vm.Fetch.{
  fetch_captures, fetch_closure, fetch_arguments, fetch_call, fetch_names, fetch_entry, is_capture,
  go_on, ◌>>=◌,
}
use lumiere.Vm.Fetch.{
  Read, Fetched, next, raised, Frame, read_byte_of, read_u16_of, read_u24_of, fetch_index,
}

-- An operand accepted between `w` and `w'`: the interpreter reads a value below the limit.
pub record Reads (read : Read ℕ) (limit : ℕ) (w w' : Walk) : Type 0 where
  pub value : ℕ
  pub reads : read w.offset ≡ some (value, w'.offset)
  pub within : leb limit value ≡ false
  pub same_jumps : w'.jumps ≡ w.jumps
  pub moves : w.offset ≤ w'.offset

-- The instruction accepted between `w` and `w'` is one after which execution goes on at `w'`, unless
-- an index that the verifier does not bound is outside its table.
pub record Passes (w w' : Walk) (flow : Fetched) : Type 0 where
  pub flows : (flow ≡ next w'.offset) ⊎ (flow ≡ raised)
  pub same_jumps : w'.jumps ≡ w.jumps
  pub moves : w.offset ≤ w'.offset

-- A read inside a list succeeds.
get_elem?_inside {ℓ} :
    {A : Type ℓ} (xs : List A) (i : ℕ) → i < length xs → (a : A) × (get_elem? xs i ≡ some a)
get_elem?_inside [] i h = elim h [ ]
get_elem?_inside (x ∷ xs) zero h = (x, refl)
get_elem?_inside (x ∷ xs) (suc i) h = get_elem?_inside xs i (omega arith)

module _ {ℓ} {V : Type ℓ} (bytecode : ModuleBytecode V) (function : FunctionBytecode V)
    (i : ℕ) where
  pub index_one :
      (limit : ℕ) (what : Operand) (w : Walk) {w' : Walk}
      → index bytecode function i 1 limit what w ≡ ok tt w'
      → Reads (read_byte_of function.chunk) limit w w'
  unfolding index available u8 read_byte_of
  index_one limit what w h = elim (Option-cases (read_byte_of function.chunk w.offset)) [
    | inl e ↦ absurd (ground arith)
    | inr ((value, ip), e) ↦ record {
      value = value;
      reads = ground arith;
      within = ground arith;
      same_jumps = ground arith;
      moves = ground arith;
    }
  ]

  pub index_two :
      (limit : ℕ) (what : Operand) (w : Walk) {w' : Walk}
      → index bytecode function i 2 limit what w ≡ ok tt w'
      → Reads (read_u16_of function.chunk) limit w w'
  unfolding index available u8 u16 read_byte_of read_u16_of
  index_two limit what w h = elim (Option-cases (read_u16_of function.chunk w.offset)) [
    | inl e ↦ absurd (ground arith)
    | inr ((value, ip), e) ↦ record {
      value = value;
      reads = ground arith;
      within = ground arith;
      same_jumps = ground arith;
      moves = ground arith;
    }
  ]

  pub index_three :
      (limit : ℕ) (what : Operand) (w : Walk) {w' : Walk}
      → index bytecode function i 3 limit what w ≡ ok tt w'
      → Reads (read_u24_of function.chunk) limit w w'
  unfolding index available u8 u24 read_byte_of read_u24_of
  index_three limit what w h = elim (Option-cases (read_u24_of function.chunk w.offset)) [
    | inl e ↦ absurd (ground arith)
    | inr ((value, ip), e) ↦ record {
      value = value;
      reads = ground arith;
      within = ground arith;
      same_jumps = ground arith;
      moves = ground arith;
    }
  ]

module _ {ℓ} {V : Type ℓ} (bytecode : ModuleBytecode V) (function : FunctionBytecode V) (i : ℕ)
    (frame : Frame) where
  pub index-Passes :
      (read : Read ℕ) (limit : ℕ) (what : Operand) (w w' : Walk)
      → Reads read limit w w'
      → Passes w w' (fetch_index bytecode function frame read limit what w.offset)
  unfolding fetch_index
  index-Passes read limit what w w' r = record {
    flows = inl (ground (arith, r.reads, r.within));
    same_jumps = r.same_jumps;
    moves = r.moves;
  }

  pub entry-Passes :
      (read : Read ℕ) (limit : ℕ) (what : Operand) (fits : ℕ → Bool) (w w' : Walk)
      → Reads read limit w w'
      → Passes w w' (fetch_entry bytecode function frame read limit what fits w.offset)
  unfolding fetch_entry
  entry-Passes read limit what fits w w' r = record {
    flows = elim (Bool-cases (fits r.value)) [
      | inl good ↦ inl (ground (arith, r.reads, r.within, good))
      | inr bad ↦ inr (ground (arith, r.reads, r.within, bad))
    ];
    same_jumps = r.same_jumps;
    moves = r.moves;
  }

  pub skip-Passes :
      (w w' : Walk)
      → skip bytecode function i 1 w ≡ ok tt w'
      → Passes w w' ((read_byte_of function.chunk >>= λ _. go_on) w.offset)
  unfolding skip available read_byte_of
  skip-Passes w w' h = elim (Option-cases (get_elem? function.chunk.code w.offset)) [
    | inl e ↦ absurd (ground (arith, get_elem?_inside function.chunk.code w.offset))
    | inr (b, e) ↦ record {
      flows = inl (ground arith);
      same_jumps = ground arith;
      moves = ground arith;
    }
  ]

  pub local_range-Passes :
      (w w' : Walk)
      → local_range bytecode function i w ≡ ok tt w'
      → Passes w w' (
          (read_byte_of function.chunk >>= λ _. read_byte_of function.chunk >>= λ _. go_on)
            w.offset)
  unfolding local_range available u8 read_byte_of
  local_range-Passes w w' h = record {
    flows = inl (ground arith);
    same_jumps = ground arith;
    moves = ground arith;
  }

  fetch_captures-next :
      (count ip : ℕ)
      → ip + count * 2 ≤ length function.chunk.code
      → (fetch_captures bytecode function frame count ip ≡ next (ip + count * 2))
        ⊎ (fetch_captures bytecode function frame count ip ≡ raised)
  unfolding fetch_captures read_byte_of
  fetch_captures-next zero ip h = inl (ap next (omega arith))
  fetch_captures-next (suc count) ip h =
      let (b, e) = get_elem?_inside function.chunk.code ip (omega arith) in
      let (c, d) = get_elem?_inside function.chunk.code (ip + 1) (omega arith) in
      elim (Bool-cases (is_capture bytecode function frame (not (b == 0)) c)) [
        | inr bad ↦ inr (ground (arith, e, d, bad))
        | inl good ↦ elim (fetch_captures-next count (ip + 1 + 1) (omega arith)) [
          | inl goes ↦ inl (ground (arith, e, d, good, goes))
          | inr stops ↦ inr (ground (arith, e, d, good, stops))
        ]
      ]

  fetch_names-Passes :
      (arity : ℕ) (w w' : Walk)
      → argument_names bytecode function i arity w ≡ ok tt w'
      → Passes w w' (fetch_names bytecode function frame arity w.offset)
  unfolding argument_names fetch_names
  fetch_names-Passes zero w w' h = record {
    flows = inl (ground arith);
    same_jumps = ground arith;
    moves = ground arith;
  }
  fetch_names-Passes (suc arity) w w' h =
      let limit = length bytecode.argument_names + 1 in
      let (u, v, first, rest) =
        >>=-eq-ok (index bytecode function i 2 limit nom_d_argument)
          (λ _. argument_names bytecode function i arity) w h in
      let r = index_two bytecode function i limit nom_d_argument w first in
      let later = fetch_names-Passes arity v w' rest in
      record {
        flows = elim (Bool-cases (leb (length bytecode.argument_names) r.value)) [
          | inl bad ↦ inr (ground (arith, r.reads, bad))
          | inr good ↦ elim later.flows [
            | inl goes ↦ inl (ground (arith, r.reads, good, goes))
            | inr stops ↦ inr (ground (arith, r.reads, good, stops))
          ]
        ];
        same_jumps = later.same_jumps ∙ r.same_jumps;
        moves = omega (arith, r.moves, later.moves);
      }

  -- The arity and the names, with the arity's byte.
  arity-Passes :
      (w w' : Walk)
      → arity_and_names bytecode function i w ≡ ok tt w'
      → (arity : ℕ) × (get_elem? function.chunk.code w.offset ≡ some arity)
        × Passes w w' (fetch_names bytecode function frame arity (w.offset + 1))
  unfolding arity_and_names available u8
  arity-Passes w w' h = elim (Option-cases (get_elem? function.chunk.code w.offset)) [
    | inl e ↦ absurd (ground (arith, get_elem?_inside function.chunk.code w.offset))
    | inr (arity, e) ↦
        let p = fetch_names-Passes arity (record w { offset = w.offset + 1 }) w' (ground arith) in
        (
          arity,
          e,
          record { flows = p.flows; same_jumps = p.same_jumps; moves = omega (arith, p.moves) },
        )
  ]

  pub arguments-Passes :
      (w w' : Walk)
      → arity_and_names bytecode function i w ≡ ok tt w'
      → Passes w w' (fetch_arguments bytecode function frame w.offset)
  unfolding fetch_arguments read_byte_of
  arguments-Passes w w' h =
      let (arity, e, p) = arity-Passes w w' h in
      record {
        flows = elim p.flows [
          | inl goes ↦ inl (ground (arith, e, goes))
          | inr stops ↦ inr (ground (arith, e, stops))
        ];
        same_jumps = p.same_jumps;
        moves = p.moves;
      }

  pub call-Passes :
      (read : Read ℕ) (limit : ℕ) (w v w' : Walk)
      → Reads read limit w v
      → arity_and_names bytecode function i v ≡ ok tt w'
      → Passes w w' (fetch_call bytecode function frame read limit w.offset)
  unfolding fetch_call read_byte_of
  call-Passes read limit w v w' r h =
      let (arity, e, p) = arity-Passes v w' h in
      record {
        flows = elim p.flows [
          | inl goes ↦ inl (ground (arith, r.reads, r.within, e, goes))
          | inr stops ↦ inr (ground (arith, r.reads, r.within, e, stops))
        ];
        same_jumps = p.same_jumps ∙ r.same_jumps;
        moves = omega (arith, r.moves, p.moves);
      }

  pub closure-Passes :
      (w w' : Walk)
      → closure bytecode function i w ≡ ok tt w'
      → Passes w w' (fetch_closure bytecode function frame w.offset)
  unfolding closure available u8 skip fetch_closure read_byte_of
  closure-Passes w w' h =
      let (u, v, first, rest) =
        >>=-eq-ok (index bytecode function i 2 (length bytecode.functions) fonction) _ w h in
      let r = index_two bytecode function i (length bytecode.functions) fonction w first in
      elim (Option-cases (get_elem? function.chunk.code v.offset)) [
        | inl e ↦ absurd (ground arith)
        | inr (count, e) ↦
            let inside : v.offset + 1 + count * 2 ≤ length function.chunk.code = ground arith in
            record {
              flows = elim (fetch_captures-next count (v.offset + 1) inside) [
                | inl goes ↦ inl (ground (arith, r.reads, r.within, goes))
                | inr stops ↦ inr (ground (arith, r.reads, r.within, stops))
              ];
              same_jumps = ground (arith, r.same_jumps);
              moves = ground (arith, r.moves);
            }
      ]
