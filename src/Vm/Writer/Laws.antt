-- ===== src/Vm/Writer/Laws.antt =====
-- What the writers of a chunk write is what the interpreter reads back.
use Prim.Native.Nat.{bit_and, bit_or}
use mathlib.Core.List.{append_assoc}
use lumiere.Common.{
  ℕ, ◌+◌, ◌*◌, ◌/◌, ◌%◌, ◌^◌, ◌≤◌, ◌<◌, ◌≡◌, ap, ◌∙◌, some, List, [], ◌∷◌, ◌++◌, length, get_elem?,
  length-append, arith, leb, Bool-cases, tests, inl, inr,
}
use lumiere.Common.Bits.{bit_and-mask, bit_or-shift}
use lumiere.Vm.Opcode.{Opcode, byte_of}
use lumiere.Vm.Bytecode.{Chunk, SourceLocation}
use lumiere.Vm.Fetch.{read_byte_of, read_u16_of, read_u24_of}
use lumiere.Vm.Writer.{
  written, throws, index_too_large, write_byte, write_opcode, write_three, write_u16,
  write_index_ref,
}

-- The low byte, as the source masks it.
low_byte : (v : ℕ) → bit_and v 0xff ≡ v % 256
low_byte v = bit_and-mask 8 v

join_u16 : (v : ℕ) → v < 0x10000 → bit_or (bit_and (v / 256) 0xff * 256) (bit_and v 0xff) ≡ v
join_u16 v h =
    rw (low_byte (v / 256), low_byte v, bit_or-shift 8 (v / 256 % 256) (v % 256) (omega arith))
      (omega arith)

join_u24 :
    (v : ℕ)
    → v < 0x1000000
    → bit_or
        (bit_or (bit_and (v / 65536) 0xff * 65536) (bit_and (v / 256) 0xff * 256))
        (bit_and v 0xff)
      ≡ v
join_u24 v h =
    let a : ℕ = v / 65536 % 256 in
    let b : ℕ = v / 256 % 256 in
    let c : ℕ = v % 256 in
    rw (low_byte (v / 65536), low_byte (v / 256), low_byte v)
      (ap (λ t. bit_or t c) (bit_or-shift 16 a (b * 256) (omega arith) ∙ fields a b)
        ∙ bit_or-shift 8 (a * 256 + b) c (omega arith)
        ∙ omega arith)
  where
    fields : (a b : ℕ) → a * 2 ^ 16 + b * 256 ≡ (a * 256 + b) * 2 ^ 8
    fields a b = omega arith

get_elem?-append_right {ℓ} :
    {A : Type ℓ} (xs ys : List A) (i : ℕ) → get_elem? (xs ++ ys) (length xs + i) ≡ get_elem? ys i
get_elem?-append_right [] ys i = ap (get_elem? ys) (omega arith)
get_elem?-append_right (x ∷ xs) ys i = ground (arith, get_elem?-append_right xs ys i)

module _ {ℓ} {V : Type ℓ} (chunk : Chunk V) (location : SourceLocation) where
  at_end :
      (bytes : List ℕ) (i : ℕ)
      → get_elem? (chunk.code ++ bytes) (length chunk.code + i) ≡ get_elem? bytes i
  at_end bytes i = get_elem?-append_right chunk.code bytes i

  code-write_three :
      (value : ℕ)
      → (write_three chunk value location).code
        ≡ chunk.code
          ++ (bit_and (value / 65536) 0xff ∷ bit_and (value / 256) 0xff ∷ bit_and value 0xff ∷ [])
  unfolding write_three
  code-write_three value = simp append_assoc

  -- A 24-bit value is read back where it was written.
  pub read_u24-write_three :
      (value : ℕ)
      → value < 0x1000000
      → read_u24_of (write_three chunk value location) (length chunk.code)
        ≡ some (value, length chunk.code + 3)
  unfolding read_u24_of read_byte_of
  read_u24-write_three value h =
      let bytes : List ℕ =
        bit_and (value / 65536) 0xff ∷ bit_and (value / 256) 0xff ∷ bit_and value 0xff ∷ [] in
      ground (
        arith,
        ap (λ (code : List ℕ). get_elem? code (length chunk.code)) (code-write_three value),
        ap (λ (code : List ℕ). get_elem? code (length chunk.code + 1)) (code-write_three value),
        ap (λ (code : List ℕ). get_elem? code (length chunk.code + 1 + 1)) (code-write_three value),
        at_end bytes 0,
        at_end bytes 1,
        at_end bytes 2,
        join_u24 value h,
      )

  -- A 16-bit value is read back where it was written.
  pub read_u16-write_u16 :
      (value : ℕ)
      → value < 0x10000
      → read_u16_of (write_u16 chunk value location) (length chunk.code)
        ≡ some (value, length chunk.code + 2)
  unfolding read_u16_of read_byte_of write_u16
  read_u16-write_u16 value h =
      let bytes : List ℕ = bit_and (value / 256) 0xff ∷ bit_and value 0xff ∷ [] in
      ground (
        arith,
        append_assoc chunk.code (bit_and (value / 256) 0xff ∷ []) (bit_and value 0xff ∷ []),
        at_end bytes 0,
        at_end bytes 1,
        join_u16 value h,
      )

-- The interpreter finds at `at` the short or the long form of an index operand, with this index, and
-- the operand ends with the code.
pub record ReadsBack {ℓ} {V : Type ℓ} (chunk : Chunk V) (at : ℕ) (short_opcode long_opcode : Opcode)
    (index : ℕ) : Type ℓ where
  pub short_form :
      index ≤ 255
      → (get_elem? chunk.code at ≡ some (byte_of short_opcode))
        × (read_byte_of chunk (at + 1) ≡ some (index, length chunk.code))
  pub long_form :
      255 < index
      → (get_elem? chunk.code at ≡ some (byte_of long_opcode))
        × (read_u24_of chunk (at + 1) ≡ some (index, length chunk.code))

module _ {ℓ} {V : Type ℓ} (chunk : Chunk V) (short_opcode long_opcode : Opcode) (index : ℕ)
    (location : SourceLocation) where
  short-ReadsBack :
      index ≤ 255
      → ReadsBack
          (write_byte (write_opcode chunk short_opcode location) index location)
          (length chunk.code)
          short_opcode
          long_opcode
          index
  unfolding write_byte write_opcode read_byte_of
  short-ReadsBack h =
      let bytes : List ℕ = byte_of short_opcode ∷ index ∷ [] in
      let whole = append_assoc chunk.code (byte_of short_opcode ∷ []) (index ∷ []) in
      record {
        short_form = λ _. (
          ground (arith, whole, at_end chunk location bytes 0),
          ground (arith, whole, at_end chunk location bytes 1, length-append chunk.code bytes),
        );
        long_form = λ over. absurd (omega arith);
      }

  long-ReadsBack :
      255 < index
      → index < 0x1000000
      → ReadsBack
          (write_three (write_opcode chunk long_opcode location) index location)
          (length chunk.code)
          short_opcode
          long_opcode
          index
  unfolding write_opcode write_three
  long-ReadsBack h k =
      let opened = write_opcode chunk long_opcode location in
      let high : ℕ = bit_and (index / 65536) 0xff in
      let middle : ℕ = bit_and (index / 256) 0xff in
      let low : ℕ = bit_and index 0xff in
      let bytes : List ℕ = high ∷ middle ∷ low ∷ [] in
      let whole = code-write_three opened location index in
      let first = append_assoc chunk.code (byte_of long_opcode ∷ []) bytes in
      record {
        short_form = λ over. absurd (omega arith);
        long_form = λ _. (
          ground (
            arith,
            ap (λ (code : List ℕ). get_elem? code (length chunk.code)) (whole ∙ first),
            at_end chunk location (byte_of long_opcode ∷ bytes) 0,
          ),
          ground (
            arith,
            read_u24-write_three opened location index k,
            length-append chunk.code (byte_of long_opcode ∷ []),
            ap (λ (code : List ℕ). length code) (whole ∙ first),
            length-append chunk.code (byte_of long_opcode ∷ bytes),
          ),
        );
      }

  -- An index of at most 24 bits is written, in the short form up to 255, and reads back.
  pub write_index_ref-ReadsBack :
      index ≤ 0xffffff
      → (chunk' : Chunk V) × (write_index_ref chunk short_opcode long_opcode index location
          ≡ written chunk')
        × ReadsBack chunk' (length chunk.code) short_opcode long_opcode index
  unfolding write_index_ref
  write_index_ref-ReadsBack h = elim (Bool-cases (leb index 255)) [
    | inl short ↦ (
      write_byte (write_opcode chunk short_opcode location) index location,
      ground arith,
      short-ReadsBack (omega (tests, short)),
    )
    | inr long ↦ (
      write_three (write_opcode chunk long_opcode location) index location,
      ground arith,
      long-ReadsBack (ground arith) (omega arith),
    )
  ]

  -- A larger index is refused.
  write_index_ref_too_large :
      0xffffff < index
      → write_index_ref chunk short_opcode long_opcode index location ≡ throws index_too_large
  unfolding write_index_ref
  write_index_ref_too_large h = ground arith
