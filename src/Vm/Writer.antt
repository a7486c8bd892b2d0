-- ===== src/Vm/Writer.antt =====
-- The methods of `Chunk` and `write_index_ref` of src/interpreter/vm/bytecode.cpp. A C++ exception
-- is the `throws` case; nothing is written before one.
pub mod Laws
use Prim.Native.Nat.{bit_and}
use lumiere.Common.{ℕ, ◌-◌, ◌/◌, [], ◌∷◌, ◌++◌, length, ltb, leb, if◌then◌else◌}
use lumiere.Vm.Opcode.{Opcode, byte_of}
use lumiere.Vm.Bytecode.{Chunk, SourceLocation}

pub data WriteError : Type 0 where
  index_too_large too_many_constants out_of_range : WriteError

pub data Written {ℓ} (A : Type ℓ) : Type ℓ where
  written : A → Written A
  throws : WriteError → Written A

infixl 5 ◌>>=◌
abbrev pub ◌>>=◌ {ℓ κ} : {A : Type ℓ} {B : Type κ} → Written A → (A → Written B) → Written B
written a >>= f = f a
throws e >>= f = throws e

abbrev pub k_max_long_index : ℕ
k_max_long_index = 0xffffff

module _ {ℓ} {V : Type ℓ} where
  unfoldable pub write_byte : Chunk V → ℕ → SourceLocation → Chunk V
  write_byte chunk byte location = record chunk {
    code = chunk.code ++ (byte ∷ []);
    locations = chunk.locations ++ (location ∷ []);
  }

  unfoldable pub write_opcode : Chunk V → Opcode → SourceLocation → Chunk V
  unfolding write_byte byte_of
  write_opcode chunk opcode location = write_byte chunk (byte_of opcode) location

  -- `value` is a `std::uint16_t`.
  unfoldable pub write_u16 : Chunk V → ℕ → SourceLocation → Chunk V
  unfolding write_byte
  write_u16 chunk value location =
      write_byte (write_byte chunk (bit_and (value / 256) 0xff) location) (bit_and value 0xff)
        location

  -- The three bytes that `write_u24` and the long references write, high byte first.
  unfoldable pub write_three : Chunk V → ℕ → SourceLocation → Chunk V
  unfolding write_byte
  write_three chunk value location =
      write_byte
        (write_byte (write_byte chunk (bit_and (value / 65536) 0xff) location)
          (bit_and (value / 256) 0xff) location)
        (bit_and value 0xff) location

  unfoldable pub write_u24 : Chunk V → ℕ → SourceLocation → Written (Chunk V)
  unfolding write_three
  write_u24 chunk value location =
      if ltb 0xffffff value then throws out_of_range else written (write_three chunk value location)

  unfoldable pub write_index_ref :
      Chunk V → Opcode → Opcode → ℕ → SourceLocation → Written (Chunk V)
  unfolding write_byte write_opcode write_three
  write_index_ref chunk short_opcode long_opcode index location =
      if leb index 255
      then written (write_byte (write_opcode chunk short_opcode location) index location)
      else if ltb k_max_long_index index
      then throws index_too_large
      else written (write_three (write_opcode chunk long_opcode location) index location)

  -- The new chunk and the index of the value in its constant pool.
  unfoldable pub add_constant : Chunk V → V → Written (Chunk V × ℕ)
  add_constant chunk value =
      if ltb k_max_long_index (length chunk.constants)
      then throws too_many_constants
      else written (
        record chunk { constants = chunk.constants ++ (value ∷ []) },
        length (chunk.constants ++ (value ∷ [])) - 1,
      )

  unfoldable pub write_constant_ref : Chunk V → ℕ → SourceLocation → Written (Chunk V)
  unfolding write_byte write_opcode write_three
  write_constant_ref chunk index location =
      if leb index 255
      then written (write_byte (write_opcode chunk Opcode.constant location) index location)
      else if ltb k_max_long_index index
      then throws index_too_large
      else written (write_three (write_opcode chunk Opcode.constant_long location) index location)

  unfoldable pub write_global_ref : Chunk V → ℕ → SourceLocation → Written (Chunk V)
  unfolding write_index_ref
  write_global_ref chunk = write_index_ref chunk Opcode.get_global Opcode.get_global_long

  unfoldable pub write_cast_ref : Chunk V → ℕ → SourceLocation → Written (Chunk V)
  unfolding write_index_ref
  write_cast_ref chunk = write_index_ref chunk Opcode.cast Opcode.cast_long

  unfoldable pub write_type_check_ref : Chunk V → ℕ → SourceLocation → Written (Chunk V)
  unfolding write_index_ref
  write_type_check_ref chunk = write_index_ref chunk Opcode.type_check Opcode.type_check_long

  unfoldable pub write_type_assertion : Chunk V → ℕ → SourceLocation → Written (Chunk V)
  unfolding write_index_ref
  write_type_assertion chunk = write_index_ref chunk Opcode.assert_type Opcode.assert_type_long

  -- `arity` is a `std::uint8_t`.
  unfoldable pub write_global_call : Chunk V → ℕ → ℕ → SourceLocation → Written (Chunk V)
  unfolding write_index_ref write_byte
  write_global_call chunk index arity location = do
    called ← write_index_ref chunk Opcode.call_global Opcode.call_global_long index location
    written (write_byte called arity location)

  unfoldable pub write_member_call : Chunk V → ℕ → ℕ → SourceLocation → Written (Chunk V)
  unfolding write_index_ref write_byte
  write_member_call chunk index arity location = do
    called ← write_index_ref chunk Opcode.call_member Opcode.call_member_long index location
    written (write_byte called arity location)

  unfoldable pub write_member_get : Chunk V → ℕ → SourceLocation → Written (Chunk V)
  unfolding write_index_ref
  write_member_get chunk = write_index_ref chunk Opcode.get_member Opcode.get_member_long
