-- ===== src/Vm/Verifier/Total/Reads.antt =====
-- The readers and the index checks of the verifier never read outside the code.
use Prim.Native.Nat.{bit_or}
use lumiere.Common.{
  ℕ, zero, suc, ◌+◌, ◌*◌, ◌≤◌, ◌<◌, ◌≡◌, refl, Bool, true, false, some, List, [], ◌∷◌, length,
  get_elem?, leb, ltb, arith, tests, not, if◌then◌else◌,
}
use mathlib.Core.Path.{subst, sym}
use lumiere.Vm.Bytecode.{FunctionBytecode, ModuleBytecode}
use lumiere.Vm.Verifier.{
  fail, outside_table, Walk, Problem, Operand, Outcome, Verify, ok, refused, fault, stuck, ◌>>=◌,
  index, available, u8, u16, u24, skip, local_range, return_ok,
}

-- Neither a read outside the code nor an unfinished loop, and the offset is not moved back.
pub data Sane {ℓ} {A : Type ℓ} (least : ℕ) : Outcome A → Type ℓ where
  accepts : (a : A) (w : Walk) → least ≤ w.offset → Sane least (ok a w)
  rejects : (p : Problem) → Sane least (refused p)

pub bind-eq :
    {A B : Type 0} (m : Verify A) (f : A → Verify B) (w : Walk) {a : A} {v : Walk}
    → m w ≡ ok a v
    → ◌>>=◌ m f w ≡ f a v
bind-eq m f w e = rw (e, ◌>>=◌)

pub bind-Sane :
    {A B : Type 0} (m : Verify A) (f : A → Verify B) (w : Walk) (least : ℕ)
    → Sane least (m w)
    → ((a : A) (v : Walk) → least ≤ v.offset → Sane least (f a v))
    → Sane least (◌>>=◌ m f w)
bind-Sane {A} {B} m f w least h k = split (m w) h
  where
    split :
        (r : Outcome A)
        → Sane least r
        → Sane {A = B} least
            (elim r [ ok a v ↦ f a v | refused p ↦ refused p | fault ↦ fault | stuck ↦ stuck ])
    split (ok _ _) (accepts a v le) = k a v le
    split (refused _) (rejects p) = rejects p
    split fault h = elim h [ ]
    split stuck h = elim h [ ]

get_elem?_inside {ℓ} :
    {A : Type ℓ} (xs : List A) (i : ℕ) → i < length xs → (a : A) × (get_elem? xs i ≡ some a)
get_elem?_inside [] i h = elim h [ ]
get_elem?_inside (x ∷ xs) zero h = (x, refl)
get_elem?_inside (x ∷ xs) (suc i) h = get_elem?_inside xs i (omega arith)

pub Sane-mono {ℓ} : {A : Type ℓ} {m n : ℕ} (r : Outcome A) → m ≤ n → Sane n r → Sane m r
Sane-mono (ok _ _) le (accepts a w h) = accepts a w (omega arith)
Sane-mono (refused _) le (rejects p) = rejects p
Sane-mono fault le h = elim h [ ]
Sane-mono stuck le h = elim h [ ]

pub guard-Sane {ℓ} :
    {A : Type ℓ} {least : ℕ} (b : Bool) {r s : Outcome A}
    → Sane least r
    → (b ≡ true → Sane least s)
    → Sane least (if not b then r else s)
guard-Sane true h k = k refl
guard-Sane false h k = h

pub choose-Sane {ℓ} :
    {A : Type ℓ} {least : ℕ} (b : Bool) {r s : Outcome A}
    → (b ≡ true → Sane least r)
    → (b ≡ false → Sane least s)
    → Sane least (if b then r else s)
choose-Sane true h k = h refl
choose-Sane false h k = k refl

pub either-Sane :
    {A : Type 0} {least : ℕ} (b : Bool) (m k : Verify A) (w : Walk)
    → Sane least (m w)
    → Sane least (k w)
    → Sane least ((if b then m else k) w)
either-Sane true m k w h h' = h
either-Sane false m k w h h' = h'

module _ {ℓ} {V : Type ℓ} (bytecode : ModuleBytecode V) (function : FunctionBytecode V)
    (i : ℕ) where
  pub available-le :
      (bytes : ℕ) (w : Walk)
      → available bytecode function i bytes w ≡ true
      → w.offset + bytes ≤ length function.chunk.code
  unfolding available
  available-le bytes w h = omega (tests, h)

  -- The readers inside the code.
  abbrev pub Reads : Verify ℕ → ℕ → Walk → Type 0
  Reads m width w = (value : ℕ) × (m w ≡ ok value (record w { offset = w.offset + width }))

  pub u8-Reads :
      (w : Walk) → w.offset + 1 ≤ length function.chunk.code → Reads (u8 bytecode function i) 1 w
  unfolding u8
  u8-Reads w h =
      let (b, e) = get_elem?_inside function.chunk.code w.offset (omega arith) in (b, ground arith)

  pub u16-Reads :
      (w : Walk) → w.offset + 2 ≤ length function.chunk.code → Reads (u16 bytecode function i) 2 w
  unfolding u16 u8
  u16-Reads w h =
      let (b, e) = get_elem?_inside function.chunk.code w.offset (omega arith) in
      let (c, f) = get_elem?_inside function.chunk.code (w.offset + 1) (omega arith) in
      (bit_or (b * 256) c, ground arith)

  pub u24-Reads :
      (w : Walk) → w.offset + 3 ≤ length function.chunk.code → Reads (u24 bytecode function i) 3 w
  unfolding u24 u8
  u24-Reads w h =
      let (b, e) = get_elem?_inside function.chunk.code w.offset (omega arith) in
      let (c, f) = get_elem?_inside function.chunk.code (w.offset + 1) (omega arith) in
      let (d, g) = get_elem?_inside function.chunk.code (w.offset + 1 + 1) (omega arith) in
      (bit_or (bit_or (b * 65536) (c * 256)) d, ground arith)

  -- A reader with its bytes at hand, and what is done with its value.
  pub read-Sane :
      (m : Verify ℕ) (width : ℕ) (f : ℕ → Verify (Unit {0})) (w : Walk) (least : ℕ)
      → Reads m width w
      → ((value : ℕ) → Sane least (f value (record w { offset = w.offset + width })))
      → Sane least (◌>>=◌ m f w)
  read-Sane m width f w least (value, e) k = subst (Sane least) (sym (bind-eq m f w e)) (k value)

  in_table :
      (limit value : ℕ) (what : Operand) (w : Walk) (least : ℕ)
      → least ≤ w.offset
      → Sane least (
          (if leb limit value
              then fail bytecode function i (outside_table what value limit)
              else return_ok)
            w)
  in_table limit value what w least le =
      either-Sane (leb limit value) (fail bytecode function i (outside_table what value limit))
        return_ok w (rejects _) (accepts tt w le)

  pub index_one-Sane :
      (limit : ℕ) (what : Operand) (w : Walk)
      → Sane w.offset (index bytecode function i 1 limit what w)
  unfolding index
  index_one-Sane limit what w = guard-Sane (available bytecode function i 1 w) (rejects _) λ fits.
      read-Sane (u8 bytecode function i) 1 _ w w.offset (u8-Reads w (available-le 1 w fits))
        λ value. in_table limit value what _ w.offset (omega arith)

  pub index_two-Sane :
      (limit : ℕ) (what : Operand) (w : Walk)
      → Sane w.offset (index bytecode function i 2 limit what w)
  unfolding index
  index_two-Sane limit what w = guard-Sane (available bytecode function i 2 w) (rejects _) λ fits.
      read-Sane (u16 bytecode function i) 2 _ w w.offset (u16-Reads w (available-le 2 w fits))
        λ value. in_table limit value what _ w.offset (omega arith)

  pub index_three-Sane :
      (limit : ℕ) (what : Operand) (w : Walk)
      → Sane w.offset (index bytecode function i 3 limit what w)
  unfolding index
  index_three-Sane limit what w = guard-Sane (available bytecode function i 3 w) (rejects _) λ fits.
      read-Sane (u24 bytecode function i) 3 _ w w.offset (u24-Reads w (available-le 3 w fits))
        λ value. in_table limit value what _ w.offset (omega arith)

  pub skip-Sane : (bytes : ℕ) (w : Walk) → Sane w.offset (skip bytecode function i bytes w)
  unfolding skip
  skip-Sane bytes w =
      guard-Sane (available bytecode function i bytes w) (rejects _)
        λ fits. accepts tt _ (omega arith)

  pub local_range-Sane : (w : Walk) → Sane w.offset (local_range bytecode function i w)
  unfolding local_range
  local_range-Sane w = guard-Sane (available bytecode function i 2 w) (rejects _) λ fits.
      let room = available-le 2 w fits in
      read-Sane (u8 bytecode function i) 1 _ w w.offset (u8-Reads w (omega arith)) λ first.
        read-Sane (u8 bytecode function i) 1 _ _ w.offset (u8-Reads _ (omega arith)) λ count.
          either-Sane (ltb function.local_slot_count (first + count)) _ return_ok _ (rejects _)
            (accepts tt _ (omega arith))
