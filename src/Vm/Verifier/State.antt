-- ===== src/Vm/Verifier/State.antt =====
-- The state of FunctionVerifier (src/interpreter/vm/verifier.cpp), the outcomes of its methods and
-- how the methods are composed.
use Prim.Native.String.{String}
use lumiere.Common.{ℕ, ◌≡◌, refl, List}

-- What an index operand counts in, `what` of the messages.
pub data Operand : Type 0 where
  constante globale variable_locale capture membre classe interface espace_de_noms : Operand
  annotation type fonction appel nom_d_argument : Operand

pub data Reason : Type 0 where
  empty_code past_the_end falls_through : Reason
  unknown_opcode : ℕ → Reason
  truncated_operand truncated_range truncated_jump truncated_captures truncated_arity : Reason
  truncated_index : Operand → Reason
  outside_table : Operand → ℕ → ℕ → Reason
  range_outside_frame : ℕ → ℕ → ℕ → Reason
  bad_jump : ℕ → Reason

-- The parts of the message that `fail` builds.
pub record Problem : Type 0 where
  pub function : String
  pub offset : ℕ
  pub reason : Reason

-- `m_offset`, and `m_jumps` as pairs of a target and the offset of its instruction.
pub record Walk : Type 0 where
  pub offset : ℕ
  pub jumps : List (ℕ × ℕ)

pub data Outcome {ℓ} (A : Type ℓ) : Type ℓ where
  ok : A → Walk → Outcome A
  refused : Problem → Outcome A
  fault stuck : Outcome A

abbrev pub Verify {ℓ} : Type ℓ → Type ℓ
Verify A = Walk → Outcome A

infixl 5 ◌>>=◌ ◌>>◌
abbrev pub ◌>>=◌ {ℓ κ} : {A : Type ℓ} {B : Type κ} → Verify A → (A → Verify B) → Verify B
◌>>=◌ m f w = elim (m w) [
  | ok a w' ↦ f a w'
  | refused p ↦ refused p
  | fault ↦ fault
  | stuck ↦ stuck
]

abbrev pub ◌>>◌ {ℓ κ} : {A : Type ℓ} {B : Type κ} → Verify A → Verify B → Verify B
m >> k = m >>= λ _. k

-- A successful bind is two successful parts.
pub >>=-eq-ok {ℓ κ} :
    {A : Type ℓ} {B : Type κ} (m : Verify A) (f : A → Verify B) (w : Walk) {b : B} {w' : Walk}
    → ◌>>=◌ m f w ≡ ok b w'
    → (a : A) × (v : Walk) × (m w ≡ ok a v) × (f a v ≡ ok b w')
>>=-eq-ok {A} {B} m f w {b} {w'} h = split (m w) h
  where
    split :
        (r : Outcome A)
        → elim r [ ok a v ↦ f a v | refused p ↦ refused p | fault ↦ fault | stuck ↦ stuck ]
          ≡ ok b w'
        → (a : A) × (v : Walk) × (r ≡ ok a v) × (f a v ≡ ok b w')
    split (ok a v) e = (a, v, refl, e)
    split (refused p) e = cc
    split fault e = cc
    split stuck e = cc

abbrev pub return_ok : Verify (Unit {0})
return_ok w = ok tt w
