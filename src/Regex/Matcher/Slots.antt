-- ===== src/Regex/Matcher/Slots.antt =====
-- The slots of a thread and the list of threads.
use lumiere.Common.{
  ℕ, zero, suc, ◌<◌, ◌≡◌, refl, Option, some, List, [], ◌∷◌, ◌++◌, All, length, get_elem?, arith,
  ap,
}
use lumiere.Regex.Matcher.{save_at}

pub save_at_lem :
    (saved : List (Option ℕ)) (slot sp : ℕ)
    → slot < length saved
    → (kept : List (Option ℕ)) × (save_at saved slot sp ≡ some kept) × (length kept ≡ length saved)
unfolding save_at
save_at_lem [] slot sp h = absurd (omega arith)
save_at_lem (old ∷ saved) zero sp h = (some sp ∷ saved, refl, refl)
save_at_lem (old ∷ saved) (suc slot) sp h =
    let (kept, ends, same) = save_at_lem saved slot sp (omega arith) in
    (old ∷ kept, rw (save_at, ends) refl, ap suc same)

pub lookup :
    {A : Type 0} (xs : List A) (i : ℕ) → i < length xs → (x : A) × (get_elem? xs i ≡ some x)
lookup [] i h = absurd (omega arith)
lookup (x ∷ xs) zero h = (x, refl)
lookup (x ∷ xs) (suc i) h = lookup xs i (omega arith)

pub All-snoc :
    {A : Type 0} (P : A → Type 0) (xs : List A) (x : A) → All P xs → P x → All P (xs ++ x ∷ [])
All-snoc P [] x all one = (one, tt)
All-snoc P (y ∷ ys) x (first, all) one = (first, All-snoc P ys x all one)
