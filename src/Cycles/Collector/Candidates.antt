-- ===== src/Cycles/Collector/Candidates.antt =====
-- The candidates that a collection starts from.
use lumiere.Common.{
  ℕ, zero, suc, ◌<◌, ◌≡◌, refl, Bool, false, ◌&&◌, some, List, [], ◌∷◌, get_elem?, ltb, ◌==◌, arith,
  inl, inr, sym, ap, Bool-cases, ==_refl, neq→==, lt→ltb,
}
use mathlib.Core.Option.{some-injective}
use lumiere.Cycles.{Objects, is_purple, is_black}
use lumiere.Cycles.Sums.{
  occurrences, occurrences_here, occurrences-cases, occurrences_later, occurrences_head,
}
use lumiere.Cycles.Collector.{buffer, forget_candidates, choose_roots, choose_freed}

pub occurrences_at :
    (xs : List ℕ) (x : ℕ) → 0 < occurrences x xs → (i : ℕ) × (get_elem? xs i ≡ some x)
unfolding occurrences
occurrences_at [] x h = absurd (omega arith)
occurrences_at (y ∷ ys) x h = elim (occurrences-cases x y ys h) [
  | inl here ↦ (0, ap some (sym here))
  | inr later ↦ let (i, e) = occurrences_at ys x later in (suc i, e)
]

pub at_occurrences : (xs : List ℕ) (i x : ℕ) → get_elem? xs i ≡ some x → 0 < occurrences x xs
at_occurrences [] i x h = absurd (cc)
at_occurrences (y ∷ ys) zero x h = occurrences_head x y ys (sym (some-injective y x h))
at_occurrences (y ∷ ys) (suc i) x h = occurrences_later x y ys (at_occurrences ys i x h)

pub forget_candidates_lem :
    (o : Objects) (candidates : List ℕ)
    → (flags : ℕ → Bool) × (forget_candidates o candidates ≡ record o { buffered = flags })
      × ((x : ℕ) → 0 < occurrences x candidates → flags x ≡ false)
      × ((x : ℕ) → o.buffered x ≡ false → flags x ≡ false)
unfolding forget_candidates occurrences
forget_candidates_lem o [] = (o.buffered, refl, λ x h. absurd (omega arith), λ x h. h)
forget_candidates_lem o (object ∷ candidates) =
    let (flags, is, inside, outside) = forget_candidates_lem (buffer o object false) candidates in
    (
      flags,
      is,
      λ x h. elim (occurrences-cases x object candidates h) [
        | inl here ↦ outside x (rw (here, ==_refl object) refl)
        | inr later ↦ inside x later
      ],
      λ x h. outside x (elim (Bool-cases (object == x)) [ inl e ↦ rw (e) refl | inr e ↦ rw (e) h ]),
    )

pub choose_freed_lem :
    (o : Objects) (candidates : List ℕ)
    → ((x : ℕ) → 0 < occurrences x candidates → 0 < o.count x)
    → choose_freed o candidates ≡ []
unfolding choose_freed
choose_freed_lem o [] counted = refl
choose_freed_lem o (x ∷ xs) counted =
    let more = counted x (omega (arith, occurrences_here x xs)) in
    let rest = choose_freed_lem o xs (λ y h. counted y (occurrences_later y x xs h)) in
    let stays : (o.count x == 0) ≡ false = neq→== (o.count x) 0 (λ e. omega (arith, e, more)) in
    elim (Bool-cases (is_purple (o.colour x))) [
      | inl p ↦ rw (choose_freed, p, lt→ltb 0 (o.count x) more) rest
      | inr p ↦ elim (Bool-cases (is_black (o.colour x))) [
        | inl dark ↦ rw (choose_freed, p, dark, stays) rest
        | inr light ↦ rw (choose_freed, p, light) rest
      ]
    ]

pub choose_roots_lem :
    (o : Objects) (candidates : List ℕ) (x : ℕ)
    → 0 < occurrences x (choose_roots o candidates)
    → 0 < occurrences x candidates
unfolding choose_roots occurrences
choose_roots_lem o [] x h = h
choose_roots_lem o (y ∷ ys) x h = elim (Bool-cases (is_purple (o.colour y) && ltb 0 (o.count y))) [
  | inl taken ↦ elim (occurrences-cases x y (choose_roots o ys) (rw (taken, choose_roots) at h)) [
    | inl here ↦ occurrences_head x y ys here
    | inr later ↦ occurrences_later x y ys (choose_roots_lem o ys x later)
  ]
  | inr dropped ↦
      occurrences_later x y ys (choose_roots_lem o ys x (rw (dropped, choose_roots) at h))
]
