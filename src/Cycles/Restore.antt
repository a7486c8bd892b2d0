-- ===== src/Cycles/Restore.antt =====
-- The counts that `collect` restores.
use lumiere.Common.{ℕ, ◌+◌, ◌≤◌, ◌≡◌, refl, Option, List, [], ◌∷◌, arith, ap, ◌∙◌}
use lumiere.Cycles.{Objects, increment, children_of, restore_children, restore}
use lumiere.Cycles.Sums.{occurrences, sum}
use lumiere.Cycles.Reach.{edges}
use lumiere.Cycles.Scanning.{up_lem}

restore_children_lem :
    (o : Objects) (children : List ℕ)
    → ((y : ℕ) → o.count y + occurrences y children ≤ 4294967295)
    → (y : ℕ) → (restore_children o children).count y ≡ o.count y + occurrences y children
unfolding restore_children occurrences
restore_children_lem o [] room y = omega arith
restore_children_lem o (child ∷ children) room y =
    let one_more = up_lem (o.count child) (ground (arith, room child)) in
    let rest =
      restore_children_lem (increment o child) children (λ z. ground (arith, one_more, room z)) y in
    ground (arith, one_more, rest)

module _ (references : ℕ → List (Option ℕ)) where
  pub restore_lem :
      (o : Objects) (garbage : List ℕ)
      → ((y : ℕ) → o.count y + sum (edges references y) garbage ≤ 4294967295)
      → (y : ℕ)
      → (restore references o garbage).count y ≡ o.count y + sum (edges references y) garbage
  unfolding restore sum
  restore_lem o [] room y = omega arith
  restore_lem o (object ∷ garbage) room y =
      let children = children_of references object in
      let first = restore_children_lem o children (λ z. omega (arith, room z)) in
      let rest =
        restore_lem (restore_children o children) garbage (λ z. omega (arith, room z, first z)) y in
      omega (arith, first y, rest)

restore_children_form :
    (o : Objects) (children : List ℕ)
    → (count : ℕ → ℕ) × (restore_children o children ≡ record o { count = count })
unfolding restore_children
restore_children_form o [] = (o.count, refl)
restore_children_form o (child ∷ children) = restore_children_form (increment o child) children

-- Nothing but counts is restored.
pub restore_form :
    (references : ℕ → List (Option ℕ)) (o : Objects) (garbage : List ℕ)
    → (count : ℕ → ℕ) × (restore references o garbage ≡ record o { count = count })
unfolding restore
restore_form references o [] = (o.count, refl)
restore_form references o (object ∷ garbage) =
    let (first, is) = restore_children_form o (children_of references object) in
    let (count, whole) = restore_form references (record o { count = first }) garbage in
    (count, ap (λ (p : Objects). restore references p garbage) is ∙ whole)
