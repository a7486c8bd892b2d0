-- ===== src/Cycles/Safety.antt =====
-- The collector frees only garbage, frees all that it can reach, and leaves the counts as they were.
use lumiere.Common.{ℕ, ◌+◌, ◌≤◌, ◌<◌, ◌≡◌, ◌↔◌, inl, inr, Option, some, List, arith}
use mathlib.Core.Path.{subst}
use mathlib.Core.Option.{some-injective}
use lumiere.Cycles.{Objects, find_garbage, restore}
use lumiere.Cycles.Sums.{occurrences, sum}
use lumiere.Cycles.Reach.{edges, Reachable, Live}
use lumiere.Cycles.Restore.{restore_lem}
use lumiere.Cycles.Garbage.{IsHeap, Finds, find_garbage_lem}

module _ (references : ℕ → List (Option ℕ)) (n : ℕ) (o : Objects) (roots : List ℕ)
    (heap : IsHeap references n o) (within : (x : ℕ) → 0 < occurrences x roots → x < n) where
  -- In a heap whose objects are counted at least as often as they are referred to, the three passes of a
  -- collection end within the rounds that they are given, and gather each object at most once.
  pub find_garbage_ends :
      (found : Objects) × (garbage : List ℕ) × (find_garbage references n o roots
        ≡ some (found, garbage))
      × ((y : ℕ) → occurrences y garbage ≤ 1)
  find_garbage_ends =
      let (found, garbage, ends, facts) = find_garbage_lem references n o roots heap within in
      (found, garbage, ends, facts.once)

  module _ (found : Objects) (garbage : List ℕ)
      (ends : find_garbage references n o roots ≡ some (found, garbage)) where
    facts : Finds references n o roots heap within found garbage
    facts =
        let (found', garbage', ends', facts') = find_garbage_lem references n o roots heap within in
        let same : (found', garbage') ≡ (found, garbage) =
          some-injective (found', garbage') (found, garbage) (cc (ends, ends')) in
        subst (λ (p : Objects × List ℕ). Finds references n o roots heap within p.0 p.1) same facts'

    -- In such a heap, what the passes gather is garbage: each gathered object is counted exactly as often as
    -- gathered objects refer to it.
    pub garbage-unreferenced :
        (y : ℕ) → 0 < occurrences y garbage → o.count y ≡ sum (edges references y) garbage
    garbage-unreferenced = facts.unreferenced

    -- In such a heap, when the references of the gathered objects are put back, every object is counted as
    -- often as before the collection.
    pub restore-count : (y : ℕ) → (restore references found garbage).count y ≡ o.count y
    restore-count y =
        let room : (z : ℕ) → found.count z + sum (edges references z) garbage ≤ 4294967295 =
          λ z. omega (arith, facts.counts z, heap.fits z) in
        omega (arith, restore_lem references found garbage room y, facts.counts y)

    -- In such a heap, of the objects that the roots lead to, the passes gather exactly those that are not
    -- reached from an object that is counted more often than such objects refer to it.
    pub garbage-Live :
        (y : ℕ)
        → Reachable references roots y
        → (0 < occurrences y garbage) ↔ ¬ Live references n o.count roots y
    garbage-Live y path = (
      facts.dead y,
      λ dead. elim (facts.complete y path) [ inl inside ↦ inside | inr live ↦ absurd (dead live) ],
    )
