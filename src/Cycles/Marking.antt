-- ===== src/Cycles/Marking.antt =====
-- What `mark_grey` does: every object that a root leads to turns grey, and its references are taken off
-- the counts.
use lumiere.Common.{
  ℕ, ◌+◌, ◌≤◌, ◌<◌, ◌≡◌, refl, ◌⊎◌, Bool, true, false, Option, List, [], ◌∷◌, arith, Bool-cases,
  inl, inr, ap, ◌∙◌,
}
use lumiere.Cycles.{grey, is_grey, Objects, down, decrement, paint, mark_children}
use lumiere.Cycles.Sums.{
  occurrences, total, sum, occurrences_here, occurrences-cases, occurrences_later,
}
use lumiere.Cycles.Reach.{
  edges, Reachable, coloured, painted, paint_cases, total-paint, paint_passes,
}

-- What each of the two branches keeps, the walk over the children keeps.
pub mark_children_rule {ℓ} :
    (P : Objects → List ℕ → List ℕ → Type ℓ)
    → ((o : Objects) (pending : List ℕ) (child : ℕ) (rest : List ℕ)
        → is_grey (o.colour child) ≡ true
        → P o pending (child ∷ rest)
        → P (decrement o child) pending rest)
    → ((o : Objects) (pending : List ℕ) (child : ℕ) (rest : List ℕ)
        → is_grey (o.colour child) ≡ false
        → P o pending (child ∷ rest)
        → P (paint (decrement o child) child grey) (child ∷ pending) rest)
    → (o : Objects) (pending children : List ℕ) → P o pending children
    → P (mark_children o pending children).0 (mark_children o pending children).1 []
unfolding mark_children
mark_children_rule P seen fresh o pending [] p = p
mark_children_rule P seen fresh o pending (child ∷ rest) p =
    elim (Bool-cases (is_grey (o.colour child))) [
      | inl old ↦
          rw (old, mark_children)
            (mark_children_rule P seen fresh (decrement o child) pending rest
              (seen o pending child rest old p))
      | inr new ↦
          rw (new, mark_children)
            (mark_children_rule P seen fresh (paint (decrement o child) child grey)
              (child ∷ pending) rest (fresh o pending child rest new p))
    ]

pub down_lem : (c : ℕ) → 1 ≤ c → c ≤ 4294967295 → down c + 1 ≡ c
unfolding down
down_lem c low high = omega arith

abbrev pub one : ℕ → ℕ
one x = 1

module _ (references : ℕ → List (Option ℕ)) (n : ℕ) (counts : ℕ → ℕ) (start : Objects)
    (roots : List ℕ) where
  -- In the middle of a round `rest` are the children still to visit.
  pub record IsMarking (o : Objects) (pending rest : List ℕ) : Type 0 where
    -- the counts, and what was taken off them
    pub balance :
        (y : ℕ)
        → o.count y + total (edges references y) (coloured is_grey o) n
          ≡ counts y + sum (edges references y) pending + occurrences y rest
    pub low : (y : ℕ) → o.count y ≤ counts y
    pub wanted :
        (y : ℕ) → 0 < occurrences y pending + occurrences y rest → Reachable references roots y
    pub reached : (x : ℕ) → is_grey (o.colour x) ≡ true → Reachable references roots x
    -- a reference of a grey object leads to a grey one, unless it is still to be visited
    pub settled :
        (x y : ℕ)
        → is_grey (o.colour x) ≡ true
        → 0 < edges references y x
        → (0 < occurrences x pending) ⊎ (is_grey (o.colour y) ≡ true) ⊎ (0 < occurrences y rest)
    pub kept : (x : ℕ) → is_grey (o.colour x) ≡ false → o.colour x ≡ start.colour x
    pub same : (x : ℕ) → o.buffered x ≡ start.buffered x

  module _ (held : (y : ℕ) (test : ℕ → Bool) → total (edges references y) test n ≤ counts y)
      (fits : (y : ℕ) → counts y ≤ 4294967295)
      (below : (x : ℕ) → Reachable references roots x → x < n) where
    lowered :
        (o : Objects) (pending : List ℕ) (child : ℕ) (rest : List ℕ)
        → IsMarking o pending (child ∷ rest)
        → down (o.count child) + 1 ≡ o.count child
    lowered o pending child rest d =
        down_lem (o.count child)
          (omega
            (arith, d.balance child, held child (coloured is_grey o), occurrences_here child rest))
          (omega (arith, d.low child, fits child))

    pub IsMarking-decrement :
        (o : Objects) (pending : List ℕ) (child : ℕ) (rest : List ℕ)
        → is_grey (o.colour child) ≡ true
        → IsMarking o pending (child ∷ rest)
        → IsMarking (decrement o child) pending rest
    unfolding occurrences
    IsMarking-decrement o pending child rest old d =
        let less = lowered o pending child rest d in
        record {
          balance = λ y. ground (arith, less, d.balance y);
          low = λ y. ground (arith, less, d.low y);
          wanted = λ y h. d.wanted y (ground (arith, h));
          reached = d.reached;
          settled = λ x y g e. elim (d.settled x y g e) [
            | inl p ↦ inl p
            | inr (inl q) ↦ inr (inl q)
            | inr (inr r) ↦ elim (occurrences-cases y child rest r) [
              | inl here ↦ inr (inl (ap (λ (z : ℕ). is_grey (o.colour z)) here ∙ old))
              | inr later ↦ inr (inr later)
            ]
          ];
          kept = d.kept;
          same = d.same;
        }

    pub IsMarking-paint :
        (o : Objects) (pending : List ℕ) (child : ℕ) (rest : List ℕ)
        → is_grey (o.colour child) ≡ false
        → IsMarking o pending (child ∷ rest)
        → IsMarking (paint (decrement o child) child grey) (child ∷ pending) rest
    unfolding occurrences sum
    IsMarking-paint o pending child rest fresh d =
        let less = lowered o pending child rest d in
        let way = d.wanted child (omega (arith, occurrences_here child rest)) in
        let within = below child way in
        let more : (y : ℕ)
            → total (edges references y) (coloured is_grey (paint (decrement o child) child grey)) n
              ≡ edges references y child + total (edges references y) (coloured is_grey o) n =
          λ y.
            total-paint (edges references y) is_grey (decrement o child) child n grey within fresh
              refl in
        record {
          balance = λ y. ground (arith, less, more y, d.balance y);
          low = λ y. ground (arith, less, d.low y);
          wanted = λ y h. d.wanted y (ground (arith, h));
          reached =
              paint_cases o child grey (λ x c. is_grey c ≡ true → Reachable references roots x)
                (λ h. way) (λ x h. d.reached x);
          settled =
              paint_cases o child grey
                (λ x c.
                  (y : ℕ)
                  → is_grey c ≡ true
                  → 0 < edges references y x
                  → (0 < occurrences x (child ∷ pending))
                    ⊎ (is_grey ((paint o child grey).colour y) ≡ true)
                    ⊎ (0 < occurrences y rest))
                (λ y _ e. inl (omega (arith, occurrences_here child pending)))
                (λ x apart y g e. elim (d.settled x y g e) [
                  | inl p ↦ inl (occurrences_later x child pending p)
                  | inr (inl q) ↦ inr (inl (paint_passes is_grey o child grey y refl q))
                  | inr (inr r) ↦ elim (occurrences-cases y child rest r) [
                    | inl here ↦ inr (
                        inl (
                          ap (λ (z : ℕ). is_grey ((paint o child grey).colour z)) here
                          ∙ ap is_grey (painted o child grey)))
                    | inr later ↦ inr (inr later)
                  ]
                ]);
          kept =
              paint_cases o child grey (λ x c. is_grey c ≡ false → c ≡ start.colour x)
                (λ h. absurd (cc)) (λ x h. d.kept x);
          same = d.same;
        }
