-- ===== src/Cycles/MarkLoop.antt =====
-- The marking loop ends, and marks exactly the objects that the roots lead to.
use lumiere.Common.{
  ℕ, zero, suc, ◌+◌, ◌≤◌, ◌<◌, ◌≡◌, refl, ◌⊎◌, Bool, true, false, Option, some, List, [], ◌∷◌,
  arith, Bool-cases, inl, inr, length, sym, ap, ◌∙◌,
}
use mathlib.Core.Path.{subst}
use lumiere.Cycles.{
  grey, is_grey, Objects, decrement, paint, children_of, mark_children, mark_loop, mark_grey,
  mark_all,
}
use lumiere.Cycles.Sums.{
  occurrences, total, sum, total_ends, total_none, occurrences_here, occurrences-cases,
  occurrences_later, positive_part,
}
use lumiere.Cycles.Reach.{
  edges, Reachable, root, step, coloured, painted, paint_cases, total-paint, paint_passes,
}
use lumiere.Cycles.Marking.{
  one, IsMarking, IsMarking-decrement, IsMarking-paint, mark_children_rule,
}

-- What is grey stays grey.
abbrev pub Grown : Objects → Objects → Type 0
Grown o marked = (x : ℕ) → is_grey (o.colour x) ≡ true → is_grey (marked.colour x) ≡ true

module _ (references : ℕ → List (Option ℕ)) (n : ℕ) (counts : ℕ → ℕ) (start : Objects)
    (roots : List ℕ)
    (held : (y : ℕ) (test : ℕ → Bool) → total (edges references y) test n ≤ counts y)
    (fits : (y : ℕ) → counts y ≤ 4294967295)
    (below : (x : ℕ) → Reachable references roots x → x < n) where
  abbrev pub Marking : Objects → List ℕ → List ℕ → Type 0
  Marking = IsMarking references n counts start roots

  abbrev work : Objects → ℕ
  work o = total one (coloured is_grey o) n

  IsMarking-pop :
      (o : Objects) (object : ℕ) (pending : List ℕ)
      → Marking o (object ∷ pending) []
      → Marking o pending (children_of references object)
  unfolding occurrences sum
  IsMarking-pop o object pending m = record {
    balance = λ y. omega (arith, m.balance y);
    low = m.low;
    wanted = λ y h. elim (positive_part (occurrences y pending) (edges references y object) h) [
      | inl later ↦ m.wanted y (omega (arith, occurrences_later y object pending later))
      | inr child ↦ step (m.wanted object (omega (arith, occurrences_here object pending))) child
    ];
    reached = m.reached;
    settled = λ x y g e. elim (m.settled x y g e) [
      | inl p ↦ elim (occurrences-cases x object pending p) [
        | inl here ↦ inr (inr (subst (λ z. 0 < edges references y z) here e))
        | inr later ↦ inl later
      ]
      | inr (inl q) ↦ inr (inl q)
      | inr (inr r) ↦ absurd (omega arith)
    ];
    kept = m.kept;
    same = m.same;
  }

  -- One round: the objects pushed are those that turn grey.
  abbrev Round : Objects → ℕ → Objects → List ℕ → List ℕ → Type 0
  Round base size o pending rest =
      Marking o pending rest × Grown base o × (length pending + work base ≡ size + work o)

  Round-mark_children :
      (base : Objects) (size : ℕ) (o : Objects) (pending children : List ℕ)
      → Round base size o pending children
      → Round base size (mark_children o pending children).0 (mark_children o pending children).1 []
  unfolding occurrences
  Round-mark_children base size =
      mark_children_rule (Round base size)
        (λ o pending child rest old (m, grown, w). (
          IsMarking-decrement references n counts start roots held fits below o pending child rest
              old m,
          grown,
          w,
        ))
        (λ o pending child rest fresh (m, grown, w).
          let way = m.wanted child (omega (arith, occurrences_here child rest)) in
          (
            IsMarking-paint references n counts start roots held fits below o pending child rest
                fresh m,
            λ x g. paint_passes is_grey o child grey x refl (grown x g),
            omega (
              arith,
              w,
              total-paint one is_grey (decrement o child) child n grey (below child way) fresh refl,
            ),
          ))

  mark_loop_lem :
      (rounds : ℕ) (o : Objects) (pending : List ℕ)
      → Marking o pending []
      → n + length pending ≤ rounds + work o
      → (marked : Objects) × (mark_loop references rounds o pending ≡ some marked)
        × Marking marked [] []
        × Grown o marked
  unfolding mark_loop
  mark_loop_lem rounds o [] m enough = (o, refl, m, λ x g. g)
  mark_loop_lem zero o (object ∷ pending) m enough =
      absurd (omega (arith, total_ends one (coloured is_grey o) n (λ x. omega arith)))
  mark_loop_lem (suc rounds) o (object ∷ pending) m enough =
      let (next, grown, w) =
        Round-mark_children o (length pending) o pending (children_of references object)
          (IsMarking-pop o object pending m, λ x g. g, refl) in
      let (marked, ends, done, more) = mark_loop_lem rounds _ _ next (omega arith) in
      (marked, ends, done, λ x g. more x (grown x g))

  mark_grey_lem :
      (o : Objects) (object : ℕ)
      → Marking o [] []
      → 0 < occurrences object roots
      → (marked : Objects) × (mark_grey references n o object ≡ some marked)
        × Marking marked [] []
        × Grown o marked
        × (is_grey (marked.colour object) ≡ true)
  unfolding mark_grey occurrences sum
  mark_grey_lem o object m first = elim (Bool-cases (is_grey (o.colour object))) [
    | inl old ↦ (o, rw (old, mark_grey) refl, m, λ x g. g, old)
    | inr fresh ↦
        let within = below object (root first) in
        let more : (f : ℕ → ℕ)
            → total f (coloured is_grey (paint o object grey)) n
              ≡ f object + total f (coloured is_grey o) n =
          λ f. total-paint f is_grey o object n grey within fresh refl in
        let started : Marking (paint o object grey) (object ∷ []) [] = record {
          balance = λ y. omega (arith, more (edges references y), m.balance y);
          low = m.low;
          wanted = λ y h. elim (occurrences-cases y object [] (omega (arith, h))) [
            | inl here ↦ subst (Reachable references roots) (sym here) (root first)
            | inr nowhere ↦ absurd (omega arith)
          ];
          reached =
              paint_cases o object grey (λ x c. is_grey c ≡ true → Reachable references roots x)
                (λ h. root first) (λ x h. m.reached x);
          settled =
              paint_cases o object grey
                (λ x c.
                  (y : ℕ)
                  → is_grey c ≡ true
                  → 0 < edges references y x
                  → (0 < occurrences x (object ∷ []))
                    ⊎ (is_grey ((paint o object grey).colour y) ≡ true)
                    ⊎ (0 < occurrences y []))
                (λ y _ e. inl (omega (arith, occurrences_here object [])))
                (λ x apart y g e. elim (m.settled x y g e) [
                  | inl p ↦ absurd (omega arith)
                  | inr (inl q) ↦ inr (inl (paint_passes is_grey o object grey y refl q))
                  | inr (inr r) ↦ absurd (omega arith)
                ]);
          kept =
              paint_cases o object grey (λ x c. is_grey c ≡ false → c ≡ start.colour x)
                (λ h. absurd (cc)) (λ x h. m.kept x);
          same = m.same;
        } in
        let (marked, ends, done, grown) =
          mark_loop_lem n (paint o object grey) (object ∷ []) started (omega (arith, more one)) in
        (
          marked,
          rw (fresh, mark_grey) ends,
          done,
          λ x g. grown x (paint_passes is_grey o object grey x refl g),
          grown object (ap is_grey (painted o object grey)),
        )
  ]

  -- `mark_grey` on each root in turn.
  pub mark_all_lem :
      (o : Objects) (left : List ℕ)
      → Marking o [] []
      → ((x : ℕ) → 0 < occurrences x left → 0 < occurrences x roots)
      → (marked : Objects) × (mark_all references n o left ≡ some marked)
        × Marking marked [] []
        × Grown o marked
        × ((x : ℕ) → 0 < occurrences x left → is_grey (marked.colour x) ≡ true)
  unfolding mark_all occurrences
  mark_all_lem o [] m among = (o, refl, m, λ x g. g, λ x h. absurd (omega arith))
  mark_all_lem o (object ∷ left) m among =
      let (next, one_ends, m1, grown1, is) =
        mark_grey_lem o object m (among object (omega (arith, occurrences_here object left))) in
      let (marked, ends, m2, grown2, all) =
        mark_all_lem next left m1 (λ x h. among x (occurrences_later x object left h)) in
      (
        marked,
        rw (one_ends, mark_all) ends,
        m2,
        λ x g. grown2 x (grown1 x g),
        λ x h. elim (occurrences-cases x object left h) [
          | inl here ↦ ap (λ (z : ℕ). is_grey (marked.colour z)) here ∙ grown2 object is
          | inr later ↦ all x later
        ],
      )

  -- Before the marking, no object is grey.
  pub Marking-start :
      (counts ≡ start.count) → ((x : ℕ) → is_grey (start.colour x) ≡ false) → Marking start [] []
  unfolding occurrences sum
  Marking-start the fresh = record {
    balance = λ y. omega (
      arith,
      ap (λ (f : ℕ → ℕ). f y) the,
      total_none (edges references y) (coloured is_grey start) n fresh,
    );
    low = λ y. omega (arith, ap (λ (f : ℕ → ℕ). f y) the);
    wanted = λ y h. absurd (omega arith);
    reached = λ x g. absurd (cc (g, fresh x));
    settled = λ x y g e. absurd (cc (g, fresh x));
    kept = λ x h. refl;
    same = λ x. refl;
  }

  -- What is grey at the end is what the roots lead to.
  pub marked_iff :
      (o : Objects)
      → Marking o [] []
      → ((x : ℕ) → 0 < occurrences x roots → is_grey (o.colour x) ≡ true)
      → (x : ℕ) → Reachable references roots x
      → is_grey (o.colour x) ≡ true
  unfolding occurrences
  marked_iff o m first x (root h) = first x h
  marked_iff o m first y (step {x} path e) = elim (m.settled x y (marked_iff o m first x path) e) [
    | inl p ↦ absurd (omega arith)
    | inr (inl q) ↦ q
    | inr (inr r) ↦ absurd (omega arith)
  ]
