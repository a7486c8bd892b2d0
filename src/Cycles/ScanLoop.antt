-- ===== src/Cycles/ScanLoop.antt =====
-- The scan ends: what a root leads to is white with count 0, or black.
use lumiere.Common.{
  ℕ, zero, suc, ◌+◌, ◌≤◌, ◌<◌, ◌≡◌, refl, ◌⊎◌, Bool, true, false, Option, some, List, [], ◌∷◌,
  arith, Bool-cases, inl, inr, length, ap, ◌∙◌, ltb,
}
use lumiere.Cycles.{
  white, is_grey, is_white, is_black, is_drained, Objects, paint, children_of, push_all, scan_loop,
  scan_all, reference_count,
}
use lumiere.Cycles.Colours.{grey_drained, grey_not_black, drained_white, black_not_grey}
use lumiere.Cycles.Sums.{
  occurrences, total, sum, total_le, total_same, occurrences_here, occurrences-cases,
  occurrences_later, zero_or_positive,
}
use lumiere.Cycles.Reach.{
  edges, Reachable, root, step, Live, external, coloured, painted, paint_cases, total-unpaint,
  paint_fails,
}
use lumiere.Cycles.Scanning.{IsScanning}
use lumiere.Cycles.ScanBlack.{scan_black_lem}

pub occurrences-push_all :
    (y : ℕ) (pending children : List ℕ)
    → occurrences y (push_all pending children) ≡ occurrences y pending + occurrences y children
unfolding push_all occurrences
occurrences-push_all y pending [] = omega arith
occurrences-push_all y pending (child ∷ children) =
    ground (arith, occurrences-push_all y (child ∷ pending) children)

pub length-push_all :
    (pending children : List ℕ)
    → length (push_all pending children) ≡ length pending + length children
unfolding push_all
length-push_all pending [] = omega arith
length-push_all pending (child ∷ children) =
    omega (arith, length-push_all (child ∷ pending) children)

module _ (references : ℕ → List (Option ℕ)) where
  abbrev pub breadth_of : ℕ → ℕ
  breadth_of x = length (children_of references x)

  pub weight_bounded :
      (test : ℕ → Bool) (m : ℕ) → total breadth_of test m ≤ reference_count references m
  unfolding total reference_count
  weight_bounded test zero = omega arith
  weight_bounded test (suc m) = ground (arith, weight_bounded test m)

module _ (references : ℕ → List (Option ℕ)) (n : ℕ) (counts : ℕ → ℕ) (start : Objects)
    (roots : List ℕ) (fits : (y : ℕ) → counts y ≤ 4294967295)
    (below : (x : ℕ) → Reachable references roots x → x < n) where
  abbrev pub Scanned : Objects → List ℕ → Type 0
  Scanned o pending = IsScanning references n counts start roots pending o [] []

  abbrev breadth : ℕ → ℕ
  breadth = breadth_of references

  abbrev weight : Objects → ℕ
  weight o = total breadth (coloured is_grey o) n

  -- A grey object that is still counted is live.
  counted-Live :
      (o : Objects) (pending : List ℕ) (object : ℕ)
      → Scanned o pending
      → is_grey (o.colour object) ≡ true
      → 0 < o.count object
      → Live references n counts roots object
  unfolding occurrences sum
  counted-Live o pending object s g counted =
      external (s.drained object (grey_drained (o.colour object) g)) λ test among.
        let fewer = total_le (edges references object) test (coloured is_drained o) n λ z inside.
          elim (s.reached z (among z inside)) [
            | inl d ↦ inl d
            | inr dark ↦ elim (zero_or_positive (edges references object z)) [
              | inl nothing ↦ inr nothing
              | inr e ↦ elim (s.blackened z (among z inside) object dark e) [
                | inl p ↦ absurd (omega arith)
                | inr (inl q) ↦ absurd (cc (q, g, grey_not_black (o.colour object) g))
                | inr (inr r) ↦ absurd (omega arith)
              ]
            ]
          ] in
        omega (arith, fewer, s.balance object)

  -- A grey object with count 0 turns white.
  Scanned-whiten :
      (o : Objects) (object : ℕ) (pending : List ℕ)
      → is_grey (o.colour object) ≡ true
      → o.count object ≡ 0
      → Scanned o (object ∷ pending)
      → Scanned (paint o object white) (push_all pending (children_of references object))
  Scanned-whiten o object pending g empty s =
      let drained = grey_drained (o.colour object) g in
      let unmoved : (y : ℕ)
          → total (edges references y) (coloured is_drained o) n
            ≡ total (edges references y) (coloured is_drained (paint o object white)) n =
        λ y.
          total_same (edges references y) (coloured is_drained o)
            (coloured is_drained (paint o object white)) n
            (λ x _.
              paint_cases o object white (λ z c. is_drained (o.colour z) ≡ is_drained c) drained
                (λ z _. refl) x) in
      record {
        balance = λ y. omega (arith, unmoved y, s.balance y);
        drained =
            paint_cases o object white (λ x c. is_drained c ≡ true → Reachable references roots x)
              (λ _. s.drained object drained) (λ x _. s.drained x);
        reached =
            paint_cases o object white
              (λ x c. Reachable references roots x → (is_drained c ≡ true) ⊎ (is_black c ≡ true))
              (λ _. inl refl) (λ x _. s.reached x);
        wanted = s.wanted;
        alive =
            paint_cases o object white
              (λ x c.
                Reachable references roots x → is_black c ≡ true → Live references n counts roots x)
              (λ _ h. absurd (cc)) (λ x _. s.alive x);
        blackened =
            paint_cases o object white
              (λ x c.
                Reachable references roots x
                → (y : ℕ) → is_black c ≡ true
                → 0 < edges references y x
                → (0 < occurrences x [])
                  ⊎ (is_black ((paint o object white).colour y) ≡ true)
                  ⊎ (0 < occurrences y []))
              (λ _ y h e. absurd (cc))
              (λ x _ path y d e. elim (s.blackened x path y d e) [
                | inl p ↦ inl p
                | inr (inl q) ↦ inr (
                    inl (
                      paint_cases o object white
                        (λ z c. is_black (o.colour z) ≡ true → is_black c ≡ true)
                        (λ h. absurd (cc (h, grey_not_black (o.colour object) g))) (λ z _ h. h) y
                        q))
                | inr (inr r) ↦ inr (inr r)
              ]);
        idle =
            paint_cases o object white (λ x c. is_white c ≡ true → o.count x ≡ 0) (λ _. empty)
              (λ x _. s.idle x);
        fringe =
            paint_cases o object white
              (λ x c.
                (y : ℕ)
                → is_white c ≡ true
                → 0 < edges references y x
                → (is_grey ((paint o object white).colour y) ≡ false)
                  ⊎ (0 < occurrences y (push_all pending (children_of references object))))
              (λ y h e.
                inr (omega (arith, occurrences-push_all y pending (children_of references object))))
              (λ x _ y w e. elim (s.fringe x y w e) [
                | inl q ↦ inl (paint_fails is_grey o object white y refl q)
                | inr p ↦ elim (occurrences-cases y object pending p) [
                  | inl here ↦ inl (
                      ap (λ (z : ℕ). is_grey ((paint o object white).colour z)) here
                      ∙ ap is_grey (painted o object white))
                  | inr later ↦ inr (
                      omega (arith, occurrences-push_all y pending (children_of references object)))
                ]
              ]);
        same = s.same;
      }

  -- Popping an object that is not grey.
  Scanned-skip :
      (o : Objects) (object : ℕ) (pending : List ℕ)
      → is_grey (o.colour object) ≡ false
      → Scanned o (object ∷ pending)
      → Scanned o pending
  Scanned-skip o object pending out s = record {
    balance = s.balance;
    drained = s.drained;
    reached = s.reached;
    wanted = s.wanted;
    alive = s.alive;
    blackened = s.blackened;
    idle = s.idle;
    fringe = λ x y w e. elim (s.fringe x y w e) [
      | inl q ↦ inl q
      | inr p ↦ elim (occurrences-cases y object pending p) [
        | inl here ↦ inl (ap (λ (z : ℕ). is_grey (o.colour z)) here ∙ out)
        | inr later ↦ inr later
      ]
    ];
    same = s.same;
  }

  Scanned-push :
      (o : Objects) (object : ℕ) (pending : List ℕ)
      → Scanned o pending
      → Scanned o (object ∷ pending)
  Scanned-push o object pending s = record {
    balance = s.balance;
    drained = s.drained;
    reached = s.reached;
    wanted = s.wanted;
    alive = s.alive;
    blackened = s.blackened;
    idle = s.idle;
    fringe = λ x y w e. elim (s.fringe x y w e) [
      | inl q ↦ inl q
      | inr p ↦ inr (occurrences_later y object pending p)
    ];
    same = s.same;
  }

  -- The scan is over, and none of its stack is grey.
  pub record Result (o : Objects) (pending : List ℕ) (ended : Option Objects) : Type 0 where
    pub scanned : Objects
    pub ends : ended ≡ some scanned
    pub state : Scanned scanned []
    pub shrunk : (x : ℕ) → is_grey (o.colour x) ≡ false → is_grey (scanned.colour x) ≡ false
    pub done : (x : ℕ) → 0 < occurrences x pending → is_grey (scanned.colour x) ≡ false

  -- What a round gives the rest of the loop is what the loop gives.
  Result-round :
      (o next : Objects) (object : ℕ) (pending more : List ℕ) (ended later : Option Objects)
      → ended ≡ later
      → ((x : ℕ) → is_grey (o.colour x) ≡ false → is_grey (next.colour x) ≡ false)
      → is_grey (next.colour object) ≡ false
      → ((x : ℕ) → 0 < occurrences x pending → 0 < occurrences x more)
      → Result next more later
      → Result o (object ∷ pending) ended
  Result-round o next object pending more ended later same shrunk out within r = record {
    scanned = r.scanned;
    ends = same ∙ r.ends;
    state = r.state;
    shrunk = λ x h. r.shrunk x (shrunk x h);
    done = λ x h. elim (occurrences-cases x object pending h) [
      | inl here ↦ ap (λ (z : ℕ). is_grey (r.scanned.colour z)) here ∙ r.shrunk object out
      | inr after ↦ r.done x (within x after)
    ];
  }

  lighter :
      (o next : Objects)
      → ((x : ℕ) → is_grey (o.colour x) ≡ false → is_grey (next.colour x) ≡ false)
      → weight next ≤ weight o
  lighter o next shrunk = total_le breadth (coloured is_grey next) (coloured is_grey o) n λ x g.
      elim (Bool-cases (is_grey (o.colour x))) [
        | inl before ↦ inl before
        | inr out ↦ absurd (cc (g, shrunk x out))
      ]

  scan_loop_lem :
      (rounds : ℕ) (o : Objects) (pending : List ℕ)
      → Scanned o pending
      → length pending + weight o ≤ rounds
      → Result o pending (scan_loop references n rounds o pending)
  unfolding scan_loop occurrences
  scan_loop_lem rounds o [] s enough = record {
    scanned = o;
    ends = refl;
    state = s;
    shrunk = λ x h. h;
    done = λ x h. absurd (omega arith);
  }
  scan_loop_lem zero o (object ∷ pending) s enough = absurd (omega arith)
  scan_loop_lem (suc rounds) o (object ∷ pending) s enough =
      elim (Bool-cases (is_grey (o.colour object))) [
        | inr out ↦
            Result-round o o object pending pending _ (scan_loop references n rounds o pending)
              (rw (out, scan_loop) refl) (λ x h. h) out (λ x h. h)
              (scan_loop_lem rounds o pending (Scanned-skip o object pending out s) (omega arith))
        | inl g ↦ elim (Bool-cases (ltb 0 (o.count object))) [
          | inl counted ↦
              let live = counted-Live o (object ∷ pending) object s g (ground arith) in
              let (restored, ends, state, darker, dark) =
                scan_black_lem references n counts start roots fits below (object ∷ pending) o
                  object s (grey_drained (o.colour object) g) live in
              let out = black_not_grey (restored.colour object) dark in
              Result-round o restored object pending pending _
                (scan_loop references n rounds restored pending)
                (rw (g, counted, ends, scan_loop) refl) darker.not_grey out (λ x h. h)
                (scan_loop_lem rounds restored pending
                  (Scanned-skip restored object pending out state)
                  (omega (arith, lighter o restored darker.not_grey)))
          | inr empty ↦
              let whitened = Scanned-whiten o object pending g (ground arith) s in
              let children = children_of references object in
              Result-round o (paint o object white) object pending (push_all pending children) _
                (scan_loop references n rounds (paint o object white) (push_all pending children))
                (rw (g, empty, scan_loop) refl) (λ x h. paint_fails is_grey o object white x refl h)
                (ap is_grey (painted o object white))
                (λ x h. omega (arith, occurrences-push_all x pending children))
                (scan_loop_lem rounds (paint o object white) (push_all pending children) whitened (
                  omega (
                    arith,
                    length-push_all pending children,
                    total-unpaint breadth is_grey o object n white
                        (below object (s.drained object (grey_drained (o.colour object) g))) g refl,
                  )))
        ]
      ]

  abbrev pub rounds_enough : ℕ
  rounds_enough = suc (reference_count references n)

  -- `scan` on each root in turn.
  pub scan_all_lem :
      (o : Objects) (left : List ℕ)
      → Scanned o []
      → Result o left (scan_all references n rounds_enough o left)
  unfolding scan_all occurrences
  scan_all_lem o [] s = record {
    scanned = o;
    ends = refl;
    state = s;
    shrunk = λ x h. h;
    done = λ x h. absurd (omega arith);
  }
  scan_all_lem o (object ∷ left) s =
      let first =
        scan_loop_lem rounds_enough o (object ∷ []) (Scanned-push o object [] s)
          (omega (arith, weight_bounded references (coloured is_grey o) n)) in
      Result-round o first.scanned object left left _
        (scan_all references n rounds_enough first.scanned left) (rw (first.ends, scan_all) refl)
        first.shrunk (first.done object (omega (arith, occurrences_here object []))) (λ x h. h)
        (scan_all_lem first.scanned left first.state)

  -- Nothing that the roots lead to is left grey.
  pub ungrey :
      (o : Objects)
      → Scanned o []
      → ((x : ℕ) → 0 < occurrences x roots → is_grey (o.colour x) ≡ false)
      → (x : ℕ) → Reachable references roots x
      → is_grey (o.colour x) ≡ false
  unfolding occurrences
  ungrey o s first x (root h) = first x h
  ungrey o s first y (step {x} path e) =
      let before = ungrey o s first x path in
      elim (s.reached x path) [
        | inr dark ↦ elim (s.blackened x path y dark e) [
          | inl p ↦ absurd (omega arith)
          | inr (inl q) ↦ black_not_grey (o.colour y) q
          | inr (inr r) ↦ absurd (omega arith)
        ]
        | inl lit ↦ elim (s.fringe x y (drained_white (o.colour x) lit before) e) [
          | inl q ↦ q
          | inr p ↦ absurd (omega arith)
        ]
      ]
