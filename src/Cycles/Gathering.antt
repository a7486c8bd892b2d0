-- ===== src/Cycles/Gathering.antt =====
-- What `gather_white` gathers: the white objects that the roots lead to, each once.
use lumiere.Common.{
  ℕ, zero, suc, ◌+◌, ◌≤◌, ◌<◌, ◌≡◌, refl, ◌⊎◌, true, false, Option, some, List, [], ◌∷◌, ◌++◌,
  arith, Bool-cases, inl, inr, length, ap, ◌∙◌,
}
use lumiere.Cycles.{
  black, is_white, Objects, paint, children_of, push_all, gather_loop, gather_all, reference_count,
}
use lumiere.Cycles.Sums.{
  occurrences, total, sum, sum-append, occurrences_here, occurrences-cases, occurrences_later,
}
use lumiere.Cycles.Reach.{
  edges, Reachable, root, step, coloured, painted, paint_cases, total-unpaint, paint_fails,
}
use lumiere.Cycles.ScanLoop.{occurrences-push_all, length-push_all, weight_bounded, breadth_of}

module _ (references : ℕ → List (Option ℕ)) (n : ℕ) (roots : List ℕ) (scanned : Objects)
    (below : (x : ℕ) → is_white (scanned.colour x) ≡ true → x < n) where
  pub record IsGathering (o : Objects) (garbage pending : List ℕ) : Type 0 where
    pub shares :
        (f : ℕ → ℕ)
        → sum f garbage + total f (coloured is_white o) n ≡ total f (coloured is_white scanned) n
    pub counted : (x : ℕ) → o.count x ≡ scanned.count x
    pub unbuffered : (x : ℕ) → o.buffered x ≡ false
    pub before : (x : ℕ) → is_white (o.colour x) ≡ true → is_white (scanned.colour x) ≡ true
    pub fringe :
        (x : ℕ)
        → Reachable references roots x
        → (y : ℕ) → is_white (o.colour x) ≡ false
        → 0 < edges references y x
        → (is_white (o.colour y) ≡ false) ⊎ (0 < occurrences y pending)
    pub settled : (x : ℕ) → (o.colour x ≡ black) ⊎ (o.colour x ≡ scanned.colour x)

  IsGathering-skip :
      (o : Objects) (garbage : List ℕ) (object : ℕ) (pending : List ℕ)
      → is_white (o.colour object) ≡ false
      → IsGathering o garbage (object ∷ pending)
      → IsGathering o garbage pending
  IsGathering-skip o garbage object pending out s = record {
    shares = s.shares;
    counted = s.counted;
    unbuffered = s.unbuffered;
    before = s.before;
    fringe = λ x path y w e. elim (s.fringe x path y w e) [
      | inl q ↦ inl q
      | inr p ↦ elim (occurrences-cases y object pending p) [
        | inl here ↦ inl (ap (λ (z : ℕ). is_white (o.colour z)) here ∙ out)
        | inr later ↦ inr later
      ]
    ];
    settled = s.settled;
  }

  IsGathering-take :
      (o : Objects) (garbage : List ℕ) (object : ℕ) (pending : List ℕ)
      → is_white (o.colour object) ≡ true
      → IsGathering o garbage (object ∷ pending)
      → IsGathering
          (paint o object black)
          (garbage ++ object ∷ [])
          (push_all pending (children_of references object))
  unfolding sum
  IsGathering-take o garbage object pending w s =
      let children = children_of references object in
      record {
        shares = λ f. omega (
          arith,
          s.shares f,
          sum-append f garbage (object ∷ []),
          total-unpaint f is_white o object n black (below object (s.before object w)) w refl,
        );
        counted = s.counted;
        unbuffered = s.unbuffered;
        before =
            paint_cases o object black
              (λ x c. is_white c ≡ true → is_white (scanned.colour x) ≡ true) (λ h. absurd (cc))
              (λ x _. s.before x);
        fringe =
            paint_cases o object black
              (λ x c.
                Reachable references roots x
                → (y : ℕ) → is_white c ≡ false
                → 0 < edges references y x
                → (is_white ((paint o object black).colour y) ≡ false)
                  ⊎ (0 < occurrences y (push_all pending children)))
              (λ _ y _ e. inr (omega (arith, occurrences-push_all y pending children)))
              (λ x _ path y h e. elim (s.fringe x path y h e) [
                | inl q ↦ inl (paint_fails is_white o object black y refl q)
                | inr p ↦ elim (occurrences-cases y object pending p) [
                  | inl here ↦ inl (
                      ap (λ (z : ℕ). is_white ((paint o object black).colour z)) here
                      ∙ ap is_white (painted o object black))
                  | inr later ↦ inr (omega (arith, occurrences-push_all y pending children))
                ]
              ]);
        settled =
            paint_cases o object black (λ x c. (c ≡ black) ⊎ (c ≡ scanned.colour x)) (inl refl)
              (λ x _. s.settled x);
      }

  pub record Gathered (o : Objects) (pending : List ℕ) (ended : Option (Objects × List ℕ))
      : Type 0 where
    pub objects : Objects
    pub garbage : List ℕ
    pub ends : ended ≡ some (objects, garbage)
    pub state : IsGathering objects garbage []
    pub shrunk : (x : ℕ) → is_white (o.colour x) ≡ false → is_white (objects.colour x) ≡ false
    pub done : (x : ℕ) → 0 < occurrences x pending → is_white (objects.colour x) ≡ false

  Gathered-round :
      (o next : Objects) (object : ℕ) (pending more : List ℕ)
      (ended later : Option (Objects × List ℕ))
      → ended ≡ later
      → ((x : ℕ) → is_white (o.colour x) ≡ false → is_white (next.colour x) ≡ false)
      → is_white (next.colour object) ≡ false
      → ((x : ℕ) → 0 < occurrences x pending → 0 < occurrences x more)
      → Gathered next more later
      → Gathered o (object ∷ pending) ended
  Gathered-round o next object pending more ended later same shrunk out within r = record {
    objects = r.objects;
    garbage = r.garbage;
    ends = same ∙ r.ends;
    state = r.state;
    shrunk = λ x h. r.shrunk x (shrunk x h);
    done = λ x h. elim (occurrences-cases x object pending h) [
      | inl here ↦ ap (λ (z : ℕ). is_white (r.objects.colour z)) here ∙ r.shrunk object out
      | inr after ↦ r.done x (within x after)
    ];
  }

  abbrev breadth : ℕ → ℕ
  breadth = breadth_of references

  abbrev weight : Objects → ℕ
  weight o = total breadth (coloured is_white o) n

  gather_loop_lem :
      (rounds : ℕ) (o : Objects) (garbage pending : List ℕ)
      → IsGathering o garbage pending
      → length pending + weight o ≤ rounds
      → Gathered o pending (gather_loop references rounds o garbage pending)
  unfolding gather_loop occurrences
  gather_loop_lem rounds o garbage [] s enough = record {
    objects = o;
    garbage = garbage;
    ends = refl;
    state = s;
    shrunk = λ x h. h;
    done = λ x h. absurd (omega arith);
  }
  gather_loop_lem zero o garbage (object ∷ pending) s enough = absurd (omega arith)
  gather_loop_lem (suc rounds) o garbage (object ∷ pending) s enough =
      let free = s.unbuffered object in
      elim (Bool-cases (is_white (o.colour object))) [
        | inr out ↦
            Gathered-round o o object pending pending _
              (gather_loop references rounds o garbage pending) (rw (out, gather_loop) refl)
              (λ x h. h) out (λ x h. h)
              (gather_loop_lem rounds o garbage pending
                (IsGathering-skip o garbage object pending out s) (omega arith))
        | inl w ↦
            let children = children_of references object in
            let next = paint o object black in
            Gathered-round o next object pending (push_all pending children) _
              (gather_loop references rounds next (garbage ++ object ∷ [])
                (push_all pending children))
              (rw (w, free, gather_loop) refl) (λ x h. paint_fails is_white o object black x refl h)
              (ap is_white (painted o object black))
              (λ x h. omega (arith, occurrences-push_all x pending children))
              (gather_loop_lem rounds next (garbage ++ object ∷ []) (push_all pending children)
                (IsGathering-take o garbage object pending w s)
                (omega (
                  arith,
                  length-push_all pending children,
                  total-unpaint breadth is_white o object n black (below object (s.before object w))
                      w refl,
                )))
      ]

  IsGathering-push :
      (o : Objects) (garbage : List ℕ) (object : ℕ)
      → IsGathering o garbage []
      → IsGathering o garbage (object ∷ [])
  IsGathering-push o garbage object s = record {
    shares = s.shares;
    counted = s.counted;
    unbuffered = s.unbuffered;
    before = s.before;
    fringe = λ x path y w e. elim (s.fringe x path y w e) [
      | inl q ↦ inl q
      | inr p ↦ inr (occurrences_later y object [] p)
    ];
    settled = s.settled;
  }

  -- `gather_white` on each root in turn.
  pub gather_all_lem :
      (o : Objects) (garbage left : List ℕ)
      → IsGathering o garbage []
      → Gathered o left (gather_all references (suc (reference_count references n)) o garbage left)
  unfolding gather_all occurrences
  gather_all_lem o garbage [] s = record {
    objects = o;
    garbage = garbage;
    ends = refl;
    state = s;
    shrunk = λ x h. h;
    done = λ x h. absurd (omega arith);
  }
  gather_all_lem o garbage (object ∷ left) s =
      let first =
        gather_loop_lem (suc (reference_count references n)) o garbage (object ∷ [])
          (IsGathering-push o garbage object s)
          (omega (arith, weight_bounded references (coloured is_white o) n)) in
      Gathered-round o first.objects object left left _
        (gather_all references (suc (reference_count references n)) first.objects first.garbage
          left)
        (rw (first.ends, gather_all) refl) first.shrunk
        (first.done object (omega (arith, occurrences_here object []))) (λ x h. h)
        (gather_all_lem first.objects first.garbage left first.state)

  -- Nothing that the roots lead to is left white.
  pub unwhite :
      (o : Objects) (garbage : List ℕ)
      → IsGathering o garbage []
      → ((x : ℕ) → 0 < occurrences x roots → is_white (o.colour x) ≡ false)
      → (x : ℕ) → Reachable references roots x
      → is_white (o.colour x) ≡ false
  unfolding occurrences
  unwhite o garbage s first x (root h) = first x h
  unwhite o garbage s first y (step {x} path e) =
      elim (s.fringe x path y (unwhite o garbage s first x path) e) [
        | inl q ↦ q
        | inr p ↦ absurd (omega arith)
      ]
