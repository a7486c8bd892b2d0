-- ===== src/Cycles/Garbage.antt =====
-- What the collector finds is garbage, and all of it is found.
use lumiere.Common.{
  ℕ, ◌+◌, ◌≤◌, ◌<◌, ◌≡◌, refl, ◌⊎◌, Bool, true, false, Option, some, List, [], arith, inl, inr, sym,
  ap, ◌∙◌, Bool-cases,
}
use lumiere.Cycles.{is_grey, is_white, is_drained, Objects, find_garbage}
use lumiere.Cycles.Colours.{
  drained_not_black, black_not_white, grey_drained, drained_white, grey_calm, drained_is_white,
  white_is_drained, grey_not_white, settled_calm,
}
use lumiere.Cycles.Sums.{
  unit_at, sum-unit_at, total-unit_at, total-unit_at_once, total_unmarked, sum_positive,
  occurrences, total, sum, total_le, total_same, total_none, total_strict,
}
use lumiere.Cycles.Reach.{
  edges, Reachable, step, reachable_below, Live, external, referred, live_reachable, coloured,
}
use lumiere.Cycles.Marking.{IsMarking}
use lumiere.Cycles.MarkLoop.{Marking-start, mark_all_lem, marked_iff}
use lumiere.Cycles.ScanLoop.{Scanned, scan_all_lem, ungrey}
use lumiere.Cycles.Gathering.{IsGathering, gather_all_lem, unwhite}

-- Between collections: the n objects refer to each other, each is counted at least as often as it is
-- referred to, a count fits its 32 bits, and no object is grey, white or buffered.
pub record IsHeap (references : ℕ → List (Option ℕ)) (n : ℕ) (o : Objects) : Type 0 where
  pub closed : (x y : ℕ) → x < n → 0 < edges references y x → y < n
  pub held : (y : ℕ) → total (edges references y) (λ _. true) n ≤ o.count y
  pub fits : (y : ℕ) → o.count y ≤ 4294967295
  pub calm : (x : ℕ) → is_drained (o.colour x) ≡ false
  pub unbuffered : (x : ℕ) → o.buffered x ≡ false

module _ (references : ℕ → List (Option ℕ)) (n : ℕ) (o : Objects) (roots : List ℕ)
    (heap : IsHeap references n o) (within : (x : ℕ) → 0 < occurrences x roots → x < n) where
  pub below : (x : ℕ) → Reachable references roots x → x < n
  below = reachable_below references roots n within heap.closed

  held : (y : ℕ) (test : ℕ → Bool) → total (edges references y) test n ≤ o.count y
  held y test =
      omega (arith, heap.held y, total_le (edges references y) test (λ _. true) n (λ x _. inl refl))

  -- After the marking, the scan can start.
  Scanned-start :
      (marked : Objects)
      → IsMarking references n o.count o roots marked [] []
      → ((x : ℕ) → 0 < occurrences x roots → is_grey (marked.colour x) ≡ true)
      → Scanned references n o.count o roots heap.fits below marked []
  unfolding occurrences sum
  Scanned-start marked m first =
      let grey_iff : (x : ℕ) → Reachable references roots x → is_grey (marked.colour x) ≡ true =
        marked_iff references n o.count o roots held heap.fits below marked m first in
      let kept : (x : ℕ)
          → is_grey (marked.colour x) ≡ false
          → is_drained (marked.colour x) ≡ false =
        λ x h. ap is_drained (m.kept x h) ∙ heap.calm x in
      let same : (x : ℕ) → is_grey (marked.colour x) ≡ is_drained (marked.colour x) = λ x.
        elim (Bool-cases (is_grey (marked.colour x))) [
          | inl g ↦ g ∙ sym (grey_drained (marked.colour x) g)
          | inr out ↦ out ∙ sym (kept x out)
        ] in
      record {
        balance = λ y. omega (
          arith,
          m.balance y,
          total_same (edges references y) (coloured is_grey marked) (coloured is_drained marked) n
              (λ x _. same x),
        );
        drained = λ x d. m.reached x (same x ∙ d);
        reached = λ x path. inl (grey_drained (marked.colour x) (grey_iff x path));
        wanted = λ y h. absurd (omega arith);
        alive = λ x path h. absurd (
            cc (
              h,
              drained_not_black (marked.colour x)
                  (grey_drained (marked.colour x) (grey_iff x path)),
            ));
        blackened = λ x path y h e. absurd (
            cc (
              h,
              drained_not_black (marked.colour x)
                  (grey_drained (marked.colour x) (grey_iff x path)),
            ));
        idle = λ x w. absurd (
            cc (
              w,
              grey_not_white (marked.colour x)
                  (grey_iff x (m.reached x (same x ∙ white_is_drained (marked.colour x) w))),
            ));
        fringe = λ x y w e. absurd (
            cc (
              w,
              grey_not_white (marked.colour x)
                  (grey_iff x (m.reached x (same x ∙ white_is_drained (marked.colour x) w))),
            ));
        same = m.same;
      }

  -- After the scan, the gathering can start.
  IsGathering-start :
      (scanned : Objects)
      → Scanned references n o.count o roots heap.fits below scanned []
      → ((x : ℕ) → Reachable references roots x → is_grey (scanned.colour x) ≡ false)
      → (under : (x : ℕ) → is_white (scanned.colour x) ≡ true → x < n)
      → IsGathering references n roots scanned under scanned [] []
  unfolding sum occurrences
  IsGathering-start scanned s out under = record {
    shares = λ f. omega arith;
    counted = λ x. refl;
    unbuffered = λ x. s.same x ∙ heap.unbuffered x;
    before = λ x w. w;
    fringe = λ x path y w e. elim (s.reached x path) [
      | inl d ↦ absurd (cc (w, drained_white (scanned.colour x) d (out x path)))
      | inr dark ↦ elim (s.blackened x path y dark e) [
        | inl p ↦ absurd (omega arith)
        | inr (inl q) ↦ inl (black_not_white (scanned.colour y) q)
        | inr (inr r) ↦ absurd (omega arith)
      ]
    ];
    settled = λ x. inr refl;
  }

  -- What the three passes find.
  pub record Finds (found : Objects) (garbage : List ℕ) : Type 0 where
    pub unreferenced :
        (y : ℕ) → 0 < occurrences y garbage → o.count y ≡ sum (edges references y) garbage
    pub once : (y : ℕ) → occurrences y garbage ≤ 1
    pub counts : (y : ℕ) → found.count y + sum (edges references y) garbage ≡ o.count y
    pub complete :
        (y : ℕ)
        → Reachable references roots y
        → (0 < occurrences y garbage) ⊎ Live references n o.count roots y
    pub dead : (y : ℕ) → 0 < occurrences y garbage → ¬ Live references n o.count roots y
    pub reached : (y : ℕ) → 0 < occurrences y garbage → Reachable references roots y
    pub spared :
        (y : ℕ)
        → occurrences y garbage ≡ 0
        → 0 < sum (edges references y) garbage
        → sum (edges references y) garbage < o.count y
    pub unbuffered : (y : ℕ) → found.buffered y ≡ false
    pub calm : (y : ℕ) → is_drained (found.colour y) ≡ false

  -- A live object is not among those whose references are missing from the counts.
  Live-undrained :
      (scanned : Objects) (s : Scanned references n o.count o roots heap.fits below scanned [])
      (out : (x : ℕ) → is_grey (scanned.colour x) ≡ false) (y : ℕ)
      → Live references n o.count roots y
      → is_drained (scanned.colour y) ≡ false
  unfolding sum occurrences
  Live-undrained scanned s out y (external path more) =
      elim (Bool-cases (is_drained (scanned.colour y))) [
        | inr no_part ↦ no_part
        | inl d ↦ absurd (
            omega (
              arith,
              s.balance y,
              s.idle y (drained_white (scanned.colour y) d (out y)),
              more (coloured is_drained scanned) s.drained,
            ))
      ]
  Live-undrained scanned s out y (referred {x} live e) =
      elim (Bool-cases (is_drained (scanned.colour y))) [
        | inr no_part ↦ no_part
        | inl d ↦
            let within_n = below x (live_reachable references n o.count roots x live) in
            let apart = Live-undrained scanned s out x live in
            absurd (
              omega (
                arith,
                s.balance y,
                s.idle y (drained_white (scanned.colour y) d (out y)),
                heap.held y,
                total_strict (edges references y) (coloured is_drained scanned) x n within_n apart,
              ))
      ]

  -- A live object is counted more often than it is referred to from what is not live.
  Live-spared :
      (scanned : Objects) (s : Scanned references n o.count o roots heap.fits below scanned [])
      (out : (x : ℕ) → is_grey (scanned.colour x) ≡ false) (y : ℕ)
      → Live references n o.count roots y
      → total (edges references y) (coloured is_drained scanned) n < o.count y
  Live-spared scanned s out y (external path more) = more (coloured is_drained scanned) s.drained
  Live-spared scanned s out y (referred {x} live e) = omega (
    arith,
    heap.held y,
    total_strict (edges references y) (coloured is_drained scanned) x n
        (below x (live_reachable references n o.count roots x live))
        (Live-undrained scanned s out x live),
  )

  Finds-gathered :
      (scanned : Objects) (s : Scanned references n o.count o roots heap.fits below scanned [])
      (out : (x : ℕ) → is_grey (scanned.colour x) ≡ false)
      (under : (x : ℕ) → is_white (scanned.colour x) ≡ true → x < n) (found : Objects)
      (garbage : List ℕ)
      → IsGathering references n roots scanned under found garbage []
      → ((x : ℕ) → Reachable references roots x → is_white (found.colour x) ≡ false)
      → Finds found garbage
  unfolding sum occurrences
  Finds-gathered scanned s out under found garbage g clean =
      let none_left : (x : ℕ) → is_white (found.colour x) ≡ false = λ x.
        elim (Bool-cases (is_white (found.colour x))) [
          | inl w ↦
              absurd
                (cc (w, clean x (s.drained x (white_is_drained (scanned.colour x) (g.before x w)))))
          | inr settled ↦ settled
        ] in
      let share : (f : ℕ → ℕ) → sum f garbage ≡ total f (coloured is_drained scanned) n = λ f.
        omega (
          arith,
          g.shares f,
          total_none f (coloured is_white found) n none_left,
          total_same f (coloured is_drained scanned) (coloured is_white scanned) n
              (λ x _. drained_is_white (scanned.colour x) (out x)),
        ) in
      let lit : (y : ℕ) → 0 < occurrences y garbage → is_drained (scanned.colour y) ≡ true =
        λ y inside. elim (Bool-cases (is_drained (scanned.colour y))) [
          | inl d ↦ d
          | inr no_part ↦ absurd (
              omega (
                arith,
                share (unit_at y),
                sum-unit_at y garbage,
                total_unmarked y (coloured is_drained scanned) n no_part,
              ))
        ] in
      record {
        unreferenced = λ y inside. omega (
          arith,
          share (edges references y),
          s.balance y,
          s.idle y (drained_white (scanned.colour y) (lit y inside) (out y)),
        );
        once = λ y. omega (
          arith,
          share (unit_at y),
          sum-unit_at y garbage,
          total-unit_at_once y (coloured is_drained scanned) n,
        );
        counts = λ y. omega (arith, share (edges references y), s.balance y, g.counted y);
        complete = λ y path. elim (s.reached y path) [
          | inl d ↦ inl (
              omega (
                arith,
                share (unit_at y),
                sum-unit_at y garbage,
                total-unit_at y (coloured is_drained scanned) n (below y path) d,
              ))
          | inr dark ↦ inr (s.alive y path dark)
        ];
        dead = λ y inside live. absurd (cc (lit y inside, Live-undrained scanned s out y live));
        reached = λ y inside. s.drained y (lit y inside);
        spared = λ y left more.
            let (x, inside, e) = sum_positive (edges references y) garbage more in
            let path = step (s.drained x (lit x inside)) e in
            elim (s.reached y path) [
              | inl d ↦ absurd (
                  omega (
                    arith,
                    left,
                    share (unit_at y),
                    sum-unit_at y garbage,
                    total-unit_at y (coloured is_drained scanned) n (below y path) d,
                  ))
              | inr dark ↦ omega (
                arith,
                share (edges references y),
                Live-spared scanned s out y (s.alive y path dark),
              )
            ];
        unbuffered = g.unbuffered;
        calm = λ y. elim (g.settled y) [
          | inl dark ↦ ap is_drained dark
          | inr kept ↦ settled_calm (found.colour y) (ap is_grey kept ∙ out y) (none_left y)
        ];
      }

  pub find_garbage_lem :
      (found : Objects) × (garbage : List ℕ) × (find_garbage references n o roots
        ≡ some (found, garbage))
      × Finds found garbage
  unfolding find_garbage
  find_garbage_lem =
      let started =
        Marking-start references n o.count o roots held heap.fits below refl
          (λ x. grey_calm (o.colour x) (heap.calm x)) in
      let (marked, marks, m, _, first) =
        mark_all_lem references n o.count o roots held heap.fits below o roots started (λ x h. h) in
      let scan =
        scan_all_lem references n o.count o roots heap.fits below marked roots
          (Scanned-start marked m first) in
      let out : (x : ℕ) → is_grey (scan.scanned.colour x) ≡ false = λ x.
        elim (Bool-cases (is_grey (scan.scanned.colour x))) [
          | inl g ↦ absurd (
              cc (
                g,
                ungrey references n o.count o roots heap.fits below scan.scanned scan.state
                    scan.done x (scan.state.drained x (grey_drained (scan.scanned.colour x) g)),
              ))
          | inr settled ↦ settled
        ] in
      let under : (x : ℕ) → is_white (scan.scanned.colour x) ≡ true → x < n =
        λ x w. below x (scan.state.drained x (white_is_drained (scan.scanned.colour x) w)) in
      let gathered =
        gather_all_lem references n roots scan.scanned under scan.scanned [] roots
          (IsGathering-start scan.scanned scan.state (λ x _. out x) under) in
      (
        gathered.objects,
        gathered.garbage,
        rw (marks, scan.ends) gathered.ends,
        Finds-gathered scan.scanned scan.state out under gathered.objects gathered.garbage
            gathered.state
            (unwhite references n roots scan.scanned under gathered.objects gathered.garbage
              gathered.state gathered.done),
      )
