-- ===== src/Cycles/Collector/Counted.antt =====
-- Dropping a reference in a heap that is counted: what is deleted is not counted and not buffered.
use lumiere.Common.{
  ℕ, zero, suc, ◌+◌, ◌-◌, ◌≤◌, ◌<◌, ◌≡◌, refl, ◌≢◌, true, false, not, Option, some, List, [], ◌∷◌,
  ◌++◌, ◌==◌, if◌then◌else◌, arith, inl, inr, sym, ap, ◌∙◌, Bool-cases, Option-cases, ==_refl,
  neq→==, ==→eq, ==→neq, ltb, ltb→lt, ◌||◌, ◌&&◌,
}
use mathlib.Core.Path.{subst}
use mathlib.Core.Option.{some-injective}
use lumiere.Cycles.{is_purple, update, decrement, children_of, present}
use lumiere.Cycles.Sums.{
  total, total_more, total_split, occurrences, occurrences_here, occurrences_other,
  occurrences-append, occurrences-cases,
}
use lumiere.Cycles.Reach.{edges}
use lumiere.Cycles.Marking.{down_lem}
use lumiere.Cycles.Collector.{Runtime, release, release_each, leave_buffer, note_possible_root}
use lumiere.Cycles.Collector.Buffer.{
  IsBuffered, note_possible_root-IsBuffered, leave_buffer-IsBuffered,
}
use lumiere.Cycles.Collector.Release.{holding, release-IsBuffered}

-- In a heap of n objects, each is counted at least as often as it is referred to, from the heap and from
-- the list of references that are held outside. What was deleted is not counted and not buffered.
pub record IsCounted (n : ℕ) (references_held : List ℕ) (r : Runtime) : Type 0 where
  pub present : r.present ≡ true
  pub ordered : IsBuffered r
  pub outside : (x : ℕ) → n ≤ x → r.references x ≡ []
  pub held :
      (y : ℕ)
      → total (edges r.references y) (λ _. true) n + occurrences y references_held
        ≤ r.objects.count y
  pub fits : (y : ℕ) → r.objects.count y ≤ 4294967295
  pub dead :
      (x : ℕ)
      → 0 < occurrences x r.deleted
      → (r.objects.count x ≡ 0) × (r.objects.buffered x ≡ false)

-- What a step on one object leaves alone.
record Same (x : ℕ) (r next : Runtime) : Type 0 where
  count : next.objects.count ≡ r.objects.count
  references : next.references ≡ r.references
  deleted : next.deleted ≡ r.deleted
  present : next.present ≡ r.present
  buffered : (y : ℕ) → y ≢ x → next.objects.buffered y ≡ r.objects.buffered y

note_possible_root-Same : (r : Runtime) (x : ℕ) → Same x r (note_possible_root r x)
unfolding note_possible_root
note_possible_root-Same r x =
    let plain : Same x r r = record {
      count = refl;
      references = refl;
      deleted = refl;
      present = refl;
      buffered = λ y apart. refl;
    } in
    elim (Bool-cases (not r.present || r.collecting || is_purple (r.objects.colour x))) [
      | inl skips ↦ rw (skips, note_possible_root) plain
      | inr notes ↦ elim (Bool-cases (r.objects.buffered x)) [
        | inl old ↦
            rw (notes, old, note_possible_root)
              (record {
                count = refl;
                references = refl;
                deleted = refl;
                present = refl;
                buffered = λ y apart. refl;
              })
        | inr new ↦
            rw (notes, new, note_possible_root)
              (record {
                count = refl;
                references = refl;
                deleted = refl;
                present = refl;
                buffered = λ y apart. rw (neq→== x y (λ e. apart (sym e))) refl;
              })
      ]
    ]

leave_buffer-Same : (r : Runtime) (x : ℕ) → Same x r (leave_buffer r x)
unfolding leave_buffer
leave_buffer-Same r x = elim (Bool-cases (not (r.objects.buffered x && r.present))) [
  | inl out ↦
      rw (out, leave_buffer)
        (record {
          count = refl;
          references = refl;
          deleted = refl;
          present = refl;
          buffered = λ y apart. refl;
        })
  | inr inside ↦
      rw (inside, leave_buffer)
        (record {
          count = refl;
          references = refl;
          deleted = refl;
          present = refl;
          buffered = λ y apart. rw (neq→== x y (λ e. apart (sym e))) refl;
        })
]

holding_none : (r : Runtime) (x : ℕ) → r.references x ≡ [] → holding r x ≡ false
holding_none r x e = rw (e) refl

module _ (n : ℕ) where
  one_held :
      (r : Runtime) (x : ℕ) (rest : List ℕ) → IsCounted n (x ∷ rest) r → 1 ≤ r.objects.count x
  one_held r x rest c = omega (arith, c.held x, occurrences_here x rest)

  -- The count without the reference that is dropped.
  dropped_count :
      (r : Runtime) (x : ℕ) (rest : List ℕ)
      → IsCounted n (x ∷ rest) r
      → (y : ℕ)
      → total (edges r.references y) (λ _. true) n + occurrences y rest
        ≤ (decrement r.objects x).count y
  dropped_count r x rest c y = elim (Bool-cases (x == y)) [
    | inl same ↦
        subst
          (λ z.
            total (edges r.references z) (λ _. true) n + occurrences z rest
            ≤ (decrement r.objects x).count z)
          (==→eq x y same)
          (rw (==_refl x) (
            omega (
              arith,
              c.held x,
              occurrences_here x rest,
              down_lem (r.objects.count x) (one_held r x rest c) (c.fits x),
            )))
    | inr other ↦
        let off = occurrences_other y x rest (λ e. ==→neq x y other (sym e)) in
        rw (other) (omega (arith, c.held y, off))
  ]

  dropped_other :
      (r : Runtime) (x y : ℕ) → y ≢ x → (decrement r.objects x).count y ≡ r.objects.count y
  dropped_other r x y apart = rw (neq→== x y (λ e. apart (sym e))) refl

  dropped_fits :
      (r : Runtime) (x : ℕ) (rest : List ℕ)
      → IsCounted n (x ∷ rest) r
      → (y : ℕ) → (decrement r.objects x).count y ≤ 4294967295
  dropped_fits r x rest c y = elim (Bool-cases (x == y)) [
    | inl same ↦
        rw (same)
          (omega (arith, down_lem (r.objects.count x) (one_held r x rest c) (c.fits x), c.fits x))
    | inr other ↦ rw (other) (c.fits y)
  ]

  -- An object that was deleted is another one than one that a reference is held to.
  dead_apart :
      (r : Runtime) (x : ℕ) (rest : List ℕ)
      → IsCounted n (x ∷ rest) r
      → (y : ℕ) → 0 < occurrences y r.deleted
      → y ≢ x
  dead_apart r x rest c y gone e =
      absurd (omega (arith, one_held r x rest c, (c.dead y gone).0, ap r.objects.count e))

  -- After the dropping, where the object itself may have been touched.
  IsCounted-dropped :
      (r next : Runtime) (x : ℕ) (rest : List ℕ)
      → IsCounted n (x ∷ rest) r
      → Same x (record r { objects = decrement r.objects x }) next
      → IsBuffered next
      → IsCounted n rest next
  IsCounted-dropped r next x rest c same ordered =
      let counts : (y : ℕ) → next.objects.count y ≡ (decrement r.objects x).count y =
        λ y. ap (λ (f : ℕ → ℕ). f y) same.count in
      record {
        present = same.present ∙ c.present;
        ordered = ordered;
        outside =
            λ y over. ap (λ (f : ℕ → List (Option ℕ)). f y) same.references ∙ c.outside y over;
        held = λ y.
            subst
              (λ (refs : ℕ → List (Option ℕ)).
                total (edges refs y) (λ _. true) n + occurrences y rest ≤ next.objects.count y)
              (sym same.references) (omega (arith, dropped_count r x rest c y, counts y));
        fits = λ y. omega (arith, dropped_fits r x rest c y, counts y);
        dead = λ y gone.
            let old : 0 < occurrences y r.deleted =
              subst (λ xs. 0 < occurrences y xs) same.deleted gone in
            let apart = dead_apart r x rest c y old in
            (
              counts y ∙ dropped_other r x y apart ∙ (c.dead y old).0,
              same.buffered y apart ∙ (c.dead y old).1,
            );
      }

  -- The references of one object are part of all.
  own_edges :
      (references : ℕ → List (Option ℕ)) (x y : ℕ)
      → ((z : ℕ) → n ≤ z → references z ≡ [])
      → edges references y x ≤ total (edges references y) (λ z. x == z) n
  unfolding present occurrences
  own_edges references x y outside = elim (Bool-cases (ltb x n)) [
    | inl under ↦
        let more =
          total_more (edges references y) (λ z. false) (λ z. x == z) x n (ltb→lt x n under) refl
            (==_refl x) (λ z apart. sym (neq→== x z (λ e. apart (sym e)))) in
        omega (arith, more)
    | inr over ↦
        let none_there =
          ap (λ (visited : List (Option ℕ)). occurrences y (present visited))
            (outside x (ground (arith, over))) in
        omega (arith, none_there)
  ]

  -- The object is deleted, and what it referred to is held for it.
  IsCounted-cleared :
      (r : Runtime) (x live : ℕ) (rest : List ℕ)
      → IsCounted n rest r
      → r.objects.count x ≡ 0
      → r.objects.buffered x ≡ false
      → IsCounted n
          (children_of r.references x ++ rest)
          (record r { live = live; deleted = x ∷ r.deleted; references = update r.references x [] })
  unfolding present occurrences
  IsCounted-cleared r x live rest c none_left unbuffered =
      let left : ℕ → List (Option ℕ) = update r.references x [] in
      record {
        present = c.present;
        ordered = record { slotted = c.ordered.slotted; size = c.ordered.size };
        outside = λ y over. elim (Bool-cases (x == y)) [
          | inl same ↦ rw (same) refl
          | inr other ↦ rw (other) (c.outside y over)
        ];
        held = λ y.
            let split =
              total_split (edges r.references y) (edges left y) (λ z. x == z) n
                (λ z same. rw (same) refl) (λ z other. rw (other) refl) in
            omega (
              arith,
              split,
              c.held y,
              own_edges r.references x y c.outside,
              occurrences-append y (children_of r.references x) rest,
            );
        fits = c.fits;
        dead = λ y gone. elim (occurrences-cases y x r.deleted gone) [
          | inl same ↦
              (ap r.objects.count same ∙ none_left, ap r.objects.buffered same ∙ unbuffered)
          | inr old ↦ c.dead y old
        ];
      }

  -- A release of each of the references that are held.
  abbrev Keeps : (Runtime → ℕ → Option Runtime) → Type 0
  Keeps release_one =
      (r : Runtime) (x : ℕ) (rest : List ℕ) (next : Runtime)
      → IsCounted n (x ∷ rest) r
      → release_one r x ≡ some next
      → IsCounted n rest next

  release_each-IsCounted :
      (release_one : Runtime → ℕ → Option Runtime)
      → Keeps release_one
      → (r : Runtime) (children rest : List ℕ) (next : Runtime) → IsCounted n (children ++ rest) r
      → release_each release_one r children ≡ some next
      → IsCounted n rest next
  unfolding release_each
  release_each-IsCounted release_one keeps r [] rest next c e =
      subst (IsCounted n rest) (some-injective r next e) c
  release_each-IsCounted release_one keeps r (child ∷ children) rest next c e =
      elim (Option-cases (release_one r child)) [
        | inl nothing ↦ absurd (cc (rw (nothing, release_each) at e))
        | inr (first, found) ↦
            release_each-IsCounted release_one keeps first children rest next
              (keeps r child (children ++ rest) first c found) (rw (found, release_each) at e)
      ]

  release-IsCounted_from : (fuel : ℕ) → Keeps (release fuel)
  unfolding release
  release-IsCounted_from zero r x rest next c e = absurd (cc)
  release-IsCounted_from (suc fuel) r x rest next c e =
      let dropped = record r { objects = decrement r.objects x } in
      let in_order : IsBuffered dropped = record {
        slotted = c.ordered.slotted;
        size = c.ordered.size;
      } in
      elim (Bool-cases (dropped.objects.count x == 0)) [
        | inl last ↦
            let left = leave_buffer dropped x in
            let same = leave_buffer-Same dropped x in
            let (ordered, unbuffered) = leave_buffer-IsBuffered dropped x c.present in_order in
            let counted = IsCounted-dropped r left x rest c same ordered in
            let none_left : left.objects.count x ≡ 0 =
              ap (λ (f : ℕ → ℕ). f x) same.count ∙ ==→eq (dropped.objects.count x) 0 last in
            release_each-IsCounted (release fuel) (release-IsCounted_from fuel)
              (record left {
                live = if left.present then left.live - 1 else left.live;
                deleted = x ∷ left.deleted;
                references = update left.references x [];
              })
              (children_of left.references x) rest next
              (IsCounted-cleared left x (if left.present then left.live - 1 else left.live) rest
                counted none_left unbuffered)
              (rw (last, release) at e)
        | inr more ↦ elim (Bool-cases (r.acyclic x)) [
          | inl leaf ↦
              let is : some dropped ≡ some next = rw (more, leaf, release) at e in
              subst (IsCounted n rest) (some-injective dropped next is) (
                IsCounted-dropped r dropped x rest c
                  (record {
                    count = refl;
                    references = refl;
                    deleted = refl;
                    present = refl;
                    buffered = λ y apart. refl;
                  })
                  in_order)
          | inr node ↦
              let noted = note_possible_root dropped x in
              let is : some noted ≡ some next = rw (more, node, release) at e in
              subst (IsCounted n rest) (some-injective noted next is) (
                IsCounted-dropped r noted x rest c (note_possible_root-Same dropped x)
                  (note_possible_root-IsBuffered dropped x in_order))
        ]
      ]

-- Dropping a reference that is held ends with one round more than there are objects, however many
-- destructions it sets off. In a heap that is counted, one reference is held less afterwards, the heap is
-- counted still, the candidate buffer is in order, and no object that was deleted is counted or stands in
-- the buffer.
pub release-IsCounted :
    (n : ℕ) (r : Runtime) (object : ℕ) (others : List ℕ)
    → IsCounted n (object ∷ others) r
    → (next : Runtime) × (release (suc n) r object ≡ some next) × IsCounted n others next
release-IsCounted n r object others c =
    let (next, ends, ordered) =
      release-IsBuffered n r object (λ x over. holding_none r x (c.outside x over)) c.present
        c.ordered in
    (next, ends, release-IsCounted_from n (suc n) r object others next c ends)
