-- ===== src/Cycles/Collector/Release.antt =====
-- Dropping a reference: the destructions that it sets off end, and leave the candidate buffer in order.
use lumiere.Common.{
  ℕ, zero, suc, ◌-◌, ◌≤◌, ◌<◌, ◌≡◌, refl, Bool, true, false, not, Option, some, List, [], ◌∷◌, ◌==◌,
  if◌then◌else◌, arith, inl, inr, sym, ap, ◌∙◌, Bool-cases, ==_refl, neq→==, ltb, ltb→lt, ◌||◌,
  ◌&&◌,
}
use lumiere.Cycles.{is_purple, update, decrement, children_of, present}
use lumiere.Cycles.Sums.{total, total_le, total_more, total_ends}
use lumiere.Cycles.Marking.{one}
use lumiere.Cycles.Collector.{
  Runtime, release, release_each, delete, leave_buffer, note_possible_root,
}
use lumiere.Cycles.Collector.Buffer.{
  IsBuffered, note_possible_root-IsBuffered, leave_buffer-IsBuffered,
}

-- whether an object still visits anything
abbrev holds : List (Option ℕ) → Bool
holds [] = false
holds (visited ∷ rest) = true

holds_none : (visited : List (Option ℕ)) → holds visited ≡ false → visited ≡ []
holds_none [] h = refl
holds_none (x ∷ visited) h = absurd (cc)

abbrev pub holding : Runtime → ℕ → Bool
holding r x = holds (r.references x)

-- What a release keeps: no object gains references, and the buffer stays in order.
record Step (r next : Runtime) : Type 0 where
  shrunk : (x : ℕ) → holding next x ≡ true → holding r x ≡ true
  here : next.present ≡ r.present
  ordered : r.present ≡ true → IsBuffered r → IsBuffered next

Step-refl : (r : Runtime) → Step r r
Step-refl r = record { shrunk = λ x h. h; here = refl; ordered = λ _ b. b }

Step-trans : (p q r : Runtime) → Step p q → Step q r → Step p r
Step-trans p q r a b = record {
  shrunk = λ x h. a.shrunk x (b.shrunk x h);
  here = b.here ∙ a.here;
  ordered = λ h c. b.ordered (a.here ∙ h) (a.ordered h c);
}

Step-decrement : (r : Runtime) (x : ℕ) → Step r (record r { objects = decrement r.objects x })
Step-decrement r x = record {
  shrunk = λ y h. h;
  here = refl;
  ordered = λ _ b. record { slotted = b.slotted; size = b.size };
}

-- how many objects still hold references
abbrev pub held_objects : ℕ → Runtime → ℕ
held_objects n r = total one (holding r) n

held_shrunk : (n : ℕ) (r next : Runtime) → Step r next → held_objects n next ≤ held_objects n r
held_shrunk n r next s = total_le one (holding next) (holding r) n (λ x h. inl (s.shrunk x h))

noted_same :
    (r : Runtime) (x : ℕ)
    → ((note_possible_root r x).references ≡ r.references)
      × ((note_possible_root r x).present ≡ r.present)
unfolding note_possible_root
noted_same r x =
    elim (Bool-cases (not r.present || r.collecting || is_purple (r.objects.colour x))) [
      | inl skips ↦ rw (skips, note_possible_root) (refl, refl)
      | inr notes ↦ elim (Bool-cases (r.objects.buffered x)) [
        | inl old ↦ rw (notes, old, note_possible_root) (refl, refl)
        | inr new ↦ rw (notes, new, note_possible_root) (refl, refl)
      ]
    ]

left_same :
    (r : Runtime) (x : ℕ)
    → ((leave_buffer r x).references ≡ r.references) × ((leave_buffer r x).present ≡ r.present)
unfolding leave_buffer
left_same r x = elim (Bool-cases (not (r.objects.buffered x && r.present))) [
  | inl out ↦ rw (out, leave_buffer) (refl, refl)
  | inr inside ↦ rw (inside, leave_buffer) (refl, refl)
]

Step-note : (r : Runtime) (x : ℕ) → Step r (note_possible_root r x)
unfolding note_possible_root
Step-note r x = record {
  shrunk = λ y h. ap (λ (f : ℕ → List (Option ℕ)). holds (f y)) (sym (noted_same r x).0) ∙ h;
  here = (noted_same r x).1;
  ordered = λ _ b. note_possible_root-IsBuffered r x b;
}

Step-leave : (r : Runtime) (x : ℕ) → Step r (leave_buffer r x)
Step-leave r x = record {
  shrunk = λ y h. ap (λ (f : ℕ → List (Option ℕ)). holds (f y)) (sym (left_same r x).0) ∙ h;
  here = (left_same r x).1;
  ordered = λ h b. (leave_buffer-IsBuffered r x h b).0;
}

-- Nothing outside the first n objects holds references, and those that do are fewer than the fuel.
record IsFuelled (n fuel : ℕ) (r : Runtime) : Type 0 where
  outside : (x : ℕ) → n ≤ x → holding r x ≡ false
  enough : held_objects n r < fuel

IsFuelled-Step :
    (n fuel : ℕ) (r next : Runtime) → Step r next → IsFuelled n fuel r → IsFuelled n fuel next
IsFuelled-Step n fuel r next s f = record {
  outside = λ x h. elim (Bool-cases (holding next x)) [
    | inl gains ↦ absurd (cc (f.outside x h, s.shrunk x gains))
    | inr bare ↦ bare
  ];
  enough = omega (arith, f.enough, held_shrunk n r next s);
}

-- What it is to end, for each runtime with enough fuel.
abbrev Ends : (ℕ → ℕ → (Runtime → ℕ → Option Runtime) → Type 0)
Ends n fuel release_one =
    (r : Runtime) (x : ℕ)
    → IsFuelled n fuel r
    → (next : Runtime) × (release_one r x ≡ some next) × Step r next

Step-release_each :
    (n fuel : ℕ) (release_one : Runtime → ℕ → Option Runtime)
    → Ends n fuel release_one
    → (r : Runtime) (children : List ℕ) → IsFuelled n fuel r
    → (next : Runtime) × (release_each release_one r children ≡ some next) × Step r next
unfolding release_each
Step-release_each n fuel release_one one_ends r [] f = (r, refl, Step-refl r)
Step-release_each n fuel release_one one_ends r (child ∷ children) f =
    let (first, ends, s) = one_ends r child f in
    let (next, rest, t) =
      Step-release_each n fuel release_one one_ends first children
        (IsFuelled-Step n fuel r first s f) in
    (next, rw (release_each, ends) rest, Step-trans r first next s t)

-- The object's own references are gone while its children are released.
Step-delete :
    (n fuel : ℕ) (release_one : Runtime → ℕ → Option Runtime)
    → Ends n fuel release_one
    → (r : Runtime) (x : ℕ) → IsFuelled n (suc fuel) r
    → (next : Runtime) × (delete release_one r x ≡ some next) × Step r next
unfolding release_each present
Step-delete n fuel release_one one_ends r x f =
    let cleared = record r {
      live = if r.present then r.live - 1 else r.live;
      deleted = x ∷ r.deleted;
      references = update r.references x [];
    } in
    let s : Step r cleared = record {
      shrunk = λ y h. elim (Bool-cases (x == y)) [
        | inl own ↦ absurd (cc (rw (own) at h))
        | inr other ↦ rw (other) at h
      ];
      here = refl;
      ordered = λ _ b. record { slotted = b.slotted; size = b.size };
    } in
    elim (Bool-cases (holding r x)) [
      | inl held ↦
          let inside : x < n = elim (Bool-cases (ltb x n)) [
            | inl under ↦ ltb→lt x n under
            | inr over ↦ absurd (cc (held, f.outside x (ground (arith, over))))
          ] in
          let fewer =
            total_more one (holding cleared) (holding r) x n inside (rw (==_refl x) refl) held
              (λ y apart. rw (neq→== x y (λ e. apart (sym e))) refl) in
          let (next, ends, t) =
            Step-release_each n fuel release_one one_ends cleared (children_of r.references x)
              (record {
                outside = (IsFuelled-Step n (suc fuel) r cleared s f).outside;
                enough = omega (arith, f.enough, fewer);
              }) in
          (next, ends, Step-trans r cleared next s t)
      | inr bare ↦ (cleared, rw (holds_none (r.references x) bare) refl, s)
    ]

Step-release : (n fuel : ℕ) → Ends n fuel (release fuel)
unfolding release
Step-release n zero r x f = absurd (omega (arith, f.enough))
Step-release n (suc fuel) r x f =
    let dropped = record r { objects = decrement r.objects x } in
    let left = leave_buffer dropped x in
    let s = Step-decrement r x in
    elim (Bool-cases (dropped.objects.count x == 0)) [
      | inl last ↦
          let to_left = Step-trans r dropped left s (Step-leave dropped x) in
          let (next, ends, t) =
            Step-delete n fuel (release fuel) (Step-release n fuel) left x
              (IsFuelled-Step n (suc fuel) r left to_left f) in
          (next, rw (release, last) ends, Step-trans r left next to_left t)
      | inr more ↦ elim (Bool-cases (r.acyclic x)) [
        | inl leaf ↦ (dropped, rw (release, more, leaf) refl, s)
        | inr node ↦ (
          note_possible_root dropped x,
          rw (release, more, node) refl,
          Step-trans r dropped (note_possible_root dropped x) s (Step-note dropped x),
        )
      ]
    ]

-- With more fuel than objects hold references, dropping a reference ends, however many destructions it
-- sets off, and leaves each buffered object in the slot that it knows, and no other entry.
pub release-IsBuffered :
    (n : ℕ) (r : Runtime) (object : ℕ)
    → ((x : ℕ) → n ≤ x → holding r x ≡ false)
    → r.present ≡ true
    → IsBuffered r
    → (next : Runtime) × (release (suc n) r object ≡ some next) × IsBuffered next
release-IsBuffered n r object outside here b =
    let (next, ends, s) = Step-release n (suc n) r object (record {
      outside = outside;
      enough = omega (arith, total_ends one (holding r) n (λ x. omega arith));
    }) in
    (next, ends, s.ordered here b)
