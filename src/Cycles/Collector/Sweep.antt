-- ===== src/Cycles/Collector/Sweep.antt =====
-- The sweep of a collection: breaking the links of the garbage frees nothing on the way, and letting go
-- of each object frees exactly the garbage.
use lumiere.Common.{
  ℕ, suc, ◌+◌, ◌-◌, ◌≤◌, ◌<◌, ◌≡◌, refl, true, false, Option, some, List, [], ◌∷◌, length, ◌==◌,
  arith, inl, inr, sym, ap, ◌∙◌, Bool-cases, ==→eq, ==_refl, neq→==,
}
use lumiere.Cycles.{Objects, update, down, increment, children_of, present, push_all}
use lumiere.Cycles.Sums.{
  occurrences, sum, occurrences_here, occurrences-cases, occurrences_later, occurrences_fewer,
  occurrences_apart,
}
use lumiere.Cycles.Reach.{edges}
use lumiere.Cycles.Marking.{down_lem}
use lumiere.Cycles.Scanning.{up_lem}
use lumiere.Cycles.Collector.{
  Runtime, release, release_each, clear_all, let_go, note_possible_root, hold_up,
}

-- A runtime in the middle of a sweep: what changes are counts and references, and what is deleted.
abbrev pub swept : Runtime → (ℕ → ℕ) → (ℕ → List (Option ℕ)) → Runtime
swept base count references = record base {
  objects = record base.objects { count = count };
  references = references;
}

pub hold_up_lem :
    (o : Objects) (garbage : List ℕ)
    → ((y : ℕ) → o.count y + occurrences y garbage ≤ 4294967295)
    → (count : ℕ → ℕ) × (hold_up o garbage ≡ record o { count = count })
      × ((y : ℕ) → count y ≡ o.count y + occurrences y garbage)
unfolding hold_up occurrences
hold_up_lem o [] room = (o.count, refl, λ y. omega arith)
hold_up_lem o (object ∷ garbage) room =
    let more =
      up_lem (o.count object) (omega (arith, room object, occurrences_here object garbage)) in
    let (count, is, each) =
      hold_up_lem (increment o object) garbage (λ y. ground (arith, more, room y)) in
    (count, is, λ y. ground (arith, more, each y))

module _ (base : Runtime) (here : base.present ≡ true) (busy : base.collecting ≡ true) where
  -- During a collection, a reference that is not the last one is dropped and no more.
  release_kept :
      (fuel : ℕ) (count : ℕ → ℕ) (references : ℕ → List (Option ℕ)) (child : ℕ)
      → 1 < count child
      → count child ≤ 4294967295
      → release (suc fuel) (swept base count references) child
        ≡ some (swept base (update count child (down (count child))) references)
  unfolding release note_possible_root
  release_kept fuel count references child more fits =
      let less = down_lem (count child) (omega arith) fits in
      let stays : (down (count child) == 0) ≡ false =
        neq→== (down (count child)) 0 (λ e. omega (arith, e, less)) in
      elim (Bool-cases (base.acyclic child)) [
        | inl leaf ↦ rw (release, ==_refl child, stays, leaf) refl
        | inr node ↦ rw (release, ==_refl child, stays, node, note_possible_root, here, busy) refl
      ]

  release_each_lem :
      (fuel : ℕ) (count : ℕ → ℕ) (references : ℕ → List (Option ℕ)) (children : List ℕ)
      → ((y : ℕ) → 0 < occurrences y children → occurrences y children < count y)
      → ((y : ℕ) → count y ≤ 4294967295)
      → (less : ℕ → ℕ) × (release_each (release (suc fuel)) (swept base count references) children
          ≡ some (swept base less references))
        × ((y : ℕ) → less y + occurrences y children ≡ count y)
  unfolding release_each occurrences
  release_each_lem fuel count references [] room fits = (count, refl, λ y. omega arith)
  release_each_lem fuel count references (child ∷ children) room fits =
      let many = room child (omega (arith, occurrences_here child children)) in
      let wide : 1 < count child = omega (arith, many, occurrences_here child children) in
      let down_one = down_lem (count child) (omega arith) (fits child) in
      let next = update count child (down (count child)) in
      let (less, ends, each) =
        release_each_lem fuel next references children (λ y h. ground (arith, down_one, room y))
          (λ y. ground (arith, down_one, fits y)) in
      (
        less,
        rw (release_each, release_kept fuel count references child wide (fits child)) ends,
        λ y. ground (arith, down_one, each y),
      )

  pub clear_all_lem :
      (fuel : ℕ) (original : ℕ → List (Option ℕ)) (count : ℕ → ℕ) (references : ℕ → List (Option ℕ))
      (garbage : List ℕ)
      → ((y : ℕ) → occurrences y garbage ≤ 1)
      → ((x : ℕ) → 0 < occurrences x garbage → references x ≡ original x)
      → ((y : ℕ) → 0 < sum (edges original y) garbage → sum (edges original y) garbage < count y)
      → ((y : ℕ) → count y ≤ 4294967295)
      → (less : ℕ → ℕ) × (left : ℕ → List (Option ℕ)) × (clear_all
            (release (suc fuel))
            (swept base count references)
            garbage
          ≡ some (swept base less left))
        × ((y : ℕ) → less y + sum (edges original y) garbage ≡ count y)
        × ((x : ℕ) → 0 < occurrences x garbage → left x ≡ [])
        × ((x : ℕ) → occurrences x garbage ≡ 0 → left x ≡ references x)
  unfolding clear_all sum occurrences
  clear_all_lem fuel original count references [] once kept room fits =
      (count, references, refl, λ y. omega arith, λ x h. absurd (omega arith), λ x _. refl)
  clear_all_lem fuel original count references (object ∷ garbage) once kept room fits =
      let alone : occurrences object garbage ≡ 0 =
        omega (arith, once object, occurrences_here object garbage) in
      let mine = kept object (omega (arith, occurrences_here object garbage)) in
      let children = children_of original object in
      let cleared = update references object [] in
      let (next, first, each) =
        release_each_lem fuel count cleared children (λ y h. omega (arith, room y)) fits in
      let (less, left, ends, rest, empty, others) =
        clear_all_lem fuel original next cleared garbage (λ y. ground (arith, once y))
          (λ x h.
            rw
              (neq→== object x
                (λ e. omega (arith, alone, h, ap (λ (z : ℕ). occurrences z garbage) e)))
              (kept x (occurrences_later x object garbage h)))
          (λ y h. omega (arith, room y, each y)) (λ y. omega (arith, fits y, each y)) in
      (
        less,
        left,
        rw (clear_all, mine, first) ends,
        λ y. omega (arith, rest y, each y),
        λ x h. elim (occurrences-cases x object garbage h) [
          | inl same ↦ ap left same ∙ others object alone ∙ rw (==_refl object) refl
          | inr later ↦ empty x later
        ],
        λ x h.
            others x (omega (arith, h, occurrences_fewer x object garbage))
            ∙ rw (occurrences_apart x object garbage h) refl,
      )

-- with the objects deleted so far, and the number of those alive
abbrev pub reaped : Runtime → (ℕ → ℕ) → (ℕ → List (Option ℕ)) → ℕ → List ℕ → Runtime
reaped base count references live deleted = record base {
  objects = record base.objects { count = count };
  references = references;
  live = live;
  deleted = deleted;
}

module _ (base : Runtime) (here : base.present ≡ true)
    (release : Runtime → ℕ → Option Runtime) where
  -- Each garbage object, held once and without references, is deleted.
  pub let_go_lem :
      (count : ℕ → ℕ) (references : ℕ → List (Option ℕ)) (live : ℕ) (deleted garbage : List ℕ)
      → ((y : ℕ) → occurrences y garbage ≤ 1)
      → ((x : ℕ) → 0 < occurrences x garbage → count x ≡ 1)
      → ((x : ℕ) → 0 < occurrences x garbage → references x ≡ [])
      → (less : ℕ → ℕ) × (left : ℕ → List (Option ℕ)) × (let_go release
            (reaped base count references live deleted)
            garbage
          ≡ some (reaped base less left (live - length garbage) (push_all deleted garbage)))
        × ((y : ℕ) → less y + occurrences y garbage ≡ count y)
        × ((x : ℕ) → left x ≡ references x)
  unfolding let_go occurrences push_all release_each down present
  let_go_lem count references live deleted [] once held empty =
      let as_many : live - 0 ≡ live = omega arith in
      (
        count,
        references,
        ap (λ l. some (reaped base count references l deleted)) (sym as_many),
        λ y. omega arith,
        λ x. refl,
      )
  let_go_lem count references live deleted (object ∷ garbage) once held empty =
      let inside : 0 < occurrences object (object ∷ garbage) =
        omega (arith, occurrences_here object garbage) in
      let one = held object inside in
      let none_left = empty object inside in
      let alone : occurrences object garbage ≡ 0 =
        omega (arith, once object, occurrences_here object garbage) in
      let away : (x : ℕ) → 0 < occurrences x garbage → (object == x) ≡ false = λ x h.
        neq→== object x λ e. omega (arith, alone, h, ap (λ (z : ℕ). occurrences z garbage) e) in
      let dropped : down (count object) ≡ 0 = ap down one in
      let next = update count object (down (count object)) in
      let hit : (next object == 0) ≡ true = rw (==_refl object, dropped) refl in
      let cleared = update references object [] in
      let unread : (x : ℕ) → cleared x ≡ references x = λ x. elim (Bool-cases (object == x)) [
        | inl hit ↦ rw (hit) (sym none_left ∙ ap references (==→eq object x hit))
        | inr miss ↦ rw (miss) refl
      ] in
      let (less, left, ends, each, same) =
        let_go_lem next cleared (live - 1) (object ∷ deleted) garbage
          (λ y. omega (arith, once y, occurrences_fewer y object garbage))
          (λ x h. rw (away x h) (held x (occurrences_later x object garbage h)))
          (λ x h. rw (away x h) (empty x (occurrences_later x object garbage h))) in
      let fewer : live - length (object ∷ garbage) ≡ live - 1 - length garbage = omega arith in
      let step : let_go release (reaped base count references live deleted) (object ∷ garbage)
          ≡ let_go release (reaped base next cleared (live - 1) (object ∷ deleted)) garbage =
        rw (let_go, hit, none_left, here) refl in
      (
        less,
        left,
        step
            ∙ ends
            ∙ ap (λ l. some (reaped base less left l (push_all (object ∷ deleted) garbage)))
                (sym fewer),
        λ y. ground (arith, one, dropped, each y),
        λ x. same x ∙ unread x,
      )
