-- ===== src/Cycles/Collector/Collected.antt =====
-- A whole collection: what it deletes, and that the heap is ready for the next one.
use lumiere.Common.{
  ℕ, suc, ◌+◌, ◌-◌, ◌≤◌, ◌<◌, ◌≡◌, refl, ◌↔◌, true, false, not, ◌||◌, Option, some, List, [],
  length, arith, inl, inr, sym, ap, ◌∙◌, Bool-cases, ltb→lt,
}
use mathlib.Core.Path.{subst}
use lumiere.Cycles.{present, Objects, is_drained, find_garbage, restore, push_all}
use lumiere.Cycles.Sums.{occurrences, sum, total, zero_or_positive, sum-total, total_split, listed}
use lumiere.Cycles.Reach.{edges, Reachable, Live}
use lumiere.Cycles.Restore.{restore_lem, restore_form}
use lumiere.Cycles.Garbage.{IsHeap, Finds, find_garbage_lem, below}
use lumiere.Cycles.Collector.{
  Runtime, forget_candidates, choose_roots, hold_up, delete_all, release, collect,
}
use lumiere.Cycles.Collector.Candidates.{
  occurrences_at, at_occurrences, forget_candidates_lem, choose_freed_lem, choose_roots_lem,
}
use lumiere.Cycles.Collector.Buffer.{IsBuffered}
use lumiere.Cycles.Collector.Sweep.{reaped, hold_up_lem, clear_all_lem, let_go_lem}

-- A runtime between two steps of the program, of n objects.
pub record IsReady (n : ℕ) (r : Runtime) : Type 0 where
  pub present : r.present ≡ true
  pub idle : r.collecting ≡ false
  pub buffered : IsBuffered r
  pub known : (x : ℕ) → r.objects.buffered x ≡ true → (x < n) × (0 < r.objects.count x)
  pub closed : (x y : ℕ) → x < n → 0 < edges r.references y x → y < n
  pub held : (y : ℕ) → total (edges r.references y) (λ _. true) n ≤ r.objects.count y
  pub fits : (y : ℕ) → r.objects.count y < 4294967295
  pub calm : (x : ℕ) → is_drained (r.objects.colour x) ≡ false

-- What a collection of the garbage leaves.
pub record IsCollected (n : ℕ) (r after : Runtime) (garbage : List ℕ) : Type 0 where
  pub deleted : after.deleted ≡ push_all r.deleted garbage
  pub once : (y : ℕ) → occurrences y garbage ≤ 1
  pub counts :
      (y : ℕ) → after.objects.count y + sum (edges r.references y) garbage ≡ r.objects.count y
  pub unreferenced :
      (y : ℕ) → 0 < occurrences y garbage → r.objects.count y ≡ sum (edges r.references y) garbage
  pub found :
      (y : ℕ)
      → Reachable r.references (choose_roots r.objects r.candidates) y
      → (0 < occurrences y garbage)
        ↔ ¬ Live r.references n r.objects.count (choose_roots r.objects r.candidates) y
  pub emptied : (x : ℕ) → 0 < occurrences x garbage → after.references x ≡ []
  pub others : (x : ℕ) → occurrences x garbage ≡ 0 → after.references x ≡ r.references x
  pub survives :
      (y : ℕ) → occurrences y garbage ≡ 0 → 0 < r.objects.count y → 0 < after.objects.count y
  pub ready : IsReady n after

module _ (n : ℕ) (r : Runtime) (ready : IsReady n r) where
  abbrev roots_of : List ℕ
  roots_of = choose_roots r.objects r.candidates

  abbrev unbuffered_of : Objects
  unbuffered_of = forget_candidates r.objects r.candidates

  candidate_known : (x : ℕ) → 0 < occurrences x r.candidates → (x < n) × (0 < r.objects.count x)
  candidate_known x h =
      let (i, e) = occurrences_at r.candidates x h in
      ready.known x (ready.buffered.slotted.owners i x e).0

  roots_below : (x : ℕ) → 0 < occurrences x roots_of → x < n
  roots_below x h = (candidate_known x (choose_roots_lem r.objects r.candidates x h)).0

  IsHeap-unbuffered : IsHeap r.references n unbuffered_of
  IsHeap-unbuffered =
      let (flags, is, inside, outside) = forget_candidates_lem r.objects r.candidates in
      subst (IsHeap r.references n) (sym is) (record {
        closed = ready.closed;
        held = ready.held;
        fits = λ y. omega (arith, ready.fits y);
        calm = ready.calm;
        unbuffered = λ x. elim (Bool-cases (r.objects.buffered x)) [
          | inl b ↦ inside x (
              at_occurrences r.candidates (r.objects.buffer_slot x) x
                (ready.buffered.slotted.slots x b))
          | inr b ↦ outside x b
        ];
      })

  count_same : unbuffered_of.count ≡ r.objects.count
  count_same =
      let (flags, is, inside, outside) = forget_candidates_lem r.objects r.candidates in
      ap (λ (o : Objects). o.count) is

  same_counts : (y : ℕ) → unbuffered_of.count y ≡ r.objects.count y
  same_counts y = ap (λ (c : ℕ → ℕ). c y) count_same

  abbrev Facts : Objects → List ℕ → Type 0
  Facts = Finds r.references n unbuffered_of roots_of IsHeap-unbuffered roots_below

  -- The garbage with its references counted again and one more on each.
  held_objects :
      (found : Objects) (garbage : List ℕ)
      → Facts found garbage
      → (count : ℕ → ℕ) × (hold_up (restore r.references found garbage) garbage
          ≡ record found { count = count })
        × ((y : ℕ) → count y ≡ r.objects.count y + occurrences y garbage)
  held_objects found garbage facts =
      let (restored, form) = restore_form r.references found garbage in
      let room : (y : ℕ) → found.count y + sum (edges r.references y) garbage ≤ 4294967295 =
        λ y. omega (arith, facts.counts y, same_counts y, ready.fits y) in
      let counts = restore_lem r.references found garbage room in
      let same : (y : ℕ) → restored y ≡ r.objects.count y = λ y.
        let e = ap (λ (o : Objects). o.count y) form in
        omega (arith, e, counts y, facts.counts y, same_counts y) in
      let (count, is, each) =
        hold_up_lem (record found { count = restored }) garbage
          (λ y. omega (arith, same y, ready.fits y, facts.once y)) in
      (count, ap (λ (o : Objects). hold_up o garbage) form ∙ is, λ y. omega (arith, each y, same y))

  abbrev busy : Objects → Runtime
  busy found = record r {
    objects = found;
    candidates = [];
    candidates_pending = 0;
    collecting = true;
  }

  -- The sweep, after what was found.
  sweep_lem :
      (fuel : ℕ) (found : Objects) (garbage : List ℕ)
      → find_garbage r.references n unbuffered_of roots_of ≡ some (found, garbage)
      → Facts found garbage
      → (less : ℕ → ℕ) × (left : ℕ → List (Option ℕ)) × (collect (suc fuel) n r
          ≡ some (
            length garbage,
            record (reaped
                (busy found)
                less
                left
                (r.live - length garbage)
                (push_all r.deleted garbage)) { collecting = false },
          ))
        × ((y : ℕ) → less y + sum (edges r.references y) garbage ≡ r.objects.count y)
        × ((x : ℕ) → 0 < occurrences x garbage → left x ≡ [])
        × ((x : ℕ) → occurrences x garbage ≡ 0 → left x ≡ r.references x)
  unfolding collect delete_all
  sweep_lem fuel found garbage finds facts =
      let (count, held_is, held) = held_objects found garbage facts in
      let room : (y : ℕ)
          → 0 < sum (edges r.references y) garbage
          → sum (edges r.references y) garbage < count y =
        λ y h. elim (zero_or_positive (occurrences y garbage)) [
          | inl out ↦ omega (arith, held y, facts.spared y out h, same_counts y)
          | inr inside ↦ omega (arith, held y, facts.unreferenced y inside, same_counts y)
        ] in
      let (less, left, cleared, rest, empty, others) =
        clear_all_lem (busy found) ready.present refl fuel r.references count r.references garbage
          facts.once (λ x _. refl) room (λ y. omega (arith, held y, ready.fits y, facts.once y)) in
      let single : (x : ℕ) → 0 < occurrences x garbage → less x ≡ 1 = λ x inside.
        omega (arith, rest x, held x, facts.unreferenced x inside, same_counts x, facts.once x) in
      let (final, last, dropped, each, same) =
        let_go_lem (busy found) ready.present (release (suc fuel)) less left r.live r.deleted
          garbage facts.once single empty in
      let guard : (not r.present || r.collecting) ≡ false = rw (ready.present, ready.idle) refl in
      let freed = choose_freed_lem r.objects r.candidates (λ x h. (candidate_known x h).1) in
      let whole : length garbage + 0 ≡ length garbage = omega arith in
      (
        final,
        last,
        rw (collect, guard, finds, held_is, cleared, dropped, freed, whole) refl,
        λ y. omega (arith, each y, rest y, held y),
        λ x h. same x ∙ empty x h,
        λ x h. same x ∙ others x h,
      )

  -- With the references of the garbage gone, what is left is still counted.
  IsReady-after :
      (found : Objects) (garbage : List ℕ)
      → Facts found garbage
      → (less : ℕ → ℕ) (left : ℕ → List (Option ℕ)) (live : ℕ) (deleted : List ℕ)
      → ((y : ℕ) → less y + sum (edges r.references y) garbage ≡ r.objects.count y)
      → ((x : ℕ) → 0 < occurrences x garbage → left x ≡ [])
      → ((x : ℕ) → occurrences x garbage ≡ 0 → left x ≡ r.references x)
      → IsReady n (record (reaped (busy found) less left live deleted) { collecting = false })
  unfolding occurrences present
  IsReady-after found garbage facts less left live deleted counts empty others =
      let gone : (y x : ℕ) → 0 < occurrences x garbage → edges left y x ≡ 0 =
        λ y x h. ap (λ (visited : List (Option ℕ)). occurrences y (present visited)) (empty x h) in
      let kept : (y x : ℕ) → occurrences x garbage ≡ 0 → edges left y x ≡ edges r.references y x =
        λ y x h. ap (λ (visited : List (Option ℕ)). occurrences y (present visited)) (others x h) in
      let inside : (x : ℕ) → 0 < occurrences x garbage → x < n = λ x h.
        below r.references n unbuffered_of roots_of IsHeap-unbuffered roots_below x
          (facts.reached x h) in
      record {
        present = ready.present;
        idle = refl;
        buffered = record {
          slotted = record {
            slots = λ x h. absurd (cc (h, facts.unbuffered x));
            owners = λ i x h. absurd (cc);
          };
          size = refl;
        };
        known = λ x h. absurd (cc (h, facts.unbuffered x));
        closed = λ x y h e. elim (zero_or_positive (occurrences x garbage)) [
          | inl out ↦ ready.closed x y h (omega (arith, e, kept y x out))
          | inr dead ↦ absurd (omega (arith, e, gone y x dead))
        ];
        held = λ y.
            let split =
              total_split (edges r.references y) (edges left y) (listed garbage) n
                (λ x h. gone y x (ltb→lt 0 (occurrences x garbage) h))
                (λ x h. kept y x (ground (arith, h))) in
            omega (
              arith,
              split,
              counts y,
              ready.held y,
              sum-total (edges r.references y) n garbage facts.once inside,
            );
        fits = λ y. omega (arith, counts y, ready.fits y);
        calm = facts.calm;
      }

  -- A collection of a runtime that is ready for it ends. It deletes garbage, each object once, whose every
  -- reference comes from garbage; of what its roots lead to, it deletes exactly what is not reached from
  -- an object with a reference from elsewhere. The counts lose the references of the garbage and no more,
  -- no other object that was counted comes to 0, the other objects keep their references, and the runtime
  -- is ready for the next collection.
  pub collect-IsCollected :
      (fuel : ℕ)
      → (garbage : List ℕ) × (after : Runtime) × (collect (suc fuel) n r
          ≡ some (length garbage, after))
        × IsCollected n r after garbage
  collect-IsCollected fuel =
      let (found, garbage, finds, facts) =
        find_garbage_lem r.references n unbuffered_of roots_of IsHeap-unbuffered roots_below in
      let (less, left, runs, counts, empty, others) = sweep_lem fuel found garbage finds facts in
      let live = r.live - length garbage in
      let deleted = push_all r.deleted garbage in
      (
        garbage,
        record (reaped (busy found) less left live deleted) { collecting = false },
        runs,
        record {
          deleted = refl;
          once = facts.once;
          counts = counts;
          unreferenced = λ y h. sym (same_counts y) ∙ facts.unreferenced y h;
          found = λ y path.
              subst (λ c. (0 < occurrences y garbage) ↔ ¬ Live r.references n c roots_of y)
                (count_same)
                (
                  facts.dead y,
                  λ dead. elim (facts.complete y path) [
                    | inl inside ↦ inside
                    | inr alive ↦ absurd (dead alive)
                  ],
                );
          emptied = empty;
          others = others;
          survives = λ y out more. elim (zero_or_positive (sum (edges r.references y) garbage)) [
            | inl unheld ↦ omega (arith, counts y, more)
            | inr referred ↦ omega (arith, counts y, facts.spared y out referred, same_counts y)
          ];
          ready = IsReady-after found garbage facts less left live deleted counts empty others;
        },
      )
