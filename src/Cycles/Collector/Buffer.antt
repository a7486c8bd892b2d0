-- ===== src/Cycles/Collector/Buffer.antt =====
-- The candidate buffer: every buffered object knows its slot, entering and leaving the buffer.
use lumiere.Common.{
  ℕ, zero, suc, ◌+◌, ◌-◌, ◌<◌, ◌≡◌, refl, ◌≢◌, Bool, true, false, ◌||◌, not, none, some, List, [],
  ◌∷◌, ◌++◌, length, get_elem?, ltb, ◌==◌, if◌then◌else◌, arith, inl, inr, sym, ap, ◌∙◌, Bool-cases,
  ==→eq, ==→neq, ==_refl, neq→==, lt→ltb, ltb→lt,
}
use mathlib.Core.Option.{some-injective}
use lumiere.Cycles.{is_purple, update}
use lumiere.Cycles.Collector.{Runtime, set, back, pop_back, note_possible_root, leave_buffer}

-- Each buffered object stands at its slot, and each entry is buffered and knows that slot.
pub record IsSlotted (flags : ℕ → Bool) (places : ℕ → ℕ) (candidates : List ℕ) : Type 0 where
  pub slots : (x : ℕ) → flags x ≡ true → get_elem? candidates (places x) ≡ some x
  pub owners : (i x : ℕ) → get_elem? candidates i ≡ some x → (flags x ≡ true) × (places x ≡ i)

pub record IsBuffered (r : Runtime) : Type 0 where
  pub slotted : IsSlotted r.objects.buffered r.objects.buffer_slot r.candidates
  pub size : r.candidates_pending ≡ length r.candidates

get_elem?_below : (xs : List ℕ) (i x : ℕ) → get_elem? xs i ≡ some x → i < length xs
get_elem?_below [] i x h = absurd (cc)
get_elem?_below (y ∷ ys) zero x h = omega arith
get_elem?_below (y ∷ ys) (suc i) x h = omega (arith, get_elem?_below ys i x h)

get_elem?_last :
    (xs : List ℕ) (x i : ℕ)
    → get_elem? (xs ++ x ∷ []) i ≡ (if i == length xs then some x else get_elem? xs i)
get_elem?_last [] x zero = refl
get_elem?_last [] x (suc i) = ground arith
get_elem?_last (y ∷ ys) x zero = ground arith
get_elem?_last (y ∷ ys) x (suc i) = ground (arith, get_elem?_last ys x i)

get_elem?-set :
    (xs : List ℕ) (slot v i : ℕ)
    → slot < length xs
    → get_elem? (set xs slot v) i ≡ (if slot == i then some v else get_elem? xs i)
unfolding set
get_elem?-set [] slot v i h = absurd (omega arith)
get_elem?-set (x ∷ xs) zero v zero h = refl
get_elem?-set (x ∷ xs) zero v (suc i) h = ground arith
get_elem?-set (x ∷ xs) (suc slot) v zero h = ground arith
get_elem?-set (x ∷ xs) (suc slot) v (suc i) h =
    ground (arith, get_elem?-set xs slot v i (omega arith))

length-set : (xs : List ℕ) (slot v : ℕ) → length (set xs slot v) ≡ length xs
unfolding set
length-set [] slot v = refl
length-set (x ∷ xs) zero v = refl
length-set (x ∷ xs) (suc slot) v = ap suc (length-set xs slot v)

get_elem?-pop_back :
    (xs : List ℕ) (i : ℕ)
    → get_elem? (pop_back xs) i ≡ (if ltb (i + 1) (length xs) then get_elem? xs i else none)
unfolding pop_back
get_elem?-pop_back [] i = ground arith
get_elem?-pop_back (x ∷ []) i = ground arith
get_elem?-pop_back (x ∷ y ∷ xs) zero = ground arith
get_elem?-pop_back (x ∷ y ∷ xs) (suc i) = ground (arith, get_elem?-pop_back (y ∷ xs) i)

get_elem?-back : (xs : List ℕ) → 0 < length xs → get_elem? xs (length xs - 1) ≡ some (back xs)
unfolding back
get_elem?-back [] h = absurd (omega arith)
get_elem?-back (x ∷ []) h = refl
get_elem?-back (x ∷ y ∷ xs) h = ground (arith, get_elem?-back (y ∷ xs) (omega arith))

length-snoc : (xs : List ℕ) (x : ℕ) → length (xs ++ x ∷ []) ≡ length xs + 1
length-snoc [] x = omega arith
length-snoc (y ∷ ys) x = omega (arith, length-snoc ys x)

same_entry :
    (xs : List ℕ) (i j x y : ℕ) → get_elem? xs i ≡ some x → get_elem? xs j ≡ some y → i ≡ j → x ≡ y
same_entry xs i j x y h k e = some-injective x y (sym h ∙ ap (get_elem? xs) e ∙ k)

module _ (flags : ℕ → Bool) (places : ℕ → ℕ) (candidates : List ℕ) (object : ℕ)
    (b : IsSlotted flags places candidates) where
  -- An object that is not buffered takes the next slot.
  IsSlotted-enter :
      flags object ≡ false
      → IsSlotted
          (update flags object true)
          (update places object (length candidates))
          (candidates ++ object ∷ [])
  IsSlotted-enter out = record {
    slots = λ x h. elim (Bool-cases (object == x)) [
      | inl here ↦
          let e = ==→eq object x here in
          ground (arith, e, here, get_elem?_last candidates object (length candidates))
      | inr other ↦
          let found = b.slots x (rw (other) at h) in
          let under = get_elem?_below candidates (places x) x found in
          rw
            (
              other,
              get_elem?_last candidates object (places x),
              neq→== (places x) (length candidates) (λ e. omega (arith, e, under)),
            )
            found
    ];
    owners = λ i x h. elim (Bool-cases (i == length candidates)) [
      | inl end ↦
          let e = ==→eq i (length candidates) end in
          let same : some object ≡ some x = rw (get_elem?_last candidates object i, end) at h in
          let here = some-injective object x same in
          let hit : (object == x) ≡ true = ground (arith, here) in (rw (hit) refl, rw (hit) (sym e))
      | inr before ↦
          let old : get_elem? candidates i ≡ some x =
            rw (get_elem?_last candidates object i, before) at h in
          let (flag, place) = b.owners i x old in
          let apart = neq→== object x (λ e. absurd (cc (out, flag, ap flags e))) in
          (rw (apart) flag, rw (apart) place)
    ];
  }

  -- A buffered object leaves: the last entry moves into its slot.
  IsSlotted-leave :
      flags object ≡ true
      → IsSlotted
          (update flags object false)
          (update places (back candidates) (places object))
          (pop_back (set candidates (places object) (back candidates)))
  IsSlotted-leave inside =
      let slot = places object in
      let last = back candidates in
      let at_slot = b.slots object inside in
      let under = get_elem?_below candidates slot object at_slot in
      let at_end = get_elem?-back candidates (omega arith) in
      let (last_flag, last_place) = b.owners (length candidates - 1) last at_end in
      let entry : (i : ℕ)
          → get_elem? (pop_back (set candidates slot last)) i ≡ (
              if ltb (i + 1) (length candidates)
              then (if slot == i then some last else get_elem? candidates i)
              else none) =
        λ i.
          rw
            (
              get_elem?-pop_back (set candidates slot last) i,
              length-set candidates slot last,
              get_elem?-set candidates slot last i under,
            )
            refl in
      record {
        slots = λ x h. elim (Bool-cases (object == x)) [
          | inl gone ↦ absurd (cc (rw (gone) at h))
          | inr kept ↦
              let found = b.slots x (rw (kept) at h) in
              let apart = ==→neq object x kept in
              elim (Bool-cases (last == x)) [
                | inl moved ↦
                    let e = ==→eq last x moved in
                    let inner : slot + 1 < length candidates = ground (
                      arith,
                      under,
                      at_end,
                      at_slot,
                      e,
                      apart,
                      same_entry candidates slot (length candidates - 1) object last at_slot at_end,
                    ) in
                    rw
                      (moved, entry slot, lt→ltb (slot + 1) (length candidates) inner, ==_refl slot)
                      (ap some e)
                | inr stays ↦
                    let at_x = get_elem?_below candidates (places x) x found in
                    let not_end : places x ≢ length candidates - 1 = λ q. ==→neq last x stays (
                      sym (
                        same_entry candidates (places x) (length candidates - 1) x last found at_end
                          q)) in
                    let not_slot = neq→== slot (places x) (λ q.
                      apart (same_entry candidates slot (places x) object x at_slot found q)) in
                    rw
                      (
                        stays,
                        entry (places x),
                        lt→ltb (places x + 1) (length candidates) (omega (arith, at_x, not_end)),
                        not_slot,
                      )
                      found
              ]
        ];
        owners = λ i x h. elim (Bool-cases (ltb (i + 1) (length candidates))) [
          | inr over ↦ absurd (cc (rw (entry i, over) at h))
          | inl inner ↦
              let low = ltb→lt (i + 1) (length candidates) inner in
              elim (Bool-cases (slot == i)) [
                | inl here ↦
                    let e = ==→eq slot i here in
                    let same : some last ≡ some x = rw (entry i, inner, here) at h in
                    let moved = some-injective last x same in
                    let hit : (last == x) ≡ true = ground (arith, moved) in
                    let apart =
                      neq→== object x (λ q.
                        omega (arith, low, e, last_place, under, ap places (q ∙ sym moved))) in
                    (rw (apart) (sym (ap flags moved) ∙ last_flag), rw (hit) e)
                | inr elsewhere ↦
                    let old : get_elem? candidates i ≡ some x =
                      rw (entry i, inner, elsewhere) at h in
                    let (flag, place) = b.owners i x old in
                    let apart =
                      neq→== object x (λ q. ==→neq slot i elsewhere (ap places q ∙ place)) in
                    let other =
                      neq→== last x (λ q. omega (arith, low, last_place, place, ap places q)) in
                    (rw (apart) flag, rw (other) place)
              ]
        ];
      }

-- Queueing a possible root keeps the buffer in order: each buffered object stands at the slot that it
-- knows, each entry is buffered, and the number of candidates is the buffer's length.
pub note_possible_root-IsBuffered :
    (r : Runtime) (object : ℕ) → IsBuffered r → IsBuffered (note_possible_root r object)
unfolding note_possible_root
note_possible_root-IsBuffered r object b =
    elim (Bool-cases (not r.present || r.collecting || is_purple (r.objects.colour object))) [
      | inl skips ↦ rw (skips, note_possible_root) b
      | inr notes ↦ elim (Bool-cases (r.objects.buffered object)) [
        | inl old ↦
            rw (notes, old, note_possible_root) (record { slotted = b.slotted; size = b.size })
        | inr new ↦
            rw (notes, new, note_possible_root)
              (record {
                slotted =
                    IsSlotted-enter r.objects.buffered r.objects.buffer_slot r.candidates object
                      b.slotted new;
                size = refl;
              })
      ]
    ]

-- An object that leaves the buffer of an existing collector keeps the others in order, the one that
-- moves into its slot included, and is not buffered afterwards.
pub leave_buffer-IsBuffered :
    (r : Runtime) (object : ℕ)
    → r.present ≡ true
    → IsBuffered r
    → IsBuffered (leave_buffer r object) × ((leave_buffer r object).objects.buffered object ≡ false)
unfolding leave_buffer
leave_buffer-IsBuffered r object here b = elim (Bool-cases (r.objects.buffered object)) [
  | inr out ↦ (
    rw (out, leave_buffer) (record { slotted = b.slotted; size = b.size }),
    rw (out, leave_buffer) out,
  )
  | inl inside ↦ (
    rw (inside, here, leave_buffer)
        (record {
          slotted =
              IsSlotted-leave r.objects.buffered r.objects.buffer_slot r.candidates object b.slotted
                inside;
          size = refl;
        }),
    rw (inside, here, leave_buffer, ==_refl object) refl,
  )
]
