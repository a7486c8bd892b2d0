-- ===== src/Cycles/Tests.antt =====
-- A small heap: two objects that hold each other, one of them holding a third that is also held from
-- outside.
use lumiere.Common.{
  ℕ, zero, suc, ◌≤◌, ◌<◌, ◌≡◌, refl, ◌↔◌, true, false, Option, none, some, List, [], ◌∷◌, length,
  get_elem?, neq→==, ◌==◌, if◌then◌else◌, arith,
}
use mathlib.Core.Option.{some-injective}
use lumiere.Cycles.{
  RefColour, black, purple, Objects, present, find_garbage, restore, restore_children, mark_all,
  mark_grey, mark_loop, mark_children, scan_all, scan_loop, black_loop, blacken_children,
  gather_all, gather_loop, push_all, reference_count, up, down,
}
use lumiere.Cycles.Sums.{occurrences, sum, total}
use lumiere.Cycles.Reach.{edges, Reachable, root, step, Live}
use lumiere.Cycles.Garbage.{IsHeap}
use lumiere.Cycles.Safety.{find_garbage_ends, garbage-unreferenced, restore-count, garbage-Live}
use lumiere.Cycles.Collector.{
  Runtime, note_possible_root, leave_buffer, collect, release, release_each, choose_roots,
  choose_freed, forget_candidates, back, pop_back, set, clear_all, let_go, delete_all, hold_up,
}
use lumiere.Cycles.Collector.Buffer.{
  IsBuffered, note_possible_root-IsBuffered, leave_buffer-IsBuffered,
}
use lumiere.Cycles.Collector.Counted.{IsCounted, release-IsCounted}
use lumiere.Cycles.Collector.Collected.{IsReady, IsCollected, collect-IsCollected}

abbrev held : ℕ → List (Option ℕ)
held x = if x == 0 then some 1 ∷ none ∷ [] else if x == 1 then some 0 ∷ some 2 ∷ [] else []

abbrev counts : ℕ → ℕ
counts x = if x == 0 then 1 else if x == 1 then 1 else if x == 2 then 2 else 0

abbrev colours : ℕ → RefColour
colours x = if x == 0 then purple else black

abbrev heap : Objects
heap = record { count = counts; colour = colours; buffered = λ x. false; buffer_slot = λ x. 0 }

-- The count of object 2 lacks the reference of the garbage, as `gather_white` leaves it.
count_of : Option (Objects × List ℕ) → ℕ → ℕ
count_of none x = 0
count_of (some (o, garbage)) x = o.count x

garbage_in : Option (Objects × List ℕ) → List ℕ
garbage_in none = []
garbage_in (some (o, garbage)) = garbage

found_garbage : garbage_in (find_garbage held 3 heap (0 ∷ [])) ≡ 0 ∷ 1 ∷ []
unfolding garbage_in find_garbage mark_all mark_grey mark_loop mark_children scan_all scan_loop
    black_loop blacken_children gather_all gather_loop push_all reference_count up down present
found_garbage = refl

found_count : count_of (find_garbage held 3 heap (0 ∷ [])) 2 ≡ 1
unfolding count_of find_garbage mark_all mark_grey mark_loop mark_children scan_all scan_loop
    black_loop blacken_children gather_all gather_loop push_all reference_count up down present
found_count = refl

heap-IsHeap : IsHeap held 3 heap
unfolding occurrences total present
heap-IsHeap = record {
  closed = λ x y h e. ground arith;
  held = λ y. ground arith;
  fits = λ y. ground arith;
  calm = λ x. ground arith;
  unbuffered = λ x. refl;
}

within_heap : (x : ℕ) → 0 < occurrences x (0 ∷ []) → x < 3
unfolding occurrences
within_heap x h = ground arith

find_garbage_ends_example :
    (found : Objects) × (garbage : List ℕ) × (find_garbage held 3 heap (0 ∷ [])
      ≡ some (found, garbage))
    × ((y : ℕ) → occurrences y garbage ≤ 1)
find_garbage_ends_example = find_garbage_ends held 3 heap (0 ∷ []) heap-IsHeap within_heap

objects_in : Option (Objects × List ℕ) → Objects
objects_in none = heap
objects_in (some (o, garbage)) = o

abbrev found_objects : Objects
found_objects = objects_in (find_garbage held 3 heap (0 ∷ []))

found_all : find_garbage held 3 heap (0 ∷ []) ≡ some (found_objects, 0 ∷ 1 ∷ [])
unfolding objects_in find_garbage mark_all mark_grey mark_loop mark_children scan_all scan_loop
    black_loop blacken_children gather_all gather_loop push_all reference_count up down present
found_all = refl

one_inside : 0 < occurrences 1 (0 ∷ 1 ∷ [])
unfolding occurrences
one_inside = ground arith

reached_2 : Reachable held (0 ∷ []) 2
unfolding occurrences present
reached_2 = step {x = 1} (step {x = 0} (root (ground arith)) (ground arith)) (ground arith)

garbage-unreferenced_example : heap.count 1 ≡ sum (edges held 1) (0 ∷ 1 ∷ [])
garbage-unreferenced_example =
    garbage-unreferenced held 3 heap (0 ∷ []) heap-IsHeap within_heap found_objects (0 ∷ 1 ∷ [])
      found_all 1 one_inside

restore-count_example : (restore held found_objects (0 ∷ 1 ∷ [])).count 2 ≡ heap.count 2
restore-count_example =
    restore-count held 3 heap (0 ∷ []) heap-IsHeap within_heap found_objects (0 ∷ 1 ∷ []) found_all
      2

garbage-Live_example : (0 < occurrences 2 (0 ∷ 1 ∷ [])) ↔ ¬ Live held 3 heap.count (0 ∷ []) 2
garbage-Live_example =
    garbage-Live held 3 heap (0 ∷ []) heap-IsHeap within_heap found_objects (0 ∷ 1 ∷ []) found_all 2
      reached_2

abbrev runtime : Runtime
runtime = record {
  objects = record heap { buffered = λ x. x == 0 };
  references = held;
  acyclic = λ x. false;
  present = true;
  candidates = 0 ∷ [];
  candidates_pending = 1;
  candidate_threshold = 4096;
  collecting = false;
  live = 3;
  deleted = [];
}

only_owner : (i x : ℕ) → get_elem? (0 ∷ []) i ≡ some x → ((x == 0) ≡ true) × (0 ≡ i)
only_owner zero x h = let e = some-injective 0 x h in (ground (arith, e), refl)
only_owner (suc i) x h = absurd (cc)

runtime-IsBuffered : IsBuffered runtime
runtime-IsBuffered = record {
  slotted = record { slots = λ x h. ground arith; owners = λ i x h. only_owner i x h };
  size = refl;
}

runtime-IsReady : IsReady 3 runtime
runtime-IsReady = record {
  present = refl;
  idle = refl;
  buffered = runtime-IsBuffered;
  known = λ x h. (ground arith, ground arith);
  closed = heap-IsHeap.closed;
  held = heap-IsHeap.held;
  fits = λ y. ground arith;
  calm = heap-IsHeap.calm;
}

collect-IsCollected_example :
    (garbage : List ℕ) × (after : Runtime) × (collect 1 3 runtime ≡ some (length garbage, after))
    × IsCollected 3 runtime after garbage
collect-IsCollected_example = collect-IsCollected 3 runtime runtime-IsReady 0

note_possible_root-IsBuffered_example : IsBuffered (note_possible_root runtime 2)
note_possible_root-IsBuffered_example = note_possible_root-IsBuffered runtime 2 runtime-IsBuffered

leave_buffer-IsBuffered_example :
    IsBuffered (leave_buffer runtime 0) × ((leave_buffer runtime 0).objects.buffered 0 ≡ false)
leave_buffer-IsBuffered_example = leave_buffer-IsBuffered runtime 0 refl runtime-IsBuffered

-- Object 0 refers to object 1, and nothing else is there.
abbrev chain : Runtime
chain = record runtime {
  objects = record heap { count = λ x. if x == 0 then 1 else if x == 1 then 1 else 0 };
  references = λ x. if x == 0 then some 1 ∷ [] else [];
  candidates = [];
  candidates_pending = 0;
}

chain-IsCounted : IsCounted 3 (0 ∷ []) chain
unfolding total occurrences present
chain-IsCounted = record {
  present = refl;
  ordered = record {
    slotted = record { slots = λ x h. absurd (cc); owners = λ i x h. absurd (cc) };
    size = refl;
  };
  outside = λ x over. rw (neq→== x 0 (λ e. omega (arith, e, over))) refl;
  held = λ y. ground arith;
  fits = λ y. ground arith;
  dead = λ x gone. absurd (omega (arith, gone));
}

release-IsCounted_example : (next : Runtime) × (release 4 chain 0 ≡ some next) × IsCounted 3 [] next
release-IsCounted_example = release-IsCounted 3 chain 0 [] chain-IsCounted

deleted_by : Option (ℕ × Runtime) → List ℕ
deleted_by none = []
deleted_by (some (reclaimed, after)) = after.deleted

-- The collection deletes the two.
collected_runtime : deleted_by (collect 1 3 runtime) ≡ 1 ∷ 0 ∷ []
unfolding deleted_by collect find_garbage mark_all choose_roots mark_grey forget_candidates
    mark_loop mark_children present scan_all scan_loop down push_all reference_count black_loop
    blacken_children back choose_freed clear_all delete_all hold_up leave_buffer let_go
    note_possible_root pop_back release release_each set gather_all gather_loop restore
    restore_children up
collected_runtime = refl
