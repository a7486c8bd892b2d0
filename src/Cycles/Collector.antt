-- ===== src/Cycles/Collector.antt =====
-- One thread's collector (src/interpreter/runtime/cycles.cpp) with the counting of references
-- (include/lumiere/interpreter/runtime/ref.hpp): the candidate buffer, the release of a reference and
-- the collection. The candidates stand in the vector's order, its back at the end of the list.
pub mod Buffer
pub mod Release
pub mod Counted
pub mod Sweep
pub mod Candidates
pub mod Collected
use lumiere.Common.{
  ℕ, zero, suc, ◌+◌, ◌-◌, Bool, true, false, ◌&&◌, ◌||◌, not, Option, none, some, List, [], ◌∷◌,
  ◌++◌, length, ltb, ◌==◌, if◌then◌else◌,
}
use lumiere.Cycles.{
  RefColour, black, purple, is_black, is_purple, Objects, update, up, down, increment, decrement,
  paint, children_of, find_garbage, restore, ◌>>=◌,
}

pub record Runtime : Type 0 where
  pub objects : Objects
  -- what `trace_references` visits
  pub references : ℕ → List (Option ℕ)
  -- `m_acyclic`
  pub acyclic : ℕ → Bool
  -- whether this thread's collector exists (`g_collector`)
  pub present : Bool
  pub candidates : List ℕ
  pub candidates_pending : ℕ
  pub candidate_threshold : ℕ
  pub collecting : Bool
  pub live : ℕ
  -- the deleted objects, the latest first
  pub deleted : List ℕ

abbrev pub retain : Runtime → ℕ → Runtime
retain r object = record r { objects = paint (increment r.objects object) object black }

-- `candidates[slot] = object`
unfoldable pub set : List ℕ → ℕ → ℕ → List ℕ
set [] slot object = []
set (x ∷ xs) zero object = object ∷ xs
set (x ∷ xs) (suc slot) object = x ∷ set xs slot object

-- The back of an empty vector is never asked for.
unfoldable pub back : List ℕ → ℕ
back [] = 0
back (x ∷ []) = x
back (x ∷ y ∷ xs) = back (y ∷ xs)

unfoldable pub pop_back : List ℕ → List ℕ
pop_back [] = []
pop_back (x ∷ []) = []
pop_back (x ∷ y ∷ xs) = x ∷ pop_back (y ∷ xs)

abbrev pub buffer : Objects → ℕ → Bool → Objects
buffer o object flag = record o { buffered = update o.buffered object flag }

abbrev pub assign_slot : Objects → ℕ → ℕ → Objects
assign_slot o object slot = record o { buffer_slot = update o.buffer_slot object slot }

unfoldable pub note_possible_root : Runtime → ℕ → Runtime
note_possible_root r object =
    if not r.present || r.collecting || is_purple (r.objects.colour object)
    then r
    else let painted = paint r.objects object purple in
      if painted.buffered object then record r { objects = painted } else record r {
        objects = assign_slot (buffer painted object true) object (length r.candidates);
        candidates = r.candidates ++ object ∷ [];
        candidates_pending = length (r.candidates ++ object ∷ []);
      }

-- The part of `on_destroyed` before the object is deleted.
unfoldable pub leave_buffer : Runtime → ℕ → Runtime
leave_buffer r object =
    let o = paint r.objects object black in
    if not (o.buffered object && r.present)
    then record r { objects = o }
    else let slot = o.buffer_slot object in
      let last = back r.candidates in
      let shorter = pop_back (set r.candidates slot last) in
      record r {
        objects = buffer (assign_slot o last slot) object false;
        candidates = shorter;
        candidates_pending = length shorter;
      }

unfoldable pub release_each : (Runtime → ℕ → Option Runtime) → Runtime → List ℕ → Option Runtime
release_each release r [] = some r
release_each release r (child ∷ children) = do
  next ← release r child
  release_each release next children

-- `delete`: the destructor counts the object out and its fields release what they hold.
abbrev pub delete : (Runtime → ℕ → Option Runtime) → Runtime → ℕ → Option Runtime
delete release r object =
    release_each release
      (record r {
        live = if r.present then r.live - 1 else r.live;
        deleted = object ∷ r.deleted;
        references = update r.references object [];
      })
      (children_of r.references object)

-- `none` when the nested destructions are more than the fuel.
unfoldable pub release : ℕ → Runtime → ℕ → Option Runtime
release zero r object = none
release (suc fuel) r object =
    let dropped = record r { objects = decrement r.objects object } in
    elim (dropped.objects.count object == 0) [
      | true ↦ delete (release fuel) (leave_buffer dropped object) object
      | false ↦ some (if r.acyclic object then dropped else note_possible_root dropped object)
    ]

-- What an object's `clear_references` promises: it lets go of every reference that it holds.
abbrev pub clear_references : (Runtime → ℕ → Option Runtime) → Runtime → ℕ → Option Runtime
clear_references release r object =
    release_each release (record r { references = update r.references object [] })
      (children_of r.references object)

unfoldable pub forget_candidates : Objects → List ℕ → Objects
forget_candidates o [] = o
forget_candidates o (object ∷ candidates) = forget_candidates (buffer o object false) candidates

-- The candidates that are possible roots, in their order.
unfoldable pub choose_roots : Objects → List ℕ → List ℕ
choose_roots o [] = []
choose_roots o (candidate ∷ candidates) =
    let rest = choose_roots o candidates in
    if is_purple (o.colour candidate) && ltb 0 (o.count candidate) then candidate ∷ rest else rest

-- The candidates that lost their last reference while buffered.
unfoldable pub choose_freed : Objects → List ℕ → List ℕ
choose_freed o [] = []
choose_freed o (candidate ∷ candidates) =
    let rest = choose_freed o candidates in
    if is_purple (o.colour candidate) && ltb 0 (o.count candidate)
    then rest
    else if is_black (o.colour candidate) && (o.count candidate == 0)
    then candidate ∷ rest
    else rest

unfoldable pub hold_up : Objects → List ℕ → Objects
hold_up o [] = o
hold_up o (object ∷ garbage) = hold_up (increment o object) garbage

unfoldable pub clear_all : (Runtime → ℕ → Option Runtime) → Runtime → List ℕ → Option Runtime
clear_all release r [] = some r
clear_all release r (object ∷ garbage) = do
  next ← clear_references release r object
  clear_all release next garbage

unfoldable pub let_go : (Runtime → ℕ → Option Runtime) → Runtime → List ℕ → Option Runtime
let_go release r [] = some r
let_go release r (object ∷ garbage) =
    let dropped = record r { objects = decrement r.objects object } in
    elim (dropped.objects.count object == 0) [
      | true ↦ do next ← delete release dropped object; let_go release next garbage
      | false ↦ let_go release dropped garbage
    ]

unfoldable pub delete_all : (Runtime → ℕ → Option Runtime) → Runtime → List ℕ → Option Runtime
delete_all release r [] = some r
delete_all release r (object ∷ objects) = do
  next ← delete release r object
  delete_all release next objects

-- The objects are numbered below n.
unfoldable pub collect : ℕ → ℕ → Runtime → Option (ℕ × Runtime)
collect fuel n r =
    if not r.present || r.collecting
    then some (0, r)
    else let o = forget_candidates r.objects r.candidates in
      let roots = choose_roots r.objects r.candidates in
      let freed_early = choose_freed r.objects r.candidates in
      do
        found ← find_garbage r.references n o roots
        let garbage = found.1
        let held = hold_up (restore r.references found.0 garbage) garbage
        cleared ←
            clear_all (release fuel)
              (record r {
                objects = held;
                candidates = [];
                candidates_pending = 0;
                collecting = true;
              })
              garbage
        dropped ← let_go (release fuel) cleared garbage
        swept ← delete_all (release fuel) dropped freed_early
        some (length garbage + length freed_early, record swept { collecting = false })

unfoldable pub collect_cycles_if_due : ℕ → ℕ → Runtime → Option (ℕ × Runtime)
collect_cycles_if_due fuel n r =
    if ltb r.candidates_pending r.candidate_threshold then some (0, r) else collect fuel n r

-- The constructor of a counted object, which makes the thread's collector if there is none.
abbrev pub count_in : Runtime → Runtime
count_in r = record r { live = if r.present then r.live + 1 else 1; present = true }

abbrev pub live_count : Runtime → ℕ
live_count r = if r.present then r.live else 0

abbrev pub candidate_count : Runtime → ℕ
candidate_count r = if r.present then length r.candidates else 0

abbrev pub set_cycle_collection_threshold : Runtime → ℕ → Runtime
set_cycle_collection_threshold r candidates = record r { candidate_threshold = candidates }

-- The end of a thread: a last collection, after which no object believes that it is buffered.
abbrev pub tear_down : ℕ → ℕ → Runtime → Option Runtime
tear_down fuel n r = do
  collected ← collect fuel n r
  let last = collected.1
  some (record last {
    objects = forget_candidates last.objects last.candidates;
    candidates = [];
    candidates_pending = 0;
    present = false;
  })
