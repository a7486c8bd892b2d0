-- ===== src/Cycles.antt =====
-- The cycle collector's view of the heap (src/interpreter/runtime/cycles.cpp and
-- include/lumiere/interpreter/runtime/ref.hpp): objects are numbers, `references` lists what
-- `trace_references` visits, null references included, and the four walks of the collector change counts
-- and colours. A `std::vector` used as a stack has its back at the head of the list here.
pub mod Collector
mod Tests
pub mod Sums
pub mod Colours
pub mod Reach
pub mod Marking
pub mod MarkLoop
pub mod Scanning
pub mod ScanBlack
pub mod ScanLoop
pub mod Gathering
pub mod Restore
pub mod Garbage
pub mod Safety
use lumiere.Common.{
  ℕ, zero, suc, ◌+◌, ◌%◌, Bool, true, false, ◌&&◌, not, Option, none, some, List, [], ◌∷◌, ◌++◌,
  length, ltb, ◌==◌, if◌then◌else◌,
}

infixl 5 ◌>>=◌
abbrev pub ◌>>=◌ {ℓ κ} : {A : Type ℓ} {B : Type κ} → Option A → (A → Option B) → Option B
none >>= f = none
some a >>= f = f a

pub data RefColour : Type 0 where
  black : RefColour
  grey : RefColour
  white : RefColour
  purple : RefColour

abbrev pub is_black : RefColour → Bool
is_black black = true
is_black grey = false
is_black white = false
is_black purple = false

abbrev pub is_grey : RefColour → Bool
is_grey black = false
is_grey grey = true
is_grey white = false
is_grey purple = false

abbrev pub is_white : RefColour → Bool
is_white black = false
is_white grey = false
is_white white = true
is_white purple = false

abbrev pub is_purple : RefColour → Bool
is_purple black = false
is_purple grey = false
is_purple white = false
is_purple purple = true

-- Its references were taken off the counts.
abbrev pub is_drained : RefColour → Bool
is_drained black = false
is_drained grey = true
is_drained white = true
is_drained purple = false

-- The collector's fields of every object.
pub record Objects : Type 0 where
  pub count : ℕ → ℕ
  pub colour : ℕ → RefColour
  pub buffered : ℕ → Bool
  pub buffer_slot : ℕ → ℕ

abbrev pub update {ℓ} : {A : Type ℓ} → (ℕ → A) → ℕ → A → ℕ → A
update f object a x = if object == x then a else f x

-- `++` and `--` on a `std::uint32_t`
unfoldable pub up : ℕ → ℕ
up count = (count + 1) % 4294967296

unfoldable pub down : ℕ → ℕ
down count = (count + 4294967295) % 4294967296

abbrev pub increment : Objects → ℕ → Objects
increment o object = record o { count = update o.count object (up (o.count object)) }

abbrev pub decrement : Objects → ℕ → Objects
decrement o object = record o { count = update o.count object (down (o.count object)) }

abbrev pub paint : Objects → ℕ → RefColour → Objects
paint o object colour = record o { colour = update o.colour object colour }

-- The null references are left out.
unfoldable pub present : List (Option ℕ) → List ℕ
present [] = []
present (none ∷ visited) = present visited
present (some child ∷ visited) = child ∷ present visited

abbrev pub children_of : (ℕ → List (Option ℕ)) → ℕ → List ℕ
children_of references object = present (references object)

unfoldable pub mark_children : Objects → List ℕ → List ℕ → Objects × List ℕ
mark_children o pending [] = (o, pending)
mark_children o pending (child ∷ children) = elim (is_grey (o.colour child)) [
  | true ↦ mark_children (decrement o child) pending children
  | false ↦ mark_children (paint (decrement o child) child grey) (child ∷ pending) children
]

unfoldable pub blacken_children : Objects → List ℕ → List ℕ → Objects × List ℕ
blacken_children o pending [] = (o, pending)
blacken_children o pending (child ∷ children) = elim (is_black (o.colour child)) [
  | true ↦ blacken_children (increment o child) pending children
  | false ↦ blacken_children (paint (increment o child) child black) (child ∷ pending) children
]

-- `push_back` of each child in turn
unfoldable pub push_all : List ℕ → List ℕ → List ℕ
push_all pending [] = pending
push_all pending (child ∷ children) = push_all (child ∷ pending) children

-- The references that `mark_grey` took off the counts are put back, for the children of one object.
unfoldable pub restore_children : Objects → List ℕ → Objects
restore_children o [] = o
restore_children o (child ∷ children) = restore_children (increment o child) children

-- The loops of the walks: `none` when the rounds run out.
module _ (references : ℕ → List (Option ℕ)) where
  -- how many references the first n objects hold
  unfoldable pub reference_count : ℕ → ℕ
  reference_count zero = 0
  reference_count (suc n) = length (children_of references n) + reference_count n

  unfoldable pub mark_loop : ℕ → Objects → List ℕ → Option Objects
  mark_loop rounds o [] = some o
  mark_loop zero o (object ∷ pending) = none
  mark_loop (suc rounds) o (object ∷ pending) =
      let (marked, more) = mark_children o pending (children_of references object) in
      mark_loop rounds marked more

  unfoldable pub mark_grey : ℕ → Objects → ℕ → Option Objects
  mark_grey rounds o root = elim (is_grey (o.colour root)) [
    | true ↦ some o
    | false ↦ mark_loop rounds (paint o root grey) (root ∷ [])
  ]

  unfoldable pub black_loop : ℕ → Objects → List ℕ → Option Objects
  black_loop rounds o [] = some o
  black_loop zero o (object ∷ pending) = none
  black_loop (suc rounds) o (object ∷ pending) =
      let (restored, more) = blacken_children o pending (children_of references object) in
      black_loop rounds restored more

  abbrev pub scan_black : ℕ → Objects → ℕ → Option Objects
  scan_black rounds o root = black_loop rounds (paint o root black) (root ∷ [])

  -- `inner` rounds are given to each `scan_black`.
  unfoldable pub scan_loop : ℕ → ℕ → Objects → List ℕ → Option Objects
  scan_loop inner rounds o [] = some o
  scan_loop inner zero o (object ∷ pending) = none
  scan_loop inner (suc rounds) o (object ∷ pending) = elim (is_grey (o.colour object)) [
    | false ↦ scan_loop inner rounds o pending
    | true ↦ elim (ltb 0 (o.count object)) [
      | true ↦ elim (scan_black inner o object) [
        | none ↦ none
        | some restored ↦ scan_loop inner rounds restored pending
      ]
      | false ↦
          scan_loop inner rounds (paint o object white)
            (push_all pending (children_of references object))
    ]
  ]

  abbrev pub scan : ℕ → ℕ → Objects → ℕ → Option Objects
  scan inner rounds o root = scan_loop inner rounds o (root ∷ [])

  unfoldable pub gather_loop : ℕ → Objects → List ℕ → List ℕ → Option (Objects × List ℕ)
  gather_loop rounds o garbage [] = some (o, garbage)
  gather_loop zero o garbage (object ∷ pending) = none
  gather_loop (suc rounds) o garbage (object ∷ pending) =
      elim (is_white (o.colour object) && not (o.buffered object)) [
        | false ↦ gather_loop rounds o garbage pending
        | true ↦
            gather_loop rounds (paint o object black) (garbage ++ object ∷ [])
              (push_all pending (children_of references object))
      ]

  abbrev pub gather_white : ℕ → Objects → ℕ → List ℕ → Option (Objects × List ℕ)
  gather_white rounds o root garbage = gather_loop rounds o garbage (root ∷ [])

  -- The three passes of `collect` over its roots.
  unfoldable pub mark_all : ℕ → Objects → List ℕ → Option Objects
  mark_all rounds o [] = some o
  mark_all rounds o (root ∷ roots) = do
    marked ← mark_grey rounds o root
    mark_all rounds marked roots

  unfoldable pub scan_all : ℕ → ℕ → Objects → List ℕ → Option Objects
  scan_all inner rounds o [] = some o
  scan_all inner rounds o (root ∷ roots) = do
    scanned ← scan inner rounds o root
    scan_all inner rounds scanned roots

  unfoldable pub gather_all : ℕ → Objects → List ℕ → List ℕ → Option (Objects × List ℕ)
  gather_all rounds o garbage [] = some (o, garbage)
  gather_all rounds o garbage (root ∷ roots) = do
    gathered ← gather_white rounds o root garbage
    gather_all rounds gathered.0 gathered.1 roots

  -- What `collect` does between the choice of its roots and the breaking of links, up to the counts.
  unfoldable pub find_garbage : ℕ → Objects → List ℕ → Option (Objects × List ℕ)
  find_garbage n o roots = do
    marked ← mark_all n o roots
    scanned ← scan_all n (suc (reference_count n)) marked roots
    gather_all (suc (reference_count n)) scanned [] roots

  -- and for all garbage
  unfoldable pub restore : Objects → List ℕ → Objects
  restore o [] = o
  restore o (object ∷ garbage) =
      restore (restore_children o (children_of references object)) garbage
