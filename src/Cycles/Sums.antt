-- ===== src/Cycles/Sums.antt =====
-- Sums over the objects below a bound that pass a test.
use lumiere.Common.{
  ℕ, zero, suc, ◌+◌, ◌≤◌, ◌<◌, ◌≡◌, refl, ◌≢◌, Bool, true, false, List, [], ◌∷◌, ◌==◌,
  if◌then◌else◌, arith, Bool-cases, ==→eq, ==→neq, ==_refl, neq→==, ltb, All, ◌++◌, inl, inr, sym,
  ap, ◌∙◌, ◌⊎◌,
}

-- how many of a list are this object
unfoldable pub occurrences : ℕ → List ℕ → ℕ
occurrences object [] = 0
occurrences object (x ∷ xs) =
    if object == x then suc (occurrences object xs) else occurrences object xs

module _ (f : ℕ → ℕ) where
  -- the sum of f over the objects below n that pass the test
  unfoldable pub total : (ℕ → Bool) → ℕ → ℕ
  total test zero = 0
  total test (suc n) = if test n then f n + total test n else total test n

  -- the sum of f over a list
  unfoldable pub sum : List ℕ → ℕ
  sum [] = 0
  sum (x ∷ xs) = f x + sum xs

  pub total_same : (s t : ℕ → Bool) (n : ℕ) → ((x : ℕ) → x < n → s x ≡ t x) → total s n ≡ total t n
  unfolding total
  total_same s t zero same = refl
  total_same s t (suc n) same =
      let rest = total_same s t n (λ x h. same x (omega arith)) in
      rw (same n (omega arith), rest) refl

  -- One object more passes the test.
  pub total_more :
      (s t : ℕ → Bool) (u n : ℕ)
      → u < n
      → s u ≡ false
      → t u ≡ true
      → ((x : ℕ) → x ≢ u → s x ≡ t x)
      → total t n ≡ f u + total s n
  unfolding total
  total_more s t u zero h was is same = absurd (omega arith)
  total_more s t u (suc n) h was is same = elim (Bool-cases (u == n)) [
    | inl here ↦
        let e = ==→eq u n here in
        let below = total_same s t n (λ x under. same x (omega (arith, e))) in
        ground (arith, e, below)
    | inr other ↦
        let apart = ==→neq u n other in
        let below = total_more s t u n (omega (arith, apart)) was is same in
        ground (arith, apart, below, same n (omega (arith, apart)))
  ]

  -- Another test counts as much where it covers all that f counts.
  pub total_le :
      (s t : ℕ → Bool) (n : ℕ)
      → ((x : ℕ) → s x ≡ true → (t x ≡ true) ⊎ (f x ≡ 0))
      → total s n ≤ total t n
  unfolding total
  total_le s t zero within = omega arith
  total_le s t (suc n) within =
      let rest = total_le s t n within in
      elim (Bool-cases (s n)) [
        | inl inside ↦ elim (within n inside) [
          | inl covered ↦ ground (arith, inside, covered, rest)
          | inr nothing ↦ ground (arith, inside, nothing, rest)
        ]
        | inr outside ↦ ground (arith, outside, rest)
      ]

  -- An object that fails a test adds its share to all.
  pub total_strict :
      (s : ℕ → Bool) (u n : ℕ) → u < n → s u ≡ false → f u + total s n ≤ total (λ _. true) n
  total_strict s u n h was =
      let t : ℕ → Bool = λ x. if u == x then true else s x in
      omega (
        arith,
        total_more s t u n h was (rw (==_refl u) refl)
            (λ x apart. rw (neq→== u x (λ e. apart (sym e))) refl),
        total_le t (λ _. true) n (λ x _. inl refl),
      )

  pub sum-append : (xs ys : List ℕ) → sum (xs ++ ys) ≡ sum xs + sum ys
  unfolding sum
  sum-append [] ys = omega arith
  sum-append (x ∷ xs) ys = omega (arith, sum-append xs ys)

  pub total_ends : (s : ℕ → Bool) (n : ℕ) → ((x : ℕ) → f x ≤ 1) → total s n ≤ n
  unfolding total
  total_ends s zero small = omega arith
  total_ends s (suc n) small = ground (arith, small n, total_ends s n small)

  pub total_none : (s : ℕ → Bool) (n : ℕ) → ((x : ℕ) → s x ≡ false) → total s n ≡ 0
  unfolding total
  total_none s zero empty = refl
  total_none s (suc n) empty = ground (arith, empty n, total_none s n empty)

pub occurrences_here : (x : ℕ) (xs : List ℕ) → occurrences x (x ∷ xs) ≡ suc (occurrences x xs)
unfolding occurrences
occurrences_here x xs = rw (==_refl x, occurrences) refl

pub occurrences_other : (y x : ℕ) (xs : List ℕ) → y ≢ x → occurrences y (x ∷ xs) ≡ occurrences y xs
unfolding occurrences
occurrences_other y x xs apart = rw (neq→== y x apart, occurrences) refl

pub occurrences-append :
    (y : ℕ) (xs ys : List ℕ) → occurrences y (xs ++ ys) ≡ occurrences y xs + occurrences y ys
unfolding occurrences
occurrences-append y [] ys = omega arith
occurrences-append y (x ∷ xs) ys = ground (arith, occurrences-append y xs ys)

pub All-occurrences {ℓ} :
    (P : ℕ → Type ℓ) (xs : List ℕ) → ((y : ℕ) → 0 < occurrences y xs → P y) → All P xs
unfolding occurrences
All-occurrences P [] each = tt
All-occurrences P (x ∷ xs) each = (
  each x (omega (arith, occurrences_here x xs)),
  All-occurrences P xs (λ y inside. each y (ground (arith, inside))),
)

pub occurrences-cases :
    (y x : ℕ) (xs : List ℕ) → 0 < occurrences y (x ∷ xs) → (y ≡ x) ⊎ (0 < occurrences y xs)
occurrences-cases y x xs h = elim (Bool-cases (y == x)) [
  | inl same ↦ inl (==→eq y x same)
  | inr other ↦ inr (omega (arith, occurrences_other y x xs (==→neq y x other)))
]

pub occurrences_later : (y x : ℕ) (xs : List ℕ) → 0 < occurrences y xs → 0 < occurrences y (x ∷ xs)
unfolding occurrences
occurrences_later y x xs h = ground arith

-- A sum that is positive has a positive part.
pub positive_part : (a b : ℕ) → 0 < a + b → (0 < a) ⊎ (0 < b)
positive_part zero b h = inr (omega arith)
positive_part (suc a) b h = inl (omega arith)

pub zero_or_positive : (a : ℕ) → (a ≡ 0) ⊎ (0 < a)
zero_or_positive zero = inl refl
zero_or_positive (suc a) = inr (omega arith)

-- 1 at one object
abbrev pub unit_at : ℕ → ℕ → ℕ
unit_at y x = if y == x then 1 else 0

pub sum-unit_at : (y : ℕ) (xs : List ℕ) → sum (unit_at y) xs ≡ occurrences y xs
unfolding sum occurrences
sum-unit_at y [] = refl
sum-unit_at y (x ∷ xs) = ground (arith, sum-unit_at y xs)

pub total_unmarked :
    (y : ℕ) (test : ℕ → Bool) (n : ℕ) → test y ≡ false → total (unit_at y) test n ≡ 0
unfolding total
total_unmarked y test zero out = refl
total_unmarked y test (suc n) out =
    let rest = total_unmarked y test n out in
    elim (Bool-cases (y == n)) [
      | inl here ↦ let e = ap (λ (z : ℕ). test z) (sym (==→eq y n here)) ∙ out in rw (e, total) rest
      | inr other ↦ ground (arith, rest, other)
    ]

pub total-unit_at_above : (y : ℕ) (test : ℕ → Bool) (n : ℕ) → n ≤ y → total (unit_at y) test n ≡ 0
unfolding total
total-unit_at_above y test zero over = refl
total-unit_at_above y test (suc n) over = ground (arith, total-unit_at_above y test n (omega arith))

pub total-unit_at_once : (y : ℕ) (test : ℕ → Bool) (n : ℕ) → total (unit_at y) test n ≤ 1
unfolding total
total-unit_at_once y test zero = omega arith
total-unit_at_once y test (suc n) = elim (Bool-cases (y == n)) [
  | inl here ↦
      let e = ==→eq y n here in ground (arith, total-unit_at_above y test n (omega (arith, e)))
  | inr other ↦ ground (arith, total-unit_at_once y test n, other)
]

pub total-unit_at :
    (y : ℕ) (test : ℕ → Bool) (n : ℕ) → y < n → test y ≡ true → total (unit_at y) test n ≡ 1
unfolding total
total-unit_at y test zero h is = absurd (omega arith)
total-unit_at y test (suc n) h is = elim (Bool-cases (y == n)) [
  | inl here ↦
      let e = ==→eq y n here in
      let passes = ap (λ (z : ℕ). test z) (sym e) ∙ is in
      ground (arith, total-unit_at_above y test n (omega (arith, e)), passes, here)
  | inr other ↦
      let rest = total-unit_at y test n (omega (arith, ==→neq y n other)) is in
      ground (arith, rest, other)
]

pub occurrences_fewer : (y x : ℕ) (xs : List ℕ) → occurrences y xs ≤ occurrences y (x ∷ xs)
unfolding occurrences
occurrences_fewer y x xs = ground arith

-- What is not on a list is not its head.
pub occurrences_apart : (y x : ℕ) (xs : List ℕ) → occurrences y (x ∷ xs) ≡ 0 → (x == y) ≡ false
occurrences_apart y x xs h =
    neq→== x y
      λ e. omega (arith, h, occurrences_here x xs, ap (λ (z : ℕ). occurrences z (x ∷ xs)) e)

pub sum_positive :
    (f : ℕ → ℕ) (xs : List ℕ) → 0 < sum f xs → (x : ℕ) × (0 < occurrences x xs) × (0 < f x)
unfolding sum
sum_positive f [] h = absurd (omega arith)
sum_positive f (x ∷ xs) h = elim (positive_part (f x) (sum f xs) h) [
  | inl here ↦ (x, omega (arith, occurrences_here x xs), here)
  | inr later ↦
      let (y, inside, more) = sum_positive f xs later in (y, occurrences_later y x xs inside, more)
]

-- whether an object is on a list
abbrev pub listed : List ℕ → ℕ → Bool
listed xs x = ltb 0 (occurrences x xs)

-- A sum over a list that holds each object once is a sum over the objects.
pub sum-total :
    (f : ℕ → ℕ) (n : ℕ) (xs : List ℕ)
    → ((y : ℕ) → occurrences y xs ≤ 1)
    → ((y : ℕ) → 0 < occurrences y xs → y < n)
    → sum f xs ≡ total f (listed xs) n
unfolding sum occurrences
sum-total f n [] once under = sym (total_none f (listed []) n (λ x. refl))
sum-total f n (x ∷ xs) once under =
    let alone : occurrences x xs ≡ 0 = omega (arith, once x, occurrences_here x xs) in
    let rest =
      sum-total f n xs (λ y. omega (arith, once y, occurrences_fewer y x xs))
        (λ y h. under y (occurrences_later y x xs h)) in
    let more =
      total_more f (listed xs) (listed (x ∷ xs)) x n
        (under x (omega (arith, occurrences_here x xs))) (ground (arith, alone))
        (ground (arith, occurrences_here x xs))
        (λ y apart. ap (ltb 0) (sym (occurrences_other y x xs apart))) in
    omega (arith, rest, more)

-- What a test passes and what it fails make up the whole.
pub total_split :
    (f g : ℕ → ℕ) (test : ℕ → Bool) (n : ℕ)
    → ((x : ℕ) → test x ≡ true → g x ≡ 0)
    → ((x : ℕ) → test x ≡ false → g x ≡ f x)
    → total g (λ _. true) n + total f test n ≡ total f (λ _. true) n
unfolding total
total_split f g test zero gone kept = omega arith
total_split f g test (suc n) gone kept =
    let rest = total_split f g test n gone kept in
    elim (Bool-cases (test n)) [
      | inl inside ↦ ground (arith, rest, gone n inside)
      | inr outside ↦ ground (arith, rest, kept n outside)
    ]

pub occurrences_head : (y x : ℕ) (xs : List ℕ) → y ≡ x → 0 < occurrences y (x ∷ xs)
occurrences_head y x xs e =
    omega (arith, occurrences_here x xs, ap (λ (z : ℕ). occurrences z (x ∷ xs)) e)
