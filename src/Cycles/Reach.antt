-- ===== src/Cycles/Reach.antt =====
-- Which objects the collector's roots lead to, and what painting one object does to the colours.
use lumiere.Common.{
  ℕ, ◌+◌, ◌<◌, ◌≡◌, refl, ◌≢◌, Bool, true, false, Option, List, ==_refl, neq→==, ap, sym, ◌∙◌,
  ==→eq, ==→neq, Bool-cases, inl, inr, ◌==◌,
}
use mathlib.Core.Path.{subst}
use lumiere.Cycles.{RefColour, Objects, children_of, paint}
use lumiere.Cycles.Sums.{occurrences, total, total_more}

module _ (references : ℕ → List (Option ℕ)) where
  -- how many references of this object lead to y
  abbrev pub edges : ℕ → ℕ → ℕ
  edges y object = occurrences y (children_of references object)

  -- a path of references from a root
  pub data Reachable (roots : List ℕ) : ℕ → Type 0 where
    root : {x : ℕ} → 0 < occurrences x roots → Reachable roots x
    step : {x y : ℕ} → Reachable roots x → 0 < edges y x → Reachable roots y

  pub reachable_below :
      (roots : List ℕ) (n : ℕ)
      → ((x : ℕ) → 0 < occurrences x roots → x < n)
      → ((x y : ℕ) → x < n → 0 < edges y x → y < n)
      → (x : ℕ) → Reachable roots x
      → x < n
  reachable_below roots n first next x (root h) = first x h
  reachable_below roots n first next y (step {x} path h) =
      next x y (reachable_below roots n first next x path) h

  module _ (n : ℕ) (counts : ℕ → ℕ) (roots : List ℕ) where
    -- Reached from an object that is counted more often than objects that the roots lead to refer to it.
    pub data Live : ℕ → Type 0 where
      external :
          {x : ℕ}
          → Reachable roots x
          → ((test : ℕ → Bool)
              → ((z : ℕ) → test z ≡ true → Reachable roots z)
              → total (edges x) test n < counts x)
          → Live x
      referred : {x y : ℕ} → Live x → 0 < edges y x → Live y

    pub live_reachable : (x : ℕ) → Live x → Reachable roots x
    live_reachable x (external path more) = path
    live_reachable y (referred {x} live e) = step (live_reachable x live) e

-- the objects whose colour passes a test
abbrev pub coloured : (RefColour → Bool) → Objects → ℕ → Bool
coloured test o x = test (o.colour x)

pub painted : (o : Objects) (object : ℕ) (c : RefColour) → (paint o object c).colour object ≡ c
painted o object c = rw (==_refl object) refl

pub unpainted :
    (o : Objects) (object : ℕ) (c : RefColour) (x : ℕ)
    → x ≢ object
    → o.colour x ≡ (paint o object c).colour x
unpainted o object c x apart = rw (neq→== object x (λ e. apart (sym e))) refl

-- A property of the painted object and of the others is one of all.
pub paint_cases {ℓ} :
    (o : Objects) (object : ℕ) (c : RefColour) (P : ℕ → RefColour → Type ℓ)
    → P object c
    → ((x : ℕ) → x ≢ object → P x (o.colour x))
    → (x : ℕ) → P x ((paint o object c).colour x)
paint_cases o object c P here others x = elim (Bool-cases (object == x)) [
  | inl same ↦
      subst (λ z. P z ((paint o object c).colour z)) (==→eq object x same)
        (subst (P object) (sym (painted o object c)) here)
  | inr other ↦
      let apart : x ≢ object = λ e. ==→neq object x other (sym e) in
      subst (P x) (unpainted o object c x apart) (others x apart)
]

-- Painting an object into the test adds its share.
pub total-paint :
    (f : ℕ → ℕ) (test : RefColour → Bool) (o : Objects) (object n : ℕ) (c : RefColour)
    → object < n
    → test (o.colour object) ≡ false
    → test c ≡ true
    → total f (coloured test (paint o object c)) n ≡ f object + total f (coloured test o) n
total-paint f test o object n c within was is =
    total_more f (coloured test o) (coloured test (paint o object c)) object n within was
      (ap test (painted o object c) ∙ is) (λ x apart. ap test (unpainted o object c x apart))

-- Painting an object out of the test takes its share away.
pub total-unpaint :
    (f : ℕ → ℕ) (test : RefColour → Bool) (o : Objects) (object n : ℕ) (c : RefColour)
    → object < n
    → test (o.colour object) ≡ true
    → test c ≡ false
    → total f (coloured test o) n ≡ f object + total f (coloured test (paint o object c)) n
total-unpaint f test o object n c within was is =
    total_more f (coloured test (paint o object c)) (coloured test o) object n within
      (ap test (painted o object c) ∙ is) was
      (λ x apart. ap test (sym (unpainted o object c x apart)))

pub paint_passes :
    (test : RefColour → Bool) (o : Objects) (object : ℕ) (c : RefColour) (y : ℕ)
    → test c ≡ true
    → test (o.colour y) ≡ true
    → test ((paint o object c).colour y) ≡ true
paint_passes test o object c y is h =
    paint_cases o object c (λ x d. test (o.colour x) ≡ true → test d ≡ true) (λ _. is)
      (λ x _ old. old) y h

pub paint_fails :
    (test : RefColour → Bool) (o : Objects) (object : ℕ) (c : RefColour) (y : ℕ)
    → test c ≡ false
    → test (o.colour y) ≡ false
    → test ((paint o object c).colour y) ≡ false
paint_fails test o object c y is h =
    paint_cases o object c (λ x d. test (o.colour x) ≡ false → test d ≡ false) (λ _. is)
      (λ x _ old. old) y h
