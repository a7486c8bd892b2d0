-- ===== src/Cycles/Scanning.antt =====
-- What holds between the steps of the scan: the counts lack the references of the grey and the white
-- objects, a white object's count is 0, and a black object leads to black ones.
use lumiere.Common.{
  ℕ, ◌+◌, ◌≤◌, ◌<◌, ◌≡◌, refl, ◌⊎◌, true, false, Option, List, [], ◌∷◌, ◌==◌, arith, Bool-cases,
  ==→eq, inl, inr, sym, ap, ◌∙◌,
}
use mathlib.Core.Path.{subst}
use lumiere.Cycles.{
  black, is_grey, is_white, is_black, is_drained, Objects, up, increment, paint, children_of,
}
use lumiere.Cycles.Colours.{black_not_white}
use lumiere.Cycles.Sums.{
  occurrences, total, sum, occurrences_here, occurrences-cases, occurrences_later, positive_part,
}
use lumiere.Cycles.Reach.{
  edges, Reachable, Live, referred, live_reachable, coloured, paint_cases, total-unpaint,
  paint_passes, paint_fails,
}

pub up_lem : (c : ℕ) → c < 4294967295 → up c ≡ c + 1
unfolding up
up_lem c high = omega arith

module _ (references : ℕ → List (Option ℕ)) (n : ℕ) (counts : ℕ → ℕ) (start : Objects)
    (roots : List ℕ) where
  abbrev Reach : ℕ → Type 0
  Reach = Reachable references roots

  abbrev Alive : ℕ → Type 0
  Alive = Live references n counts roots

  -- `blackening` are the objects whose references are to be given back, `rest` the children of the
  -- current one still to visit, and `pending` the objects still to scan.
  pub record IsScanning (pending : List ℕ) (o : Objects) (blackening rest : List ℕ) : Type 0 where
    pub balance :
        (y : ℕ)
        → o.count y
            + total (edges references y) (coloured is_drained o) n
            + sum (edges references y) blackening
            + occurrences y rest
          ≡ counts y
    pub drained : (x : ℕ) → is_drained (o.colour x) ≡ true → Reach x
    pub reached :
        (x : ℕ) → Reach x → (is_drained (o.colour x) ≡ true) ⊎ (is_black (o.colour x) ≡ true)
    pub wanted : (y : ℕ) → 0 < occurrences y blackening + occurrences y rest → Alive y
    pub alive : (x : ℕ) → Reach x → is_black (o.colour x) ≡ true → Alive x
    pub blackened :
        (x : ℕ)
        → Reach x
        → (y : ℕ) → is_black (o.colour x) ≡ true
        → 0 < edges references y x
        → (0 < occurrences x blackening) ⊎ (is_black (o.colour y) ≡ true) ⊎ (0 < occurrences y rest)
    pub idle : (x : ℕ) → is_white (o.colour x) ≡ true → o.count x ≡ 0
    pub fringe :
        (x y : ℕ)
        → is_white (o.colour x) ≡ true
        → 0 < edges references y x
        → (is_grey (o.colour y) ≡ false) ⊎ (0 < occurrences y pending)
    pub same : (x : ℕ) → o.buffered x ≡ start.buffered x

  module _ (fits : (y : ℕ) → counts y ≤ 4294967295)
      (below : (x : ℕ) → Reachable references roots x → x < n) (pending : List ℕ) where
    -- A black child gets its reference back.
    pub IsScanning-increment :
        (o : Objects) (blackening : List ℕ) (child : ℕ) (rest : List ℕ)
        → is_black (o.colour child) ≡ true
        → IsScanning pending o blackening (child ∷ rest)
        → IsScanning pending (increment o child) blackening rest
    unfolding occurrences
    IsScanning-increment o blackening child rest dark s =
        let more =
          up_lem (o.count child)
            (omega (arith, s.balance child, fits child, occurrences_here child rest)) in
        record {
          balance = λ y. ground (arith, more, s.balance y);
          drained = s.drained;
          reached = s.reached;
          wanted = λ y h. s.wanted y (ground (arith, h));
          alive = s.alive;
          blackened = λ x path y d e. elim (s.blackened x path y d e) [
            | inl p ↦ inl p
            | inr (inl q) ↦ inr (inl q)
            | inr (inr r) ↦ elim (occurrences-cases y child rest r) [
              | inl here ↦ inr (inl (ap (λ (z : ℕ). is_black (o.colour z)) here ∙ dark))
              | inr later ↦ inr (inr later)
            ]
          ];
          idle = λ x w. elim (Bool-cases (child == x)) [
            | inl here ↦
                let e = ap (λ (z : ℕ). is_black (o.colour z)) (sym (==→eq child x here)) ∙ dark in
                absurd (cc (e, w, black_not_white (o.colour x) e))
            | inr apart ↦ rw (apart) (s.idle x w)
          ];
          fringe = s.fringe;
          same = s.same;
        }

    -- A grey or white object turns black.
    pub IsScanning-blacken :
        (o : Objects) (blackening : List ℕ) (object : ℕ) (rest : List ℕ)
        → is_drained (o.colour object) ≡ true
        → Alive object
        → IsScanning pending o blackening rest
        → IsScanning pending (paint o object black) (object ∷ blackening) rest
    unfolding sum
    IsScanning-blacken o blackening object rest lit live s =
        let way = live_reachable references n counts roots object live in
        let less : (y : ℕ)
            → total (edges references y) (coloured is_drained o) n
              ≡ edges references y object
                + total (edges references y) (coloured is_drained (paint o object black)) n =
          λ y.
            total-unpaint (edges references y) is_drained o object n black (below object way) lit
              refl in
        record {
          balance = λ y. omega (arith, less y, s.balance y);
          drained =
              paint_cases o object black (λ x c. is_drained c ≡ true → Reach x) (λ h. way)
                (λ x _. s.drained x);
          reached =
              paint_cases o object black
                (λ x c. Reach x → (is_drained c ≡ true) ⊎ (is_black c ≡ true)) (λ _. inr refl)
                (λ x _. s.reached x);
          wanted = λ y h.
              elim (positive_part (occurrences y (object ∷ blackening)) (occurrences y rest) h) [
                | inl at_work ↦ elim (occurrences-cases y object blackening at_work) [
                  | inl here ↦ subst Alive (sym here) live
                  | inr later ↦ s.wanted y (omega arith)
                ]
                | inr left ↦ s.wanted y (omega arith)
              ];
          alive =
              paint_cases o object black (λ x c. Reach x → is_black c ≡ true → Alive x)
                (λ _ _. live) (λ x _. s.alive x);
          blackened =
              paint_cases o object black
                (λ x c.
                  Reach x
                  → (y : ℕ) → is_black c ≡ true
                  → 0 < edges references y x
                  → (0 < occurrences x (object ∷ blackening))
                    ⊎ (is_black ((paint o object black).colour y) ≡ true)
                    ⊎ (0 < occurrences y rest))
                (λ _ y _ e. inl (omega (arith, occurrences_here object blackening)))
                (λ x _ path y d e. elim (s.blackened x path y d e) [
                  | inl p ↦ inl (occurrences_later x object blackening p)
                  | inr (inl q) ↦ inr (inl (paint_passes is_black o object black y refl q))
                  | inr (inr r) ↦ inr (inr r)
                ]);
          idle =
              paint_cases o object black (λ x c. is_white c ≡ true → o.count x ≡ 0)
                (λ h. absurd (cc)) (λ x _. s.idle x);
          fringe =
              paint_cases o object black
                (λ x c.
                  (y : ℕ)
                  → is_white c ≡ true
                  → 0 < edges references y x
                  → (is_grey ((paint o object black).colour y) ≡ false)
                    ⊎ (0 < occurrences y pending))
                (λ y h e. absurd (cc))
                (λ x _ y w e. elim (s.fringe x y w e) [
                  | inl q ↦ inl (paint_fails is_grey o object black y refl q)
                  | inr p ↦ inr p
                ]);
          same = s.same;
        }

  pub IsScanning-pop :
      (pending : List ℕ) (o : Objects) (object : ℕ) (blackening : List ℕ)
      → IsScanning pending o (object ∷ blackening) []
      → IsScanning pending o blackening (children_of references object)
  unfolding occurrences sum
  IsScanning-pop pending o object blackening s = record {
    balance = λ y. omega (arith, s.balance y);
    drained = s.drained;
    reached = s.reached;
    wanted = λ y h. elim (positive_part (occurrences y blackening) (edges references y object) h) [
      | inl later ↦ s.wanted y (omega (arith, occurrences_later y object blackening later))
      | inr child ↦
          referred (s.wanted object (omega (arith, occurrences_here object blackening))) child
    ];
    alive = s.alive;
    blackened = λ x path y d e. elim (s.blackened x path y d e) [
      | inl p ↦ elim (occurrences-cases x object blackening p) [
        | inl here ↦ inr (inr (subst (λ z. 0 < edges references y z) here e))
        | inr later ↦ inl later
      ]
      | inr (inl q) ↦ inr (inl q)
      | inr (inr r) ↦ absurd (omega arith)
    ];
    idle = s.idle;
    fringe = s.fringe;
    same = s.same;
  }
