-- ===== src/Cycles/ScanBlack.antt =====
-- `scan_black` ends: what a live object leads to is black, and its references are counted again.
use lumiere.Common.{
  ℕ, zero, suc, ◌+◌, ◌≤◌, ◌<◌, ◌≡◌, refl, Bool, true, false, not, Option, some, List, [], ◌∷◌,
  arith, Bool-cases, inl, inr, length, ap,
}
use lumiere.Cycles.{
  RefColour, black, is_grey, is_black, is_drained, Objects, increment, paint, children_of,
  blacken_children, black_loop, scan_black,
}
use lumiere.Cycles.Colours.{drained_not_black}
use lumiere.Cycles.Sums.{occurrences, total, total_ends, occurrences_here}
use lumiere.Cycles.Reach.{
  Reachable, Live, live_reachable, coloured, painted, total-unpaint, paint_passes, paint_fails,
}
use lumiere.Cycles.Marking.{one}
use lumiere.Cycles.Scanning.{IsScanning, IsScanning-increment, IsScanning-blacken, IsScanning-pop}

abbrev not_black : RefColour → Bool
not_black c = not (is_black c)

-- Objects only turn black.
pub record Darker (o next : Objects) : Type 0 where
  pub dark : (x : ℕ) → is_black (o.colour x) ≡ true → is_black (next.colour x) ≡ true
  pub not_grey : (x : ℕ) → is_grey (o.colour x) ≡ false → is_grey (next.colour x) ≡ false

Darker-refl : (o : Objects) → Darker o o
Darker-refl o = record { dark = λ x h. h; not_grey = λ x h. h }

Darker-trans : (o p q : Objects) → Darker o p → Darker p q → Darker o q
Darker-trans o p q d e = record {
  dark = λ x h. e.dark x (d.dark x h);
  not_grey = λ x h. e.not_grey x (d.not_grey x h);
}

Darker-paint : (o : Objects) (object : ℕ) → Darker o (paint o object black)
Darker-paint o object = record {
  dark = λ x h. paint_passes is_black o object black x refl h;
  not_grey = λ x h. paint_fails is_grey o object black x refl h;
}

module _ (references : ℕ → List (Option ℕ)) (n : ℕ) (counts : ℕ → ℕ) (start : Objects)
    (roots : List ℕ) (fits : (y : ℕ) → counts y ≤ 4294967295)
    (below : (x : ℕ) → Reachable references roots x → x < n) (pending : List ℕ) where
  abbrev pub Scanning : Objects → List ℕ → List ℕ → Type 0
  Scanning = IsScanning references n counts start roots pending

  abbrev unblack : Objects → ℕ
  unblack o = total one (coloured not_black o) n

  -- One round: the objects pushed are those that turn black.
  record Round (base : Objects) (size : ℕ) (o : Objects) (blackening rest : List ℕ) : Type 0 where
    state : Scanning o blackening rest
    darker : Darker base o
    pushed : length blackening + unblack o ≡ size

  Round-increment :
      (base : Objects) (size : ℕ) (o : Objects) (blackening : List ℕ) (child : ℕ) (rest : List ℕ)
      → is_black (o.colour child) ≡ true
      → Round base size o blackening (child ∷ rest)
      → Round base size (increment o child) blackening rest
  Round-increment base size o blackening child rest dark r = record {
    state =
        IsScanning-increment references n counts start roots fits below pending o blackening child
          rest dark r.state;
    darker = record { dark = r.darker.dark; not_grey = r.darker.not_grey };
    pushed = r.pushed;
  }

  unblack-paint :
      (o : Objects) (object : ℕ)
      → object < n
      → is_drained (o.colour object) ≡ true
      → unblack o ≡ 1 + unblack (paint o object black)
  unblack-paint o object within lit =
      total-unpaint one not_black o object n black within
        (ap not (drained_not_black (o.colour object) lit)) refl

  Round-blacken :
      (base : Objects) (size : ℕ) (o : Objects) (blackening : List ℕ) (child : ℕ) (rest : List ℕ)
      → is_drained (o.colour child) ≡ true
      → Live references n counts roots child
      → Round base size o blackening rest
      → Round base size (paint o child black) (child ∷ blackening) rest
  Round-blacken base size o blackening child rest lit live r = record {
    state =
        IsScanning-blacken references n counts start roots fits below pending o blackening child
          rest lit live r.state;
    darker = Darker-trans base o (paint o child black) r.darker (Darker-paint o child);
    pushed =
        omega
          (arith, r.pushed, unblack-paint o child (below child (r.state.drained child lit)) lit);
  }

  Round-blacken_children :
      (base : Objects) (size : ℕ) (o : Objects) (blackening children : List ℕ)
      → Round base size o blackening children
      → Round base size
          (blacken_children o blackening children).0
          (blacken_children o blackening children).1
          []
  unfolding blacken_children occurrences
  Round-blacken_children base size o blackening [] r = r
  Round-blacken_children base size o blackening (child ∷ rest) r =
      elim (Bool-cases (is_black (o.colour child))) [
        | inl dark ↦
            rw (dark, blacken_children)
              (Round-blacken_children base size (increment o child) blackening rest
                (Round-increment base size o blackening child rest dark r))
        | inr light ↦
            let live = r.state.wanted child (omega (arith, occurrences_here child rest)) in
            let lit : is_drained (o.colour child) ≡ true =
              elim (r.state.reached child (live_reachable references n counts roots child live)) [
                | inl d ↦ d
                | inr b ↦ absurd (cc (b, light))
              ] in
            let turned = Round-blacken base size o blackening child (child ∷ rest) lit live r in
            rw (light, blacken_children)
              (Round-blacken_children base size (paint (increment o child) child black)
                (child ∷ blackening) rest
                (Round-increment base size (paint o child black) (child ∷ blackening) child rest
                  (ap is_black (painted o child black)) turned))
      ]

  black_loop_lem :
      (rounds : ℕ) (o : Objects) (blackening : List ℕ)
      → Scanning o blackening []
      → length blackening + unblack o ≤ rounds
      → (restored : Objects) × (black_loop references rounds o blackening ≡ some restored)
        × Scanning restored [] []
        × Darker o restored
  unfolding black_loop
  black_loop_lem rounds o [] s enough = (o, refl, s, Darker-refl o)
  black_loop_lem zero o (object ∷ blackening) s enough = absurd (omega arith)
  black_loop_lem (suc rounds) o (object ∷ blackening) s enough =
      let children = children_of references object in
      let first : Round o (length blackening + unblack o) o blackening children = record {
        state = IsScanning-pop references n counts start roots pending o object blackening s;
        darker = Darker-refl o;
        pushed = refl;
      } in
      let r =
        Round-blacken_children o (length blackening + unblack o) o blackening children first in
      let (restored, ends, done, darker) =
        black_loop_lem rounds (blacken_children o blackening children).0
          (blacken_children o blackening children).1 r.state (omega (arith, r.pushed)) in
      (
        restored,
        ends,
        done,
        Darker-trans o (blacken_children o blackening children).0 restored r.darker darker,
      )

  pub scan_black_lem :
      (o : Objects) (object : ℕ)
      → Scanning o [] []
      → is_drained (o.colour object) ≡ true
      → Live references n counts roots object
      → (restored : Objects) × (scan_black references n o object ≡ some restored)
        × Scanning restored [] []
        × Darker o restored
        × (is_black (restored.colour object) ≡ true)
  scan_black_lem o object s lit live =
      let turned =
        IsScanning-blacken references n counts start roots fits below pending o [] object [] lit
          live s in
      let (restored, ends, done, darker) =
        black_loop_lem n (paint o object black) (object ∷ []) turned (
          omega (
            arith,
            unblack-paint o object (below object (s.drained object lit)) lit,
            total_ends one (coloured not_black o) n (λ x. omega arith),
          )) in
      (
        restored,
        ends,
        done,
        Darker-trans o (paint o object black) restored (Darker-paint o object) darker,
        darker.dark object (ap is_black (painted o object black)),
      )
