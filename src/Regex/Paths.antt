-- ===== src/Regex/Paths.antt =====
-- The ways through a program on a text, as the matcher's threads take them, and what a tree matches.
use lumiere.Common.{
  ℕ, zero, suc, ◌+◌, ◌-◌, ◌≤◌, ◌<◌, ◌≡◌, ◌≢◌, ◌⊎◌, Bool, true, false, not, ◌&&◌, ◌||◌, none, some,
  List, [], ◌∷◌, length, get_elem?, leb, arith, sym, ◌∙◌, if◌then◌else◌,
}
use mathlib.Core.Path.{subst}
use mathlib.Core.Option.{some-injective}
use lumiere.Regex.{
  ClassRange, RegexNode, literal, any, class, concat, alt, star, plus, opt, repeat, group,
  anchor_start, anchor_end, RegexNodes, no_nodes, nodes, Op, op_char, op_any, op_class, op_bol,
  op_eol, op_save, op_jmp, op_split, op_match, Inst, RegexProgram,
}
use lumiere.Regex.Compiler.Code.{Has}

-- The loop over the ranges of a class.
unfoldable pub in_range : List ClassRange → ℕ → Bool
in_range [] ch = false
in_range (range ∷ ranges) ch = leb range.lo ch && leb ch range.hi || in_range ranges ch

abbrev pub class_holds : List ClassRange → Bool → ℕ → Bool
class_holds ranges negated ch = if negated then not (in_range ranges ch) else in_range ranges ch

-- any number of matches, one behind the other
pub data Star (M : ℕ → ℕ → Type 0) : ℕ → ℕ → Type 0 where
  done : {i : ℕ} → Star M i i
  more : {i j k : ℕ} → M i j → Star M j k → Star M i k

abbrev pub Times : (ℕ → ℕ → Type 0) → ℕ → ℕ → ℕ → Type 0
Times M zero i j = i ≡ j
Times M (suc n) i j = (k : ℕ) × M i k × Times M n k j

abbrev pub UpTo : (ℕ → ℕ → Type 0) → ℕ → ℕ → ℕ → Type 0
UpTo M zero i j = i ≡ j
UpTo M (suc n) i j = (i ≡ j) ⊎ ((k : ℕ) × M i k × UpTo M n k j)

module _ (text : List ℕ) where
  -- A tree matches the characters from i up to j.
  unfoldable mutual
    pub Matches : RegexNode → ℕ → ℕ → Type 0
    Matches (literal c) i j = (get_elem? text i ≡ some c) × (j ≡ i + 1)
    Matches any i j = (c : ℕ) × (get_elem? text i ≡ some c) × (j ≡ i + 1)
    Matches (class negated ranges) i j =
        (c : ℕ) × (get_elem? text i ≡ some c) × (class_holds ranges negated c ≡ true) × (j ≡ i + 1)
    Matches (concat children) i j = MatchesAll children i j
    Matches (alt alternatives) i j = MatchesAny alternatives i j
    Matches (star child) i j = Star (Matches child) i j
    Matches (plus child) i j = (k : ℕ) × Matches child i k × Star (Matches child) k j
    Matches (opt child) i j = (i ≡ j) ⊎ Matches child i j
    Matches (repeat child low none) i j =
        (k : ℕ) × Times (Matches child) low i k × Star (Matches child) k j
    Matches (repeat child low (some high)) i j =
        (k : ℕ) × Times (Matches child) low i k × UpTo (Matches child) (high - low) k j
    Matches (group index child) i j = Matches child i j
    Matches anchor_start i j = (i ≡ 0) × (j ≡ i)
    Matches anchor_end i j = (i ≡ length text) × (j ≡ i)

    pub MatchesAll : RegexNodes → ℕ → ℕ → Type 0
    MatchesAll no_nodes i j = i ≡ j
    MatchesAll (nodes child children) i j = (k : ℕ) × Matches child i k × MatchesAll children k j

    -- The parser builds no node without alternatives.
    pub MatchesAny : RegexNodes → ℕ → ℕ → Type 0
    MatchesAny no_nodes i j = i ≡ j
    MatchesAny (nodes last no_nodes) i j = Matches last i j
    MatchesAny (nodes first (nodes second others)) i j =
        Matches first i j ⊎ MatchesAny (nodes second others) i j

  -- What an instruction at pc lets a thread at position i do.
  module _ (q : RegexProgram) where
    abbrev pub Next : Op → Inst → ℕ → ℕ → ℕ → ℕ → Type 0
    Next op_char inst pc i pc' i' =
        (get_elem? text i ≡ some inst.ch) × (pc' ≡ pc + 1) × (i' ≡ i + 1)
    Next op_any inst pc i pc' i' =
        ((c : ℕ) × (get_elem? text i ≡ some c)) × (pc' ≡ pc + 1) × (i' ≡ i + 1)
    Next op_class inst pc i pc' i' =
        ((c : ℕ) × (k : ℕ) × (ranges : List ClassRange) × (negated : Bool) × (get_elem? text i
            ≡ some c)
          × (inst.class_index ≡ some k)
          × (get_elem? q.classes k ≡ some ranges)
          × (get_elem? q.class_negated k ≡ some negated)
          × (class_holds ranges negated c ≡ true))
        × (pc' ≡ pc + 1)
        × (i' ≡ i + 1)
    Next op_bol inst pc i pc' i' = (i ≡ 0) × (pc' ≡ pc + 1) × (i' ≡ i)
    Next op_eol inst pc i pc' i' = (i ≡ length text) × (pc' ≡ pc + 1) × (i' ≡ i)
    Next op_save inst pc i pc' i' = (pc' ≡ pc + 1) × (i' ≡ i)
    Next op_jmp inst pc i pc' i' = (inst.x ≡ some pc') × (i' ≡ i)
    Next op_split inst pc i pc' i' = ((inst.x ≡ some pc') ⊎ (inst.y ≡ some pc')) × (i' ≡ i)
    Next op_match inst pc i pc' i' = pc < 0

    -- A way of so many steps that ends at target, at the position stop.
    abbrev pub Way : ℕ → ℕ → ℕ → ℕ → ℕ → Type 0
    Way target stop zero pc i = (pc ≡ target) × (i ≡ stop)
    Way target stop (suc steps) pc i =
        (inst : Inst) × (pc' : ℕ) × (i' : ℕ) × Has q pc inst
        × Next inst.op inst pc i pc' i'
        × Way target stop steps pc' i'

    pub Way-at :
        (target stop k pc i pc' i' : ℕ)
        → pc ≡ pc'
        → i ≡ i'
        → Way target stop k pc i
        → Way target stop k pc' i'
    Way-at target stop k pc i pc' i' e f w =
        subst (λ z. Way target stop k z i') e (subst (λ z. Way target stop k pc z) f w)

    -- The first step of a way that is not at its end, by the instruction there.
    pub first_step :
        (target stop k pc i : ℕ) (inst : Inst)
        → Has q pc inst
        → pc ≢ target
        → Way target stop k pc i
        → (rest : ℕ) × (pc' : ℕ) × (i' : ℕ) × (suc rest ≤ k)
          × Next inst.op inst pc i pc' i'
          × Way target stop rest pc' i'
    first_step target stop zero pc i inst h apart (e, f) = absurd (apart e)
    first_step target stop (suc k) pc i inst h apart (found, pc', i', there, next, w) =
        let same : found ≡ inst = some-injective found inst (sym there ∙ h) in
        (k, pc', i', omega arith, subst (λ (x : Inst). Next x.op x pc i pc' i') same next, w)
