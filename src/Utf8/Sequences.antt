-- ===== src/Utf8/Sequences.antt =====
-- A text as the sequence of its characters: counting and indexing.
use mathlib.Core.Path.{ap, ap₂, sym}
use mathlib.Core.List.{append_assoc}
use lumiere.Common.{
  ℕ, zero, suc, ◌+◌, ◌≤◌, ◌<◌, ◌≡◌, refl, ◌∙◌, some, List, [], ◌∷◌, ◌++◌, length, get_elem?,
  length-append, All, ◌==◌, if◌then◌else◌, arith,
}
use lumiere.Utf8.{decode_one, count_loop, character_count, at_loop, character_at, encode_character}
use lumiere.Utf8.RoundTrip.{IsScalar, decode_one-encode_character}

-- The text of a sequence of characters.
abbrev pub encode_all : List ℕ → List ℕ
encode_all [] = []
encode_all (c ∷ cs) = encode_character c ++ encode_all cs

length-encode_character : (c : ℕ) → 0 < length (encode_character c)
unfolding encode_character
length-encode_character c = ground arith

-- The loop's text with one more character behind it.
pass_over :
    (before cs : List ℕ) (c : ℕ)
    → before ++ encode_all (c ∷ cs) ≡ (before ++ encode_character c) ++ encode_all cs
pass_over before cs c = sym (append_assoc before (encode_character c) (encode_all cs))

count_loop-step :
    (fuel : ℕ) (text : List ℕ) (offset n c next : ℕ)
    → offset < length text
    → decode_one text offset ≡ some (c, next)
    → count_loop (suc fuel) text offset n ≡ count_loop fuel text next (n + 1)
unfolding count_loop
count_loop-step fuel text offset n c next h e = ground arith

at_loop-step :
    (fuel : ℕ) (text : List ℕ) (offset current index c next : ℕ)
    → offset < length text
    → decode_one text offset ≡ some (c, next)
    → at_loop (suc fuel) text offset current index
      ≡ (if current == index then some c else at_loop fuel text next (current + 1) index)
unfolding at_loop
at_loop-step fuel text offset current index c next h e = ground arith

room : (before cs : List ℕ) (c : ℕ) → length before < length (before ++ encode_all (c ∷ cs))
room before cs c = omega (
  arith,
  length-append before (encode_all (c ∷ cs)),
  length-append (encode_character c) (encode_all cs),
  length-encode_character c,
)

fewer :
    (cs : List ℕ) (c fuel : ℕ)
    → length (encode_all (c ∷ cs)) ≤ suc fuel
    → length (encode_all cs) ≤ fuel
fewer cs c fuel h =
    omega (arith, length-append (encode_character c) (encode_all cs), length-encode_character c)

count_loop-encode_all :
    (cs before : List ℕ) (fuel n : ℕ)
    → All IsScalar cs
    → length (encode_all cs) ≤ fuel
    → count_loop fuel (before ++ encode_all cs) (length before) n ≡ some (n + length cs)
unfolding count_loop
count_loop-encode_all [] before zero n ok h = ground (arith, length-append before [])
count_loop-encode_all [] before (suc fuel) n ok h = ground (arith, length-append before [])
count_loop-encode_all (c ∷ cs) before zero n ok h =
    absurd
      (omega (arith, length-encode_character c, length-append (encode_character c) (encode_all cs)))
count_loop-encode_all (c ∷ cs) before (suc fuel) n (sc, ok) h =
    count_loop-step fuel (before ++ encode_all (c ∷ cs)) (length before) n c
      (length before + length (encode_character c)) (room before cs c)
      (decode_one-encode_character before (encode_all cs) c sc)
    ∙ ap₂ (λ text next. count_loop fuel text next (n + 1)) (pass_over before cs c)
        (sym (length-append before (encode_character c)))
    ∙ count_loop-encode_all cs (before ++ encode_character c) fuel (n + 1) ok (fewer cs c fuel h)
    ∙ ap some (omega arith)

-- Counting the characters in the encoding of a sequence of scalar values gives the sequence's length.
pub character_count-encode_all :
    (cs : List ℕ) → All IsScalar cs → character_count (encode_all cs) ≡ some (length cs)
unfolding character_count
character_count-encode_all cs ok =
    count_loop-encode_all cs [] _ 0 ok (omega arith) ∙ ap some (omega arith)

at_loop-append :
    (cs before : List ℕ) (c fuel current index : ℕ)
    → at_loop fuel
        ((before ++ encode_character c) ++ encode_all cs)
        (length (before ++ encode_character c))
        (current + 1)
        (current + 1 + index)
      ≡ get_elem? cs index
    → at_loop fuel
        (before ++ encode_all (c ∷ cs))
        (length before + length (encode_character c))
        (current + 1)
        (current + suc index)
      ≡ get_elem? cs index
at_loop-append cs before c fuel current index h =
    ap₂ (λ text next. at_loop fuel text next (current + 1) (current + suc index))
      (pass_over before cs c) (sym (length-append before (encode_character c)))
    ∙ ap
        (at_loop fuel ((before ++ encode_character c) ++ encode_all cs)
          (length (before ++ encode_character c)) (current + 1))
        (omega arith)
    ∙ h

-- One round of the loop, when the rest of it indexes the rest of the sequence.
at_loop-round :
    (cs before : List ℕ) (c fuel current index : ℕ)
    → IsScalar c
    → ((i : ℕ)
        → at_loop fuel
            (before ++ encode_all (c ∷ cs))
            (length before + length (encode_character c))
            (current + 1)
            (current + suc i)
          ≡ get_elem? cs i)
    → at_loop (suc fuel) (before ++ encode_all (c ∷ cs)) (length before) current (current + index)
      ≡ get_elem? (c ∷ cs) index
at_loop-round cs before c fuel current zero sc rest =
    at_loop-step fuel (before ++ encode_all (c ∷ cs)) (length before) current (current + 0) c
      (length before + length (encode_character c)) (room before cs c)
      (decode_one-encode_character before (encode_all cs) c sc)
    ∙ ground arith
at_loop-round cs before c fuel current (suc index) sc rest =
    at_loop-step fuel (before ++ encode_all (c ∷ cs)) (length before) current (current + suc index)
      c (length before + length (encode_character c)) (room before cs c)
      (decode_one-encode_character before (encode_all cs) c sc)
    ∙ ground (arith, rest index)

at_loop-encode_all :
    (cs before : List ℕ) (fuel current index : ℕ)
    → All IsScalar cs
    → length (encode_all cs) ≤ fuel
    → at_loop fuel (before ++ encode_all cs) (length before) current (current + index)
      ≡ get_elem? cs index
at_loop-encode_all [] before zero current index ok h = unfold at_loop in refl
at_loop-encode_all [] before (suc fuel) current index ok h =
    unfold at_loop in ground (arith, length-append before [])
at_loop-encode_all (c ∷ cs) before zero current index ok h =
    absurd
      (omega (arith, length-append (encode_character c) (encode_all cs), length-encode_character c))
at_loop-encode_all (c ∷ cs) before (suc fuel) current index (sc, ok) h =
    at_loop-round cs before c fuel current index sc (λ i.
      at_loop-append cs before c fuel current i (
        at_loop-encode_all cs (before ++ encode_character c) fuel (current + 1) i ok
          (fewer cs c fuel h)))

-- Indexing the encoding of a sequence of scalar values by characters, at any index, is indexing the
-- sequence.
pub character_at-encode_all :
    (cs : List ℕ) (index : ℕ)
    → All IsScalar cs
    → character_at (encode_all cs) index ≡ get_elem? cs index
unfolding character_at
character_at-encode_all cs index ok =
    ap (at_loop (length (encode_all cs)) (encode_all cs) 0 0) (omega arith)
    ∙ at_loop-encode_all cs [] _ 0 index ok (omega arith)
