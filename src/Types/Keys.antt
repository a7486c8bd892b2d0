-- ===== src/Types/Keys.antt =====
-- Different types have different keys.
use mathlib.Core.Path.{sym}
use mathlib.Core.List.{append_assoc}
use lumiere.Common.{
  ℕ, zero, suc, ◌+◌, ◌*◌, ◌/◌, ◌%◌, ◌≤◌, ◌<◌, ◌≡◌, ◌≢◌, refl, ap, ◌∙◌, Option, some, List, [], ◌∷◌,
  ◌++◌, length, length-append, All, ltb, ◌==◌, if◌then◌else◌, arith, Bool-cases, Option-cases, inl,
  inr,
}
use lumiere.Numeric.Parse.{digit, decimal_digits}
use lumiere.Types.{
  SemanticTypeKind, builtin, class, interface, generic, union, type_parameter, integer_argument,
  bottom, SemanticType, node, Arguments, no_more, argument, kind_tag, digits_from, to_string,
  encode_part, key, keys,
}

-- The digits of a number are read back as that number.
decimal_digits-append :
    (xs ys : List ℕ) (value n : ℕ)
    → decimal_digits value xs ≡ some n
    → decimal_digits value (xs ++ ys) ≡ decimal_digits n ys
unfolding decimal_digits
decimal_digits-append [] ys value n h = ap (λ v. decimal_digits v ys) (ground arith)
decimal_digits-append (c ∷ rest) ys value n h = elim (Option-cases (digit c)) [
  | inl nothing ↦ absurd (cc (rw (nothing, decimal_digits) at h))
  | inr (d, found) ↦
      rw (found, decimal_digits)
        (decimal_digits-append rest ys (value * 10 + d) n (rw (found, decimal_digits) at h))
]

one_digit : (n value : ℕ) → n < 10 → decimal_digits value ((48 + n) ∷ []) ≡ some (value * 10 + n)
unfolding decimal_digits digit
one_digit n value h = ground arith

digits_from-read : (fuel n : ℕ) → n ≤ fuel → decimal_digits 0 (digits_from fuel n) ≡ some n
unfolding digits_from
digits_from-read zero n h = one_digit (n % 10) 0 (omega arith) ∙ ap some (omega arith)
digits_from-read (suc fuel) n h = elim (Bool-cases (ltb n 10)) [
  | inl small ↦ rw (small, digits_from) (one_digit n 0 (ground arith) ∙ ap some (omega arith))
  | inr large ↦
      let more : 10 ≤ n = ground arith in
      rw (large, digits_from)
        (decimal_digits-append (digits_from fuel (n / 10)) ((48 + n % 10) ∷ []) 0 (n / 10)
            (digits_from-read fuel (n / 10) (omega arith))
          ∙ one_digit (n % 10) (n / 10) (omega arith)
          ∙ ap some (omega arith))
]

to_string-injective : (a b : ℕ) → to_string a ≡ to_string b → a ≡ b
unfolding to_string
to_string-injective a b h =
    let read : some a ≡ some b =
      sym (digits_from-read a a (omega arith))
      ∙ ap (decimal_digits 0) h
      ∙ digits_from-read b b (omega arith) in
    ground arith

-- No digit is a colon.
abbrev NoColon : ℕ → Type 0
NoColon c = c ≢ 58

All-append : (xs ys : List ℕ) → All NoColon xs → All NoColon ys → All NoColon (xs ++ ys)
All-append [] ys a b = b
All-append (x ∷ xs) ys (h, a) b = (h, All-append xs ys a b)

below_colon : (n : ℕ) → n < 10 → NoColon (48 + n)
below_colon n h e = absurd (omega (arith, h, e))

digits_from-NoColon : (fuel n : ℕ) → All NoColon (digits_from fuel n)
unfolding digits_from
digits_from-NoColon zero n = (below_colon (n % 10) (omega arith), tt)
digits_from-NoColon (suc fuel) n = elim (Bool-cases (ltb n 10)) [
  | inl small ↦ rw (small, digits_from) (below_colon n (ground arith), tt)
  | inr large ↦
      rw (large, digits_from)
        (All-append (digits_from fuel (n / 10)) ((48 + n % 10) ∷ [])
          (digits_from-NoColon fuel (n / 10)) (below_colon (n % 10) (omega arith), tt))
]

-- Two texts are cut at their first colons alike.
same_cut :
    (xs ys u v : List ℕ)
    → All NoColon xs
    → All NoColon ys
    → xs ++ (58 ∷ u) ≡ ys ++ (58 ∷ v)
    → (xs ≡ ys) × (u ≡ v)
same_cut [] [] u v a b h = (refl, cc)
same_cut [] (y ∷ ys) u v a (b, _) h = absurd (b (sym (cc)))
same_cut (x ∷ xs) [] u v (a, _) b h = absurd (a (cc))
same_cut (x ∷ xs) (y ∷ ys) u v (_, a) (_, b) h = let (p, q) = same_cut xs ys u v a b (cc) in (cc, q)

-- Two texts of one length are cut behind it alike.
same_length : (xs ys u v : List ℕ) → length xs ≡ length ys → xs ++ u ≡ ys ++ v → (xs ≡ ys) × (u ≡ v)
same_length [] [] u v e h = (refl, h)
same_length [] (y ∷ ys) u v e h = absurd (omega (arith, e))
same_length (x ∷ xs) [] u v e h = absurd (omega (arith, e))
same_length (x ∷ xs) (y ∷ ys) u v e h =
    let (p, q) = same_length xs ys u v (omega (arith, e)) (cc) in (cc, q)

-- A part can be told apart from what follows it.
encode_part-prefix :
    (a b u v : List ℕ) → encode_part a ++ u ≡ encode_part b ++ v → (a ≡ b) × (u ≡ v)
unfolding encode_part to_string
encode_part-prefix a b u v h =
    let (p, q) =
      same_cut (to_string (length a)) (to_string (length b)) (a ++ u) (b ++ v)
        (digits_from-NoColon (length a) (length a)) (digits_from-NoColon (length b) (length b))
        (sym (append_assoc (to_string (length a)) (58 ∷ a) u)
          ∙ h
          ∙ append_assoc (to_string (length b)) (58 ∷ b) v) in
    same_length a b u v (to_string-injective (length a) (length b) p) q

kind_of : ℕ → Option SemanticTypeKind
kind_of c =
    if c == 98
    then some builtin
    else if c == 99
    then some class
    else if c == 105
    then some interface
    else if c == 103
    then some generic
    else if c == 117
    then some union
    else if c == 112
    then some type_parameter
    else if c == 110
    then some integer_argument
    else some bottom

kind_of-kind_tag : (kind : SemanticTypeKind) → kind_of (kind_tag kind) ≡ some kind
unfolding kind_of kind_tag
kind_of-kind_tag builtin = refl
kind_of-kind_tag _ = refl

kind_tag-injective : (a b : SemanticTypeKind) → kind_tag a ≡ kind_tag b → a ≡ b
kind_tag-injective a b h =
    let read : some a ≡ some b = sym (kind_of-kind_tag a) ∙ ap kind_of h ∙ kind_of-kind_tag b in cc

part_not_empty : (a u : List ℕ) → encode_part a ++ u ≢ []
unfolding encode_part
part_not_empty a u h = absurd (
    omega (
      arith,
      ap (λ (xs : List ℕ). length xs) h,
      length-append (to_string (length a) ++ (58 ∷ a)) u,
      length-append (to_string (length a)) (58 ∷ a),
    ))

key-parts :
    (p p' : ℕ) (k k' : SemanticTypeKind) (n n' : List ℕ) (a a' : Arguments) (i i' : ℕ)
    → key (node p k n a i) ≡ key (node p' k' n' a' i')
    → (k ≡ k') × (n ≡ n') × (i ≡ i') × (keys a ≡ keys a')
unfolding key
key-parts at at' k k' n n' a a' i i' h =
    let (p, q) =
      encode_part-prefix n n' (encode_part (to_string i) ++ keys a)
        (encode_part (to_string i') ++ keys a') (cc) in
    let (r, s) = encode_part-prefix (to_string i) (to_string i') (keys a) (keys a') q in
    (kind_tag-injective k k' (cc), p, to_string-injective i i' r, s)

keys-parts :
    (t u : SemanticType) (a b : Arguments)
    → keys (argument t a) ≡ keys (argument u b)
    → (key t ≡ key u) × (keys a ≡ keys b)
unfolding key
keys-parts t u a b h = encode_part-prefix (key t) (key u) (keys a) (keys b) h

keys-empty : (t : SemanticType) (a : Arguments) → keys (argument t a) ≢ []
unfolding key
keys-empty t a h = part_not_empty (key t) (keys a) h

no_keys : keys no_more ≡ []
unfolding key
no_keys = refl

-- A type without the addresses of its objects.
unfoldable mutual
  pub bare : SemanticType → SemanticType
  bare (node address kind name arguments integer) = node 0 kind name (bares arguments) integer

  pub bares : Arguments → Arguments
  bares no_more = no_more
  bares (argument type rest) = argument (bare type) (bares rest)

-- Types with one key are one type, but for the addresses.
mutual
  unfolding bare bares

  pub key-injective : (t u : SemanticType) → key t ≡ key u → bare t ≡ bare u
  key-injective (node at k n a i) (node at' k' n' a' i') h =
      let (p, q, r, s) = key-parts at at' k k' n n' a a' i i' h in
      let same = keys-injective a a' s in cc

  keys-injective : (a b : Arguments) → keys a ≡ keys b → bares a ≡ bares b
  keys-injective no_more no_more h = refl
  keys-injective no_more (argument t b) h = absurd (keys-empty t b (sym h ∙ no_keys))
  keys-injective (argument t a) no_more h = absurd (keys-empty t a (h ∙ no_keys))
  keys-injective (argument t a) (argument u b) h =
      let (p, q) = keys-parts t u a b h in
      let first = key-injective t u p in let rest = keys-injective a b q in cc
