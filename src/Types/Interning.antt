-- ===== src/Types/Interning.antt =====
-- What the interner gives back is the type that was asked for; one key has one object.
use lumiere.Common.{
  ℕ, ◌≡◌, refl, ◌∙◌, true, none, some, List, [], ◌∷◌, All, arith, Bool-cases, Option-cases, inl,
  inr, ap, sym, ◌+◌, ◌<◌, ◌↔◌, ==→eq, ==_refl,
}
use mathlib.Core.Path.{subst}
use lumiere.Lexer.Keywords.{same_text}
use mathlib.Core.Option.{some-injective}
use lumiere.Types.{
  SemanticTypeKind, SemanticType, node, address_of, Arguments, Types, TypeInterner, key, find,
  intern,
}
use lumiere.Types.Keys.{bare, key-injective}
use lumiere.Types.Union.{same_type}

-- Each type is stored under its own key.
abbrev pub IsKeyed : Types → Type 0
IsKeyed types = All (λ (entry : List ℕ × SemanticType). entry.0 ≡ key entry.1) types

same_text-eq : (xs ys : List ℕ) → same_text xs ys ≡ true → xs ≡ ys
unfolding same_text
same_text-eq [] [] h = refl
same_text-eq [] (y ∷ ys) h = absurd (cc)
same_text-eq (x ∷ xs) [] h = absurd (cc)
same_text-eq (x ∷ xs) (y ∷ ys) h = ground (arith, same_text-eq xs ys (ground arith))

same_text_refl : (xs : List ℕ) → same_text xs xs ≡ true
unfolding same_text
same_text_refl [] = refl
same_text_refl (x ∷ xs) = ground (arith, same_text_refl xs)

find-key :
    (types : Types) (wanted : List ℕ) (t : SemanticType)
    → IsKeyed types
    → find types wanted ≡ some t
    → key t ≡ wanted
unfolding find
find-key [] wanted t keyed h = absurd (cc)
find-key ((k, stored) ∷ rest) wanted t (here, keyed) h = elim (Bool-cases (same_text k wanted)) [
  | inl same ↦
      let e : some stored ≡ some t = rw (same, find) at h in
      sym (here ∙ ap key (cc)) ∙ same_text-eq k wanted same
  | inr other ↦ find-key rest wanted t keyed (rw (other, find) at h)
]

-- The latest object stands first; the addresses of the stored ones are below the bound and differ.
abbrev pub IsAddressed : ℕ → Types → Type 0
IsAddressed bound [] = Unit {0}
IsAddressed bound ((k, stored) ∷ rest) =
    (address_of stored < bound) × IsAddressed (address_of stored) rest

-- Each type is stored under its key, and no two stored types are one object.
abbrev pub IsInterned : TypeInterner → Type 0
IsInterned interner = IsKeyed interner.types × IsAddressed interner.made interner.types

find-address :
    (bound : ℕ) (types : Types) (wanted : List ℕ) (t : SemanticType)
    → IsAddressed bound types
    → find types wanted ≡ some t
    → address_of t < bound
unfolding find
find-address bound [] wanted t h e = absurd (cc)
find-address bound ((k, stored) ∷ rest) wanted t (below, h) e =
    elim (Bool-cases (same_text k wanted)) [
      | inl same ↦
          let found : some stored ≡ some t = rw (same, find) at e in
          subst (λ (u : SemanticType). address_of u < bound) {x = stored} {y = t} (cc) below
      | inr other ↦
          let under = find-address (address_of stored) rest wanted t h (rw (other, find) at e) in
          omega (arith, below, under)
    ]

-- Of one store, two types that are one object were found under one key.
one_address :
    (bound : ℕ) (types : Types) (k l : List ℕ) (t u : SemanticType)
    → IsAddressed bound types
    → find types k ≡ some t
    → find types l ≡ some u
    → address_of t ≡ address_of u
    → k ≡ l
unfolding find
one_address bound [] k l t u h e f same = absurd (cc)
one_address bound ((m, stored) ∷ rest) k l t u (below, h) e f same =
    let first : (v : SemanticType) → some stored ≡ some v → address_of stored ≡ address_of v =
      λ v g. ap address_of (some-injective stored v g) in
    elim (Bool-cases (same_text m k)) [
      | inl k_here ↦
          let at_k = first t (rw (k_here, find) at e) in
          elim (Bool-cases (same_text m l)) [
            | inl l_here ↦ sym (same_text-eq m k k_here) ∙ same_text-eq m l l_here
            | inr l_later ↦ absurd (
                omega (
                  arith,
                  same,
                  at_k,
                  find-address (address_of stored) rest l u h (rw (l_later, find) at f),
                ))
          ]
      | inr k_later ↦
          let under = find-address (address_of stored) rest k t h (rw (k_later, find) at e) in
          elim (Bool-cases (same_text m l)) [
            | inl l_here ↦ absurd (omega (arith, same, under, first u (rw (l_here, find) at f)))
            | inr l_later ↦
                one_address (address_of stored) rest k l t u h (rw (k_later, find) at e)
                  (rw (l_later, find) at f) same
          ]
    ]

-- Two types that are found in a store of interned types are one object exactly if their keys are one,
-- and then they are one type, but for the addresses in it.
pub same_type-key :
    (interner : TypeInterner) (k l : List ℕ) (t u : SemanticType)
    → IsInterned interner
    → find interner.types k ≡ some t
    → find interner.types l ≡ some u
    → ((same_type t u ≡ true) ↔ (key t ≡ key u)) × (key t ≡ key u → bare t ≡ bare u)
unfolding same_type
same_type-key interner k l t u (keyed, addressed) e f =
    let at_k = find-key interner.types k t keyed e in
    let at_l = find-key interner.types l u keyed f in
    (
      (
        λ same.
            at_k
            ∙ one_address interner.made interner.types k l t u addressed e f
                (==→eq (address_of t) (address_of u) same)
            ∙ sym at_l,
        λ same.
            let one : some t ≡ some u =
              sym e ∙ ap (find interner.types) (sym at_k ∙ same ∙ at_l) ∙ f in
            rw (ap address_of (some-injective t u one), ==_refl (address_of u)) refl,
      ),
      λ same. key-injective t u same,
    )

module _ (interner : TypeInterner) (kind : SemanticTypeKind) (name : List ℕ) (arguments : Arguments)
    (integer : ℕ) where
  abbrev asked : SemanticType
  asked = node interner.made kind name arguments integer

  abbrev stored : TypeInterner
  stored = record { types = (key asked, asked) ∷ interner.types; made = interner.made + 1 }

  intern_found :
      (t : SemanticType)
      → find interner.types (key asked) ≡ some t
      → intern interner kind name arguments integer ≡ (t, interner)
  unfolding intern
  intern_found t found = rw (found, intern) refl

  intern_new :
      find interner.types (key asked) ≡ none
      → intern interner kind name arguments integer ≡ (asked, stored)
  unfolding intern
  intern_new nothing = rw (nothing, intern) refl

  find_first : find stored.types (key asked) ≡ some asked
  unfolding find
  find_first = rw (same_text_refl (key asked), find) refl

-- The key has no address.
key-node :
    (p q : ℕ) (kind : SemanticTypeKind) (name : List ℕ) (arguments : Arguments) (integer : ℕ)
    → key (node p kind name arguments integer) ≡ key (node q kind name arguments integer)
unfolding key
key-node p q kind name arguments integer = refl

-- What was found before is found after the storing of a type whose key was not found.
find_kept :
    (types : Types) (fresh wanted : List ℕ) (t u : SemanticType)
    → find types fresh ≡ none
    → find types wanted ≡ some u
    → find ((fresh, t) ∷ types) wanted ≡ some u
unfolding find
find_kept types fresh wanted t u nothing found = elim (Bool-cases (same_text fresh wanted)) [
  | inl same ↦ absurd (cc (nothing, found, same_text-eq fresh wanted same))
  | inr other ↦ rw (other, find) found
]

module _ (interner : TypeInterner) (kind : SemanticTypeKind) (name : List ℕ) (arguments : Arguments)
    (integer : ℕ) where
  -- The type that `intern` gives, but for the addresses in it.
  pub intern-bare :
      IsKeyed interner.types
      → bare (intern interner kind name arguments integer).0
        ≡ bare (node interner.made kind name arguments integer)
  intern-bare keyed =
      let type = node interner.made kind name arguments integer in
      elim (Option-cases (find interner.types (key type))) [
        | inl nothing ↦
            ap (λ (r : SemanticType × TypeInterner). bare r.0)
              (intern_new interner kind name arguments integer nothing)
        | inr (t, found) ↦
            ap (λ (r : SemanticType × TypeInterner). bare r.0)
              (intern_found interner kind name arguments integer t found)
            ∙ key-injective t type (find-key interner.types (key type) t keyed found)
      ]

  -- From a store of interned types, `intern` gives a type of the kind, name, arguments and integer that
  -- were asked for, but for the addresses in the arguments, whether it was stored or not, and leaves a
  -- store of interned types. Asked again, it gives the same object and leaves the store as it is; what
  -- was found in the store before is found after it.
  pub intern-node :
      IsInterned interner
      → (bare (intern interner kind name arguments integer).0
          ≡ bare (node interner.made kind name arguments integer))
        × IsInterned (intern interner kind name arguments integer).1
        × (intern (intern interner kind name arguments integer).1 kind name arguments integer
            ≡ intern interner kind name arguments integer)
        × ((wanted : List ℕ) (t : SemanticType)
            → find interner.types wanted ≡ some t
            → find (intern interner kind name arguments integer).1.types wanted ≡ some t)
  intern-node (keyed, addressed) =
      let type = node interner.made kind name arguments integer in
      let after : TypeInterner = record {
        types = (key type, type) ∷ interner.types;
        made = interner.made + 1;
      } in
      let Fine : SemanticType × TypeInterner → Type 0 = λ r.
        IsInterned r.1
        × (intern r.1 kind name arguments integer ≡ r)
        × ((wanted : List ℕ) (t : SemanticType)
            → find interner.types wanted ≡ some t
            → find r.1.types wanted ≡ some t) in
      let fine : Fine (intern interner kind name arguments integer) =
        elim (Option-cases (find interner.types (key type))) [
          | inl nothing ↦
              subst Fine (sym (intern_new interner kind name arguments integer nothing)) (
                ((refl, keyed), (omega arith, addressed)),
                intern_found after kind name arguments integer type (
                    ap (find after.types)
                      (key-node after.made interner.made kind name arguments integer)
                    ∙ find_first interner kind name arguments integer),
                λ wanted t found. find_kept interner.types (key type) wanted type t nothing found,
              )
          | inr (t, found) ↦
              subst Fine (sym (intern_found interner kind name arguments integer t found)) (
                (keyed, addressed),
                intern_found interner kind name arguments integer t found,
                λ wanted u before. before,
              )
        ] in
      (intern-bare keyed, fine.0, fine.1, fine.2)
