-- ===== src/Types/Union/Normal.antt =====
-- A union has at least two alternatives, and none of them is a union.
use mathlib.Core.Path.{subst, sym}
use lumiere.Common.{
  suc, ◌≤◌, ◌≡◌, refl, ap, some, List, [], ◌∷◌, ◌++◌, length, length-append, All, arith, Bool-cases,
  inl, inr,
}
use lumiere.Types.{
  builtin, class, interface, generic, union, type_parameter, integer_argument, bottom, SemanticType,
  node, Arguments, no_more, argument, TypeInterner, intern,
}
use lumiere.Types.Keys.{bare, bares}
use lumiere.Types.Interning.{IsKeyed, intern-bare}
use lumiere.Types.Union.{
  to_list, from_list, flatten, same_type, unique_behind, unique, close_union, union_type,
}

abbrev pub IsUnion : SemanticType → Type 0
IsUnion (node address union name arguments integer) = Unit
IsUnion _ = ⊥

abbrev pub IsPlain : SemanticType → Type 0
IsPlain type = IsUnion type → ⊥

-- What holds of the alternatives of a union; of another type nothing is asked.
abbrev pub IsNormal : SemanticType → Type 0
IsNormal (node address union name arguments integer) =
    All IsPlain (to_list arguments) × (2 ≤ length (to_list arguments))
IsNormal _ = Unit

All-append : (xs ys : List SemanticType) → All IsPlain xs → All IsPlain ys → All IsPlain (xs ++ ys)
All-append [] ys a b = b
All-append (x ∷ xs) ys (h, a) b = (h, All-append xs ys a b)

flatten-IsPlain : (types : List SemanticType) → All IsNormal types → All IsPlain (flatten types)
unfolding flatten
flatten-IsPlain [] h = tt
flatten-IsPlain (node at union n a i ∷ rest) ((plain, two), h) =
    All-append (to_list a) (flatten rest) plain (flatten-IsPlain rest h)
flatten-IsPlain (node at builtin n a i ∷ rest) (_, h) = ((λ u. u), flatten-IsPlain rest h)
flatten-IsPlain (node at class n a i ∷ rest) (_, h) = ((λ u. u), flatten-IsPlain rest h)
flatten-IsPlain (node at interface n a i ∷ rest) (_, h) = ((λ u. u), flatten-IsPlain rest h)
flatten-IsPlain (node at generic n a i ∷ rest) (_, h) = ((λ u. u), flatten-IsPlain rest h)
flatten-IsPlain (node at type_parameter n a i ∷ rest) (_, h) = ((λ u. u), flatten-IsPlain rest h)
flatten-IsPlain (node at integer_argument n a i ∷ rest) (_, h) = ((λ u. u), flatten-IsPlain rest h)
flatten-IsPlain (node at bottom n a i ∷ rest) (_, h) = ((λ u. u), flatten-IsPlain rest h)

length-flatten :
    (first : SemanticType) (rest : List SemanticType)
    → All IsNormal (first ∷ rest)
    → 1 ≤ length (flatten (first ∷ rest))
unfolding flatten
length-flatten (node at union n a i) rest ((plain, two), h) =
    omega (arith, two, length-append (to_list a) (flatten rest))
length-flatten (node at builtin n a i) rest h = omega arith
length-flatten (node at class n a i) rest h = omega arith
length-flatten (node at interface n a i) rest h = omega arith
length-flatten (node at generic n a i) rest h = omega arith
length-flatten (node at type_parameter n a i) rest h = omega arith
length-flatten (node at integer_argument n a i) rest h = omega arith
length-flatten (node at bottom n a i) rest h = omega arith

unique_behind-IsPlain :
    (kept : SemanticType) (types : List SemanticType)
    → All IsPlain types
    → All IsPlain (unique_behind kept types)
unfolding unique_behind
unique_behind-IsPlain kept [] h = tt
unique_behind-IsPlain kept (type ∷ rest) (a, h) = elim (Bool-cases (same_type kept type)) [
  | inl same ↦ rw (same, unique_behind) (unique_behind-IsPlain kept rest h)
  | inr other ↦ rw (other, unique_behind) (a, unique_behind-IsPlain type rest h)
]

to_list-from_list : (types : List SemanticType) → to_list (from_list types) ≡ types
to_list-from_list [] = refl
to_list-from_list (type ∷ rest) =
    ap (λ (xs : List SemanticType). type ∷ xs) (to_list-from_list rest)

IsPlain-IsNormal : (type : SemanticType) → IsPlain type → IsNormal type
IsPlain-IsNormal (node at union n a i) h = absurd (h tt)
IsPlain-IsNormal (node at builtin n a i) h = tt
IsPlain-IsNormal (node at class n a i) h = tt
IsPlain-IsNormal (node at interface n a i) h = tt
IsPlain-IsNormal (node at generic n a i) h = tt
IsPlain-IsNormal (node at type_parameter n a i) h = tt
IsPlain-IsNormal (node at integer_argument n a i) h = tt
IsPlain-IsNormal (node at bottom n a i) h = tt

-- The addresses do not matter.
bare-IsPlain : (type : SemanticType) → IsPlain (bare type) → IsPlain type
unfolding bare
bare-IsPlain (node at union n a i) h = h
bare-IsPlain (node at _ n a i) h = h

IsPlain-bare : (type : SemanticType) → IsPlain type → IsPlain (bare type)
unfolding bare
IsPlain-bare (node at union n a i) h = h
IsPlain-bare (node at _ n a i) h = h

bares-IsPlain : (a : Arguments) → All IsPlain (to_list (bares a)) → All IsPlain (to_list a)
unfolding bare
bares-IsPlain no_more h = tt
bares-IsPlain (argument type rest) (first, h) = (bare-IsPlain type first, bares-IsPlain rest h)

IsPlain-bares : (a : Arguments) → All IsPlain (to_list a) → All IsPlain (to_list (bares a))
unfolding bare
IsPlain-bares no_more h = tt
IsPlain-bares (argument type rest) (first, h) = (IsPlain-bare type first, IsPlain-bares rest h)

length-bares : (a : Arguments) → length (to_list (bares a)) ≡ length (to_list a)
unfolding bare
length-bares no_more = refl
length-bares (argument type rest) = ap suc (length-bares rest)

bares-normal :
    (a : Arguments)
    → All IsPlain (to_list (bares a)) × (2 ≤ length (to_list (bares a)))
    → All IsPlain (to_list a) × (2 ≤ length (to_list a))
bares-normal a (plain, two) = (bares-IsPlain a plain, omega (arith, two, length-bares a))

bare-IsNormal : (type : SemanticType) → IsNormal (bare type) → IsNormal type
unfolding bare
bare-IsNormal (node at union n a i) h = bares-normal a h
bare-IsNormal (node at _ n a i) h = tt

IsNormal-bare : (type : SemanticType) → IsNormal type → IsNormal (bare type)
unfolding bare
IsNormal-bare (node at union n a i) (plain, two) =
    (IsPlain-bares a plain, omega (arith, two, length-bares a))
IsNormal-bare (node at _ n a i) h = tt

-- Two alternatives or more make a normal union.
several :
    (interner : TypeInterner) (normalized : List SemanticType)
    → IsKeyed interner.types
    → All IsPlain normalized
    → 2 ≤ length normalized
    → IsNormal (intern interner union [] (from_list normalized) 0).0
several interner normalized keyed plain two =
    let asked = node interner.made union [] (from_list normalized) 0 in
    bare-IsNormal (intern interner union [] (from_list normalized) 0).0 (
      subst IsNormal (sym (intern-bare interner union [] (from_list normalized) 0 keyed)) (
        IsNormal-bare asked (
          subst (λ (xs : List SemanticType). All IsPlain xs × (2 ≤ length xs))
            (sym (to_list-from_list normalized)) (plain, two))))

close_union-IsNormal :
    (interner : TypeInterner) (normalized : List SemanticType)
    → IsKeyed interner.types
    → All IsPlain normalized
    → 1 ≤ length normalized
    → IsNormal (close_union interner normalized).0
unfolding close_union
close_union-IsNormal interner [] keyed plain some_type = absurd (omega arith)
close_union-IsNormal interner (type ∷ []) keyed (plain, _) some_type = IsPlain-IsNormal type plain
close_union-IsNormal interner (type ∷ next ∷ rest) keyed plain some_type =
    several interner (type ∷ next ∷ rest) keyed plain (omega arith)

unique-normal :
    (types : List SemanticType)
    → All IsPlain types
    → 1 ≤ length types
    → All IsPlain (unique types) × (1 ≤ length (unique types))
unfolding unique
unique-normal [] plain some_type = absurd (omega arith)
unique-normal (type ∷ rest) (a, plain) some_type =
    ((a, unique_behind-IsPlain type rest plain), omega arith)

-- From a store that holds each type under its key and alternatives that are normal, `union_type` gives a
-- type that is normal: if it is a union, it has two alternatives at least and none is a union. The
-- sorting keeps the length and what holds of all elements.
pub union_type-IsNormal :
    (sort : List SemanticType → List SemanticType)
    → ((P : SemanticType → Type 0) (xs : List SemanticType) → All P xs → All P (sort xs))
    → ((xs : List SemanticType) → length (sort xs) ≡ length xs)
    → (interner : TypeInterner) (first : SemanticType) (rest : List SemanticType)
    → IsKeyed interner.types
    → All IsNormal (first ∷ rest)
    → (type : SemanticType) × (after : TypeInterner) × (union_type sort interner (first ∷ rest)
        ≡ some (type, after))
      × IsNormal type
unfolding union_type
union_type-IsNormal sort keeps same_length interner first rest keyed normal =
    let flat = flatten (first ∷ rest) in
    let (plain, some_type) =
      unique-normal (sort flat) (keeps IsPlain flat (flatten-IsPlain (first ∷ rest) normal))
        (omega (arith, same_length flat, length-flatten first rest normal)) in
    let result = close_union interner (unique (sort flat)) in
    (
      result.0,
      result.1,
      refl,
      close_union-IsNormal interner (unique (sort flat)) keyed plain some_type,
    )
