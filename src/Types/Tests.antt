-- ===== src/Types/Tests.antt =====
-- A class and an interface of one name (tests/test_analysis.cpp), and the theorem on them.
use lumiere.Common.{ℕ, ◌≡◌, ◌↔◌, refl, true, some, List, [], ◌∷◌, arith}
use lumiere.Lexer.Keywords.{same_text}
use lumiere.Types.{
  class, interface, union, SemanticType, node, argument, no_more, TypeInterner, find, key,
  to_string, digits_from, encode_part, kind_tag, intern,
}
use lumiere.Types.Keys.{bare}
use lumiere.Types.Interning.{IsInterned, intern-node, same_type-key}
use lumiere.Types.Union.{display, flatten, same_type, unique_behind, unique, union_type}
use lumiere.Types.Union.Normal.{IsNormal, union_type-IsNormal}

-- The class "A", the interface "A" and the union of both, in this order.
abbrev class_a : SemanticType
class_a = node 0 class (65 ∷ []) no_more 0

abbrev interface_a : SemanticType
interface_a = node 1 interface (65 ∷ []) no_more 0

abbrev both : SemanticType
both = node 2 union [] (argument class_a (argument interface_a no_more)) 0

-- "c1:A1:0"
class_a-key : key class_a ≡ 99 ∷ 49 ∷ 58 ∷ 65 ∷ 49 ∷ 58 ∷ 48 ∷ []
unfolding key to_string digits_from encode_part kind_tag
class_a-key = refl

hundred : to_string 105 ≡ 49 ∷ 48 ∷ 53 ∷ []
unfolding to_string digits_from
hundred = refl

abbrev stored : TypeInterner
stored = record { types = (key class_a, class_a) ∷ []; made = 1 }

intern-node_example :
    (bare (intern stored interface (65 ∷ []) no_more 0).0
      ≡ bare (node 1 interface (65 ∷ []) no_more 0))
    × IsInterned (intern stored interface (65 ∷ []) no_more 0).1
    × (intern (intern stored interface (65 ∷ []) no_more 0).1 interface (65 ∷ []) no_more 0
        ≡ intern stored interface (65 ∷ []) no_more 0)
    × ((wanted : List ℕ) (t : SemanticType)
        → find stored.types wanted ≡ some t
        → find (intern stored interface (65 ∷ []) no_more 0).1.types wanted ≡ some t)
intern-node_example =
    intern-node stored interface (65 ∷ []) no_more 0 ((refl, tt), (omega arith, tt))

-- Both types.
abbrev two_stored : TypeInterner
two_stored = record {
  types = (key interface_a, interface_a) ∷ (key class_a, class_a) ∷ [];
  made = 2;
}

class_found : find two_stored.types (key class_a) ≡ some class_a
unfolding find same_text key to_string digits_from encode_part kind_tag
class_found = refl

interface_found : find two_stored.types (key interface_a) ≡ some interface_a
unfolding find same_text key to_string digits_from encode_part kind_tag
interface_found = refl

same_type-key_example :
    ((same_type class_a interface_a ≡ true) ↔ (key class_a ≡ key interface_a))
    × (key class_a ≡ key interface_a → bare class_a ≡ bare interface_a)
same_type-key_example =
    same_type-key two_stored (key class_a) (key interface_a) class_a interface_a
      ((refl, (refl, tt)), (omega arith, (omega arith, tt))) class_found interface_found

union_displayed : display both ≡ 65 ∷ 32 ∷ 124 ∷ 32 ∷ 65 ∷ []
unfolding display
union_displayed = refl

-- Types of one printed form keep the order that the sorting leaves them in: equal ones go only where
-- they follow each other.
interleaved : unique (flatten (class_a ∷ both ∷ [])) ≡ class_a ∷ interface_a ∷ []
unfolding unique unique_behind flatten same_type
interleaved = refl

twice : unique (flatten (both ∷ class_a ∷ [])) ≡ class_a ∷ interface_a ∷ class_a ∷ []
unfolding unique unique_behind flatten same_type
twice = refl

union_type-IsNormal_example :
    (type : SemanticType) × (after : TypeInterner) × (union_type
        (λ xs. xs)
        stored
        (class_a ∷ both ∷ [])
      ≡ some (type, after))
    × IsNormal type
union_type-IsNormal_example =
    union_type-IsNormal (λ xs. xs) (λ P xs h. h) (λ xs. refl) stored class_a (both ∷ []) (refl, tt)
      (tt, ((((λ u. u), ((λ u. u), tt)), omega arith), tt))
