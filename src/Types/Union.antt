-- ===== src/Types/Union.antt =====
-- The printed form of a type and the unions (src/analysis/semantic_type.cpp). `std::sort` leaves open
-- in which order types of one printed form come, so the sorting is a parameter.
pub mod Normal
use lumiere.Common.{
  ℕ, Bool, true, false, not, ◌&&◌, Option, none, some, List, [], ◌∷◌, ◌++◌, ◌==◌, if◌then◌else◌,
}
use lumiere.Types.{
  SemanticTypeKind, builtin, class, interface, generic, union, type_parameter, integer_argument,
  bottom, SemanticType, node, Arguments, no_more, argument, to_string, TypeInterner, address_of,
  intern,
}

-- The printed forms with a separator between them, and "Jamais" for the bottom type.
unfoldable mutual
  pub display : SemanticType → List ℕ
  display (node address integer_argument name arguments integer) = to_string integer
  display (node address bottom name arguments integer) = 74 ∷ 97 ∷ 109 ∷ 97 ∷ 105 ∷ 115 ∷ []
  display (node address union name arguments integer) = displays (32 ∷ 124 ∷ 32 ∷ []) arguments
  display (node address generic name arguments integer) =
      name ++ (91 ∷ (displays (44 ∷ []) arguments ++ (93 ∷ [])))
  display (node address builtin name arguments integer) = name
  display (node address class name arguments integer) = name
  display (node address interface name arguments integer) = name
  display (node address type_parameter name arguments integer) = name

  pub displays : List ℕ → Arguments → List ℕ
  displays separator no_more = []
  displays separator (argument type no_more) = display type
  displays separator (argument type (argument next rest)) =
      display type ++ (separator ++ displays separator (argument next rest))

abbrev pub to_list : Arguments → List SemanticType
to_list no_more = []
to_list (argument type rest) = type ∷ to_list rest

abbrev pub from_list : List SemanticType → Arguments
from_list [] = no_more
from_list (type ∷ rest) = argument type (from_list rest)

-- The loop over the alternatives: those of a union take its place.
unfoldable pub flatten : List SemanticType → List SemanticType
flatten [] = []
flatten (node address union name arguments integer ∷ rest) = to_list arguments ++ flatten rest
flatten (type ∷ rest) = type ∷ flatten rest

-- Two references are one if they point to one object.
unfoldable pub same_type : SemanticType → SemanticType → Bool
same_type left right = address_of left == address_of right

-- `std::unique`: of types that follow each other, the first of each run.
unfoldable pub unique_behind : SemanticType → List SemanticType → List SemanticType
unique_behind kept [] = []
unique_behind kept (type ∷ rest) =
    if same_type kept type then unique_behind kept rest else type ∷ unique_behind type rest

unfoldable pub unique : List SemanticType → List SemanticType
unique [] = []
unique (type ∷ rest) = type ∷ unique_behind type rest

-- A single alternative is no union.
unfoldable pub close_union : TypeInterner → List SemanticType → SemanticType × TypeInterner
close_union interner (type ∷ []) = (type, interner)
close_union interner normalized = intern interner union [] (from_list normalized) 0

-- No alternative at all is refused by an exception.
unfoldable pub union_type :
    (List SemanticType → List SemanticType)
    → TypeInterner
    → List SemanticType
    → Option (SemanticType × TypeInterner)
union_type sort interner [] = none
union_type sort interner (first ∷ rest) =
    some (close_union interner (unique (sort (flatten (first ∷ rest)))))
