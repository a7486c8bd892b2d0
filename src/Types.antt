-- ===== src/Types.antt =====
-- The interned semantic types (src/analysis/semantic_type.cpp). The interner shares one object for each
-- key, and references are compared by the address of the object.
pub mod Keys
pub mod Interning
pub mod Union
mod Tests
use lumiere.Common.{
  ℕ, zero, suc, ◌+◌, ◌/◌, ◌%◌, ◌≡◌, refl, Bool, Option, none, some, List, [], ◌∷◌, ◌++◌, length,
  ltb, if◌then◌else◌,
}
use lumiere.Lexer.Keywords.{same_text}

pub data SemanticTypeKind : Type 0 where
  builtin class interface generic union type_parameter integer_argument bottom : SemanticTypeKind

-- A type with the address of its object, which comes first: a `SemanticTypeRef` is the type that it
-- points to. The arguments are such references.
mutual
  pub data SemanticType : Type 0 where
    node : ℕ → SemanticTypeKind → List ℕ → Arguments → ℕ → SemanticType

  pub data Arguments : Type 0 where
    no_more : Arguments
    argument : SemanticType → Arguments → Arguments

abbrev pub address_of : SemanticType → ℕ
address_of (node address kind name arguments integer) = address

-- The letter of a kind.
unfoldable pub kind_tag : SemanticTypeKind → ℕ
kind_tag builtin = 98
kind_tag class = 99
kind_tag interface = 105
kind_tag generic = 103
kind_tag union = 117
kind_tag type_parameter = 112
kind_tag integer_argument = 110
kind_tag bottom = 120

-- `std::to_string`: the last digit behind those of the quotient. A number has fewer digits than its value
-- has units, so its value is fuel enough.
unfoldable pub digits_from : ℕ → ℕ → List ℕ
digits_from zero n = (48 + n % 10) ∷ []
digits_from (suc fuel) n =
    let rest : List ℕ = digits_from fuel (n / 10) in
    if ltb n 10 then (48 + n) ∷ [] else rest ++ ((48 + n % 10) ∷ [])

unfoldable pub to_string : ℕ → List ℕ
to_string n = digits_from n n

-- The length, a colon and the value.
unfoldable pub encode_part : List ℕ → List ℕ
encode_part value = to_string (length value) ++ (58 ∷ value)

-- The key that `intern` builds.
unfoldable mutual
  pub key : SemanticType → List ℕ
  key (node address kind name arguments integer) =
      kind_tag kind ∷ (encode_part name ++ (encode_part (to_string integer) ++ keys arguments))

  pub keys : Arguments → List ℕ
  keys no_more = []
  keys (argument type rest) = encode_part (key type) ++ keys rest

-- `m_types`: each type under its key.
abbrev pub Types : Type 0
Types = List (List ℕ × SemanticType)

unfoldable pub find : Types → List ℕ → Option SemanticType
find [] wanted = none
find ((k, found) ∷ rest) wanted = if same_text k wanted then some found else find rest wanted

-- `m_types`, and how many objects were made: their number is the address of the next one.
pub record TypeInterner : Type 0 where
  pub types : Types
  pub made : ℕ

-- The type under the key, which is made and stored if there is none.
unfoldable pub intern :
    TypeInterner → SemanticTypeKind → List ℕ → Arguments → ℕ → SemanticType × TypeInterner
intern interner kind name arguments integer =
    let type = node interner.made kind name arguments integer in
    elim (find interner.types (key type)) [
      | some found ↦ (found, interner)
      | none ↦
          (type, record { types = (key type, type) ∷ interner.types; made = interner.made + 1 })
    ]

-- A generic type without arguments is refused by an exception.
unfoldable pub generic_type :
    TypeInterner → List ℕ → Arguments → Option (SemanticType × TypeInterner)
generic_type interner name no_more = none
generic_type interner name arguments = some (intern interner generic name arguments 0)
