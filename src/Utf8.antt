-- ===== src/Utf8.antt =====
-- UTF-8 text as the runtime reads and writes it (src/parser/utf8.cpp). A text is a list of bytes and
-- a character is a code point.
pub mod Bytes
pub mod RoundTrip
pub mod Sequences
pub mod Canonical
mod Tests
use Prim.Native.Nat.{bit_and, bit_or}
use lumiere.Common.{
  ℕ, zero, suc, ◌+◌, ◌-◌, ◌*◌, ◌/◌, Bool, not, ◌&&◌, ◌||◌, Option, none, some, List, [], ◌∷◌,
  length, get_elem?, ltb, leb, ◌==◌, if◌then◌else◌,
}

pub is_continuation : ℕ → Bool
is_continuation byte = bit_and byte 0xc0 == 0x80

-- The width of the character that a byte leads, and its bits of the value.
pub lead : ℕ → Option (ℕ × ℕ)
lead first =
    if leb first 0x7f
    then some (1, first)
    else if bit_and first 0xe0 == 0xc0
    then some (2, bit_and first 0x1f)
    else if bit_and first 0xf0 == 0xe0
    then some (3, bit_and first 0x0f)
    else if bit_and first 0xf8 == 0xf0
    then some (4, bit_and first 0x07)
    else none

-- The loop over the continuation bytes, from the offset `at` on. The test on the width before it keeps
-- every read inside the text.
pub continue_value : ℕ → List ℕ → ℕ → ℕ → Option ℕ
continue_value zero text at value = some value
continue_value (suc count) text at value = elim (get_elem? text at) [
  | none ↦ none
  | some byte ↦
      let rest = continue_value count text (at + 1) (bit_or (value * 64) (bit_and byte 0x3f)) in
      if not (is_continuation byte) then none else rest
]

-- What `decode_one` refuses once the bytes have been read.
pub is_refused : ℕ → ℕ → Bool
is_refused width value =
    (width == 2 && ltb value 0x80)
    || (width == 3 && ltb value 0x800)
    || (width == 4 && ltb value 0x10000)
    || ltb 0x10ffff value
    || (leb 0xd800 value && leb value 0xdfff)

pub decode_width : List ℕ → ℕ → ℕ → ℕ → Option (ℕ × ℕ)
unfolding continue_value is_continuation is_refused
decode_width text offset width value =
    if ltb (length text) (offset + width)
    then none
    else elim (continue_value (width - 1) text (offset + 1) value) [
      | none ↦ none
      | some character ↦
          if is_refused width character then none else some (character, offset + width)
    ]

-- The character, and the offset behind it.
pub decode_one : List ℕ → ℕ → Option (ℕ × ℕ)
unfolding lead decode_width
decode_one text offset = elim (get_elem? text offset) [
  | none ↦ none
  | some first ↦ elim (lead first) [
    | none ↦ none
    | some (width, value) ↦ decode_width text offset width value
  ]
]

unfoldable pub decode_single_character : List ℕ → Option ℕ
unfolding decode_one
decode_single_character text = elim (decode_one text 0) [
  | none ↦ none
  | some (character, next) ↦ if not (next == length text) then none else some character
]

-- The `while` loops of `character_at` and `character_count`. A character takes a byte at least, so as
-- many rounds as bytes are enough.
pub at_loop : ℕ → List ℕ → ℕ → ℕ → ℕ → Option ℕ
at_loop zero text offset current index = none
at_loop (suc fuel) text offset current index =
    let rest : ℕ → Option ℕ = λ next. at_loop fuel text next (current + 1) index in
    if ltb offset (length text)
    then (elim (decode_one text offset) [
      | none ↦ none
      | some (character, next) ↦ if current == index then some character else rest next
    ])
    else none

pub character_at : List ℕ → ℕ → Option ℕ
unfolding at_loop decode_one
character_at text index = at_loop (length text) text 0 0 index

pub count_loop : ℕ → List ℕ → ℕ → ℕ → Option ℕ
count_loop zero text offset count = if ltb offset (length text) then none else some count
count_loop (suc fuel) text offset count =
    let rest : ℕ → Option ℕ = λ next. count_loop fuel text next (count + 1) in
    if ltb offset (length text)
    then (elim (decode_one text offset) [ none ↦ none | some (_, next) ↦ rest next ])
    else some count

pub character_count : List ℕ → Option ℕ
unfolding count_loop decode_one
character_count text = count_loop (length text) text 0 0

unfoldable pub encode_character : ℕ → List ℕ
encode_character character =
    if leb character 0x7f
    then character ∷ []
    else if leb character 0x7ff
    then bit_or 0xc0 (bit_and (character / 64) 0x1f) ∷ bit_or 0x80 (bit_and character 0x3f) ∷ []
    else if leb character 0xffff
    then bit_or 0xe0 (bit_and (character / 4096) 0x0f)
      ∷ bit_or 0x80 (bit_and (character / 64) 0x3f)
      ∷ bit_or 0x80 (bit_and character 0x3f)
      ∷ []
    else bit_or 0xf0 (bit_and (character / 262144) 0x07)
      ∷ bit_or 0x80 (bit_and (character / 4096) 0x3f)
      ∷ bit_or 0x80 (bit_and (character / 64) 0x3f)
      ∷ bit_or 0x80 (bit_and character 0x3f)
      ∷ []
