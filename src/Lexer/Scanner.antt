-- ===== src/Lexer/Scanner.antt =====
-- src/lexer/scanner.cpp: a cursor over the source, which is a parameter since it never changes.
use lumiere.Common.{
  ℕ, zero, suc, ◌+◌, ◌-◌, Bool, true, false, not, ◌&&◌, List, [], ◌∷◌, length, get_or, ◌==◌,
  if◌then◌else◌,
}

pub record Scanner : Type 0 where
  pub start : ℕ
  pub current : ℕ
  pub start_line : ℕ
  pub start_column : ℕ
  pub line : ℕ
  pub column : ℕ

abbrev pub initial : Scanner
initial = record { start = 0; current = 0; start_line = 1; start_column = 1; line = 1; column = 1 }

-- What `save` keeps.
pub record State : Type 0 where
  pub current : ℕ
  pub line : ℕ
  pub column : ℕ

abbrev pub save : Scanner → State
save s = record { current = s.current; line = s.line; column = s.column }

abbrev pub restore : State → Scanner → Scanner
restore saved s = record s { column = saved.column; current = saved.current; line = saved.line }

abbrev pub mark_start : Scanner → Scanner
mark_start s = record s { start = s.current; start_line = s.line; start_column = s.column }

abbrev pub mark_line_end : Scanner → Scanner
mark_line_end s = record s { column = 0; line = s.line + 1 }

-- `substr`
abbrev pub slice : List ℕ → ℕ → ℕ → List ℕ
slice [] start count = []
slice (x ∷ xs) zero zero = []
slice (x ∷ xs) zero (suc count) = x ∷ slice xs zero count
slice (x ∷ xs) (suc start) count = slice xs start count

module _ (source : List ℕ) where
  unfoldable pub is_at_end : Scanner → Bool
  is_at_end s = s.current == length source

  -- The byte 0 stands for a read past the end.
  unfoldable pub peek : Scanner → ℕ
  peek s = get_or source s.current 0

  unfoldable pub peek_next : Scanner → ℕ
  peek_next s = get_or source (s.current + 1) 0

  -- The cursor after `advance`; the byte that it returns is `peek` of the cursor before.
  unfoldable pub advance : Scanner → Scanner
  advance s =
      if not (is_at_end s) then record s { column = s.column + 1; current = s.current + 1 } else s

  unfoldable pub match_byte : ℕ → Scanner → Bool × Scanner
  match_byte expected s =
      if is_at_end s
      then (false, s)
      else if not (peek s == expected)
      then (false, s)
      else (true, record s { column = s.column + 1; current = s.current + 1 })

  unfoldable pub lexeme : Scanner → List ℕ
  lexeme s = slice source s.start (s.current - s.start)

  -- The bytes that are left, the fuel of every loop: a round passes over one of them.
  unfoldable pub remaining : Scanner → ℕ
  remaining s = length source - s.current

  -- Where the rounds of a loop have run out. The loops of the source end at the end of the source at the
  -- latest; a loop that does not would leave the cursor outside, where no operation brings it.
  unfoldable pub spent : Scanner → Scanner
  spent s = if is_at_end s then s else record s { current = suc (length source) }

  -- `while (!is_at_end() && test) advance();`
  unfoldable pub advance_while : (Scanner → Bool) → ℕ → Scanner → Scanner
  advance_while test zero s = spent s
  advance_while test (suc fuel) s =
      let rest : Scanner = advance_while test fuel (advance s) in
      if not (is_at_end s) && test s then rest else s
