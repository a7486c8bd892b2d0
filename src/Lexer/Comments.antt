-- ===== src/Lexer/Comments.antt =====
-- White space, comments and documentation comments (src/lexer/tokenizer.cpp).
use lumiere.Common.{
  ℕ, zero, suc, Bool, false, not, ◌&&◌, ◌||◌, List, [], ◌∷◌, ◌++◌, map, ◌==◌, if◌then◌else◌,
}
use lumiere.Lexer.Token.{TokenType, Token, text}
use lumiere.Lexer.Scanner.{
  Scanner, save, restore, mark_line_end, is_at_end, peek, peek_next, advance, match_byte, remaining,
  advance_while, spent,
}

-- `std::getline` until it fails: a last line feed opens no further line.
unfoldable pub push_byte : ℕ → List (List ℕ) → List (List ℕ)
push_byte byte [] = (byte ∷ []) ∷ []
push_byte byte (line ∷ lines) = (byte ∷ line) ∷ lines

unfoldable pub lines_of : List ℕ → List (List ℕ)
lines_of [] = []
lines_of (byte ∷ rest) = if byte == 10 then [] ∷ lines_of rest else push_byte byte (lines_of rest)

unfoldable pub is_blank : ℕ → Bool
is_blank c = c == 32 || c == 9 || c == 13

unfoldable pub trim_left : List ℕ → List ℕ
trim_left [] = []
trim_left (c ∷ rest) = if is_blank c then trim_left rest else c ∷ rest

unfoldable pub keep_right : ℕ → List ℕ → List ℕ
keep_right c [] = if is_blank c then [] else c ∷ []
keep_right c rest = c ∷ rest

unfoldable pub trim_right : List ℕ → List ℕ
trim_right [] = []
trim_right (c ∷ rest) = keep_right c (trim_right rest)

unfoldable pub drop_byte : ℕ → List ℕ → List ℕ
drop_byte byte [] = []
drop_byte byte (c ∷ rest) = if c == byte then rest else c ∷ rest

-- One leading star goes, and one space behind it.
unfoldable pub strip_star : List ℕ → List ℕ
strip_star [] = []
strip_star (c ∷ rest) = if c == 42 then drop_byte 32 rest else c ∷ rest

unfoldable pub drop_empty : List (List ℕ) → List (List ℕ)
drop_empty [] = []
drop_empty ([] ∷ lines) = drop_empty lines
drop_empty ((c ∷ line) ∷ lines) = (c ∷ line) ∷ lines

unfoldable pub keep_line : List ℕ → List (List ℕ) → List (List ℕ)
keep_line [] [] = []
keep_line line lines = line ∷ lines

unfoldable pub drop_empty_last : List (List ℕ) → List (List ℕ)
drop_empty_last [] = []
drop_empty_last (line ∷ lines) = keep_line line (drop_empty_last lines)

unfoldable pub join : List (List ℕ) → List ℕ
join [] = []
join (line ∷ []) = line
join (line ∷ next ∷ lines) = line ++ (10 ∷ join (next ∷ lines))

unfoldable pub normalize_block_documentation : List ℕ → List ℕ
normalize_block_documentation raw = join (
    drop_empty_last
      (drop_empty (map (λ line. trim_right (strip_star (trim_left line))) (lines_of raw))))

module _ (source : List ℕ) where
  unfoldable pub at_documentation_comment : Scanner → Bool × Scanner
  at_documentation_comment s =
      let saved = save s in
      let (slash, s1) = match_byte source 47 s in
      let (star, s2) = if slash then match_byte source 42 s1 else (false, s1) in
      (slash && star && peek source s2 == 42, restore saved (if slash then s2 else s1))

  -- The body of a `/* ... */` comment and its end.
  unfoldable pub skip_block : ℕ → Scanner → Scanner
  skip_block zero s = spent source s
  skip_block (suc fuel) s =
      let marked : Scanner = if peek source s == 10 then mark_line_end s else s in
      let rest : Scanner = skip_block fuel (advance source marked) in
      if is_at_end source s
      then s
      else if peek source marked == 42 && peek_next source marked == 47
      then advance source (advance source marked)
      else rest

  -- One round of the loop of `skip_whitespace_and_comments`, not at the end.
  unfoldable pub skip_round : (Scanner → Scanner) → Scanner → Scanner
  skip_round again s =
      let c = peek source s in
      if c == 32 || c == 9 || c == 13
      then again (advance source s)
      else if c == 10
      then again (advance source (mark_line_end s))
      else if c == 47 && peek_next source s == 47
      then again (advance_while source (λ t. not (peek source t == 10)) (remaining source s) s)
      else if c == 47 && peek_next source s == 42
      then (if (at_documentation_comment s).0
          then (at_documentation_comment s).1
          else again (
              skip_block (remaining source (advance source (advance source s)))
                (advance source (advance source s))))
      else s

  unfoldable pub skip_from : ℕ → Scanner → Scanner
  skip_from zero s = spent source s
  skip_from (suc fuel) s =
      let again : Scanner → Scanner = skip_from fuel in
      if is_at_end source s then s else skip_round again s

  unfoldable pub skip_whitespace_and_comments : Scanner → Scanner
  skip_whitespace_and_comments s = skip_from (remaining source s) s

  -- The text of a documentation comment up to its end.
  unfoldable pub documentation_body : ℕ → Scanner → List ℕ × Scanner
  documentation_body zero s = ([], spent source s)
  documentation_body (suc fuel) s =
      let marked : Scanner = if peek source s == 10 then mark_line_end s else s in
      let rest : List ℕ × Scanner = documentation_body fuel (advance source marked) in
      if not (is_at_end source s) && not (peek source s == 42 && peek_next source s == 47)
      then (peek source marked ∷ rest.0, rest.1)
      else ([], s)

  -- Behind the opening stars, where the cursor was behind the first `/`.
  unfoldable pub open_documentation : Scanner → Scanner
  open_documentation s =
      let star = advance source s in
      if not (peek source star == 42 && peek_next source star == 47)
      then advance source star
      else star

  unfoldable pub close_documentation : Scanner → Scanner
  close_documentation s = if not (is_at_end source s) then advance source (advance source s) else s

  -- The token with the body that was read up to `s`.
  unfoldable pub documentation_token : List ℕ × Scanner → Token × Scanner
  documentation_token (raw, s) = (
    record {
      token_type = TokenType.documentation;
      lexeme = text (normalize_block_documentation raw);
      line = s.start_line;
      column = s.start_column;
      start_offset = s.start;
      end_offset = (close_documentation s).current;
      decoded = [];
    },
    close_documentation s,
  )

  unfoldable pub scan_documentation : Scanner → Token × Scanner
  scan_documentation s =
      documentation_token
        (documentation_body (remaining source (open_documentation s)) (open_documentation s))
