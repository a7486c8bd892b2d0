-- ===== src/Lexer.antt =====
-- The lexer (src/lexer): from a source text to its tokens and diagnostics.
pub mod Token
pub mod Keywords
pub mod Scanner
pub mod Comments
pub mod Literals
pub mod Words
pub mod Tokenise
pub mod Progress
pub mod Spanned
pub mod Spans
mod Tests
pub mod Skipped
pub mod Skipping
pub mod Pieces
