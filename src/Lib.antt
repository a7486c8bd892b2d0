-- ===== src/Lib.antt =====
-- A model of the Lumière interpreter, part by part, with the theorems that make the parts correct.
--
-- The program turns a source text into tokens (src/lexer), tokens into a syntax tree (src/parser),
-- checks it (src/analysis) and runs it with one of two engines: a tree walker, and a virtual machine
-- whose compiler writes bytecode (src/interpreter/vm). The machine trusts a module only after
-- `verify_module` has accepted it, since its loop reads operands without testing for the end of the
-- code. Texts are UTF-8 everywhere, and integers are 64 bits wide and checked.
--
-- Files:
-- - Common: tests on numbers, lists over the native numbers, signed integers, masks on one byte.
-- - Vm/Opcode, Vm/Bytecode: include/lumiere/interpreter/vm/bytecode.hpp. A run-time value is a
--   parameter, since nothing here looks into one.
-- - Vm/Writer: the writers of a chunk (src/interpreter/vm/bytecode.cpp). An exception is a value.
-- - Vm/Verifier: the class FunctionVerifier and verify_module (src/interpreter/vm/verifier.cpp), as a
--   small state monad (Vm/Verifier/State). A read outside the code is the outcome `fault`.
-- - Vm/Fetch: how run_frames (src/interpreter/vm/vm.cpp) reads an instruction and comes to the next.
--   Vm/Fetch/Safety joins it with the verifier: `Reaches` is the step relation of a frame.
-- - Numeric, Numeric/Parse: include/lumiere/interpreter/runtime/numeric.hpp. The readers of the C++
--   library that it calls, std::stoll and std::from_chars, are written out.
-- - Utf8: src/parser/utf8.cpp.
-- - Lexer: src/lexer. Lexer/Scanner is the cursor (scanner.cpp), Lexer/Comments, Lexer/Literals and
--   Lexer/Words are the scanning functions and Lexer/Tokenise the dispatch (tokenizer.cpp) and the
--   loop over the source (lexer.cpp). Lexer/Progress, Lexer/Spanned, Lexer/Spans, Lexer/Skipping and
--   Lexer/Pieces hold the proofs.
-- - Cycles: the cycle collector (src/interpreter/runtime/cycles.cpp) over a heap of numbered objects,
--   each with its count, colour, buffer slot and what it refers to. Cycles/Collector is the thread's
--   state, the candidate buffer, `release` (include/lumiere/interpreter/runtime/ref.hpp) and the whole
--   collection. Cycles/Marking to Cycles/Gathering follow the passes; `Live` and `Reachable`
--   (Cycles/Reach) say what is garbage without a colour.
-- - Regex: the regular expressions of the standard library (src/interpreter/stdlib/regex.cpp).
--   Regex/Compiler is the class RegexCompiler with its patching of targets. `Code` says where the code
--   of a node lies, Regex/Paths what the instructions let a thread do and what a tree matches;
--   Regex/Sound and Regex/Complete join the two. Regex/Matcher is the class RegexMatcher; an instruction
--   is visited once in a generation, so that a call of `add_thread` nests no deeper than there are
--   instructions, and one more.
-- - Types: the keys of the semantic types, the interner's store and the unions, whose sorting is a
--   parameter (src/analysis/semantic_type.cpp). A type carries the address of its object, the number of
--   objects that the interner had made before it, and references are compared by it.
--
-- How the code is modelled: a byte and a code point are numbers, a text is a list of bytes, a state is
-- a record that the functions pass on, and a `while` loop is a recursion on fuel. The fuel is the
-- number of bytes that are left (one more for the outermost loop of the lexer), and each round passes
-- over one byte at least. Running out of fuel is an outcome of its own in the verifier and in the
-- lexer's outer loop, and `none` in the collector and the matcher; the collector's walks have as many
-- rounds as there are objects, or references and one more. A loop of the lexer that runs out of rounds
-- leaves the cursor outside the source (`spent`), where no token of the result may end.
-- Line and column numbers are unbounded.
--
-- Not modelled: the parser, the semantic analysis but for its types, the tree walker, the machine's
-- stack, values and calls, the compiler and the standard library but for the regular expressions,
-- whose parser of patterns is left out too: that it numbers the groups up to their count is a
-- hypothesis, `Groups`. Of the machine's instructions only the fetch is modelled, with the tests of
-- the indices that it looks up in a table of the module or of the frame; what an instruction raises
-- because of its values ends the run. Decimals are not modelled, so that whether a literal fits
-- one is a parameter of the lexer.
pub mod Common
pub mod Vm
pub mod Numeric
pub mod Utf8
pub mod Lexer
pub mod Cycles
pub mod Regex
pub mod Types
