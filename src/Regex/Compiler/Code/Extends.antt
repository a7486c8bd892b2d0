-- ===== src/Regex/Compiler/Code/Extends.antt =====
-- Code stays where it is when a program grows or other instructions change.
use lumiere.Common.{ℕ, zero, suc, ◌+◌, ◌-◌, ◌≤◌, ◌<◌, ◌≡◌, Bool, none, some, List, get_elem?, arith}
use lumiere.Regex.{
  ClassRange, RegexNode, literal, any, class, concat, alt, star, plus, opt, repeat, group,
  anchor_start, anchor_end, RegexNodes, no_nodes, nodes, Inst, RegexProgram,
}
use lumiere.Regex.Compiler.Code.{Has, Copies, Optionals, Loop, Code, CodeAll, CodeAlternatives}

-- From a to b, and in the tables, r has what q has.
pub record Agree (q r : RegexProgram) (a b : ℕ) : Type 0 where
  pub insts : (i : ℕ) (inst : Inst) → Has q i inst → a ≤ i → i < b → Has r i inst
  pub classes :
      (k : ℕ) (ranges : List ClassRange)
      → get_elem? q.classes k ≡ some ranges
      → get_elem? r.classes k ≡ some ranges
  pub negated :
      (k : ℕ) (flag : Bool)
      → get_elem? q.class_negated k ≡ some flag
      → get_elem? r.class_negated k ≡ some flag

pub Agree-within :
    (q r : RegexProgram) (a b c d : ℕ) → a ≤ c → d ≤ b → Agree q r a b → Agree q r c d
Agree-within q r a b c d low high g = record {
  insts = λ i inst h k l. g.insts i inst h (omega arith) (omega arith);
  classes = g.classes;
  negated = g.negated;
}

-- n pieces that go forward go forward.
pub Copies-forward :
    (P : ℕ → ℕ → Type 0) (n a b : ℕ) → ((c d : ℕ) → P c d → c ≤ d) → Copies P n a b → a ≤ b
Copies-forward P zero a b forward e = omega (arith, e)
Copies-forward P (suc n) a b forward (m, c, rest) =
    omega (arith, forward a m c, Copies-forward P n m b forward rest)

pub Optionals-forward :
    (q : RegexProgram) (P : ℕ → ℕ → Type 0) (n a b : ℕ)
    → ((c d : ℕ) → P c d → c ≤ d)
    → Optionals q P n a b
    → a ≤ b
Optionals-forward q P zero a b forward e = omega (arith, e)
Optionals-forward q P (suc n) a b forward (m, h, c, rest) =
    omega (arith, forward (a + 1) m c, Optionals-forward q P n m b forward rest)

mutual
  unfolding Code CodeAll CodeAlternatives

  -- Code ends behind its start.
  pub Code-forward : (q : RegexProgram) (n : RegexNode) (a b : ℕ) → Code q n a b → a ≤ b
  Code-forward q (literal c) a b (h, e) = omega (arith, e)
  Code-forward q any a b (h, e) = omega (arith, e)
  Code-forward q (class negated ranges) a b (k, h, c, f, e) = omega (arith, e)
  Code-forward q (concat children) a b c = CodeAll-forward q children a b c
  Code-forward q (alt alternatives) a b c = CodeAlternatives-forward q alternatives a b c
  Code-forward q (star child) a b (m, h, c, j, e) =
      omega (arith, Code-forward q child (a + 1) m c, e)
  Code-forward q (plus child) a b (m, c, h, e) = omega (arith, Code-forward q child a m c, e)
  Code-forward q (opt child) a b (h, c) = omega (arith, Code-forward q child (a + 1) b c)
  Code-forward q (repeat child low none) a b (m, copies, (k, h, c, j, e)) = omega (
    arith,
    Copies-forward (Code q child) low a m (Code-forward q child) copies,
    Code-forward q child (m + 1) k c,
    e,
  )
  Code-forward q (repeat child low (some high)) a b (m, copies, more) = omega (
    arith,
    Copies-forward (Code q child) low a m (Code-forward q child) copies,
    Optionals-forward q (Code q child) (high - low) m b (Code-forward q child) more,
  )
  Code-forward q (group index child) a b (m, h, c, j, e) =
      omega (arith, Code-forward q child (a + 1) m c, e)
  Code-forward q anchor_start a b (h, e) = omega (arith, e)
  Code-forward q anchor_end a b (h, e) = omega (arith, e)

  pub CodeAll-forward : (q : RegexProgram) (ns : RegexNodes) (a b : ℕ) → CodeAll q ns a b → a ≤ b
  CodeAll-forward q no_nodes a b e = omega (arith, e)
  CodeAll-forward q (nodes child children) a b (m, c, rest) =
      omega (arith, Code-forward q child a m c, CodeAll-forward q children m b rest)

  pub CodeAlternatives-forward :
      (q : RegexProgram) (ns : RegexNodes) (a b : ℕ) → CodeAlternatives q ns a b → a ≤ b
  CodeAlternatives-forward q no_nodes a b e = omega (arith, e)
  CodeAlternatives-forward q (nodes last no_nodes) a b c = Code-forward q last a b c
  CodeAlternatives-forward q (nodes first (nodes second others)) a b (m, h, c, j, rest) = omega (
    arith,
    Code-forward q first (a + 1) m c,
    CodeAlternatives-forward q (nodes second others) (m + 1) b rest,
  )

pub Copies-Agree :
    (q r : RegexProgram) (P Q : ℕ → ℕ → Type 0) (n a b : ℕ)
    → ((c d : ℕ) → P c d → c ≤ d)
    → ((c d : ℕ) → P c d → Agree q r c d → Q c d)
    → Copies P n a b
    → Agree q r a b
    → Copies Q n a b
Copies-Agree q r P Q zero a b forward moves e g = e
Copies-Agree q r P Q (suc n) a b forward moves (m, c, rest) g =
    let first = forward a m c in
    let second = Copies-forward P n m b forward rest in
    (
      m,
      moves a m c (Agree-within q r a b a m (omega arith) second g),
      Copies-Agree q r P Q n m b forward moves rest
          (Agree-within q r a b m b first (omega arith) g),
    )

Optionals-Agree :
    (q r : RegexProgram) (P Q : ℕ → ℕ → Type 0) (n a b : ℕ)
    → ((c d : ℕ) → P c d → c ≤ d)
    → ((c d : ℕ) → P c d → Agree q r c d → Q c d)
    → Optionals q P n a b
    → Agree q r a b
    → Optionals r Q n a b
Optionals-Agree q r P Q zero a b forward moves e g = e
Optionals-Agree q r P Q (suc n) a b forward moves (m, h, c, rest) g =
    let first = forward (a + 1) m c in
    let second = Optionals-forward q P n m b forward rest in
    (
      m,
      g.insts a _ h (omega arith) (omega (arith, first, second)),
      moves (a + 1) m c (Agree-within q r a b (a + 1) m (omega arith) second g),
      Optionals-Agree q r P Q n m b forward moves rest
          (Agree-within q r a b m b (omega (arith, first)) (omega arith) g),
    )

Loop-Agree :
    (q r : RegexProgram) (P Q : ℕ → ℕ → Type 0) (a b : ℕ)
    → ((c d : ℕ) → P c d → c ≤ d)
    → ((c d : ℕ) → P c d → Agree q r c d → Q c d)
    → Loop q P a b
    → Agree q r a b
    → Loop r Q a b
Loop-Agree q r P Q a b forward moves (m, h, c, j, e) g =
    let first = forward (a + 1) m c in
    (
      m,
      g.insts a _ h (omega arith) (omega (arith, e, first)),
      moves (a + 1) m c (Agree-within q r a b (a + 1) m (omega arith) (omega (arith, e)) g),
      g.insts m _ j (omega (arith, first)) (omega (arith, e)),
      e,
    )

mutual
  unfolding Code CodeAll CodeAlternatives

  pub Code-Agree :
      (q r : RegexProgram) (n : RegexNode) (a b : ℕ) → Code q n a b → Agree q r a b → Code r n a b
  Code-Agree q r (literal c) a b (h, e) g = (g.insts a _ h (omega arith) (omega (arith, e)), e)
  Code-Agree q r any a b (h, e) g = (g.insts a _ h (omega arith) (omega (arith, e)), e)
  Code-Agree q r (class negated ranges) a b (k, h, c, f, e) g = (
    k,
    g.insts a _ h (omega arith) (omega (arith, e)),
    g.classes k ranges c,
    g.negated k negated f,
    e,
  )
  Code-Agree q r (concat children) a b c g = CodeAll-Agree q r children a b c g
  Code-Agree q r (alt alternatives) a b c g = CodeAlternatives-Agree q r alternatives a b c g
  Code-Agree q r (star child) a b c g =
      Loop-Agree q r (Code q child) (Code r child) a b (Code-forward q child) (Code-Agree q r child)
        c g
  Code-Agree q r (plus child) a b (m, c, h, e) g =
      let first = Code-forward q child a m c in
      (
        m,
        Code-Agree q r child a m c (Agree-within q r a b a m (omega arith) (omega (arith, e)) g),
        g.insts m _ h first (omega (arith, e)),
        e,
      )
  Code-Agree q r (opt child) a b (h, c) g =
      let first = Code-forward q child (a + 1) b c in
      (
        g.insts a _ h (omega arith) (omega (arith, first)),
        Code-Agree q r child (a + 1) b c
            (Agree-within q r a b (a + 1) b (omega arith) (omega arith) g),
      )
  Code-Agree q r (repeat child low none) a b (m, copies, loop) g =
      let first = Copies-forward (Code q child) low a m (Code-forward q child) copies in
      let second = Code-forward q (star child) m b loop in
      (
        m,
        Copies-Agree q r (Code q child) (Code r child) low a m (Code-forward q child)
            (Code-Agree q r child) copies (Agree-within q r a b a m (omega arith) second g),
        Loop-Agree q r (Code q child) (Code r child) m b (Code-forward q child)
            (Code-Agree q r child) loop (Agree-within q r a b m b first (omega arith) g),
      )
  Code-Agree q r (repeat child low (some high)) a b (m, copies, more) g =
      let first = Copies-forward (Code q child) low a m (Code-forward q child) copies in
      let second =
        Optionals-forward q (Code q child) (high - low) m b (Code-forward q child) more in
      (
        m,
        Copies-Agree q r (Code q child) (Code r child) low a m (Code-forward q child)
            (Code-Agree q r child) copies (Agree-within q r a b a m (omega arith) second g),
        Optionals-Agree q r (Code q child) (Code r child) (high - low) m b (Code-forward q child)
            (Code-Agree q r child) more (Agree-within q r a b m b first (omega arith) g),
      )
  Code-Agree q r (group index child) a b (m, h, c, j, e) g =
      let first = Code-forward q child (a + 1) m c in
      (
        m,
        g.insts a _ h (omega arith) (omega (arith, e, first)),
        Code-Agree q r child (a + 1) m c
            (Agree-within q r a b (a + 1) m (omega arith) (omega (arith, e)) g),
        g.insts m _ j (omega (arith, first)) (omega (arith, e)),
        e,
      )
  Code-Agree q r anchor_start a b (h, e) g = (g.insts a _ h (omega arith) (omega (arith, e)), e)
  Code-Agree q r anchor_end a b (h, e) g = (g.insts a _ h (omega arith) (omega (arith, e)), e)

  pub CodeAll-Agree :
      (q r : RegexProgram) (ns : RegexNodes) (a b : ℕ)
      → CodeAll q ns a b
      → Agree q r a b
      → CodeAll r ns a b
  CodeAll-Agree q r no_nodes a b e g = e
  CodeAll-Agree q r (nodes child children) a b (m, c, rest) g =
      let first = Code-forward q child a m c in
      let second = CodeAll-forward q children m b rest in
      (
        m,
        Code-Agree q r child a m c (Agree-within q r a b a m (omega arith) second g),
        CodeAll-Agree q r children m b rest (Agree-within q r a b m b first (omega arith) g),
      )

  pub CodeAlternatives-Agree :
      (q r : RegexProgram) (ns : RegexNodes) (a b : ℕ)
      → CodeAlternatives q ns a b
      → Agree q r a b
      → CodeAlternatives r ns a b
  CodeAlternatives-Agree q r no_nodes a b e g = e
  CodeAlternatives-Agree q r (nodes last no_nodes) a b c g = Code-Agree q r last a b c g
  CodeAlternatives-Agree q r (nodes first (nodes second others)) a b (m, h, c, j, rest) g =
      let one = Code-forward q first (a + 1) m c in
      let two = CodeAlternatives-forward q (nodes second others) (m + 1) b rest in
      (
        m,
        g.insts a _ h (omega arith) (omega (arith, one, two)),
        Code-Agree q r first (a + 1) m c
            (Agree-within q r a b (a + 1) m (omega arith) (omega (arith, two)) g),
        g.insts m _ j (omega (arith, one)) (omega (arith, two)),
        CodeAlternatives-Agree q r (nodes second others) (m + 1) b rest
            (Agree-within q r a b (m + 1) b (omega (arith, one)) (omega arith) g),
      )
