-- ===== src/Lexer/Keywords.antt =====
-- The table of `keyword_type` and the character classes (src/lexer/tokenizer.cpp).
use lumiere.Common.{ℕ, List, [], ◌∷◌, Bool, true, false, ◌&&◌, ◌||◌, leb, ◌==◌, if◌then◌else◌}
use lumiere.Lexer.Token.{TokenType}

unfoldable pub is_digit : ℕ → Bool
is_digit c = leb 48 c && leb c 57

-- `std::isalpha` and `std::isalnum` of the C locale.
unfoldable pub is_alpha : ℕ → Bool
is_alpha c = (leb 65 c && leb c 90) || (leb 97 c && leb c 122)

unfoldable pub is_alpha_start : ℕ → Bool
is_alpha_start c = is_alpha c || c == 95 || leb 0xc0 c

unfoldable pub is_alpha_continue : ℕ → Bool
is_alpha_continue c = is_alpha c || is_digit c || c == 95 || leb 0x80 c

-- Equality of two texts.
unfoldable pub same_text : List ℕ → List ℕ → Bool
same_text [] [] = true
same_text (x ∷ xs) (y ∷ ys) = x == y && same_text xs ys
same_text _ _ = false

-- The words in the source's order, byte by byte: from "soit" to "ignorer".
abbrev pub keywords : List (List ℕ × TokenType)
keywords =
    (115 ∷ 111 ∷ 105 ∷ 116 ∷ [], TokenType.soit)
    ∷ (102 ∷ 105 ∷ 120 ∷ 101 ∷ [], TokenType.fixe)
    ∷ (102 ∷ 111 ∷ 110 ∷ 99 ∷ 116 ∷ 105 ∷ 111 ∷ 110 ∷ [], TokenType.fonction)
    ∷ (114 ∷ 101 ∷ 116 ∷ 111 ∷ 117 ∷ 114 ∷ 110 ∷ 101 ∷ [], TokenType.retourne)
    ∷ (99 ∷ 108 ∷ 97 ∷ 115 ∷ 115 ∷ 101 ∷ [], TokenType.classe)
    ∷ (105 ∷ 110 ∷ 116 ∷ 101 ∷ 114 ∷ 102 ∷ 97 ∷ 99 ∷ 101 ∷ [], TokenType.interface)
    ∷ (116 ∷ 121 ∷ 112 ∷ 101 ∷ [], TokenType.type)
    ∷ (114 ∷ 195 ∷ 169 ∷ 97 ∷ 108 ∷ 105 ∷ 115 ∷ 101 ∷ [], TokenType.realise)
    ∷ (114 ∷ 101 ∷ 97 ∷ 108 ∷ 105 ∷ 115 ∷ 101 ∷ [], TokenType.realise)
    ∷ (114 ∷ 101 ∷ 109 ∷ 112 ∷ 108 ∷ 97 ∷ 99 ∷ 101 ∷ [], TokenType.remplace)
    ∷ (112 ∷ 117 ∷ 98 ∷ 108 ∷ 105 ∷ 99 ∷ [], TokenType.public)
    ∷ (112 ∷ 114 ∷ 105 ∷ 118 ∷ 195 ∷ 169 ∷ [], TokenType.prive)
    ∷ (112 ∷ 114 ∷ 105 ∷ 118 ∷ 101 ∷ [], TokenType.prive)
    ∷ (115 ∷ 105 ∷ [], TokenType.si)
    ∷ (115 ∷ 105 ∷ 110 ∷ 111 ∷ 110 ∷ [], TokenType.sinon)
    ∷ (112 ∷ 111 ∷ 117 ∷ 114 ∷ [], TokenType.pour)
    ∷ (99 ∷ 104 ∷ 97 ∷ 113 ∷ 117 ∷ 101 ∷ [], TokenType.chaque)
    ∷ (100 ∷ 97 ∷ 110 ∷ 115 ∷ [], TokenType.dans)
    ∷ (97 ∷ 114 ∷ 114 ∷ 195 ∷ 170 ∷ 116 ∷ 101 ∷ 114 ∷ [], TokenType.arreter)
    ∷ (97 ∷ 114 ∷ 114 ∷ 101 ∷ 116 ∷ 101 ∷ 114 ∷ [], TokenType.arreter)
    ∷ (99 ∷ 111 ∷ 110 ∷ 116 ∷ 105 ∷ 110 ∷ 117 ∷ 101 ∷ 114 ∷ [], TokenType.continuer)
    ∷ (118 ∷ 114 ∷ 97 ∷ 105 ∷ [], TokenType.vrai)
    ∷ (102 ∷ 97 ∷ 117 ∷ 120 ∷ [], TokenType.faux)
    ∷ (114 ∷ 105 ∷ 101 ∷ 110 ∷ [], TokenType.rien)
    ∷ (105 ∷ 99 ∷ 105 ∷ [], TokenType.ici)
    ∷ (112 ∷ 97 ∷ 114 ∷ 101 ∷ 110 ∷ 116 ∷ [], TokenType.parent)
    ∷ (101 ∷ 110 ∷ [], TokenType.en)
    ∷ (105 ∷ 109 ∷ 112 ∷ 111 ∷ 114 ∷ 116 ∷ 101 ∷ 114 ∷ [], TokenType.importer)
    ∷ (99 ∷ 111 ∷ 109 ∷ 109 ∷ 101 ∷ [], TokenType.comme)
    ∷ (101 ∷ 115 ∷ 116 ∷ [], TokenType.est)
    ∷ (101 ∷ 116 ∷ [], TokenType.et)
    ∷ (111 ∷ 117 ∷ [], TokenType.ou)
    ∷ (110 ∷ 111 ∷ 110 ∷ [], TokenType.non)
    ∷ (112 ∷ 114 ∷ 111 ∷ 112 ∷ 97 ∷ 103 ∷ 101 ∷ 114 ∷ [], TokenType.propager)
    ∷ (105 ∷ 103 ∷ 110 ∷ 111 ∷ 114 ∷ 101 ∷ 114 ∷ [], TokenType.ignorer)
    ∷ []

unfoldable pub find : List (List ℕ × TokenType) → List ℕ → TokenType
find [] word = TokenType.ident
find ((key, found) ∷ rest) word = if same_text key word then found else find rest word

unfoldable pub keyword_type : List ℕ → TokenType
keyword_type word = find keywords word
