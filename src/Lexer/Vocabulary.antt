-- ===== src/Lexer/Vocabulary.antt =====
-- The words of the language, as the tables of a manual, beside the switches of internal/lexer/lexer.go.
use ccomp.Base.{
  ℕ, ◌≡◌, refl, true, false, List, [], ◌∷◌, some, All, All-get_elem?, get_elem?, arith,
  if◌then◌else◌,
}
use ccomp.Base.Text.{Text, codes, text_eq}
use ccomp.Lexer.Token.{TokenType}
use ccomp.Lexer.Next.{symbol, keyword}

abbrev keywords : List (Text × TokenType)
keywords =
    (codes "int", TokenType.kw_int)
    ∷ (codes "char", TokenType.kw_char)
    ∷ (codes "double", TokenType.kw_double)
    ∷ (codes "struct", TokenType.kw_struct)
    ∷ (codes "enum", TokenType.kw_enum)
    ∷ (codes "typedef", TokenType.kw_typedef)
    ∷ (codes "return", TokenType.kw_return)
    ∷ (codes "if", TokenType.kw_if)
    ∷ (codes "else", TokenType.kw_else)
    ∷ (codes "while", TokenType.kw_while)
    ∷ (codes "for", TokenType.kw_for)
    ∷ (codes "do", TokenType.kw_do)
    ∷ (codes "break", TokenType.kw_break)
    ∷ (codes "continue", TokenType.kw_continue)
    ∷ (codes "switch", TokenType.kw_switch)
    ∷ (codes "case", TokenType.kw_case)
    ∷ (codes "default", TokenType.kw_default)
    ∷ []

-- The type of the first entry with the spelling, or else that of an identifier.
abbrev listed : Text → List (Text × TokenType) → TokenType
listed s [] = TokenType.ident
listed s (e ∷ es) = if text_eq s e.0 then e.1 else listed s es

abbrev pub name_type : Text → TokenType
name_type s = listed s keywords

pub keyword_table : (s : Text) → keyword s ≡ name_type s
unfolding keyword
keyword_table s = refl

-- Punctuation of one character, and of two.
abbrev pub signs_of_one : List (ℕ × TokenType)
signs_of_one =
    (b'(', TokenType.lparen)
    ∷ (b')', TokenType.rparen)
    ∷ (b'{', TokenType.lbrace)
    ∷ (b'}', TokenType.rbrace)
    ∷ (b'[', TokenType.lbrack)
    ∷ (b']', TokenType.rbrack)
    ∷ (b';', TokenType.semi)
    ∷ (b',', TokenType.comma)
    ∷ (b':', TokenType.colon)
    ∷ (b'.', TokenType.dot)
    ∷ (b'&', TokenType.amp)
    ∷ (b'|', TokenType.pipe)
    ∷ (b'=', TokenType.assign)
    ∷ (b'+', TokenType.plus)
    ∷ (b'-', TokenType.minus)
    ∷ (b'*', TokenType.star)
    ∷ (b'/', TokenType.slash)
    ∷ (b'!', TokenType.bang)
    ∷ (b'<', TokenType.lt)
    ∷ (b'>', TokenType.gt)
    ∷ (b'^', TokenType.caret)
    ∷ (b'~', TokenType.tilde)
    ∷ []

abbrev pub signs_of_two : List (ℕ × ℕ × TokenType)
signs_of_two =
    (b'&', b'&', TokenType.andand)
    ∷ (b'|', b'|', TokenType.oror)
    ∷ (b'=', b'=', TokenType.eqeq)
    ∷ (b'!', b'=', TokenType.neq)
    ∷ (b'<', b'<', TokenType.shl)
    ∷ (b'<', b'=', TokenType.le)
    ∷ (b'>', b'>', TokenType.shr)
    ∷ (b'>', b'=', TokenType.ge)
    ∷ []

-- An entry of a table.
abbrev pub Listed {ℓ} : {A : Type ℓ} → A → List A → Type ℓ
Listed x table = (n : ℕ) × (get_elem? table n ≡ some x)

pub symbol-one :
    (c : ℕ) (k : TokenType) → Listed (c, k) signs_of_one → symbol c b' ' ≡ some (k, false)
unfolding symbol
symbol-one c k h =
    All-get_elem? (λ e. symbol e.0 b' ' ≡ some (e.1, false)) signs_of_one h.0 (c, k) every h.1
  where
    every : All (λ e. symbol e.0 b' ' ≡ some (e.1, false)) signs_of_one
    every = ground arith

pub symbol-two :
    (c d : ℕ) (k : TokenType) → Listed (c, d, k) signs_of_two → symbol c d ≡ some (k, true)
unfolding symbol
symbol-two c d k h =
    All-get_elem? (λ e. symbol e.0 e.1 ≡ some (e.2, true)) signs_of_two h.0 (c, d, k) every h.1
  where
    every : All (λ e. symbol e.0 e.1 ≡ some (e.2, true)) signs_of_two
    every = ground arith
