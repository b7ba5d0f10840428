-- ===== src/Lexer/Token.antt =====
-- internal/lexer/token.go: tokens; and the tests on characters of the package `unicode`.
use ccomp.Base.{ℕ, ◌≡◌, ◌<◌, Bool, ◌&&◌, ◌||◌, ◌==◌, leb}
use ccomp.Base.Text.{Text}

pub data TokenType : Type 0 where
  eof illegal ident int float char string : TokenType
  kw_int kw_char kw_double kw_struct kw_enum kw_typedef kw_return kw_if kw_else kw_while kw_for :
      TokenType
  kw_do kw_break kw_continue kw_switch kw_case kw_default : TokenType
  lparen rparen lbrace rbrace lbrack rbrack semi comma colon dot assign amp : TokenType
  plus minus star slash shl shr andand oror pipe caret tilde bang : TokenType
  eqeq neq lt le gt ge : TokenType

-- `iota` of the constant block.
abbrev pub type_number : TokenType → ℕ
type_number TokenType.eof = 0
type_number TokenType.illegal = 1
type_number TokenType.ident = 2
type_number TokenType.int = 3
type_number TokenType.float = 4
type_number TokenType.char = 5
type_number TokenType.string = 6
type_number TokenType.kw_int = 7
type_number TokenType.kw_char = 8
type_number TokenType.kw_double = 9
type_number TokenType.kw_struct = 10
type_number TokenType.kw_enum = 11
type_number TokenType.kw_typedef = 12
type_number TokenType.kw_return = 13
type_number TokenType.kw_if = 14
type_number TokenType.kw_else = 15
type_number TokenType.kw_while = 16
type_number TokenType.kw_for = 17
type_number TokenType.kw_do = 18
type_number TokenType.kw_break = 19
type_number TokenType.kw_continue = 20
type_number TokenType.kw_switch = 21
type_number TokenType.kw_case = 22
type_number TokenType.kw_default = 23
type_number TokenType.lparen = 24
type_number TokenType.rparen = 25
type_number TokenType.lbrace = 26
type_number TokenType.rbrace = 27
type_number TokenType.lbrack = 28
type_number TokenType.rbrack = 29
type_number TokenType.semi = 30
type_number TokenType.comma = 31
type_number TokenType.colon = 32
type_number TokenType.dot = 33
type_number TokenType.assign = 34
type_number TokenType.amp = 35
type_number TokenType.plus = 36
type_number TokenType.minus = 37
type_number TokenType.star = 38
type_number TokenType.slash = 39
type_number TokenType.shl = 40
type_number TokenType.shr = 41
type_number TokenType.andand = 42
type_number TokenType.oror = 43
type_number TokenType.pipe = 44
type_number TokenType.caret = 45
type_number TokenType.tilde = 46
type_number TokenType.bang = 47
type_number TokenType.eqeq = 48
type_number TokenType.neq = 49
type_number TokenType.lt = 50
type_number TokenType.le = 51
type_number TokenType.gt = 52
type_number TokenType.ge = 53

abbrev pub type_eq : TokenType → TokenType → Bool
type_eq a b = type_number a == type_number b

pub record Token : Type 0 where
  pub type : TokenType
  pub lex : Text
  pub line : ℕ
  pub col : ℕ

-- `unicode.IsSpace`: the spaces of Latin-1 and those of Unicode's White_Space.
abbrev pub is_space : ℕ → Bool
is_space c =
    (leb 9 c && leb c 13)
    || c == 32
    || c == 0x85
    || c == 0xa0
    || c == 0x1680
    || (leb 0x2000 c && leb c 0x200a)
    || c == 0x2028
    || c == 0x2029
    || c == 0x202f
    || c == 0x205f
    || c == 0x3000

abbrev pub ascii_letter : ℕ → Bool
ascii_letter c = (leb b'A' c && leb c b'Z') || (leb b'a' c && leb c b'z')

abbrev pub ascii_digit : ℕ → Bool
ascii_digit c = leb b'0' c && leb c b'9'

-- `unicode.IsLetter` and `unicode.IsDigit`, whose tables are not part of the program, with what
-- their documentation says of ASCII.
pub record Unicode : Type 0 where
  pub is_letter : ℕ → Bool
  pub is_digit : ℕ → Bool
  pub letter_ascii : (c : ℕ) → c < 128 → is_letter c ≡ ascii_letter c
  pub digit_ascii : (c : ℕ) → c < 128 → is_digit c ≡ ascii_digit c
