-- ===== src/Lexer/Next.antt =====
-- internal/lexer/lexer.go, Next: one token.
use ccomp.Base.{
  ℕ, suc, Bool, true, false, ◌||◌, not, [], ◌∷◌, ◌++◌, Option, none, some, ◌==◌, if◌then◌else◌,
}
use ccomp.Base.Text.{Text, codes, text_eq}
use ccomp.Lexer.{Lexer, read, peek, left}
use ccomp.Lexer.Token.{Token, TokenType, Unicode}
use ccomp.Lexer.Scan.{skip, spaces, comment_at, line_rest, block_rest, collect, escape, string_body}

-- The punctuation that starts with `ch` where `next` follows, and whether it takes both.
unfoldable pub symbol : ℕ → ℕ → Option (TokenType × Bool)
symbol ch next =
    if ch == b'('
    then some (TokenType.lparen, false)
    else if ch == b')'
    then some (TokenType.rparen, false)
    else if ch == b'{'
    then some (TokenType.lbrace, false)
    else if ch == b'}'
    then some (TokenType.rbrace, false)
    else if ch == b'['
    then some (TokenType.lbrack, false)
    else if ch == b']'
    then some (TokenType.rbrack, false)
    else if ch == b';'
    then some (TokenType.semi, false)
    else if ch == b','
    then some (TokenType.comma, false)
    else if ch == b':'
    then some (TokenType.colon, false)
    else if ch == b'.'
    then some (TokenType.dot, false)
    else if ch == b'&'
    then some (if next == b'&' then (TokenType.andand, true) else (TokenType.amp, false))
    else if ch == b'|'
    then some (if next == b'|' then (TokenType.oror, true) else (TokenType.pipe, false))
    else if ch == b'='
    then some (if next == b'=' then (TokenType.eqeq, true) else (TokenType.assign, false))
    else if ch == b'+'
    then some (TokenType.plus, false)
    else if ch == b'-'
    then some (TokenType.minus, false)
    else if ch == b'*'
    then some (TokenType.star, false)
    else if ch == b'/'
    then some (TokenType.slash, false)
    else if ch == b'!'
    then some (if next == b'=' then (TokenType.neq, true) else (TokenType.bang, false))
    else if ch == b'<'
    then some (
        if next == b'<'
        then (TokenType.shl, true)
        else if next == b'='
        then (TokenType.le, true)
        else (TokenType.lt, false))
    else if ch == b'>'
    then some (
        if next == b'>'
        then (TokenType.shr, true)
        else if next == b'='
        then (TokenType.ge, true)
        else (TokenType.gt, false))
    else if ch == b'^'
    then some (TokenType.caret, false)
    else if ch == b'~'
    then some (TokenType.tilde, false)
    else none

-- The switch on the spelling of a name.
unfoldable pub keyword : Text → TokenType
keyword lex =
    if text_eq lex (codes "int")
    then TokenType.kw_int
    else if text_eq lex (codes "char")
    then TokenType.kw_char
    else if text_eq lex (codes "double")
    then TokenType.kw_double
    else if text_eq lex (codes "struct")
    then TokenType.kw_struct
    else if text_eq lex (codes "enum")
    then TokenType.kw_enum
    else if text_eq lex (codes "typedef")
    then TokenType.kw_typedef
    else if text_eq lex (codes "return")
    then TokenType.kw_return
    else if text_eq lex (codes "if")
    then TokenType.kw_if
    else if text_eq lex (codes "else")
    then TokenType.kw_else
    else if text_eq lex (codes "while")
    then TokenType.kw_while
    else if text_eq lex (codes "for")
    then TokenType.kw_for
    else if text_eq lex (codes "do")
    then TokenType.kw_do
    else if text_eq lex (codes "break")
    then TokenType.kw_break
    else if text_eq lex (codes "continue")
    then TokenType.kw_continue
    else if text_eq lex (codes "switch")
    then TokenType.kw_switch
    else if text_eq lex (codes "case")
    then TokenType.kw_case
    else if text_eq lex (codes "default")
    then TokenType.kw_default
    else TokenType.ident

abbrev pub token : TokenType → Text → Lexer → Token
token t lex l = record { type = t; lex = lex; line = l.line; col = l.col }

unfoldable pub take_symbol : Lexer → TokenType × Bool → Token × Lexer
unfolding peek
take_symbol l (t, true) = (token t (l.ch ∷ peek l ∷ []) l, read (read l))
take_symbol l (t, false) = (token t (l.ch ∷ []) l, read l)

-- `if l.ch == c { l.read() }`, and the same for any character that there is.
abbrev pub read_if : Bool → Lexer → Lexer
read_if b l = if b then read l else l

unfoldable pub take_char : Lexer → Token × Lexer
take_char l =
    let l1 = read l in
    let escaped = l1.ch == 0x5c in
    let l2 = read_if escaped l1 in
    let r = if escaped then escape l2.ch else l2.ch in
    let l3 = read_if (not (l2.ch == 0)) l2 in
    (token TokenType.char (r ∷ []) l, read_if (l3.ch == 0x27) l3)

unfoldable pub take_string : Lexer → Token × Lexer
unfolding string_body left
take_string l =
    let l1 = read l in
    let (body, l2) = string_body (left l1) l1 [] in
    (token TokenType.string body l, read_if (l2.ch == 0x22) l2)

module _ (u : Unicode) where
  open u use {is_letter, is_digit}

  abbrev pub name_start : ℕ → Bool
  name_start c = is_letter c || c == b'_'

  abbrev pub name_rest : ℕ → Bool
  name_rest c = is_letter c || is_digit c || c == b'_'

  unfoldable pub take_name : Lexer → Token × Lexer
  unfolding collect left keyword
  take_name l =
      let l1 = read l in
      let (lex, l2) = collect name_rest (left l1) l1 (l.ch ∷ []) in (token (keyword lex) lex l, l2)

  unfoldable pub take_number : Lexer → Token × Lexer
  unfolding collect left
  take_number l =
      let l1 = read l in
      let (num, l2) = collect is_digit (left l1) l1 (l.ch ∷ []) in
      let l3 = read l2 in
      let (more, l4) = collect is_digit (left l3) l3 (num ++ l2.ch ∷ []) in
      if l2.ch == b'.' then (token TokenType.float more l, l4) else (token TokenType.int num l, l2)

  unfoldable pub take_other : Lexer → Token × Lexer
  take_other l =
      if l.ch == 0x22
      then take_string l
      else if name_start l.ch
      then take_name l
      else if is_digit l.ch
      then take_number l
      else (token TokenType.illegal (l.ch ∷ []) l, read l)

  abbrev pub dispatch : Lexer → Option (TokenType × Bool) → Token × Lexer
  dispatch l (some s) = take_symbol l s
  dispatch l none = if l.ch == 0x27 then take_char l else take_other l

  -- The token after the spaces and comments.
  unfoldable pub lex_at : Lexer → Token × Lexer
  lex_at l = if l.ch == 0 then (token TokenType.eof [] l, l) else dispatch l (symbol l.ch (peek l))

  unfoldable pub next : Lexer → Token × Lexer
  unfolding skip spaces comment_at line_rest block_rest lex_at symbol take_symbol take_char
      take_other take_string take_name take_number peek left
  next l = lex_at (skip (suc (left l)) l)
