-- ===== src/Parser/Decl.antt =====
-- internal/parser/parser.go: the declarations of a file.
use ccomp.Base.{ℕ, suc, Bool, not, List, [], ◌∷◌, ◌++◌, Option, none, some, if◌then◌else◌, length}
use ccomp.Base.Text.{Text}
use ccomp.Ast.{
  Decl, Param, StructField, EnumValue, BasicType, func_decl, global_decl, global_array_decl,
  struct_decl, enum_decl, typedef_decl,
}
use ccomp.Lexer
use ccomp.Lexer.Token.{Token, TokenType, Unicode}
use ccomp.Lexer.Stream.{tokens}
use ccomp.Parser.{
  Parser, Parse, Result, Error, ok, err, ◌>>=◌, ◌>>◌, pure, fail, tok_in, tok_is, advance, next,
  expect, while, stars,
}
use ccomp.Parser.Number.{parse_int}
use ccomp.Parser.Expr.{basic_of}
use ccomp.Parser.Simple.{array_size}
use ccomp.Parser.Stmt.{parse_stmt, parse_block}

-- `int` or `char`; any other token is refused by `e`.
unfoldable pub int_or_char : (Token → Error) → Parse BasicType
unfolding advance
int_or_char e p =
    if tok_in (TokenType.kw_int ∷ TokenType.kw_char ∷ []) p
    then ok (basic_of p.tok.type) (advance p)
    else fail e p

unfoldable pub one_param : List Param → Parse (List Param)
unfolding int_or_char stars expect advance
one_param ps = do
  bt ← int_or_char Error.bad_param
  ptr ← stars
  name ← expect TokenType.ident
  pure (ps ++ record { name = name.lex; typ = bt; ptr = ptr } ∷ [])

unfoldable pub parse_params : Parse (List Param)
unfolding while one_param advance
parse_params p =
    if tok_is TokenType.rparen p
    then ok [] p
    else (do ps ← one_param []; while (tok_is TokenType.comma) (λ qs. do next; one_param qs) ps) p

unfoldable pub one_field : List StructField → Parse (List StructField)
unfolding int_or_char stars expect
one_field fs = do
  bt ← int_or_char Error.bad_field
  ptr ← stars
  name ← expect TokenType.ident
  expect TokenType.semi
  pure (fs ++ record { name = name.lex; typ = bt; ptr = ptr } ∷ [])

-- Up to the closing brace.
abbrev pub in_braces : Parser → Bool
in_braces p = not (tok_is TokenType.rbrace p)

unfoldable pub parse_struct_decl : Parse Decl
unfolding while one_field expect advance
parse_struct_decl = do
  expect TokenType.kw_struct
  name ← expect TokenType.ident
  expect TokenType.lbrace
  fields ← while in_braces one_field []
  expect TokenType.rbrace
  expect TokenType.semi
  pure (struct_decl name.lex fields)

-- The comma after a value, which the last may have too.
abbrev pub enum_comma : Parse (Unit {0})
enum_comma p =
    if tok_is TokenType.comma p
    then next p
    else if tok_is TokenType.rbrace p
    then ok tt p
    else fail Error.bad_enum_end p

abbrev pub enum_value : Text → Parse ℕ
enum_value lex p =
    let (v, bad) = parse_int lex in if bad then err (Error.bad_enum_value lex) else ok v p

unfoldable pub one_value : List EnumValue → Parse (List EnumValue)
unfolding parse_int expect advance
one_value vs = do
  name ← expect TokenType.ident
  expect TokenType.assign
  value_tok ← expect TokenType.int
  value ← enum_value value_tok.lex
  enum_comma
  pure (vs ++ record { name = name.lex; value = value } ∷ [])

unfoldable pub parse_enum_decl : Parse Decl
unfolding while one_value expect advance
parse_enum_decl = do
  expect TokenType.kw_enum
  name ← expect TokenType.ident
  expect TokenType.lbrace
  values ← while in_braces one_value []
  expect TokenType.rbrace
  expect TokenType.semi
  pure (enum_decl name.lex values)

unfoldable pub parse_typedef_decl : Parse Decl
unfolding int_or_char stars expect advance
parse_typedef_decl = do
  expect TokenType.kw_typedef
  bt ← int_or_char Error.bad_typedef
  ptr ← stars
  name ← expect TokenType.ident
  expect TokenType.semi
  pure (typedef_decl name.lex bt ptr)

-- The value that a global variable starts with.
unfoldable pub initializer : Parse (Option ℕ)
unfolding parse_int advance
initializer p =
    if tok_is TokenType.int p
    then ok (some (parse_int p.tok.lex).0) (advance p)
    else fail Error.bad_global_init p

-- `[= INT]`.
unfoldable pub global_init : Parse (Option ℕ)
unfolding initializer advance
global_init p = if tok_is TokenType.assign p then (next >> initializer) p else ok none p

-- A parser at the first of the tokens.
unfoldable pub parser_at : List Token → Parser
unfolding advance
parser_at ts =
    advance (record { lx = ts; tok = record { type = TokenType.eof; lex = []; line = 1; col = 1 } })

module _ (parse_float : Text → ℕ) where
  -- The rest of a function after its name.
  unfoldable pub parse_func : Text → BasicType → Parse Decl
  unfolding parse_params parse_stmt parse_block expect advance
  parse_func name ret = do
    next
    params ← parse_params
    expect TokenType.rparen
    body ← parse_block parse_float (parse_stmt parse_float)
    pure (func_decl name params body ret)

  unfoldable pub parse_typed : Parse Decl
  unfolding parse_func array_size global_init int_or_char stars expect
  parse_typed = do
    bt ← int_or_char Error.bad_decl
    ptr ← stars
    name ← expect TokenType.ident
    λ p.
        if tok_is TokenType.lparen p
        then parse_func name.lex bt p
        else if tok_is TokenType.lbrack p
        then (do v ← array_size; pure (global_array_decl name.lex v bt)) p
        else (do init ← global_init; expect TokenType.semi; pure (global_decl name.lex init bt ptr))
            p

  unfoldable pub decl_by : TokenType → Parse Decl
  unfolding parse_struct_decl parse_enum_decl parse_typedef_decl parse_typed
  decl_by TokenType.kw_struct = parse_struct_decl
  decl_by TokenType.kw_enum = parse_enum_decl
  decl_by TokenType.kw_typedef = parse_typedef_decl
  decl_by _ = parse_typed

  unfoldable pub parse_decl : Parse Decl
  unfolding decl_by
  parse_decl p = decl_by p.tok.type p

  abbrev pub one_decl : List Decl → Parse (List Decl)
  one_decl ds = do d ← parse_decl; pure (ds ++ d ∷ [])

  -- The loop of `ParseFile`.
  unfoldable pub parse_decls : Parse (List Decl)
  unfolding while parse_decl
  parse_decls = while (λ p. not (tok_is TokenType.eof p)) one_decl []

  unfoldable pub parse_file : Unicode → Text → Result (List Decl)
  unfolding parse_decls parser_at tokens
  parse_file u src = parse_decls (parser_at (tokens u (suc (length src)) (Lexer.start src)))
