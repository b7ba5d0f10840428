-- ===== src/Parser/Simple.antt =====
-- internal/parser/parser.go: the statements that hold no statement.
use ccomp.Base.{ℕ, Bool, false, List, [], ◌∷◌, Option, none, some, if◌then◌else◌}
use ccomp.Base.Text.{Text}
use ccomp.Ast.{
  Expr, Stmt, Stmts, bt_int, Pos, no_pos, ident, binary_expr, block_stmt, return_stmt, expr_stmt,
  decl_stmt, array_decl_stmt, struct_var_decl_stmt, assign_stmt, array_assign_stmt,
  field_assign_stmt, no_stmts, a_stmt,
}
use ccomp.Lexer.Token.{Token, TokenType}
use ccomp.Parser.{
  Parse, ok, bind, ◌>>=◌, ◌>>◌, pure, tok_in, tok_is, advance, next, take_tok, expect, left, while,
  stars,
}
use ccomp.Parser.Number.{parse_int}
use ccomp.Parser.Expr.{
  with_unary, parse_expr, parse_unary, parse_factor, parse_term, parse_relational, parse_equality,
  parse_logical_and, parse_add, chain, basic_of, term_ops, add_ops, shift_ops, relational_ops,
  equality_ops, bin_op_from_token,
}

abbrev pub pos_of : Token → Pos
pos_of t = record { line = t.line; col = t.col }

-- `*ast.BlockStmt`, which a statement is or is put into.
abbrev pub as_block : Stmt → Stmts
as_block (block_stmt b) = b
as_block s = a_stmt s no_stmts

-- `[N] ;` after the name of an array, and the size.
unfoldable pub array_size : Parse ℕ
unfolding parse_int expect advance
array_size = do
  next
  sz ← expect TokenType.int
  expect TokenType.rbrack
  expect TokenType.semi
  pure (parse_int sz.lex).0

unfoldable pub parse_struct_var : Parse Stmt
unfolding expect advance
parse_struct_var = do
  next
  struct_name ← expect TokenType.ident
  var_name ← expect TokenType.ident
  expect TokenType.semi
  pure (struct_var_decl_stmt var_name.lex struct_name.lex)

module _ (parse_float : Text → ℕ) where
  abbrev pub expr : Parse Expr
  expr = parse_expr parse_float

  -- `parseAfterPrimary`, a loop for each group of operators.
  abbrev pub factor : Parse Expr
  factor = with_unary parse_float (λ u. parse_factor u parse_float)

  abbrev pub term : Parse Expr
  term = with_unary parse_float parse_term

  abbrev pub equality : Parse Expr
  equality = with_unary parse_float parse_equality

  -- `for an operator { right = p.parseAdd(left); ... }`: parseAdd starts from the left operand.
  abbrev pub one_add : Expr → Parse Expr
  one_add left p =
      bind (with_unary parse_float (λ u. parse_add u left) (advance p))
        λ right. pure (binary_expr (bin_op_from_token p.tok.type) left right)

  unfoldable pub add_chain : List TokenType → Expr → Parse Expr
  unfolding while parse_unary parse_add bin_op_from_token left advance
  add_chain ops = while (tok_in ops) one_add

  unfoldable pub parse_after_primary : Expr → Parse Expr
  unfolding chain add_chain parse_unary parse_factor parse_term parse_equality parse_relational
      parse_logical_and left
  parse_after_primary e = do
    e ← chain term_ops factor e
    e ← chain add_ops term e
    e ← chain shift_ops term e
    e ← add_chain relational_ops e
    e ← chain equality_ops (with_unary parse_float parse_relational) e
    e ← chain (TokenType.amp ∷ []) equality e
    e ← chain (TokenType.caret ∷ []) equality e
    e ← chain (TokenType.pipe ∷ []) equality e
    e ← add_chain (TokenType.amp ∷ []) e
    e ← add_chain (TokenType.caret ∷ []) e
    e ← add_chain (TokenType.pipe ∷ []) e
    e ← chain (TokenType.andand ∷ []) equality e
    chain (TokenType.oror ∷ []) (with_unary parse_float parse_logical_and) e

  -- `[= expr]`.
  unfoldable pub opt_init : Parse (Option Expr)
  unfolding parse_expr advance
  opt_init p = if tok_is TokenType.assign p then (do next; e ← expr; pure (some e)) p else ok none p

  unfoldable pub parse_for_init : TokenType → Parse Stmt
  unfolding opt_init parse_expr parse_after_primary expect advance
  parse_for_init TokenType.kw_int = do
    next
    name ← expect TokenType.ident
    init ← opt_init
    pure (decl_stmt name.lex init bt_int false no_pos [])
  parse_for_init TokenType.ident = do
    id ← take_tok
    λ p.
        if tok_is TokenType.assign p
        then (do next; e ← expr; pure (assign_stmt id.lex e no_pos)) p
        else (do e ← parse_after_primary (ident id.lex); pure (expr_stmt e)) p
  parse_for_init _ = do e ← expr; pure (expr_stmt e)

  -- `parseForInitOrExprNoSemi`.
  abbrev pub parse_for_init_or_expr_no_semi : Parse Stmt
  parse_for_init_or_expr_no_semi p = parse_for_init p.tok.type p

  unfoldable pub parse_return : Parse Stmt
  unfolding parse_expr expect advance
  parse_return = do
    pos_tok ← take_tok
    e ← expr
    expect TokenType.semi
    pure (return_stmt e (pos_of pos_tok))

  unfoldable pub parse_declaration : Parse Stmt
  unfolding array_size opt_init stars expect advance
  parse_declaration = do
    t ← take_tok
    ptr ← stars
    name ← expect TokenType.ident
    λ p.
        if tok_is TokenType.lbrack p
        then (do v ← array_size; pure (array_decl_stmt name.lex v (basic_of t.type))) p
        else (do
          init ← opt_init
          expect TokenType.semi
          pure (decl_stmt name.lex init (basic_of t.type) ptr (pos_of t) []))
            p

  unfoldable pub parse_field_assign : Text → Parse Stmt
  unfolding parse_expr expect advance
  parse_field_assign base = do
    next
    field ← expect TokenType.ident
    expect TokenType.assign
    val ← expr
    expect TokenType.semi
    pure (field_assign_stmt base field.lex val)

  unfoldable pub parse_array_assign : Text → Parse Stmt
  unfolding parse_expr expect advance
  parse_array_assign name = do
    next
    idx ← expr
    expect TokenType.rbrack
    expect TokenType.assign
    val ← expr
    expect TokenType.semi
    pure (array_assign_stmt name idx val)

  -- What follows the name that a statement starts with, where that is no type.
  unfoldable pub after_id : Token → Parse Stmt
  unfolding parse_field_assign parse_array_assign parse_after_primary
  after_id id p =
      if tok_is TokenType.dot p
      then parse_field_assign id.lex p
      else if tok_is TokenType.lbrack p
      then parse_array_assign id.lex p
      else if tok_is TokenType.assign p
      then (do next; v ← expr; expect TokenType.semi; pure (assign_stmt id.lex v (pos_of id))) p
      else (do e ← parse_after_primary (ident id.lex); expect TokenType.semi; pure (expr_stmt e)) p

  -- A declaration by the name of a typedef.
  unfoldable pub typedef_var : Token → Bool → Parse Stmt
  unfolding opt_init expect advance
  typedef_var id ptr = do
    name ← take_tok
    init ← opt_init
    expect TokenType.semi
    pure (decl_stmt name.lex init bt_int ptr (pos_of id) id.lex)

  unfoldable pub parse_name : Parse Stmt
  unfolding typedef_var after_id stars advance
  parse_name = do
    id ← take_tok
    λ p.
        if tok_in (TokenType.ident ∷ TokenType.star ∷ []) p
        then (do
          ptr ← stars
          λ q. if tok_is TokenType.ident q then typedef_var id ptr q else after_id id q)
            p
        else after_id id p
