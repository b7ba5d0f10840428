-- ===== src/Parser/Expr.antt =====
-- internal/parser/parser.go: the expressions. A level of the grammar takes the parser of unary
-- expressions, which alone recurs, as an argument.
use ccomp.Base.{ℕ, zero, suc, List, [], ◌∷◌, if◌then◌else◌}
use ccomp.Base.Text.{Text}
use ccomp.Ast.{
  Expr, Exprs, no_expr, an_expr, append_expr, BasicType, bt_int, bt_char, bt_double, BinOp, UnOp,
  ident, int_lit, float_lit, string_lit, binary_expr, call_expr, unary_expr, index_expr, cast_expr,
  field_expr,
}
use ccomp.Lexer.Token.{TokenType}
use ccomp.Parser.{
  Parse, Error, out_of_fuel, bind, ◌>>=◌, ◌>>◌, pure, fail, tok_in, tok_is, advance, next, take_tok,
  expect, left, while, stars, opt_until,
}
use ccomp.Parser.Number.{parse_int}

-- `binOpFromToken`.
unfoldable pub bin_op_from_token : TokenType → BinOp
bin_op_from_token TokenType.plus = BinOp.add
bin_op_from_token TokenType.minus = BinOp.sub
bin_op_from_token TokenType.star = BinOp.mul
bin_op_from_token TokenType.slash = BinOp.div
bin_op_from_token TokenType.eqeq = BinOp.eq
bin_op_from_token TokenType.neq = BinOp.ne
bin_op_from_token TokenType.lt = BinOp.lt
bin_op_from_token TokenType.le = BinOp.le
bin_op_from_token TokenType.gt = BinOp.gt
bin_op_from_token TokenType.ge = BinOp.ge
bin_op_from_token TokenType.andand = BinOp.land
bin_op_from_token TokenType.oror = BinOp.lor
bin_op_from_token TokenType.amp = BinOp.and
bin_op_from_token TokenType.caret = BinOp.xor
bin_op_from_token TokenType.pipe = BinOp.or
bin_op_from_token TokenType.shl = BinOp.shl
bin_op_from_token TokenType.shr = BinOp.shr
bin_op_from_token _ = BinOp.add

-- The operators of the levels that have several.
abbrev pub term_ops : List TokenType
term_ops = TokenType.star ∷ TokenType.slash ∷ []

abbrev pub add_ops : List TokenType
add_ops = TokenType.plus ∷ TokenType.minus ∷ []

abbrev pub shift_ops : List TokenType
shift_ops = TokenType.shl ∷ TokenType.shr ∷ []

abbrev pub relational_ops : List TokenType
relational_ops = TokenType.lt ∷ TokenType.le ∷ TokenType.gt ∷ TokenType.ge ∷ []

abbrev pub equality_ops : List TokenType
equality_ops = TokenType.eqeq ∷ TokenType.neq ∷ []

-- One more operator and operand of a level, and all of them: `left` is on the left of the first.
abbrev pub one_more : Parse Expr → Expr → Parse Expr
one_more operand left p =
    bind (operand (advance p)) λ right. pure (binary_expr (bin_op_from_token p.tok.type) left right)

unfoldable pub chain : List TokenType → Parse Expr → Expr → Parse Expr
unfolding while bin_op_from_token advance
chain ops operand = while (tok_in ops) (one_more operand)

-- `left = operand; for an operator { left = left op operand }`.
unfoldable pub level : List TokenType → Parse Expr → Parse Expr
unfolding chain
level ops operand = do left ← operand; chain ops operand left

-- The type of a cast or a declaration.
abbrev pub type_names : List TokenType
type_names = TokenType.kw_int ∷ TokenType.kw_char ∷ TokenType.kw_double ∷ []

abbrev pub basic_of : TokenType → BasicType
basic_of TokenType.kw_char = bt_char
basic_of TokenType.kw_double = bt_double
basic_of _ = bt_int

-- The first rune of a character literal.
abbrev pub first_rune : Text → ℕ
first_rune [] = 0
first_rune (c ∷ cs) = c

module _ (unary : Parse Expr) where
  unfoldable pub parse_term : Parse Expr
  unfolding level
  parse_term = level term_ops unary

  unfoldable pub parse_add : Expr → Parse Expr
  unfolding chain parse_term
  parse_add = chain add_ops parse_term

  unfoldable pub parse_shift : Parse Expr
  unfolding level parse_term
  parse_shift = level shift_ops parse_term

  unfoldable pub parse_relational : Parse Expr
  unfolding level parse_shift
  parse_relational = level relational_ops parse_shift

  unfoldable pub parse_equality : Parse Expr
  unfolding level parse_relational parse_add
  parse_equality = do left ← level equality_ops parse_relational; parse_add left

  unfoldable pub parse_bitwise_and : Parse Expr
  unfolding level parse_equality
  parse_bitwise_and = level (TokenType.amp ∷ []) parse_equality

  unfoldable pub parse_bitwise_xor : Parse Expr
  unfolding level parse_bitwise_and
  parse_bitwise_xor = level (TokenType.caret ∷ []) parse_bitwise_and

  unfoldable pub parse_bitwise_or : Parse Expr
  unfolding level parse_bitwise_xor
  parse_bitwise_or = level (TokenType.pipe ∷ []) parse_bitwise_xor

  unfoldable pub parse_logical_and : Parse Expr
  unfolding level parse_bitwise_or
  parse_logical_and = level (TokenType.andand ∷ []) parse_bitwise_or

  -- `parseExpr` is `parseLogicalOr`.
  unfoldable pub parse_logical_or : Parse Expr
  unfolding level parse_logical_and
  parse_logical_or = level (TokenType.oror ∷ []) parse_logical_and

  -- `[index]`, and the indices after an expression.
  abbrev pub one_index : Expr → Parse Expr
  one_index e = do next; idx ← parse_logical_or; expect TokenType.rbrack; pure (index_expr e idx)

  unfoldable pub indices : Expr → Parse Expr
  unfolding while parse_logical_or expect advance
  indices = while (tok_is TokenType.lbrack) one_index

  abbrev pub one_field : Expr → Parse Expr
  one_field e = do next; field_tok ← expect TokenType.ident; pure (field_expr e field_tok.lex)

  unfoldable pub fields : Expr → Parse Expr
  unfolding while expect advance
  fields = while (tok_is TokenType.dot) one_field

  -- The arguments of a call, with its closing parenthesis.
  abbrev pub one_arg : Exprs → Parse Exprs
  one_arg args = do next; e ← parse_logical_or; pure (append_expr args e)

  abbrev pub some_args : Parse Exprs
  some_args = do e ← parse_logical_or; while (tok_is TokenType.comma) one_arg (an_expr e no_expr)

  unfoldable pub parse_call : Text → Parse Expr
  unfolding while parse_logical_or append_expr expect advance
  parse_call name = do
    next
    args ← opt_until TokenType.rparen no_expr some_args
    expect TokenType.rparen
    pure (call_expr name args)

  abbrev pub after_name : Text → Parse Expr
  after_name name p =
      if tok_is TokenType.lparen p
      then parse_call name p
      else (do e ← indices (ident name); fields e) p

  unfoldable pub parse_cast : Parse Expr
  unfolding stars expect advance
  parse_cast = do
    t ← take_tok
    cptr ← stars
    expect TokenType.rparen
    x ← unary
    pure (cast_expr (basic_of t.type) cptr x)

  unfoldable pub parse_paren : Parse Expr
  unfolding parse_cast parse_logical_or indices expect
  parse_paren p =
      if tok_in type_names p
      then parse_cast p
      else (do e ← parse_logical_or; expect TokenType.rparen; indices e) p

  module _ (parse_float : Text → ℕ) where
    -- The switch of `parseFactor`.
    unfoldable pub factor_by : TokenType → Parse Expr
    unfolding parse_call indices fields parse_paren parse_int advance
    factor_by TokenType.ident = do t ← take_tok; after_name t.lex
    factor_by TokenType.int = do t ← take_tok; pure (int_lit (parse_int t.lex).0)
    factor_by TokenType.float = do t ← take_tok; pure (float_lit (parse_float t.lex))
    factor_by TokenType.char = do t ← take_tok; pure (int_lit (first_rune t.lex))
    factor_by TokenType.string = do t ← take_tok; indices (string_lit t.lex)
    factor_by TokenType.lparen = do next; parse_paren
    factor_by _ = fail Error.unexpected

    unfoldable pub parse_factor : Parse Expr
    unfolding factor_by
    parse_factor p = factor_by p.tok.type p

    abbrev pub prefixed : UnOp → Parse Expr
    prefixed op = do next; x ← unary; pure (unary_expr op x)

    -- The body of `parseUnary`.
    unfoldable pub unary_by : TokenType → Parse Expr
    unfolding parse_factor advance
    unary_by TokenType.amp = prefixed UnOp.addr
    unary_by TokenType.star = prefixed UnOp.deref
    unary_by TokenType.minus = prefixed UnOp.neg
    unary_by TokenType.tilde = prefixed UnOp.bit_not
    unary_by TokenType.bang = prefixed UnOp.logical_not
    unary_by _ = parse_factor

module _ (parse_float : Text → ℕ) where
  -- Each recursive call takes a token first: the fuel is the number of nested calls.
  unfoldable pub parse_unary : ℕ → Parse Expr
  unfolding unary_by
  parse_unary zero p = out_of_fuel
  parse_unary (suc n) p = unary_by (parse_unary n) parse_float p.tok.type p

  abbrev pub with_unary {ℓ} : {A : Type ℓ} → (Parse Expr → Parse A) → Parse A
  with_unary level p = level (parse_unary (suc (left p))) p

  unfoldable pub parse_expr : Parse Expr
  unfolding parse_unary parse_logical_or left
  parse_expr = with_unary parse_logical_or
