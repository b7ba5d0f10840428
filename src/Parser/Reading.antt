-- ===== src/Parser/Reading.antt =====
-- internal/parser/parser.go: what the parser of expressions does at the first token.
use ccomp.Base.{ℕ, suc, ◌≡◌, refl, Bool, true, false, List, [], ◌∷◌, any, length, arith, ==_iff}
use ccomp.Base.Text.{Text}
use ccomp.Ast.{
  Expr, BasicType, bt_int, bt_char, bt_double, BinOp, UnOp, ident, string_lit, unary_expr,
  cast_expr, field_expr,
}
use ccomp.Lexer.Token.{Token, TokenType, type_eq}
use ccomp.Parser.{
  Parser, Parse, ok, bind, pure, expect, tok_in, tok_is, advance, left, repeat, while,
}
use ccomp.Parser.Expr.{
  parse_logical_or, one_index, indices, one_field, fields, parse_call, after_name, parse_paren,
  parse_unary, type_names,
}
use ccomp.Parser.Decl.{parser_at}
use ccomp.Parser.Climb.{Stops, operators-Stops, no_round}
use ccomp.Parser.Operators.{op_type}
use ccomp.Parser.Print.{lexed, mark, prefix_type, type_type, cast_end}

abbrev pub postfixes : List TokenType
postfixes = TokenType.lparen ∷ TokenType.lbrack ∷ TokenType.dot ∷ []

abbrev pub Plain : TokenType → Type 0
Plain t = any (type_eq t) postfixes ≡ false

pub rparen-Stops : Stops TokenType.rparen
rparen-Stops = operators-Stops TokenType.rparen refl

module _ (unary : Parse Expr) where
  pub indices_none : (e : Expr) (p : Parser) → Plain p.tok.type → indices unary e p ≡ ok e p
  unfolding indices while
  indices_none e p h =
      no_round (left p) (tok_is TokenType.lbrack) (one_index unary) e p (ground (arith, h))

  pub fields_none : (e : Expr) (p : Parser) → Plain p.tok.type → fields unary e p ≡ ok e p
  unfolding fields while
  fields_none e p h =
      no_round (left p) (tok_is TokenType.dot) (one_field unary) e p (ground (arith, h))

  pub after_name_plain :
      (x : Text) (p : Parser) → Plain p.tok.type → after_name unary x p ≡ ok (ident x) p
  after_name_plain x p h =
      let n : tok_is TokenType.lparen p ≡ false = ground (arith, h) in
      rw (n, indices_none (ident x) p h) (fields_none (ident x) p h)

  -- A name before its arguments.
  pub after_name_call :
      (x : Text) (p : Parser)
      → tok_is TokenType.lparen p ≡ true
      → after_name unary x p ≡ parse_call unary x p
  after_name_call x p h = rw h refl

pub type_eq_refl : (t : TokenType) → type_eq t t ≡ true
type_eq_refl t = (==_iff _ _).1 refl

pub expect_mark :
    (t : TokenType) (x : Text) (u : Token) (k : List Token)
    → expect t (parser_at (lexed t x ∷ u ∷ k)) ≡ ok (lexed t x) (parser_at (u ∷ k))
unfolding expect parser_at
expect_mark t x u k = rw (type_eq_refl t) refl

pub op-Plain : (op : BinOp) → Plain (op_type op)
op-Plain BinOp.add = refl
op-Plain _ = refl

module _ (unary : Parse Expr) (e : Expr) (q : Parser) (t : Token) (k : List Token)
    (h : parse_logical_or unary q ≡ ok e (parser_at (mark TokenType.rparen ∷ t ∷ k))) where
  -- An expression in parentheses.
  pub paren_reads :
      tok_in type_names q ≡ false → parse_paren unary q ≡ indices unary e (parser_at (t ∷ k))
  unfolding parse_paren
  paren_reads n = rw (n, h, expect_mark TokenType.rparen [] t k) refl

module _ (parse_float : Text → ℕ) (m : ℕ) (us : List Token) where
  abbrev unary : Parse Expr
  unary = parse_unary parse_float m

  abbrev after : Token → Parser
  after u = advance (parser_at (u ∷ us))

  pub at_name :
      (x : Text)
      → parse_unary parse_float (suc m) (parser_at (lexed TokenType.ident x ∷ us))
        ≡ after_name unary x (after (lexed TokenType.ident x))
  unfolding parse_unary parser_at
  at_name x = refl

  pub at_paren :
      parse_unary parse_float (suc m) (parser_at (mark TokenType.lparen ∷ us))
      ≡ parse_paren unary (after (mark TokenType.lparen))
  unfolding parse_unary parser_at
  at_paren = refl

  pub at_prefix :
      (op : UnOp)
      → parse_unary parse_float (suc m) (parser_at (mark (prefix_type op) ∷ us))
        ≡ bind (unary (after (mark (prefix_type op)))) (λ x. pure (unary_expr op x))
  unfolding parse_unary parser_at
  at_prefix UnOp.addr = refl
  at_prefix UnOp.deref = refl
  at_prefix UnOp.neg = refl
  at_prefix UnOp.bit_not = refl
  at_prefix UnOp.logical_not = refl

  pub at_string :
      (x : Text)
      → parse_unary parse_float (suc m) (parser_at (lexed TokenType.string x ∷ us))
        ≡ indices unary (string_lit x) (after (lexed TokenType.string x))
  unfolding parse_unary parser_at
  at_string x = refl

-- The state at a token.
pub at_tok :
    (t : TokenType) (u : Token) (us : List Token) → tok_is t (parser_at (u ∷ us)) ≡ type_eq u.type t
unfolding parser_at
at_tok t u us = refl

pub left-at :
    (u : Token) (us : List Token)
    → type_eq u.type TokenType.eof ≡ false
    → left (parser_at (u ∷ us)) ≡ suc (length us)
unfolding left parser_at
left-at u us h = rw h refl

module _ (parse_float : Text → ℕ) (m : ℕ) (us : List Token) where
  pub at_cast :
      (ty : BasicType) (ptr : Bool)
      → parse_paren
          (parse_unary parse_float m)
          (advance (parser_at (mark TokenType.lparen ∷ mark (type_type ty) ∷ cast_end ptr us)))
        ≡ bind
            (parse_unary parse_float m (advance (parser_at (mark TokenType.rparen ∷ us))))
            (λ x. pure (cast_expr ty ptr x))
  unfolding parse_paren parser_at
  at_cast bt_int true = refl
  at_cast bt_int false = refl
  at_cast bt_char true = refl
  at_cast bt_char false = refl
  at_cast bt_double true = refl
  at_cast bt_double false = refl

pub one_field_done :
    (u : Parse Expr) (x f : Text) (t : Token) (k : List Token)
    → Plain t.type
    → after_name u x (parser_at (mark TokenType.dot ∷ lexed TokenType.ident f ∷ t ∷ k))
      ≡ ok (field_expr (ident x) f) (parser_at (t ∷ k))
unfolding indices fields while repeat parser_at
one_field_done u x f t k p =
    let n : type_eq t.type TokenType.dot ≡ false = ground (arith, p) in rw n refl
