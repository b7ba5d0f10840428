-- ===== src/Parser/Climb.antt =====
-- internal/parser/parser.go: the levels of the grammar over an operand and over one operator.
use ccomp.Base.{ℕ, suc, ◌≡◌, refl, ap, ◌∙◌, Bool, true, false, List, [], ◌∷◌, any, arith, length}
use ccomp.Ast.{Expr, binary_expr}
use ccomp.Lexer.Token.{TokenType, type_eq}
use ccomp.Parser.{Parser, Parse, Result, ok, tok_in, advance, left, repeat, while}
use ccomp.Parser.Within.{in-ne-eof, left-some}
use ccomp.Parser.ExprEnds.{NoEof}
use ccomp.Parser.Expr.{
  bin_op_from_token, one_more, chain, level, parse_term, parse_add, parse_shift, parse_relational,
  parse_equality, parse_bitwise_and, parse_bitwise_xor, parse_bitwise_or, parse_logical_and,
  parse_logical_or, term_ops, add_ops, shift_ops, relational_ops, equality_ops,
}

abbrev pub operators : List TokenType
operators =
    TokenType.star ∷ TokenType.slash ∷ TokenType.plus ∷ TokenType.minus ∷ TokenType.shl
    ∷ TokenType.shr ∷ TokenType.lt ∷ TokenType.le ∷ TokenType.gt ∷ TokenType.ge ∷ TokenType.eqeq
    ∷ TokenType.neq ∷ TokenType.amp ∷ TokenType.caret ∷ TokenType.pipe ∷ TokenType.andand
    ∷ TokenType.oror ∷ []

-- The token is an operator of none of the levels.
pub record Stops (t : TokenType) : Type 0 where
  pub term : any (type_eq t) term_ops ≡ false
  pub add : any (type_eq t) add_ops ≡ false
  pub shift : any (type_eq t) shift_ops ≡ false
  pub relational : any (type_eq t) relational_ops ≡ false
  pub equality : any (type_eq t) equality_ops ≡ false
  pub band : any (type_eq t) (TokenType.amp ∷ []) ≡ false
  pub bxor : any (type_eq t) (TokenType.caret ∷ []) ≡ false
  pub bor : any (type_eq t) (TokenType.pipe ∷ []) ≡ false
  pub land : any (type_eq t) (TokenType.andand ∷ []) ≡ false
  pub lor : any (type_eq t) (TokenType.oror ∷ []) ≡ false

pub operators-Stops : (t : TokenType) → any (type_eq t) operators ≡ false → Stops t
operators-Stops t h = ground arith

pub one_round {ℓ} :
    {A : Type ℓ} (n : ℕ) (test : Parser → Bool) (body : A → Parse A) (a b : A) (p q : Parser)
    → test p ≡ true
    → body a p ≡ ok b q
    → repeat (suc n) test body a p ≡ repeat n test body b q
unfolding repeat
one_round n test body a b p q t h = rw (t, h) refl

pub no_round {ℓ} :
    {A : Type ℓ} (n : ℕ) (test : Parser → Bool) (body : A → Parse A) (a : A) (p : Parser)
    → test p ≡ false
    → repeat (suc n) test body a p ≡ ok a p
unfolding repeat
no_round n test body a p t = rw t refl

module _ (ops : List TokenType) (operand : Parse Expr) where
  pub chain_none : (e : Expr) (p : Parser) → tok_in ops p ≡ false → chain ops operand e p ≡ ok e p
  unfolding chain while
  chain_none e p t = no_round (left p) (tok_in ops) (one_more operand) e p t

  pub chain_one :
      (l r : Expr) (p q : Parser)
      → NoEof ops
      → tok_in ops p ≡ true
      → operand (advance p) ≡ ok r q
      → tok_in ops q ≡ false
      → chain ops operand l p ≡ ok (binary_expr (bin_op_from_token p.tok.type) l r) q
  unfolding chain while
  chain_one l r p q n t h u =
      let e = binary_expr (bin_op_from_token p.tok.type) l r in
      let once = one_round (left p) (tok_in ops) (one_more operand) l e p q t (rw h refl) in
      let some_left = left-some p (in-ne-eof ops p.tok.type n t) in
      once
      ∙ ap (λ m. repeat m (tok_in ops) (one_more operand) e q) some_left
      ∙ no_round (length p.lx) (tok_in ops) (one_more operand) e q u

  pub level_by :
      (e : Expr) (p q : Parser) → operand p ≡ ok e q → level ops operand p ≡ chain ops operand e q
  unfolding level
  level_by e p q h = rw h refl

  -- A level with none of its operators.
  pub level_none :
      (e : Expr) (p q : Parser)
      → operand p ≡ ok e q
      → tok_in ops q ≡ false
      → level ops operand p ≡ ok e q
  level_none e p q h t = level_by e p q h ∙ chain_none e q t

  pub level_one :
      (l r : Expr) (p q s : Parser)
      → NoEof ops
      → operand p ≡ ok l q
      → tok_in ops q ≡ true
      → operand (advance q) ≡ ok r s
      → tok_in ops s ≡ false
      → level ops operand p ≡ ok (binary_expr (bin_op_from_token q.tok.type) l r) s
  level_one l r p q s n hl t hr u = level_by l p q hl ∙ chain_one l r q s n t hr u

module _ (unary : Parse Expr) (e : Expr) (p q : Parser) where
  pub to_term :
      unary p ≡ ok e q → any (type_eq q.tok.type) term_ops ≡ false → parse_term unary p ≡ ok e q
  unfolding parse_term
  to_term = level_none term_ops unary e p q

  pub to_shift :
      parse_term unary p ≡ ok e q
      → any (type_eq q.tok.type) shift_ops ≡ false
      → parse_shift unary p ≡ ok e q
  unfolding parse_shift
  to_shift = level_none shift_ops (parse_term unary) e p q

  pub to_relational :
      parse_shift unary p ≡ ok e q
      → any (type_eq q.tok.type) relational_ops ≡ false
      → parse_relational unary p ≡ ok e q
  unfolding parse_relational
  to_relational = level_none relational_ops (parse_shift unary) e p q

  -- The equalities come before the sums.
  pub to_sums :
      (r : Result Expr)
      → level equality_ops (parse_relational unary) p ≡ ok e q
      → parse_add unary e q ≡ r
      → parse_equality unary p ≡ r
  unfolding parse_equality
  to_sums r h k = rw (h, k) refl

  pub to_equality :
      level equality_ops (parse_relational unary) p ≡ ok e q
      → any (type_eq q.tok.type) add_ops ≡ false
      → parse_equality unary p ≡ ok e q
  unfolding parse_add
  to_equality h t = to_sums (ok e q) h (chain_none add_ops (parse_term unary) e q t)

  pub to_bitwise_and :
      parse_equality unary p ≡ ok e q
      → any (type_eq q.tok.type) (TokenType.amp ∷ []) ≡ false
      → parse_bitwise_and unary p ≡ ok e q
  unfolding parse_bitwise_and
  to_bitwise_and = level_none (TokenType.amp ∷ []) (parse_equality unary) e p q

  pub to_bitwise_xor :
      parse_bitwise_and unary p ≡ ok e q
      → any (type_eq q.tok.type) (TokenType.caret ∷ []) ≡ false
      → parse_bitwise_xor unary p ≡ ok e q
  unfolding parse_bitwise_xor
  to_bitwise_xor = level_none (TokenType.caret ∷ []) (parse_bitwise_and unary) e p q

  pub to_bitwise_or :
      parse_bitwise_xor unary p ≡ ok e q
      → any (type_eq q.tok.type) (TokenType.pipe ∷ []) ≡ false
      → parse_bitwise_or unary p ≡ ok e q
  unfolding parse_bitwise_or
  to_bitwise_or = level_none (TokenType.pipe ∷ []) (parse_bitwise_xor unary) e p q

  pub to_logical_and :
      parse_bitwise_or unary p ≡ ok e q
      → any (type_eq q.tok.type) (TokenType.andand ∷ []) ≡ false
      → parse_logical_and unary p ≡ ok e q
  unfolding parse_logical_and
  to_logical_and = level_none (TokenType.andand ∷ []) (parse_bitwise_or unary) e p q

  pub to_logical_or :
      parse_logical_and unary p ≡ ok e q
      → any (type_eq q.tok.type) (TokenType.oror ∷ []) ≡ false
      → parse_logical_or unary p ≡ ok e q
  unfolding parse_logical_or
  to_logical_or = level_none (TokenType.oror ∷ []) (parse_logical_and unary) e p q

-- From a level up to the whole expression, at a token that stops it.
module _ (unary : Parse Expr) (e : Expr) (p q : Parser) (s : Stops q.tok.type) where
  pub up_land : parse_logical_and unary p ≡ ok e q → parse_logical_or unary p ≡ ok e q
  up_land h = to_logical_or unary e p q h s.lor

  pub up_bor : parse_bitwise_or unary p ≡ ok e q → parse_logical_or unary p ≡ ok e q
  up_bor h = up_land (to_logical_and unary e p q h s.land)

  pub up_bxor : parse_bitwise_xor unary p ≡ ok e q → parse_logical_or unary p ≡ ok e q
  up_bxor h = up_bor (to_bitwise_or unary e p q h s.bor)

  pub up_band : parse_bitwise_and unary p ≡ ok e q → parse_logical_or unary p ≡ ok e q
  up_band h = up_bxor (to_bitwise_xor unary e p q h s.bxor)

  pub up_equality : parse_equality unary p ≡ ok e q → parse_logical_or unary p ≡ ok e q
  up_equality h = up_band (to_bitwise_and unary e p q h s.band)

  pub up_equal :
      level equality_ops (parse_relational unary) p ≡ ok e q → parse_logical_or unary p ≡ ok e q
  up_equal h = up_equality (to_equality unary e p q h s.add)

  pub up_relational : parse_relational unary p ≡ ok e q → parse_logical_or unary p ≡ ok e q
  up_relational h = up_equal (level_none equality_ops (parse_relational unary) e p q h s.equality)

  pub up_shift : parse_shift unary p ≡ ok e q → parse_logical_or unary p ≡ ok e q
  up_shift h = up_relational (to_relational unary e p q h s.relational)

  pub up_term : parse_term unary p ≡ ok e q → parse_logical_or unary p ≡ ok e q
  up_term h = up_shift (to_shift unary e p q h s.shift)

  -- An operand alone is an expression.
  pub up_unary : unary p ≡ ok e q → parse_logical_or unary p ≡ ok e q
  up_unary h = up_term (to_term unary e p q h s.term)
