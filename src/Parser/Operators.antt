-- ===== src/Parser/Operators.antt =====
-- internal/parser/parser.go: two operands with an operator between them.
use ccomp.Base.{◌≡◌, refl, sym, subst, ap, ◌∙◌, Bool, true, false, List, [], ◌∷◌, ◌++◌, any, arith}
use ccomp.Ast.{Expr, BinOp, binary_expr}
use ccomp.Lexer.Token.{TokenType, type_eq}
use ccomp.Parser.{Parser, Parse, ok, tok_in, advance}
use ccomp.Parser.Expr.{
  bin_op_from_token, level, parse_term, parse_add, parse_shift, parse_relational, parse_equality,
  parse_bitwise_and, parse_bitwise_xor, parse_bitwise_or, parse_logical_and, parse_logical_or,
  term_ops, add_ops, shift_ops, relational_ops, equality_ops,
}
use ccomp.Parser.Climb.{
  Stops, chain_one, level_one, level_none, to_term, to_shift, to_relational, to_sums, to_equality,
  to_bitwise_and, to_bitwise_xor, to_bitwise_or, to_logical_and, up_land, up_bor, up_bxor, up_band,
  up_equality, up_equal, up_relational, up_shift, up_term,
}

-- The token that an operator is written as.
abbrev pub op_type : BinOp → TokenType
op_type BinOp.add = TokenType.plus
op_type BinOp.sub = TokenType.minus
op_type BinOp.mul = TokenType.star
op_type BinOp.div = TokenType.slash
op_type BinOp.eq = TokenType.eqeq
op_type BinOp.ne = TokenType.neq
op_type BinOp.lt = TokenType.lt
op_type BinOp.le = TokenType.le
op_type BinOp.gt = TokenType.gt
op_type BinOp.ge = TokenType.ge
op_type BinOp.land = TokenType.andand
op_type BinOp.lor = TokenType.oror
op_type BinOp.and = TokenType.amp
op_type BinOp.or = TokenType.pipe
op_type BinOp.xor = TokenType.caret
op_type BinOp.shl = TokenType.shl
op_type BinOp.shr = TokenType.shr

pub bin_op_from_token-op_type : (op : BinOp) → bin_op_from_token (op_type op) ≡ op
unfolding bin_op_from_token
bin_op_from_token-op_type BinOp.add = refl
bin_op_from_token-op_type _ = refl

-- An operand that ends at a token of type `t` is read by the levels up to that of `t`.
module _ (unary : Parse Expr) (e : Expr) (p q : Parser) (t : TokenType) (at : q.tok.type ≡ t)
    (h : unary p ≡ ok e q) where
  pub test : (ops : List TokenType) (b : Bool) → any (type_eq t) ops ≡ b → tok_in ops q ≡ b
  test ops b = subst (λ u. any (type_eq u) ops ≡ b) (sym at)

  abbrev Not : List TokenType → Type 0
  Not ops = any (type_eq t) ops ≡ false

  pub reach_term : Not term_ops → parse_term unary p ≡ ok e q
  reach_term n = to_term unary e p q h (test term_ops false n)

  pub reach_shift : Not term_ops → Not shift_ops → parse_shift unary p ≡ ok e q
  reach_shift n m = to_shift unary e p q (reach_term n) (test shift_ops false m)

  pub reach_relational :
      Not term_ops → Not shift_ops → Not relational_ops → parse_relational unary p ≡ ok e q
  reach_relational n m k = to_relational unary e p q (reach_shift n m) (test relational_ops false k)

  pub reach_equal :
      Not term_ops
      → Not shift_ops
      → Not relational_ops
      → Not equality_ops
      → level equality_ops (parse_relational unary) p ≡ ok e q
  reach_equal n m k j =
      level_none equality_ops (parse_relational unary) e p q (reach_relational n m k)
        (test equality_ops false j)

-- The operators below the sums all pass over `t`.
abbrev IsLoose : TokenType → Type 0
IsLoose t =
    any (type_eq t) (term_ops ++ shift_ops ++ relational_ops ++ equality_ops ++ add_ops) ≡ false

module _ (unary : Parse Expr) (e : Expr) (p q : Parser) (t : TokenType) (at : q.tok.type ≡ t)
    (h : unary p ≡ ok e q) (n : IsLoose t) where
  pub reach_equality : parse_equality unary p ≡ ok e q
  reach_equality =
      to_equality unary e p q
        (reach_equal unary e p q t at h (ground (arith, n)) (ground (arith, n)) (ground (arith, n))
          (ground (arith, n)))
        (test unary e p q t at h add_ops false (ground (arith, n)))

  abbrev Loose : List TokenType → Type 0
  Loose ops = any (type_eq t) ops ≡ false

  reach_band : Loose (TokenType.amp ∷ []) → parse_bitwise_and unary p ≡ ok e q
  reach_band a =
      to_bitwise_and unary e p q reach_equality
        (test unary e p q t at h (TokenType.amp ∷ []) false a)

  reach_bxor :
      Loose (TokenType.amp ∷ []) → Loose (TokenType.caret ∷ []) → parse_bitwise_xor unary p ≡ ok e q
  reach_bxor a b =
      to_bitwise_xor unary e p q (reach_band a)
        (test unary e p q t at h (TokenType.caret ∷ []) false b)

  reach_bor :
      Loose (TokenType.amp ∷ [])
      → Loose (TokenType.caret ∷ [])
      → Loose (TokenType.pipe ∷ [])
      → parse_bitwise_or unary p ≡ ok e q
  reach_bor a b c =
      to_bitwise_or unary e p q (reach_bxor a b)
        (test unary e p q t at h (TokenType.pipe ∷ []) false c)

  reach_land :
      Loose (TokenType.amp ∷ [])
      → Loose (TokenType.caret ∷ [])
      → Loose (TokenType.pipe ∷ [])
      → Loose (TokenType.andand ∷ [])
      → parse_logical_and unary p ≡ ok e q
  reach_land a b c d =
      to_logical_and unary e p q (reach_bor a b c)
        (test unary e p q t at h (TokenType.andand ∷ []) false d)

-- An operand at `p`, then the operator at `q`, and an operand after it, before `s`.
module _ (unary : Parse Expr) (l r : Expr) (p q s : Parser) (stop : Stops s.tok.type)
    (hl : unary p ≡ ok l q) (hr : unary (advance q) ≡ ok r s) where
  abbrev Joined : Type 0
  Joined = parse_logical_or unary p ≡ ok (binary_expr (bin_op_from_token q.tok.type) l r) s

  -- The right operand, at the same level.
  right_term : parse_term unary (advance q) ≡ ok r s
  right_term = to_term unary r (advance q) s hr stop.term

  right_shift : parse_shift unary (advance q) ≡ ok r s
  right_shift = to_shift unary r (advance q) s right_term stop.shift

  right_relational : parse_relational unary (advance q) ≡ ok r s
  right_relational = to_relational unary r (advance q) s right_shift stop.relational

  right_equality : parse_equality unary (advance q) ≡ ok r s
  right_equality =
      to_equality unary r (advance q) s
        (level_none equality_ops (parse_relational unary) r (advance q) s right_relational
          stop.equality)
        stop.add

  right_band : parse_bitwise_and unary (advance q) ≡ ok r s
  right_band = to_bitwise_and unary r (advance q) s right_equality stop.band

  right_bxor : parse_bitwise_xor unary (advance q) ≡ ok r s
  right_bxor = to_bitwise_xor unary r (advance q) s right_band stop.bxor

  right_bor : parse_bitwise_or unary (advance q) ≡ ok r s
  right_bor = to_bitwise_or unary r (advance q) s right_bxor stop.bor

  right_land : parse_logical_and unary (advance q) ≡ ok r s
  right_land = to_logical_and unary r (advance q) s right_bor stop.land

  module _ (t : TokenType) (at : q.tok.type ≡ t) where
    is_in : (ops : List TokenType) → any (type_eq t) ops ≡ true → tok_in ops q ≡ true
    is_in ops = test unary l p q t at hl ops true

    join_term : any (type_eq t) term_ops ≡ true → Joined
    unfolding parse_term
    join_term y =
        up_term unary _ p s stop
          (level_one term_ops unary l r p q s (refl, (refl, tt)) hl (is_in term_ops y) hr stop.term)

    join_shift : any (type_eq t) shift_ops ≡ true → any (type_eq t) term_ops ≡ false → Joined
    unfolding parse_shift
    join_shift y n = up_shift unary _ p s stop (
        level_one shift_ops (parse_term unary) l r p q s (refl, (refl, tt))
          (reach_term unary l p q t at hl n) (is_in shift_ops y) right_term stop.shift)

    join_relational :
        any (type_eq t) relational_ops ≡ true
        → any (type_eq t) term_ops ≡ false
        → any (type_eq t) shift_ops ≡ false
        → Joined
    unfolding parse_relational
    join_relational y n m = up_relational unary _ p s stop (
        level_one relational_ops (parse_shift unary) l r p q s (refl, (refl, (refl, (refl, tt))))
          (reach_shift unary l p q t at hl n m) (is_in relational_ops y) right_shift
          stop.relational)

    join_equality :
        any (type_eq t) equality_ops ≡ true
        → any (type_eq t) term_ops ≡ false
        → any (type_eq t) shift_ops ≡ false
        → any (type_eq t) relational_ops ≡ false
        → Joined
    join_equality y n m k = up_equal unary _ p s stop (
        level_one equality_ops (parse_relational unary) l r p q s (refl, (refl, tt))
          (reach_relational unary l p q t at hl n m k) (is_in equality_ops y) right_relational
          stop.equality)

    join_add :
        any (type_eq t) add_ops ≡ true
        → any (type_eq t) term_ops ≡ false
        → any (type_eq t) shift_ops ≡ false
        → any (type_eq t) relational_ops ≡ false
        → any (type_eq t) equality_ops ≡ false
        → Joined
    unfolding parse_add
    join_add y n m k j = up_equality unary _ p s stop (
        to_sums unary l p q _ (reach_equal unary l p q t at hl n m k j) (
          chain_one add_ops (parse_term unary) l r q s (refl, (refl, tt)) (is_in add_ops y)
            right_term stop.add))

    module _ (loose : IsLoose t) where
      join_band : any (type_eq t) (TokenType.amp ∷ []) ≡ true → Joined
      unfolding parse_bitwise_and
      join_band y = up_band unary _ p s stop (
          level_one (TokenType.amp ∷ []) (parse_equality unary) l r p q s (refl, tt)
            (reach_equality unary l p q t at hl loose) (is_in (TokenType.amp ∷ []) y) right_equality
            stop.band)

      join_bxor :
          any (type_eq t) (TokenType.caret ∷ []) ≡ true
          → any (type_eq t) (TokenType.amp ∷ []) ≡ false
          → Joined
      unfolding parse_bitwise_xor
      join_bxor y a = up_bxor unary _ p s stop (
          level_one (TokenType.caret ∷ []) (parse_bitwise_and unary) l r p q s (refl, tt)
            (reach_band unary l p q t at hl loose a) (is_in (TokenType.caret ∷ []) y) right_band
            stop.bxor)

      join_bor :
          any (type_eq t) (TokenType.pipe ∷ []) ≡ true
          → any (type_eq t) (TokenType.amp ∷ []) ≡ false
          → any (type_eq t) (TokenType.caret ∷ []) ≡ false
          → Joined
      unfolding parse_bitwise_or
      join_bor y a b = up_bor unary _ p s stop (
          level_one (TokenType.pipe ∷ []) (parse_bitwise_xor unary) l r p q s (refl, tt)
            (reach_bxor unary l p q t at hl loose a b) (is_in (TokenType.pipe ∷ []) y) right_bxor
            stop.bor)

      join_land :
          any (type_eq t) (TokenType.andand ∷ []) ≡ true
          → any (type_eq t) (TokenType.amp ∷ []) ≡ false
          → any (type_eq t) (TokenType.caret ∷ []) ≡ false
          → any (type_eq t) (TokenType.pipe ∷ []) ≡ false
          → Joined
      unfolding parse_logical_and
      join_land y a b c = up_land unary _ p s stop (
          level_one (TokenType.andand ∷ []) (parse_bitwise_or unary) l r p q s (refl, tt)
            (reach_bor unary l p q t at hl loose a b c) (is_in (TokenType.andand ∷ []) y) right_bor
            stop.land)

      join_lor :
          any (type_eq t) (TokenType.oror ∷ []) ≡ true
          → any (type_eq t) (TokenType.amp ∷ []) ≡ false
          → any (type_eq t) (TokenType.caret ∷ []) ≡ false
          → any (type_eq t) (TokenType.pipe ∷ []) ≡ false
          → any (type_eq t) (TokenType.andand ∷ []) ≡ false
          → Joined
      unfolding parse_logical_or
      join_lor y a b c d =
          level_one (TokenType.oror ∷ []) (parse_logical_and unary) l r p q s (refl, tt)
            (reach_land unary l p q t at hl loose a b c d) (is_in (TokenType.oror ∷ []) y)
            right_land stop.lor

  -- Each operator joins its two operands, where a token that is no operator follows.
  join : (op : BinOp) → q.tok.type ≡ op_type op → Joined
  join BinOp.mul at = join_term _ at refl
  join BinOp.div at = join_term _ at refl
  join BinOp.add at = join_add _ at refl refl refl refl refl
  join BinOp.sub at = join_add _ at refl refl refl refl refl
  join BinOp.shl at = join_shift _ at refl refl
  join BinOp.shr at = join_shift _ at refl refl
  join BinOp.lt at = join_relational _ at refl refl refl
  join BinOp.le at = join_relational _ at refl refl refl
  join BinOp.gt at = join_relational _ at refl refl refl
  join BinOp.ge at = join_relational _ at refl refl refl
  join BinOp.eq at = join_equality _ at refl refl refl refl
  join BinOp.ne at = join_equality _ at refl refl refl refl
  join BinOp.and at = join_band _ at refl refl
  join BinOp.xor at = join_bxor _ at refl refl refl
  join BinOp.or at = join_bor _ at refl refl refl refl
  join BinOp.land at = join_land _ at refl refl refl refl refl
  join BinOp.lor at = join_lor _ at refl refl refl refl refl refl

  pub join_op :
      (op : BinOp) → q.tok.type ≡ op_type op → parse_logical_or unary p ≡ ok (binary_expr op l r) s
  join_op op at =
      subst (λ o. parse_logical_or unary p ≡ ok (binary_expr o l r) s)
        (ap bin_op_from_token at ∙ bin_op_from_token-op_type op) (join op at)
