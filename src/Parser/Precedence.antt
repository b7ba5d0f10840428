-- ===== src/Parser/Precedence.antt =====
-- internal/parser/parser.go: where sums stand among the comparisons, and the statements that start
-- with a name.
use ccomp.Base.{ℕ, suc, ◌≡◌, refl, sym, subst, ◌∙◌, Bool, true, false, List, ◌∷◌, any, arith}
use ccomp.Base.Text.{Text}
use ccomp.Ast.{Expr, BinOp, binary_expr}
use ccomp.Lexer.Token.{Token, TokenType, type_eq}
use ccomp.Parser.{Parser, Parse, Error, ok, err, tok_in, advance, left}
use ccomp.Parser.Expr.{
  bin_op_from_token, level, parse_term, parse_add, parse_shift, parse_relational, parse_logical_or,
  parse_unary, parse_expr, term_ops, add_ops, shift_ops, relational_ops, equality_ops,
}
use ccomp.Parser.Stmt.{parse_stmt}
use ccomp.Parser.Decl.{parser_at}
use ccomp.Parser.Climb.{
  Stops, operators, operators-Stops, chain_one, level_one, level_none, to_term, to_shift,
  to_relational, to_sums, up_equality,
}
use ccomp.Parser.Operators.{op_type, bin_op_from_token-op_type, reach_shift, reach_relational}
use ccomp.Parser.Print.{Tree, mark, print, tree, depth-le, left-print}
use ccomp.Parser.RoundTrip.{ReadBy, read, right_operand}
use ccomp.Parser.Reading.{Plain, op-Plain, postfixes}

-- The comparisons, and the sums.
pub data Comparison : BinOp → Type 0 where
  eq : Comparison BinOp.eq
  ne : Comparison BinOp.ne
  lt : Comparison BinOp.lt
  le : Comparison BinOp.le
  gt : Comparison BinOp.gt
  ge : Comparison BinOp.ge

pub data Sum : BinOp → Type 0 where
  add : Sum BinOp.add
  sub : Sum BinOp.sub

module _ (s : Parser) (t : TokenType) (at : s.tok.type ≡ t) where
  tests : (ops : List TokenType) (b : Bool) → any (type_eq t) ops ≡ b → tok_in ops s ≡ b
  tests ops b = subst (λ u. any (type_eq u) ops ≡ b) (sym at)

-- The token of a sum, between two operands.
record AtSum (s : Parser) : Type 0 where
  term : tok_in term_ops s ≡ false
  shift : tok_in shift_ops s ≡ false
  relational : tok_in relational_ops s ≡ false
  equality : tok_in equality_ops s ≡ false
  sum : tok_in add_ops s ≡ true

Sum-AtSum : {o : BinOp} (s : Parser) → Sum o → s.tok.type ≡ op_type o → AtSum s
Sum-AtSum s add at = record {
  term = tests s _ at term_ops false refl;
  shift = tests s _ at shift_ops false refl;
  relational = tests s _ at relational_ops false refl;
  equality = tests s _ at equality_ops false refl;
  sum = tests s _ at add_ops true refl;
}
Sum-AtSum s sub at = record {
  term = tests s _ at term_ops false refl;
  shift = tests s _ at shift_ops false refl;
  relational = tests s _ at relational_ops false refl;
  equality = tests s _ at equality_ops false refl;
  sum = tests s _ at add_ops true refl;
}

-- A comparison whose right operand ends at a sum.
module _ (unary : Parse Expr) (l r : Expr) (p q s : Parser) (sum : AtSum s) (hl : unary p ≡ ok l q)
    (hr : unary (advance q) ≡ ok r s) where
  right : parse_shift unary (advance q) ≡ ok r s
  right = to_shift unary r (advance q) s (to_term unary r (advance q) s hr sum.term) sum.shift

  abbrev joined : Expr
  joined = binary_expr (bin_op_from_token q.tok.type) l r

  abbrev Compared : Type 0
  Compared = level equality_ops (parse_relational unary) p ≡ ok joined s

  by_relational :
      (t : TokenType)
      → q.tok.type ≡ t
      → any (type_eq t) relational_ops ≡ true
      → any (type_eq t) term_ops ≡ false
      → any (type_eq t) shift_ops ≡ false
      → Compared
  unfolding parse_relational
  by_relational t at y n m =
      level_none equality_ops (parse_relational unary) joined p s
        (level_one relational_ops (parse_shift unary) l r p q s (refl, (refl, (refl, (refl, tt))))
          (reach_shift unary l p q t at hl n m) (tests q t at relational_ops true y) right
          sum.relational)
        sum.equality

  by_equality :
      (t : TokenType)
      → q.tok.type ≡ t
      → any (type_eq t) equality_ops ≡ true
      → any (type_eq t) term_ops ≡ false
      → any (type_eq t) shift_ops ≡ false
      → any (type_eq t) relational_ops ≡ false
      → Compared
  by_equality t at y n m k =
      level_one equality_ops (parse_relational unary) l r p q s (refl, (refl, tt))
        (reach_relational unary l p q t at hl n m k) (tests q t at equality_ops true y)
        (to_relational unary r (advance q) s right sum.relational) sum.equality

  compared : {op : BinOp} → Comparison op → q.tok.type ≡ op_type op → Compared
  compared eq at = by_equality _ at refl refl refl refl
  compared ne at = by_equality _ at refl refl refl refl
  compared lt at = by_relational _ at refl refl refl
  compared le at = by_relational _ at refl refl refl
  compared gt at = by_relational _ at refl refl refl
  compared ge at = by_relational _ at refl refl refl

module _ (parse_float : Text → ℕ) where
  module _ (m : ℕ) (cmp sum : BinOp) (c : Comparison cmp) (a : Sum sum) (x y z : Tree)
      (rx : ReadBy parse_float m x) (ry : ReadBy parse_float m y) (rz : ReadBy parse_float m z)
      (t : Token) (k : List Token) (plain : Plain t.type) (stop : Stops t.type) where
    abbrev u : Parse Expr
    u = parse_unary parse_float m

    abbrev after_y : List Token
    after_y = mark (op_type sum) ∷ print z (t ∷ k)

    abbrev op_of : BinOp → BinOp
    op_of o = bin_op_from_token (op_type o)

    sums_last :
        parse_logical_or u (parser_at (print x (mark (op_type cmp) ∷ print y after_y)))
        ≡ ok
            (binary_expr
              (op_of sum)
              (binary_expr (op_of cmp) (tree parse_float x) (tree parse_float y))
              (tree parse_float z))
            (parser_at (t ∷ k))
    unfolding parser_at parse_add
    sums_last =
        let p = parser_at (print x (mark (op_type cmp) ∷ print y after_y)) in
        let q = parser_at (mark (op_type cmp) ∷ print y after_y) in
        let s = parser_at after_y in
        let at_sum = Sum-AtSum s a refl in
        let l =
          compared u (tree parse_float x) (tree parse_float y) p q s at_sum
            (rx (mark (op_type cmp)) (print y after_y) (op-Plain cmp))
            (right_operand parse_float m (mark (op_type cmp)) (mark (op_type sum)) (print z (t ∷ k))
              y ry (op-Plain sum))
            c refl in
        let z_term =
          to_term u (tree parse_float z) (advance s) (parser_at (t ∷ k))
            (right_operand parse_float m (mark (op_type sum)) t k z rz plain) stop.term in
        up_equality u _ p (parser_at (t ∷ k)) stop (
          to_sums u _ p s _ l (
            chain_one add_ops (parse_term u) _ (tree parse_float z) s (parser_at (t ∷ k))
              (refl, (refl, tt)) at_sum.sum z_term stop.add))

  -- A sum after a comparison is taken last: `x == y + z` is read as `(x == y) + z`, and so for each of
  -- the comparisons and of the sums.
  pub sums_taken_last :
      (cmp sum : BinOp) (c : Comparison cmp) (a : Sum sum) (x y z : Tree) (t : Token)
      (k : List Token)
      → any (type_eq t.type) postfixes ≡ false
      → any (type_eq t.type) operators ≡ false
      → parse_expr parse_float (
          parser_at (print x (mark (op_type cmp) ∷ print y (mark (op_type sum) ∷ print z (t ∷ k)))))
        ≡ ok
            (binary_expr sum
              (binary_expr cmp (tree parse_float x) (tree parse_float y))
              (tree parse_float z))
            (parser_at (t ∷ k))
  unfolding parse_expr
  sums_taken_last cmp sum c a x y z t k plain stop =
      let kz = mark (op_type sum) ∷ print z (t ∷ k) in
      let ky = mark (op_type cmp) ∷ print y kz in
      let m = suc (left (parser_at (print x ky))) in
      let fuel = left-print x ky in
      let dx = depth-le x ky in
      let dy = depth-le y kz in
      let dz = depth-le z (t ∷ k) in
      sums_last m cmp sum c a x y z (read parse_float m x (omega (arith, fuel, dx)))
        (read parse_float m y (omega (arith, fuel, dx, dy)))
        (read parse_float m z (omega (arith, fuel, dx, dy, dz))) t k plain
        (operators-Stops t.type stop)
      ∙ rw (bin_op_from_token-op_type cmp, bin_op_from_token-op_type sum) refl

-- A call is no statement: one that starts with a name and `(` is refused at the parenthesis.
pub call_statement_refused :
    (parse_float : Text → ℕ) (f open_lex : Text) (line col line' col' : ℕ) (k : List Token)
    → let open_paren : Token = record {
      type = TokenType.lparen;
      lex = open_lex;
      line = line';
      col = col';
    } in
      parse_stmt parse_float (
        parser_at
          (record { type = TokenType.ident; lex = f; line = line; col = col } ∷ open_paren ∷ k))
      ≡ err (Error.expected TokenType.semi open_paren)
unfolding parse_stmt parser_at
call_statement_refused parse_float f open_lex line col line' col' k = refl
