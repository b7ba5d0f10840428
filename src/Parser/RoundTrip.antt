-- ===== src/Parser/RoundTrip.antt =====
-- internal/parser/parser.go: an expression that was written out is read back.
use ccomp.Parser.Reading.{
  postfixes, Plain, rparen-Stops, indices_none, after_name_plain, after_name_call, expect_mark,
  op-Plain, paren_reads, at_name, at_paren, at_prefix, at_string, at_tok, left-at, at_cast,
  one_field_done,
}
use ccomp.Base.{
  ℕ, zero, suc, ◌<◌, ◌≤◌, ◌≡◌, refl, sym, ap, ◌∙◌, Bool, false, List, [], ◌∷◌, any, length, arith,
}
use ccomp.Base.Text.{Text}
use ccomp.Ast.{
  Expr, Exprs, no_expr, an_expr, append_expr, append_all, append_all-nil, append_all-append,
  BasicType, BinOp, UnOp, string_lit, binary_expr, call_expr, index_expr,
}
use ccomp.Lexer.Token.{Token, TokenType, type_eq}
use ccomp.Parser.{Parse, ok, tok_is, advance, left, repeat, while}
use ccomp.Parser.Expr.{
  parse_logical_or, one_index, indices, one_arg, some_args, parse_call, after_name, parse_unary,
  parse_expr,
}
use ccomp.Parser.Decl.{parser_at}
use ccomp.Parser.Climb.{Stops, operators, operators-Stops, one_round, no_round, up_unary}
use ccomp.Parser.Operators.{op_type, join_op}
use ccomp.Parser.Print.{
  Tree, Trees, name, number, decimal, letter, text, prefix, binary, call, element, field, cast,
  none_left, tree_and, lexed, mark, prefix_type, type_type, cast_end, print, print_args, print_more,
  tree, trees, depth, depths, depth-pos, depth-le, depths_more-le, left-print, left-more,
  advance-print, print-no_type, print-no_rparen, advance-cons,
}

-- What can go on with a name or a pair of parentheses.
module _ (parse_float : Text → ℕ) where
  abbrev pub ReadBy : ℕ → Tree → Type 0
  ReadBy n x =
      (t : Token) (k : List Token)
      → Plain t.type
      → parse_unary parse_float n (parser_at (print x (t ∷ k)))
        ≡ ok (tree parse_float x) (parser_at (t ∷ k))

  -- An operand before a token that stops the expression.
  whole :
      (n : ℕ) (x : Tree) (t : Token) (k : List Token)
      → ReadBy n x
      → Plain t.type
      → Stops t.type
      → parse_logical_or (parse_unary parse_float n) (parser_at (print x (t ∷ k)))
        ≡ ok (tree parse_float x) (parser_at (t ∷ k))
  unfolding parser_at
  whole n x t k r p s =
      up_unary (parse_unary parse_float n) (tree parse_float x) (parser_at (print x (t ∷ k)))
        (parser_at (t ∷ k)) s (r t k p)

  -- The operand after an operator.
  pub right_operand :
      (m : ℕ) (o t : Token) (k : List Token) (y : Tree)
      → ReadBy m y
      → Plain t.type
      → parse_unary parse_float m (advance (parser_at (o ∷ print y (t ∷ k))))
        ≡ ok (tree parse_float y) (parser_at (t ∷ k))
  right_operand m o t k y r p = rw (advance-print (t ∷ k) o y) (r t k p)

  two_operands :
      (m : ℕ) (op : BinOp) (x y : Tree) (t : Token) (k : List Token)
      → ReadBy m x
      → ReadBy m y
      → Plain t.type
      → Stops t.type
      → parse_logical_or
          (parse_unary parse_float m)
          (parser_at (print x (mark (op_type op) ∷ print y (t ∷ k))))
        ≡ ok (binary_expr op (tree parse_float x) (tree parse_float y)) (parser_at (t ∷ k))
  unfolding parser_at
  two_operands m op x y t k r s p stop =
      let o = mark (op_type op) in
      let rest = print y (t ∷ k) in
      join_op (parse_unary parse_float m) (tree parse_float x) (tree parse_float y)
        (parser_at (print x (o ∷ rest))) (parser_at (o ∷ rest)) (parser_at (t ∷ k)) stop
        (r o rest (op-Plain op)) (right_operand m o t k y s p) op refl

  -- The arguments of a call.
  abbrev ReadAll : ℕ → Trees → Type 0
  ReadAll m none_left = Unit {0}
  ReadAll m (tree_and x xs) = ReadBy m x × ReadAll m xs

  whole_arg :
      (m : ℕ) (x : Tree) (xs : Trees) (k : List Token)
      → ReadBy m x
      → parse_logical_or (parse_unary parse_float m) (parser_at (print x (print_more xs k)))
        ≡ ok (tree parse_float x) (parser_at (print_more xs k))
  unfolding print
  whole_arg m x none_left k r = whole m x (mark TokenType.rparen) k r refl rparen-Stops
  whole_arg m x (tree_and y ys) k r =
      whole m x (mark TokenType.comma) (print y (print_more ys k)) r refl
        (operators-Stops TokenType.comma refl)

  one_arg_done :
      (m : ℕ) (acc : Exprs) (x : Tree) (xs : Trees) (k : List Token)
      → ReadBy m x
      → one_arg
          (parse_unary parse_float m)
          acc
          (parser_at (mark TokenType.comma ∷ print x (print_more xs k)))
        ≡ ok (append_expr acc (tree parse_float x)) (parser_at (print_more xs k))
  one_arg_done m acc x xs k r =
      rw (advance-print (print_more xs k) (mark TokenType.comma) x, whole_arg m x xs k r) refl

  args_loop :
      (m : ℕ) (xs : Trees) (n : ℕ) (acc : Exprs) (k : List Token)
      → depths xs < n
      → ReadAll m xs
      → repeat n
          (tok_is TokenType.comma)
          (one_arg (parse_unary parse_float m))
          acc
          (parser_at (print_more xs k))
        ≡ ok (append_all acc (trees parse_float xs)) (parser_at (mark TokenType.rparen ∷ k))
  unfolding print tree depth
  args_loop m xs zero acc k h r = elim h [ ]
  args_loop m none_left (suc n) acc k h r =
      no_round n (tok_is TokenType.comma) (one_arg (parse_unary parse_float m)) acc
        (parser_at (mark TokenType.rparen ∷ k)) (at_tok TokenType.comma (mark TokenType.rparen) k)
      ∙ ap (λ as'. ok as' (parser_at (mark TokenType.rparen ∷ k))) (sym (append_all-nil acc))
  args_loop m (tree_and x xs) (suc n) acc k h r =
      let ts = print x (print_more xs k) in
      one_round n (tok_is TokenType.comma) (one_arg (parse_unary parse_float m)) acc
        (append_expr acc (tree parse_float x)) (parser_at (mark TokenType.comma ∷ ts))
        (parser_at (print_more xs k)) (at_tok TokenType.comma (mark TokenType.comma) ts)
        (one_arg_done m acc x xs k r.0)
      ∙ args_loop m xs n (append_expr acc (tree parse_float x)) k (omega (arith, h)) r.1
      ∙ ap (λ as'. ok as' (parser_at (mark TokenType.rparen ∷ k)))
          (append_all-append acc (tree parse_float x) (trees parse_float xs))

  some_args_done :
      (m : ℕ) (x : Tree) (xs : Trees) (k : List Token)
      → ReadBy m x
      → ReadAll m xs
      → some_args (parse_unary parse_float m) (parser_at (print x (print_more xs k)))
        ≡ ok
            (an_expr (tree parse_float x) (trees parse_float xs))
            (parser_at (mark TokenType.rparen ∷ k))
  unfolding while append_all
  some_args_done m x xs k r rs = rw (whole_arg m x xs k r) (
      args_loop m xs (suc (left (parser_at (print_more xs k))))
        (an_expr (tree parse_float x) no_expr) k
        (omega (arith, left-more xs k, depths_more-le xs k)) rs)

  module _ (m : ℕ) (t : Token) (k : List Token) (p : Plain t.type) where
    abbrev u : Parse Expr
    u = parse_unary parse_float m

    abbrev Done : Tree → Type 0
    Done x =
        parse_unary parse_float (suc m) (parser_at (print x (t ∷ k)))
        ≡ ok (tree parse_float x) (parser_at (t ∷ k))

    indices_done : (e : Expr) → indices u e (parser_at (t ∷ k)) ≡ ok e (parser_at (t ∷ k))
    unfolding parser_at
    indices_done e = indices_none u e (parser_at (t ∷ k)) p

    read_name : (x : Text) → Done (name x)
    unfolding print tree parser_at
    read_name x = at_name parse_float m (t ∷ k) x ∙ after_name_plain u x (parser_at (t ∷ k)) p

    read_text : (x : Text) → Done (text x)
    unfolding print tree
    read_text x =
        at_string parse_float m (t ∷ k) x
        ∙ rw (advance-cons (lexed TokenType.string x) t k) (indices_done (string_lit x))

    read_prefix : (op : UnOp) (x : Tree) → ReadBy m x → Done (prefix op x)
    unfolding print tree
    read_prefix op x r =
        at_prefix parse_float m (print x (t ∷ k)) op
        ∙ rw (advance-print (t ∷ k) (mark (prefix_type op)) x, r t k p) refl

    -- What follows an opening parenthesis: an expression, its end, and indices.
    read_paren :
        (x : Tree) (k' : List Token) (e : Expr)
        → parse_logical_or u (parser_at (print x k'))
          ≡ ok e (parser_at (mark TokenType.rparen ∷ t ∷ k))
        → parse_unary parse_float (suc m) (parser_at (mark TokenType.lparen ∷ print x k'))
          ≡ ok e (parser_at (t ∷ k))
    read_paren x k' e h =
        at_paren parse_float m (print x k')
        ∙ rw (advance-print k' (mark TokenType.lparen) x)
            (paren_reads u e (parser_at (print x k')) t k h (print-no_type k' x) ∙ indices_done e)

    read_binary : (op : BinOp) (x y : Tree) → ReadBy m x → ReadBy m y → Done (binary op x y)
    unfolding print tree
    read_binary op x y r s =
        let k' = mark TokenType.rparen ∷ t ∷ k in
        read_paren x (mark (op_type op) ∷ print y k')
          (binary_expr op (tree parse_float x) (tree parse_float y))
          (two_operands m op x y (mark TokenType.rparen) (t ∷ k) r s refl rparen-Stops)

    read_cast : (ty : BasicType) (ptr : Bool) (x : Tree) → ReadBy m x → Done (cast ty ptr x)
    unfolding print tree
    read_cast ty ptr x r =
        at_paren parse_float m (mark (type_type ty) ∷ cast_end ptr (print x (t ∷ k)))
        ∙ at_cast parse_float m (print x (t ∷ k)) ty ptr
        ∙ rw (advance-print (t ∷ k) (mark TokenType.rparen) x, r t k p) refl

    read_field : (x f : Text) → Done (field x f)
    unfolding print tree
    read_field x f =
        let us = lexed TokenType.ident f ∷ t ∷ k in
        at_name parse_float m (mark TokenType.dot ∷ us) x
        ∙ ap (after_name u x) (advance-cons (lexed TokenType.ident x) (mark TokenType.dot) us)
        ∙ one_field_done u x f t k p

    one_index_done :
        (e : Expr) (y : Tree)
        → ReadBy m y
        → one_index u e
            (parser_at (mark TokenType.lbrack ∷ print y (mark TokenType.rbrack ∷ t ∷ k)))
          ≡ ok (index_expr e (tree parse_float y)) (parser_at (t ∷ k))
    one_index_done e y s =
        let k' = mark TokenType.rbrack ∷ t ∷ k in
        rw
          (
            advance-print k' (mark TokenType.lbrack) y,
            whole m y (mark TokenType.rbrack) (t ∷ k) s refl
                (operators-Stops TokenType.rbrack refl),
            expect_mark TokenType.rbrack [] t k,
          )
          refl

    indices_one :
        (e : Expr) (y : Tree)
        → ReadBy m y
        → indices u e (parser_at (mark TokenType.lbrack ∷ print y (mark TokenType.rbrack ∷ t ∷ k)))
          ≡ ok (index_expr e (tree parse_float y)) (parser_at (t ∷ k))
    unfolding indices while
    indices_one e y s =
        let us = print y (mark TokenType.rbrack ∷ t ∷ k) in
        let e' = index_expr e (tree parse_float y) in
        let test = tok_is TokenType.lbrack in
        let q = parser_at (t ∷ k) in
        ap (λ n. repeat n test (one_index u) e (parser_at (mark TokenType.lbrack ∷ us)))
          (ap suc (left-at (mark TokenType.lbrack) us refl))
        ∙ one_round (suc (length us)) test (one_index u) e e'
            (parser_at (mark TokenType.lbrack ∷ us)) q
            (at_tok TokenType.lbrack (mark TokenType.lbrack) us) (one_index_done e y s)
        ∙ no_round (length us) test (one_index u) e' q
            (ground (arith, p, at_tok TokenType.lbrack t k))

    read_element : (x y : Tree) → ReadBy m x → ReadBy m y → Done (element x y)
    unfolding print tree
    read_element x y r s =
        let k' = mark TokenType.lbrack ∷ print y (mark TokenType.rbrack ∷ t ∷ k) in
        at_paren parse_float m (print x (mark TokenType.rparen ∷ k'))
        ∙ rw (advance-print (mark TokenType.rparen ∷ k') (mark TokenType.lparen) x) (
            paren_reads u (tree parse_float x) (parser_at (print x (mark TokenType.rparen ∷ k')))
              (mark TokenType.lbrack) (print y (mark TokenType.rbrack ∷ t ∷ k))
              (whole m x (mark TokenType.rparen) k' r refl rparen-Stops)
              (print-no_type (mark TokenType.rparen ∷ k') x)
            ∙ indices_one (tree parse_float x) y s)

    call_done :
        (f : Text) (xs : Trees)
        → ReadAll m xs
        → parse_call u f (parser_at (mark TokenType.lparen ∷ print_args xs (t ∷ k)))
          ≡ ok (call_expr f (trees parse_float xs)) (parser_at (t ∷ k))
    unfolding parse_call print tree
    call_done f none_left r =
        rw
          (
            advance-cons (mark TokenType.lparen) (mark TokenType.rparen) (t ∷ k),
            at_tok TokenType.rparen (mark TokenType.rparen) (t ∷ k),
            expect_mark TokenType.rparen [] t k,
          )
          refl
    call_done f (tree_and x xs) r =
        let more = print_more xs (t ∷ k) in
        rw
          (
            advance-print more (mark TokenType.lparen) x,
            print-no_rparen more x,
            some_args_done m x xs (t ∷ k) r.0 r.1,
            expect_mark TokenType.rparen [] t k,
          )
          refl

    read_call : (f : Text) (xs : Trees) → ReadAll m xs → Done (call f xs)
    unfolding print tree
    read_call f xs r =
        let us = print_args xs (t ∷ k) in
        at_name parse_float m (mark TokenType.lparen ∷ us) f
        ∙ rw (advance-cons (lexed TokenType.ident f) (mark TokenType.lparen) us) (
            after_name_call u f (parser_at (mark TokenType.lparen ∷ us))
              (at_tok TokenType.lparen (mark TokenType.lparen) us)
            ∙ call_done f xs r)

    read_literal : (x : Text) → Done (number x) × Done (decimal x) × Done (letter x)
    unfolding print tree parse_unary parser_at
    read_literal x = (refl, refl, refl)

  mutual
    unfolding depth

    pub read : (m : ℕ) (x : Tree) → depth x ≤ m → ReadBy m x
    read zero x h t k p = absurd (depth-pos x h)
    read (suc m) (name x) h t k p = read_name m t k p x
    read (suc m) (number x) h t k p = (read_literal m t k p x).0
    read (suc m) (decimal x) h t k p = (read_literal m t k p x).1
    read (suc m) (letter x) h t k p = (read_literal m t k p x).2
    read (suc m) (text x) h t k p = read_text m t k p x
    read (suc m) (prefix op x) h t k p = read_prefix m t k p op x (read m x (omega (arith, h)))
    read (suc m) (binary op x y) h t k p =
        read_binary m t k p op x y (read m x (omega (arith, h))) (read m y (omega (arith, h)))
    read (suc m) (call f xs) h t k p = read_call m t k p f xs (read_all m xs (omega (arith, h)))
    read (suc m) (element x y) h t k p =
        read_element m t k p x y (read m x (omega (arith, h))) (read m y (omega (arith, h)))
    read (suc m) (field x f) h t k p = read_field m t k p x f
    read (suc m) (cast ty ptr x) h t k p = read_cast m t k p ty ptr x (read m x (omega (arith, h)))

    read_all : (m : ℕ) (xs : Trees) → depths xs ≤ m → ReadAll m xs
    read_all m none_left h = tt
    read_all m (tree_and x xs) h = (read m x (omega (arith, h)), read_all m xs (omega (arith, h)))

  -- An expression that is written out and followed by a token that neither goes on with a name or a
  -- parenthesis nor is an operator is read back, and the parser is at that token.
  pub parse_expr-print :
      (x : Tree) (t : Token) (k : List Token)
      → any (type_eq t.type) postfixes ≡ false
      → any (type_eq t.type) operators ≡ false
      → parse_expr parse_float (parser_at (print x (t ∷ k)))
        ≡ ok (tree parse_float x) (parser_at (t ∷ k))
  unfolding parse_expr
  parse_expr-print x t k p s =
      whole (suc (left (parser_at (print x (t ∷ k))))) x t k
        (read (suc (left (parser_at (print x (t ∷ k))))) x
          (omega (arith, depth-le x (t ∷ k), left-print x (t ∷ k))))
        p (operators-Stops t.type s)
