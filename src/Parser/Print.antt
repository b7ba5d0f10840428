-- ===== src/Parser/Print.antt =====
-- internal/parser/parser.go: expressions as tokens, the independent description of what the parser
-- of expressions reads.
use ccomp.Base.{ℕ, suc, ◌+◌, ◌≤◌, ◌≡◌, refl, Bool, true, false, List, [], ◌∷◌, length, arith}
use ccomp.Base.Text.{Text}
use ccomp.Ast.{
  Expr, Exprs, no_expr, an_expr, BasicType, bt_int, bt_char, bt_double, BinOp, UnOp, ident, int_lit,
  float_lit, string_lit, binary_expr, call_expr, unary_expr, index_expr, cast_expr, field_expr,
}
use ccomp.Lexer.Token.{Token, TokenType}
use ccomp.Parser.{tok_in, tok_is, advance, left}
use ccomp.Parser.Number.{parse_int}
use ccomp.Parser.Expr.{type_names, first_rune}
use ccomp.Parser.Decl.{parser_at}
use ccomp.Parser.Operators.{op_type}

-- An expression as it is written: literals by their spelling, and a pair of parentheses round each
-- binary operation and each base of an index.
mutual
  pub data Tree : Type 0 where
    name number decimal letter text : Text → Tree
    prefix : UnOp → Tree → Tree
    binary : BinOp → Tree → Tree → Tree
    call : Text → Trees → Tree
    element : Tree → Tree → Tree
    field : Text → Text → Tree
    cast : BasicType → Bool → Tree → Tree

  pub data Trees : Type 0 where
    none_left : Trees
    tree_and : Tree → Trees → Trees

abbrev pub lexed : TokenType → Text → Token
lexed t lex = record { type = t; lex = lex; line = 0; col = 0 }

abbrev pub mark : TokenType → Token
mark t = lexed t []

abbrev pub prefix_type : UnOp → TokenType
prefix_type UnOp.addr = TokenType.amp
prefix_type UnOp.deref = TokenType.star
prefix_type UnOp.neg = TokenType.minus
prefix_type UnOp.bit_not = TokenType.tilde
prefix_type UnOp.logical_not = TokenType.bang

abbrev pub type_type : BasicType → TokenType
type_type bt_int = TokenType.kw_int
type_type bt_char = TokenType.kw_char
type_type bt_double = TokenType.kw_double

-- `rparen` of a cast, after a star if it is to a pointer.
abbrev pub cast_end : Bool → List Token → List Token
cast_end true k = mark TokenType.star ∷ mark TokenType.rparen ∷ k
cast_end false k = mark TokenType.rparen ∷ k

-- The tokens of an expression, before `k`.
unfoldable mutual
  pub print : Tree → List Token → List Token
  print (name x) k = lexed TokenType.ident x ∷ k
  print (number x) k = lexed TokenType.int x ∷ k
  print (decimal x) k = lexed TokenType.float x ∷ k
  print (letter x) k = lexed TokenType.char x ∷ k
  print (text x) k = lexed TokenType.string x ∷ k
  print (prefix op x) k = mark (prefix_type op) ∷ print x k
  print (binary op x y) k =
      mark TokenType.lparen ∷ print x (mark (op_type op) ∷ print y (mark TokenType.rparen ∷ k))
  print (call f xs) k = lexed TokenType.ident f ∷ mark TokenType.lparen ∷ print_args xs k
  print (element x y) k =
      mark TokenType.lparen
      ∷ print x
          (mark TokenType.rparen ∷ mark TokenType.lbrack ∷ print y (mark TokenType.rbrack ∷ k))
  print (field x f) k = lexed TokenType.ident x ∷ mark TokenType.dot ∷ lexed TokenType.ident f ∷ k
  print (cast t ptr x) k = mark TokenType.lparen ∷ mark (type_type t) ∷ cast_end ptr (print x k)

  pub print_args : Trees → List Token → List Token
  print_args none_left k = mark TokenType.rparen ∷ k
  print_args (tree_and x xs) k = print x (print_more xs k)

  pub print_more : Trees → List Token → List Token
  print_more none_left k = mark TokenType.rparen ∷ k
  print_more (tree_and x xs) k = mark TokenType.comma ∷ print x (print_more xs k)

module _ (parse_float : Text → ℕ) where
  -- What an expression is in the syntax tree.
  unfoldable mutual
    pub tree : Tree → Expr
    tree (name x) = ident x
    tree (number x) = int_lit (parse_int x).0
    tree (decimal x) = float_lit (parse_float x)
    tree (letter x) = int_lit (first_rune x)
    tree (text x) = string_lit x
    tree (prefix op x) = unary_expr op (tree x)
    tree (binary op x y) = binary_expr op (tree x) (tree y)
    tree (call f xs) = call_expr f (trees xs)
    tree (element x y) = index_expr (tree x) (tree y)
    tree (field x f) = field_expr (ident x) f
    tree (cast t ptr x) = cast_expr t ptr (tree x)

    pub trees : Trees → Exprs
    trees none_left = no_expr
    trees (tree_and x xs) = an_expr (tree x) (trees xs)

-- How deep the calls of the parser go, at most.
unfoldable mutual
  pub depth : Tree → ℕ
  depth (prefix op x) = suc (depth x)
  depth (binary op x y) = suc (depth x + depth y)
  depth (call f xs) = suc (depths xs)
  depth (element x y) = suc (depth x + depth y)
  depth (cast t ptr x) = suc (depth x)
  depth _ = 1

  pub depths : Trees → ℕ
  depths none_left = 0
  depths (tree_and x xs) = suc (depth x + depths xs)

mutual
  unfolding print depth

  pub depth-le : (x : Tree) (k : List Token) → depth x + length k ≤ length (print x k)
  depth-le (name x) k = omega arith
  depth-le (number x) k = omega arith
  depth-le (decimal x) k = omega arith
  depth-le (letter x) k = omega arith
  depth-le (text x) k = omega arith
  depth-le (prefix op x) k = omega (arith, depth-le x k)
  depth-le (binary op x y) k =
      let k' = mark TokenType.rparen ∷ k in
      omega (arith, depth-le y k', depth-le x (mark (op_type op) ∷ print y k'))
  depth-le (call f xs) k = omega (arith, depths-le xs k)
  depth-le (element x y) k =
      let k' = mark TokenType.rbrack ∷ k in
      omega (
        arith,
        depth-le y k',
        depth-le x (mark TokenType.rparen ∷ mark TokenType.lbrack ∷ print y k'),
      )
  depth-le (field x f) k = omega arith
  depth-le (cast t true x) k = omega (arith, depth-le x k)
  depth-le (cast t false x) k = omega (arith, depth-le x k)

  pub depths-le : (xs : Trees) (k : List Token) → depths xs + length k ≤ length (print_args xs k)
  depths-le none_left k = omega arith
  depths-le (tree_and x xs) k = omega (arith, depth-le x (print_more xs k), depths_more-le xs k)

  pub depths_more-le :
      (xs : Trees) (k : List Token) → suc (depths xs + length k) ≤ length (print_more xs k)
  depths_more-le none_left k = omega arith
  depths_more-le (tree_and x xs) k =
      omega (arith, depth-le x (print_more xs k), depths_more-le xs k)

-- What an expression starts with.
module _ (k : List Token) where
  pub advance-print :
      (u : Token) (x : Tree) → advance (parser_at (u ∷ print x k)) ≡ parser_at (print x k)
  unfolding print parser_at
  advance-print u (name x) = refl
  advance-print u _ = refl

  pub print-no_type : (x : Tree) → tok_in type_names (parser_at (print x k)) ≡ false
  unfolding print parser_at
  print-no_type (name x) = refl
  print-no_type (prefix UnOp.addr x) = refl
  print-no_type (prefix _ x) = refl
  print-no_type _ = refl

  pub print-no_rparen : (x : Tree) → tok_is TokenType.rparen (parser_at (print x k)) ≡ false
  unfolding print parser_at
  print-no_rparen (name x) = refl
  print-no_rparen (prefix UnOp.addr x) = refl
  print-no_rparen (prefix _ x) = refl
  print-no_rparen _ = refl

pub advance-cons :
    (u t : Token) (k : List Token) → advance (parser_at (u ∷ t ∷ k)) ≡ parser_at (t ∷ k)
unfolding parser_at
advance-cons u t k = refl

pub depth-pos : (x : Tree) → depth x ≤ 0 → ⊥
unfolding depth
depth-pos (name x) h = omega (arith, h)
depth-pos _ h = omega (arith, h)

-- The end is not an expression, nor in its arguments.
pub left-print : (x : Tree) (k : List Token) → left (parser_at (print x k)) ≡ length (print x k)
unfolding left print parser_at
left-print (name x) k = refl
left-print (prefix UnOp.addr x) k = refl
left-print (prefix _ x) k = refl
left-print _ k = refl

pub left-more :
    (xs : Trees) (k : List Token) → left (parser_at (print_more xs k)) ≡ length (print_more xs k)
unfolding left print parser_at
left-more none_left k = refl
left-more (tree_and x xs) k = refl
