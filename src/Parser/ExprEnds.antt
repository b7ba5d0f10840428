-- ===== src/Parser/ExprEnds.antt =====
-- internal/parser/parser.go: a parser of expressions takes a token or fails.
use ccomp.Base.{ℕ, zero, suc, ◌<◌, ◌≡◌, refl, false, List, [], ◌∷◌, All, arith}
use ccomp.Base.Text.{Text}
use ccomp.Ast.{Expr, no_expr, ident, string_lit, UnOp}
use ccomp.Lexer.Token.{TokenType, type_eq}
use ccomp.Parser.{Parser, Parse, tok_in, tok_is, advance, left}
use ccomp.Parser.Within.{
  Within, done, failed, Eats, Keeps, Takes, Within-mono, Within-bind, Eats-then, keeps_then,
  eats_keeps, pure-Keeps, in-ne-eof, type_eq-eof, is-ne-eof, advance-left, next_then, take_then,
  Within-tok, Within-is, expect-Eats, while-Keeps, stars-Keeps, opt_until-Keeps,
}
use ccomp.Parser.Expr.{
  one_more, chain, level, parse_term, parse_add, parse_shift, parse_relational, parse_equality,
  parse_bitwise_and, parse_bitwise_xor, parse_bitwise_or, parse_logical_and, parse_logical_or,
  one_index, indices, one_field, fields, one_arg, some_args, parse_call, after_name, parse_cast,
  parse_paren, factor_by, parse_factor, prefixed, unary_by, parse_unary, with_unary, parse_expr,
  type_names, term_ops, add_ops, shift_ops, relational_ops, equality_ops,
}

abbrev pub NoEof : List TokenType → Type 0
NoEof ts = All (λ s. type_eq s TokenType.eof ≡ false) ts

module _ (k : ℕ) (ops : List TokenType) (n : NoEof ops) (operand : Parse Expr)
    (h : Eats k operand) where
  pub chain-Keeps : (e : Expr) → Keeps k (chain ops operand e)
  unfolding chain
  chain-Keeps = while-Keeps (tok_in ops) (one_more operand) λ e p l t.
      let a = advance-left p (in-ne-eof ops p.tok.type n t) in
      Within-bind (h (advance p) (omega (arith, a, l))) λ r q m. done (omega (arith, m, a))

  pub level-Eats : Eats k (level ops operand)
  unfolding level
  level-Eats = Eats-then h chain-Keeps

module _ (k : ℕ) (unary : Parse Expr) (h : Eats k unary) where
  pub parse_term-Eats : Eats k (parse_term unary)
  unfolding parse_term
  parse_term-Eats = level-Eats k term_ops (refl, (refl, tt)) unary h

  pub parse_add-Keeps : (e : Expr) → Keeps k (parse_add unary e)
  unfolding parse_add
  parse_add-Keeps = chain-Keeps k add_ops (refl, (refl, tt)) _ parse_term-Eats

  pub parse_relational-Eats : Eats k (parse_relational unary)
  unfolding parse_relational parse_shift
  parse_relational-Eats =
      level-Eats k relational_ops (refl, (refl, (refl, (refl, tt)))) _
        (level-Eats k shift_ops (refl, (refl, tt)) _ parse_term-Eats)

  pub parse_equality-Eats : Eats k (parse_equality unary)
  unfolding parse_equality
  parse_equality-Eats =
      Eats-then (level-Eats k equality_ops (refl, (refl, tt)) _ parse_relational-Eats)
        parse_add-Keeps

  pub parse_logical_and-Eats : Eats k (parse_logical_and unary)
  unfolding parse_logical_and parse_bitwise_or parse_bitwise_xor parse_bitwise_and
  parse_logical_and-Eats =
      level-Eats k (TokenType.andand ∷ []) (refl, tt) _
        (level-Eats k (TokenType.pipe ∷ []) (refl, tt) _
          (level-Eats k (TokenType.caret ∷ []) (refl, tt) _
            (level-Eats k (TokenType.amp ∷ []) (refl, tt) _ parse_equality-Eats)))

  pub parse_logical_or-Eats : Eats k (parse_logical_or unary)
  unfolding parse_logical_or
  parse_logical_or-Eats = level-Eats k (TokenType.oror ∷ []) (refl, tt) _ parse_logical_and-Eats

  indices-Keeps : (e : Expr) → Keeps k (indices unary e)
  unfolding indices
  indices-Keeps = while-Keeps (tok_is TokenType.lbrack) (one_index unary) λ e p l t.
      next_then {k = k}
        (eats_keeps (
          Eats-then parse_logical_or-Eats
            λ i. keeps_then (eats_keeps (expect-Eats TokenType.rbrack refl)) λ _. pure-Keeps _))
        p (omega arith) (type_eq-eof p.tok.type TokenType.lbrack t refl)

  fields-Keeps : (e : Expr) → Keeps k (fields unary e)
  unfolding fields
  fields-Keeps = while-Keeps (tok_is TokenType.dot) (one_field unary) λ e p l t.
      next_then {k = k}
        (keeps_then (eats_keeps (expect-Eats TokenType.ident refl)) λ _. pure-Keeps _) p
        (omega arith) (type_eq-eof p.tok.type TokenType.dot t refl)

  some_args-Keeps : Keeps k (some_args unary)
  some_args-Keeps = keeps_then (eats_keeps parse_logical_or-Eats) λ e.
      while-Keeps (tok_is TokenType.comma) (one_arg unary)
        (λ as' p l t.
          next_then {k = k} (keeps_then (eats_keeps parse_logical_or-Eats) λ _. pure-Keeps _) p
            (omega arith) (type_eq-eof p.tok.type TokenType.comma t refl))
        _

  parse_call-Takes : (f : Text) → Takes (suc k) (parse_call unary f)
  unfolding parse_call
  parse_call-Takes f = next_then (
      keeps_then (opt_until-Keeps TokenType.rparen no_expr (some_args unary) some_args-Keeps)
        λ as'. keeps_then (eats_keeps (expect-Eats TokenType.rparen refl)) λ _. pure-Keeps _)

  after_name-Keeps : (f : Text) → Keeps k (after_name unary f)
  after_name-Keeps f p l =
      Within-is TokenType.lparen p refl
        (λ t. Within-mono (omega arith) (parse_call-Takes f p (omega (arith, l)) t))
        (keeps_then (indices-Keeps (ident f)) fields-Keeps p l)

  parse_cast-Takes : Takes (suc k) (parse_cast unary)
  unfolding parse_cast
  parse_cast-Takes = take_then λ t. keeps_then stars-Keeps λ s.
      keeps_then (eats_keeps (expect-Eats TokenType.rparen refl))
        λ _. keeps_then (eats_keeps h) λ _. pure-Keeps _

  parse_paren-Keeps : Keeps k (parse_paren unary)
  unfolding parse_paren
  parse_paren-Keeps p l =
      Within-tok type_names p (refl, (refl, (refl, tt)))
        (λ t. Within-mono (omega arith) (parse_cast-Takes p (omega (arith, l)) t))
        (keeps_then (eats_keeps parse_logical_or-Eats)
          (λ e. keeps_then (eats_keeps (expect-Eats TokenType.rparen refl)) λ _. indices-Keeps e) p
          l)

  module _ (parse_float : Text → ℕ) where
    factor_by-Within :
        (t : TokenType) (p : Parser)
        → left p < suc k
        → p.tok.type ≡ t
        → Within (left p) (factor_by unary parse_float t p)
    unfolding factor_by
    factor_by-Within TokenType.ident p l e =
        take_then (λ t. after_name-Keeps t.lex) p l (is-ne-eof p e refl)
    factor_by-Within TokenType.int p l e = done (advance-left p (is-ne-eof p e refl))
    factor_by-Within TokenType.float p l e = done (advance-left p (is-ne-eof p e refl))
    factor_by-Within TokenType.char p l e = done (advance-left p (is-ne-eof p e refl))
    factor_by-Within TokenType.string p l e =
        take_then (λ t. indices-Keeps (string_lit t.lex)) p l (is-ne-eof p e refl)
    factor_by-Within TokenType.lparen p l e = next_then parse_paren-Keeps p l (is-ne-eof p e refl)
    factor_by-Within _ p l e = failed

    pub parse_factor-Eats : Eats (suc k) (parse_factor unary parse_float)
    unfolding parse_factor
    parse_factor-Eats p l = factor_by-Within p.tok.type p l refl

    prefixed-Takes : (op : UnOp) → Takes (suc k) (prefixed unary parse_float op)
    prefixed-Takes op = next_then (keeps_then (eats_keeps h) λ _. pure-Keeps _)

    pub unary_by-Within :
        (t : TokenType) (p : Parser)
        → left p < suc k
        → p.tok.type ≡ t
        → Within (left p) (unary_by unary parse_float t p)
    unfolding unary_by
    unary_by-Within TokenType.amp p l e = prefixed-Takes UnOp.addr p l (is-ne-eof p e refl)
    unary_by-Within TokenType.star p l e = prefixed-Takes UnOp.deref p l (is-ne-eof p e refl)
    unary_by-Within TokenType.minus p l e = prefixed-Takes UnOp.neg p l (is-ne-eof p e refl)
    unary_by-Within TokenType.tilde p l e = prefixed-Takes UnOp.bit_not p l (is-ne-eof p e refl)
    unary_by-Within TokenType.bang p l e = prefixed-Takes UnOp.logical_not p l (is-ne-eof p e refl)
    unary_by-Within _ p l e = parse_factor-Eats p l

module _ (parse_float : Text → ℕ) where
  -- Fuel for the tokens that are left is enough.
  pub parse_unary-Eats : (n : ℕ) → Eats n (parse_unary parse_float n)
  unfolding parse_unary
  parse_unary-Eats zero p l = elim l [ ]
  parse_unary-Eats (suc n) p l =
      unary_by-Within n (parse_unary parse_float n) (parse_unary-Eats n) parse_float p.tok.type p l
        refl

  -- A level of the grammar that eats over each unary parser that does.
  pub with_unary-Eats {ℓ} :
      {A : Type ℓ} {k : ℕ} (f : Parse Expr → Parse A)
      → ((n : ℕ) (u : Parse Expr) → Eats n u → Eats n (f u))
      → Eats k (with_unary parse_float f)
  with_unary-Eats f g p l =
      g (suc (left p)) (parse_unary parse_float (suc (left p))) (parse_unary-Eats (suc (left p))) p
        (omega arith)

  pub parse_expr-Eats : {k : ℕ} → Eats k (parse_expr parse_float)
  unfolding parse_expr
  parse_expr-Eats = with_unary-Eats parse_logical_or parse_logical_or-Eats

  pub factor-Eats : {k : ℕ} → Eats k (with_unary parse_float (λ u. parse_factor u parse_float))
  factor-Eats =
      with_unary-Eats (λ u. parse_factor u parse_float)
        (λ n u h p l. parse_factor-Eats n u h parse_float p (omega (arith, l)))
