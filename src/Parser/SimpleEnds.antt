-- ===== src/Parser/SimpleEnds.antt =====
-- internal/parser/parser.go: a parser of a statement that holds no statement takes a
-- token or fails.
use ccomp.Base.{ℕ, suc, ◌≡◌, refl, Bool, false, List, [], ◌∷◌, some, arith}
use ccomp.Base.Text.{Text}
use ccomp.Ast.{Expr, ident, decl_stmt, bt_int, no_pos, assign_stmt, expr_stmt}
use ccomp.Lexer.Token.{Token, TokenType, type_eq}
use ccomp.Parser.{Parser, ◌>>◌, pure, tok_in, advance, expect, left}
use ccomp.Parser.Within.{
  Within, done, Eats, Keeps, Takes, Within-mono, Within-bind, Eats-then, keeps_then, eats_keeps,
  pure-Keeps, in-ne-eof, is-ne-eof, advance-left, run-Takes, run_then-Keeps, run-Eats, next_then,
  take_then, Within-tok, Within-is, expect-Eats, while-Keeps, stars-Keeps,
}
use ccomp.Parser.Expr.{
  parse_term, parse_relational, parse_equality, parse_logical_and, with_unary, parse_unary,
  term_ops, add_ops, shift_ops, relational_ops, equality_ops,
}
use ccomp.Parser.ExprEnds.{
  NoEof, chain-Keeps, parse_term-Eats, parse_add-Keeps, parse_relational-Eats, parse_equality-Eats,
  parse_logical_and-Eats, parse_unary-Eats, with_unary-Eats, parse_expr-Eats, factor-Eats,
}
use ccomp.Parser.Simple.{
  expr, factor, term, equality, one_add, add_chain, parse_after_primary, opt_init, parse_for_init,
  parse_return, parse_struct_var, array_size, parse_declaration, parse_field_assign,
  parse_array_assign, after_id, typedef_var, parse_name,
}

pub expect-Keeps : {k : ℕ} (t : TokenType) → type_eq t TokenType.eof ≡ false → Keeps k (expect t)
expect-Keeps t n = eats_keeps (expect-Eats t n)

-- The last token of a statement, and its result.
pub last {ℓ} :
    {A : Type ℓ} {k : ℕ} (t : TokenType)
    → type_eq t TokenType.eof ≡ false
    → (a : A) → Keeps k (expect t >> pure a)
last t n a = keeps_then (expect-Keeps t n) λ _. pure-Keeps a

pub array_size-Takes : {k : ℕ} → Takes (suc k) array_size
unfolding array_size
array_size-Takes = next_then (
    keeps_then (expect-Keeps TokenType.int refl)
      λ t. keeps_then (expect-Keeps TokenType.rbrack refl) λ _. last TokenType.semi refl _)

pub parse_struct_var-Takes : {k : ℕ} → Takes (suc k) parse_struct_var
unfolding parse_struct_var
parse_struct_var-Takes = next_then (
    keeps_then (expect-Keeps TokenType.ident refl)
      λ s. keeps_then (expect-Keeps TokenType.ident refl) λ v. last TokenType.semi refl _)

module _ (parse_float : Text → ℕ) where
  pub expr-Keeps : {k : ℕ} → Keeps k (expr parse_float)
  expr-Keeps = eats_keeps (parse_expr-Eats parse_float)

  one_add-Takes : {k : ℕ} (e : Expr) → Takes (suc k) (one_add parse_float e)
  one_add-Takes e p l t =
      let a = advance-left p t in
      Within-bind
        (parse_add-Keeps (suc (left (advance p))) (parse_unary parse_float (suc (left (advance p))))
          (parse_unary-Eats parse_float (suc (left (advance p)))) e (advance p) (omega arith))
        λ r q m. done (omega (arith, m, a))

  add_chain-Keeps :
      {k : ℕ} (ops : List TokenType)
      → NoEof ops
      → (e : Expr) → Keeps k (add_chain parse_float ops e)
  unfolding add_chain
  add_chain-Keeps ops n =
      while-Keeps (tok_in ops) (one_add parse_float)
        λ e p l t. run-Takes p (one_add-Takes e) (in-ne-eof ops p.tok.type n t)

  parse_after_primary-Keeps : {k : ℕ} (e : Expr) → Keeps k (parse_after_primary parse_float e)
  unfolding parse_after_primary
  parse_after_primary-Keeps {k} e =
      keeps_then
        (chain-Keeps k term_ops (refl, (refl, tt)) (factor parse_float) (factor-Eats parse_float) e)
        λ e.
          keeps_then (chain-Keeps k add_ops (refl, (refl, tt)) (term parse_float) term-Eats e) λ e.
            keeps_then (chain-Keeps k shift_ops (refl, (refl, tt)) (term parse_float) term-Eats e)
              λ e.
                keeps_then (add_chain-Keeps relational_ops (refl, (refl, (refl, (refl, tt)))) e)
                  λ e.
                    keeps_then
                      (chain-Keeps k equality_ops (refl, (refl, tt))
                        (with_unary parse_float parse_relational)
                        (with_unary-Eats parse_float parse_relational parse_relational-Eats) e)
                      λ e.
                        keeps_then
                          (chain-Keeps k (TokenType.amp ∷ []) (refl, tt) (equality parse_float)
                            equality-Eats e)
                          λ e.
                            keeps_then
                              (chain-Keeps k (TokenType.caret ∷ []) (refl, tt)
                                (equality parse_float) equality-Eats e)
                              λ e.
                                keeps_then
                                  (chain-Keeps k (TokenType.pipe ∷ []) (refl, tt)
                                    (equality parse_float) equality-Eats e)
                                  λ e.
                                    keeps_then (add_chain-Keeps (TokenType.amp ∷ []) (refl, tt) e)
                                      λ e.
                                        keeps_then
                                          (add_chain-Keeps (TokenType.caret ∷ []) (refl, tt) e)
                                          λ e.
                                            keeps_then
                                              (add_chain-Keeps (TokenType.pipe ∷ []) (refl, tt) e)
                                              λ e.
                                                keeps_then
                                                  (chain-Keeps k (TokenType.andand ∷ []) (refl, tt)
                                                    (equality parse_float) equality-Eats e)
                                                  λ e.
                                                    chain-Keeps k (TokenType.oror ∷ []) (refl, tt)
                                                      (with_unary parse_float parse_logical_and)
                                                      (with_unary-Eats parse_float parse_logical_and
                                                        parse_logical_and-Eats)
                                                      e
    where
      term-Eats : Eats k (term parse_float)
      term-Eats = with_unary-Eats parse_float parse_term parse_term-Eats

      equality-Eats : Eats k (equality parse_float)
      equality-Eats = with_unary-Eats parse_float parse_equality parse_equality-Eats

  opt_init-Keeps : {k : ℕ} → Keeps k (opt_init parse_float)
  unfolding opt_init
  opt_init-Keeps p l =
      Within-is TokenType.assign p refl
        (λ t. run_then-Keeps p (next_then (keeps_then expr-Keeps λ e. pure-Keeps (some e))) t)
        (done {p = p} (omega arith))

  -- An assignment after its name and `=`.
  pub parse_for_init-Within :
      (t : TokenType) (p : Parser)
      → p.tok.type ≡ t
      → Within (left p) (parse_for_init parse_float t p)
  unfolding parse_for_init
  parse_for_init-Within TokenType.kw_int p e =
      run-Takes p
        (next_then (
          keeps_then (expect-Keeps TokenType.ident refl) λ n.
            keeps_then opt_init-Keeps λ i. pure-Keeps (decl_stmt n.lex i bt_int false no_pos [])))
        (is-ne-eof p e refl)
  parse_for_init-Within TokenType.ident p e =
      run-Takes p
        (take_then (λ id q l.
          Within-is TokenType.assign q refl
            (λ t.
              run_then-Keeps q
                (next_then (keeps_then expr-Keeps λ e. pure-Keeps (assign_stmt id.lex e no_pos))) t)
            (keeps_then (parse_after_primary-Keeps (ident id.lex)) (λ e. pure-Keeps (expr_stmt e)) q
              l)))
        (is-ne-eof p e refl)
  parse_for_init-Within _ p e =
      run-Eats p (Eats-then (parse_expr-Eats parse_float) (λ e. pure-Keeps (expr_stmt e)))

  pub parse_return-Takes : {k : ℕ} → Takes (suc k) (parse_return parse_float)
  unfolding parse_return
  parse_return-Takes = take_then λ t. keeps_then expr-Keeps λ e. last TokenType.semi refl _

  pub parse_declaration-Takes : {k : ℕ} → Takes (suc k) (parse_declaration parse_float)
  unfolding parse_declaration
  parse_declaration-Takes = take_then λ t. keeps_then stars-Keeps λ s.
      keeps_then (expect-Keeps TokenType.ident refl) λ n p l.
        Within-is TokenType.lbrack p refl
          (λ t.
            Within-mono (omega arith)
              (Within-bind (run-Takes p array_size-Takes t) λ v q m. done {p = q} m))
          (keeps_then opt_init-Keeps (λ i. last TokenType.semi refl _) p l)

  parse_field_assign-Takes : {k : ℕ} (b : Text) → Takes (suc k) (parse_field_assign parse_float b)
  unfolding parse_field_assign
  parse_field_assign-Takes b = next_then (
      keeps_then (expect-Keeps TokenType.ident refl) λ f.
        keeps_then (expect-Keeps TokenType.assign refl)
          λ _. keeps_then expr-Keeps λ e. last TokenType.semi refl _)

  parse_array_assign-Takes : {k : ℕ} (b : Text) → Takes (suc k) (parse_array_assign parse_float b)
  unfolding parse_array_assign
  parse_array_assign-Takes b = next_then (
      keeps_then expr-Keeps λ i. keeps_then (expect-Keeps TokenType.rbrack refl) λ _.
        keeps_then (expect-Keeps TokenType.assign refl)
          λ _. keeps_then expr-Keeps λ e. last TokenType.semi refl _)

  after_id-Keeps : {k : ℕ} (id : Token) → Keeps k (after_id parse_float id)
  unfolding after_id
  after_id-Keeps id p l =
      Within-is TokenType.dot p refl (run_then-Keeps p (parse_field_assign-Takes id.lex)) (
        Within-is TokenType.lbrack p refl (run_then-Keeps p (parse_array_assign-Takes id.lex)) (
          Within-is TokenType.assign p refl
            (run_then-Keeps p (next_then (keeps_then expr-Keeps λ v. last TokenType.semi refl _)))
            (keeps_then (parse_after_primary-Keeps (ident id.lex)) (λ e. last TokenType.semi refl _)
              p l)))

  typedef_var-Takes : {k : ℕ} (id : Token) (b : Bool) → Takes (suc k) (typedef_var parse_float id b)
  unfolding typedef_var
  typedef_var-Takes id b = take_then λ n. keeps_then opt_init-Keeps λ i. last TokenType.semi refl _

  pub parse_name-Takes : {k : ℕ} → Takes (suc k) (parse_name parse_float)
  unfolding parse_name
  parse_name-Takes = take_then λ id p l.
      Within-tok (TokenType.ident ∷ TokenType.star ∷ []) p (refl, (refl, tt))
        (λ _.
          keeps_then stars-Keeps
            (λ ptr q m.
              Within-is TokenType.ident q refl (run_then-Keeps q (typedef_var-Takes id ptr))
                (after_id-Keeps id q m))
            p l)
        (after_id-Keeps id p l)
