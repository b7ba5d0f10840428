-- ===== src/Parser/StmtEnds.antt =====
-- internal/parser/parser.go: a parser of statements takes a token or fails.
use ccomp.Base.{ℕ, zero, suc, ◌<◌, ◌≡◌, refl, not, List, [], ◌∷◌, Option, none, some, arith}
use ccomp.Base.Text.{Text}
use ccomp.Ast.{
  Expr, Stmt, OptBlock, Cases, no_stmts, nil_stmt, nil_block, no_cases, opt_block, opt_stmt,
  append_stmt, append_case, if_stmt,
}
use ccomp.Lexer.Token.{TokenType}
use ccomp.Parser.{Parser, Parse, tok_in, tok_is, left}
use ccomp.Parser.Within.{
  Within, done, failed, Eats, Keeps, Takes, Within-mono, Within-bind, Eats-then, keeps_then,
  eats_keeps, pure-Keeps, type_eq-eof, is-ne-eof, run-Takes, run-Eats, next_then, Within-is,
  expect-Eats, while-Keeps, opt_until-Keeps,
}
use ccomp.Parser.ExprEnds.{parse_expr-Eats}
use ccomp.Parser.Simple.{as_block, parse_for_init_or_expr_no_semi}
use ccomp.Parser.SimpleEnds.{
  expect-Keeps, last, expr-Keeps, parse_for_init-Within, parse_return-Takes, parse_struct_var-Takes,
  parse_declaration-Takes, parse_name-Takes,
}
use ccomp.Parser.Stmt.{
  one_stmt, stmts_until, parse_block, in_parens, opt_else, parse_if, parse_while, parse_do,
  for_part, parse_for, one_label, case_labels, case_clause, default_clause, one_clause, in_switch,
  parse_switch, stmt_by, parse_stmt_fuel, parse_stmt,
}

module _ (parse_float : Text → ℕ) (k : ℕ) (stmt : Parse Stmt) (h : Eats k stmt) where
  stmts_until-Keeps : (ts : List TokenType) → Keeps k (stmts_until parse_float stmt ts)
  unfolding stmts_until
  stmts_until-Keeps ts =
      while-Keeps (λ p. not (tok_in ts p)) (one_stmt parse_float stmt)
        (λ ss p l _. Eats-then h (λ s. pure-Keeps (append_stmt ss s)) p l) no_stmts

  pub parse_block-Eats : Eats (suc k) (parse_block parse_float stmt)
  unfolding parse_block
  parse_block-Eats p l = Within-bind (expect-Eats TokenType.lbrace refl p l) λ t q m.
      Within-mono (omega (arith, m)) (
        keeps_then (stmts_until-Keeps (TokenType.rbrace ∷ TokenType.eof ∷ []))
          (λ ss. last TokenType.rbrace refl ss) q (omega (arith, l, m)))

  in_parens-Keeps : Keeps k (in_parens parse_float stmt)
  in_parens-Keeps =
      keeps_then (expect-Keeps TokenType.lparen refl)
        λ _. keeps_then (expr-Keeps parse_float) λ e. last TokenType.rparen refl e

  opt_else-Keeps : Keeps k (opt_else parse_float stmt)
  opt_else-Keeps p l =
      Within-is TokenType.kw_else p refl
        (λ t. Within-mono (omega arith) (
          next_then (keeps_then (eats_keeps h) λ s. pure-Keeps (opt_block (as_block s))) p
            (omega (arith, l)) t))
        (done {p = p} (omega arith))

  parse_if-Takes : Takes (suc k) (parse_if parse_float stmt)
  unfolding parse_if
  parse_if-Takes = next_then (
      keeps_then in_parens-Keeps λ c.
        keeps_then (eats_keeps h)
          λ s. keeps_then opt_else-Keeps λ o. pure-Keeps (if_stmt c (as_block s) o))

  parse_while-Takes : Takes (suc k) (parse_while parse_float stmt)
  unfolding parse_while
  parse_while-Takes =
      next_then (keeps_then in_parens-Keeps λ c. keeps_then (eats_keeps h) λ s. pure-Keeps _)

  parse_do-Takes : Takes (suc k) (parse_do parse_float stmt)
  unfolding parse_do
  parse_do-Takes = next_then (
      keeps_then (eats_keeps h) λ s.
        keeps_then (expect-Keeps TokenType.kw_while refl)
          λ _. keeps_then in_parens-Keeps λ c. last TokenType.semi refl _)

  for_part-Keeps : Keeps k (for_part parse_float stmt)
  for_part-Keeps =
      keeps_then {m = parse_for_init_or_expr_no_semi parse_float}
        (λ p l. Within-mono (omega arith) (parse_for_init-Within parse_float p.tok.type p refl))
        λ s. pure-Keeps (opt_stmt s)

  parse_for-Takes : Takes (suc k) (parse_for parse_float stmt)
  unfolding parse_for
  parse_for-Takes = next_then (
      keeps_then (expect-Keeps TokenType.lparen refl) λ _.
        keeps_then
          (opt_until-Keeps TokenType.semi nil_stmt (for_part parse_float stmt) for_part-Keeps)
          λ init. keeps_then (expect-Keeps TokenType.semi refl) λ _.
            keeps_then
              (opt_until-Keeps {A = Option Expr} TokenType.semi none _
                (keeps_then (expr-Keeps parse_float) λ e. pure-Keeps (some e)))
              λ cond. keeps_then (expect-Keeps TokenType.semi refl) λ _.
                keeps_then
                  (opt_until-Keeps TokenType.rparen nil_stmt (for_part parse_float stmt)
                    for_part-Keeps)
                  λ post.
                    keeps_then (expect-Keeps TokenType.rparen refl)
                      λ _. keeps_then (eats_keeps h) λ s. pure-Keeps _)

  one_label-Takes : (vs : List ℕ) → Takes (suc k) (one_label parse_float stmt vs)
  one_label-Takes vs =
      next_then (keeps_then (expect-Keeps TokenType.int refl) λ t. last TokenType.colon refl _)

  case_labels-Takes : Takes k (case_labels parse_float stmt)
  unfolding case_labels
  case_labels-Takes p l t =
      Within-bind (run-Takes p (λ q m. one_label-Takes [] q (omega (arith, l, m))) t) λ vs q m.
        Within-mono (omega (arith, m)) (
          while-Keeps {k = k} (tok_is TokenType.kw_case) (one_label parse_float stmt)
            (λ us r n e.
              one_label-Takes us r (omega (arith, n))
                (type_eq-eof r.tok.type TokenType.kw_case e refl))
            vs q (omega (arith, l, m)))

  case_clause-Takes : (cs : Cases) → Takes k (case_clause parse_float stmt cs)
  unfolding case_clause
  case_clause-Takes cs p l t = Within-bind (case_labels-Takes p l t) λ vs q m.
      Within-mono (omega (arith, m)) (
        keeps_then
          (stmts_until-Keeps (TokenType.kw_case ∷ TokenType.kw_default ∷ TokenType.rbrace ∷ []))
          (λ b. pure-Keeps (append_case cs vs b)) q (omega (arith, l, m)))

  default_clause-Takes : Takes (suc k) (default_clause parse_float stmt)
  unfolding default_clause
  default_clause-Takes = next_then (
      keeps_then (expect-Keeps TokenType.colon refl) λ _.
        keeps_then (stmts_until-Keeps (TokenType.kw_case ∷ TokenType.rbrace ∷ []))
          λ b. pure-Keeps (opt_block b))

  one_clause-Eats : (c : Cases × OptBlock) → Eats k (one_clause parse_float stmt c)
  one_clause-Eats (cs, d) p l =
      Within-is TokenType.kw_case p refl
        (λ t. Within-bind (case_clause-Takes cs p l t) λ cs' q m. done {p = q} m)
        (Within-is TokenType.kw_default p refl
          (λ t. Within-bind (default_clause-Takes p (omega (arith, l)) t) λ d' q m. done {p = q} m)
          failed)

  parse_switch-Takes : Takes (suc k) (parse_switch parse_float stmt)
  unfolding parse_switch
  parse_switch-Takes = next_then (
      keeps_then in_parens-Keeps λ tag. keeps_then (expect-Keeps TokenType.lbrace refl) λ _.
        keeps_then
          (while-Keeps (in_switch parse_float stmt) (one_clause parse_float stmt)
            (λ c p l _. one_clause-Eats c p l) (no_cases, nil_block))
          λ cl. last TokenType.rbrace refl _)

  stmt_by-Within :
      (t : TokenType) (p : Parser)
      → left p < suc k
      → p.tok.type ≡ t
      → Within (left p) (stmt_by parse_float stmt t p)
  unfolding stmt_by
  stmt_by-Within TokenType.kw_return p l e = parse_return-Takes parse_float p l (is-ne-eof p e refl)
  stmt_by-Within TokenType.kw_struct p l e = parse_struct_var-Takes p l (is-ne-eof p e refl)
  stmt_by-Within TokenType.kw_int p l e =
      parse_declaration-Takes parse_float p l (is-ne-eof p e refl)
  stmt_by-Within TokenType.kw_char p l e =
      parse_declaration-Takes parse_float p l (is-ne-eof p e refl)
  stmt_by-Within TokenType.kw_double p l e =
      parse_declaration-Takes parse_float p l (is-ne-eof p e refl)
  stmt_by-Within TokenType.lbrace p l e =
      Within-bind (parse_block-Eats p l) λ ss q m. done {p = q} m
  stmt_by-Within TokenType.kw_if p l e = parse_if-Takes p l (is-ne-eof p e refl)
  stmt_by-Within TokenType.kw_while p l e = parse_while-Takes p l (is-ne-eof p e refl)
  stmt_by-Within TokenType.kw_switch p l e = parse_switch-Takes p l (is-ne-eof p e refl)
  stmt_by-Within TokenType.kw_for p l e = parse_for-Takes p l (is-ne-eof p e refl)
  stmt_by-Within TokenType.kw_do p l e = parse_do-Takes p l (is-ne-eof p e refl)
  stmt_by-Within TokenType.kw_break p l e =
      next_then (last TokenType.semi refl _) p l (is-ne-eof p e refl)
  stmt_by-Within TokenType.kw_continue p l e =
      next_then (last TokenType.semi refl _) p l (is-ne-eof p e refl)
  stmt_by-Within TokenType.ident p l e = parse_name-Takes parse_float p l (is-ne-eof p e refl)
  stmt_by-Within _ p l e =
      run-Eats p (Eats-then (parse_expr-Eats parse_float) λ e. last TokenType.semi refl _)

module _ (parse_float : Text → ℕ) where
  parse_stmt_fuel-Eats : (n : ℕ) → Eats n (parse_stmt_fuel parse_float n)
  unfolding parse_stmt_fuel
  parse_stmt_fuel-Eats zero p l = elim l [ ]
  parse_stmt_fuel-Eats (suc n) p l =
      stmt_by-Within parse_float n (parse_stmt_fuel parse_float n) (parse_stmt_fuel-Eats n)
        p.tok.type p l refl

  pub parse_stmt-Eats : {k : ℕ} → Eats k (parse_stmt parse_float)
  unfolding parse_stmt
  parse_stmt-Eats p l = parse_stmt_fuel-Eats (suc (left p)) p (omega arith)
