-- ===== src/Parser/Stmt.antt =====
-- internal/parser/parser.go: the statements. A form of statement takes the parser of the statements
-- in it as an argument.
use ccomp.Base.{ℕ, zero, suc, Bool, not, List, [], ◌∷◌, ◌++◌, none, some, if◌then◌else◌}
use ccomp.Base.Text.{Text}
use ccomp.Ast.{
  Expr, Stmt, Stmts, OptStmt, OptBlock, Cases, block_stmt, expr_stmt, if_stmt, while_stmt, for_stmt,
  do_while_stmt, break_stmt, continue_stmt, switch_stmt, no_stmts, nil_stmt, opt_stmt, nil_block,
  opt_block, no_cases, append_stmt, append_case,
}
use ccomp.Lexer.Token.{TokenType}
use ccomp.Parser.{
  Parser, Parse, Error, ok, out_of_fuel, ◌>>=◌, ◌>>◌, pure, fail, tok_in, tok_is, advance, next,
  expect, left, while, opt_until,
}
use ccomp.Parser.Number.{parse_int}
use ccomp.Parser.Expr.{parse_expr}
use ccomp.Parser.Simple.{
  expr, as_block, parse_return, parse_struct_var, parse_declaration, parse_name, parse_for_init,
  parse_for_init_or_expr_no_semi,
}

module _ (parse_float : Text → ℕ) where
  module _ (stmt : Parse Stmt) where
    abbrev pub one_stmt : Stmts → Parse Stmts
    one_stmt ss = do s ← stmt; pure (append_stmt ss s)

    unfoldable pub stmts_until : List TokenType → Parse Stmts
    unfolding while append_stmt
    stmts_until ts = while (λ p. not (tok_in ts p)) one_stmt no_stmts

    unfoldable pub parse_block : Parse Stmts
    unfolding stmts_until expect advance
    parse_block = do
      expect TokenType.lbrace
      ss ← stmts_until (TokenType.rbrace ∷ TokenType.eof ∷ [])
      expect TokenType.rbrace
      pure ss

    -- `( expr )`.
    abbrev pub in_parens : Parse Expr
    in_parens = do expect TokenType.lparen; e ← expr parse_float; expect TokenType.rparen; pure e

    abbrev pub opt_else : Parse OptBlock
    opt_else p =
        if tok_is TokenType.kw_else p
        then (do next; s ← stmt; pure (opt_block (as_block s))) p
        else ok nil_block p

    unfoldable pub parse_if : Parse Stmt
    unfolding parse_expr expect advance
    parse_if = do
      next
      cond ← in_parens
      then_blk ← stmt
      else_body ← opt_else
      pure (if_stmt cond (as_block then_blk) else_body)

    unfoldable pub parse_while : Parse Stmt
    unfolding parse_expr expect advance
    parse_while = do next; cond ← in_parens; body ← stmt; pure (while_stmt cond (as_block body))

    unfoldable pub parse_do : Parse Stmt
    unfolding parse_expr expect advance
    parse_do = do
      next
      body ← stmt
      expect TokenType.kw_while
      cond ← in_parens
      expect TokenType.semi
      pure (do_while_stmt (as_block body) cond)

    abbrev pub for_part : Parse OptStmt
    for_part = do s ← parse_for_init_or_expr_no_semi parse_float; pure (opt_stmt s)

    unfoldable pub parse_for : Parse Stmt
    unfolding parse_for_init parse_expr expect advance
    parse_for = do
      next
      expect TokenType.lparen
      init ← opt_until TokenType.semi nil_stmt for_part
      expect TokenType.semi
      cond ← opt_until TokenType.semi none (do e ← expr parse_float; pure (some e))
      expect TokenType.semi
      post ← opt_until TokenType.rparen nil_stmt for_part
      expect TokenType.rparen
      body ← stmt
      pure (for_stmt init cond post (as_block body))

    -- `case N :`, of one or more labels that share a body.
    abbrev pub one_label : List ℕ → Parse (List ℕ)
    one_label vs = do
      next
      t ← expect TokenType.int
      expect TokenType.colon
      pure (vs ++ (parse_int t.lex).0 ∷ [])

    unfoldable pub case_labels : Parse (List ℕ)
    unfolding while parse_int expect advance
    case_labels = do vs ← one_label []; while (tok_is TokenType.kw_case) one_label vs

    unfoldable pub case_clause : Cases → Parse Cases
    unfolding case_labels stmts_until append_case
    case_clause cs = do
      values ← case_labels
      body ← stmts_until (TokenType.kw_case ∷ TokenType.kw_default ∷ TokenType.rbrace ∷ [])
      pure (append_case cs values body)

    unfoldable pub default_clause : Parse OptBlock
    unfolding stmts_until expect advance
    default_clause = do
      next
      expect TokenType.colon
      body ← stmts_until (TokenType.kw_case ∷ TokenType.rbrace ∷ [])
      pure (opt_block body)

    -- A clause of a switch, after the cases and the default so far.
    abbrev pub one_clause : Cases × OptBlock → Parse (Cases × OptBlock)
    one_clause (cs, d) p =
        if tok_is TokenType.kw_case p
        then (do cs' ← case_clause cs; pure (cs', d)) p
        else if tok_is TokenType.kw_default p
        then (do d' ← default_clause; pure (cs, d')) p
        else fail Error.bad_switch p

    abbrev pub in_switch : Parser → Bool
    in_switch p = not (tok_in (TokenType.rbrace ∷ TokenType.eof ∷ []) p)

    unfoldable pub parse_switch : Parse Stmt
    unfolding while case_clause default_clause parse_expr expect advance
    parse_switch = do
      next
      tag ← in_parens
      expect TokenType.lbrace
      clauses ← while in_switch one_clause (no_cases, nil_block)
      expect TokenType.rbrace
      pure (switch_stmt tag clauses.0 clauses.1)

    -- The switch of `parseStmt`.
    unfoldable pub stmt_by : TokenType → Parse Stmt
    unfolding parse_return parse_struct_var parse_declaration parse_block parse_if parse_while
        parse_switch parse_for parse_do parse_name parse_expr expect advance
    stmt_by TokenType.kw_return = parse_return parse_float
    stmt_by TokenType.kw_struct = parse_struct_var
    stmt_by TokenType.kw_int = parse_declaration parse_float
    stmt_by TokenType.kw_char = parse_declaration parse_float
    stmt_by TokenType.kw_double = parse_declaration parse_float
    stmt_by TokenType.lbrace = do ss ← parse_block; pure (block_stmt ss)
    stmt_by TokenType.kw_if = parse_if
    stmt_by TokenType.kw_while = parse_while
    stmt_by TokenType.kw_switch = parse_switch
    stmt_by TokenType.kw_for = parse_for
    stmt_by TokenType.kw_do = parse_do
    stmt_by TokenType.kw_break = do next; expect TokenType.semi; pure break_stmt
    stmt_by TokenType.kw_continue = do next; expect TokenType.semi; pure continue_stmt
    stmt_by TokenType.ident = parse_name parse_float
    stmt_by _ = do e ← expr parse_float; expect TokenType.semi; pure (expr_stmt e)

  -- Each nested statement takes a token first.
  unfoldable pub parse_stmt_fuel : ℕ → Parse Stmt
  unfolding stmt_by
  parse_stmt_fuel zero p = out_of_fuel
  parse_stmt_fuel (suc n) p = stmt_by (parse_stmt_fuel n) p.tok.type p

  unfoldable pub parse_stmt : Parse Stmt
  unfolding parse_stmt_fuel left
  parse_stmt p = parse_stmt_fuel (suc (left p)) p
