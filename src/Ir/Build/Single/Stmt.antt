-- ===== src/Ir/Build/Single/Stmt.antt =====
-- internal/ir/ir.go: statements keep single assignment.
use ccomp.Ir.Build.Single.Simple.{
  build_array_decl-Keeps, build_return-Keeps, build_decl-Keeps, build_assign-Keeps,
  build_array_assign-Keeps, build_field_assign-Keeps, build_struct_var-Keeps, jump_out-Keeps,
  stmt_rules,
}
use ccomp.Base.{ℕ, suc, Bool, true, false, List, [], ◌∷◌, Option, none, some, ◌==◌, arith}
use ccomp.Base.Text.{Text}
use ccomp.Ast.{
  Expr, Stmt, Stmts, OptStmt, OptBlock, Cases, block_stmt, return_stmt, expr_stmt, decl_stmt,
  array_decl_stmt, struct_var_decl_stmt, assign_stmt, array_assign_stmt, field_assign_stmt, if_stmt,
  while_stmt, for_stmt, do_while_stmt, break_stmt, continue_stmt, switch_stmt, no_stmts, a_stmt,
  nil_stmt, opt_stmt, nil_block, opt_block, no_cases, a_case,
}
use ccomp.Ir.Phi.{without}
use ccomp.Ir.Build.{Build}
use ccomp.Ir.Build.Read.{Order}
use ccomp.Ir.Build.Switch.{case_blocks, compare_values, compare_chain, head_or}
use ccomp.Ir.Build.Stmt.{
  condition, build_if, redirect, build_while, branch_if, post_part, build_for, build_do_while,
  body_in, default_block, default_body, build_switch, build_stmt, build_stmts, build_opt, opt_build,
  build_opt_block, build_cases, opt_condition,
}
use ccomp.Ir.Build.Simple.{pop}
use ccomp.Ir.Build.Single.Rules.{keeps_rules, edge-Keeps}
use ccomp.Ir.Build.Single.Expr.{build_expr-Keeps}
use ccomp.Ir.Build.Single.{
  Single, Quiet-Single, update-Quiet, then-Quiet, if-Keeps, Keeps, modify-Keeps, then-Keeps,
  pure-Keeps,
}

-- A part that may be missing.
abbrev Keeps? {ℓ} : {A : Type ℓ} → Option (Build A) → Type ℓ
Keeps? none = Unit
Keeps? (some m) = Keeps m

case_blocks-Keeps : (i : ℕ) (cs : Cases) → Keeps (case_blocks i cs)
unfolding case_blocks
case_blocks-Keeps i no_cases = search keeps_rules
case_blocks-Keeps i (a_case vs body cs) = search (keeps_rules, case_blocks-Keeps (suc i) cs)

compare_values-Keeps :
    (tag target : ℕ) (name : Text) (i : ℕ) (vs : List ℕ) (fall : ℕ)
    → Keeps (compare_values tag target name i vs fall)
unfolding compare_values
compare_values-Keeps tag target name i [] fall = search keeps_rules
compare_values-Keeps tag target name i (v ∷ []) fall = search keeps_rules
compare_values-Keeps tag target name i (v ∷ w ∷ vs) fall =
    search (keeps_rules, compare_values-Keeps tag target name (suc i) (w ∷ vs)) depth 8

compare_chain-Keeps :
    (tag : ℕ) (first : Bool) (cs : List (ℕ × List ℕ × ℕ)) (next_b : ℕ)
    → Keeps (compare_chain tag first cs next_b)
unfolding compare_chain
compare_chain-Keeps tag first [] next_b = search keeps_rules
compare_chain-Keeps tag true ((i, vs, target) ∷ cs) next_b =
    search (keeps_rules, compare_values-Keeps, compare_chain-Keeps tag false cs) depth 8
compare_chain-Keeps tag false ((i, vs, target) ∷ cs) next_b =
    search (keeps_rules, compare_values-Keeps, compare_chain-Keeps tag false cs) depth 8

module _ (order : Order) where
  redirect-Keeps : (body_b cond_b end_b : ℕ) → Keeps (redirect order body_b cond_b end_b)
  redirect-Keeps body_b cond_b end_b = if-Keeps (end_b == body_b) (pure-Keeps tt) (
      then-Keeps
        (modify-Keeps (
          Quiet-Single (
            then-Quiet
              (update-Quiet (λ b. record b { succs = without cond_b b.succs }) body_b
                (λ k b. omega arith))
              (update-Quiet (λ b. record b { preds = without body_b b.preds }) cond_b
                (λ k b. omega arith)))))
        (edge-Keeps end_b cond_b))

  build_if-Keeps :
      {c : Build ℕ} {t e : Build (Unit {0})}
      → Keeps c
      → Keeps t
      → Keeps e
      → Keeps (build_if order c t e)
  unfolding build_if
  build_if-Keeps kc kt ke = search stmt_rules depth 20

  build_while-Keeps :
      {c : Build ℕ} {m : Build (Unit {0})} → Keeps c → Keeps m → Keeps (build_while order c m)
  unfolding build_while
  build_while-Keeps kc km = search (stmt_rules, redirect-Keeps) depth 24

  branch_if-Keeps : (c : Option (Build ℕ)) (b e : ℕ) → Keeps? c → Keeps (branch_if order c b e)
  branch_if-Keeps none b e k = search keeps_rules
  branch_if-Keeps (some m) b e k = search keeps_rules

  post_part-Keeps :
      (p : Option (Build (Unit {0}))) (c b : ℕ) → Keeps? p → Keeps (post_part order p c b)
  post_part-Keeps none c b k = search keeps_rules
  post_part-Keeps (some m) c b k = search keeps_rules depth 8

  build_for-Keeps :
      {i : Build (Unit {0})} (c : Option (Build ℕ)) (p : Option (Build (Unit {0})))
      {m : Build (Unit {0})}
      → Keeps i
      → Keeps? c
      → Keeps? p
      → Keeps m
      → Keeps (build_for order i c p m)
  unfolding build_for
  build_for-Keeps c p ki kc kp km = search (stmt_rules, branch_if-Keeps, post_part-Keeps) depth 30

  condition-Keeps : (e : Expr) → Keeps (condition order e)
  condition-Keeps e = search (keeps_rules, build_expr-Keeps)

  opt_condition-Keeps : (e : Option Expr) → Keeps? (opt_condition order e)
  opt_condition-Keeps none = tt
  opt_condition-Keeps (some e) = condition-Keeps e

  build_do_while-Keeps :
      {m : Build (Unit {0})} {c : Build ℕ} → Keeps m → Keeps c → Keeps (build_do_while order m c)
  unfolding build_do_while
  build_do_while-Keeps km kc = search stmt_rules depth 30

  body_in-Keeps : (blk fall : ℕ) {m : Build (Unit {0})} → Keeps m → Keeps (body_in order blk fall m)
  body_in-Keeps blk fall k = search keeps_rules

  default_block-Keeps : (d : OptBlock) → Keeps (default_block order d)
  default_block-Keeps nil_block = search keeps_rules
  default_block-Keeps (opt_block ss) = search keeps_rules

  default_body-Keeps :
      (d : Option ℕ) (e : ℕ) {m : Build (Unit {0})} → Keeps m → Keeps (default_body order d e m)
  default_body-Keeps none e k = search keeps_rules
  default_body-Keeps (some b) e k = body_in-Keeps b e k

  build_switch-Keeps :
      {t : Build ℕ} (cs : Cases) {bs : List ℕ → ℕ → Build (Unit {0})} (d : OptBlock)
      {m : Build (Unit {0})}
      → Keeps t
      → ((blocks : List ℕ) (last : ℕ) → Keeps (bs blocks last))
      → Keeps m
      → Keeps (build_switch order t cs bs d m)
  unfolding build_switch Single
  build_switch-Keeps cs d kt kb km =
      let push = λ (e : ℕ).
        modify-Keeps {g = λ c. record c { break_targets = e ∷ c.break_targets }} (λ c h. h) in
      let drop =
        modify-Keeps {g = λ c. record c { break_targets = pop c.break_targets }} (λ c h. h) in
      search
        (
          keeps_rules, push, drop, case_blocks-Keeps, compare_chain-Keeps, default_block-Keeps,
          default_body-Keeps,
        )
        depth 20

  mutual
    unfolding build_stmt

    pub build_stmt-Keeps : (s : Stmt) → Keeps (build_stmt order s)
    build_stmt-Keeps (block_stmt ss) = build_stmts-Keeps ss
    build_stmt-Keeps (return_stmt e at) = build_return-Keeps at (build_expr-Keeps order e)
    build_stmt-Keeps (expr_stmt e) = search (keeps_rules, build_expr-Keeps)
    build_stmt-Keeps (decl_stmt name (some e) bt ptr at td) = search (keeps_rules, build_expr-Keeps)
    build_stmt-Keeps (decl_stmt name none bt ptr at td) = build_decl-Keeps name bt ptr td
    build_stmt-Keeps (array_decl_stmt name n bt) = build_array_decl-Keeps name n bt
    build_stmt-Keeps (struct_var_decl_stmt name sname) = build_struct_var-Keeps name sname
    build_stmt-Keeps (assign_stmt name e at) = build_assign-Keeps name at (build_expr-Keeps order e)
    build_stmt-Keeps (array_assign_stmt name i e) =
        build_array_assign-Keeps name (build_expr-Keeps order i) (build_expr-Keeps order e)
    build_stmt-Keeps (field_assign_stmt b f e) =
        build_field_assign-Keeps b f (build_expr-Keeps order e)
    build_stmt-Keeps (if_stmt e a o) =
        build_if-Keeps (condition-Keeps e) (build_stmts-Keeps a) (build_opt_block-Keeps o)
    build_stmt-Keeps (while_stmt e body) =
        build_while-Keeps (condition-Keeps e) (build_stmts-Keeps body)
    build_stmt-Keeps (for_stmt init cond post body) =
        build_for-Keeps (opt_condition order cond) (opt_build order post) (build_opt-Keeps init)
          (opt_condition-Keeps cond) (opt_build-Keeps post) (build_stmts-Keeps body)
    build_stmt-Keeps (do_while_stmt body e) =
        build_do_while-Keeps (build_stmts-Keeps body) (condition-Keeps e)
    build_stmt-Keeps break_stmt = search (keeps_rules, jump_out-Keeps)
    build_stmt-Keeps continue_stmt = search (keeps_rules, jump_out-Keeps)
    build_stmt-Keeps (switch_stmt e cs d) =
        build_switch-Keeps cs d (condition-Keeps e) (build_cases-Keeps cs) (build_opt_block-Keeps d)

    pub build_stmts-Keeps : (ss : Stmts) → Keeps (build_stmts order ss)
    build_stmts-Keeps no_stmts = search keeps_rules
    build_stmts-Keeps (a_stmt s ss) = then-Keeps (build_stmt-Keeps s) (build_stmts-Keeps ss)

    build_opt-Keeps : (o : OptStmt) → Keeps (build_opt order o)
    build_opt-Keeps nil_stmt = search keeps_rules
    build_opt-Keeps (opt_stmt s) = build_stmt-Keeps s

    opt_build-Keeps : (o : OptStmt) → Keeps? (opt_build order o)
    opt_build-Keeps nil_stmt = tt
    opt_build-Keeps (opt_stmt s) = build_stmt-Keeps s

    build_opt_block-Keeps : (o : OptBlock) → Keeps (build_opt_block order o)
    build_opt_block-Keeps nil_block = search keeps_rules
    build_opt_block-Keeps (opt_block ss) = build_stmts-Keeps ss

    build_cases-Keeps : (cs : Cases) (bs : List ℕ) (last : ℕ) → Keeps (build_cases order cs bs last)
    build_cases-Keeps no_cases bs last = search keeps_rules
    build_cases-Keeps (a_case vs body cs) [] last = search keeps_rules
    build_cases-Keeps (a_case vs body cs) (b ∷ bs) last =
        then-Keeps (body_in-Keeps b (head_or bs last) (build_stmts-Keeps body))
          (build_cases-Keeps cs bs last)
