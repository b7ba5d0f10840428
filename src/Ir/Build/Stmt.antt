-- ===== src/Ir/Build/Stmt.antt =====
-- internal/ir/ir.go: buildBlock and the statements.
use ccomp.Ir.Build.Simple.{
  has, build_array_decl, build_return, write_typed, build_decl, build_assign, build_array_assign,
  build_field_assign, build_struct_var, jump_out, push_targets, pop, pop_targets,
}
use ccomp.Base.{ℕ, true, List, [], ◌∷◌, Option, none, some, ◌==◌, if◌then◌else◌}
use ccomp.Base.Text.{codes}
use ccomp.Ast.{
  Expr, Stmt, Stmts, OptStmt, OptBlock, Cases, block_stmt, return_stmt, expr_stmt, decl_stmt,
  array_decl_stmt, struct_var_decl_stmt, assign_stmt, array_assign_stmt, field_assign_stmt, if_stmt,
  while_stmt, for_stmt, do_while_stmt, break_stmt, continue_stmt, switch_stmt, no_stmts, a_stmt,
  nil_stmt, opt_stmt, nil_block, opt_block, no_cases, a_case,
}
use ccomp.Ir.Phi.{update, without}
use ccomp.Ir.Build.{
  BuildError, Build, ◌>>=◌, ◌>>◌, pure, get, modify, with_blocks, fresh_block, edge, edge_to,
  jump_only, jump, branch_only, branch, move_to, terminated, unless_terminated,
}
use ccomp.Ir.Build.Read.{Order, seal_block}
use ccomp.Ir.Build.Expr.{build_expr, untyped}
use ccomp.Ir.Build.Operand.{Typed}
use ccomp.Ir.Build.Switch.{case_blocks, compare_chain, chained, head_or, or_block}

module _ (order : Order) where
  abbrev pub value : Expr → Build Typed
  value e = build_expr order e

  abbrev pub condition : Expr → Build ℕ
  condition e = untyped order (value e)

  unfoldable pub build_if : Build ℕ → Build (Unit {0}) → Build (Unit {0}) → Build (Unit {0})
  unfolding fresh_block branch jump terminated seal_block
  build_if build_cond build_then build_else = do
    cond ← build_cond
    then_b ← fresh_block (codes "then")
    else_b ← fresh_block (codes "else")
    join_b ← fresh_block (codes "endif")
    branch cond then_b else_b
    move_to then_b
    build_then
    unless_terminated (jump join_b)
    move_to else_b
    build_else
    unless_terminated (jump join_b)
    seal_block order join_b
    move_to join_b

  -- The edge from the body to the condition, which was made before the body, is made again from the
  -- block that the body ends in.
  abbrev pub redirect : ℕ → ℕ → ℕ → Build (Unit {0})
  redirect body_b cond_b end_b = if end_b == body_b then pure tt else (do
    modify (
        with_blocks λ bs.
          update (λ b. record b { preds = without body_b b.preds }) cond_b
            (update (λ b. record b { succs = without cond_b b.succs }) body_b bs))
    edge end_b cond_b)

  unfoldable pub build_while : Build ℕ → Build (Unit {0}) → Build (Unit {0})
  unfolding fresh_block branch jump edge terminated seal_block
  build_while build_cond build_body = do
    cond_b ← fresh_block (codes "while.cond")
    body_b ← fresh_block (codes "while.body")
    exit_b ← fresh_block (codes "while.end")
    jump cond_b
    edge body_b cond_b
    move_to cond_b
    cond ← build_cond
    branch cond body_b exit_b
    move_to body_b
    push_targets exit_b cond_b
    build_body
    pop_targets
    unless_terminated (jump_only cond_b)
    c ← get
    redirect body_b cond_b c.b
    move_to exit_b
    seal_block order cond_b
    seal_block order exit_b

  -- A part of a `for` that may be missing.
  abbrev pub branch_if : Option (Build ℕ) → ℕ → ℕ → Build (Unit {0})
  branch_if none body_b exit_b = jump body_b
  branch_if (some build_cond) body_b exit_b = do cond ← build_cond; branch cond body_b exit_b

  abbrev pub post_part : Option (Build (Unit {0})) → ℕ → ℕ → Build (Unit {0})
  post_part none cond_b post_b = unless_terminated (jump cond_b)
  post_part (some build_post) cond_b post_b = do
    unless_terminated (jump post_b)
    move_to post_b
    build_post
    unless_terminated (jump cond_b)

  unfoldable pub build_for :
      Build (Unit {0})
      → Option (Build ℕ)
      → Option (Build (Unit {0}))
      → Build (Unit {0})
      → Build (Unit {0})
  unfolding fresh_block branch jump edge terminated seal_block
  build_for build_init build_cond build_post build_body = do
    build_init
    cond_b ← fresh_block (codes "for.cond")
    body_b ← fresh_block (codes "for.body")
    post_b ← fresh_block (codes "for.post")
    exit_b ← fresh_block (codes "for.end")
    jump cond_b
    edge body_b cond_b
    edge post_b cond_b
    move_to cond_b
    branch_if build_cond body_b exit_b
    move_to body_b
    push_targets exit_b (if has build_post then post_b else cond_b)
    build_body
    pop_targets
    post_part build_post cond_b post_b
    move_to exit_b
    seal_block order cond_b
    seal_block order exit_b

  unfoldable pub build_do_while : Build (Unit {0}) → Build ℕ → Build (Unit {0})
  unfolding fresh_block branch jump edge terminated seal_block
  build_do_while build_body build_cond = do
    head_b ← fresh_block (codes "do.head")
    body_b ← fresh_block (codes "do.body")
    cond_b ← fresh_block (codes "do.cond")
    exit_b ← fresh_block (codes "do.end")
    jump head_b
    edge cond_b head_b
    move_to head_b
    jump body_b
    move_to body_b
    push_targets exit_b cond_b
    build_body
    pop_targets
    unless_terminated (jump cond_b)
    move_to cond_b
    cond ← build_cond
    branch_only cond head_b exit_b
    edge_to exit_b
    seal_block order head_b
    move_to exit_b
    seal_block order cond_b
    seal_block order exit_b

  -- A body in its block, and the jump to where it falls through.
  abbrev pub body_in : ℕ → ℕ → Build (Unit {0}) → Build (Unit {0})
  body_in blk fall build_body = do move_to blk; build_body; unless_terminated (jump fall)

  abbrev pub default_block : OptBlock → Build (Option ℕ)
  default_block nil_block = pure none
  default_block (opt_block ss) = do b ← fresh_block (codes "default"); pure (some b)

  abbrev pub default_body : Option ℕ → ℕ → Build (Unit {0}) → Build (Unit {0})
  default_body none exit_b build_body = pure tt
  default_body (some d) exit_b build_body = body_in d exit_b build_body

  -- `build_bodies` takes the blocks of the cases, and where the last of them falls through.
  unfoldable pub build_switch :
      Build ℕ
      → Cases
      → (List ℕ → ℕ → Build (Unit {0}))
      → OptBlock
      → Build (Unit {0})
      → Build (Unit {0})
  unfolding fresh_block case_blocks compare_chain chained seal_block jump terminated
  build_switch build_tag cs build_bodies d build_default = do
    tag ← build_tag
    exit_b ← fresh_block (codes "switch.end")
    blocks ← case_blocks 0 cs
    default_b ← default_block d
    let last = or_block default_b exit_b
    compare_chain tag true (chained 0 cs blocks []) last
    modify (λ c. record c { break_targets = exit_b ∷ c.break_targets })
    build_bodies blocks last
    default_body default_b exit_b build_default
    modify (λ c. record c { break_targets = pop c.break_targets })
    move_to exit_b
    seal_block order exit_b

  abbrev pub opt_condition : Option Expr → Option (Build ℕ)
  opt_condition none = none
  opt_condition (some e) = some (condition e)

  -- `buildBlock`, a statement after another.
  unfoldable mutual
    unfolding build_return build_decl build_assign build_array_decl build_array_assign build_if
        build_while build_for build_do_while build_switch build_struct_var build_field_assign
        build_expr jump

    pub build_stmt : Stmt → Build (Unit {0})
    build_stmt (block_stmt ss) = build_stmts ss
    build_stmt (return_stmt e at) = build_return (value e) at
    build_stmt (expr_stmt e) = do value e; pure tt
    build_stmt (decl_stmt name (some e) bt ptr at td) = do v ← value e; write_typed name v
    build_stmt (decl_stmt name none bt ptr at td) = build_decl name bt ptr td
    build_stmt (array_decl_stmt name n bt) = build_array_decl name n bt
    build_stmt (struct_var_decl_stmt name sname) = build_struct_var name sname
    build_stmt (assign_stmt name e at) = build_assign name at (value e)
    build_stmt (array_assign_stmt name i e) = build_array_assign name (value i) (value e)
    build_stmt (field_assign_stmt b f e) = build_field_assign b f (value e)
    build_stmt (if_stmt e a o) = build_if (condition e) (build_stmts a) (build_opt_block o)
    build_stmt (while_stmt e body) = build_while (condition e) (build_stmts body)
    build_stmt (for_stmt init cond post body) =
        build_for (build_opt init) (opt_condition cond) (opt_build post) (build_stmts body)
    build_stmt (do_while_stmt body e) = build_do_while (build_stmts body) (condition e)
    build_stmt break_stmt = do c ← get; jump_out BuildError.break_outside c.break_targets
    build_stmt continue_stmt = do c ← get; jump_out BuildError.continue_outside c.cont_targets
    build_stmt (switch_stmt e cs d) =
        build_switch (condition e) cs (build_cases cs) d (build_opt_block d)

    pub build_stmts : Stmts → Build (Unit {0})
    build_stmts no_stmts = pure tt
    build_stmts (a_stmt s ss) = do build_stmt s; build_stmts ss

    pub build_opt : OptStmt → Build (Unit {0})
    build_opt nil_stmt = pure tt
    build_opt (opt_stmt s) = build_stmt s

    pub opt_build : OptStmt → Option (Build (Unit {0}))
    opt_build nil_stmt = none
    opt_build (opt_stmt s) = some (build_stmt s)

    pub build_opt_block : OptBlock → Build (Unit {0})
    build_opt_block nil_block = pure tt
    build_opt_block (opt_block ss) = build_stmts ss

    pub build_cases : Cases → List ℕ → ℕ → Build (Unit {0})
    build_cases no_cases bs last = pure tt
    build_cases (a_case vs body cs) [] last = pure tt
    build_cases (a_case vs body cs) (b ∷ bs) last = do
      body_in b (head_or bs last) (build_stmts body)
      build_cases cs bs last
