-- ===== src/Ast.antt =====
-- internal/ast/ast.go: the tree. A slice of trees and a pointer to one that may be nil are types of
-- the block that they recur in; a nil expression is `none`.
use ccomp.Base.{ℕ, ◌≡◌, refl, ap, Bool, List, Option}
use ccomp.Base.Text.{Text}

pub data BasicType : Type 0 where
  bt_int bt_char bt_double : BasicType

-- `iota` of the constant block.
abbrev pub basic_number : BasicType → ℕ
basic_number bt_int = 0
basic_number bt_char = 1
basic_number bt_double = 2

pub record Pos : Type 0 where
  pub line : ℕ
  pub col : ℕ

-- The zero value of the struct.
abbrev pub no_pos : Pos
no_pos = record { line = 0; col = 0 }

pub data BinOp : Type 0 where
  add sub mul div eq ne lt le gt ge land lor and or xor shl shr : BinOp

pub data UnOp : Type 0 where
  addr deref neg bit_not logical_not : UnOp

-- An integer and a float literal are given by their 64 bits.
mutual
  pub data Expr : Type 0 where
    ident : Text → Expr
    int_lit : ℕ → Expr
    float_lit : ℕ → Expr
    string_lit : Text → Expr
    binary_expr : BinOp → Expr → Expr → Expr
    call_expr : Text → Exprs → Expr
    unary_expr : UnOp → Expr → Expr
    index_expr : Expr → Expr → Expr
    cast_expr : BasicType → Bool → Expr → Expr
    field_expr : Expr → Text → Expr

  pub data Exprs : Type 0 where
    no_expr : Exprs
    an_expr : Expr → Exprs → Exprs

-- `append(args, e)`.
unfoldable pub append_expr : Exprs → Expr → Exprs
append_expr no_expr e = an_expr e no_expr
append_expr (an_expr d es) e = an_expr d (append_expr es e)

unfoldable pub append_all : Exprs → Exprs → Exprs
append_all no_expr es = es
append_all (an_expr d ds) es = an_expr d (append_all ds es)

pub append_all-nil : (es : Exprs) → append_all es no_expr ≡ es
unfolding append_all
append_all-nil no_expr = refl
append_all-nil (an_expr e es) = ap (an_expr e) (append_all-nil es)

pub append_all-append :
    (ds : Exprs) (e : Expr) (es : Exprs)
    → append_all (append_expr ds e) es ≡ append_all ds (an_expr e es)
unfolding append_all append_expr
append_all-append no_expr e es = refl
append_all-append (an_expr d ds) e es = ap (an_expr d) (append_all-append ds e es)

mutual
  pub data Stmt : Type 0 where
    block_stmt : Stmts → Stmt
    return_stmt : Expr → Pos → Stmt
    expr_stmt : Expr → Stmt
    decl_stmt : Text → Option Expr → BasicType → Bool → Pos → Text → Stmt
    array_decl_stmt : Text → ℕ → BasicType → Stmt
    struct_var_decl_stmt : Text → Text → Stmt
    assign_stmt : Text → Expr → Pos → Stmt
    array_assign_stmt : Text → Expr → Expr → Stmt
    field_assign_stmt : Text → Text → Expr → Stmt
    if_stmt : Expr → Stmts → OptBlock → Stmt
    while_stmt : Expr → Stmts → Stmt
    for_stmt : OptStmt → Option Expr → OptStmt → Stmts → Stmt
    do_while_stmt : Stmts → Expr → Stmt
    break_stmt continue_stmt : Stmt
    switch_stmt : Expr → Cases → OptBlock → Stmt

  pub data Stmts : Type 0 where
    no_stmts : Stmts
    a_stmt : Stmt → Stmts → Stmts

  pub data OptStmt : Type 0 where
    nil_stmt : OptStmt
    opt_stmt : Stmt → OptStmt

  pub data OptBlock : Type 0 where
    nil_block : OptBlock
    opt_block : Stmts → OptBlock

  pub data Cases : Type 0 where
    no_cases : Cases
    a_case : List ℕ → Stmts → Cases → Cases

-- `append(stmts, s)`, and `append(cases, c)` for the clause with these values and this body.
unfoldable pub append_stmt : Stmts → Stmt → Stmts
append_stmt no_stmts s = a_stmt s no_stmts
append_stmt (a_stmt r ss) s = a_stmt r (append_stmt ss s)

unfoldable pub append_case : Cases → List ℕ → Stmts → Cases
append_case no_cases vs b = a_case vs b no_cases
append_case (a_case us a cs) vs b = a_case us a (append_case cs vs b)

pub record Param : Type 0 where
  pub name : Text
  pub typ : BasicType
  pub ptr : Bool

pub record StructField : Type 0 where
  pub name : Text
  pub typ : BasicType
  pub ptr : Bool

pub record EnumValue : Type 0 where
  pub name : Text
  pub value : ℕ

pub data Decl : Type 0 where
  func_decl : Text → List Param → Stmts → BasicType → Decl
  global_decl : Text → Option ℕ → BasicType → Bool → Decl
  global_array_decl : Text → ℕ → BasicType → Decl
  struct_decl : Text → List StructField → Decl
  enum_decl : Text → List EnumValue → Decl
  typedef_decl : Text → BasicType → Bool → Decl
