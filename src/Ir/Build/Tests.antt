-- ===== src/Ir/Build/Tests.antt =====
-- internal/ir/ir.go: small programs built.
use ccomp.Base.{
  zero, suc, ◌<◌, ◌≢◌, ℕ, ◌+◌, ◌≤◌, ◌≡◌, refl, true, false, get_elem?, arith, List, [], ◌∷◌, map,
  some, All,
}
use ccomp.Base.Int.{ℤ, pos, negsuc}
use ccomp.Base.Text.{codes}
use ccomp.Ast.{
  Expr, Stmts, ident, int_lit, binary_expr, call_expr, no_expr, BinOp, Decl, func_decl, bt_int,
  bt_char, a_stmt, no_stmts, return_stmt, if_stmt, while_stmt, for_stmt, assign_stmt, no_pos,
  no_cases, a_case, switch_stmt, nil_block, opt_stmt, nil_stmt, break_stmt, continue_stmt,
}
use ccomp.Ir.{Op, Function, Instr}
use ccomp.Ast
use ccomp.Types.{int, pointer_to, is_float, is_pointer, from_basic_type, size}
use ccomp.Ir.Build.{Ctx, pure}
use ccomp.Ir.Build.Read.{Order}
use ccomp.Ir.Build.Expr.{build_binary}
use ccomp.Ir.Phi.{preds_of}
use ccomp.Ir.Build.Read.{read_var, exhausted}
use ccomp.Ir.Build.Read.Enough.{read_var-ends}
use ccomp.Ir.Build.Typing.{HasType, build_binary-HasType}
use ccomp.Ir.Build.Layout.{struct_of-apart}
use ccomp.Ir.Build.Program.{Program, program, build_module, new_module, start_function, layout}
use ccomp.Ir.Build.Single.Program.{SingleAssignment, build_module-SingleAssignment}

abbrev in_order : Order
in_order ps = ps

abbrev functions_of : Program → List Function
functions_of (program fs m) = fs
functions_of _ = []

-- The instructions by blocks: the result, the opcode, the arguments and the constant.
abbrev Code : Type 0
Code = List (List (ℤ × Op × List ℤ × ℕ))

abbrev code_of : List Function → Code
code_of [] = []
code_of (f ∷ fs) =
    map (λ b. map (λ (i : Instr). (i.res, i.val.op, i.val.args, i.val.imm)) b.instrs) f.blocks

-- `int f(int n) { ... }`.
abbrev function : Stmts → List Decl
function body =
    func_decl (codes "f") (record { name = codes "n"; typ = bt_int; ptr = false } ∷ []) body bt_int
    ∷ []

abbrev built_of : Stmts → List Function
built_of body = functions_of (build_module in_order (function body))

abbrev n : Expr
n = ident (codes "n")

abbrev less_one : Stmts
less_one = a_stmt (assign_stmt (codes "n") (binary_expr BinOp.sub n (int_lit 1)) no_pos) no_stmts

-- `while (n) { n = n - 1; } return n;`
abbrev counting : Stmts
counting = a_stmt (while_stmt n less_one) (a_stmt (return_stmt n no_pos) no_stmts)

-- The phi of the loop gets its second argument when the block is sealed.
counting_code :
    code_of (built_of counting)
    ≡ ((pos 0, Op.param, [], 0) ∷ (negsuc 0, Op.jmp, pos 1 ∷ [], 0) ∷ [])
      ∷ ((pos 1, Op.phi, pos 0 ∷ pos 3 ∷ [], 0)
          ∷ (negsuc 0, Op.jnz, pos 1 ∷ pos 2 ∷ pos 3 ∷ [], 0)
          ∷ [])
      ∷ ((pos 2, Op.const, [], 1)
          ∷ (pos 3, Op.sub, pos 1 ∷ pos 2 ∷ [], 0)
          ∷ (negsuc 0, Op.jmp, pos 1 ∷ [], 0)
          ∷ [])
      ∷ ((pos 4, Op.ret, pos 1 ∷ [], 0) ∷ [])
      ∷ []
unfolding build_module
counting_code = refl

build_module-SingleAssignment_example : All SingleAssignment (built_of counting)
unfolding build_module
build_module-SingleAssignment_example =
    build_module-SingleAssignment in_order (function counting) (built_of counting) new_module refl

-- `switch (n) { case 1: case 2: break; }`: where n is neither, block 4 branches to itself for ever.
switch_code :
    code_of (
      built_of (
        a_stmt
          (switch_stmt n (a_case (1 ∷ 2 ∷ []) (a_stmt break_stmt no_stmts) no_cases) nil_block)
          no_stmts))
    ≡ ((pos 0, Op.param, [], 0) ∷ (negsuc 0, Op.jmp, pos 3 ∷ [], 0) ∷ [])
      ∷ []
      ∷ ((negsuc 0, Op.jmp, pos 1 ∷ [], 0) ∷ [])
      ∷ ((pos 1, Op.const, [], 1)
          ∷ (pos 2, Op.eq, pos 0 ∷ pos 1 ∷ [], 0)
          ∷ (negsuc 0, Op.jnz, pos 2 ∷ pos 2 ∷ pos 4 ∷ [], 0)
          ∷ [])
      ∷ ((pos 3, Op.const, [], 2)
          ∷ (pos 4, Op.eq, pos 0 ∷ pos 3 ∷ [], 0)
          ∷ (negsuc 0, Op.jnz, pos 4 ∷ pos 2 ∷ pos 4 ∷ [], 0)
          ∷ [])
      ∷ []
unfolding build_module
switch_code = refl

-- `return g() && n;` calls g twice.
and_code :
    code_of (
      built_of (
        a_stmt
          (return_stmt (binary_expr BinOp.land (call_expr (codes "g") no_expr) n) no_pos)
          no_stmts))
    ≡ ((pos 0, Op.param, [], 0)
        ∷ (pos 1, Op.call, [], 0)
        ∷ (pos 2, Op.call, [], 0)
        ∷ (pos 3, Op.const, [], 0)
        ∷ (negsuc 0, Op.jnz, pos 2 ∷ pos 1 ∷ pos 2 ∷ [], 0)
        ∷ [])
      ∷ ((pos 4, Op.const, [], 0)
          ∷ (pos 5, Op.ne, pos 0 ∷ pos 4 ∷ [], 0)
          ∷ (negsuc 0, Op.jmp, pos 2 ∷ [], 0)
          ∷ [])
      ∷ ((pos 6, Op.phi, pos 3 ∷ pos 5 ∷ [], 0) ∷ (pos 7, Op.ret, pos 6 ∷ [], 0) ∷ [])
      ∷ []
unfolding build_module
and_code = refl

-- `for (; n; n = n - 1) { if (n) continue; }`: the phi for n in the block of the post statement, which
-- is never sealed, has no arguments.
abbrev for_code : Code
for_code = code_of (
    built_of (
      a_stmt
        (for_stmt nil_stmt (some n)
          (opt_stmt (assign_stmt (codes "n") (binary_expr BinOp.sub n (int_lit 1)) no_pos))
          (a_stmt (if_stmt n (a_stmt continue_stmt no_stmts) nil_block) no_stmts))
        no_stmts))

for_post :
    get_elem? for_code 3
    ≡ some (
        (pos 2, Op.phi, [], 0)
        ∷ (pos 3, Op.const, [], 1)
        ∷ (pos 4, Op.sub, pos 2 ∷ pos 3 ∷ [], 0)
        ∷ (negsuc 0, Op.jmp, pos 1 ∷ [], 0)
        ∷ [])
unfolding build_module
for_post = refl

-- A pointer to int and an int, added in the entry of a function.
build_binary-HasType_example : HasType (pointer_to int) (
    build_binary in_order BinOp.add
      (0, pointer_to int)
      (1, int)
      (pure 0)
      (pure 1)
      (start_function (codes "f") [] bt_int new_module))
unfolding is_float is_pointer pointer_to
build_binary-HasType_example =
    build_binary-HasType in_order BinOp.add (0, pointer_to int) (1, int) (pure 0) (pure 1)
      (start_function (codes "f") [] bt_int new_module)

-- `char c; int n; char *p;`.
abbrev fields : List Ast.StructField
fields =
    record { name = codes "c"; typ = bt_char; ptr = false }
    ∷ record { name = codes "n"; typ = bt_int; ptr = false }
    ∷ record { name = codes "p"; typ = bt_char; ptr = true }
    ∷ []

struct_of-apart_example : (1 + 8 ≤ 9) × (9 + 8 ≤ 17)
unfolding layout from_basic_type size
struct_of-apart_example =
    struct_of-apart fields 1 2
      (record { name = codes "n"; type = from_basic_type 0 false; offset = 1 })
      (record { name = codes "p"; type = from_basic_type 1 true; offset = 9 }) refl refl
      (omega arith)

-- A loop: block 1 is the head, block 2 its body.
abbrev looping : Ctx
looping =
    let c = start_function (codes "f") [] bt_int new_module in
    record c {
      b = 2;
      f = record c.f {
        blocks =
            record { name = []; instrs = []; sealed = true; preds = []; succs = 1 ∷ [] }
            ∷ record { name = []; instrs = []; sealed = false; preds = 0 ∷ 2 ∷ []; succs = 2 ∷ [] }
            ∷ record { name = []; instrs = []; sealed = false; preds = 1 ∷ []; succs = 1 ∷ [] }
            ∷ [];
      };
    }

abbrev depth : ℕ → ℕ
depth zero = 0
depth (suc zero) = 1
depth (suc (suc b)) = 2

depth-le : (b : ℕ) → depth b ≤ 3
depth-le zero = omega arith
depth-le (suc zero) = omega arith
depth-le (suc (suc b)) = omega arith

depth-below : (b p : ℕ) → preds_of (get_elem? looping.f.blocks b) ≡ p ∷ [] → depth p < depth b
unfolding start_function
depth-below zero p e = cc
depth-below (suc zero) p e = cc
depth-below (suc (suc zero)) zero e = omega arith
depth-below (suc (suc zero)) (suc zero) e = omega arith
depth-below (suc (suc zero)) (suc (suc p)) e = cc
depth-below (suc (suc (suc b))) p e = cc

read_var-ends_example : (read_var (codes "x") 2 looping).0 ≢ exhausted
unfolding start_function
read_var-ends_example = read_var-ends depth (codes "x") 2 looping depth-le depth-below
