-- ===== src/Ir/Build/Expr.antt =====
-- internal/ir/ir.go: buildExprWithType, buildLogical and internString.
use ccomp.Ir.Build.Element.{
  build_field, cast_type, build_cast, deref_type, ident_of, build_addr, field_base, build_index,
}
use ccomp.Ir.Build.Operand.{
  Typed, typed, var_type, intern_string, load_op, build_ident, float_or, build_add, build_sub,
  plain,
}
use ccomp.Base.{ℕ, suc, Bool, true, false, List, [], ◌∷◌, ◌++◌, Option, if◌then◌else◌}
use ccomp.Base.Int.{ℤ, pos}
use ccomp.Base.Text.{Text, codes}
use ccomp.Types.{int, byte_t, double_t, pointer_to, size, is_float}
use ccomp.Ast.{
  Expr, Exprs, no_expr, an_expr, BinOp, UnOp, ident, int_lit, float_lit, string_lit, binary_expr,
  call_expr, unary_expr, index_expr, cast_expr, field_expr,
}
use ccomp.Ir.{Op}
use ccomp.Ir.Phi.{decimal}
use ccomp.Ir.Build.{
  Build, ◌>>=◌, ◌>>◌, pure, get, new_value, add, iconst, fconst, global_addr, fresh_block, jump,
  branch, move_to, write_here,
}
use ccomp.Ir.Build.Read.{read_var, read_here, Order, seal_block}

module _ (order : Order) where
  -- What is built for the value of the right operand, and the jump to the end.
  abbrev pub right_branch : Text → ℕ → ℕ → Build ℕ → Build (Unit {0})
  right_branch tmp right_b end_b build_right = do
    move_to right_b
    r ← build_right
    zero_id ← iconst 0
    one ← add Op.ne (r ∷ zero_id ∷ [])
    write_here tmp one
    jump end_b

  abbrev pub short_cut : Bool → ℕ → ℕ → ℕ → Build (Unit {0})
  short_cut true l right_b end_b = branch l right_b end_b
  short_cut false l right_b end_b = branch l end_b right_b

  unfoldable pub build_logical : Bool → Build ℕ → Build ℕ → Build ℕ
  unfolding fresh_block new_value branch jump seal_block read_var decimal
  build_logical is_and build_left build_right = do
    l ← build_left
    right_b ← fresh_block (codes "log.right")
    end_b ← fresh_block (codes "log.end")
    c ← get
    let tmp = codes "$t" ++ decimal (suc c.next_id) c.next_id
    start ← iconst (if is_and then 0 else 1)
    write_here tmp start
    short_cut is_and l right_b end_b
    right_branch tmp right_b end_b build_right
    seal_block order end_b
    move_to end_b
    read_here tmp

  abbrev pub untyped : Build Typed → Build ℕ
  untyped m = do v ← m; pure v.0

  -- The operation on two values that are built, and again on the two ways to build them.
  unfoldable pub build_binary : BinOp → Typed → Typed → Build ℕ → Build ℕ → Build Typed
  unfolding build_add build_sub build_logical is_float new_value
  build_binary BinOp.add (l, lt) (r, rt) bl br = build_add l r lt rt
  build_binary BinOp.sub (l, lt) (r, rt) bl br = build_sub l r lt rt
  build_binary BinOp.mul (l, lt) (r, rt) bl br = float_or Op.fmul Op.mul l r lt rt
  build_binary BinOp.div (l, lt) (r, rt) bl br = float_or Op.fdiv Op.div l r lt rt
  build_binary BinOp.eq (l, lt) (r, rt) bl br = plain Op.eq l r
  build_binary BinOp.ne (l, lt) (r, rt) bl br = plain Op.ne l r
  build_binary BinOp.lt (l, lt) (r, rt) bl br = plain Op.lt l r
  build_binary BinOp.le (l, lt) (r, rt) bl br = plain Op.le l r
  build_binary BinOp.gt (l, lt) (r, rt) bl br = plain Op.gt l r
  build_binary BinOp.ge (l, lt) (r, rt) bl br = plain Op.ge l r
  build_binary BinOp.and (l, lt) (r, rt) bl br = plain Op.and l r
  build_binary BinOp.or (l, lt) (r, rt) bl br = plain Op.or l r
  build_binary BinOp.xor (l, lt) (r, rt) bl br = plain Op.xor l r
  build_binary BinOp.shl (l, lt) (r, rt) bl br = plain Op.shl l r
  build_binary BinOp.shr (l, lt) (r, rt) bl br = plain Op.shr l r
  build_binary BinOp.land l r bl br = typed int (build_logical true bl br)
  build_binary BinOp.lor l r bl br = typed int (build_logical false bl br)

  abbrev pub build_unary : UnOp → Option Text → Build Typed → Build Typed
  build_unary UnOp.addr x m = build_addr x
  build_unary UnOp.deref x m = do
    p ← m
    let rt = deref_type p.1
    typed rt (add (load_op (size rt)) (p.0 ∷ []))
  build_unary UnOp.neg x m = do v ← m; z ← iconst 0; typed int (add Op.sub (z ∷ v.0 ∷ []))
  build_unary UnOp.bit_not x m = do v ← m; typed int (add Op.not (v.0 ∷ []))
  build_unary UnOp.logical_not x m = do v ← m; typed int (add Op.logical_not (v.0 ∷ []))

  -- `buildExprWithType`.
  unfoldable mutual
    unfolding build_ident intern_string build_binary build_index build_field build_cast cast_type
        new_value size pointer_to read_var var_type

    pub build_expr : Expr → Build Typed
    build_expr (int_lit v) = typed int (iconst v)
    build_expr (float_lit bits) = typed double_t (fconst bits)
    build_expr (string_lit s) = do
      lbl ← intern_string s
      typed (pointer_to byte_t) (global_addr lbl)
    build_expr (ident x) = build_ident x
    build_expr (binary_expr op a b) = do
      l ← build_expr a
      r ← build_expr b
      build_binary op l r (untyped (build_expr a)) (untyped (build_expr b))
    build_expr (call_expr f as') = do argv ← build_args as'; typed int (new_value Op.call argv 0 f)
    build_expr (index_expr a i) = build_index (build_expr i) (ident_of a) (build_expr a)
    build_expr (field_expr a f) = field_base (ident_of a) f
    build_expr (unary_expr op a) = build_unary op (ident_of a) (build_expr a)
    build_expr (cast_expr bt ptr a) = do v ← build_expr a; build_cast (cast_type bt ptr) v.0 v.1

    pub build_args : Exprs → Build (List ℤ)
    build_args no_expr = pure []
    build_args (an_expr e es) = do v ← build_expr e; vs ← build_args es; pure (pos v.0 ∷ vs)
