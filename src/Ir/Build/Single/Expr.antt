-- ===== src/Ir/Build/Single/Expr.antt =====
-- internal/ir/ir.go: expressions keep single assignment.
use ccomp.Base.{ℕ, Bool, true, false, Option, none, some}
use ccomp.Base.Text.{Text}
use ccomp.Types.{CType}
use ccomp.Ast.{
  Expr, Exprs, no_expr, an_expr, BinOp, UnOp, ident, int_lit, float_lit, string_lit, binary_expr,
  call_expr, unary_expr, index_expr, cast_expr, field_expr,
}
use ccomp.Ir.{Global}
use ccomp.Ir.Build.{StructField, StructDef, Array, Ctx, Build, lookup}
use ccomp.Ir.Build.Read.{found, undefined, exhausted}
use ccomp.Ir.Build.Read.{Found, Order, read_var}
use ccomp.Ir.Build.Expr.{
  short_cut, build_logical, build_binary, build_unary, build_expr, build_args,
}
use ccomp.Ir.Build.Element.{
  field_in, field_of, struct_field, find_field, find_struct_field, build_field, build_cast,
  ident_of, build_addr, field_base, local_of, global_of, element_of, build_index,
}
use ccomp.Ir.Build.Operand.{
  Typed, known_label, intern_string, of_enum, of_global, of_found, build_ident, find_global, scaled,
  build_add, build_sub,
}
use ccomp.Ir.Build.Single.Rules.{keeps_rules}
use ccomp.Ir.Build.Single.Steps.{read_var-Single}
use ccomp.Ir.Build.Single.{Single, Sound, Keeps, keeps, run}

known_label-Keeps : (s : Text) (l : Option Text) → Keeps (known_label s l)
unfolding Single
known_label-Keeps s none = keeps (λ c h. h)
known_label-Keeps s (some l) = search keeps_rules

intern_string-Keeps : (s : Text) → Keeps (intern_string s)
unfolding intern_string
intern_string-Keeps s = keeps (λ c. run (known_label-Keeps s (lookup s c.str_labels)) c)

of_enum-Keeps : (name : Text) (v : Option ℕ) → Keeps (of_enum name v)
of_enum-Keeps name none = search keeps_rules
of_enum-Keeps name (some v) = search keeps_rules

of_global-Keeps : (name : Text) (g : Option Global) → Keeps (of_global name g)
of_global-Keeps name none = keeps (λ c. run (of_enum-Keeps name (lookup name c.m.enum_constants)) c)
of_global-Keeps name (some g) = search keeps_rules

of_found-Sound : (name : Text) (r : Found × Ctx) → Single r.1 → Sound (of_found name r)
of_found-Sound name (found v, c) h = h
of_found-Sound name (undefined, c) h = run (of_global-Keeps name (find_global name c.m.globals)) c h
of_found-Sound name (exhausted, c) h = tt

build_ident-Keeps : (name : Text) → Keeps (build_ident name)
unfolding build_ident
build_ident-Keeps name =
    keeps (λ c h. of_found-Sound name (read_var name c.b c) (read_var-Single name c.b c h))

scaled-Keeps : (sz v : ℕ) → Keeps (scaled sz v)
unfolding scaled
scaled-Keeps sz v = search keeps_rules

build_add-Keeps : (l r : ℕ) (lt rt : CType) → Keeps (build_add l r lt rt)
unfolding build_add
build_add-Keeps l r lt rt = search (keeps_rules, scaled-Keeps) depth 12

build_sub-Keeps : (l r : ℕ) (lt rt : CType) → Keeps (build_sub l r lt rt)
unfolding build_sub
build_sub-Keeps l r lt rt = search (keeps_rules, scaled-Keeps) depth 12

field_in-Keeps : (name sname : Text) (f : Option StructField) → Keeps (field_in name sname f)
field_in-Keeps name sname none = search keeps_rules
field_in-Keeps name sname (some f) = search keeps_rules

field_of-Keeps : (name sname : Text) (d : Option StructDef) → Keeps (field_of name sname d)
field_of-Keeps name sname none = search keeps_rules
field_of-Keeps name sname (some d) = field_in-Keeps name sname (find_field name d.fields)

struct_field-Keeps : (base name : Text) (s : Option Text) → Keeps (struct_field base name s)
struct_field-Keeps base name none = search keeps_rules
struct_field-Keeps base name (some sname) =
    keeps (λ c. run (field_of-Keeps name sname (lookup sname c.m.struct_defs)) c)

pub find_struct_field-Keeps : (base name : Text) → Keeps (find_struct_field base name)
unfolding find_struct_field
find_struct_field-Keeps base name =
    keeps (λ c. run (struct_field-Keeps base name (lookup base c.struct_vars)) c)

build_field-Keeps : (base name : Text) → Keeps (build_field base name)
unfolding build_field
build_field-Keeps base name = search (keeps_rules, find_struct_field-Keeps) depth 12

build_cast-Keeps : (t : CType) (v : ℕ) (st : CType) → Keeps (build_cast t v st)
unfolding build_cast
build_cast-Keeps t v st = search keeps_rules depth 12

build_addr-Keeps : (x : Option Text) → Keeps (build_addr x)
build_addr-Keeps none = search keeps_rules
build_addr-Keeps (some x) = search keeps_rules

field_base-Keeps : (x : Option Text) (f : Text) → Keeps (field_base x f)
field_base-Keeps none f = search keeps_rules
field_base-Keeps (some x) f = build_field-Keeps x f

module _ {build_idx build_base : Build Typed} (ki : Keeps build_idx) (kb : Keeps build_base) where
  element_of-Keeps :
      (a : Option Array) (g : Option Global) → Keeps (element_of build_idx build_base a g)
  element_of-Keeps (some a) g = search keeps_rules depth 8
  element_of-Keeps none (some g) = search keeps_rules depth 8
  element_of-Keeps none none = search keeps_rules depth 8

  build_index-Keeps : (x : Option Text) → Keeps (build_index build_idx x build_base)
  unfolding build_index
  build_index-Keeps x = keeps (λ c. run (element_of-Keeps (local_of x c) (global_of x c)) c)

module _ (order : Order) where
  short_cut-Keeps : (b : Bool) (l r e : ℕ) → Keeps (short_cut order b l r e)
  short_cut-Keeps true l r e = search keeps_rules
  short_cut-Keeps false l r e = search keeps_rules

  build_logical-Keeps :
      (b : Bool) {l r : Build ℕ} → Keeps l → Keeps r → Keeps (build_logical order b l r)
  unfolding build_logical
  build_logical-Keeps b kl kr = search (keeps_rules, short_cut-Keeps) depth 16

  build_binary-Keeps :
      (op : BinOp) (l r : Typed) {bl br : Build ℕ}
      → Keeps bl
      → Keeps br
      → Keeps (build_binary order op l r bl br)
  unfolding build_binary
  build_binary-Keeps BinOp.add l r kl kr = build_add-Keeps l.0 r.0 l.1 r.1
  build_binary-Keeps BinOp.sub l r kl kr = build_sub-Keeps l.0 r.0 l.1 r.1
  build_binary-Keeps BinOp.land l r kl kr = search (keeps_rules, build_logical-Keeps true kl kr)
  build_binary-Keeps BinOp.lor l r kl kr = search (keeps_rules, build_logical-Keeps false kl kr)
  build_binary-Keeps _ l r kl kr = search keeps_rules

  build_unary-Keeps :
      (op : UnOp) (x : Option Text) {m : Build Typed} → Keeps m → Keeps (build_unary order op x m)
  build_unary-Keeps UnOp.addr x k = build_addr-Keeps x
  build_unary-Keeps UnOp.deref x k = search keeps_rules
  build_unary-Keeps UnOp.neg x k = search keeps_rules
  build_unary-Keeps UnOp.bit_not x k = search keeps_rules
  build_unary-Keeps UnOp.logical_not x k = search keeps_rules

  mutual
    unfolding build_expr build_args

    pub build_expr-Keeps : (e : Expr) → Keeps (build_expr order e)
    build_expr-Keeps (int_lit v) = search keeps_rules
    build_expr-Keeps (float_lit bits) = search keeps_rules
    build_expr-Keeps (string_lit s) = search (keeps_rules, intern_string-Keeps)
    build_expr-Keeps (ident x) = build_ident-Keeps x
    build_expr-Keeps (binary_expr op a b) =
        let ka = build_expr-Keeps a in
        let kb = build_expr-Keeps b in search (keeps_rules, build_binary-Keeps, ka, kb)
    build_expr-Keeps (call_expr f es) = search (keeps_rules, build_args-Keeps es)
    build_expr-Keeps (index_expr a i) =
        build_index-Keeps (build_expr-Keeps i) (build_expr-Keeps a) (ident_of a)
    build_expr-Keeps (field_expr a f) = field_base-Keeps (ident_of a) f
    build_expr-Keeps (unary_expr op a) = build_unary-Keeps op (ident_of a) (build_expr-Keeps a)
    build_expr-Keeps (cast_expr bt ptr a) =
        let k = build_expr-Keeps a in search (keeps_rules, build_cast-Keeps, k)

    build_args-Keeps : (es : Exprs) → Keeps (build_args order es)
    build_args-Keeps no_expr = search keeps_rules
    build_args-Keeps (an_expr e es) =
        let k = build_expr-Keeps e in let ks = build_args-Keeps es in search (keeps_rules, k, ks)
