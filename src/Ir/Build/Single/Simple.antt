-- ===== src/Ir/Build/Single/Simple.antt =====
-- internal/ir/ir.go: the statements without a block keep single assignment.
use ccomp.Base.{ℕ, zero, suc, Bool, true, false, List, [], ◌∷◌, Option, none, some}
use ccomp.Base.Text.{Text}
use ccomp.Types.{CType}
use ccomp.Ast.{BasicType, Pos}
use ccomp.Ir.{Global}
use ccomp.Ir.Build.{StructDef, Array, BuildError, Build, lookup}
use ccomp.Ir.Build.Operand.{Typed, find_global, find_array}
use ccomp.Ir.Build.Simple.{
  typedef_type, decl_type, has, slots, define_array, build_array_decl, build_return, build_decl,
  assign_checked, assign_local, assign_to, build_assign, assign_array, build_array_assign,
  build_field_assign, struct_slot, build_struct_var, jump_out, push_targets, pop_targets,
}
use ccomp.Ir.Build.Single.Rules.{keeps_rules, edge-Keeps}
use ccomp.Ir.Build.Single.Expr.{find_struct_field-Keeps}
use ccomp.Ir.Build.Single.{Single, Keeps, keeps, run, modify-Keeps}

pub typedef_type-Keeps :
    (name : Text) (ptr : Bool) (t : Option CType) → Keeps (typedef_type name ptr t)
typedef_type-Keeps name ptr none = search keeps_rules
typedef_type-Keeps name ptr (some t) = search keeps_rules

pub decl_type-Keeps : (bt : BasicType) (ptr : Bool) (td : Text) → Keeps (decl_type bt ptr td)
decl_type-Keeps bt ptr [] = search keeps_rules
decl_type-Keeps bt ptr (x ∷ xs) =
    keeps λ c. run (typedef_type-Keeps (x ∷ xs) ptr (lookup (x ∷ xs) c.m.typedefs)) c

pub slots-Keeps : (n : ℕ) → Keeps (slots n)
unfolding slots
slots-Keeps zero = search keeps_rules
slots-Keeps (suc n) = search (keeps_rules, slots-Keeps n)

pub define_array-Keeps : (name : Text) (a : Array) → Keeps (define_array name a)
unfolding Single
define_array-Keeps name a = modify-Keeps λ c h. h

pub build_array_decl-Keeps :
    (name : Text) (n : ℕ) (bt : BasicType) → Keeps (build_array_decl name n bt)
unfolding build_array_decl
build_array_decl-Keeps name n bt = search (keeps_rules, slots-Keeps, define_array-Keeps)

pub build_return-Keeps : {m : Build Typed} (at : Pos) → Keeps m → Keeps (build_return m at)
unfolding build_return
build_return-Keeps at k = search keeps_rules depth 8

pub build_decl-Keeps :
    (name : Text) (bt : BasicType) (ptr : Bool) (td : Text) → Keeps (build_decl name bt ptr td)
unfolding build_decl
build_decl-Keeps name bt ptr td = search (keeps_rules, decl_type-Keeps) depth 8

pub assign_checked-Keeps :
    (name : Text) (at : Pos) (v : Typed) (t : Option CType) → Keeps (assign_checked name at v t)
assign_checked-Keeps name at v none = search keeps_rules
assign_checked-Keeps name at v (some t) = search keeps_rules depth 8

pub assign_local-Keeps :
    (name : Text) (at : Pos) {m : Build Typed} → Keeps m → Keeps (assign_local name at m)
assign_local-Keeps name at k = search (keeps_rules, assign_checked-Keeps)

pub assign_to-Keeps :
    (name : Text) (at : Pos) {m : Build Typed}
    → Keeps m
    → (g : Option Global) (b : Bool) → Keeps (assign_to name at m g b)
assign_to-Keeps name at k (some g) false = search keeps_rules depth 8
assign_to-Keeps name at k (some g) true = assign_local-Keeps name at k
assign_to-Keeps name at k none b = assign_local-Keeps name at k

pub build_assign-Keeps :
    (name : Text) (at : Pos) {m : Build Typed} → Keeps m → Keeps (build_assign name at m)
unfolding build_assign
build_assign-Keeps name at k = keeps λ c.
    run (assign_to-Keeps name at k (find_global name c.m.globals) (has (lookup name c.var_types))) c

pub assign_array-Keeps :
    (name : Text) {i v : Build Typed}
    → Keeps i
    → Keeps v
    → (a : Option Array) (g : Option Global) → Keeps (assign_array name i v a g)
assign_array-Keeps name ki kv (some a) g = search keeps_rules depth 12
assign_array-Keeps name ki kv none (some g) = search keeps_rules depth 12
assign_array-Keeps name ki kv none none = search keeps_rules

pub build_array_assign-Keeps :
    (name : Text) {i v : Build Typed} → Keeps i → Keeps v → Keeps (build_array_assign name i v)
unfolding build_array_assign
build_array_assign-Keeps name ki kv =
    keeps λ c.
      run (assign_array-Keeps name ki kv (lookup name c.arrays) (find_array name c.m.globals)) c

pub build_field_assign-Keeps :
    (base name : Text) {m : Build Typed} → Keeps m → Keeps (build_field_assign base name m)
unfolding build_field_assign
build_field_assign-Keeps base name k = search (keeps_rules, find_struct_field-Keeps) depth 12

pub struct_slot-Keeps :
    (name sname : Text) (d : Option StructDef) → Keeps (struct_slot name sname d)
unfolding Single
struct_slot-Keeps name sname none = search keeps_rules
struct_slot-Keeps name sname (some d) =
    search
      (
        keeps_rules,
        modify-Keeps {g = λ c. record c { struct_vars = (name, sname) ∷ c.struct_vars }} (λ c h. h),
      )
      depth 8

pub build_struct_var-Keeps : (name sname : Text) → Keeps (build_struct_var name sname)
unfolding build_struct_var
build_struct_var-Keeps name sname =
    keeps λ c. run (struct_slot-Keeps name sname (lookup sname c.m.struct_defs)) c

pub jump_out-Keeps : (e : BuildError) (ts : List ℕ) → Keeps (jump_out e ts)
jump_out-Keeps e [] = search keeps_rules
jump_out-Keeps e (t ∷ ts) = search keeps_rules

pub push_targets-Keeps : (b c : ℕ) → Keeps (push_targets b c)
unfolding Single
push_targets-Keeps b c = modify-Keeps λ c h. h

pub pop_targets-Keeps : Keeps pop_targets
unfolding Single
pop_targets-Keeps = modify-Keeps λ c h. h

pub ruleset stmt_rules = (keeps_rules, push_targets-Keeps, pop_targets-Keeps)
