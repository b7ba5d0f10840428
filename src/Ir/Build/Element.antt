-- ===== src/Ir/Build/Element.antt =====
-- internal/ir/ir.go, buildExprWithType: fields, casts, addresses and elements of arrays.
use ccomp.Ir.Build.Operand.{Typed, typed, var_type, find_array, load_op}
use ccomp.Base.{
  ℕ, Bool, true, false, ◌&&◌, ◌||◌, not, List, [], ◌∷◌, Option, none, some, ◌==◌, if◌then◌else◌,
}
use ccomp.Base.Text.{Text, text_eq}
use ccomp.Types.{
  Kind, CType, node, int, byte_t, double_t, pointer_to, size, is_pointer, elem_size, is_float,
}
use ccomp.Ast.{Expr, BasicType, bt_int, bt_char, bt_double, ident}
use ccomp.Ir.{Op, Global}
use ccomp.Ir.Build.{
  lookup, StructField, StructDef, Array, Ctx, BuildError, Build, ◌>>=◌, pure, fail, get, new_value,
  add, iconst, global_addr,
}
use ccomp.Ir.Build.Read.{read_var, read_here}

-- The address of an element: the index is built between the base and the scale.
abbrev pub element_at : ℕ → ℕ → ℕ → Build ℕ
element_at base idx sz = do
  scale ← iconst sz
  off ← add Op.mul (idx ∷ scale ∷ [])
  add Op.add (base ∷ off ∷ [])

abbrev pub find_field : Text → List StructField → Option StructField
find_field name [] = none
find_field name (f ∷ fs) = if text_eq f.name name then some f else find_field name fs

-- The field of a struct variable, or an error.
abbrev pub field_in : Text → Text → Option StructField → Build StructField
field_in name sname none = fail (BuildError.no_field name sname)
field_in name sname (some f) = pure f

abbrev pub field_of : Text → Text → Option StructDef → Build StructField
field_of name sname none = fail (BuildError.not_defined sname)
field_of name sname (some d) = field_in name sname (find_field name d.fields)

abbrev pub struct_field : Text → Text → Option Text → Build StructField
struct_field base name none = fail (BuildError.not_a_struct base)
struct_field base name (some sname) = λ c. field_of name sname (lookup sname c.m.struct_defs) c

unfoldable pub find_struct_field : Text → Text → Build StructField
unfolding lookup
find_struct_field base name c = struct_field base name (lookup base c.struct_vars) c

-- The address of a field: nothing is added to the base for the first.
abbrev pub field_addr : ℕ → ℕ → Build ℕ
field_addr base offset =
    if offset == 0 then pure base else (do o ← iconst offset; add Op.add (base ∷ o ∷ []))

unfoldable pub build_field : Text → Text → Build Typed
unfolding find_struct_field read_var new_value size
build_field base name = do
  f ← find_struct_field base name
  v ← read_here base
  addr ← field_addr v f.offset
  typed f.type (add (load_op (size f.type)) (addr ∷ []))

unfoldable pub cast_type : BasicType → Bool → CType
unfolding pointer_to
cast_type bt true = pointer_to (of_basic bt)
  where
    of_basic : BasicType → CType
    of_basic bt_char = byte_t
    of_basic bt_double = double_t
    of_basic bt_int = int
cast_type bt_char false = byte_t
cast_type bt_double false = double_t
cast_type bt_int false = int

-- The low byte, where the target is a char.
abbrev pub narrowed : CType → ℕ → Build Typed
narrowed tt' v =
    if size tt' == 1
    then (do m ← iconst 0xff; typed tt' (add Op.and (v ∷ m ∷ [])))
    else pure (v, tt')

unfoldable pub build_cast : CType → ℕ → CType → Build Typed
unfolding new_value is_float is_pointer size
build_cast tt' v st =
    if is_float st && not (is_float tt') && not (is_pointer tt')
    then (do conv ← add Op.f2i (v ∷ []); narrowed tt' conv)
    else if not (is_float st) && not (is_pointer st) && is_float tt'
    then typed tt' (add Op.i2f (v ∷ []))
    else if is_pointer tt' || is_pointer st
    then pure (v, tt')
    else narrowed tt' v

abbrev pub deref_type : CType → CType
deref_type (node Kind.ptr t) = t
deref_type _ = int

abbrev pub ident_of : Expr → Option Text
ident_of (ident x) = some x
ident_of _ = none

abbrev pub build_addr : Option Text → Build Typed
build_addr none = fail BuildError.bad_operand
build_addr (some x) = do
  v ← read_here x
  c ← get
  typed (pointer_to (var_type x c)) (add Op.addr (v ∷ []))

abbrev pub field_base : Option Text → Text → Build Typed
field_base none f = fail BuildError.bad_base
field_base (some x) f = build_field x f

-- The arrays that an index may be of: a local one, a global one, or any pointer.
abbrev pub local_of : Option Text → Ctx → Option Array
local_of none c = none
local_of (some x) c = lookup x c.arrays

abbrev pub global_of : Option Text → Ctx → Option Global
global_of none c = none
global_of (some x) c = find_array x c.m.globals

module _ (build_idx : Build Typed) where
  abbrev pub of_local : Array → Build Typed
  of_local a = do
    base ← new_value Op.slot_addr (a.base ∷ []) 0 []
    idx ← build_idx
    ptr ← element_at base idx.0 a.elem_size
    typed int (add (load_op a.elem_size) (ptr ∷ []))

  abbrev pub of_global_array : Global → Build Typed
  of_global_array g = do
    base ← global_addr (g.name)
    idx ← build_idx
    ptr ← element_at base idx.0 g.elem_size
    typed int (add (load_op g.elem_size) (ptr ∷ []))

  abbrev pub of_pointer : Build Typed → Build Typed
  of_pointer build_base = do
    base ← build_base
    idx ← build_idx
    let sz = if is_pointer base.1 then elem_size base.1 else 1
    ptr ← element_at base.0 idx.0 sz
    if sz == 1 then typed byte_t (add Op.load8 (ptr ∷ [])) else typed int (add Op.load (ptr ∷ []))

  abbrev pub element_of : Build Typed → Option Array → Option Global → Build Typed
  element_of build_base (some a) g = of_local a
  element_of build_base none (some g) = of_global_array g
  element_of build_base none none = of_pointer build_base

  unfoldable pub build_index : Option Text → Build Typed → Build Typed
  unfolding new_value lookup find_array is_pointer elem_size
  build_index x build_base c = element_of build_base (local_of x c) (global_of x c) c
