-- ===== src/Ir/Build/Simple.antt =====
-- internal/ir/ir.go, buildBlock: the statements without a block.
use ccomp.Base.{
  ℕ, zero, suc, Bool, true, false, not, List, [], ◌∷◌, Option, none, some, ◌==◌, if◌then◌else◌,
}
use ccomp.Base.Int.{ℤ, pos, negsuc}
use ccomp.Base.Text.{Text}
use ccomp.Types.{CType, int, byte_t, pointer_to, size, is_pointer, from_basic_type}
use ccomp.Ast.{BasicType, basic_number, bt_int, bt_char, bt_double, Pos}
use ccomp.Ir.{Op, Global}
use ccomp.Ir.Build.{
  lookup, StructDef, Array, BuildError, Build, ◌>>=◌, ◌>>◌, pure, fail, get, modify, new_value, add,
  iconst, global_addr, jump, write_here, set_type,
}
use ccomp.Ir.Build.Read.{read_var, read_here}
use ccomp.Ir.Build.Element.{element_at, find_struct_field, field_addr}
use ccomp.Ir.Build.Operand.{Typed, find_global, find_array}

abbrev pub store_op : ℕ → Op
store_op n = if n == 1 then Op.store8 else Op.store

abbrev pub store : ℕ → ℕ → ℕ → Build (Unit {0})
store n addr v = do add (store_op n) (addr ∷ v ∷ []); pure tt

-- The type of a declaration with no initial value.
abbrev pub simple_type : BasicType → CType
simple_type bt_char = byte_t
simple_type bt_int = int
simple_type bt_double = int

unfoldable pub declared : BasicType → Bool → CType
unfolding pointer_to
declared bt ptr = if ptr then pointer_to (simple_type bt) else simple_type bt

abbrev pub typedef_type : Text → Bool → Option CType → Build CType
typedef_type name ptr none = fail (BuildError.unknown_typedef name)
typedef_type name ptr (some t) = pure (if ptr then pointer_to t else t)

abbrev pub decl_type : BasicType → Bool → Text → Build CType
decl_type bt ptr [] = pure (declared bt ptr)
decl_type bt ptr (x ∷ xs) = λ c. typedef_type (x ∷ xs) ptr (lookup (x ∷ xs) c.m.typedefs) c

abbrev pub has {ℓ} : {V : Type ℓ} → Option V → Bool
has none = false
has (some v) = true

-- The slots of an array: `size` zeros, of which the first is the base.
unfoldable pub slots : ℕ → Build ℤ
unfolding new_value
slots zero = pure (negsuc 0)
slots (suc n) = do id ← iconst 0; slots n; pure (pos id)

abbrev pub define_array : Text → Array → Build (Unit {0})
define_array name a = modify (λ c. record c { arrays = (name, a) ∷ c.arrays })

unfoldable pub build_array_decl : Text → ℕ → BasicType → Build (Unit {0})
unfolding slots from_basic_type size
build_array_decl name n elem = do
  base ← slots n
  define_array name (record {
    base = base;
    size = n;
    elem_size = size (from_basic_type (basic_number elem) false);
  })

unfoldable pub build_return : Build Typed → Pos → Build (Unit {0})
unfolding new_value is_pointer
build_return m at = do
  v ← m
  c ← get
  if is_pointer v.1
      then fail (BuildError.pointer_returned (c.f.name) at)
      else (do add Op.ret (v.0 ∷ []); pure tt)

abbrev pub write_typed : Text → Typed → Build (Unit {0})
write_typed name v = do write_here name v.0; set_type name v.1

unfoldable pub build_decl : Text → BasicType → Bool → Text → Build (Unit {0})
unfolding new_value lookup declared pointer_to
build_decl name bt ptr typedef_name = do
  z ← iconst 0
  write_here name z
  t ← decl_type bt ptr typedef_name
  set_type name t

-- A value of a pointer type goes to a variable of one, and no other value does.
abbrev pub assignable : Option CType → CType → Bool
assignable none t = true
assignable (some vt) t = if is_pointer vt then is_pointer t else not (is_pointer t)

abbrev pub assign_checked : Text → Pos → Typed → Option CType → Build (Unit {0})
assign_checked name at v none = write_typed name v
assign_checked name at v (some vt) = do
  c ← get
  if assignable (some vt) v.1
      then write_typed name v
      else fail (BuildError.bad_assign (c.f.name) at v.1 vt)

abbrev pub assign_local : Text → Pos → Build Typed → Build (Unit {0})
assign_local name at m = do v ← m; c ← get; assign_checked name at v (lookup name c.var_types)

abbrev pub assign_global : Global → Build Typed → Build (Unit {0})
assign_global g m = do v ← m; addr ← global_addr (g.name); store g.elem_size addr v.0

abbrev pub assign_to : Text → Pos → Build Typed → Option Global → Bool → Build (Unit {0})
assign_to name at m (some g) false = assign_global g m
assign_to name at m _ _ = assign_local name at m

unfoldable pub build_assign : Text → Pos → Build Typed → Build (Unit {0})
unfolding new_value lookup find_global is_pointer
build_assign name at m c =
    assign_to name at m (find_global name c.m.globals) (has (lookup name c.var_types)) c

-- The index is built before the value; a global array is stored to in words of 8 bytes.
abbrev pub store_element : ℕ → ℕ → Build Typed → Build Typed → Build (Unit {0})
store_element base sz build_idx build_val = do
  idx ← build_idx
  ptr ← element_at base idx.0 sz
  v ← build_val
  store sz ptr v.0

abbrev pub assign_array :
    Text → Build Typed → Build Typed → Option Array → Option Global → Build (Unit {0})
assign_array name bi bv (some a) g = do
  base ← new_value Op.slot_addr (a.base ∷ []) 0 []
  store_element base a.elem_size bi bv
assign_array name bi bv none (some g) = do base ← global_addr (g.name); store_element base 8 bi bv
assign_array name bi bv none none = fail (BuildError.unknown_array name)

unfoldable pub build_array_assign : Text → Build Typed → Build Typed → Build (Unit {0})
unfolding new_value lookup find_array
build_array_assign name bi bv c =
    assign_array name bi bv (lookup name c.arrays) (find_array name c.m.globals) c

unfoldable pub build_field_assign : Text → Text → Build Typed → Build (Unit {0})
unfolding find_struct_field read_var new_value size
build_field_assign base name build_val = do
  f ← find_struct_field base name
  b ← read_here base
  v ← build_val
  addr ← field_addr b f.offset
  store (size f.type) addr v.0

abbrev pub struct_slot : Text → Text → Option StructDef → Build (Unit {0})
struct_slot name sname none = fail (BuildError.unknown_struct sname)
struct_slot name sname (some d) = do
  base ← iconst 0
  addr ← add Op.slot_addr (base ∷ [])
  write_here name addr
  modify (λ c. record c { struct_vars = (name, sname) ∷ c.struct_vars })
  set_type name (pointer_to int)

unfoldable pub build_struct_var : Text → Text → Build (Unit {0})
unfolding new_value lookup pointer_to
build_struct_var name sname c = struct_slot name sname (lookup sname c.m.struct_defs) c

-- A jump to the innermost target.
abbrev pub jump_out : BuildError → List ℕ → Build (Unit {0})
jump_out e [] = fail e
jump_out e (t ∷ ts) = jump t

abbrev pub push_targets : ℕ → ℕ → Build (Unit {0})
push_targets brk cont =
    modify
      λ c. record c { break_targets = brk ∷ c.break_targets; cont_targets = cont ∷ c.cont_targets }

abbrev pub pop : List ℕ → List ℕ
pop [] = []
pop (t ∷ ts) = ts

abbrev pub pop_targets : Build (Unit {0})
pop_targets =
    modify λ c. record c { break_targets = pop c.break_targets; cont_targets = pop c.cont_targets }
