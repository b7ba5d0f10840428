-- ===== src/Ir/Build/Program.antt =====
-- internal/ir/ir.go, BuildModule: the declarations of a file, and the functions one after another.
use ccomp.Base.{ℕ, ◌+◌, Bool, true, false, List, [], ◌∷◌, ◌++◌, map, Option, none, some}
use ccomp.Base.Text.{Text, codes}
use ccomp.Types.{CType, int, byte_t, size, from_basic_type}
use ccomp.Ast.{
  Decl, Param, BasicType, basic_number, bt_char, func_decl, global_decl, global_array_decl,
  struct_decl, enum_decl, typedef_decl, EnumValue,
}
use ccomp.Ast
use ccomp.Ir.{Op, Function}
use ccomp.Ir.Build.{
  NameMap, StructField, StructDef, Module, Ctx, BuildError, Built, Build, built, error, out_of_fuel,
  ◌>>=◌, ◌>>◌, pure, new_value, write_here, fresh_block, set_type,
}
use ccomp.Ir.Build.Read.{Order}
use ccomp.Ir.Build.Stmt.{build_stmts}
use ccomp.Ir.Build.Simple.{declared}

-- `ty.FromBasicType(int(bt), ptr)`.
abbrev pub basic_type : BasicType → Bool → CType
basic_type bt ptr = from_basic_type (basic_number bt) ptr

-- The fields of a struct one behind another, from an offset, and the size.
unfoldable pub layout : ℕ → List Ast.StructField → List StructField × ℕ
unfolding from_basic_type size
layout offset [] = ([], offset)
layout offset (f ∷ fs) =
    let t = basic_type f.typ f.ptr in
    let (rest, end) = layout (offset + size t) fs in
    (record { name = f.name; type = t; offset = offset } ∷ rest, end)

abbrev pub struct_of : List Ast.StructField → StructDef
struct_of fs = let (fields, size) = layout 0 fs in record { fields = fields; size = size }

abbrev pub init_value : Option ℕ → ℕ
init_value none = 0
init_value (some v) = v

abbrev pub add_enum : List EnumValue → NameMap ℕ → NameMap ℕ
add_enum [] m = m
add_enum (v ∷ vs) m = add_enum vs ((v.name, v.value) ∷ m)

-- The first pass: all that is not a function.
unfoldable pub collect_decl : Decl → Module → Module
unfolding layout from_basic_type size
collect_decl (func_decl name ps body ret) m = m
collect_decl (global_decl name init bt ptr) m = record m {
  globals =
      m.globals
      ++ record {
        name = name;
        init = init_value init;
        array = false;
        length = 0;
        elem_size = size (basic_type bt ptr);
      }
        ∷ [];
}
collect_decl (global_array_decl name n bt) m = record m {
  globals =
      m.globals
      ++ record {
        name = name;
        init = 0;
        array = true;
        length = n;
        elem_size = size (basic_type bt false);
      }
        ∷ [];
}
collect_decl (struct_decl name fs) m = record m {
  struct_defs = (name, struct_of fs) ∷ m.struct_defs;
}
collect_decl (enum_decl name vs) m = record m { enum_constants = add_enum vs m.enum_constants }
collect_decl (typedef_decl name bt ptr) m = record m {
  typedefs = (name, basic_type bt ptr) ∷ m.typedefs;
}

unfoldable pub collect_all : List Decl → Module → Module
unfolding collect_decl
collect_all [] m = m
collect_all (d ∷ ds) m = collect_all ds (collect_decl d m)

-- `NewModule`, but for the name.
abbrev pub new_module : Module
new_module = record {
  globals = [];
  str_lits = [];
  enum_constants = [];
  struct_defs = [];
  typedefs = [];
}

abbrev pub param_names : List Param → List Text
param_names ps = map (λ p. p.name) ps

-- A function with its block `entry`, and the empty maps of `initParams`.
unfoldable pub start_function : Text → List Param → BasicType → Module → Ctx
start_function name ps ret m = record {
  f = record { name = name; params = param_names ps; blocks = []; entry = some 0 };
  b = 0;
  next_id = 0;
  cur_def = [];
  pending = [];
  break_targets = [];
  cont_targets = [];
  m = m;
  arrays = [];
  var_types = [];
  str_labels = [];
  struct_vars = [];
  ret_type = ret_of ret;
}
  where
    ret_of : BasicType → CType
    ret_of bt_char = byte_t
    ret_of _ = int

-- A parameter is a value and the first definition of its name.
unfoldable pub init_params : List Param → Build (Unit {0})
unfolding new_value
init_params [] = pure tt
init_params (p ∷ ps) = do
  id ← new_value Op.param [] 0 []
  write_here p.name id
  set_type p.name int
  init_params ps

abbrev pub param_type : Param → CType
param_type p = declared p.typ p.ptr

unfoldable pub param_types : List Param → Build (Unit {0})
unfolding declared
param_types [] = pure tt
param_types (p ∷ ps) = do set_type p.name (param_type p); param_types ps

-- What `BuildModule` returns: the functions and the rest of the module, or an error.
pub data Program : Type 0 where
  program : List Function → Module → Program
  build_error : BuildError → Program
  program_out_of_fuel : Program

abbrev pub add_function : Built (Unit {0}) → (Function → Module → Program) → Program
add_function (built _ c) k = k c.f c.m
add_function (error e) k = build_error e
add_function out_of_fuel k = program_out_of_fuel

module _ (order : Order) where
  unfoldable pub build_function : List Param → Ast.Stmts → Build (Unit {0})
  unfolding fresh_block init_params param_types build_stmts
  build_function ps body = do
    fresh_block (codes "entry")
    init_params ps
    param_types ps
    build_stmts order body

  -- The second pass: the functions, in the order of the file.
  unfoldable pub build_funcs : List Decl → Module → List Function → Program
  unfolding start_function build_function
  build_funcs [] m fs = program fs m
  build_funcs (func_decl name ps body ret ∷ ds) m fs =
      add_function (build_function ps body (start_function name ps ret m))
        (λ f m'. build_funcs ds m' (fs ++ f ∷ []))
  build_funcs (global_decl name init bt ptr ∷ ds) m fs = build_funcs ds m fs
  build_funcs (global_array_decl name n bt ∷ ds) m fs = build_funcs ds m fs
  build_funcs (struct_decl name xs ∷ ds) m fs = build_funcs ds m fs
  build_funcs (enum_decl name vs ∷ ds) m fs = build_funcs ds m fs
  build_funcs (typedef_decl name bt ptr ∷ ds) m fs = build_funcs ds m fs

  unfoldable pub build_module : List Decl → Program
  unfolding collect_all build_funcs
  build_module ds = build_funcs ds (collect_all ds new_module) []
