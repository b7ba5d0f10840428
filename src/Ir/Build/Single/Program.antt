-- ===== src/Ir/Build/Single/Program.antt =====
-- internal/ir/ir.go, BuildModule: the functions that it returns are in single assignment.
use ccomp.Base.{ℕ, ◌≤◌, ◌≡◌, subst, List, [], ◌∷◌, ◌++◌, All, arith}
use ccomp.Base.Text.{Text}
use ccomp.Ast
use ccomp.Ast.{
  Decl, Param, BasicType, func_decl, global_decl, global_array_decl, struct_decl, enum_decl,
  typedef_decl,
}
use ccomp.Ir.{Function}
use ccomp.Ir.Build.{Ctx, Built, built, error, out_of_fuel, Module}
use ccomp.Ir.Build.Read.{Order}
use ccomp.Ir.Build.Program.{
  Program, program, build_error, program_out_of_fuel, add_function, start_function, init_params,
  param_types, build_function, build_funcs, collect_all, new_module, build_module,
}
use ccomp.Ir.Build.Single.Rules.{keeps_rules}
use ccomp.Ir.Build.Single.Stmt.{build_stmts-Keeps}
use ccomp.Ir.Build.Single.{all_results, Single, Sound, Keeps, run}

-- No value is the result of two instructions of the function.
abbrev pub SingleAssignment : Function → Type 0
SingleAssignment f = (k : ℕ) → all_results k f.blocks ≤ 1

Single-SingleAssignment : (c : Ctx) → Single c → SingleAssignment c.f
unfolding Single
Single-SingleAssignment c h k = ground (arith, h k)

start_function-Single :
    (name : Text) (ps : List Param) (ret : BasicType) (m : Module)
    → Single (start_function name ps ret m)
unfolding start_function Single all_results
start_function-Single name ps ret m k = omega arith

init_params-Keeps : (ps : List Param) → Keeps (init_params ps)
unfolding init_params
init_params-Keeps [] = search keeps_rules
init_params-Keeps (p ∷ ps) = search (keeps_rules, init_params-Keeps ps)

param_types-Keeps : (ps : List Param) → Keeps (param_types ps)
unfolding param_types
param_types-Keeps [] = search keeps_rules
param_types-Keeps (p ∷ ps) = search (keeps_rules, param_types-Keeps ps)

module _ (order : Order) where
  build_function-Keeps : (ps : List Param) (body : Ast.Stmts) → Keeps (build_function order ps body)
  unfolding build_function
  build_function-Keeps ps body =
      search (keeps_rules, init_params-Keeps, param_types-Keeps, build_stmts-Keeps)

  -- What comes back is in single assignment, if all that was built before is.
  abbrev AllSingle : Program → Type 0
  AllSingle (program fs m) = All SingleAssignment fs
  AllSingle (build_error e) = Unit
  AllSingle program_out_of_fuel = Unit

  All-append :
      (fs : List Function) (f : Function)
      → All SingleAssignment fs
      → SingleAssignment f
      → All SingleAssignment (fs ++ f ∷ [])
  All-append [] f h k = (k, tt)
  All-append (g ∷ fs) f h k = (h.0, All-append fs f h.1 k)

  add_function-AllSingle :
      (r : Built (Unit {0})) (k : Function → Module → Program)
      → Sound r
      → ((f : Function) (m : Module) → SingleAssignment f → AllSingle (k f m))
      → AllSingle (add_function r k)
  add_function-AllSingle (built x c) k h g = g c.f c.m (Single-SingleAssignment c h)
  add_function-AllSingle (error e) k h g = tt
  add_function-AllSingle out_of_fuel k h g = tt

  build_funcs-AllSingle :
      (ds : List Decl) (m : Module) (fs : List Function)
      → All SingleAssignment fs
      → AllSingle (build_funcs order ds m fs)
  unfolding build_funcs
  build_funcs-AllSingle [] m fs h = h
  build_funcs-AllSingle (func_decl name ps body ret ∷ ds) m fs h =
      add_function-AllSingle _ (λ f m'. build_funcs order ds m' (fs ++ f ∷ []))
        (run (build_function-Keeps ps body) (start_function name ps ret m)
          (start_function-Single name ps ret m))
        λ f m' k. build_funcs-AllSingle ds m' (fs ++ f ∷ []) (All-append fs f h k)
  build_funcs-AllSingle (global_decl name init bt ptr ∷ ds) m fs h = build_funcs-AllSingle ds m fs h
  build_funcs-AllSingle (global_array_decl name n bt ∷ ds) m fs h = build_funcs-AllSingle ds m fs h
  build_funcs-AllSingle (struct_decl name xs ∷ ds) m fs h = build_funcs-AllSingle ds m fs h
  build_funcs-AllSingle (enum_decl name vs ∷ ds) m fs h = build_funcs-AllSingle ds m fs h
  build_funcs-AllSingle (typedef_decl name bt ptr ∷ ds) m fs h = build_funcs-AllSingle ds m fs h

  -- In each function that the builder returns for a file, no value is the result of two
  -- instructions, whatever the order in which the phis of a block are filled.
  pub build_module-SingleAssignment :
      (ds : List Decl) (fs : List Function) (m : Module)
      → build_module order ds ≡ program fs m
      → All SingleAssignment fs
  unfolding build_module
  build_module-SingleAssignment ds fs m e =
      subst AllSingle e (build_funcs-AllSingle ds (collect_all ds new_module) [] tt)
