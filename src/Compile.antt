-- ===== src/Compile.antt =====
-- cmd/ccomp/main.go: what the program does between reading the file and writing the assembly.
pub mod Sound
mod Tests
use ccomp.Base.{ℕ, List, map, Option, none, some}
use ccomp.Base.Text.{Text}
use ccomp.Ast.{Decl}
use ccomp.Lexer.Token.{Unicode}
use ccomp.Parser
use ccomp.Parser.Decl.{parse_file}
use ccomp.Ir.{Function}
use ccomp.Ir.Opt.{optimize}
use ccomp.Ir.Phi.{phi_eliminate}
use ccomp.Ir.Build.{BuildError, Module}
use ccomp.Ir.Build.Read.{Order}
use ccomp.Ir.Build.Program.{Program, program, build_error, program_out_of_fuel, build_module}
use ccomp.Codegen.Emit.Module.{Line, emit_module}
use ccomp.Ir.Meaning.{Float64}

-- What `main` prints: the assembly, or an error of one of the phases. `out_of_fuel` has no counterpart.
pub data Output : Type 0 where
  assembly : List Line → Output
  parse_error : Parser.Error → Output
  ir_error : BuildError → Output
  codegen_error out_of_fuel : Output

abbrev pub or_codegen_error : Option (List Line) → Output
or_codegen_error none = Output.codegen_error
or_codegen_error (some ls) = Output.assembly ls

module _ (u : Unicode) (fl : Float64) (parse_float : Text → ℕ) (order : Order) where
  -- The functions are optimised, then their phis are eliminated.
  unfoldable pub lowered : List Function → List Function
  unfolding optimize phi_eliminate
  lowered fs = map phi_eliminate (optimize fl fs)

  unfoldable pub emit_program : Program → Output
  unfolding lowered emit_module
  emit_program (program fs m) = or_codegen_error (emit_module fl (lowered fs) m.str_lits m.globals)
  emit_program (build_error e) = Output.ir_error e
  emit_program program_out_of_fuel = Output.out_of_fuel

  abbrev pub after_parse : Parser.Result (List Decl) → Output
  after_parse (Parser.ok ds p) = emit_program (build_module order ds)
  after_parse (Parser.err e) = Output.parse_error e
  after_parse Parser.out_of_fuel = Output.out_of_fuel

  unfoldable pub compile : Text → Output
  unfolding parse_file build_module emit_program
  compile src = after_parse (parse_file parse_float u src)
