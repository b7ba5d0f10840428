-- ===== src/Codegen/Emit/Module.antt =====
-- internal/codegen/x86_64/emit.go, EmitModule: the functions, the string literals and the globals.
use ccomp.Base.{ℕ, ◌*◌, ◌%◌, List, [], ◌∷◌, ◌++◌, map, Option, some, ◌==◌, if◌then◌else◌}
use ccomp.Base.Text.{Text}
use ccomp.Ir.{Function, Global, StrLit}
use ccomp.Ir.Meaning.{Float64, ◌>>=◌}
use ccomp.Codegen.Asm.{Asm}
use ccomp.Codegen.Emit.Func.{emit_func}

-- A line of the output: of the code, or a directive.
pub data Line : Type 0 where
  text rodata data_section : Line
  code : Asm → Line
  name : Text → Line
  asciz : Text → Line
  zero_bytes byte quad : ℕ → Line

abbrev pub str_lit_lines : List StrLit → List Line
str_lit_lines [] = []
str_lit_lines (s ∷ ss) = Line.name s.name ∷ Line.asciz s.bytes ∷ str_lit_lines ss

-- How many bytes an element takes: 8 where the size is not set.
abbrev pub elem_bytes : Global → ℕ
elem_bytes g = if g.elem_size == 0 then 8 else g.elem_size

abbrev pub global_value : Global → Line
global_value g =
    if g.array
    then Line.zero_bytes (g.length * elem_bytes g)
    else if g.elem_size == 1
    then Line.byte (g.init % 256)
    else Line.quad g.init

abbrev pub global_lines : List Global → List Line
global_lines [] = []
global_lines (g ∷ gs) =
    Line.code (Asm.globl g.name) ∷ Line.name g.name ∷ global_value g ∷ global_lines gs

unfoldable pub emit_funcs : Float64 → List Function → Option (List Line)
unfolding emit_func
emit_funcs fl [] = some []
emit_funcs fl (f ∷ fs) = do c ← emit_func fl f; cs ← emit_funcs fl fs; some (map Line.code c ++ cs)

-- A section is there only if it has something in it.
abbrev pub section : Line → List Line → List Line
section l [] = []
section l (x ∷ xs) = l ∷ x ∷ xs

unfoldable pub emit_module :
    Float64 → List Function → List StrLit → List Global → Option (List Line)
unfolding emit_funcs
emit_module fl fs ss gs = do
  c ← emit_funcs fl fs
  some (
      Line.text ∷ c
      ++ section Line.rodata (str_lit_lines ss)
      ++ section Line.data_section (global_lines gs))
