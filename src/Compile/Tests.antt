-- ===== src/Compile/Tests.antt =====
-- cmd/ccomp/main.go: a program compiled.
use ccomp.Base.{
  ◌+◌, ◌-◌, ◌==◌, ◌≡◌, refl, Bool, true, false, ◌||◌, any, All, List, [], ◌∷◌, none, some,
  get_elem?, length, arith,
}
use ccomp.Base.Text.{Text, codes}
use ccomp.Ast.{Decl}
use ccomp.Lexer.Next.{next}
use ccomp.Lexer.{start}
use ccomp.Lexer.Token.{Unicode, ascii_letter, ascii_digit}
use ccomp.Ir.{Instr, BasicBlock, Function}
use ccomp.Ir.Opt.{find_of}
use ccomp.Ir.Meaning.{Float64, World, State, run, exec, step, binary}
use ccomp.Ir.Build.{Module}
use ccomp.Parser
use ccomp.Parser.{Parser}
use ccomp.Parser.Decl.{parser_at, parse_file}
use ccomp.Codegen.Emit.Module.{Line}
use ccomp.Compile.{Output, assembly, compile}
use ccomp.Base.Word
use ccomp.Ir.Ssa.{defines, is_jump}
use ccomp.Ir.Opt.Dce.{IsPlain, JumpsPlain}
use ccomp.Ir.Opt.DceLoop.{IsSwept}
use ccomp.Ir.Opt.FoldBlock.{BlocksSsa}
use ccomp.Ir.Phi.{phi_eliminate}
use ccomp.Ir.Build.Program.{Program, program, build_module, new_module}
use ccomp.Codegen.Emit.Module.{emit_module}
use ccomp.Compile.Sound.{compile-run}

abbrev ascii : Unicode
ascii = record {
  is_letter = ascii_letter;
  is_digit = ascii_digit;
  letter_ascii = λ c h. refl;
  digit_ascii = λ c h. refl;
}

-- Functions on bit patterns in place of the arithmetic of float64, which the program does not use.
abbrev float : Float64
float = record {
  fadd = λ a b. a + b;
  fsub = λ a b. a - b;
  fmul = λ a b. a + b;
  fdiv = λ a b. a;
  is_zero = λ a. a == 0;
  to_int = λ a. a;
}

abbrev source : Text
source = codes "int f(int n){while(n){n=n-1;}return n;}"

abbrev output : Output
output = compile ascii float (λ _. 0) (λ ps. ps) source

abbrev lines_of : Output → List Line
lines_of (assembly ls) = ls
lines_of _ = []

compiled : output ≡ assembly (lines_of output)
unfolding compile next start find_of
compiled = refl

-- A function that needs its second argument, and reads no local variable twice.
abbrev short : Text
short = codes "int f(int a,int b){int c=6*7;return c-b;}"

abbrev short_parsed : Parser.Result (List Decl)
short_parsed = parse_file (λ _. 0) ascii short

abbrev decls_of : Parser.Result (List Decl) → List Decl
decls_of (Parser.ok ds p) = ds
decls_of _ = []

-- The parser at the end.
abbrev parser_of : Parser.Result (List Decl) → Parser
parser_of (Parser.ok ds p) = p
parser_of _ = parser_at []

abbrev short_built : Program
short_built = build_module (λ ps. ps) (decls_of short_parsed)

abbrev functions_of : Program → List Function
functions_of (program fs m) = fs
functions_of _ = []

abbrev module_of : Program → Module
module_of (program fs m) = m
module_of _ = new_module

abbrev function_of : List Function → Function
function_of [] = record { name = []; params = []; blocks = []; entry = none }
function_of (f ∷ fs) = f

abbrev short_function : Function
short_function = function_of (functions_of short_built)

abbrev short_lines : List Line
short_lines = lines_of (compile ascii float (λ _. 0) (λ ps. ps) short)

-- The arguments are 10 and 11; nothing else is read.
abbrev world : World
world = record {
  Memory = Unit;
  float = float;
  argument = λ n. n + 10;
  read = λ from op sym ids vs mem. 0;
  act = λ op sym vs mem. none;
}

abbrev entry_state : State world
entry_state = record { env = λ id. 0; mem = tt; from = 0; taken = 0 }

short_compiled : compile ascii float (λ _. 0) (λ ps. ps) short ≡ assembly short_lines
unfolding compile next start find_of
short_compiled = refl

abbrev is_ok : Parser.Result (List Decl) → Bool
is_ok (Parser.ok ds p) = true
is_ok _ = false

read_back :
    (r : Parser.Result (List Decl)) → is_ok r ≡ true → r ≡ Parser.ok (decls_of r) (parser_of r)
read_back (Parser.ok ds p) h = refl
read_back (Parser.err e) h = cc
read_back Parser.out_of_fuel h = cc

short_is_ok : is_ok short_parsed ≡ true
unfolding parse_file next start
short_is_ok = refl

short_read : short_parsed ≡ Parser.ok (decls_of short_parsed) (parser_of short_parsed)
short_read = read_back short_parsed short_is_ok

short_program : short_built ≡ program (functions_of short_built) (module_of short_built)
unfolding build_module parse_file next start
short_program = refl

short_found : get_elem? (functions_of short_built) 0 ≡ some short_function
unfolding build_module parse_file next start
short_found = refl

short-BlocksSsa : BlocksSsa short_function.blocks
unfolding build_module parse_file next start defines
short-BlocksSsa = ground arith

no_jumps-IsPlain : (is : List Instr) → any (λ i. is_jump i.val.op) is ≡ false → All IsPlain is
no_jumps-IsPlain [] h = tt
no_jumps-IsPlain (i ∷ is) h =
    (λ t. elim (jump_apart (is_jump i.val.op) _ h t) [ ], no_jumps-IsPlain is (ground (arith, h)))
  where
    jump_apart : (a b : Bool) → (a || b) ≡ false → a ≡ true → ⊥
    jump_apart a b h t = ground (arith, h, t)

no_jumps-JumpsPlain :
    (bs : List BasicBlock)
    → any (λ b. any (λ i. is_jump i.val.op) b.instrs) bs ≡ false
    → JumpsPlain bs
no_jumps-JumpsPlain [] h = tt
no_jumps-JumpsPlain (b ∷ bs) h =
    (no_jumps-IsPlain b.instrs (ground (arith, h)), no_jumps-JumpsPlain bs (ground (arith, h)))

short-JumpsPlain : JumpsPlain short_function.blocks
unfolding build_module parse_file next start
short-JumpsPlain = no_jumps-JumpsPlain short_function.blocks refl

-- 6 * 7 - 11.
short_run : run world 1 short_function.blocks 0 entry_state ≡ some (31, tt)
unfolding build_module parse_file next start run exec step binary Word.mul Word.sub
short_run = refl

compile-run_example :
    (g : Function) × (run world 1 g.blocks 0 entry_state ≡ some (31, tt))
    × IsSwept g.blocks
    × ((hs : List Function) × (length hs ≡ length (functions_of short_built))
        × (get_elem? hs 0 ≡ some (phi_eliminate g))
        × (emit_module float hs (module_of short_built).str_lits (module_of short_built).globals
            ≡ some short_lines))
compile-run_example =
    compile-run ascii world (λ _. 0) (λ ps. ps) short short_lines (decls_of short_parsed)
      (parser_of short_parsed) (functions_of short_built) (module_of short_built) 0 short_function 1
      0 entry_state (31, tt) short_compiled short_read short_program short_found short-BlocksSsa
      short-JumpsPlain short_run
