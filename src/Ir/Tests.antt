-- ===== src/Ir/Tests.antt =====
-- internal/ir at concrete functions: what the passes make of them, and the theorems about runs there.
use ccomp.Base.{ℕ, ◌+◌, ◌-◌, ◌≡◌, refl, false, List, [], ◌∷◌, some, get_elem?, ◌==◌, arith}
use ccomp.Base.Int.{ℤ, pos, negsuc}
use ccomp.Base.Text.{codes}
use ccomp.Base.Word
use ccomp.Ir.{Op, Instr, BasicBlock, Function}
use ccomp.Ir.Meaning.{World, Float64, State, step, exec, run, binary}
use ccomp.Ir.Opt.{find_of, const_fold_func, dce_func, optimize}
use ccomp.Ir.Ssa.{defines}
use ccomp.Ir.Opt.FoldBlock.{BlocksSsa, run-const_fold_func}
use ccomp.Ir.Opt.Dce.{JumpsPlain}
use ccomp.Ir.Opt.DceLoop.{IsSwept, run-dce_func, dce_func-IsSwept}
use ccomp.Ir.Opt.Optimize.{run-optimize}

-- Floats are taken for numbers, and every store counts.
abbrev whole : Float64
whole = record {
  fadd = λ a b. a + b;
  fsub = λ a b. a - b;
  fmul = λ a b. a + b;
  fdiv = λ a b. a;
  is_zero = λ a. a == 0;
  to_int = λ a. a;
}

abbrev world : World
world = record {
  Memory = ℕ;
  float = whole;
  argument = λ n. n + 10;
  read = λ from op sym ids vals m. 9;
  act = λ op sym vals m. some (0, m + 1);
}

abbrev instr : ℤ → Op → List ℤ → ℕ → Instr
instr r op as' k = record { res = r; val = record { op = op; args = as'; imm = k; sym = [] } }

abbrev block : List Instr → BasicBlock
block is = record { name = []; instrs = is; sealed = false; preds = []; succs = [] }

-- Two parameters, of which the first is unused; x = 6 * 7; an unused sum; a store of x; then block 1
-- returns x plus the second parameter.
abbrev first : List Instr
first =
    instr (pos 6) Op.param [] 0
    ∷ instr (pos 7) Op.param [] 0
    ∷ instr (pos 0) Op.const [] 6
    ∷ instr (pos 1) Op.const [] 7
    ∷ instr (pos 2) Op.mul (pos 0 ∷ pos 1 ∷ []) 0
    ∷ instr (pos 3) Op.add (pos 2 ∷ pos 2 ∷ []) 0
    ∷ instr (pos 4) Op.store (pos 2 ∷ pos 2 ∷ []) 0
    ∷ instr (negsuc 0) Op.jmp (pos 1 ∷ []) 0
    ∷ []

abbrev last : List Instr
last = instr (pos 8) Op.add (pos 2 ∷ pos 7 ∷ []) 0 ∷ instr (pos 5) Op.ret (pos 8 ∷ []) 0 ∷ []

abbrev sample : Function
sample = record {
  name = codes "f";
  params = [];
  blocks = block first ∷ block last ∷ [];
  entry = some 0;
}

abbrev start : State world
start = record { env = λ id. 0; mem = 0; from = 0; taken = 0 }

-- The unused parameter stays, and so does the constant 7: the jump's target 1 counts as a use of id 1.
optimize-sample :
    optimize whole (sample ∷ [])
    ≡ record sample {
      blocks =
          block (
            instr (pos 6) Op.param [] 0
            ∷ instr (pos 7) Op.param [] 0
            ∷ instr (pos 1) Op.const [] 7
            ∷ instr (pos 2) Op.const [] 42
            ∷ instr (pos 4) Op.store (pos 2 ∷ pos 2 ∷ []) 0
            ∷ instr (negsuc 0) Op.jmp (pos 1 ∷ []) 0
            ∷ [])
          ∷ block last
          ∷ [];
    }
      ∷ []
unfolding optimize find_of Word.mul
optimize-sample = refl

run-sample : run world 2 sample.blocks 0 start ≡ some (53, 1)
unfolding run exec step binary Word.mul Word.add
run-sample = refl

sample-BlocksSsa : BlocksSsa sample.blocks
unfolding defines
sample-BlocksSsa = ground arith

sample-JumpsPlain : JumpsPlain sample.blocks
sample-JumpsPlain = ground arith

run-const_fold_func_example :
    run world 2 (const_fold_func whole sample).blocks 0 start ≡ some (53, 1)
run-const_fold_func_example =
    run-const_fold_func world sample 2 0 start (53, 1) sample-BlocksSsa run-sample

run-dce_func_example : run world 2 (dce_func sample).blocks 0 start ≡ some (53, 1)
run-dce_func_example = run-dce_func world sample 2 0 start (53, 1) sample-JumpsPlain run-sample

dce_func-IsSwept_example : IsSwept (dce_func sample).blocks
dce_func-IsSwept_example = dce_func-IsSwept sample

run-optimize_example :
    (fn' : Function) × (get_elem? (optimize whole (sample ∷ [])) 0 ≡ some fn')
    × (run world 2 fn'.blocks 0 start ≡ some (53, 1))
    × IsSwept fn'.blocks
run-optimize_example =
    run-optimize world (sample ∷ []) 0 sample 2 0 start (53, 1) refl sample-BlocksSsa
      sample-JumpsPlain run-sample
