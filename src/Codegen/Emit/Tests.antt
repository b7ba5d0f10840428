-- ===== src/Codegen/Emit/Tests.antt =====
-- internal/codegen/x86_64/emit.go at concrete instructions and functions.
use ccomp.Base.{
  ◌<◌, ◌↔◌, length, arith, ℕ, zero, suc, if◌then◌else◌, ◌%◌, ◌≡◌, ◌≢◌, refl, false, List, [], ◌∷◌,
  none, some, All,
}
use ccomp.Base.Int.{ℤ, pos, negsuc, ==_ℤ}
use ccomp.Base.Text.{codes}
use ccomp.Base.Word
use ccomp.Ir.{Op, Instr, BasicBlock, Function}
use ccomp.Ir.Meaning.{Float64, World, State, fall, step, binary, write}
use ccomp.Codegen.Reg.{Reg}
use ccomp.Codegen.Ra.{Allocation, live_intervals, allocate_registers}
use ccomp.Codegen.Asm.{Asm, Operand, Machine, read, exec}
use ccomp.Codegen.Emit.{slot_offset, home, const_or_home, is_const, emit_div}
use ccomp.Codegen.Emit.Func.{emit_call, emit_func, param_ids, arg_regs, move_params, frame_size}
use ccomp.Codegen.Emit.Limits.{emit_call-none, emit_func-none}
use ccomp.Codegen.Emit.Ready.{allocate_registers-Apart}
use ccomp.Codegen.Emit.Simulate.{Hosts, is_plain, Elsewhere, Simulates, exec-emit_op}
use ccomp.Codegen.Emit.Alu.{work}
use ccomp.Codegen.Emit.Binary.{Apart}
use ccomp.Codegen.Emit.Div.{exec-emit_div}
use ccomp.Codegen.Emit.Slots.{Clear, Fits, frame_size-Fits}
use ccomp.Codegen.Emit.Homes.{HomesDisjoint, allocate_registers-HomesDisjoint}
use ccomp.Codegen.Ra.Pressure.Live.{LowPressure, live_at}

abbrev float : Float64
float = record {
  fadd = λ a b. 0;
  fsub = λ a b. 0;
  fmul = λ a b. 0;
  fdiv = λ a b. 0;
  is_zero = λ a. false;
  to_int = λ a. 3;
}

abbrev world : World
world = record {
  Memory = Unit;
  float = float;
  argument = λ n. 0;
  read = λ from op sym ids vs mem. 0;
  act = λ op sym vs mem. some (0, tt);
}

abbrev instr : ℤ → Op → List ℤ → ℕ → Instr
instr r op as' k = record { res = r; val = record { op = op; args = as'; imm = k; sym = [] } }

abbrev block : List Instr → BasicBlock
block is = record { name = []; instrs = is; sealed = false; preds = []; succs = [] }

-- f(a, b, c) { return a + b - c; }
abbrev three : Function
three = record {
  name = codes "f";
  params = codes "a" ∷ codes "b" ∷ codes "c" ∷ [];
  blocks =
      block (
        instr (pos 0) Op.param [] 0
        ∷ instr (pos 1) Op.param [] 0
        ∷ instr (pos 2) Op.param [] 0
        ∷ instr (pos 3) Op.add (pos 0 ∷ pos 1 ∷ []) 0
        ∷ instr (pos 4) Op.sub (pos 3 ∷ pos 2 ∷ []) 0
        ∷ instr (pos 5) Op.ret (pos 4 ∷ []) 0
        ∷ [])
      ∷ [];
  entry = some 0;
}

-- The first parameter is moved into %rdx before the third is read from it.
three_params :
    move_params (allocate_registers three) (pos 0 ∷ pos 1 ∷ pos 2 ∷ []) arg_regs
    ≡ some (
        Asm.mov (Operand.reg Reg.rdi) (Operand.reg Reg.rdx)
        ∷ Asm.mov (Operand.reg Reg.rsi) (Operand.reg Reg.r8)
        ∷ Asm.mov (Operand.reg Reg.rdx) (Operand.reg Reg.r9)
        ∷ [])
unfolding move_params allocate_registers
three_params = refl

three_frame : frame_size three ≡ 48
unfolding frame_size
three_frame = refl

frame_size-Fits_example :
    (frame_size three % 16 ≡ 0)
    × All (λ b. All (Fits (frame_size three)) b.instrs) three.blocks
    × Clear (slot_offset (pos 4)) (slot_offset (pos 5))
frame_size-Fits_example = frame_size-Fits three (pos 4) (pos 5) refl

three-LowPressure : LowPressure [] (live_intervals three)
unfolding live_intervals live_at
three-LowPressure = ground arith

allocate_registers-HomesDisjoint_example :
    HomesDisjoint (allocate_registers three) (live_intervals three)
allocate_registers-HomesDisjoint_example = allocate_registers-HomesDisjoint three three-LowPressure

-- v0 in %r8, v1 in its slot, and the result in %r9.
abbrev alloc : Allocation
alloc id = elim id [
  | pos n ↦ elim n [ zero ↦ some Reg.r8 | suc k ↦ elim k [ zero ↦ none | suc j ↦ some Reg.r9 ] ]
  | negsuc n ↦ none
]

abbrev machine : Machine
machine = record { regs = λ r. 50; frame = λ o. 8; compared = (0, 0) }

abbrev state : State world
state = record { env = λ id. if ==_ℤ (pos 0) id then 50 else 8; mem = tt; from = 0; taken = 0 }

abbrev sub : Instr
sub = instr (pos 2) Op.sub (pos 0 ∷ pos 1 ∷ []) 0

sub-Hosts : All (Hosts alloc [] machine state.env) sub.val.args
unfolding home is_const
sub-Hosts = (
  record { at_home = refl; as_const = λ c e. cc e },
  (record { at_home = refl; as_const = λ c e. cc e }, tt),
)

sub-Apart : All (λ a. Apart (work (alloc sub.res)) (const_or_home alloc [] a)) sub.val.args
unfolding const_or_home
sub-Apart = (
  record { dest_apart = refl; rax_apart = refl; rcx_apart = refl },
  (record { dest_apart = refl; rax_apart = refl; rcx_apart = refl }, tt),
)

sub-step : step world sub state ≡ some (fall (write world (pos 2) 42 state))
unfolding step binary Word.sub
sub-step = refl

pos_one-Elsewhere : Elsewhere alloc (pos 2) (pos 1)
unfolding home
pos_one-Elsewhere = record { other = refl; dest = refl; not_rax = refl; not_rcx = refl }

exec-emit_op_example :
    Simulates world alloc [] 32 [] sub (write world (pos 2) 42 state) machine (pos 1)
unfolding is_plain home
exec-emit_op_example =
    exec-emit_op world alloc [] 32 [] sub state (write world (pos 2) 42 state) machine (pos 1) refl
      sub-Hosts sub-Apart sub-step pos_one-Elsewhere refl

exec-emit_div_example :
    (n : Machine) × (exec (emit_div alloc [] (pos 2) (pos 0) (pos 1)) machine ≡ some n)
    × (read (home alloc (pos 2)) n
        ≡ Word.sdiv
            (read (home alloc (pos 0)) machine)
            (read (const_or_home alloc [] (pos 1)) machine))
    × (read (Operand.reg Reg.r8) n ≡ read (Operand.reg Reg.r8) machine)
unfolding const_or_home home Word.div_defined
exec-emit_div_example =
    exec-emit_div alloc [] (pos 2) (pos 0) (pos 1) machine (Operand.reg Reg.r8) refl refl refl refl
      refl refl

abbrev seven : List ℤ
seven = pos 0 ∷ pos 1 ∷ pos 2 ∷ pos 3 ∷ pos 4 ∷ pos 5 ∷ pos 6 ∷ []

emit_call-none_example : (emit_call alloc [] (pos 7) (codes "g") seven ≡ none) ↔ (6 < length seven)
emit_call-none_example = emit_call-none alloc [] (pos 7) (codes "g") seven

abbrev params_of : List ℤ → List Instr
params_of [] = []
params_of (p ∷ ps) = instr p Op.param [] 0 ∷ params_of ps

abbrev many : Function
many = record {
  name = codes "g";
  params = [];
  blocks = block (params_of seven) ∷ [];
  entry = some 0;
}

emit_func-none_example : emit_func float many ≡ none
unfolding param_ids
emit_func-none_example = emit_func-none float many (block (params_of seven)) refl (omega arith)

four_two_apart :
    (r : Reg)
    → allocate_registers three (pos 4) ≡ some r
    → allocate_registers three (pos 2) ≢ some r
unfolding allocate_registers
four_two_apart r e f = cc

allocate_registers-Apart_example :
    Apart
      (work (allocate_registers three (pos 4)))
      (const_or_home (allocate_registers three) [] (pos 2))
allocate_registers-Apart_example = allocate_registers-Apart three [] (pos 4) (pos 2) four_two_apart
