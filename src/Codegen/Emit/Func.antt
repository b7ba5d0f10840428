-- ===== src/Codegen/Emit/Func.antt =====
-- internal/codegen/x86_64/emit.go, emitFunc: the frame, the parameters, and the instructions one by
-- one.
use ccomp.Base.{
  ℕ, ◌+◌, ◌*◌, List, [], ◌∷◌, ◌++◌, Option, none, some, ltb, ◌==◌, if◌then◌else◌, get_elem?,
}
use ccomp.Base.Int.{ℤ, pos, negsuc, is_negative}
use ccomp.Base.Text.{Text}
use ccomp.Ir.{Op, op_eq, Instr, BasicBlock, Function}
use ccomp.Ir.Meaning.{Float64, ◌>>=◌}
use ccomp.Codegen.Reg.{Reg}
use ccomp.Codegen.Ra.{Allocation, allocate_registers}
use ccomp.Codegen.Asm.{Asm, AluOp, Cond, Operand}
use ccomp.Codegen.Emit.{
  slot_offset, align, find_instr, home, const_or_home, reg_or_const, emit_alu, emit_shift,
  emit_bitwise_not, emit_logical_not, emit_compare, emit_div, emit_move, emit_load, emit_store,
  emit_lea, emit_addr, finish,
}

abbrev pub arg_regs : List Reg
arg_regs = Reg.rdi ∷ Reg.rsi ∷ Reg.rdx ∷ Reg.rcx ∷ Reg.r8 ∷ Reg.r9 ∷ []

-- The first argument, and the first two.
abbrev pub with_one : List ℤ → (ℤ → Option (List Asm)) → Option (List Asm)
with_one [] f = none
with_one (x ∷ xs) f = f x

abbrev pub with_two : List ℤ → (ℤ → ℤ → List Asm) → Option (List Asm)
with_two (x ∷ y ∷ xs) f = some (f x y)
with_two _ f = none

-- The moves into the argument registers: none where there are more than six.
unfoldable pub move_args : (ℤ → Operand) → List ℤ → List Reg → Option (List Asm)
move_args from [] rs = some []
move_args from (a ∷ as') [] = none
move_args from (a ∷ as') (r ∷ rs) = do
  rest ← move_args from as' rs
  some (Asm.mov (from a) (Operand.reg r) ∷ rest)

unfoldable pub emit_call : Allocation → List Instr → ℤ → Text → List ℤ → Option (List Asm)
unfolding move_args const_or_home finish
emit_call alloc b res sym args = do
  moves ← move_args (const_or_home alloc b) args arg_regs
  some (
      moves
      ++ Asm.sub_rsp 8
        ∷ Asm.call sym
        ∷ Asm.add_rsp 8
        ∷ (if is_negative res then [] else finish alloc res))

abbrev pub free_frame : ℕ → List Asm
free_frame size = if ltb 0 size then Asm.add_rsp size ∷ [] else []

-- A jump to a block's label, where the block is there.
abbrev pub to_label : (Text → Asm) → Option BasicBlock → List Asm
to_label op none = []
to_label op (some b) = op b.name ∷ []

abbrev pub emit_jump : List BasicBlock → (Text → Asm) → ℤ → List Asm
emit_jump bs op (pos t) = to_label op (get_elem? bs t)
emit_jump bs op (negsuc t) = []

abbrev pub test_zero : Operand → Asm
test_zero (Operand.reg r) = Asm.test r r
test_zero o = Asm.cmp (Operand.imm 0) o

unfoldable pub emit_branch : Allocation → List BasicBlock → List ℤ → Option (List Asm)
unfolding home
emit_branch alloc bs (c ∷ t ∷ f ∷ as') =
    some (test_zero (home alloc c) ∷ emit_jump bs Asm.jne t ++ emit_jump bs Asm.jmp f)
emit_branch alloc bs _ = none

-- Only a constant float is turned into an integer, when the code is emitted.
abbrev pub emit_f2i : Float64 → Allocation → ℤ → Option Instr → Option (List Asm)
emit_f2i fl alloc res none = none
emit_f2i fl alloc res (some i) =
    if op_eq i.val.op Op.fconst
    then some (emit_move alloc res (Operand.imm (fl.to_int i.val.imm)))
    else none

unfoldable pub emit_ret : Allocation → ℕ → ℤ → List Asm
unfolding home
emit_ret alloc size id =
    Asm.mov (home alloc id) (Operand.reg Reg.rax) ∷ free_frame size ++ Asm.pop_rbp ∷ Asm.ret ∷ []

module _ (fl : Float64) (alloc : Allocation) (bs : List BasicBlock) (size : ℕ)
    (b : List Instr) where
  abbrev alu_of : AluOp → Instr → Option (List Asm)
  alu_of op i = with_two i.val.args (emit_alu alloc b op i.res)

  abbrev compare_of : Cond → Instr → Option (List Asm)
  compare_of c i = with_two i.val.args (emit_compare alloc b c i.res)

  -- The switch of `emitFunc`.
  unfoldable pub emit_op : Op → Instr → Option (List Asm)
  unfolding emit_alu emit_shift emit_bitwise_not emit_logical_not emit_compare emit_div emit_move
      emit_load emit_store emit_lea emit_addr emit_call emit_branch emit_ret find_instr reg_or_const
  emit_op Op.const i = some (emit_move alloc i.res (Operand.imm i.val.imm))
  emit_op Op.fconst i = some (emit_move alloc i.res (Operand.imm i.val.imm))
  emit_op Op.copy i =
      with_one i.val.args (λ x. some (emit_move alloc i.res (reg_or_const alloc b x)))
  emit_op Op.add i = alu_of AluOp.add i
  emit_op Op.sub i = alu_of AluOp.sub i
  emit_op Op.mul i = alu_of AluOp.imul i
  emit_op Op.and i = alu_of AluOp.and i
  emit_op Op.or i = alu_of AluOp.or i
  emit_op Op.xor i = alu_of AluOp.xor i
  emit_op Op.shl i = with_two i.val.args (emit_shift alloc b Asm.shl i.res)
  emit_op Op.shr i = with_two i.val.args (emit_shift alloc b Asm.sar i.res)
  emit_op Op.not i = with_one i.val.args (λ x. some (emit_bitwise_not alloc b i.res x))
  emit_op Op.logical_not i = with_one i.val.args (λ x. some (emit_logical_not alloc b i.res x))
  emit_op Op.div i = with_two i.val.args (emit_div alloc b i.res)
  emit_op Op.eq i = compare_of Cond.e i
  emit_op Op.ne i = compare_of Cond.ne i
  emit_op Op.lt i = compare_of Cond.l i
  emit_op Op.le i = compare_of Cond.le i
  emit_op Op.gt i = compare_of Cond.g i
  emit_op Op.ge i = compare_of Cond.ge i
  emit_op Op.addr i = with_one i.val.args (λ x. some (emit_addr alloc b i.res x))
  emit_op Op.slot_addr i =
      with_one i.val.args (λ x. some (emit_lea alloc (Asm.lea (slot_offset x)) i.res))
  emit_op Op.global_addr i = some (emit_lea alloc (Asm.lea_global i.val.sym) i.res)
  emit_op Op.load i = with_one i.val.args (λ p. some (emit_load alloc b Asm.load i.res p))
  emit_op Op.load8 i = with_one i.val.args (λ p. some (emit_load alloc b Asm.load8 i.res p))
  emit_op Op.store i = with_two i.val.args (emit_store alloc b Asm.store)
  emit_op Op.store8 i = with_two i.val.args (emit_store alloc b Asm.store8)
  emit_op Op.call i = emit_call alloc b i.res i.val.sym i.val.args
  emit_op Op.ret i = with_one i.val.args (λ x. some (emit_ret alloc size x))
  emit_op Op.jmp i = with_one i.val.args (λ t. some (emit_jump bs Asm.jmp t))
  emit_op Op.jnz i = emit_branch alloc bs i.val.args
  emit_op Op.f2i i = with_one i.val.args (λ x. emit_f2i fl alloc i.res (find_instr b x))
  emit_op Op.i2f i = none
  emit_op Op.fadd i = none
  emit_op Op.fsub i = none
  emit_op Op.fmul i = none
  emit_op Op.fdiv i = none
  emit_op Op.param i = some []
  emit_op Op.phi i = some []

  unfoldable pub emit_instrs : List Instr → Option (List Asm)
  unfolding emit_op
  emit_instrs [] = some []
  emit_instrs (i ∷ is) = do c ← emit_op i.val.op i; cs ← emit_instrs is; some (c ++ cs)

unfoldable pub emit_blocks :
    Float64 → Allocation → List BasicBlock → ℕ → ℕ → List BasicBlock → Option (List Asm)
unfolding emit_instrs
emit_blocks fl alloc all size n [] = some []
emit_blocks fl alloc all size n (b ∷ bs) = do
  c ← emit_instrs fl alloc all size b.instrs b.instrs
  cs ← emit_blocks fl alloc all size (n + 1) bs
  some ((if n == 0 then [] else Asm.label b.name ∷ []) ++ c ++ cs)

abbrev pub max_slots : ℕ → ℕ → ℕ
max_slots m n = if ltb m n then n else m

-- Slots up to that of the id.
abbrev pub slots_for : ℤ → ℕ → ℕ
slots_for (pos r) n = max_slots (r + 1) n
slots_for (negsuc r) n = n

-- One more than the largest id: the number of slots.
unfoldable pub num_slots : List Instr → ℕ
num_slots [] = 0
num_slots (i ∷ is) = slots_for i.res (num_slots is)

unfoldable pub num_slots_all : List BasicBlock → ℕ
unfolding num_slots
num_slots_all [] = 0
num_slots_all (b ∷ bs) = max_slots (num_slots b.instrs) (num_slots_all bs)

unfoldable pub frame_size : Function → ℕ
unfolding num_slots_all
frame_size f = align (num_slots_all f.blocks * 8) 16

unfoldable pub param_ids : List Instr → List ℤ
param_ids [] = []
param_ids (i ∷ is) = if op_eq i.val.op Op.param then i.res ∷ param_ids is else param_ids is

-- The parameters from their registers to their homes: none where there are more than six.
unfoldable pub move_params : Allocation → List ℤ → List Reg → Option (List Asm)
unfolding home
move_params alloc [] rs = some []
move_params alloc (p ∷ ps) [] = none
move_params alloc (p ∷ ps) (r ∷ rs) = do
  rest ← move_params alloc ps rs
  some (Asm.mov (Operand.reg r) (home alloc p) ∷ rest)

abbrev pub prologue : Text → ℕ → List Asm
prologue name size =
    Asm.globl name
    ∷ Asm.label name
    ∷ Asm.push_rbp
    ∷ Asm.mov_rsp_rbp
    ∷ (if ltb 0 size then Asm.sub_rsp size ∷ [] else [])

unfoldable pub emit_func : Float64 → Function → Option (List Asm)
unfolding frame_size param_ids move_params emit_blocks allocate_registers
emit_func fl f =
    let alloc = allocate_registers f in
    let size = frame_size f in
    do
      entry ← get_elem? f.blocks 0
      params ← move_params alloc (param_ids entry.instrs) arg_regs
      body ← emit_blocks fl alloc f.blocks size 0 f.blocks
      some (
          prologue f.name size
          ++ params
          ++ body
          ++ Asm.zero_eax ∷ free_frame size
          ++ Asm.pop_rbp ∷ Asm.ret ∷ [])
