-- ===== src/Codegen/Emit.antt =====
-- internal/codegen/x86_64/emit.go: the assembly of a function. None is an error that the source
-- returns, or a panic on a missing argument.
pub mod Func
pub mod Place
pub mod Alu
pub mod Shift
pub mod Unary
pub mod Binary
pub mod Simulate
pub mod Div
pub mod Slots
pub mod Homes
pub mod Limits
pub mod Ready
pub mod Module
mod Tests
use ccomp.Base.{
  ℕ, zero, suc, ◌+◌, ◌-◌, ◌*◌, ◌%◌, Bool, true, false, ◌&&◌, List, [], ◌∷◌, ◌++◌, Option, none,
  some, ltb, ◌==◌, if◌then◌else◌, get_elem?, length,
}
use ccomp.Base.Int.{ℤ, pos, negsuc, ==_ℤ, is_negative}
use ccomp.Base.Text.{Text}
use ccomp.Ir.{Op, op_eq, Value, Instr, BasicBlock, Function}
use ccomp.Ir.Meaning.{Float64}
use ccomp.Codegen.Reg.{Reg, reg_eq}
use ccomp.Codegen.Ra.{Allocation, allocate_registers}
use ccomp.Codegen.Asm.{Asm, AluOp, Cond, Operand}

-- -8 * (id + 1).
abbrev pub slot_offset : ℤ → ℤ
slot_offset (pos n) = negsuc (8 * n + 7)
slot_offset (negsuc n) = pos (8 * n)

-- `(n + (a - 1)) &^ (a - 1)` for an `a` that is a power of two, as the one of its calls is: clearing
-- the bits of a - 1 takes the remainder off.
abbrev pub align : ℕ → ℕ → ℕ
align n a = n + (a - 1) - (n + (a - 1)) % a

unfoldable pub is_const : List Instr → ℤ → Option ℕ
is_const [] id = none
is_const (i ∷ is) id =
    if ==_ℤ i.res id && op_eq i.val.op Op.const then some i.val.imm else is_const is id

unfoldable pub find_instr : List Instr → ℤ → Option Instr
find_instr [] id = none
find_instr (i ∷ is) id = if ==_ℤ i.res id then some i else find_instr is id

abbrev pub in_home : Option Reg → ℤ → Operand
in_home none id = Operand.slot (slot_offset id)
in_home (some r) id = Operand.reg r

-- Where a value is kept: its register, or else its slot.
unfoldable pub home : Allocation → ℤ → Operand
home alloc id = in_home (alloc id) id

abbrev pub or_imm : Operand → Option ℕ → Operand
or_imm o none = o
or_imm o (some c) = Operand.imm c

-- An operand that is looked up among the block's constants first.
unfoldable pub const_or_home : Allocation → List Instr → ℤ → Operand
unfolding home is_const
const_or_home alloc b id = or_imm (home alloc id) (is_const b id)

abbrev pub reg_or : Option Reg → Operand → Operand
reg_or none o = o
reg_or (some r) o = Operand.reg r

-- An operand that is looked up among the registers first.
unfoldable pub reg_or_const : Allocation → List Instr → ℤ → Operand
unfolding const_or_home
reg_or_const alloc b id = reg_or (alloc id) (const_or_home alloc b id)

-- The left operand into the register of the result.
abbrev pub into : Operand → Reg → List Asm
into (Operand.reg q) r = if reg_eq q r then [] else Asm.mov (Operand.reg q) (Operand.reg r) ∷ []
into o r = Asm.mov o (Operand.reg r) ∷ []

abbrev pub rax : Operand
rax = Operand.reg Reg.rax

abbrev pub rcx : Operand
rcx = Operand.reg Reg.rcx

-- The left operand is moved to where the work is done, the register of the result or %rax, and from
-- %rax the result goes to its slot.
abbrev pub in_place : Option Reg → ℤ → Operand → (Reg → List Asm) → List Asm
in_place (some r) res l body = into l r ++ body r
in_place none res l body =
    Asm.mov l rax ∷ body Reg.rax ++ Asm.mov rax (Operand.slot (slot_offset res)) ∷ []

-- `emitArith` and `emitBitwise`.
unfoldable pub emit_alu : Allocation → List Instr → AluOp → ℤ → ℤ → ℤ → List Asm
unfolding home const_or_home
emit_alu alloc b op res x y =
    in_place (alloc res) res (home alloc x)
      (λ r. Asm.alu op (const_or_home alloc b y) (Operand.reg r) ∷ [])

abbrev shift_by : (Option ℕ → Reg → Asm) → Operand → Reg → List Asm
shift_by op (Operand.imm c) r = op (some c) r ∷ []
shift_by op o r = Asm.mov o rcx ∷ op none r ∷ []

unfoldable pub emit_shift : Allocation → List Instr → (Option ℕ → Reg → Asm) → ℤ → ℤ → ℤ → List Asm
unfolding home const_or_home
emit_shift alloc b op res x y =
    in_place (alloc res) res (home alloc x) (shift_by op (const_or_home alloc b y))

-- %rax to the place of the result.
unfoldable pub finish : Allocation → ℤ → List Asm
unfolding home
finish alloc res = Asm.mov rax (home alloc res) ∷ []

unfoldable pub emit_bitwise_not : Allocation → List Instr → ℤ → ℤ → List Asm
unfolding const_or_home finish
emit_bitwise_not alloc b res x =
    Asm.mov (const_or_home alloc b x) rax ∷ Asm.not Reg.rax ∷ finish alloc res

unfoldable pub emit_logical_not : Allocation → List Instr → ℤ → ℤ → List Asm
unfolding const_or_home finish
emit_logical_not alloc b res x =
    Asm.mov (const_or_home alloc b x) rax
    ∷ Asm.cmp (Operand.imm 0) rax
    ∷ Asm.set_al Cond.e
    ∷ Asm.movzx_al
    ∷ finish alloc res

unfoldable pub emit_compare : Allocation → List Instr → Cond → ℤ → ℤ → ℤ → List Asm
unfolding home const_or_home finish
emit_compare alloc b c res x y =
    Asm.mov (home alloc x) rax
    ∷ Asm.cmp (const_or_home alloc b y) rax
    ∷ Asm.set_al c
    ∷ Asm.movzx_al
    ∷ finish alloc res

unfoldable pub emit_div : Allocation → List Instr → ℤ → ℤ → ℤ → List Asm
unfolding home const_or_home finish
emit_div alloc b res x y =
    Asm.mov (home alloc x) rax
    ∷ Asm.mov (const_or_home alloc b y) rcx
    ∷ Asm.cqo
    ∷ Asm.idiv Reg.rcx
    ∷ finish alloc res

abbrev pub move_to : Option Reg → ℤ → Operand → List Asm
move_to (some r) res o = Asm.mov o (Operand.reg r) ∷ []
move_to none res o = Asm.mov o rax ∷ Asm.mov rax (Operand.slot (slot_offset res)) ∷ []

-- A constant or a copy.
unfoldable pub emit_move : Allocation → ℤ → Operand → List Asm
emit_move alloc res o = move_to (alloc res) res o

-- The pointer of a load or a store to %rcx, and the value of a store to %rax.
unfoldable pub emit_load : Allocation → List Instr → (Reg → Asm) → ℤ → ℤ → List Asm
unfolding reg_or_const
emit_load alloc b op res ptr = Asm.mov (reg_or_const alloc b ptr) rcx ∷ elim (alloc res) [
  | some r ↦ op r ∷ []
  | none ↦ op Reg.rax ∷ Asm.mov rax (Operand.slot (slot_offset res)) ∷ []
]

unfoldable pub emit_store : Allocation → List Instr → Asm → ℤ → ℤ → List Asm
unfolding reg_or_const const_or_home
emit_store alloc b op ptr val =
    Asm.mov (reg_or_const alloc b ptr) rcx ∷ Asm.mov (const_or_home alloc b val) rax ∷ op ∷ []

unfoldable pub emit_lea : Allocation → (Reg → Asm) → ℤ → List Asm
emit_lea alloc op res = elim (alloc res) [
  | some r ↦ op r ∷ []
  | none ↦ op Reg.rax ∷ Asm.mov rax (Operand.slot (slot_offset res)) ∷ []
]

-- The value whose slot's address is taken is put into the slot.
abbrev pub materialize : Option ℕ → Option Reg → ℤ → List Asm
materialize (some c) r base =
    Asm.mov (Operand.imm c) rax ∷ Asm.mov rax (Operand.slot (slot_offset base)) ∷ []
materialize none (some r) base = Asm.mov (Operand.reg r) (Operand.slot (slot_offset base)) ∷ []
materialize none none base = []

unfoldable pub emit_addr : Allocation → List Instr → ℤ → ℤ → List Asm
unfolding is_const emit_lea
emit_addr alloc b res base =
    materialize (is_const b base) (alloc base) base
    ++ emit_lea alloc (Asm.lea (slot_offset base)) res
