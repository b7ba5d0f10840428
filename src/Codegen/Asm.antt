-- ===== src/Codegen/Asm.antt =====
-- The assembly that internal/codegen/x86_64/emit.go writes, a line at a time, and what those lines do
-- that neither jump nor touch memory outside the frame.
use Prim.Native.Nat.{bit_and, bit_or, bit_xor}
use ccomp.Base.{
  ℕ, ◌+◌, ◌-◌, ◌%◌, Bool, true, false, List, [], ◌∷◌, Option, none, some, ◌==◌, if◌then◌else◌,
}
use ccomp.Base.Int.{ℤ, ==_ℤ}
use ccomp.Base.Text.{Text}
use ccomp.Base.Word
use ccomp.Codegen.Reg.{Reg, reg_eq}

-- `$c`, a register, and `off(%rbp)`.
pub data Operand : Type 0 where
  imm : ℕ → Operand
  reg : Reg → Operand
  slot : ℤ → Operand

pub data AluOp : Type 0 where
  add sub imul and or xor : AluOp

pub data Cond : Type 0 where
  e ne l le g ge : Cond

-- The source stands before the destination. The count of a shift is a constant or %cl; `load` and
-- `store` go by the address in %rcx, and `store` writes %rax.
pub data Asm : Type 0 where
  mov : Operand → Operand → Asm
  alu : AluOp → Operand → Operand → Asm
  shl sar : Option ℕ → Reg → Asm
  not : Reg → Asm
  cmp : Operand → Operand → Asm
  test : Reg → Reg → Asm
  set_al : Cond → Asm
  movzx_al cqo : Asm
  idiv : Reg → Asm
  lea : ℤ → Reg → Asm
  lea_global : Text → Reg → Asm
  load load8 : Reg → Asm
  store store8 : Asm
  sub_rsp add_rsp : ℕ → Asm
  push_rbp mov_rsp_rbp pop_rbp ret zero_eax : Asm
  call jmp jne label globl : Text → Asm

-- The 64-bit words of the registers and of the frame, by their distance from %rbp in bytes, and the words
-- that the last comparison compared.
pub record Machine : Type 0 where
  pub regs : Reg → ℕ
  pub frame : ℤ → ℕ
  pub compared : ℕ × ℕ

abbrev pub read : Operand → Machine → ℕ
read (Operand.imm c) m = c
read (Operand.reg r) m = m.regs r
read (Operand.slot o) m = m.frame o

abbrev pub set_reg : Reg → ℕ → Machine → Machine
set_reg r v m = record m { regs = λ q. if reg_eq r q then v else m.regs q }

abbrev pub write : Operand → ℕ → Machine → Machine
write (Operand.imm c) v m = m
write (Operand.reg r) v m = set_reg r v m
write (Operand.slot o) v m = record m { frame = λ p. if ==_ℤ o p then v else m.frame p }

unfoldable pub alu_value : AluOp → ℕ → ℕ → ℕ
alu_value AluOp.add a b = Word.add a b
alu_value AluOp.sub a b = Word.sub a b
alu_value AluOp.imul a b = Word.mul a b
alu_value AluOp.and a b = bit_and a b
alu_value AluOp.or a b = bit_or a b
alu_value AluOp.xor a b = bit_xor a b

unfoldable pub cond_value : Cond → ℕ × ℕ → Bool
cond_value Cond.e (a, b) = a == b
cond_value Cond.ne (a, b) = if a == b then false else true
cond_value Cond.l (a, b) = Word.slt a b
cond_value Cond.le (a, b) = if Word.slt b a then false else true
cond_value Cond.g (a, b) = Word.slt b a
cond_value Cond.ge (a, b) = if Word.slt a b then false else true

-- The processor takes the count modulo 64.
abbrev pub count_of : Option ℕ → Machine → ℕ
count_of none m = m.regs Reg.rcx % 64
count_of (some c) m = c % 64

abbrev pub sign_word : ℕ → ℕ
sign_word a = if Word.is_neg a then Word.word_mod - 1 else 0

-- The quotient and the remainder of %rdx:%rax, of which the case is modelled that `cqo` prepares.
abbrev pub divide : ℕ → Machine → Option Machine
divide b m =
    let a = m.regs Reg.rax in
    if m.regs Reg.rdx == sign_word a
    then if Word.div_defined a b
      then some (
          set_reg Reg.rdx (Word.sub a (Word.mul b (Word.sdiv a b)))
            (set_reg Reg.rax (Word.sdiv a b) m))
      else none
    else none

-- None is a fault, or a line that is not modelled.
unfoldable pub step : Asm → Machine → Option Machine
unfolding alu_value cond_value
step (Asm.mov s d) m = some (write d (read s m) m)
step (Asm.alu op s d) m = some (write d (alu_value op (read d m) (read s m)) m)
step (Asm.shl c r) m = some (set_reg r (Word.shl (m.regs r) (count_of c m)) m)
step (Asm.sar c r) m = some (set_reg r (Word.sar (m.regs r) (count_of c m)) m)
step (Asm.not r) m = some (set_reg r (Word.complement (m.regs r)) m)
step (Asm.cmp s d) m = some (record m { compared = (read d m, read s m) })
step (Asm.test q r) m = some (record m { compared = (bit_and (m.regs q) (m.regs r), 0) })
step (Asm.set_al c) m = some (
    set_reg Reg.rax
      (m.regs Reg.rax - m.regs Reg.rax % 256 + (if cond_value c m.compared then 1 else 0)) m)
step Asm.movzx_al m = some (set_reg Reg.rax (m.regs Reg.rax % 256) m)
step Asm.cqo m = some (set_reg Reg.rdx (sign_word (m.regs Reg.rax)) m)
step (Asm.idiv r) m = divide (m.regs r) m
step _ m = none

unfoldable pub exec : List Asm → Machine → Option Machine
unfolding step
exec [] m = some m
exec (a ∷ as') m = elim (step a m) [ none ↦ none | some m' ↦ exec as' m' ]
