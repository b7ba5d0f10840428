-- ===== src/Ir.antt =====
-- internal/ir/ir.go: the intermediate representation, without the builder. A value id is a Go `int`
-- that is -1 where an instruction has no result; a pointer to a block is its index in the function.
pub mod Meaning
pub mod Ssa
pub mod Opt
pub mod Phi
pub mod Build
mod Tests
use ccomp.Base.{ℕ, Bool, List, Option, ◌==◌}
use ccomp.Base.Int.{ℤ}
use ccomp.Base.Text.{Text}

pub data Op : Type 0 where
  const fconst add sub mul div fadd fsub fmul fdiv eq ne lt le gt ge ret store load load8 : Op
  param and or xor shl shr not copy phi jmp jnz call addr global_addr slot_addr store8 : Op
  logical_not f2i i2f : Op

-- `iota` of the constant block.
abbrev pub op_number : Op → ℕ
op_number Op.const = 0
op_number Op.fconst = 1
op_number Op.add = 2
op_number Op.sub = 3
op_number Op.mul = 4
op_number Op.div = 5
op_number Op.fadd = 6
op_number Op.fsub = 7
op_number Op.fmul = 8
op_number Op.fdiv = 9
op_number Op.eq = 10
op_number Op.ne = 11
op_number Op.lt = 12
op_number Op.le = 13
op_number Op.gt = 14
op_number Op.ge = 15
op_number Op.ret = 16
op_number Op.store = 17
op_number Op.load = 18
op_number Op.load8 = 19
op_number Op.param = 20
op_number Op.and = 21
op_number Op.or = 22
op_number Op.xor = 23
op_number Op.shl = 24
op_number Op.shr = 25
op_number Op.not = 26
op_number Op.copy = 27
op_number Op.phi = 28
op_number Op.jmp = 29
op_number Op.jnz = 30
op_number Op.call = 31
op_number Op.addr = 32
op_number Op.global_addr = 33
op_number Op.slot_addr = 34
op_number Op.store8 = 35
op_number Op.logical_not = 36
op_number Op.f2i = 37
op_number Op.i2f = 38

abbrev pub op_eq : Op → Op → Bool
op_eq a b = op_number a == op_number b

-- The field `ID` of a value repeats the result of its instruction, and is left out.
pub record Value : Type 0 where
  pub op : Op
  pub args : List ℤ
  pub imm : ℕ
  pub sym : Text

pub record Instr : Type 0 where
  pub res : ℤ
  pub val : Value

pub record BasicBlock : Type 0 where
  pub name : Text
  pub instrs : List Instr
  pub sealed : Bool
  pub preds : List ℕ
  pub succs : List ℕ

pub record Function : Type 0 where
  pub name : Text
  pub params : List Text
  pub blocks : List BasicBlock
  pub entry : Option ℕ

-- A scalar or an array of zeros; the initial value as its bits.
pub record Global : Type 0 where
  pub name : Text
  pub init : ℕ
  pub array : Bool
  pub length : ℕ
  pub elem_size : ℕ

-- `bytes` is the field `Data`.
pub record StrLit : Type 0 where
  pub name : Text
  pub bytes : Text
