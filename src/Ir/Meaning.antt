-- ===== src/Ir/Meaning.antt =====
-- What the instructions of internal/ir/ir.go mean. Integer arithmetic is that of 64-bit words, where
-- C gives it a value; memory, addresses, calls, arguments, phis and floats are a parameter, `World`.
pub mod Laws
use Prim.Native.Nat.{bit_and, bit_or, bit_xor}
use ccomp.Base.{
  ℕ, zero, suc, ◌+◌, Bool, true, false, List, [], ◌∷◌, map, Option, none, some, ltb, ◌==◌,
  if◌then◌else◌, get_elem?,
}
use ccomp.Base.Int.{ℤ, pos, negsuc, ==_ℤ}
use ccomp.Base.Text.{Text}
use ccomp.Base.Word
use mathlib.Core.Option
use ccomp.Ir.{Op, Value, Instr, BasicBlock}

-- The operations on float64 values, which go by their bits.
pub record Float64 : Type 0 where
  pub fadd : ℕ → ℕ → ℕ
  pub fsub : ℕ → ℕ → ℕ
  pub fmul : ℕ → ℕ → ℕ
  pub fdiv : ℕ → ℕ → ℕ
  pub is_zero : ℕ → Bool
  pub to_int : ℕ → ℕ

pub record World : Type 1 where
  pub Memory : Type 0
  pub float : Float64
  -- the argument registers and their values, by place
  pub argument : ℕ → ℕ
  -- the value of an instruction that only reads: the block that control came from, the opcode, the
  -- symbol, the operands' ids and values. An address reads its operand, which the emitter puts into
  -- the operand's own slot then.
  pub read : ℕ → Op → Text → List ℤ → List ℕ → Memory → ℕ
  -- a store or a call: none is a fault
  pub act : Op → Text → List ℕ → Memory → Option (ℕ × Memory)

infixl 5 ◌>>=◌
abbrev pub ◌>>=◌ {ℓ κ} : {A : Type ℓ} {B : Type κ} → Option A → (A → Option B) → Option B
none >>= f = none
some a >>= f = f a

abbrev pub flag : Bool → ℕ
flag b = if b then 1 else 0

-- The integer operations on two words: none where C leaves the result undefined.
unfoldable pub binary : Op → ℕ → ℕ → Option ℕ
binary Op.add a b = some (Word.add a b)
binary Op.sub a b = some (Word.sub a b)
binary Op.mul a b = some (Word.mul a b)
binary Op.div a b = if Word.div_defined a b then some (Word.sdiv a b) else none
binary Op.and a b = some (bit_and a b)
binary Op.or a b = some (bit_or a b)
binary Op.xor a b = some (bit_xor a b)
binary Op.shl a b = if ltb b 64 then some (Word.shl a b) else none
binary Op.shr a b = if ltb b 64 then some (Word.sar a b) else none
binary Op.eq a b = some (flag (a == b))
binary Op.ne a b = some (if a == b then 0 else 1)
binary Op.lt a b = some (flag (Word.slt a b))
binary Op.le a b = some (if Word.slt b a then 0 else 1)
binary Op.gt a b = some (flag (Word.slt b a))
binary Op.ge a b = some (if Word.slt a b then 0 else 1)
binary _ a b = none

unfoldable pub unary : Op → ℕ → Option ℕ
unary Op.copy a = some a
unary Op.not a = some (Word.complement a)
unary Op.logical_not a = some (flag (a == 0))
unary _ a = none

-- How an instruction is carried out.
pub data Class : Type 0 where
  constant two_words one_word two_floats acting reading taking returning jumping branching : Class

abbrev pub class_of : Op → Class
class_of Op.const = constant
class_of Op.fconst = constant
class_of Op.fadd = two_floats
class_of Op.fsub = two_floats
class_of Op.fmul = two_floats
class_of Op.fdiv = two_floats
class_of Op.copy = one_word
class_of Op.not = one_word
class_of Op.logical_not = one_word
class_of Op.ret = returning
class_of Op.jmp = jumping
class_of Op.jnz = branching
class_of Op.store = acting
class_of Op.store8 = acting
class_of Op.call = acting
class_of Op.load = reading
class_of Op.load8 = reading
class_of Op.param = taking
class_of Op.phi = reading
class_of Op.addr = reading
class_of Op.global_addr = reading
class_of Op.slot_addr = reading
class_of Op.f2i = reading
class_of Op.i2f = reading
class_of _ = two_words

module _ (w : World) where
  open w use {Memory, float, argument, read, act}

  -- The values by id, the memory, the block that control came from, and how many parameters have been
  -- taken: the n-th instruction for a parameter takes the n-th argument register.
  pub record State : Type 0 where
    pub env : ℤ → ℕ
    pub mem : Memory
    pub from : ℕ
    pub taken : ℕ

  abbrev pub write : ℤ → ℕ → State → State
  write r v s = record s { env = λ id. if ==_ℤ r id then v else s.env id }

  -- Where control goes after an instruction or a block.
  pub data Flow : Type 0 where
    fall : State → Flow
    goto : ℤ → State → Flow
    return : ℕ → State → Flow

  abbrev pub float_binary : Op → ℕ → ℕ → ℕ
  float_binary Op.fadd a b = float.fadd a b
  float_binary Op.fsub a b = float.fsub a b
  float_binary Op.fmul a b = float.fmul a b
  float_binary _ a b = float.fdiv a b

  abbrev pub on_two : List ℕ → (ℕ → ℕ → Option ℕ) → Option ℕ
  on_two (a ∷ b ∷ []) f = f a b
  on_two _ f = none

  abbrev pub on_one : List ℕ → (ℕ → Option ℕ) → Option ℕ
  on_one (a ∷ []) f = f a
  on_one _ f = none

  abbrev pub store_result : ℤ → State → Option ℕ → Option Flow
  store_result r s v = Option.map (λ x. fall (write r x s)) v

  -- A jump takes block indices as they stand in the arguments.
  abbrev pub jump : List ℤ → State → Option Flow
  jump (t ∷ []) s = some (goto t s)
  jump _ s = none

  abbrev pub branch : List ℤ → State → Option Flow
  branch (c ∷ t ∷ f ∷ []) s = some (goto (if s.env c == 0 then f else t) s)
  branch _ s = none

  abbrev pub leave : List ℤ → State → Option Flow
  leave (a ∷ []) s = some (return (s.env a) s)
  leave _ s = none

  abbrev pub perform : ℤ → State → Option (ℕ × Memory) → Option Flow
  perform r s none = none
  perform r s (some (x, m)) = some (fall (write r x (record s { mem = m })))

  abbrev pub step_class : Class → ℤ → Value → State → Option Flow
  step_class constant r v s = store_result r s (some v.imm)
  step_class two_words r v s = store_result r s (on_two (map s.env v.args) (binary v.op))
  step_class one_word r v s = store_result r s (on_one (map s.env v.args) (unary v.op))
  step_class two_floats r v s =
      store_result r s (on_two (map s.env v.args) λ a b. some (float_binary v.op a b))
  step_class reading r v s =
      store_result r s (some (read s.from v.op v.sym v.args (map s.env v.args) s.mem))
  step_class taking r v s =
      store_result r (record s { taken = suc s.taken }) (some (argument s.taken))
  step_class acting r v s = perform r s (act v.op v.sym (map s.env v.args) s.mem)
  step_class jumping r v s = jump v.args s
  step_class branching r v s = branch v.args s
  step_class returning r v s = leave v.args s

  unfoldable pub step : Instr → State → Option Flow
  step i s = step_class (class_of i.val.op) i.res i.val s

  -- The instructions after a jump or a return are not reached.
  unfoldable pub exec : List Instr → State → Option Flow
  exec [] s = some (fall s)
  exec (i ∷ is) s = do
    fl ← step i s
    elim fl [
      | fall s' ↦ exec is s'
      | goto t s' ↦ some (goto t s')
      | return x s' ↦ some (return x s')
    ]

  -- A run of a function from block `n`: the value returned and the memory. None is a fault, or a run
  -- of more than `fuel` blocks.
  unfoldable pub run : ℕ → List BasicBlock → ℕ → State → Option (ℕ × Memory)
  run zero bs n s = none
  run (suc fuel) bs n s = do
    b ← get_elem? bs n
    fl ← exec b.instrs s
    elim fl [
      | fall s' ↦ run fuel bs (n + 1) (record s' { from = n })
      | goto t s' ↦ elim t [ pos m ↦ run fuel bs m (record s' { from = n }) | negsuc m ↦ none ]
      | return x s' ↦ some (x, s'.mem)
    ]
