-- ===== src/Ir/Opt.antt =====
-- internal/ir/opt.go: constant folding and the removal of dead instructions. The proofs are in the
-- children: what folding keeps (Fold, FoldBlock), and what the removal does (Dce, DceRun, DceLoop).
pub mod Fold
pub mod FoldBlock
pub mod Dce
pub mod DceRun
pub mod DceLoop
pub mod Optimize
use ccomp.Base.{
  ℕ, zero, suc, ◌+◌, Bool, true, false, ◌&&◌, ◌||◌, not, List, [], ◌∷◌, ◌++◌, map, ◌-◌, Option,
  none, some, any, ltb, ◌==◌, if◌then◌else◌, length,
}
use ccomp.Base.Int.{ℤ, ==_ℤ, is_negative}
use ccomp.Base.Word
use ccomp.Ir.{Op, op_eq, Value, Instr, BasicBlock, Function}
use ccomp.Ir.Meaning.{Float64}
use Prim.Native.Nat.{bit_and, bit_or, bit_xor}

-- The constant that the block gives to an id, by an instruction of opcode `op`.
unfoldable pub find_of : Op → List Instr → ℤ → Option ℕ
find_of op [] id = none
find_of op (i ∷ is) id =
    if ==_ℤ i.res id && op_eq i.val.op op then some i.val.imm else find_of op is id

abbrev pub find_const : List Instr → ℤ → Option ℕ
find_const = find_of Op.const

-- The bits of the constant; the source reads them back as a float64.
abbrev pub find_fconst : List Instr → ℤ → Option ℕ
find_fconst = find_of Op.fconst

-- The constant that an integer operation on two constants is replaced by, if it is.
unfoldable pub fold_int : Op → ℕ → ℕ → Option ℕ
fold_int Op.add a c = some (Word.add a c)
fold_int Op.sub a c = some (Word.sub a c)
fold_int Op.mul a c = some (Word.mul a c)
fold_int Op.div a c = if c == 0 then none else some (Word.sdiv a c)
fold_int Op.and a c = some (bit_and a c)
fold_int Op.or a c = some (bit_or a c)
fold_int Op.xor a c = some (bit_xor a c)
-- a Go shift by 64 or more leaves no bit of the value, but its sign to the right
fold_int Op.shl a c = some (if ltb c 64 then Word.shl a c else 0)
fold_int Op.shr a c =
    some (if ltb c 64 then Word.sar a c else if Word.is_neg a then Word.word_mod - 1 else 0)
fold_int _ a c = none

unfoldable pub fold_float : Float64 → Op → ℕ → ℕ → Option ℕ
fold_float f Op.fadd a c = some (f.fadd a c)
fold_float f Op.fsub a c = some (f.fsub a c)
fold_float f Op.fmul a c = some (f.fmul a c)
fold_float f Op.fdiv a c = if f.is_zero c then none else some (f.fdiv a c)
fold_float f _ a c = none

abbrev pub set_const : Op → ℕ → Instr → Instr
set_const op x i = record i { val = record (i.val) { op = op; args = []; imm = x } }

abbrev replace : Op → Option ℕ → Instr → Instr
replace op none i = i
replace op (some x) i = set_const op x i

-- Both operands, where there are two and the block has constants for them.
unfoldable pub find_two : Op → List Instr → List ℤ → Option (ℕ × ℕ)
find_two op b (x ∷ y ∷ []) = elim (find_of op b x) [
  | none ↦ none
  | some a ↦ elim (find_of op b y) [ none ↦ none | some c ↦ some (a, c) ]
]
find_two op b _ = none

abbrev on_found : (ℕ → ℕ → Option ℕ) → Option (ℕ × ℕ) → Option ℕ
on_found g none = none
on_found g (some (a, c)) = g a c

abbrev is_float_op : Op → Bool
is_float_op Op.fadd = true
is_float_op Op.fsub = true
is_float_op Op.fmul = true
is_float_op Op.fdiv = true
is_float_op _ = false

-- The cases of the switch: the floats' operations, and the integers', which `fold_int` knows.
unfoldable pub fold_instr : Float64 → List Instr → Instr → Instr
unfolding find_two fold_int fold_float
fold_instr f b i =
    if is_float_op i.val.op
    then replace Op.fconst (on_found (fold_float f i.val.op) (find_two Op.fconst b i.val.args)) i
    else replace Op.const (on_found (fold_int i.val.op) (find_two Op.const b i.val.args)) i

-- The loop over a block, which is rewritten as it goes: `done` stands before the instruction at hand.
unfoldable pub fold_from : Float64 → List Instr → List Instr → List Instr
unfolding fold_instr
fold_from f done [] = done
fold_from f done (i ∷ is) = fold_from f (done ++ fold_instr f (done ++ i ∷ is) i ∷ []) is

unfoldable pub fold_block : Float64 → BasicBlock → BasicBlock
unfolding fold_from
fold_block f b = record b { instrs = fold_from f [] b.instrs }

unfoldable pub const_fold_func : Float64 → Function → Function
unfolding fold_block
const_fold_func f fn = record fn { blocks = map (fold_block f) fn.blocks }

-- `buildUses`: how often an id stands among the arguments, over all blocks.
unfoldable pub count_id : ℤ → List ℤ → ℕ
count_id id [] = 0
count_id id (a ∷ as') = (if ==_ℤ a id then 1 else 0) + count_id id as'

unfoldable pub uses_in : List Instr → ℤ → ℕ
unfolding count_id
uses_in [] id = 0
uses_in (i ∷ is) id = count_id id i.val.args + uses_in is id

unfoldable pub build_uses : List BasicBlock → ℤ → ℕ
unfolding uses_in
build_uses [] id = 0
build_uses (b ∷ bs) id = uses_in b.instrs id + build_uses bs id

-- Whether the removal keeps an instruction, under the counts of uses.
unfoldable pub keep : (ℤ → ℕ) → Instr → Bool
keep uses i =
    op_eq i.val.op Op.ret
    || is_negative i.res
    || not (uses i.res == 0)
    || op_eq i.val.op Op.param
    || op_eq i.val.op Op.call
    || op_eq i.val.op Op.store
    || op_eq i.val.op Op.store8

unfoldable pub sweep : (ℤ → ℕ) → List Instr → List Instr
sweep uses [] = []
sweep uses (i ∷ is) = if keep uses i then i ∷ sweep uses is else sweep uses is

-- Whether the sweep of these instructions sets `changed`.
unfoldable pub drops : (ℤ → ℕ) → List Instr → Bool
drops uses is = any (λ i. not (keep uses i)) is

unfoldable pub sweep_block : (ℤ → ℕ) → BasicBlock → BasicBlock
unfolding sweep
sweep_block uses b = record b { instrs = sweep uses b.instrs }

unfoldable pub sweep_blocks : (ℤ → ℕ) → List BasicBlock → List BasicBlock
unfolding sweep_block
sweep_blocks uses bs = map (sweep_block uses) bs

unfoldable pub drops_blocks : (ℤ → ℕ) → List BasicBlock → Bool
unfolding drops
drops_blocks uses bs = any (λ b. drops uses b.instrs) bs

-- The `for changed` loop, with fuel.
unfoldable pub dce_loop : ℕ → List BasicBlock → List BasicBlock
unfolding build_uses keep sweep_blocks drops_blocks
dce_loop zero bs = bs
dce_loop (suc fuel) bs =
    let uses = build_uses bs in
    elim (drops_blocks uses bs) [
      | true ↦ dce_loop fuel (sweep_blocks uses bs)
      | false ↦ sweep_blocks uses bs
    ]

unfoldable pub count_instrs : List BasicBlock → ℕ
count_instrs [] = 0
count_instrs (b ∷ bs) = length b.instrs + count_instrs bs

-- A round that changes something takes an instruction away, so these rounds are enough.
unfoldable pub dce_func : Function → Function
unfolding dce_loop count_instrs
dce_func fn = record fn { blocks = dce_loop (suc (count_instrs fn.blocks)) fn.blocks }

unfoldable pub optimize : Float64 → List Function → List Function
unfolding const_fold_func dce_func
optimize f fns = map (λ fn. dce_func (const_fold_func f fn)) fns
