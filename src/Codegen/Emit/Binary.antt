-- ===== src/Codegen/Emit/Binary.antt =====
-- internal/codegen/x86_64/emit.go: what the switch emits for an operation on two words computes what
-- the opcode means.
use ccomp.Base.{
  ℕ, ◌≡◌, refl, sym, subst, ◌∙◌, inl, inr, Bool, true, false, List, [], ◌∷◌, Option, none, some,
  Bool-cases, if◌then◌else◌, if_true, if_false, arith, ltb,
}
use ccomp.Base.Int.{ℤ}
use ccomp.Base.Word
use ccomp.Ir.{Op, Instr, BasicBlock, op_eq}
use ccomp.Ir.Meaning.{Float64, flag, binary}
use ccomp.Codegen.Reg.{Reg, reg_eq}
use ccomp.Codegen.Ra.{Allocation}
use ccomp.Codegen.Asm.{Asm, AluOp, Cond, Operand, Machine, read, alu_value, cond_value}
use ccomp.Codegen.Emit.{rax, home, const_or_home, emit_alu, emit_shift, emit_compare}
use ccomp.Codegen.Emit.Func.{emit_op, with_two}
use ccomp.Codegen.Emit.Place.{same, Sets}
use ccomp.Codegen.Emit.Alu.{work, emit_alu-Sets}
use ccomp.Codegen.Emit.Shift.{ShiftsBy, shl-ShiftsBy, sar-ShiftsBy, emit_shift-Sets}
use ccomp.Codegen.Emit.Unary.{emit_compare-Sets}

-- The register that the work is done in is no operand's, %rax is no operand's, and %rcx is not worked
-- in.
pub record Apart (r : Reg) (o : Operand) : Type 0 where
  pub dest_apart : same (Operand.reg r) o ≡ false
  pub rax_apart : same rax o ≡ false
  pub rcx_apart : reg_eq Reg.rcx r ≡ false

some_eq : {a c : ℕ} → some a ≡ some c → a ≡ c
some_eq e = cc

flag_not : (t : Bool) → flag (if t then false else true) ≡ (if t then 0 else 1)
flag_not true = refl
flag_not false = refl

module _ (fl : Float64) (alloc : Allocation) (bs : List BasicBlock) (size : ℕ)
    (b : List Instr) where
  abbrev pub Emits : Op → Instr → Operand → ℕ → Machine → Type 0
  Emits op i d v m =
      (code : List Asm) × ((emit_op fl alloc bs size b op i ≡ some code) × Sets code d v m)

  alu-Emits :
      (o : AluOp) (op : Op) (i : Instr) (x y : ℤ) (v : ℕ) (m : Machine)
      → emit_op fl alloc bs size b op i ≡ with_two i.val.args (emit_alu alloc b o i.res)
      → i.val.args ≡ x ∷ y ∷ []
      → Apart (work (alloc i.res)) (const_or_home alloc b y)
      → alu_value o (read (home alloc x) m) (read (const_or_home alloc b y) m) ≡ v
      → Emits op i (home alloc i.res) v m
  alu-Emits o op i x y v m c a p e =
      let code = emit_alu alloc b o i.res x y in
      (
        code,
        (
          c ∙ rw a refl,
          subst (λ z. Sets code (home alloc i.res) z m) e
              (emit_alu-Sets alloc b o i.res x y m p.dest_apart),
        ),
      )

  compare-Emits :
      (o : Cond) (op : Op) (i : Instr) (x y : ℤ) (v : ℕ) (m : Machine)
      → emit_op fl alloc bs size b op i ≡ with_two i.val.args (emit_compare alloc b o i.res)
      → i.val.args ≡ x ∷ y ∷ []
      → Apart (work (alloc i.res)) (const_or_home alloc b y)
      → flag (cond_value o (read (home alloc x) m, read (const_or_home alloc b y) m)) ≡ v
      → Emits op i (home alloc i.res) v m
  compare-Emits o op i x y v m c a p e =
      let code = emit_compare alloc b o i.res x y in
      (
        code,
        (
          c ∙ rw a refl,
          subst (λ z. Sets code (home alloc i.res) z m) e
              (emit_compare-Sets alloc b o i.res x y m p.rax_apart),
        ),
      )

  shift-Emits :
      (o : Option ℕ → Reg → Asm) (f : ℕ → ℕ → ℕ) (op : Op) (i : Instr) (x y : ℤ) (v : ℕ)
      (m : Machine)
      → ShiftsBy o f
      → emit_op fl alloc bs size b op i ≡ with_two i.val.args (emit_shift alloc b o i.res)
      → i.val.args ≡ x ∷ y ∷ []
      → Apart (work (alloc i.res)) (const_or_home alloc b y)
      → (if ltb (read (const_or_home alloc b y) m) 64
          then some (f (read (home alloc x) m) (read (const_or_home alloc b y) m))
          else none)
        ≡ some v
      → Emits op i (home alloc i.res) v m
  shift-Emits o f op i x y v m k c a p e =
      let code = emit_shift alloc b o i.res x y in
      let n = read (const_or_home alloc b y) m in
      elim (Bool-cases (ltb n 64)) [
        | inl t ↦
            let q : f (read (home alloc x) m) n ≡ v = some_eq (sym (if_true _ t) ∙ e) in
            let s =
              emit_shift-Sets o f k alloc b i.res x y m p.dest_apart p.rcx_apart
                (ground (arith, t)) in
            (code, (c ∙ rw a refl, subst (λ z. Sets code (home alloc i.res) z m) q s))
        | inr r ↦ cc (sym (if_false _ r) ∙ e)
      ]

  pub emit_binary :
      (op : Op) (i : Instr) (x y : ℤ) (v : ℕ) (m : Machine)
      → i.val.args ≡ x ∷ y ∷ []
      → op_eq op Op.div ≡ false
      → Apart (work (alloc i.res)) (const_or_home alloc b y)
      → binary op (read (home alloc x) m) (read (const_or_home alloc b y) m) ≡ some v
      → Emits op i (home alloc i.res) v m
  unfolding emit_op binary alu_value cond_value
  emit_binary Op.add i x y v m a d p e = alu-Emits AluOp.add Op.add i x y v m refl a p (some_eq e)
  emit_binary Op.sub i x y v m a d p e = alu-Emits AluOp.sub Op.sub i x y v m refl a p (some_eq e)
  emit_binary Op.mul i x y v m a d p e = alu-Emits AluOp.imul Op.mul i x y v m refl a p (some_eq e)
  emit_binary Op.and i x y v m a d p e = alu-Emits AluOp.and Op.and i x y v m refl a p (some_eq e)
  emit_binary Op.or i x y v m a d p e = alu-Emits AluOp.or Op.or i x y v m refl a p (some_eq e)
  emit_binary Op.xor i x y v m a d p e = alu-Emits AluOp.xor Op.xor i x y v m refl a p (some_eq e)
  emit_binary Op.shl i x y v m a d p e =
      shift-Emits Asm.shl Word.shl Op.shl i x y v m shl-ShiftsBy refl a p e
  emit_binary Op.shr i x y v m a d p e =
      shift-Emits Asm.sar Word.sar Op.shr i x y v m sar-ShiftsBy refl a p e
  emit_binary Op.eq i x y v m a d p e = compare-Emits Cond.e Op.eq i x y v m refl a p (some_eq e)
  emit_binary Op.lt i x y v m a d p e = compare-Emits Cond.l Op.lt i x y v m refl a p (some_eq e)
  emit_binary Op.gt i x y v m a d p e = compare-Emits Cond.g Op.gt i x y v m refl a p (some_eq e)
  emit_binary Op.ne i x y v m a d p e =
      compare-Emits Cond.ne Op.ne i x y v m refl a p (flag_not _ ∙ some_eq e)
  emit_binary Op.le i x y v m a d p e =
      compare-Emits Cond.le Op.le i x y v m refl a p (flag_not _ ∙ some_eq e)
  emit_binary Op.ge i x y v m a d p e =
      compare-Emits Cond.ge Op.ge i x y v m refl a p (flag_not _ ∙ some_eq e)
  emit_binary Op.div i x y v m a d p e = cc d
  emit_binary _ i x y v m a d p e = cc e
