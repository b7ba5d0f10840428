-- ===== src/Codegen/Emit/Shift.antt =====
-- internal/codegen/x86_64/emit.go, emitShift: shifts by a count below 64.
use ccomp.Base.{
  ℕ, ◌%◌, ◌<◌, ◌≡◌, refl, subst, ap, ◌∙◌, false, List, [], ◌∷◌, Option, none, some, arith,
}
use ccomp.Base.Int.{ℤ}
use ccomp.Base.Word
use ccomp.Ir.{Instr}
use ccomp.Codegen.Reg.{Reg, reg_eq}
use ccomp.Codegen.Ra.{Allocation}
use ccomp.Codegen.Asm.{Asm, Operand, Machine, read, set_reg, count_of, step, exec}
use ccomp.Codegen.Emit.{rcx, home, shift_by, const_or_home, emit_shift}
use ccomp.Codegen.Emit.Place.{same, read-write, read-write_other, Sets, exec-∷, step-mov}
use ccomp.Codegen.Emit.Alu.{work, in_place-Sets}

-- A shift of a register by the count, modulo 64.
abbrev pub ShiftsBy : (Option ℕ → Reg → Asm) → (ℕ → ℕ → ℕ) → Type 0
ShiftsBy op f =
    (c : Option ℕ) (r : Reg) (m : Machine)
    → step (op c r) m ≡ some (set_reg r (f (m.regs r) (count_of c m)) m)

pub shl-ShiftsBy : ShiftsBy Asm.shl Word.shl
unfolding step
shl-ShiftsBy c r m = refl

pub sar-ShiftsBy : ShiftsBy Asm.sar Word.sar
unfolding step
sar-ShiftsBy c r m = refl

small : (c : ℕ) → c < 64 → c % 64 ≡ c
small c h = omega (arith, h)

module _ (op : Option ℕ → Reg → Asm) (f : ℕ → ℕ → ℕ) (is_shift : ShiftsBy op f) where
  shift_const :
      (c : ℕ) (r : Reg) (n : Machine) (a : ℕ)
      → n.regs r ≡ a
      → c < 64
      → Sets (op (some c) r ∷ []) (Operand.reg r) (f a c) n
  unfolding exec
  shift_const c r n a e h =
      let v = f (n.regs r) (c % 64) in
      (
        set_reg r v n,
        (
          exec-∷ (op (some c) r) [] n _ _ (is_shift (some c) r n) refl,
          (
            read-write (Operand.reg r) v n tt ∙ (ap (λ x. f x (c % 64)) e ∙ ap (f a) (small c h)),
            λ o p _ _. read-write_other (Operand.reg r) o v n p,
          ),
        ),
      )

  shift_cl :
      (y : Operand) (r : Reg) (n : Machine) (a c : ℕ)
      → n.regs r ≡ a
      → read y n ≡ c
      → reg_eq Reg.rcx r ≡ false
      → c < 64
      → Sets (Asm.mov y rcx ∷ op none r ∷ []) (Operand.reg r) (f a c) n
  unfolding exec
  shift_cl y r n a c e k d h =
      let n1 = set_reg Reg.rcx (read y n) n in
      let v = f (n1.regs r) (n1.regs Reg.rcx % 64) in
      let kept : n1.regs r ≡ a = read-write_other rcx (Operand.reg r) (read y n) n d ∙ e in
      let count : n1.regs Reg.rcx % 64 ≡ c = ap (λ x. x % 64) k ∙ small c h in
      (
        set_reg r v n1,
        (
          exec-∷ (Asm.mov y rcx) (op none r ∷ []) n n1 _ (step-mov y rcx n)
              (exec-∷ (op none r) [] n1 _ _ (is_shift none r n1) refl),
          (
            read-write (Operand.reg r) v n1 tt
                ∙ (ap (λ x. f x (n1.regs Reg.rcx % 64)) kept ∙ ap (f a) count),
            λ o p _ q.
                read-write_other (Operand.reg r) o v n1 p ∙ read-write_other rcx o (read y n) n q,
          ),
        ),
      )

  shift_line :
      (y : Operand) (r : Reg) (n : Machine) (a c : ℕ)
      → n.regs r ≡ a
      → read y n ≡ c
      → reg_eq Reg.rcx r ≡ false
      → c < 64
      → Sets (shift_by op y r) (Operand.reg r) (f a c) n
  shift_line (Operand.imm x) r n a c e k d h =
      subst (λ z. Sets (op (some x) r ∷ []) (Operand.reg r) (f a z) n) k
        (shift_const x r n a e (rw k h))
  shift_line (Operand.reg q) r n a c e k d h = shift_cl (Operand.reg q) r n a c e k d h
  shift_line (Operand.slot o) r n a c e k d h = shift_cl (Operand.slot o) r n a c e k d h

  pub emit_shift-Sets :
      (alloc : Allocation) (b : List Instr) (res x y : ℤ) (m : Machine)
      → same (Operand.reg (work (alloc res))) (const_or_home alloc b y) ≡ false
      → reg_eq Reg.rcx (work (alloc res)) ≡ false
      → read (const_or_home alloc b y) m < 64
      → Sets
          (emit_shift alloc b op res x y)
          (home alloc res)
          (f (read (home alloc x) m) (read (const_or_home alloc b y) m))
          m
  unfolding emit_shift home
  emit_shift-Sets alloc b res x y m h d s =
      in_place-Sets (alloc res) res (home alloc x) _ _ m (λ n k.
        shift_line (const_or_home alloc b y) (work (alloc res)) n _ _ k.0
          (k.1 (const_or_home alloc b y) h) d s)
