-- ===== src/Codegen/Emit/Alu.antt =====
-- internal/codegen/x86_64/emit.go: arithmetic, bit operations, shifts, negations and comparisons
-- compute what their opcodes mean.
use ccomp.Base.{
  ℕ, ◌≡◌, refl, sym, ap, ◌∙◌, inl, inr, false, List, [], ◌∷◌, ◌++◌, Option, none, some, Bool-cases,
}
use ccomp.Base.Int.{ℤ}
use ccomp.Ir.{Instr}
use ccomp.Codegen.Reg.{Reg, reg_eq, reg_eq_iff}
use ccomp.Codegen.Ra.{Allocation}
use ccomp.Codegen.Asm.{Asm, AluOp, Operand, Machine, read, write, set_reg, alu_value, step, exec}
use ccomp.Codegen.Emit.{rax, slot_offset, in_home, home, in_place, into, const_or_home, emit_alu}
use ccomp.Codegen.Emit.Place.{
  same, read-write, read-write_other, Sets, exec-∷, exec-append, step-mov, exec-mov,
}

-- Where the work is done.
abbrev pub work : Option Reg → Reg
work none = Reg.rax
work (some r) = r

-- `r` holds the operand `l`, and the rest is as it was.
abbrev Loaded : Operand → Reg → Machine → Machine → Type 0
Loaded l r m n =
    (n.regs r ≡ read l m) × ((o : Operand) → same (Operand.reg r) o ≡ false → read o n ≡ read o m)

load-Loaded : (l : Operand) (r : Reg) (m : Machine) → Loaded l r m (set_reg r (read l m) m)
load-Loaded l r m = (
  read-write (Operand.reg r) (read l m) m tt,
  λ o h. read-write_other (Operand.reg r) o (read l m) m h,
)

into-Loaded :
    (l : Operand) (r : Reg) (m : Machine)
    → (n : Machine) × ((exec (into l r) m ≡ some n) × Loaded l r m n)
unfolding exec step
into-Loaded (Operand.imm c) r m = (_, (refl, load-Loaded (Operand.imm c) r m))
into-Loaded (Operand.slot o) r m = (_, (refl, load-Loaded (Operand.slot o) r m))
into-Loaded (Operand.reg q) r m = elim (Bool-cases (reg_eq q r)) [
  | inl t ↦ (m, (rw t refl, (ap m.regs (sym ((reg_eq_iff q r).0 t)), λ o h. refl)))
  | inr f ↦ (_, (rw f refl, load-Loaded (Operand.reg q) r m))
]

pub in_place-Sets :
    (dest : Option Reg) (res : ℤ) (l : Operand) (body : Reg → List Asm) (v : ℕ) (m : Machine)
    → ((n : Machine)
        → Loaded l (work dest) m n
        → Sets (body (work dest)) (Operand.reg (work dest)) v n)
    → Sets (in_place dest res l body) (in_home dest res) v m
in_place-Sets (some r) res l body v m h =
    let (n, (e, k)) = into-Loaded l r m in
    let (n', (e', (g, keep))) = h n k in
    (
      n',
      (exec-append (into l r) (body r) m n (some n') e e', (g, λ o a b c. keep o a b c ∙ k.1 o a)),
    )
in_place-Sets none res l body v m h =
    let n = set_reg Reg.rax (read l m) m in
    let k = load-Loaded l Reg.rax m in
    let (n', (e', (g, keep))) = h n k in
    let out = Operand.slot (slot_offset res) in
    let n'' = write out (read rax n') n' in
    (
      n'',
      (
        exec-∷ (Asm.mov l rax) (body Reg.rax ++ Asm.mov rax out ∷ []) m n (some n'')
            (step-mov l rax m)
            (exec-append (body Reg.rax) (Asm.mov rax out ∷ []) n n' (some n'') e'
              (exec-mov rax out n')),
        (
          read-write out (read rax n') n' tt ∙ g,
          λ o a b c. read-write_other out o (read rax n') n' a ∙ (keep o b b c ∙ k.1 o b),
        ),
      ),
    )

alu_line :
    (op : AluOp) (y : Operand) (r : Reg) (n : Machine) {a c : ℕ}
    → n.regs r ≡ a
    → read y n ≡ c
    → Sets (Asm.alu op y (Operand.reg r) ∷ []) (Operand.reg r) (alu_value op a c) n
unfolding exec step
alu_line op y r n e k =
    let v = alu_value op (n.regs r) (read y n) in
    (
      set_reg r v n,
      (
        refl,
        (
          read-write (Operand.reg r) v n tt ∙ rw (e, k) refl,
          λ o h _ _. read-write_other (Operand.reg r) o v n h,
        ),
      ),
    )

pub emit_alu-Sets :
    (alloc : Allocation) (b : List Instr) (op : AluOp) (res x y : ℤ) (m : Machine)
    → same (Operand.reg (work (alloc res))) (const_or_home alloc b y) ≡ false
    → Sets
        (emit_alu alloc b op res x y)
        (home alloc res)
        (alu_value op (read (home alloc x) m) (read (const_or_home alloc b y) m))
        m
unfolding emit_alu home
emit_alu-Sets alloc b op res x y m h = in_place-Sets (alloc res) res (home alloc x) _ _ m (λ n k.
    alu_line op (const_or_home alloc b y) (work (alloc res)) n (k.0)
      (k.1 (const_or_home alloc b y) h))
