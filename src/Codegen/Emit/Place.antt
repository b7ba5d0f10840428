-- ===== src/Codegen/Emit/Place.antt =====
-- internal/codegen/x86_64/emit.go: what a line of assembly sets, and what it leaves as it was.
use ccomp.Base.{
  ℕ, ◌≡◌, refl, ap, ◌∙◌, inl, inr, Bool, false, List, [], ◌∷◌, ◌++◌, Option, some, Option-cases,
}
use ccomp.Base.Int.{==_ℤ, ==_ℤ_iff}
use ccomp.Codegen.Reg.{reg_eq, reg_eq_iff}
use ccomp.Codegen.Asm.{Asm, Operand, Machine, read, write, step, exec}
use ccomp.Codegen.Emit.{rax, rcx}

-- Whether two operands are one register or one slot.
abbrev pub same : Operand → Operand → Bool
same (Operand.reg q) (Operand.reg r) = reg_eq q r
same (Operand.slot p) (Operand.slot q) = ==_ℤ p q
same _ _ = false

-- A register or a slot.
abbrev pub IsPlace : Operand → Type 0
IsPlace (Operand.imm c) = ⊥
IsPlace _ = Unit

pub read-write : (d : Operand) (v : ℕ) (m : Machine) → IsPlace d → read d (write d v m) ≡ v
read-write (Operand.imm c) v m h = elim h [ ]
read-write (Operand.reg r) v m h = rw ((reg_eq_iff r r).1 refl) refl
read-write (Operand.slot o) v m h = rw ((==_ℤ_iff o o).1 refl) refl

pub read-write_other :
    (d o : Operand) (v : ℕ) (m : Machine) → same d o ≡ false → read o (write d v m) ≡ read o m
read-write_other (Operand.imm c) o v m h = refl
read-write_other (Operand.reg q) (Operand.imm c) v m h = refl
read-write_other (Operand.reg q) (Operand.slot o) v m h = refl
read-write_other (Operand.reg q) (Operand.reg r) v m h = rw h refl
read-write_other (Operand.slot p) (Operand.imm c) v m h = refl
read-write_other (Operand.slot p) (Operand.reg r) v m h = refl
read-write_other (Operand.slot p) (Operand.slot q) v m h = rw h refl

-- What the code leaves alone: all but the scratch registers and `d`.
abbrev pub Keeps : Operand → Machine → Machine → Type 0
Keeps d m n =
    (o : Operand) → same d o ≡ false → same rax o ≡ false → same rcx o ≡ false → read o n ≡ read o m

-- The code runs to its end, sets `d` to `v`, and leaves the rest alone.
abbrev pub Sets : List Asm → Operand → ℕ → Machine → Type 0
Sets code d v m = (n : Machine) × ((exec code m ≡ some n) × ((read d n ≡ v) × Keeps d m n))

-- A line in front of the code.
pub exec-∷ :
    (a : Asm) (code : List Asm) (m n : Machine) (r : Option Machine)
    → step a m ≡ some n
    → exec code n ≡ r
    → exec (a ∷ code) m ≡ r
unfolding exec
exec-∷ a code m n r e k = rw (e, exec) k

pub exec-append :
    (c d : List Asm) (m n : Machine) (r : Option Machine)
    → exec c m ≡ some n
    → exec d n ≡ r
    → exec (c ++ d) m ≡ r
unfolding exec
exec-append [] d m n r e k = ap (exec d) (cc (e)) ∙ k
exec-append (a ∷ c) d m n r e k = elim (Option-cases (step a m)) [
  | inl s ↦ cc (rw (s, exec) at e)
  | inr (m', s) ↦ exec-∷ a (c ++ d) m m' r s (exec-append c d m' n r (rw (s, exec) at e) k)
]

-- A move at the end.
pub exec-mov :
    (s d : Operand) (m : Machine) → exec (Asm.mov s d ∷ []) m ≡ some (write d (read s m) m)
unfolding exec step
exec-mov s d m = refl

pub step-mov : (s d : Operand) (m : Machine) → step (Asm.mov s d) m ≡ some (write d (read s m) m)
unfolding step
step-mov s d m = refl
