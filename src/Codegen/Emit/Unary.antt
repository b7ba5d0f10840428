-- ===== src/Codegen/Emit/Unary.antt =====
-- internal/codegen/x86_64/emit.go: constants, copies, the two negations and comparisons, which are
-- computed in %rax.
use ccomp.Base.{
  ℕ, ◌+◌, ◌-◌, ◌%◌, ◌≡◌, refl, ap, ◌∙◌, Bool, true, false, List, [], ◌∷◌, ◌++◌, Option, none, some,
  ◌==◌, if◌then◌else◌, arith,
}
use ccomp.Base.Int.{ℤ}
use ccomp.Base.Word
use ccomp.Ir.{Instr}
use ccomp.Ir.Meaning.{flag}
use ccomp.Codegen.Reg.{Reg}
use ccomp.Codegen.Ra.{Allocation}
use ccomp.Codegen.Asm.{Asm, Cond, Operand, Machine, read, write, set_reg, cond_value, step, exec}
use ccomp.Codegen.Emit.{
  rax, slot_offset, in_home, home, const_or_home, finish, move_to, emit_move, emit_bitwise_not,
  emit_logical_not, emit_compare,
}
use ccomp.Codegen.Emit.Place.{
  same, IsPlace, read-write, read-write_other, Sets, exec-append, exec-mov,
}

pub in_home-IsPlace : (o : Option Reg) (id : ℤ) → IsPlace (in_home o id)
in_home-IsPlace none id = tt
in_home-IsPlace (some r) id = tt

-- A result in %rax is moved home.
finish-Sets :
    (alloc : Allocation) (res : ℤ) (code : List Asm) (v : ℕ) (m : Machine)
    → Sets code rax v m
    → Sets (code ++ finish alloc res) (home alloc res) v m
unfolding finish home
finish-Sets alloc res code v m h =
    let (n, (e, (g, keep))) = h in
    let d = in_home (alloc res) res in
    (
      write d (read rax n) n,
      (
        exec-append code (Asm.mov rax d ∷ []) m n _ e (exec-mov rax d n),
        (
          read-write d (read rax n) n (in_home-IsPlace (alloc res) res) ∙ g,
          λ o a b c. read-write_other d o (read rax n) n a ∙ keep o b b c,
        ),
      ),
    )

move_to-Sets :
    (dest : Option Reg) (res : ℤ) (o : Operand) (m : Machine)
    → Sets (move_to dest res o) (in_home dest res) (read o m) m
unfolding exec step
move_to-Sets (some r) res o m = (
  set_reg r (read o m) m,
  (
    refl,
    (
      read-write (Operand.reg r) (read o m) m tt,
      λ p a _ _. read-write_other (Operand.reg r) p (read o m) m a,
    ),
  ),
)
move_to-Sets none res o m =
    let n = set_reg Reg.rax (read o m) m in
    let d = Operand.slot (slot_offset res) in
    (
      write d (read o m) n,
      (
        refl,
        (
          read-write d (read o m) n tt,
          λ p a b _. read-write_other d p (read o m) n a ∙ read-write_other rax p (read o m) m b,
        ),
      ),
    )

pub emit_move-Sets :
    (alloc : Allocation) (res : ℤ) (o : Operand) (m : Machine)
    → Sets (emit_move alloc res o) (home alloc res) (read o m) m
unfolding emit_move home
emit_move-Sets alloc res o m = move_to-Sets (alloc res) res o m

not_line :
    (y : Operand) (m : Machine)
    → Sets (Asm.mov y rax ∷ Asm.not Reg.rax ∷ []) rax (Word.complement (read y m)) m
unfolding exec step
not_line y m =
    let n = set_reg Reg.rax (read y m) m in
    (
      _,
      (
        refl,
        (
          refl,
          λ o _ b _.
              read-write_other rax o (Word.complement (read y m)) n b
              ∙ read-write_other rax o (read y m) m b,
        ),
      ),
    )

pub emit_bitwise_not-Sets :
    (alloc : Allocation) (b : List Instr) (res x : ℤ) (m : Machine)
    → Sets
        (emit_bitwise_not alloc b res x)
        (home alloc res)
        (Word.complement (read (const_or_home alloc b x) m))
        m
unfolding emit_bitwise_not
emit_bitwise_not-Sets alloc b res x m =
    finish-Sets alloc res (Asm.mov (const_or_home alloc b x) rax ∷ Asm.not Reg.rax ∷ []) _ m
      (not_line (const_or_home alloc b x) m)

-- The low byte set, and the rest cleared.
low_byte : (x : ℕ) (t : Bool) → (x - x % 256 + (if t then 1 else 0)) % 256 ≡ flag t
low_byte x true = omega arith
low_byte x false = omega arith

read-compared :
    (o : Operand) (m : Machine) (p : ℕ × ℕ) → read o (record m { compared = p }) ≡ read o m
read-compared (Operand.imm c) m p = refl
read-compared (Operand.reg r) m p = refl
read-compared (Operand.slot s) m p = refl

compare_line :
    (c : Cond) (x y : Operand) (m : Machine)
    → same rax y ≡ false
    → Sets
        (Asm.mov x rax ∷ Asm.cmp y rax ∷ Asm.set_al c ∷ Asm.movzx_al ∷ [])
        rax
        (flag (cond_value c (read x m, read y m)))
        m
unfolding exec step
compare_line c x y m h =
    let n = set_reg Reg.rax (read x m) m in
    let t = cond_value c (read x m, read y n) in
    let a = read x m - read x m % 256 + (if t then 1 else 0) in
    let p : Machine = record n { compared = (read x m, read y n) } in
    (
      set_reg Reg.rax (a % 256) (set_reg Reg.rax a p),
      (
        refl,
        (
          low_byte (read x m) t
              ∙ ap (λ z. flag (cond_value c (read x m, z))) (read-write_other rax y (read x m) m h),
          λ o _ b _.
              read-write_other rax o (a % 256) (set_reg Reg.rax a p) b
              ∙ (read-write_other rax o a p b
                  ∙ (read-compared o n _ ∙ read-write_other rax o (read x m) m b)),
        ),
      ),
    )

pub emit_compare-Sets :
    (alloc : Allocation) (b : List Instr) (c : Cond) (res x y : ℤ) (m : Machine)
    → same rax (const_or_home alloc b y) ≡ false
    → Sets
        (emit_compare alloc b c res x y)
        (home alloc res)
        (flag (cond_value c (read (home alloc x) m, read (const_or_home alloc b y) m)))
        m
unfolding emit_compare
emit_compare-Sets alloc b c res x y m h =
    let l = home alloc x in
    let r = const_or_home alloc b y in
    finish-Sets alloc res (Asm.mov l rax ∷ Asm.cmp r rax ∷ Asm.set_al c ∷ Asm.movzx_al ∷ []) _ m
      (compare_line c l r m h)

-- `!x` is the comparison of x with 0.
pub emit_logical_not-Sets :
    (alloc : Allocation) (b : List Instr) (res x : ℤ) (m : Machine)
    → Sets
        (emit_logical_not alloc b res x)
        (home alloc res)
        (flag (read (const_or_home alloc b x) m == 0))
        m
unfolding emit_logical_not cond_value
emit_logical_not-Sets alloc b res x m =
    let l = const_or_home alloc b x in
    finish-Sets alloc res
      (Asm.mov l rax ∷ Asm.cmp (Operand.imm 0) rax ∷ Asm.set_al Cond.e ∷ Asm.movzx_al ∷ []) _ m
      (compare_line Cond.e l (Operand.imm 0) m refl)
