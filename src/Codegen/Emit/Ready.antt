-- ===== src/Codegen/Emit/Ready.antt =====
-- internal/codegen/x86_64: the registers that ra.go gives suit the code that emit.go writes.
use ccomp.Base.{
  ◌≡◌, ◌≢◌, refl, sym, ap, inl, inr, false, List, Option, none, some, Bool-cases, Option-cases,
  arith,
}
use ccomp.Base.Int.{ℤ}
use ccomp.Ir.{Instr, Function}
use ccomp.Codegen.Reg.{Reg, reg_eq, reg_eq_iff}
use ccomp.Codegen.Ra.{allocate_registers}
use ccomp.Codegen.Ra.Assigned.{IsAllocable, allocate_registers_sound}
use ccomp.Codegen.Asm.{Operand}
use ccomp.Codegen.Emit.{in_home, or_imm, home, is_const, const_or_home}
use ccomp.Codegen.Emit.Place.{same}
use ccomp.Codegen.Emit.Alu.{work}
use ccomp.Codegen.Emit.Binary.{Apart}
use ccomp.Codegen.Emit.Slots.{allocable-scratch}

abbrev Given : Option Reg → Type 0
Given o = (r : Reg) → o ≡ some r → IsAllocable r

work-rcx : (o : Option Reg) → Given o → reg_eq Reg.rcx (work o) ≡ false
work-rcx none g = refl
work-rcx (some r) g = let a = g r refl in ground (arith, a)

work-same :
    (p q : Option Reg) (y : ℤ)
    → Given q
    → ((r : Reg) → p ≡ some r → q ≢ some r)
    → same (Operand.reg (work p)) (in_home q y) ≡ false
work-same none q y g n = (allocable-scratch q y g).0
work-same (some r) none y g n = refl
work-same (some r) (some s) y g n = elim (Bool-cases (reg_eq r s)) [
  | inl t ↦ elim (n r refl (ap (λ z. some z) (sym ((reg_eq_iff r s).0 t)))) [ ]
  | inr f ↦ f
]

-- With the registers that the allocator gives to a function, an operand that shares no register with
-- the result is apart from where the result is computed: it is neither there nor in %rax, and the
-- result is not computed in %rcx.
pub allocate_registers-Apart :
    (f : Function) (b : List Instr) (res y : ℤ)
    → ((r : Reg) → allocate_registers f res ≡ some r → allocate_registers f y ≢ some r)
    → Apart (work (allocate_registers f res)) (const_or_home (allocate_registers f) b y)
unfolding const_or_home home
allocate_registers-Apart f b res y n =
    let given : (id : ℤ) → Given (allocate_registers f id) =
      λ id r e. (allocate_registers_sound f id r e).0 in
    let rcx = work-rcx (allocate_registers f res) (given res) in
    elim (Option-cases (is_const b y)) [
      | inl e ↦
          rw (e, or_imm)
            (record {
              dest_apart =
                  work-same (allocate_registers f res) (allocate_registers f y) y (given y) n;
              rax_apart = (allocable-scratch (allocate_registers f y) y (given y)).0;
              rcx_apart = rcx;
            })
      | inr (c, e) ↦
          rw (e, or_imm) (record { dest_apart = refl; rax_apart = refl; rcx_apart = rcx })
    ]
