-- ===== src/Codegen/Reg.antt =====
-- The registers that internal/codegen/x86_64 names.
use ccomp.Base.{ℕ, ◌≡◌, ◌↔◌, Bool, ◌==◌, arith, true}

pub data Reg : Type 0 where
  rax rbx rcx rdx rsi rdi r8 r9 r10 r11 : Reg

abbrev pub reg_number : Reg → ℕ
reg_number Reg.rax = 0
reg_number Reg.rbx = 1
reg_number Reg.rcx = 2
reg_number Reg.rdx = 3
reg_number Reg.rsi = 4
reg_number Reg.rdi = 5
reg_number Reg.r8 = 6
reg_number Reg.r9 = 7
reg_number Reg.r10 = 8
reg_number Reg.r11 = 9

abbrev pub reg_eq : Reg → Reg → Bool
reg_eq a b = reg_number a == reg_number b

pub reg_eq_iff : (a b : Reg) → (reg_eq a b ≡ true) ↔ (a ≡ b)
reg_eq_iff a b = ground arith
