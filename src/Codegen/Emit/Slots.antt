-- ===== src/Codegen/Emit/Slots.antt =====
-- internal/codegen/x86_64/emit.go: the frame and the slots in it.
use ccomp.Base.{
  ℕ, suc, ◌+◌, ◌*◌, ◌%◌, ◌≤◌, ◌≡◌, refl, ◌⊎◌, inl, inr, true, false, List, [], ◌∷◌, Option, none,
  some, Bool-cases, arith, All, any, ltb, ◌==◌,
}
use ccomp.Base.Int.{ℤ, pos, negsuc, ==_ℤ}
use ccomp.Ir.{Instr, BasicBlock, Function}
use ccomp.Codegen.Reg.{Reg, reg_eq}
use ccomp.Codegen.Ra.{allocable_regs}
use ccomp.Codegen.Emit.{rax, rcx, slot_offset, in_home, align}
use ccomp.Codegen.Emit.Func.{slots_for, num_slots, num_slots_all, frame_size}
use ccomp.Codegen.Emit.Place.{same}

-- The eight bytes from -(k + 1) on are in a frame of the size, and below the saved %rbp at 0.
abbrev InFrame : ℕ → ℤ → Type 0
InFrame size (pos n) = ⊥
InFrame size (negsuc k) = (8 ≤ suc k) × (suc k ≤ size)

-- Two times eight bytes, from two distances on, have none in common.
abbrev pub Clear : ℤ → ℤ → Type 0
Clear (pos a) (pos b) = (a + 8 ≤ b) ⊎ (b + 8 ≤ a)
Clear (pos a) (negsuc b) = 8 ≤ a + suc b
Clear (negsuc a) (pos b) = 8 ≤ b + suc a
Clear (negsuc a) (negsuc b) = (a + 8 ≤ b) ⊎ (b + 8 ≤ a)

-- An id, if it is that of a value, has its slot in the frame.
abbrev pub HasSlot : ℕ → ℤ → Type 0
HasSlot size (pos r) = InFrame size (slot_offset (pos r))
HasSlot size (negsuc r) = Unit

abbrev pub Fits : ℕ → Instr → Type 0
Fits size i = HasSlot size i.res

HasSlot-mono : (size more : ℕ) (id : ℤ) → size ≤ more → HasSlot size id → HasSlot more id
HasSlot-mono size more (pos r) h f = (f.0, omega (arith, h, f.1))
HasSlot-mono size more (negsuc r) h f = tt

slots_for-HasSlot : (id : ℤ) (n : ℕ) → HasSlot (slots_for id n * 8) id × (n ≤ slots_for id n)
slots_for-HasSlot (pos r) n = ((omega arith, ground arith), ground arith)
slots_for-HasSlot (negsuc r) n = (tt, omega arith)

All-Fits : (size more : ℕ) (is : List Instr) → size ≤ more → All (Fits size) is → All (Fits more) is
All-Fits size more [] h f = tt
All-Fits size more (i ∷ is) h f = (HasSlot-mono size more i.res h f.0, All-Fits size more is h f.1)

num_slots-Fits : (is : List Instr) → All (Fits (num_slots is * 8)) is
unfolding num_slots
num_slots-Fits [] = tt
num_slots-Fits (i ∷ is) =
    let h = slots_for-HasSlot i.res (num_slots is) in
    (h.0, All-Fits (num_slots is * 8) _ is (omega (arith, h.1)) (num_slots-Fits is))

abbrev BlocksFit : ℕ → List BasicBlock → Type 0
BlocksFit size bs = All (λ b. All (Fits size) b.instrs) bs

All-BlocksFit :
    (size more : ℕ) (bs : List BasicBlock) → size ≤ more → BlocksFit size bs → BlocksFit more bs
All-BlocksFit size more [] h f = tt
All-BlocksFit size more (b ∷ bs) h f =
    (All-Fits size more b.instrs h f.0, All-BlocksFit size more bs h f.1)

num_slots_all-BlocksFit : (bs : List BasicBlock) → BlocksFit (num_slots_all bs * 8) bs
unfolding num_slots_all
num_slots_all-BlocksFit [] = tt
num_slots_all-BlocksFit (b ∷ bs) =
    let m = num_slots b.instrs in
    let n = num_slots_all bs in
    (
      All-Fits (m * 8) _ b.instrs (ground arith) (num_slots-Fits b.instrs),
      All-BlocksFit (n * 8) _ bs (ground arith) (num_slots_all-BlocksFit bs),
    )

slots-Clear :
    (a b : ℕ) → (a == b) ≡ false → (8 * a + 7 + 8 ≤ 8 * b + 7) ⊎ (8 * b + 7 + 8 ≤ 8 * a + 7)
slots-Clear a b h = elim (Bool-cases (ltb a b)) [
  | inl t ↦ inl (ground (arith, t))
  | inr f ↦ inr (ground (arith, f, h))
]

pub slot_offset-Clear : (x y : ℤ) → ==_ℤ x y ≡ false → Clear (slot_offset x) (slot_offset y)
slot_offset-Clear (pos a) (pos b) h = slots-Clear a b h
slot_offset-Clear (pos a) (negsuc b) h = omega arith
slot_offset-Clear (negsuc a) (pos b) h = omega arith
slot_offset-Clear (negsuc a) (negsuc b) h = elim (Bool-cases (ltb a b)) [
  | inl t ↦ inl (ground (arith, t))
  | inr f ↦ inr (ground (arith, f, h))
]

-- The frame of a function is a multiple of 16 bytes; each value that one of its instructions defines
-- has a slot of eight bytes in it, below the saved %rbp; and the slots of two different values have
-- no byte in common.
pub frame_size-Fits :
    (f : Function) (x y : ℤ)
    → ==_ℤ x y ≡ false
    → (frame_size f % 16 ≡ 0)
      × All (λ b. All (Fits (frame_size f)) b.instrs) f.blocks
      × Clear (slot_offset x) (slot_offset y)
unfolding frame_size
frame_size-Fits f x y h =
    let n = num_slots_all f.blocks * 8 in
    (
      omega arith,
      All-BlocksFit n (align n 16) f.blocks (omega arith) (num_slots_all-BlocksFit f.blocks),
      slot_offset-Clear x y h,
    )

-- Registers that are given away are no scratch registers.
pub allocable-scratch :
    (o : Option Reg) (x : ℤ)
    → ((r : Reg) → o ≡ some r → any (λ q. reg_eq q r) allocable_regs ≡ true)
    → (same rax (in_home o x) ≡ false) × (same rcx (in_home o x) ≡ false)
allocable-scratch none x h = (refl, refl)
allocable-scratch (some r) x h = let a = h r refl in (ground (arith, a), ground (arith, a))
