-- ===== src/Codegen/Emit/Homes.antt =====
-- internal/codegen/x86_64: the homes of values that are live at the same time.
use ccomp.Base.{
  ℕ, suc, ◌≤◌, ◌≡◌, ◌≢◌, refl, ap, inl, inr, true, false, List, [], ◌∷◌, Option, none, some, All,
  map-All, Bool-cases,
}
use ccomp.Base.Int.{ℤ, ==_ℤ, ==_ℤ_iff}
use ccomp.Ir.{Function}
use ccomp.Codegen.Reg.{Reg, reg_eq, reg_eq_iff}
use ccomp.Codegen.Ra.{LiveInterval, Allocation, live_intervals, allocate_registers}
use ccomp.Codegen.Ra.Assigned.{Member, Unspilled, allocate_registers-Unspilled}
use ccomp.Codegen.Ra.Intervals.{Ordered, live_intervals_lem}
use ccomp.Codegen.Ra.Pressure.Live.{LowPressure, Separated}
use ccomp.Codegen.Ra.Pressure.Live as Live
use ccomp.Codegen.Ra.Pressure.Steps.{allocate_registers_apart}
use ccomp.Codegen.Asm.{Operand}
use ccomp.Codegen.Emit.{rax, rcx, in_home, home}
use ccomp.Codegen.Emit.Place.{same}
use ccomp.Codegen.Emit.Slots.{Clear, slot_offset-Clear, allocable-scratch}

-- Two homes share neither a register nor a byte of the frame.
abbrev pub Disjoint : Operand → Operand → Type 0
Disjoint (Operand.reg q) (Operand.reg r) = reg_eq q r ≡ false
Disjoint (Operand.slot p) (Operand.slot q) = Clear p q
Disjoint _ _ = Unit

-- Of a list of intervals, each has a home that is neither %rax nor %rcx, and two that overlap have
-- disjoint homes.
abbrev pub HomesDisjoint : Allocation → List LiveInterval → Type 0
HomesDisjoint m [] = Unit
HomesDisjoint m (x ∷ xs) =
    ((same rax (home m x.id) ≡ false) × (same rcx (home m x.id) ≡ false))
    × All (λ y. y.start ≤ x.stop → Disjoint (home m x.id) (home m y.id)) xs
    × HomesDisjoint m xs

in_home-Disjoint :
    (p q : Option Reg) (x y : ℤ)
    → ==_ℤ x y ≡ false
    → ((r s : Reg) → p ≡ some r → q ≡ some s → p ≢ q)
    → Disjoint (in_home p x) (in_home q y)
in_home-Disjoint none none x y h g = slot_offset-Clear x y h
in_home-Disjoint none (some r) x y h g = tt
in_home-Disjoint (some r) none x y h g = tt
in_home-Disjoint (some r) (some s) x y h g = elim (Bool-cases (reg_eq r s)) [
  | inl t ↦ elim (g r s refl refl (ap (λ z. some z) ((reg_eq_iff r s).0 t))) [ ]
  | inr f ↦ f
]

All-zip :
    {P Q R : LiveInterval → Type 0} (xs : List LiveInterval)
    → ((x : LiveInterval) → P x → Q x → R x)
    → All P xs
    → All Q xs
    → All R xs
All-zip [] f p q = tt
All-zip (x ∷ xs) f p q = (f x p.0 q.0, All-zip xs f p.1 q.1)

other-Member :
    (x : LiveInterval) (xs : List LiveInterval) (y : LiveInterval)
    → All (λ z. ==_ℤ x.id z.id ≡ false) xs
    → Member y xs
    → y.id ≡ x.id
    → ⊥
other-Member x [] y n m i = m
other-Member x (z ∷ xs) y n (inl e) i =
    let t : ==_ℤ x.id z.id ≡ true = (==_ℤ_iff x.id z.id).1 (cc (i, ap (λ v. v.id) e)) in
    let f = n.0 in cc
other-Member x (z ∷ xs) y n (inr m) i = other-Member x xs y n.1 m i

-- An id stands in one interval, so it is this one that is not marked.
unmarked :
    (lo : ℕ) (xs : List LiveInterval)
    → Ordered lo xs
    → All (λ x. Unspilled xs x.id → x.spill ≡ false) xs
unmarked lo [] o = tt
unmarked lo (x ∷ xs) o = (here, All-zip xs later o.1 (unmarked (suc x.start) xs o.2))
  where
    here : Unspilled (x ∷ xs) x.id → x.spill ≡ false
    here (y, inl e, i, s) = cc (ap (λ v. v.spill) e)
    here (y, inr m, i, s) = elim (other-Member x xs y o.1 m i) [ ]

    later :
        (z : LiveInterval)
        → ==_ℤ x.id z.id ≡ false
        → (Unspilled xs z.id → z.spill ≡ false)
        → Unspilled (x ∷ xs) z.id
        → z.spill ≡ false
    later z n h (y, inl e, i, s) =
        let t : ==_ℤ x.id z.id ≡ true = (==_ℤ_iff x.id z.id).1 (cc (i, ap (λ v. v.id) e)) in cc
    later z n h (y, inr m, i, s) = h (y, m, i, s)

-- Whether the entry of an interval is none or it is not marked for the stack.
abbrev Marked : Allocation → LiveInterval → Type 0
Marked m x = (r : Reg) → m x.id ≡ some r → x.spill ≡ false

overlapping-Disjoint :
    (m : Allocation) (x y : LiveInterval)
    → ==_ℤ x.id y.id ≡ false
    → Marked m x
    → Live.Apart m x y × Marked m y
    → y.start ≤ x.stop
    → Disjoint (home m x.id) (home m y.id)
unfolding home
overlapping-Disjoint m x y n p (a, q) l =
    in_home-Disjoint (m x.id) (m y.id) x.id y.id n (λ r s e e'. a (p r e) (q s e') l)

Separated-HomesDisjoint :
    (m : Allocation) (lo : ℕ) (xs : List LiveInterval)
    → Ordered lo xs
    → Separated m xs
    → All (Marked m) xs
    → ((id : ℤ) → (same rax (home m id) ≡ false) × (same rcx (home m id) ≡ false))
    → HomesDisjoint m xs
Separated-HomesDisjoint m lo [] o s k h = tt
Separated-HomesDisjoint m lo (x ∷ xs) o s k h = (
  h x.id,
  All-zip xs (λ y n a. overlapping-Disjoint m x y n k.0 a) o.1
      (All-zip xs (λ y a q. (a, q)) s.0 k.1),
  Separated-HomesDisjoint m (suc x.start) xs o.2 s.1 k.1 h,
)

-- If fewer than seven intervals that want a register are unfinished whenever one more starts, two
-- values whose live intervals overlap have homes that share neither a register nor a byte of the
-- frame, whether they are in registers or on the stack, and no such home is %rax or %rcx.
pub allocate_registers-HomesDisjoint :
    (f : Function)
    → LowPressure [] (live_intervals f)
    → HomesDisjoint (allocate_registers f) (live_intervals f)
unfolding home
allocate_registers-HomesDisjoint f low =
    let m = allocate_registers f in
    let l = live_intervals f in
    let o = (live_intervals_lem f).0 in
    let marked : All (Marked m) l =
      map-All _ _ l (λ x h r e. h (allocate_registers-Unspilled f x.id r e).1) (unmarked 0 l o) in
    Separated-HomesDisjoint m 0 l o (allocate_registers_apart f low).0 marked
      (λ id. allocable-scratch (m id) id (λ r e. (allocate_registers-Unspilled f id r e).0))
