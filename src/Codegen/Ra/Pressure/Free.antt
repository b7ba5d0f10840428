-- ===== src/Codegen/Ra/Pressure/Free.antt =====
-- internal/codegen/x86_64/ra.go, findFreeRegister: fewer than seven active intervals leave one free.
use ccomp.Base.{
  ℕ, ◌+◌, ◌<◌, ◌≤◌, ◌≡◌, refl, inl, inr, Bool, false, List, [], ◌∷◌, Option, none, some,
  if◌then◌else◌, length, arith, Bool-cases,
}
use ccomp.Codegen.Reg.{Reg, reg_eq}
use ccomp.Codegen.Ra.{ActiveInterval, allocable_regs, used, first_free}

abbrev flag : Bool → ℕ
flag b = if b then 1 else 0

-- How many of the registers are used, and how many are the one at hand.
count_used : List ActiveInterval → List Reg → ℕ
count_used as' [] = 0
count_used as' (r ∷ rs) = flag (used as' r) + count_used as' rs

count_eq : Reg → List Reg → ℕ
count_eq q [] = 0
count_eq q (r ∷ rs) = flag (reg_eq q r) + count_eq q rs

count_eq-allocable : (q : Reg) → count_eq q allocable_regs ≤ 1
unfolding count_eq
count_eq-allocable q = ground arith

count_used-cons :
    (a : ActiveInterval) (as' : List ActiveInterval) (rs : List Reg)
    → count_used (a ∷ as') rs ≤ count_eq a.reg rs + count_used as' rs
unfolding count_used count_eq used
count_used-cons a as' [] = omega arith
count_used-cons a as' (r ∷ rs) = ground (arith, count_used-cons a as' rs)

count_used-nil : (rs : List Reg) → count_used [] rs ≡ 0
unfolding count_used used
count_used-nil [] = refl
count_used-nil (r ∷ rs) = omega (arith, count_used-nil rs)

count_used-le : (as' : List ActiveInterval) → count_used as' allocable_regs ≤ length as'
count_used-le [] = omega (arith, count_used-nil allocable_regs)
count_used-le (a ∷ as') =
    omega (arith, count_used-le as', count_used-cons a as' allocable_regs, count_eq-allocable a.reg)

no_free :
    (as' : List ActiveInterval) (rs : List Reg)
    → first_free as' rs ≡ none
    → count_used as' rs ≡ length rs
unfolding first_free count_used
no_free as' [] h = refl
no_free as' (r ∷ rs) h = ground (arith, no_free as' rs)

free_unused :
    (as' : List ActiveInterval) (rs : List Reg) (r : Reg)
    → first_free as' rs ≡ some r
    → used as' r ≡ false
unfolding first_free
free_unused as' [] r h = cc
free_unused as' (q ∷ rs) r h = elim (Bool-cases (used as' q)) [
  | inl t ↦ free_unused as' rs r (rw t at h)
  | inr t ↦ let e : some q ≡ some r = rw t at h in cc
]

pub free_exists :
    (as' : List ActiveInterval)
    → length as' < 7
    → (r : Reg) × (first_free as' allocable_regs ≡ some r) × (used as' r ≡ false)
free_exists as' h = go (first_free as' allocable_regs) refl
  where
    go :
        (o : Option Reg)
        → first_free as' allocable_regs ≡ o
        → (r : Reg) × (first_free as' allocable_regs ≡ some r) × (used as' r ≡ false)
    go none e = absurd (omega (arith, no_free as' allocable_regs e, count_used-le as'))
    go (some r) e = (r, e, free_unused as' allocable_regs r e)
