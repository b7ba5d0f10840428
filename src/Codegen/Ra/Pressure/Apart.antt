-- ===== src/Codegen/Ra/Pressure/Apart.antt =====
-- internal/codegen/x86_64/ra.go: overlapping intervals get different registers, under low pressure.
use mathlib.Core.Option.{some-injective}
use ccomp.Base.{
  ℕ, ◌≤◌, ◌≡◌, ◌≢◌, refl, sym, ◌∙◌, inl, inr, true, false, ◌&&◌, not, List, [], ◌∷◌, ◌++◌, Option,
  some, All, snoc-All, leb, le→leb, arith, Bool-cases,
}
use ccomp.Base.Int.{ℤ, ==_ℤ, ==_ℤ_iff}
use ccomp.Codegen.Reg.{Reg, reg_eq, reg_eq_iff}
use ccomp.Codegen.Ra.{LiveInterval, Allocation, put, ActiveInterval, used}
use ccomp.Codegen.Ra.Pressure.Live.{live_at, Apart, Separated, HasOwn}

-- An id that none of the intervals has.
abbrev pub NewTo : ℤ → List LiveInterval → Type 0
NewTo id xs = All (λ y. ==_ℤ id y.id ≡ false) xs

pub live_at-All {ℓ} :
    (P : LiveInterval → Type ℓ) (p : ℕ) (xs : List LiveInterval) → All P xs → All P (live_at p xs)
unfolding live_at
live_at-All P p [] h = tt
live_at-All P p (x ∷ xs) h = elim (Bool-cases (not x.spill && leb p x.stop)) [
  | inl t ↦ simp t (h.0, live_at-All P p xs h.1)
  | inr t ↦ simp t (live_at-All P p xs h.1)
]

-- What holds of the live intervals holds of those that want a register and have not ended.
pub All-live_at {ℓ} :
    (P : LiveInterval → Type ℓ) (p : ℕ) (xs : List LiveInterval)
    → All P (live_at p xs)
    → All (λ y. y.spill ≡ false → p ≤ y.stop → P y) xs
unfolding live_at
All-live_at P p [] h = tt
All-live_at P p (x ∷ xs) h = elim (Bool-cases (not x.spill && leb p x.stop)) [
  | inl t ↦
      let h' : All P (x ∷ live_at p xs) = simp t at h in (λ s q. h'.0, All-live_at P p xs h'.1)
  | inr t ↦
      let h' : All P (live_at p xs) = simp t at h in
      (λ s q. absurd (ground (arith, le→leb p x.stop q)), All-live_at P p xs h')
]

pub put_old :
    (m : Allocation) (k : ℤ) (o : Option Reg) (y : LiveInterval)
    → ==_ℤ k y.id ≡ false
    → put k o m y.id ≡ m y.id
put_old m k o y h = rw h

pub put_new : (m : Allocation) (k : ℤ) (o : Option Reg) → put k o m k ≡ o
put_new m k o = rw ((==_ℤ_iff k k).1 refl)

pub put-Separated :
    (m : Allocation) (k : ℤ) (o : Option Reg) (xs : List LiveInterval)
    → NewTo k xs
    → Separated m xs
    → Separated (put k o m) xs
put-Separated m k o [] n h = tt
put-Separated m k o (x ∷ xs) n h = (pair xs n.1 h.0, put-Separated m k o xs n.1 h.1)
  where
    pair : (ys : List LiveInterval) → NewTo k ys → All (Apart m x) ys → All (Apart (put k o m) x) ys
    pair [] n' g = tt
    pair (y ∷ ys) n' g = (
      λ a b c e. g.0 a b c (sym (put_old m k o x n.0) ∙ e ∙ put_old m k o y n'.0),
      pair ys n'.1 g.1,
    )

pub snoc-Separated :
    (m : Allocation) (xs : List LiveInterval) (y : LiveInterval)
    → Separated m xs
    → All (λ x. Apart m x y) xs
    → Separated m (xs ++ y ∷ [])
snoc-Separated m [] y h a = (tt, tt)
snoc-Separated m (x ∷ xs) y h a = (snoc-All (Apart m x) xs y h.0 a.0, snoc-Separated m xs y h.1 a.1)

-- No active interval holds a register that is not used.
pub unused_own :
    (m : Allocation) (r : Reg) (as' : List ActiveInterval)
    → used as' r ≡ false
    → All (HasOwn m) as'
    → All (λ a. m a.interval.id ≢ some r) as'
unfolding used
unused_own m r [] u h = tt
unused_own m r (a ∷ as') u h = (
  λ e.
      let q : a.reg ≡ r = some-injective _ _ (sym h.0 ∙ e) in
      let y : reg_eq a.reg r ≡ true = (reg_eq_iff a.reg r).1 q in cc (y, u),
  unused_own m r as' (ground arith) h.1,
)
