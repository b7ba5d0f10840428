-- ===== src/Codegen/Ra/Pressure/Live.antt =====
-- internal/codegen/x86_64/ra.go: the intervals that are live, and the active ones.
use ccomp.Base.{
  ℕ, ◌<◌, ◌≤◌, ◌≡◌, ◌≢◌, refl, ap, ◌∙◌, inl, inr, false, ◌&&◌, not, List, [], ◌∷◌, ◌++◌, map, none,
  some, All, leb, if◌then◌else◌, length, arith, Bool-cases,
}
use ccomp.Codegen.Ra.{LiveInterval, Allocation, ActiveInterval, expire, Scan}

-- The intervals that want a register and do not end before `p`.
unfoldable pub live_at : ℕ → List LiveInterval → List LiveInterval
live_at p [] = []
live_at p (x ∷ xs) = if not x.spill && leb p x.stop then x ∷ live_at p xs else live_at p xs

-- When an interval that wants a register starts, fewer than seven of those before it have not ended.
abbrev pub LowPressure : List LiveInterval → List LiveInterval → Type 0
LowPressure done [] = Unit {0}
LowPressure done (x ∷ xs) =
    (x.spill ≡ false → length (live_at x.start done) < 7) × LowPressure (done ++ x ∷ []) xs

-- Two intervals that want registers and overlap have different entries in the map.
abbrev pub Apart : Allocation → LiveInterval → LiveInterval → Type 0
Apart m x y = x.spill ≡ false → y.spill ≡ false → y.start ≤ x.stop → m x.id ≢ m y.id

abbrev pub Separated : Allocation → List LiveInterval → Type 0
Separated m [] = Unit {0}
Separated m (x ∷ xs) = All (Apart m x) xs × Separated m xs

abbrev pub HasReg : Allocation → LiveInterval → Type 0
HasReg m x = x.spill ≡ false → m x.id ≢ none

abbrev pub intervals : List ActiveInterval → List LiveInterval
intervals as' = map (λ a. a.interval) as'

abbrev pub HasOwn : Allocation → ActiveInterval → Type 0
HasOwn m a = m a.interval.id ≡ some a.reg

-- What holds of the scan after the intervals `done`, the last of which starts at `p`.
pub record Placed (p : ℕ) (done : List LiveInterval) (s : Scan) : Type 0 where
  pub active_eq : intervals s.active ≡ live_at p done
  pub own : All (HasOwn s.reg_of) s.active
  pub separated : Separated s.reg_of done
  pub assigned : All (HasReg s.reg_of) done

pub expire-All {ℓ} :
    (P : ActiveInterval → Type ℓ) (q : ℕ) (as' : List ActiveInterval)
    → All P as'
    → All P (expire q as')
unfolding expire
expire-All P q [] h = tt
expire-All P q (a ∷ as') h = elim (Bool-cases (leb q a.interval.stop)) [
  | inl t ↦ rw t (h.0, expire-All P q as' h.1)
  | inr t ↦ rw t (expire-All P q as' h.1)
]

-- A later start leaves out more.
live_at-live_at :
    (p q : ℕ) (xs : List LiveInterval) → p ≤ q → live_at q (live_at p xs) ≡ live_at q xs
unfolding live_at
live_at-live_at p q [] h = refl
live_at-live_at p q (x ∷ xs) h = ground (arith, live_at-live_at p q xs h)

expire-live_at :
    (q : ℕ) (as' : List ActiveInterval)
    → All (λ a. a.interval.spill ≡ false) as'
    → intervals (expire q as') ≡ live_at q (intervals as')
unfolding expire live_at
expire-live_at q [] h = refl
expire-live_at q (a ∷ as') h = ground (arith, expire-live_at q as' h.1)

pub live_at-unspilled : (p : ℕ) (xs : List LiveInterval) → All (λ x. x.spill ≡ false) (live_at p xs)
unfolding live_at
live_at-unspilled p [] = tt
live_at-unspilled p (x ∷ xs) = ground (arith, live_at-unspilled p xs)

pub All-intervals {ℓ} :
    (P : LiveInterval → Type ℓ) (as' : List ActiveInterval)
    → All P (intervals as')
    → All (λ a. P a.interval) as'
All-intervals P [] h = tt
All-intervals P (a ∷ as') h = (h.0, All-intervals P as' h.1)

pub intervals-All {ℓ} :
    (P : LiveInterval → Type ℓ) (as' : List ActiveInterval)
    → All (λ a. P a.interval) as'
    → All P (intervals as')
intervals-All P [] h = tt
intervals-All P (a ∷ as') h = (h.0, intervals-All P as' h.1)

pub live_at-append :
    (p : ℕ) (xs ys : List LiveInterval) → live_at p (xs ++ ys) ≡ live_at p xs ++ live_at p ys
unfolding live_at
live_at-append p [] ys = refl
live_at-append p (x ∷ xs) ys = ground (arith, live_at-append p xs ys)

-- The scan lets the intervals go that have ended.
pub expire-active_eq :
    (p q : ℕ) (done : List LiveInterval) (as' : List ActiveInterval)
    → p ≤ q
    → intervals as' ≡ live_at p done
    → intervals (expire q as') ≡ live_at q done
expire-active_eq p q done as' h e =
    let unspilled = All-intervals (λ x. x.spill ≡ false) as' (rw e (live_at-unspilled p done)) in
    expire-live_at q as' unspilled ∙ ap (live_at q) e ∙ live_at-live_at p q done h
