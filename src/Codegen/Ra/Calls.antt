-- ===== src/Codegen/Ra/Calls.antt =====
-- internal/codegen/x86_64/ra.go: the calls among the instructions, and the intervals they cut.
use ccomp.Base.{
  ℕ, zero, suc, ◌+◌, ◌<◌, ◌≡◌, refl, sym, subst, ◌↔◌, inl, inr, true, false, List, [], ◌∷◌, some,
  get_elem?, ◌&&◌, ltb, arith, Bool-cases,
}
use mathlib.Core.Option.{some-injective}
use ccomp.Ir.{Op, op_eq, Instr}
use ccomp.Ir.Ssa.{op_eq→eq}
use ccomp.Codegen.Ra.{call_nums, spans_call}

-- A call at place `c`, counted from `n` on, strictly between two instructions.
abbrev CutFrom : ℕ → List Instr → ℕ → ℕ → Type 0
CutFrom n is start stop =
    (c : ℕ) × (i : Instr) × (get_elem? is c ≡ some i)
    × (i.val.op ≡ Op.call)
    × (start < n + c)
    × (n + c < stop)

cut-later :
    (n : ℕ) (i : Instr) (is : List Instr) (start stop : ℕ)
    → CutFrom (n + 1) is start stop
    → CutFrom n (i ∷ is) start stop
cut-later n i is start stop (c, j, e, o, l, u) =
    (suc c, j, e, o, omega (arith, l), omega (arith, u))

cut-rest :
    (n : ℕ) (i : Instr) (is : List Instr) (start stop : ℕ)
    → (i.val.op ≡ Op.call → (start < n) → (n < stop) → ⊥)
    → CutFrom n (i ∷ is) start stop
    → CutFrom (n + 1) is start stop
cut-rest n i is start stop never (zero, j, e, o, l, u) =
    let same : i ≡ j = some-injective i j e in
    absurd
      (never (subst (λ k. k.val.op ≡ Op.call) (sym same) o) (omega (arith, l)) (omega (arith, u)))
cut-rest n i is start stop never (suc c, j, e, o, l, u) =
    (c, j, e, o, omega (arith, l), omega (arith, u))

spans_call→cut :
    (n : ℕ) (is : List Instr) (start stop : ℕ)
    → spans_call (call_nums n is) start stop ≡ true
    → CutFrom n is start stop
unfolding spans_call call_nums
spans_call→cut n [] start stop h = cc
spans_call→cut n (i ∷ is) start stop h = elim (Bool-cases (op_eq i.val.op Op.call)) [
  | inl t ↦ elim (Bool-cases (ltb start n && ltb n stop)) [
    | inl b ↦ (zero, i, refl, op_eq→eq i.val.op Op.call t, ground (arith, b), ground (arith, b))
    | inr b ↦ cut-later n i is start stop (spans_call→cut (n + 1) is start stop (rw (t, b) at h))
  ]
  | inr f ↦ cut-later n i is start stop (spans_call→cut (n + 1) is start stop (rw f at h))
]

cut→spans_call :
    (n : ℕ) (is : List Instr) (start stop : ℕ)
    → CutFrom n is start stop
    → spans_call (call_nums n is) start stop ≡ true
unfolding spans_call call_nums
cut→spans_call n [] start stop (c, j, e, o, l, u) = cc
cut→spans_call n (i ∷ is) start stop h = elim (Bool-cases (op_eq i.val.op Op.call)) [
  | inl t ↦ elim (Bool-cases (ltb start n && ltb n stop)) [
    | inl b ↦ rw (t, b) refl
    | inr b ↦
        rw (t, b)
          (cut→spans_call (n + 1) is start stop
            (cut-rest n i is start stop (λ o l u. ground (arith, b, l, u)) h))
  ]
  | inr f ↦ rw f (
      cut→spans_call (n + 1) is start stop
        (cut-rest n i is start stop (λ o l u. let t : true ≡ false = rw o at f in cc) h))
]

-- A call stands strictly between two instructions.
abbrev pub IsCut : List Instr → ℕ → ℕ → Type 0
IsCut is start stop =
    (c : ℕ) × (i : Instr) × (get_elem? is c ≡ some i)
    × (i.val.op ≡ Op.call)
    × (start < c)
    × (c < stop)

pub spans_call-IsCut :
    (is : List Instr) (start stop : ℕ)
    → (spans_call (call_nums 0 is) start stop ≡ true) ↔ IsCut is start stop
spans_call-IsCut is start stop = (
  λ h.
      let (c, i, e, o, l, u) = spans_call→cut 0 is start stop h in
      (c, i, e, o, omega (arith, l), omega (arith, u)),
  λ h.
      let (c, i, e, o, l, u) = h in
      cut→spans_call 0 is start stop (c, i, e, o, omega (arith, l), omega (arith, u)),
)
