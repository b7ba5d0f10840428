-- ===== src/Ir/Opt/DceLoop.antt =====
-- internal/ir/opt.go, dceFunc: the loop ends, at a function that a further round leaves as it is.
use ccomp.Base.{
  ℕ, zero, suc, ◌+◌, ◌<◌, ◌≤◌, ◌≡◌, refl, false, List, [], ◌∷◌, some, All, if◌then◌else◌,
  Bool-cases, arith, inl, inr, length,
}
use ccomp.Base.Int.{ℤ}
use ccomp.Ir.{Instr, BasicBlock, Function}
use ccomp.Ir.Meaning.{World, State, run}
use ccomp.Ir.Opt.{
  build_uses, keep, sweep, sweep_blocks, drops, drops_blocks, dce_loop, dce_func, count_instrs,
}
use ccomp.Ir.Opt.Dce.{IsPlain, JumpsPlain, build_uses_lem}
use ccomp.Ir.Opt.DceRun.{run-sweep_blocks}
use native.Mathlib.Nat.{le_refl}

sweep-All {ℓ} : (P : Instr → Type ℓ) (u : ℤ → ℕ) (is : List Instr) → All P is → All P (sweep u is)
unfolding sweep
sweep-All P u [] h = tt
sweep-All P u (i ∷ is) h = elim (Bool-cases (keep u i)) [
  | inl k ↦ rw k (h.0, sweep-All P u is h.1)
  | inr k ↦ rw k (sweep-All P u is h.1)
]

sweep_blocks-JumpsPlain :
    (u : ℤ → ℕ) (bs : List BasicBlock) → JumpsPlain bs → JumpsPlain (sweep_blocks u bs)
unfolding sweep_blocks
sweep_blocks-JumpsPlain u [] h = tt
sweep_blocks-JumpsPlain u (b ∷ bs) h =
    (sweep-All IsPlain u b.instrs h.0, sweep_blocks-JumpsPlain u bs h.1)

-- One round of the loop keeps the runs.
run-round :
    (w : World) (bs : List BasicBlock) (fuel n : ℕ) (s : State w) (r : ℕ × w.Memory)
    → JumpsPlain bs
    → run w fuel bs n s ≡ some r
    → run w fuel (sweep_blocks (build_uses bs) bs) n s ≡ some r
run-round w bs fuel n s r p e =
    run-sweep_blocks w (build_uses bs) bs fuel n s s r p
      (build_uses_lem (build_uses bs) bs (λ a. le_refl _))
      (record { env_eq = λ a h. refl; mem_eq = refl; from_eq = refl; taken_eq = refl }) e

run-dce_loop :
    (w : World) (rounds : ℕ) (bs : List BasicBlock) (fuel n : ℕ) (s : State w) (r : ℕ × w.Memory)
    → JumpsPlain bs
    → run w fuel bs n s ≡ some r
    → run w fuel (dce_loop rounds bs) n s ≡ some r
unfolding dce_loop
run-dce_loop w zero bs fuel n s r p e = e
run-dce_loop w (suc rounds) bs fuel n s r p e =
    let u = build_uses bs in
    let swept = run-round w bs fuel n s r p e in
    elim (Bool-cases (drops_blocks u bs)) [
      | inl d ↦
          rw (d, dce_loop)
            (run-dce_loop w rounds (sweep_blocks u bs) fuel n s r (sweep_blocks-JumpsPlain u bs p)
              swept)
      | inr d ↦ rw (d, dce_loop) swept
    ]

-- The removal of dead instructions keeps every run of a function that ends, if its jumps have no
-- result: from every block and state, within the same fuel, the value returned and the memory are
-- those of the function as it was.
pub run-dce_func :
    (w : World) (fn : Function) (fuel n : ℕ) (s : State w) (r : ℕ × w.Memory)
    → JumpsPlain fn.blocks
    → run w fuel fn.blocks n s ≡ some r
    → run w fuel (dce_func fn).blocks n s ≡ some r
unfolding dce_func
run-dce_func w fn fuel n s r p e =
    run-dce_loop w (suc (count_instrs fn.blocks)) fn.blocks fuel n s r p e

sweep_fewer :
    (u : ℤ → ℕ) (is : List Instr) → length (sweep u is) + (if drops u is then 1 else 0) ≤ length is
unfolding sweep drops
sweep_fewer u [] = omega arith
sweep_fewer u (i ∷ is) = ground (arith, sweep_fewer u is)

sweep_blocks_fewer :
    (u : ℤ → ℕ) (bs : List BasicBlock)
    → count_instrs (sweep_blocks u bs) + (if drops_blocks u bs then 1 else 0) ≤ count_instrs bs
unfolding sweep_blocks drops_blocks count_instrs
sweep_blocks_fewer u [] = omega arith
sweep_blocks_fewer u (b ∷ bs) = ground (arith, sweep_fewer u b.instrs, sweep_blocks_fewer u bs)

sweep_same : (u : ℤ → ℕ) (is : List Instr) → drops u is ≡ false → sweep u is ≡ is
unfolding sweep drops
sweep_same u [] h = refl
sweep_same u (i ∷ is) h = ground (arith, sweep_same u is)

sweep_blocks_same :
    (u : ℤ → ℕ) (bs : List BasicBlock) → drops_blocks u bs ≡ false → sweep_blocks u bs ≡ bs
unfolding sweep_blocks drops_blocks
sweep_blocks_same u [] h = refl
sweep_blocks_same u (b ∷ bs) h =
    cc (sweep_same u b.instrs (ground arith), sweep_blocks_same u bs (ground arith))

-- Whether the counts of uses of these blocks leave nothing to drop.
abbrev pub IsSwept : List BasicBlock → Type 0
IsSwept bs = drops_blocks (build_uses bs) bs ≡ false

dce_loop-IsSwept :
    (rounds : ℕ) (bs : List BasicBlock) → count_instrs bs < rounds → IsSwept (dce_loop rounds bs)
unfolding dce_loop
dce_loop-IsSwept zero bs h = absurd (omega arith)
dce_loop-IsSwept (suc rounds) bs h =
    let u = build_uses bs in
    elim (Bool-cases (drops_blocks u bs)) [
      | inl d ↦
          rw (d, dce_loop)
            (dce_loop-IsSwept rounds (sweep_blocks u bs) (ground (arith, sweep_blocks_fewer u bs)))
      | inr d ↦ rw (d, dce_loop) (rw (sweep_blocks_same u bs d) d)
    ]

-- The loop ends within one round more than the function has instructions, and in what is left each
-- instruction whose result is used nowhere is a return, a parameter, a call or a store, or has no
-- result.
pub dce_func-IsSwept : (fn : Function) → IsSwept (dce_func fn).blocks
unfolding dce_func
dce_func-IsSwept fn = dce_loop-IsSwept (suc (count_instrs fn.blocks)) fn.blocks (omega arith)
