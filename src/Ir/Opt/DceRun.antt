-- ===== src/Ir/Opt/DceRun.antt =====
-- internal/ir/opt.go, dceFunc: sweeping the blocks of a function keeps its runs.
use mathlib.Core.Path.{subst}
use mathlib.Core.Option.{some-injective}
use ccomp.Base.{
  ℕ, zero, suc, ◌+◌, ◌≡◌, refl, true, false, List, [], ◌∷◌, Option, none, some, All, get_elem?-map,
  All-get_elem?, Bool-cases, arith, inl, inr,
}
use ccomp.Base.Int.{ℤ, pos, negsuc}
use ccomp.Ir.{Instr, BasicBlock}
use ccomp.Ir.Meaning.{World, State, Flow, fall, goto, return, step, exec, run, class_of, ◌>>=◌}
use ccomp.Ir.Meaning.Laws.{follow, run-suc, resume}
use ccomp.Ir.Opt.{keep, sweep, sweep_block, sweep_blocks}
use ccomp.Ir.Opt.Dce.{
  IsPlain, JumpsPlain, IsCounted, Agree, FlowAgree, Follows, step_class-Agree, step_class_silent,
  is_silent,
}

module _ (w : World) (u : ℤ → ℕ) where
  dropped :
      (i : Instr)
      → IsPlain i
      → keep u i ≡ false
      → (is_silent w u (class_of i.val.op) ≡ true) × (u i.res ≡ 0)
  unfolding keep
  dropped i p k = ground arith

  -- Two runs of lists go on in step, after steps that agree.
  resume-Agree :
      (o o' : Option (Flow w)) (is js : List Instr) (fl : Flow w)
      → ((x : Flow w) → o ≡ some x → Follows w u x o')
      → ((s t : State w) → Agree w u s t → exec w is s ≡ some fl → Follows w u fl (exec w js t))
      → resume w is o ≡ some fl
      → Follows w u fl (resume w js o')
  resume-Agree none o' is js fl h ih e = cc
  resume-Agree (some x) none is js fl h ih e = absurd (h x refl)
  resume-Agree (some (fall s)) (some (fall t)) is js fl h ih e = ih s t (h _ refl) e
  resume-Agree (some (goto a s)) (some (goto b t)) is js fl h ih e =
      subst (λ z. FlowAgree w u z (goto b t)) (some-injective _ _ e) (h _ refl)
  resume-Agree (some (return a s)) (some (return b t)) is js fl h ih e =
      subst (λ z. FlowAgree w u z (return b t)) (some-injective _ _ e) (h _ refl)
  resume-Agree (some (fall s)) (some (goto b t)) is js fl h ih e = absurd (h _ refl)
  resume-Agree (some (fall s)) (some (return b t)) is js fl h ih e = absurd (h _ refl)
  resume-Agree (some (goto a s)) (some (fall t)) is js fl h ih e = absurd (h _ refl)
  resume-Agree (some (goto a s)) (some (return b t)) is js fl h ih e = absurd (h _ refl)
  resume-Agree (some (return a s)) (some (fall t)) is js fl h ih e = absurd (h _ refl)
  resume-Agree (some (return a s)) (some (goto b t)) is js fl h ih e = absurd (h _ refl)

  resume_drop :
      (o : Option (Flow w)) (is js : List Instr) (t : State w) (fl : Flow w)
      → ((x : Flow w) → o ≡ some x → FlowAgree w u x (fall t))
      → ((s : State w) → Agree w u s t → exec w is s ≡ some fl → Follows w u fl (exec w js t))
      → resume w is o ≡ some fl
      → Follows w u fl (exec w js t)
  resume_drop none is js t fl h ih e = cc
  resume_drop (some (fall s)) is js t fl h ih e = ih s (h _ refl) e
  resume_drop (some (goto a s)) is js t fl h ih e = absurd (h _ refl)
  resume_drop (some (return a s)) is js t fl h ih e = absurd (h _ refl)

  -- What the sweep of a block does on agreeing states.
  exec-sweep :
      (is : List Instr) (s t : State w) (fl : Flow w)
      → All IsPlain is
      → All (IsCounted u) is
      → Agree w u s t
      → exec w is s ≡ some fl
      → Follows w u fl (exec w (sweep u is) t)
  unfolding exec sweep step
  exec-sweep [] s t fl p c g e = subst (λ z. FlowAgree w u z (fall t)) (some-injective _ _ e) g
  exec-sweep (i ∷ is) s t fl p c g e = elim (Bool-cases (keep u i)) [
    | inl k ↦ rw k (
        resume-Agree (step w i s) (step w i t) is (sweep u is) fl
          (λ x. step_class-Agree w u (class_of i.val.op) i.res i.val s t x g c.0)
          (λ s' t'. exec-sweep is s' t' fl p.1 c.1) e)
    | inr k ↦ rw k (
        resume_drop (step w i s) is (sweep u is) t fl
          (λ x.
            step_class_silent w u (class_of i.val.op) i.res i.val s t x (dropped i p.0 k).0
              (dropped i p.0 k).1 g)
          (λ s'. exec-sweep is s' t fl p.1 c.1) e)
  ]

  -- What follows blocks that agree.
  follow-Agree :
      (fuel : ℕ) (bs cs : List BasicBlock) (n : ℕ) (x : Flow w) (o : Option (Flow w))
      (r : ℕ × w.Memory)
      → Follows w u x o
      → ((m : ℕ) (s t : State w)
          → Agree w u s t
          → run w fuel bs m s ≡ some r
          → run w fuel cs m t ≡ some r)
      → follow w fuel bs n x ≡ some r
      → (o >>= follow w fuel cs n) ≡ some r
  follow-Agree fuel bs cs n x none r f h e = absurd f
  follow-Agree fuel bs cs n (fall s) (some (fall t)) r f h e =
      h (n + 1) _ _
        (record { env_eq = f.env_eq; mem_eq = f.mem_eq; from_eq = refl; taken_eq = f.taken_eq }) e
  follow-Agree fuel bs cs n (goto (pos m) s) (some (goto (pos k) t)) r f h e =
      let same : m ≡ k = cc (f.0) in
      subst (λ z. run w fuel cs z (record t { from = n }) ≡ some r) same
        (h m _ _
          (record {
            env_eq = f.1.env_eq;
            mem_eq = f.1.mem_eq;
            from_eq = refl;
            taken_eq = f.1.taken_eq;
          })
          e)
  follow-Agree fuel bs cs n (goto (negsuc m) s) (some (goto b t)) r f h e = cc
  follow-Agree fuel bs cs n (goto (pos m) s) (some (goto (negsuc k) t)) r f h e = cc
  follow-Agree fuel bs cs n (return a s) (some (return b t)) r f h e = cc (f.0, f.1.mem_eq)
  follow-Agree fuel bs cs n (fall s) (some (goto b t)) r f h e = absurd f
  follow-Agree fuel bs cs n (fall s) (some (return b t)) r f h e = absurd f
  follow-Agree fuel bs cs n (goto a s) (some (fall t)) r f h e = absurd f
  follow-Agree fuel bs cs n (goto a s) (some (return b t)) r f h e = absurd f
  follow-Agree fuel bs cs n (return a s) (some (fall t)) r f h e = absurd f
  follow-Agree fuel bs cs n (return a s) (some (goto b t)) r f h e = absurd f

  pub run-sweep_blocks :
      (bs : List BasicBlock) (fuel n : ℕ) (s t : State w) (r : ℕ × w.Memory)
      → JumpsPlain bs
      → All (λ b. All (IsCounted u) b.instrs) bs
      → Agree w u s t
      → run w fuel bs n s ≡ some r
      → run w fuel (sweep_blocks u bs) n t ≡ some r
  unfolding run sweep_blocks
  run-sweep_blocks bs zero n s t r p c g e = cc
  run-sweep_blocks bs (suc fuel) n s t r p c g e =
      let (b, fl, found, q, rest) = run-suc w fuel bs n s r e in
      let swept = get_elem?-map (sweep_block u) bs n b found in
      let agrees =
        exec-sweep b.instrs s t fl (All-get_elem? _ bs n b p found) (All-get_elem? _ bs n b c found)
          g q in
      rw swept (
        follow-Agree fuel bs (sweep_blocks u bs) n fl (exec w (sweep u b.instrs) t) r agrees
          (λ m s' t'. run-sweep_blocks bs fuel m s' t' r p c) rest)
