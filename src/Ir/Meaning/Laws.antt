-- ===== src/Ir/Meaning/Laws.antt =====
-- The meaning of internal/ir/ir.go: how blocks run that are put together.
use ccomp.Base.{
  ℕ, suc, ◌+◌, ◌≡◌, refl, get_elem?, ◌∙◌, false, List, [], ◌∷◌, ◌++◌, Option, none, some, arith,
}
use ccomp.Base.Int.{ℤ, pos, negsuc, ==_ℤ}
use ccomp.Ir.{Value, Instr, BasicBlock}
use ccomp.Ir.Ssa.{defines}
use ccomp.Ir.Meaning.{
  World, State, Flow, fall, goto, return, step, step_class, exec, run, class_of, Class, ◌>>=◌,
}

module _ (w : World) where
  abbrev pub resume : List Instr → Option (Flow w) → Option (Flow w)
  resume is o = o >>= λ fl. elim fl [
    | fall s' ↦ exec w is s'
    | goto t s' ↦ some (goto t s')
    | return x s' ↦ some (return x s')
  ]

  pub resume-append :
      (o : Option (Flow w)) (xs ys : List Instr)
      → ((s : State w) → exec w (xs ++ ys) s ≡ resume ys (exec w xs s))
      → resume (xs ++ ys) o ≡ resume ys (resume xs o)
  resume-append none xs ys h = refl
  resume-append (some (fall s')) xs ys h = h s'
  resume-append (some (goto t s')) xs ys h = refl
  resume-append (some (return x s')) xs ys h = refl

  pub exec-append :
      (xs ys : List Instr) (s : State w) → exec w (xs ++ ys) s ≡ resume ys (exec w xs s)
  unfolding exec
  exec-append [] ys s = refl
  exec-append (x ∷ xs) ys s = resume-append (step w x s) xs ys (exec-append xs ys)

  -- A block that falls through did so at its first instruction.
  pub resume_fall :
      (o : Option (Flow w)) (xs : List Instr) (s' : State w)
      → resume xs o ≡ some (fall s')
      → (t : State w) × (o ≡ some (fall t)) × (exec w xs t ≡ some (fall s'))
  resume_fall none xs s' h = cc
  resume_fall (some (fall t)) xs s' h = (t, refl, h)
  resume_fall (some (goto t s)) xs s' h = cc
  resume_fall (some (return x s)) xs s' h = cc

  pub step_class_env :
      (c : Class) (r : ℤ) (v : Value) (id : ℤ) (s s' : State w)
      → step_class w c r v s ≡ some (fall s')
      → ==_ℤ r id ≡ false
      → s'.env id ≡ s.env id
  step_class_env Class.constant r v id s s' h e = ground arith
  step_class_env _ r v id s s' h e = ground arith

  pub exec_env :
      (xs : List Instr) (id : ℤ) (s s' : State w)
      → exec w xs s ≡ some (fall s')
      → defines xs id ≡ false
      → s'.env id ≡ s.env id
  unfolding exec step defines
  exec_env [] id s s' h e = cc
  exec_env (x ∷ xs) id s s' h e =
      let (t, p, q) = resume_fall (step w x s) xs s' h in
      exec_env xs id t s' q (ground arith)
      ∙ step_class_env (class_of x.val.op) x.res x.val id s t p (ground arith)

  -- What a run does after block `n`.
  abbrev pub follow : ℕ → List BasicBlock → ℕ → Flow w → Option (ℕ × w.Memory)
  follow fuel bs n fl = elim fl [
    | fall s' ↦ run w fuel bs (n + 1) (record s' { from = n })
    | goto t s' ↦ elim t [ pos m ↦ run w fuel bs m (record s' { from = n }) | negsuc m ↦ none ]
    | return x s' ↦ some (x, s'.mem)
  ]

  pub follow_mono :
      (fuel : ℕ) (bs cs : List BasicBlock) (n : ℕ) (fl : Flow w) (r : ℕ × w.Memory)
      → ((m : ℕ) (s : State w) → run w fuel bs m s ≡ some r → run w fuel cs m s ≡ some r)
      → follow fuel bs n fl ≡ some r
      → follow fuel cs n fl ≡ some r
  follow_mono fuel bs cs n (fall s) r h e = h _ _ e
  follow_mono fuel bs cs n (goto (pos m) s) r h e = h _ _ e
  follow_mono fuel bs cs n (goto (negsuc m) s) r h e = e
  follow_mono fuel bs cs n (return x s) r h e = e

  -- A run that ends passes its first block.
  pub run-suc :
      (fuel : ℕ) (bs : List BasicBlock) (n : ℕ) (s : State w) (r : ℕ × w.Memory)
      → run w (suc fuel) bs n s ≡ some r
      → (b : BasicBlock) × (fl : Flow w) × (get_elem? bs n ≡ some b)
        × (exec w b.instrs s ≡ some fl)
        × (follow fuel bs n fl ≡ some r)
  unfolding run
  run-suc fuel bs n s r e = found (get_elem? bs n) refl e
    where
      entered :
          (b : BasicBlock) (o : Option (Flow w))
          → exec w b.instrs s ≡ o
          → (o >>= follow fuel bs n) ≡ some r
          → (fl : Flow w) × (exec w b.instrs s ≡ some fl) × (follow fuel bs n fl ≡ some r)
      entered b none p q = cc
      entered b (some fl) p q = (fl, p, q)

      found :
          (o : Option BasicBlock)
          → get_elem? bs n ≡ o
          → (o >>= λ b. exec w b.instrs s >>= follow fuel bs n) ≡ some r
          → (b : BasicBlock) × (fl : Flow w) × (get_elem? bs n ≡ some b)
            × (exec w b.instrs s ≡ some fl)
            × (follow fuel bs n fl ≡ some r)
      found none p q = cc
      found (some b) p q = let (fl, x, y) = entered b (exec w b.instrs s) refl q in (b, fl, p, x, y)
