-- ===== src/Ir/Opt/FoldBlock.antt =====
-- internal/ir/opt.go, constFoldFunc: the loop over a block and over the blocks of a function.
use mathlib.Core.List.{append-nil, append_assoc}
use ccomp.Base.{
  ℕ, zero, suc, ◌≡◌, refl, sym, ◌∙◌, ◌⊎◌, inl, inr, true, false, List, [], ◌∷◌, ◌++◌, Option, none,
  some, All, get_elem?-map, All-get_elem?, Bool-cases, Option-cases, arith,
}
use ccomp.Ir.{Op, Instr, BasicBlock, Function}
use ccomp.Ir.Meaning.{
  World, Float64, State, Flow, fall, goto, return, step, exec, run, class_of, Class,
}
use ccomp.Ir.Opt.{
  replace, on_found, is_float_op, set_const, fold_int, fold_instr, fold_from, fold_block,
  const_fold_func,
}
use ccomp.Ir.Ssa.{is_jump, Ssa, set_const-Ssa}
use ccomp.Ir.Meaning.Laws.{resume, exec-append, follow_mono, run-suc}
use ccomp.Ir.Opt.Fold.{fold_instr-step, operands_known}

-- What a rewrite makes of an instruction: nothing, or a constant of the same result.
abbrev pub Rewritten : Instr → Instr → Type 0
Rewritten i j =
    (j ≡ i)
    ⊎ ((op : Op) × (k : ℕ) × (class_of op ≡ Class.constant)
        × (is_jump i.val.op ≡ false)
        × (j ≡ set_const op k i))

replace-Rewritten :
    (op : Op) (o : Option ℕ) (i : Instr)
    → class_of op ≡ Class.constant
    → ((k : ℕ) → o ≡ some k → is_jump i.val.op ≡ false)
    → Rewritten i (replace op o i)
replace-Rewritten op none i c h = inl refl
replace-Rewritten op (some k) i c h = inr (op, k, c, h k refl, refl)

fold_int_no_jump :
    (op : Op) (t : Option (ℕ × ℕ)) (k : ℕ) → on_found (fold_int op) t ≡ some k → is_jump op ≡ false
unfolding fold_int
fold_int_no_jump op none k h = cc
fold_int_no_jump op (some (a, c)) k h = ground arith

float_no_jump : (op : Op) → is_float_op op ≡ true → is_jump op ≡ false
float_no_jump op h = ground arith

pub fold_instr-Rewritten :
    (f : Float64) (b : List Instr) (i : Instr) → Rewritten i (fold_instr f b i)
unfolding fold_instr
fold_instr-Rewritten f b i = elim (Bool-cases (is_float_op i.val.op)) [
  | inl y ↦ rw y (replace-Rewritten Op.fconst _ i refl (λ k h. float_no_jump _ y))
  | inr n ↦ rw n (replace-Rewritten Op.const _ i refl (fold_int_no_jump i.val.op _))
]

fold_instr-Ssa :
    (f : Float64) (b done is : List Instr) (i : Instr)
    → Ssa (done ++ i ∷ is)
    → Ssa (done ++ fold_instr f b i ∷ is)
fold_instr-Ssa f b done is i d = elim (fold_instr-Rewritten f b i) [
  | inl e ↦ rw e d
  | inr (op, k, c, j, e) ↦ rw e (set_const-Ssa done is op k i j d)
]

module _ (w : World) where
  resume_mono :
      (o : Option (Flow w)) (i j : Instr) (is : List Instr) (r : Flow w)
      → ((s : State w) (fl : Flow w)
          → o ≡ some (fall s)
          → step w i s ≡ some fl
          → step w j s ≡ some fl)
      → resume w (i ∷ is) o ≡ some r
      → resume w (j ∷ is) o ≡ some r
  unfolding exec
  resume_mono none i j is r h e = cc
  resume_mono (some (goto t s)) i j is r h e = e
  resume_mono (some (return x s)) i j is r h e = e
  resume_mono (some (fall s)) i j is r h e = elim (Option-cases (step w i s)) [
    | inl n ↦ let e0 : none ≡ some r = rw n at e in cc
    | inr (fl, y) ↦ rw (h s fl refl y) (rw y at e)
  ]

  -- The loop keeps what the block does from any state, if it does not fail.
  fold_from-exec :
      (done is : List Instr) (s : State w) (r : Flow w)
      → Ssa (done ++ is)
      → exec w (done ++ is) s ≡ some r
      → exec w (fold_from w.float done is) s ≡ some r
  unfolding fold_from
  fold_from-exec done [] s r d e = rw (append-nil done) at e
  fold_from-exec done (i ∷ is) s r d e =
      let j = fold_instr w.float (done ++ i ∷ is) i in
      let assoc : (done ++ j ∷ []) ++ is ≡ done ++ j ∷ is = append_assoc done (j ∷ []) is in
      let e' : resume w (i ∷ is) (exec w done s) ≡ some r =
        sym (exec-append w done (i ∷ is) s) ∙ e in
      let same : resume w (j ∷ is) (exec w done s) ≡ some r =
        resume_mono (exec w done s) i j is r
          (λ t fl p. fold_instr-step w _ i t fl (operands_known w done is i s t d p)) e' in
      fold_from-exec (done ++ j ∷ []) is s r (rw assoc (fold_instr-Ssa w.float _ done is i d))
        (rw assoc (exec-append w done (j ∷ is) s ∙ same))

-- Single assignment in each block.
abbrev pub BlocksSsa : List BasicBlock → Type 0
BlocksSsa bs = All (λ b. Ssa b.instrs) bs

-- Folding keeps every run that ends of a function whose blocks are in single assignment: from
-- every block and state, within the same fuel, the value returned and the memory are those of
-- the function as it was.
pub run-const_fold_func :
    (w : World) (fn : Function) (fuel n : ℕ) (s : State w) (r : ℕ × w.Memory)
    → BlocksSsa fn.blocks
    → run w fuel fn.blocks n s ≡ some r
    → run w fuel (const_fold_func w.float fn).blocks n s ≡ some r
unfolding run fold_block const_fold_func
run-const_fold_func w fn zero n s r d e = cc
run-const_fold_func w fn (suc fuel) n s r d e =
    let (b, fl, p, q, t) = run-suc w fuel fn.blocks n s r e in
    let found = get_elem?-map (fold_block w.float) fn.blocks n b p in
    let block = fold_from-exec w [] b.instrs s fl (All-get_elem? _ fn.blocks n b d p) q in
    rw (found, block)
      (follow_mono w fuel fn.blocks _ n fl r (λ m u. run-const_fold_func w fn fuel m u r d) t)
