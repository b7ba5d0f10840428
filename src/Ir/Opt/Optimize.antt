-- ===== src/Ir/Opt/Optimize.antt =====
-- internal/ir/opt.go, Optimize: folding and the removal, one after the other, for each function.
use mathlib.Core.Path.{subst}
use ccomp.Base.{
  ℕ, ◌≡◌, sym, inl, inr, List, [], ◌∷◌, ◌++◌, map, some, All, snoc-All, get_elem?, get_elem?-map,
}
use ccomp.Ir.{Instr, BasicBlock, Function}
use ccomp.Ir.Meaning.{World, Float64, State, run}
use ccomp.Ir.Opt.{fold_instr, fold_from, fold_block, const_fold_func, dce_func, optimize}
use ccomp.Ir.Opt.Fold.{constant_no_jump}
use ccomp.Ir.Opt.FoldBlock.{Rewritten, fold_instr-Rewritten, BlocksSsa, run-const_fold_func}
use ccomp.Ir.Opt.Dce.{IsPlain, JumpsPlain}
use ccomp.Ir.Opt.DceLoop.{IsSwept, run-dce_func, dce_func-IsSwept}

Rewritten-IsPlain : (i j : Instr) → Rewritten i j → IsPlain i → IsPlain j
Rewritten-IsPlain i j (inl e) p = subst IsPlain (sym e) p
Rewritten-IsPlain i j (inr (op, k, c, nj, e)) p =
    subst IsPlain (sym e) (λ h. cc (h, constant_no_jump op c))

fold_from-IsPlain :
    (f : Float64) (done is : List Instr)
    → All IsPlain done
    → All IsPlain is
    → All IsPlain (fold_from f done is)
unfolding fold_from
fold_from-IsPlain f done [] d h = d
fold_from-IsPlain f done (i ∷ is) d h =
    let j = fold_instr f (done ++ i ∷ is) i in
    let plain : IsPlain j = Rewritten-IsPlain i j (fold_instr-Rewritten f _ i) h.0 in
    fold_from-IsPlain f (done ++ j ∷ []) is (snoc-All IsPlain done j d plain) h.1

fold_blocks-JumpsPlain :
    (f : Float64) (bs : List BasicBlock) → JumpsPlain bs → JumpsPlain (map (fold_block f) bs)
unfolding fold_block
fold_blocks-JumpsPlain f [] h = tt
fold_blocks-JumpsPlain f (b ∷ bs) h =
    (fold_from-IsPlain f [] b.instrs tt h.0, fold_blocks-JumpsPlain f bs h.1)

const_fold_func-JumpsPlain :
    (f : Float64) (fn : Function) → JumpsPlain fn.blocks → JumpsPlain (const_fold_func f fn).blocks
unfolding const_fold_func
const_fold_func-JumpsPlain f fn h = fold_blocks-JumpsPlain f fn.blocks h

-- Where a function of a module is in single assignment, its jumps have no result, and a run of it
-- ends, the optimized module has a function in its place that ends from the same block and state,
-- within the same fuel, with the same value returned and the same memory, and of which a further
-- removal would leave everything.
pub run-optimize :
    (w : World) (fns : List Function) (n : ℕ) (fn : Function) (fuel m : ℕ) (s : State w)
    (r : ℕ × w.Memory)
    → get_elem? fns n ≡ some fn
    → BlocksSsa fn.blocks
    → JumpsPlain fn.blocks
    → run w fuel fn.blocks m s ≡ some r
    → (fn' : Function) × (get_elem? (optimize w.float fns) n ≡ some fn')
      × (run w fuel fn'.blocks m s ≡ some r)
      × IsSwept fn'.blocks
unfolding optimize
run-optimize w fns n fn fuel m s r e d p h = (
  dce_func (const_fold_func w.float fn),
  get_elem?-map (λ g. dce_func (const_fold_func w.float g)) fns n fn e,
  run-dce_func w (const_fold_func w.float fn) fuel m s r (const_fold_func-JumpsPlain w.float fn p)
      (run-const_fold_func w fn fuel m s r d h),
  dce_func-IsSwept (const_fold_func w.float fn),
)
