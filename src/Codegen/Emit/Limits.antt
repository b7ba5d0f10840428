-- ===== src/Codegen/Emit/Limits.antt =====
-- internal/codegen/x86_64/emit.go: the errors for more than six parameters or arguments.
use ccomp.Base.{
  ◌<◌, ◌≡◌, refl, ◌↔◌, inl, inr, List, [], ◌∷◌, none, some, Option-cases, get_elem?, length, arith,
}
use ccomp.Base.Int.{ℤ}
use ccomp.Base.Text.{Text}
use ccomp.Ir.{Instr, BasicBlock, Function}
use ccomp.Ir.Meaning.{Float64}
use ccomp.Codegen.Reg.{Reg}
use ccomp.Codegen.Ra.{Allocation, allocate_registers}
use ccomp.Codegen.Asm.{Operand}
use ccomp.Codegen.Emit.{const_or_home}
use ccomp.Codegen.Emit.Func.{arg_regs, move_args, move_params, param_ids, emit_call, emit_func}

move_args-none :
    (from : ℤ → Operand) (as' : List ℤ) (rs : List Reg)
    → (move_args from as' rs ≡ none) ↔ (length rs < length as')
unfolding move_args
move_args-none from [] rs = ((λ e. cc e), (λ h. ground (arith, h)))
move_args-none from (a ∷ as') [] = ((λ e. omega arith), (λ h. refl))
move_args-none from (a ∷ as') (r ∷ rs) =
    let ih = move_args-none from as' rs in
    elim (Option-cases (move_args from as' rs)) [
      | inl e ↦ rw e ((λ _. omega (arith, ih.0 e)), (λ _. refl))
      | inr (c, e) ↦ rw e ((λ n. cc n), (λ h. cc (ih.1 (omega (arith, h)), e)))
    ]

move_params-none :
    (alloc : Allocation) (ps : List ℤ) (rs : List Reg)
    → length rs < length ps
    → move_params alloc ps rs ≡ none
unfolding move_params
move_params-none alloc [] rs h = ground (arith, h)
move_params-none alloc (p ∷ ps) [] h = refl
move_params-none alloc (p ∷ ps) (r ∷ rs) h =
    rw (move_params-none alloc ps rs (omega (arith, h))) refl

-- A call is refused exactly if it has more than six arguments.
pub emit_call-none :
    (alloc : Allocation) (b : List Instr) (res : ℤ) (sym : Text) (args : List ℤ)
    → (emit_call alloc b res sym args ≡ none) ↔ (6 < length args)
unfolding emit_call
emit_call-none alloc b res sym args =
    let h = move_args-none (const_or_home alloc b) args arg_regs in
    elim (Option-cases (move_args (const_or_home alloc b) args arg_regs)) [
      | inl e ↦ rw e ((λ _. h.0 e), (λ _. refl))
      | inr (c, e) ↦ rw e ((λ n. cc n), (λ l. cc (h.1 l, e)))
    ]

-- A function whose first block has more than six parameters is refused.
pub emit_func-none :
    (fl : Float64) (f : Function) (entry : BasicBlock)
    → get_elem? f.blocks 0 ≡ some entry
    → 6 < length (param_ids entry.instrs)
    → emit_func fl f ≡ none
unfolding emit_func
emit_func-none fl f entry e h =
    rw (e, move_params-none (allocate_registers f) (param_ids entry.instrs) arg_regs h) refl
