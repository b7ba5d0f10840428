-- ===== src/Ir/Build/Single/Rules.antt =====
-- internal/ir/ir.go: blocks, edges and jumps keep single assignment, and the rules by which a step
-- that is made of others does.
use ccomp.Base.{ℕ, Bool, true, false, List, [], ◌∷◌, if◌then◌else◌}
use ccomp.Base.Int.{pos}
use ccomp.Base.Text.{Text}
use ccomp.Types.{CType}
use ccomp.Ir.{Op}
use ccomp.Ir.Build.{
  Ctx, built, Build, add, fresh_block, edge, edge_to, jump, branch, move_to, write_here, write_var,
  terminated, unless_terminated, set_type,
}
use ccomp.Ir.Build.Single.{
  Single, new_block-Quiet, add_edge-Quiet, Quiet-Single, Keeps, pure-Keeps, fail-Keeps, if-Keeps,
  get-Keeps, bind-Keeps, then-Keeps, modify-Keeps, Sound, keeps, run,
}
use ccomp.Ir.Build.Single.Steps.{emit-Keeps, new_value-Keeps, read_here-Keeps, seal_block-Keeps}

pub add-Keeps : (op : Op) (args : List ℕ) → Keeps (add op args)
add-Keeps op args = new_value-Keeps op _ 0 []

pub fresh_block-Keeps : (name : Text) → Keeps (fresh_block name)
unfolding fresh_block
fresh_block-Keeps name = keeps (Quiet-Single (new_block-Quiet name))

pub edge-Keeps : (p s : ℕ) → Keeps (edge p s)
unfolding edge
edge-Keeps p s = keeps (Quiet-Single (add_edge-Quiet p s))

pub edge_to-Keeps : (t : ℕ) → Keeps (edge_to t)
edge_to-Keeps t = bind-Keeps get-Keeps λ c. edge-Keeps c.b t

pub jump-Keeps : (t : ℕ) → Keeps (jump t)
unfolding jump
jump-Keeps t = then-Keeps (emit-Keeps Op.jmp (pos t ∷ [])) (edge_to-Keeps t)

pub branch-Keeps : (v t f : ℕ) → Keeps (branch v t f)
unfolding branch
branch-Keeps v t f =
    then-Keeps (emit-Keeps Op.jnz (pos v ∷ pos t ∷ pos f ∷ []))
      (then-Keeps (edge_to-Keeps t) (edge_to-Keeps f))

-- A change of what is neither the blocks nor the next value.
pub move_to-Keeps : (blk : ℕ) → Keeps (move_to blk)
unfolding Single
move_to-Keeps blk = modify-Keeps λ c h. h

pub write_here-Keeps : (name : Text) (id : ℕ) → Keeps (write_here name id)
unfolding Single write_var
write_here-Keeps name id = modify-Keeps λ c h. h

pub set_type-Keeps : (name : Text) (t : CType) → Keeps (set_type name t)
unfolding Single
set_type-Keeps name t = modify-Keeps λ c h. h

pub unless_terminated-Keeps : {m : Build (Unit {0})} → Keeps m → Keeps (unless_terminated m)
unless_terminated-Keeps k = keeps (λ c h. either (terminated c) c h k)
  where
    either :
        {m : Build (Unit {0})} (b : Bool) (c : Ctx)
        → Single c
        → Keeps m
        → Sound (if b then built tt c else m c)
    either true c h k = h
    either false c h k = run k c h

pub ruleset keeps_rules = (
  pure-Keeps, fail-Keeps, get-Keeps, bind-Keeps, then-Keeps, if-Keeps, new_value-Keeps, emit-Keeps,
  read_here-Keeps, seal_block-Keeps, fresh_block-Keeps, edge-Keeps, edge_to-Keeps, jump-Keeps,
  branch-Keeps, move_to-Keeps, write_here-Keeps, set_type-Keeps, unless_terminated-Keeps,
)
