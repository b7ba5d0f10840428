-- ===== src/Ir/Build/Switch.antt =====
-- internal/ir/ir.go, buildSwitch: the comparisons of the cases, and their bodies.
use ccomp.Base.{ℕ, suc, Bool, true, false, List, [], ◌∷◌, ◌++◌, Option, none, some}
use ccomp.Base.Text.{Text, codes}
use ccomp.Ast.{Cases, no_cases, a_case}
use ccomp.Ir.{Op}
use ccomp.Ir.Phi.{decimal}
use ccomp.Ir.Build.{
  Build, ◌>>=◌, ◌>>◌, pure, new_value, add, iconst, fresh_block, jump, branch, move_to,
}

unfoldable pub numbered : Text → ℕ → Text
unfolding decimal
numbered name i = name ++ decimal (suc i) i

-- The values of the cases, with their numbers and the blocks of their bodies.
unfoldable pub case_blocks : ℕ → Cases → Build (List ℕ)
unfolding fresh_block numbered
case_blocks i no_cases = pure []
case_blocks i (a_case vs body cs) = do
  b ← fresh_block (numbered (codes "case.") i)
  bs ← case_blocks (suc i) cs
  pure (b ∷ bs)

-- One case value after another: the false target of the last is `fall`, which is by then the block
-- that it stands in, if there are several.
unfoldable pub compare_values : ℕ → ℕ → Text → ℕ → List ℕ → ℕ → Build (Unit {0})
unfolding fresh_block new_value branch decimal
compare_values tag target name vi [] fall = pure tt
compare_values tag target name vi (v ∷ []) fall = do
  cv ← iconst v
  cond ← add Op.eq (tag ∷ cv ∷ [])
  branch cond target fall
compare_values tag target name vi (v ∷ w ∷ vs) fall = do
  cv ← iconst v
  cond ← add Op.eq (tag ∷ cv ∷ [])
  inner ← fresh_block (name ++ b'.' ∷ decimal (suc vi) vi)
  branch cond target inner
  move_to inner
  compare_values tag target name (suc vi) (w ∷ vs) inner

-- The chain from the last case to the first; `next_b` is where a case goes on that does not match.
-- The first block that is made, that of the last case, is entered from the current block.
unfoldable pub compare_chain : ℕ → Bool → List (ℕ × List ℕ × ℕ) → ℕ → Build (Unit {0})
unfolding fresh_block jump compare_values numbered
compare_chain tag first [] next_b = pure tt
compare_chain tag first ((i, vs, target) ∷ cs) next_b = do
  cmp_b ← fresh_block (numbered (codes "sw.cmp.") i)
  enter first cmp_b
  move_to cmp_b
  compare_values tag target (numbered (codes "sw.cmp.") i) 0 vs next_b
  compare_chain tag false cs cmp_b
  where
    enter : Bool → ℕ → Build (Unit {0})
    enter true b = jump b
    enter false b = pure tt

-- The cases with their numbers and blocks, the last first.
unfoldable pub chained : ℕ → Cases → List ℕ → List (ℕ × List ℕ × ℕ) → List (ℕ × List ℕ × ℕ)
chained i no_cases bs acc = acc
chained i (a_case vs body cs) [] acc = acc
chained i (a_case vs body cs) (b ∷ bs) acc = chained (suc i) cs bs ((i, vs, b) ∷ acc)

-- Where a body falls through: the next body, or `last`.
abbrev pub head_or : List ℕ → ℕ → ℕ
head_or [] last = last
head_or (b ∷ bs) last = b

abbrev pub or_block : Option ℕ → ℕ → ℕ
or_block none b = b
or_block (some d) b = d
