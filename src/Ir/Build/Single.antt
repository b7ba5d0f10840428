-- ===== src/Ir/Build/Single.antt =====
-- internal/ir/ir.go: single assignment, the invariant of the builder.
pub mod Steps
pub mod Rules
pub mod Expr
pub mod Simple
pub mod Stmt
pub mod Program
use ccomp.Base.{
  ℕ, zero, suc, ◌+◌, ◌≤◌, ◌≡◌, refl, Bool, true, false, List, [], ◌∷◌, ◌++◌, ◌==◌, ltb,
  if◌then◌else◌, arith,
}
use ccomp.Base.Int.{ℤ, pos, negsuc, ==_ℤ}
use ccomp.Base.Text.{Text}
use ccomp.Ir.{Op, Instr, BasicBlock, Function}
use ccomp.Ir.Phi.{update, new_block, add_edge}
use ccomp.Ir.Build.{
  Ctx, BuildError, Built, Build, built, error, out_of_fuel, bind, ◌>>=◌, ◌>>◌, pure, fail, get,
  modify, with_blocks, emit,
}

abbrev pub bit : Bool → ℕ
bit true = 1
bit false = 0

-- How many instructions have the value for their result, in a block and in all.
unfoldable pub results : ℕ → List Instr → ℕ
results k [] = 0
results k (i ∷ is) = bit (==_ℤ i.res (pos k)) + results k is

unfoldable pub all_results : ℕ → List BasicBlock → ℕ
unfolding results
all_results k [] = 0
all_results k (b ∷ bs) = results k b.instrs + all_results k bs

-- No value is the result of two instructions, and none from the next one on is the result of any.
unfoldable pub Single : Ctx → Type 0
unfolding all_results
Single c = (k : ℕ) → all_results k c.f.blocks ≤ bit (ltb k c.next_id)

pub results-append :
    (k : ℕ) (is js : List Instr) → results k (is ++ js) ≡ results k is + results k js
unfolding results
results-append k [] js = omega arith
results-append k (i ∷ is) js = omega (arith, results-append k is js)

all_results-append :
    (k : ℕ) (bs cs : List BasicBlock)
    → all_results k (bs ++ cs) ≡ all_results k bs + all_results k cs
unfolding all_results
all_results-append k [] cs = omega arith
all_results-append k (b ∷ bs) cs = omega (arith, all_results-append k bs cs)

-- A change of one block that adds at most so many.
all_results-update :
    (k d : ℕ) (g : BasicBlock → BasicBlock)
    → ((b : BasicBlock) → results k (g b).instrs ≤ results k b.instrs + d)
    → (n : ℕ) (bs : List BasicBlock) → all_results k (update g n bs) ≤ all_results k bs + d
unfolding all_results
all_results-update k d g h n [] = omega arith
all_results-update k d g h zero (b ∷ bs) = omega (arith, h b)
all_results-update k d g h (suc n) (b ∷ bs) = omega (arith, all_results-update k d g h n bs)

-- Blocks that are changed so that no result is added.
pub record Quiet (g : List BasicBlock → List BasicBlock) : Type 0 where
  pub at : (k : ℕ) (bs : List BasicBlock) → all_results k (g bs) ≤ all_results k bs

pub update-Quiet :
    (g : BasicBlock → BasicBlock) (n : ℕ)
    → ((k : ℕ) (b : BasicBlock) → results k (g b).instrs ≤ results k b.instrs)
    → Quiet (update g n)
update-Quiet g n h = record {
  at =
      λ k bs. let e = all_results-update k 0 g (λ b. omega (arith, h k b)) n bs in omega (arith, e);
}

pub new_block-Quiet : (name : Text) → Quiet (new_block name)
unfolding new_block all_results results
new_block-Quiet name = record { at = λ k bs. omega (arith, all_results-append k bs (_ ∷ [])) }

pub then-Quiet :
    {f g : List BasicBlock → List BasicBlock} → Quiet f → Quiet g → Quiet (λ bs. g (f bs))
then-Quiet {f} {g} qf qg = record { at = λ k bs. omega (arith, qf.at k bs, qg.at k (f bs)) }

pub add_edge-Quiet : (p s : ℕ) → Quiet (add_edge p s)
unfolding add_edge
add_edge-Quiet p s =
    then-Quiet (update-Quiet (λ b. record b { succs = b.succs ++ s ∷ [] }) p (λ k b. omega arith))
      (update-Quiet (λ b. record b { preds = b.preds ++ p ∷ [] }) s (λ k b. omega arith))

pub Quiet-Single :
    {g : List BasicBlock → List BasicBlock}
    → Quiet g
    → (c : Ctx) → Single c
    → Single (with_blocks g c)
unfolding Single
Quiet-Single q c h k = omega (arith, q.at k c.f.blocks, h k)

-- A block that gets the next value.
pub fresh-Single :
    (g : BasicBlock → BasicBlock) (blk : ℕ) (c : Ctx)
    → ((k : ℕ) (b : BasicBlock)
        → results k (g b).instrs ≤ results k b.instrs + bit (c.next_id == k))
    → Single c
    → Single (with_blocks (update g blk) (record c { next_id = suc c.next_id }))
unfolding Single
fresh-Single g blk c e h k =
    let u = all_results-update k (bit (c.next_id == k)) g (e k) blk c.f.blocks in
    ground (arith, u, h k)

-- The states after a step; an error has none.
abbrev pub Sound {ℓ} : {A : Type ℓ} → Built A → Type 0
Sound (built a c) = Single c
Sound _ = Unit {0}

-- A step that keeps single assignment.
pub data Keeps {ℓ} {A : Type ℓ} (m : Build A) : Type ℓ where
  keeps : ((c : Ctx) → Single c → Sound (m c)) → Keeps m

pub run {ℓ} : {A : Type ℓ} {m : Build A} → Keeps m → (c : Ctx) → Single c → Sound (m c)
run (keeps h) = h

module _ {ℓ} {A : Type ℓ} where
  pub pure-Keeps : (a : A) → Keeps (pure a)
  pure-Keeps a = keeps (λ c h. h)

  pub fail-Keeps : (e : BuildError) → Keeps (fail {A = A} e)
  fail-Keeps e = keeps (λ c h. tt)

  pub if-Keeps : (b : Bool) {m n : Build A} → Keeps m → Keeps n → Keeps (if b then m else n)
  if-Keeps true km kn = km
  if-Keeps false km kn = kn

pub get-Keeps : Keeps get
get-Keeps = keeps (λ c h. h)

module _ {ℓ κ} {A : Type ℓ} {B : Type κ} where
  Sound-bind :
      (r : Built A) (f : A → Build B) → Sound r → ((a : A) → Keeps (f a)) → Sound (bind r f)
  Sound-bind (built a c) f h k = run (k a) c h
  Sound-bind (error e) f h k = tt
  Sound-bind out_of_fuel f h k = tt

  pub bind-Keeps :
      {m : Build A} {f : A → Build B} → Keeps m → ((a : A) → Keeps (f a)) → Keeps (m >>= f)
  bind-Keeps {m} {f} km kf = keeps λ c h. Sound-bind (m c) f (run km c h) kf

  pub then-Keeps : {m : Build A} {n : Build B} → Keeps m → Keeps n → Keeps (m >> n)
  then-Keeps {m} {n} km kn = keeps λ c h. Sound-bind (m c) (λ _. n) (run km c h) (λ _. kn)

pub modify-Keeps : {g : Ctx → Ctx} → ((c : Ctx) → Single c → Single (g c)) → Keeps (modify g)
modify-Keeps h = keeps (h)
