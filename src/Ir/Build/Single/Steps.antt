-- ===== src/Ir/Build/Single/Steps.antt =====
-- internal/ir/ir.go: the steps of the builder keep single assignment.
use ccomp.Base.{
  ℕ, zero, suc, ◌+◌, ◌≤◌, ◌≡◌, refl, Bool, true, false, List, [], ◌∷◌, Option, none, some,
  get_elem?, if◌then◌else◌, arith,
}
use ccomp.Base.Int.{ℤ, pos, ==_ℤ}
use ccomp.Base.Text.{Text}
use ccomp.Ir.{Op, Instr, BasicBlock}
use ccomp.Ir.Phi.{update, instrs_of, preds_of}
use ccomp.Ir.Build.Single.{
  bit, results, Single, results-append, update-Quiet, Quiet-Single, fresh-Single, Sound, Keeps,
  keeps, modify-Keeps,
}
use ccomp.Ir.Build.{
  Ctx, built, modify, with_blocks, append_to, emit, new_value, write_var, without_result,
}
use ccomp.Ir.Build.Read.{found, undefined, exhausted}
use ccomp.Ir.Build.Read.{
  is_sealed, new_phi, Found, set_args, has_phi, read_all, put_args, add_phi_operands, or_exhausted,
  read_preds, or_read, entry_of, read_var_fuel, read_fuel, read_var, or_undefined, read_here,
  pending_in, then_fill, fill, or_out_of_fuel, no_longer_pending, Order, seal_block,
}

appended :
    (k d : ℕ) (i : Instr) (b : BasicBlock)
    → bit (==_ℤ i.res (pos k)) ≤ d
    → results k (append_to i b).instrs ≤ results k b.instrs + d
unfolding results
appended k d i b h = omega (arith, results-append k b.instrs (i ∷ []), h)

pub emit-Keeps : (op : Op) (args : List ℤ) → Keeps (modify (emit (without_result op args)))
unfolding emit
emit-Keeps op args = modify-Keeps λ c h.
    Quiet-Single
      (update-Quiet (append_to (without_result op args)) c.b
        (λ k b. omega (arith, appended k 0 (without_result op args) b (omega arith))))
      c h

pub new_value-Keeps :
    (op : Op) (args : List ℤ) (k : ℕ) (sym : Text) → Keeps (new_value op args k sym)
unfolding new_value emit
new_value-Keeps op args n sym =
    keeps (λ c h. fresh-Single (append_to _) c.b c (λ k b. appended k _ _ b (omega arith)) h)

new_phi-Single : (blk : ℕ) (c : Ctx) → Single c → Single (new_phi blk c).1
unfolding new_phi results
new_phi-Single blk c h = fresh-Single _ blk c (λ k b. omega arith) h

results-set_args :
    (k phi : ℕ) (args : List ℤ) (is : List Instr) → results k (set_args phi args is) ≡ results k is
unfolding results set_args
results-set_args k phi args [] = refl
results-set_args k phi args (i ∷ is) = ground (arith, results-set_args k phi args is)

-- A read from a block on, and from several.
abbrev Reads : (ℕ → Ctx → Found × Ctx) → Type 0
Reads read = (blk : ℕ) (c : Ctx) → Single c → Single (read blk c).1

read_all-Single :
    (read : ℕ → Ctx → Found × Ctx)
    → Reads read
    → (ps : List ℕ) (c : Ctx) → Single c
    → Single (read_all read ps c).1
unfolding read_all
read_all-Single read r [] c h = h
read_all-Single read r (p ∷ ps) c h = read_all-Single read r ps (read p c).1 (r p c h)

-- The state, if there is one.
abbrev Single? : Option Ctx → Type 0
Single? none = Unit {0}
Single? (some c) = Single c

put_args-Single :
    (blk phi : ℕ) (r : Option (List ℤ) × Ctx) → Single r.1 → Single? (put_args blk phi r)
put_args-Single blk phi (none, c) h = tt
put_args-Single blk phi (some args, c) h =
    Quiet-Single
      (update-Quiet (λ b. record b { instrs = set_args phi args b.instrs }) blk
        (λ k b. omega (arith, results-set_args k phi args b.instrs)))
      c h

Single?-if : (b : Bool) (x y : Option Ctx) → Single? x → Single? y → Single? (if b then x else y)
Single?-if true x y h k = h
Single?-if false x y h k = k

add_phi_operands-Single :
    (read : ℕ → Ctx → Found × Ctx)
    → Reads read
    → (blk phi : ℕ) (c : Ctx) → Single c
    → Single? (add_phi_operands read blk phi c)
unfolding add_phi_operands
add_phi_operands-Single read r blk phi c h =
    let b = get_elem? c.f.blocks blk in
    let a = read_all read (preds_of b) c in
    Single?-if (has_phi phi (instrs_of b)) _ (some c)
      (put_args-Single blk phi a (read_all-Single read r (preds_of b) c h)) h

or_exhausted-Single :
    (phi : ℕ) (c : Ctx) (r : Option Ctx) → Single c → Single? r → Single (or_exhausted phi c r).1
or_exhausted-Single phi c none h k = h
or_exhausted-Single phi c (some d) h k = k

read_preds-Single :
    (read : ℕ → Ctx → Found × Ctx)
    → Reads read
    → (name : Text) (blk : ℕ) (sealed : Bool) (ps : List ℕ) (c : Ctx) → Single c
    → Single (read_preds read name blk sealed ps c).1
unfolding read_preds write_var Single
read_preds-Single read r name blk sealed [] c h = h
read_preds-Single read r name blk sealed (p ∷ []) c h = r p c h
read_preds-Single read r name blk false (p ∷ q ∷ ps) c h = new_phi-Single blk c h
read_preds-Single read r name blk true (p ∷ q ∷ ps) c h =
    let (phi, c1) = new_phi blk c in
    let c2 = write_var name blk phi c1 in
    let k : Single c2 = new_phi-Single blk c h in
    or_exhausted-Single phi c2 (add_phi_operands read blk phi c2) k
      (add_phi_operands-Single read r blk phi c2 k)

or_read-Single :
    (c : Ctx) (v : Option ℕ) (r : Found × Ctx) → Single c → Single r.1 → Single (or_read c v r).1
or_read-Single c none r h k = k
or_read-Single c (some v) r h k = h

read_var_fuel-Single : (n : ℕ) (name : Text) → Reads (read_var_fuel n name)
unfolding read_var_fuel
read_var_fuel-Single zero name blk c h = h
read_var_fuel-Single (suc n) name blk c h = or_read-Single c (entry_of blk name c.cur_def) _ h (
    read_preds-Single (read_var_fuel n name) (read_var_fuel-Single n name) name blk
      (is_sealed (get_elem? c.f.blocks blk)) (preds_of (get_elem? c.f.blocks blk)) c h)

pub read_var-Single : (name : Text) (blk : ℕ) (c : Ctx) → Single c → Single (read_var name blk c).1
unfolding read_var
read_var-Single name blk c h = read_var_fuel-Single (read_fuel c) name blk c h

or_undefined-Sound : (name : Text) (r : Found × Ctx) → Single r.1 → Sound (or_undefined name r)
or_undefined-Sound name (found v, c) h = h
or_undefined-Sound name (undefined, c) h = tt
or_undefined-Sound name (exhausted, c) h = tt

pub read_here-Keeps : (name : Text) → Keeps (read_here name)
read_here-Keeps name =
    keeps (λ c h. or_undefined-Sound name (read_var name c.b c) (read_var-Single name c.b c h))

fill-Single : (blk : ℕ) (ps : List (Text × ℕ)) (c : Ctx) → Single c → Single? (fill blk ps c)
unfolding fill
fill-Single blk [] c h = h
fill-Single blk ((name, phi) ∷ ps) c h =
    let read = read_var_fuel (read_fuel c) name in
    rest (add_phi_operands read blk phi c)
      (add_phi_operands-Single read (read_var_fuel-Single (read_fuel c) name) blk phi c h)
      (λ d k. fill-Single blk ps d k)
  where
    rest :
        (r : Option Ctx)
        → Single? r
        → ((d : Ctx) → Single d → Single? (fill blk ps d))
        → Single? (then_fill r (fill blk ps))
    rest none h k = tt
    rest (some d) h k = k d h

pub seal_block-Keeps : (order : Order) (blk : ℕ) → Keeps (seal_block order blk)
unfolding seal_block Single
seal_block-Keeps order blk = keeps (λ c h.
    let c' = with_blocks (update (λ b. record b { sealed = true }) blk) c in
    let e : Single c' =
      Quiet-Single (update-Quiet (λ b. record b { sealed = true }) blk (λ k b. omega arith)) c h in
    let ps = order (pending_in blk c.pending) in
    either c (is_sealed (get_elem? c.f.blocks blk)) h (fill blk ps c') (fill-Single blk ps c' e))
  where
    either :
        (c : Ctx) (b : Bool)
        → Single c
        → (r : Option Ctx) → Single? r
        → Sound (
            if b
            then built tt c
            else or_out_of_fuel (then_fill r (λ d. some (no_longer_pending blk d))))
    either c true h r k = h
    either c false h none k = tt
    either c false h (some d) k = k
