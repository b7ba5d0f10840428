-- ===== src/Ir/Build/Read.antt =====
-- internal/ir/ir.go: the values of variables in single assignment (readVar, newPhi, addPhiOperands, sealBlock).
pub mod Later
pub mod Enough
use ccomp.Base.{
  ℕ, zero, suc, ◌*◌, Bool, true, false, ◌&&◌, ◌||◌, List, [], ◌∷◌, Option, none, some, ◌==◌,
  if◌then◌else◌, length, get_elem?,
}
use ccomp.Base.Int.{ℤ, pos, ==_ℤ}
use ccomp.Base.Text.{Text, text_eq}
use ccomp.Ir.{Op, op_eq, Instr, BasicBlock}
use ccomp.Ir.Phi.{update, instrs_of, preds_of}
use ccomp.Ir.Build.{
  Ctx, undefined_variable, Built, Build, built, error, out_of_fuel, with_blocks, write_var,
}

-- The entry of a block and a name.
unfoldable pub entry_of : ℕ → Text → List (ℕ × Text × ℕ) → Option ℕ
entry_of blk name [] = none
entry_of blk name ((b, n, id) ∷ m) =
    if b == blk && text_eq n name then some id else entry_of blk name m

abbrev pub is_sealed : Option BasicBlock → Bool
is_sealed none = false
is_sealed (some b) = b.sealed

unfoldable pub new_phi : ℕ → Ctx → ℕ × Ctx
new_phi blk c =
    let i : Instr = record {
      res = pos c.next_id;
      val = record { op = Op.phi; args = []; imm = 0; sym = [] };
    } in
    (
      c.next_id,
      with_blocks (update (λ b. record b { instrs = i ∷ b.instrs }) blk)
          (record c { next_id = suc c.next_id }),
    )

-- What `readVar` returns: a value, or an error.
pub data Found : Type 0 where
  found : ℕ → Found
  undefined exhausted : Found

-- The operands are put into the first instruction that is the phi.
unfoldable pub set_args : ℕ → List ℤ → List Instr → List Instr
set_args phi args [] = []
set_args phi args (i ∷ is) =
    if ==_ℤ i.res (pos phi) && op_eq i.val.op Op.phi
    then record i { val = record (i.val) { args = args } } ∷ is
    else i ∷ set_args phi args is

abbrev pub has_phi : ℕ → List Instr → Bool
has_phi phi [] = false
has_phi phi (i ∷ is) = (==_ℤ i.res (pos phi) && op_eq i.val.op Op.phi) || has_phi phi is

-- A value in front of the others; an error counts as the value 0.
abbrev pub with_value : Found → Option (List ℤ) → Option (List ℤ)
with_value (found v) (some vs) = some (pos v ∷ vs)
with_value undefined (some vs) = some (pos 0 ∷ vs)
with_value _ _ = none

-- Values for a list of predecessors, read one after another.
unfoldable pub read_all : (ℕ → Ctx → Found × Ctx) → List ℕ → Ctx → Option (List ℤ) × Ctx
read_all read [] c = (some [], c)
read_all read (p ∷ ps) c =
    let (v, c') = read p c in let (vs, c'') = read_all read ps c' in (with_value v vs, c'')

abbrev pub put_args : ℕ → ℕ → Option (List ℤ) × Ctx → Option Ctx
put_args blk phi (none, c) = none
put_args blk phi (some args, c) =
    some (with_blocks (update (λ b. record b { instrs = set_args phi args b.instrs }) blk) c)

-- `addPhiOperands`, over a way to read a variable in a block; `none` where that has run out of fuel.
unfoldable pub add_phi_operands : (ℕ → Ctx → Found × Ctx) → ℕ → ℕ → Ctx → Option Ctx
unfolding set_args read_all
add_phi_operands read blk phi c =
    let b = get_elem? c.f.blocks blk in
    if has_phi phi (instrs_of b) then put_args blk phi (read_all read (preds_of b) c) else some c

abbrev pub or_exhausted : ℕ → Ctx → Option Ctx → Found × Ctx
or_exhausted phi c none = (exhausted, c)
or_exhausted phi c (some c') = (found phi, c')

-- A block with several predecessors: a new phi, which is filled now or when the block is sealed.
abbrev pub read_by_phi : (ℕ → Ctx → Found × Ctx) → Text → ℕ → Bool → Ctx → Found × Ctx
read_by_phi read name blk sealed c =
    let (phi, c1) = new_phi blk c in
    let c2 = write_var name blk phi c1 in
    if sealed
    then or_exhausted phi c2 (add_phi_operands read blk phi c2)
    else (found phi, record c2 { pending = (blk, name, phi) ∷ c2.pending })

-- The rest of `readVar` by the predecessors, where the block has no entry.
unfoldable pub read_preds : (ℕ → Ctx → Found × Ctx) → Text → ℕ → Bool → List ℕ → Ctx → Found × Ctx
unfolding new_phi write_var add_phi_operands
read_preds read name blk sealed [] c = (undefined, c)
read_preds read name blk sealed (p ∷ []) c = read p c
read_preds read name blk sealed (p ∷ q ∷ ps) c = read_by_phi read name blk sealed c

abbrev pub or_read : Ctx → Option ℕ → Found × Ctx → Found × Ctx
or_read c (some v) r = (found v, c)
or_read c none r = r

-- `readVar`; the fuel bounds the depth of the calls.
unfoldable pub read_var_fuel : ℕ → Text → ℕ → Ctx → Found × Ctx
unfolding entry_of read_preds
read_var_fuel zero name blk c = (exhausted, c)
read_var_fuel (suc n) name blk c =
    let b = get_elem? c.f.blocks blk in
    let rest = read_preds (read_var_fuel n name) name blk (is_sealed b) (preds_of b) c in
    or_read c (entry_of blk name c.cur_def) rest

-- Between two calls that give a block its entry there are at most as many as there are blocks.
abbrev pub read_fuel : Ctx → ℕ
read_fuel c = suc (length c.f.blocks) * suc (length c.f.blocks)

unfoldable pub read_var : Text → ℕ → Ctx → Found × Ctx
unfolding read_var_fuel
read_var name blk c = read_var_fuel (read_fuel c) name blk c

-- As a step of the builder, where an error is handed on.
abbrev pub or_undefined : Text → Found × Ctx → Built ℕ
or_undefined name (found v, c) = built v c
or_undefined name (undefined, c) = error (undefined_variable name)
or_undefined name (exhausted, c) = out_of_fuel

abbrev pub read_here : Text → Build ℕ
read_here name c = or_undefined name (read_var name c.b c)

-- The phis that wait in a block, and the others.
abbrev pub pending_in : ℕ → List (ℕ × Text × ℕ) → List (Text × ℕ)
pending_in blk [] = []
pending_in blk ((b, n, id) ∷ m) = if b == blk then (n, id) ∷ pending_in blk m else pending_in blk m

abbrev pub not_pending_in : ℕ → List (ℕ × Text × ℕ) → List (ℕ × Text × ℕ)
not_pending_in blk [] = []
not_pending_in blk ((b, n, id) ∷ m) =
    if b == blk then not_pending_in blk m else (b, n, id) ∷ not_pending_in blk m

abbrev pub then_fill : Option Ctx → (Ctx → Option Ctx) → Option Ctx
then_fill none k = none
then_fill (some c) k = k c

unfoldable pub fill : ℕ → List (Text × ℕ) → Ctx → Option Ctx
unfolding add_phi_operands read_var
fill blk [] c = some c
fill blk ((name, phi) ∷ ps) c =
    then_fill (add_phi_operands (read_var_fuel (read_fuel c) name) blk phi c) (fill blk ps)

abbrev pub or_out_of_fuel : Option Ctx → Built (Unit {0})
or_out_of_fuel none = out_of_fuel
or_out_of_fuel (some c) = built tt c

abbrev pub no_longer_pending : ℕ → Ctx → Ctx
no_longer_pending blk c = record c { pending = not_pending_in blk c.pending }

-- The order in which Go's `range` visits a map is open.
abbrev pub Order : Type 0
Order = List (Text × ℕ) → List (Text × ℕ)

unfoldable pub seal_block : Order → ℕ → Build (Unit {0})
unfolding fill
seal_block order blk c =
    let c' = with_blocks (update (λ b. record b { sealed = true }) blk) c in
    let filled = fill blk (order (pending_in blk c.pending)) c' in
    if is_sealed (get_elem? c.f.blocks blk)
    then built tt c
    else or_out_of_fuel (then_fill filled (λ d. some (no_longer_pending blk d)))
