-- ===== src/Ir/Phi.antt =====
-- internal/ir/phi.go: the phis at the start of a block become copies at the end of its predecessors.
-- `newBlock` and `addEdge` are those of ir.go. A pointer to a block is its index, so `blockIndexOf`
-- has no part here.
pub mod Copies
pub mod Insert
pub mod Gone
pub mod Edges
pub mod Lowered
mod Tests
use ccomp.Base.{
  ℕ, zero, suc, ◌+◌, ◌/◌, ◌%◌, Bool, true, false, ◌&&◌, ◌||◌, List, [], ◌∷◌, ◌++◌, Option, none,
  some, ltb, ◌==◌, if◌then◌else◌, length, get_elem?,
}
use ccomp.Base.Int.{ℤ, pos, negsuc, ==_ℤ}
use ccomp.Base.Text.{Text, codes}
use ccomp.Ir.{Op, op_eq, Value, Instr, BasicBlock, Function}

-- The decimal digits of a number, by fuel above it: each round takes one digit off.
unfoldable pub decimal : ℕ → ℕ → Text
decimal zero n = []
decimal (suc fuel) n =
    let rest = decimal fuel (n / 10) in
    if ltb n 10 then (b'0' + n) ∷ [] else rest ++ (b'0' + n % 10) ∷ []

abbrev pub update : (BasicBlock → BasicBlock) → ℕ → List BasicBlock → List BasicBlock
update g n [] = []
update g zero (b ∷ bs) = g b ∷ bs
update g (suc n) (b ∷ bs) = b ∷ update g n bs

abbrev pub instrs_of : Option BasicBlock → List Instr
instrs_of none = []
instrs_of (some b) = b.instrs

abbrev pub preds_of : Option BasicBlock → List ℕ
preds_of none = []
preds_of (some b) = b.preds

abbrev pub succs_of : Option BasicBlock → List ℕ
succs_of none = []
succs_of (some b) = b.succs

abbrev pub name_of : Option BasicBlock → Text
name_of none = []
name_of (some b) = b.name

-- `newBlock` appends a block, whose index is then the number of blocks before.
unfoldable pub new_block : Text → List BasicBlock → List BasicBlock
unfolding decimal
new_block name bs =
    let n = length bs in
    bs
    ++ record {
      name = name ++ b'_' ∷ decimal (suc n) n;
      instrs = [];
      sealed = false;
      preds = [];
      succs = [];
    }
      ∷ []

unfoldable pub add_edge : ℕ → ℕ → List BasicBlock → List BasicBlock
add_edge p s bs =
    update (λ b. record b { preds = b.preds ++ p ∷ [] }) s
      (update (λ b. record b { succs = b.succs ++ s ∷ [] }) p bs)

abbrev pub longer_than_one : List ℕ → Bool
longer_than_one xs = ltb 1 (length xs)

unfoldable pub is_critical : ℕ → ℕ → List BasicBlock → Bool
is_critical p s bs =
    longer_than_one (succs_of (get_elem? bs p)) && longer_than_one (preds_of (get_elem? bs s))

abbrev pub without : ℕ → List ℕ → List ℕ
without x [] = []
without x (y ∷ ys) = if y == x then without x ys else y ∷ without x ys

abbrev pub retarget_id : ℕ → ℕ → ℤ → ℤ
retarget_id s n a = if ==_ℤ a (pos s) then pos n else a

-- The targets of a jump to `s` become `n`.
abbrev pub retarget_args : Op → ℕ → ℕ → List ℤ → List ℤ
retarget_args Op.jmp s n (t ∷ []) = retarget_id s n t ∷ []
retarget_args Op.jnz s n (c ∷ t ∷ f ∷ []) = c ∷ retarget_id s n t ∷ retarget_id s n f ∷ []
retarget_args _ s n as' = as'

abbrev pub retarget : ℕ → ℕ → Instr → Instr
retarget s n i = record i { val = record (i.val) { args = retarget_args i.val.op s n i.val.args } }

unfoldable pub retarget_last : ℕ → ℕ → List Instr → List Instr
retarget_last s n [] = []
retarget_last s n (i ∷ []) = retarget s n i ∷ []
retarget_last s n (i ∷ j ∷ is) = i ∷ retarget_last s n (j ∷ is)

-- The new block is the last; its edges go from `p` and to `s`.
unfoldable pub split_critical_edge : ℕ → ℕ → List BasicBlock → List BasicBlock
unfolding new_block add_edge retarget_last
split_critical_edge p s bs =
    let n = length bs in
    let name = name_of (get_elem? bs p) ++ codes "_to_" ++ name_of (get_elem? bs s) in
    let bs1 = update (λ b. record b { succs = without s b.succs }) p (new_block name bs) in
    let bs2 = update (λ b. record b { preds = without p b.preds }) s (add_edge p n bs1) in
    update (λ b. record b { instrs = retarget_last s n b.instrs }) p (add_edge n s bs2)

abbrev pub is_terminator : Op → Bool
is_terminator op = op_eq op Op.jmp || op_eq op Op.jnz || op_eq op Op.ret

unfoldable pub insert_before_terminator : Instr → List Instr → List Instr
insert_before_terminator x [] = x ∷ []
insert_before_terminator x (i ∷ []) = if is_terminator i.val.op then x ∷ i ∷ [] else i ∷ x ∷ []
insert_before_terminator x (i ∷ j ∷ is) = i ∷ insert_before_terminator x (j ∷ is)

abbrev pub copy_to : ℤ → ℤ → Instr
copy_to dst src = record {
  res = dst;
  val = record { op = Op.copy; args = src ∷ []; imm = 0; sym = [] };
}

-- The copies for the predecessor number `pi`: none for a phi with too few arguments.
unfoldable pub copies : ℕ → List Instr → List Instr
copies pi [] = []
copies pi (phi ∷ phis) = elim (get_elem? phi.val.args pi) [
  | none ↦ copies pi phis
  | some src ↦ copy_to phi.res src ∷ copies pi phis
]

unfoldable pub insert_all : List Instr → List Instr → List Instr
unfolding insert_before_terminator
insert_all [] is = is
insert_all (x ∷ xs) is = insert_all xs (insert_before_terminator x is)

abbrev pub jump_to : ℕ → Instr
jump_to t = record {
  res = negsuc 0;
  val = record { op = Op.jmp; args = pos t ∷ []; imm = 0; sym = [] };
}

-- One predecessor: the copies go to its end, or to the block that splits the edge, which then jumps.
unfoldable pub lower_pred : ℕ → List Instr → ℕ → ℕ → List BasicBlock → List BasicBlock
unfolding is_critical split_critical_edge copies insert_all
lower_pred b phis pi pred bs =
    let cs = copies pi phis in
    let n = length bs in
    if is_critical pred b bs
    then update (λ x. record x { instrs = insert_all cs x.instrs ++ jump_to b ∷ [] }) n
        (split_critical_edge pred b bs)
    else update (λ x. record x { instrs = insert_all cs x.instrs }) pred bs

unfoldable pub lower_preds : ℕ → List Instr → ℕ → List ℕ → List BasicBlock → List BasicBlock
unfolding lower_pred
lower_preds b phis pi [] bs = bs
lower_preds b phis pi (p ∷ ps) bs = lower_preds b phis (pi + 1) ps (lower_pred b phis pi p bs)

unfoldable pub phis_of : List Instr → List Instr
phis_of [] = []
phis_of (i ∷ is) = if op_eq i.val.op Op.phi then i ∷ phis_of is else []

-- `Instrs[n:]`.
abbrev pub drop_instrs : ℕ → List Instr → List Instr
drop_instrs zero is = is
drop_instrs (suc n) [] = []
drop_instrs (suc n) (i ∷ is) = drop_instrs n is

abbrev pub is_empty {ℓ} : {A : Type ℓ} → List A → Bool
is_empty [] = true
is_empty (x ∷ xs) = false

-- One block: the phis are taken from the block, with the copies it may have got for itself kept.
unfoldable pub lower_block : ℕ → List BasicBlock → List BasicBlock
unfolding phis_of lower_preds
lower_block b bs =
    let phis = phis_of (instrs_of (get_elem? bs b)) in
    let preds = preds_of (get_elem? bs b) in
    if is_empty phis || is_empty preds
    then bs
    else update (λ x. record x { instrs = drop_instrs (length phis) x.instrs }) b
        (lower_preds b phis 0 preds bs)

-- The blocks from `b` on, `k` of them.
unfoldable pub lower_blocks : ℕ → ℕ → List BasicBlock → List BasicBlock
unfolding lower_block
lower_blocks zero b bs = bs
lower_blocks (suc k) b bs = lower_blocks k (b + 1) (lower_block b bs)

-- The blocks that are there at the start; those that split an edge come behind them.
unfoldable pub phi_eliminate : Function → Function
unfolding lower_blocks
phi_eliminate f = record f { blocks = lower_blocks (length f.blocks) 0 f.blocks }
