-- ===== src/Codegen/Ra.antt =====
-- internal/codegen/x86_64/ra.go: the live intervals of a function and the linear scan over them.
pub mod Calls
pub mod Uses
pub mod Visit
pub mod Intervals
pub mod Assigned
pub mod Pressure
mod Tests
use ccomp.Base.{
  ℕ, zero, suc, ◌+◌, Bool, true, false, ◌&&◌, ◌||◌, not, List, [], ◌∷◌, ◌++◌, map, Option, none,
  some, any, ltb, leb, ◌==◌, if◌then◌else◌, length, get_elem?, set, take,
}
use ccomp.Base.Int.{ℤ, ==_ℤ, is_negative}
use ccomp.Ir.{Op, op_eq, Instr, BasicBlock, Function}
use ccomp.Codegen.Reg.{Reg, reg_eq}

pub record LiveInterval : Type 0 where
  pub id : ℤ
  pub start : ℕ
  pub stop : ℕ
  pub spill : Bool

-- `regOf`, with the keys that are not in the map at none.
abbrev pub Allocation : Type 0
Allocation = ℤ → Option Reg

abbrev pub put {ℓ} : {A : Type ℓ} → ℤ → A → (ℤ → A) → ℤ → A
put k v m = λ j. if ==_ℤ k j then v else m j

abbrev pub allocable_regs : List Reg
allocable_regs = Reg.rdx ∷ Reg.r8 ∷ Reg.r9 ∷ Reg.r10 ∷ Reg.r11 ∷ Reg.rsi ∷ Reg.rdi ∷ []

-- The instructions of all blocks, by number.
unfoldable pub all_instrs : List BasicBlock → List Instr
all_instrs [] = []
all_instrs (b ∷ bs) = b.instrs ++ all_instrs bs

unfoldable pub call_nums : ℕ → List Instr → List ℕ
call_nums n [] = []
call_nums n (i ∷ is) =
    if op_eq i.val.op Op.call then n ∷ call_nums (n + 1) is else call_nums (n + 1) is

-- The maps `defAt`, with its keys in the order of their insertion, and `lastUseAt`.
pub record DefUse : Type 0 where
  pub defs : List (ℤ × ℕ)
  pub last_use_at : ℤ → Option ℕ

unfoldable pub defined : ℤ → List (ℤ × ℕ) → Bool
defined id ds = any (λ d. ==_ℤ d.0 id) ds

unfoldable pub record_def : ℕ → ℤ → DefUse → DefUse
unfolding defined
record_def n r d =
    if is_negative r || defined r d.defs
    then d
    else record { defs = d.defs ++ (r, n) ∷ []; last_use_at = put r (some n) d.last_use_at }

unfoldable pub record_uses : ℕ → List ℤ → DefUse → DefUse
record_uses n [] d = d
record_uses n (a ∷ as') d =
    record_uses n as' (record d { last_use_at = put a (some n) d.last_use_at })

unfoldable pub def_use : ℕ → List Instr → DefUse → DefUse
unfolding record_def record_uses
def_use n [] d = d
def_use n (i ∷ is) d = def_use (n + 1) is (record_uses n i.val.args (record_def n i.res d))

unfoldable pub spans_call : List ℕ → ℕ → ℕ → Bool
spans_call calls def stop = any (λ c. ltb def c && ltb c stop) calls

-- A value with no use after its definition has no interval.
abbrev pub interval_of : List ℕ → ℤ × ℕ → Option ℕ → List LiveInterval → List LiveInterval
interval_of calls (id, def) none rest = rest
interval_of calls (id, def) (some stop) rest =
    if leb stop def
    then rest
    else record { id = id; start = def; stop = stop; spill = spans_call calls def stop } ∷ rest

unfoldable pub build_intervals : List ℕ → (ℤ → Option ℕ) → List (ℤ × ℕ) → List LiveInterval
unfolding spans_call
build_intervals calls uses [] = []
build_intervals calls uses (d ∷ ds) = interval_of calls d (uses d.0) (build_intervals calls uses ds)

-- `sort.Slice` by the start.
unfoldable pub insert : LiveInterval → List LiveInterval → List LiveInterval
insert x [] = x ∷ []
insert x (y ∷ ys) = if leb x.start y.start then x ∷ y ∷ ys else y ∷ insert x ys

unfoldable pub sort : List LiveInterval → List LiveInterval
unfolding insert
sort [] = []
sort (x ∷ xs) = insert x (sort xs)

-- The map `defAt` is visited in the order of insertion here, one of the orders that Go may take.
unfoldable pub live_intervals : Function → List LiveInterval
unfolding all_instrs call_nums def_use build_intervals sort
live_intervals f =
    let is = all_instrs f.blocks in
    let d = def_use 0 is (record { defs = []; last_use_at = λ _. none }) in
    sort (build_intervals (call_nums 0 is) d.last_use_at d.defs)

pub record ActiveInterval : Type 0 where
  pub interval : LiveInterval
  pub reg : Reg

unfoldable pub expire : ℕ → List ActiveInterval → List ActiveInterval
expire position [] = []
expire position (a ∷ as') =
    if leb position a.interval.stop then a ∷ expire position as' else expire position as'

unfoldable pub used : List ActiveInterval → Reg → Bool
used active r = any (λ a. reg_eq a.reg r) active

unfoldable pub first_free : List ActiveInterval → List Reg → Option Reg
unfolding used
first_free active [] = none
first_free active (r ∷ rs) = if used active r then first_free active rs else some r

-- The place of the first interval that ends last: `best` is the best place yet, `stop` its end.
unfoldable pub candidate_from : ℕ → ℕ → ℕ → List ActiveInterval → ℕ
candidate_from best stop n [] = best
candidate_from best stop n (a ∷ as') =
    if ltb stop a.interval.stop
    then candidate_from n a.interval.stop (n + 1) as'
    else candidate_from best stop (n + 1) as'

unfoldable pub spill_candidate : List ActiveInterval → Option ℕ
unfolding candidate_from
spill_candidate [] = none
spill_candidate (a ∷ as') = some (candidate_from 0 a.interval.stop 1 as')

-- The filter that takes the candidate out works in the array that it reads, and the candidate is a
-- pointer into that array, to cell `k`: each test reads the id that the cell holds by then. The
-- result is the array, and the length of the new slice in it.
unfoldable pub remove_in_place : ℕ → ℕ → ℕ → ℕ → List ActiveInterval → ℕ × List ActiveInterval
remove_in_place zero j m k cells = (m, cells)
remove_in_place (suc rounds) j m k cells = elim (get_elem? cells j) [
  | none ↦ (m, cells)
  | some a ↦ elim (get_elem? cells k) [
    | none ↦ (m, cells)
    | some c ↦ elim (==_ℤ a.interval.id c.interval.id) [
      | true ↦ remove_in_place rounds (j + 1) m k cells
      | false ↦ remove_in_place rounds (j + 1) (m + 1) k (set cells m a)
    ]
  ]
]

pub record Scan : Type 0 where
  pub active : List ActiveInterval
  pub reg_of : Allocation

unfoldable pub assign : LiveInterval → Reg → Scan → Scan
assign x r s = record {
  active = s.active ++ record { interval = x; reg = r } ∷ [];
  reg_of = put x.id (some r) s.reg_of;
}

-- The current interval takes the register of the candidate, `c`, in cell `k`. Its own entry in
-- `active` reads `candidate.reg` once more, after the filter has moved the cells.
unfoldable pub take_over : LiveInterval → ℕ → ActiveInterval → Scan → Scan
unfolding remove_in_place
take_over x k c s =
    let (m, cells) = remove_in_place (length s.active) 0 0 k s.active in
    let regs = put x.id (some c.reg) (put c.interval.id none s.reg_of) in
    elim (get_elem? cells k) [
      | none ↦ record { active = take m cells; reg_of = regs }
      | some now ↦ record {
        active = take m cells ++ record { interval = x; reg = now.reg } ∷ [];
        reg_of = regs;
      }
    ]

abbrev pub try_spill : LiveInterval → Scan → Option ℕ → Scan
try_spill x s none = s
try_spill x s (some k) = elim (get_elem? s.active k) [
  | none ↦ s
  | some c ↦ if ltb x.stop c.interval.stop then take_over x k c s else s
]

abbrev pub place : LiveInterval → Scan → Option Reg → Scan
place x s (some r) = assign x r s
place x s none = try_spill x s (spill_candidate s.active)

unfoldable pub scan_one : LiveInterval → Scan → Scan
unfolding expire first_free assign spill_candidate take_over
scan_one x s =
    let s' = record s { active = expire x.start s.active } in
    if x.spill then s' else place x s' (first_free s'.active allocable_regs)

unfoldable pub scan : List LiveInterval → Scan → Scan
unfolding scan_one
scan [] s = s
scan (x ∷ xs) s = scan xs (scan_one x s)

abbrev pub no_scan : Scan
no_scan = record { active = []; reg_of = λ id. none }

-- A function with no instruction has no interval, as in the source's early return.
unfoldable pub allocate_registers : Function → Allocation
unfolding live_intervals scan
allocate_registers f = (scan (live_intervals f) no_scan).reg_of
