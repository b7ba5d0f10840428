-- ===== src/Codegen/Ra/Tests.antt =====
-- internal/codegen/x86_64/ra.go at concrete functions and intervals.
use ccomp.Base.{ℕ, ◌≡◌, refl, true, false, List, [], ◌∷◌, none, some, any, arith}
use ccomp.Base.Int.{ℤ, pos}
use ccomp.Ir.{Op, Instr, BasicBlock, Function}
use ccomp.Codegen.Reg.{Reg, reg_eq}
use ccomp.Codegen.Ra.{
  LiveInterval, allocable_regs, live_intervals, build_intervals, sort, call_nums, all_instrs,
  def_use, allocate_registers, scan, no_scan,
}
use mathlib.Core.List.{Permᴰ}
use ccomp.Codegen.Ra.Calls.{IsCut}
use ccomp.Codegen.Ra.Uses.{ReadAfter}
use ccomp.Codegen.Ra.Assigned.{Member, allocate_registers_sound}
use ccomp.Codegen.Ra.Intervals.{Ordered, DefinedAt, IsInterval, found, live_intervals-Ordered}
use ccomp.Codegen.Ra.Pressure.Live.{LowPressure, Separated, HasReg, live_at}
use ccomp.Codegen.Ra.Pressure.Steps.{allocate_registers_apart}
use ccomp.Base.{All}

abbrev interval : ℕ → ℕ → ℕ → LiveInterval
interval id start stop = record { id = pos id; start = start; stop = stop; spill = false }

-- Seven intervals take all registers, the first of them ending last; the next two overlap.
abbrev crowded : List LiveInterval
crowded =
    interval 0 0 100
    ∷ interval 1 1 50
    ∷ interval 2 2 50
    ∷ interval 3 3 50
    ∷ interval 4 4 50
    ∷ interval 5 5 50
    ∷ interval 6 6 50
    ∷ interval 7 7 20
    ∷ interval 8 8 20
    ∷ []

-- Both get the register of the interval that was put out, though both are live at 8.
crowded_seven : (scan crowded no_scan).reg_of (pos 7) ≡ some Reg.rdx
unfolding scan
crowded_seven = refl

crowded_eight : (scan crowded no_scan).reg_of (pos 8) ≡ some Reg.rdx
unfolding scan
crowded_eight = refl

abbrev instr : ℤ → Op → List ℤ → ℕ → Instr
instr r op as' k = record { res = r; val = record { op = op; args = as'; imm = k; sym = [] } }

abbrev block : List Instr → BasicBlock
block is = record { name = []; instrs = is; sealed = false; preds = []; succs = [] }

-- v0 is used past a call and v1 is not.
abbrev sample : Function
sample = record {
  name = [];
  params = [];
  blocks =
      block (
        instr (pos 0) Op.const [] 6
        ∷ instr (pos 1) Op.const [] 7
        ∷ instr (pos 2) Op.add (pos 1 ∷ pos 1 ∷ []) 0
        ∷ instr (pos 3) Op.call (pos 2 ∷ []) 0
        ∷ instr (pos 4) Op.add (pos 3 ∷ pos 0 ∷ []) 0
        ∷ instr (pos 5) Op.ret (pos 4 ∷ []) 0
        ∷ [])
      ∷ [];
  entry = some 0;
}

sample_one : allocate_registers sample (pos 1) ≡ some Reg.rdx
unfolding allocate_registers
sample_one = refl

sample_zero : allocate_registers sample (pos 0) ≡ none
unfolding allocate_registers
sample_zero = refl

-- The definitions of the sample, visited with the second before the first.
abbrev shuffled : List (ℤ × ℕ)
shuffled = (pos 1, 1) ∷ (pos 0, 0) ∷ (pos 2, 2) ∷ (pos 3, 3) ∷ (pos 4, 4) ∷ (pos 5, 5) ∷ []

shuffled-perm : Permᴰ (found sample).defs shuffled
unfolding all_instrs def_use
shuffled-perm = Permᴰ.swap refl refl

live_intervals-Ordered_example :
    (sort (
        build_intervals
          (call_nums 0 (all_instrs sample.blocks))
          (found sample).last_use_at
          shuffled)
      ≡ live_intervals sample)
    × Ordered 0 (live_intervals sample)
    × All (IsInterval (all_instrs sample.blocks)) (live_intervals sample)
live_intervals-Ordered_example = live_intervals-Ordered sample shuffled shuffled-perm

allocate_registers_sound_example :
    (any (λ q. reg_eq q Reg.rdx) allocable_regs ≡ true)
    × ((x : LiveInterval) × Member x (live_intervals sample)
        × (x.id ≡ pos 1)
        × DefinedAt (all_instrs sample.blocks) x.id x.start
        × (¬ ReadAfter (all_instrs sample.blocks) x.id x.stop)
        × (¬ IsCut (all_instrs sample.blocks) x.start x.stop))
allocate_registers_sound_example = allocate_registers_sound sample (pos 1) Reg.rdx sample_one

sample-LowPressure : LowPressure [] (live_intervals sample)
unfolding live_intervals live_at
sample-LowPressure = ground arith

allocate_registers_apart_example :
    Separated (allocate_registers sample) (live_intervals sample)
    × All (HasReg (allocate_registers sample)) (live_intervals sample)
allocate_registers_apart_example = allocate_registers_apart sample sample-LowPressure
