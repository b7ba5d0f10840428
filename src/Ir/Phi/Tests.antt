-- ===== src/Ir/Phi/Tests.antt =====
-- internal/ir/phi.go at concrete blocks.
use ccomp.Base.{ℕ, ◌≡◌, refl, true, false, List, [], ◌∷◌, ◌++◌, Option, some, All, if◌then◌else◌}
use ccomp.Base.Int.{ℤ, pos, negsuc, ==_ℤ}
use ccomp.Base.Text.{Text, codes}
use ccomp.Ir.{Op, Instr, BasicBlock, Function}
use ccomp.Ir.Meaning.{Float64, World, State, Flow, return, exec, step, unary}
use ccomp.Ir.Phi.{copies, insert_all, phi_eliminate, decimal}
use ccomp.Ir.Phi.Copies.{HasValue}
use ccomp.Ir.Phi.Gone.{Holds}
use ccomp.Ir.Phi.Lowered.{IsLowered, phi_eliminate-IsLowered}
use ccomp.Ir.Phi.Insert.{exec-insert_all}

abbrev float : Float64
float = record {
  fadd = λ a b. 0;
  fsub = λ a b. 0;
  fmul = λ a b. 0;
  fdiv = λ a b. 0;
  is_zero = λ a. false;
  to_int = λ a. a;
}

abbrev world : World
world = record {
  Memory = Unit;
  float = float;
  argument = λ n. 0;
  read = λ from op sym ids vs mem. 0;
  act = λ op sym vs mem. some (0, tt);
}

abbrev instr : ℤ → Op → List ℤ → ℕ → Instr
instr r op as' k = record { res = r; val = record { op = op; args = as'; imm = k; sym = [] } }

decimal_sample : decimal 108 107 ≡ codes "107"
unfolding decimal
decimal_sample = refl

-- Two phis that exchange their values around a loop: the second copy reads what the first has set.
abbrev swap : List Instr
swap =
    instr (pos 5) Op.phi (pos 1 ∷ pos 6 ∷ []) 0 ∷ instr (pos 6) Op.phi (pos 2 ∷ pos 5 ∷ []) 0 ∷ []

abbrev state : State world
state = record { env = λ id. elim id [ pos n ↦ n | negsuc n ↦ 0 ]; mem = tt; from = 0; taken = 0 }

abbrev returned : Option (Flow world) → ℕ
returned (some (return x s)) = x
returned _ = 0

abbrev end : Instr
end = instr (negsuc 0) Op.ret (pos 6 ∷ []) 0

swap_lost : returned (exec world (copies 1 swap ++ end ∷ []) state) ≡ 6
unfolding exec step unary copies
swap_lost = refl

abbrev jump : Instr
jump = instr (negsuc 0) Op.jmp (pos 3 ∷ []) 0

abbrev front : List Instr
front = instr (pos 4) Op.const [] 9 ∷ []

abbrev after_front : State world
after_front = record state { env = λ id. if ==_ℤ (pos 4) id then 9 else state.env id }

exec-insert_all_example :
    (s2 : State world) × (exec world (insert_all (copies 0 swap) (front ++ jump ∷ [])) state
      ≡ exec world (jump ∷ []) s2)
    × All (HasValue world 0 after_front s2) swap
    × (s2.env (pos 4) ≡ after_front.env (pos 4))
unfolding exec step
exec-insert_all_example =
    exec-insert_all world 0 swap front jump state after_front (pos 4) refl
      (((refl, refl), tt), (tt, tt)) refl (refl, (refl, tt))

-- A loop whose head, block 1, has two predecessors, one of which is itself.
abbrev loop : Function
loop = record {
  name = codes "f";
  params = [];
  blocks =
      record {
        name = codes "entry";
        instrs =
            instr (pos 1) Op.const [] 1
            ∷ instr (pos 2) Op.const [] 2
            ∷ instr (negsuc 0) Op.jmp (pos 1 ∷ []) 0
            ∷ [];
        sealed = true;
        preds = [];
        succs = 1 ∷ [];
      }
      ∷ record {
        name = codes "head";
        instrs = swap ++ instr (negsuc 0) Op.jnz (pos 5 ∷ pos 1 ∷ pos 2 ∷ []) 0 ∷ [];
        sealed = true;
        preds = 0 ∷ 1 ∷ [];
        succs = 1 ∷ 2 ∷ [];
      }
      ∷ record { name = codes "exit"; instrs = end ∷ []; sealed = true; preds = 1 ∷ []; succs = [] }
      ∷ [];
  entry = some 0;
}

abbrev names_of : List BasicBlock → List Text
names_of [] = []
names_of (b ∷ bs) = b.name ∷ names_of bs

-- The edge of the head to itself is split.
loop_split :
    names_of (phi_eliminate loop).blocks
    ≡ codes "entry" ∷ codes "head" ∷ codes "exit" ∷ codes "head_to_head_3" ∷ []
unfolding phi_eliminate
loop_split = refl

phi_eliminate-IsLowered_example : Holds IsLowered (phi_eliminate loop).blocks 1
phi_eliminate-IsLowered_example = phi_eliminate-IsLowered loop 1 _ refl refl
