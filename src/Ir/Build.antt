-- ===== src/Ir/Build.antt =====
-- internal/ir/ir.go: the state of the builder, and the values of variables in single assignment
-- (writeVar, readVar, newPhi, addPhiOperands, sealBlock). Expressions, statements and modules are in
-- the children.
pub mod Read
pub mod Operand
pub mod Element
pub mod Expr
pub mod Simple
pub mod Stmt
pub mod Switch
pub mod Program
pub mod Single
pub mod Layout
pub mod Typing
mod Tests
use ccomp.Base.{
  ℕ, zero, suc, ◌+◌, ◌*◌, Bool, true, false, ◌&&◌, ◌||◌, List, [], ◌∷◌, ◌++◌, Option, none, some,
  ◌==◌, if◌then◌else◌, length, get_elem?,
}
use ccomp.Base.Int.{ℤ, pos, negsuc, ==_ℤ}
use ccomp.Base.Text.{Text, text_eq}
use ccomp.Types.{CType}
use ccomp.Ast.{Pos}
use ccomp.Ir.{Op, op_eq, Value, Instr, BasicBlock, Function, Global, StrLit}
use ccomp.Ir.Phi.{update, new_block, add_edge, instrs_of, preds_of}

-- A map from names, the latest entry first.
abbrev pub NameMap {ℓ} : Type ℓ → Type ℓ
NameMap V = List (Text × V)

unfoldable pub lookup {ℓ} : {V : Type ℓ} → Text → NameMap V → Option V
lookup k [] = none
lookup k ((j, v) ∷ m) = if text_eq j k then some v else lookup k m

-- `StructField` and `StructDef`; the size is that of the fields.
pub record StructField : Type 0 where
  pub name : Text
  pub type : CType
  pub offset : ℕ

pub record StructDef : Type 0 where
  pub fields : List StructField
  pub size : ℕ

-- The struct `Module`, but for its name and the functions that are done.
pub record Module : Type 0 where
  pub globals : List Global
  pub str_lits : List StrLit
  pub enum_constants : NameMap ℕ
  pub struct_defs : NameMap StructDef
  pub typedefs : NameMap CType

pub record Array : Type 0 where
  pub base : ℤ
  pub size : ℕ
  pub elem_size : ℕ

-- The struct `buildCtx`, where a block is its index: `b` the current one. The maps by block and name
-- are lists of entries, the latest first; the stacks of targets have their top first. The field
-- `enumConstants`, which nothing reads, is left out.
pub record Ctx : Type 0 where
  pub f : Function
  pub b : ℕ
  pub next_id : ℕ
  pub cur_def : List (ℕ × Text × ℕ)
  pub pending : List (ℕ × Text × ℕ)
  pub break_targets : List ℕ
  pub cont_targets : List ℕ
  pub m : Module
  pub arrays : NameMap Array
  pub var_types : NameMap CType
  pub str_labels : NameMap Text
  pub struct_vars : NameMap Text
  pub ret_type : CType

pub data BuildError : Type 0 where
  undefined_variable unknown_typedef unknown_array unknown_struct not_a_struct : Text → BuildError
  not_defined : Text → BuildError
  no_field : Text → Text → BuildError
  pointer_returned : Text → Pos → BuildError
  bad_assign : Text → Pos → CType → CType → BuildError
  break_outside continue_outside bad_operand bad_base : BuildError

-- `out_of_fuel` has no counterpart in the program.
pub data Built {ℓ} (A : Type ℓ) : Type ℓ where
  built : A → Ctx → Built A
  error : BuildError → Built A
  out_of_fuel : Built A

abbrev pub Build {ℓ} : Type ℓ → Type ℓ
Build A = Ctx → Built A

abbrev pub bind {ℓ κ} : {A : Type ℓ} {B : Type κ} → Built A → (A → Build B) → Built B
bind (built a c) f = f a c
bind (error e) f = error e
bind out_of_fuel f = out_of_fuel

infixl 5 ◌>>=◌ ◌>>◌
abbrev pub ◌>>=◌ {ℓ κ} : {A : Type ℓ} {B : Type κ} → Build A → (A → Build B) → Build B
◌>>=◌ m f c = bind (m c) f

abbrev pub ◌>>◌ {ℓ κ} : {A : Type ℓ} {B : Type κ} → Build A → Build B → Build B
◌>>◌ m k c = bind (m c) (λ _. k)

abbrev pub pure {ℓ} : {A : Type ℓ} → A → Build A
pure a c = built a c

abbrev pub fail {ℓ} : {A : Type ℓ} → BuildError → Build A
fail e c = error e

abbrev pub get : Build Ctx
get c = built c c

abbrev pub modify : (Ctx → Ctx) → Build (Unit {0})
modify g c = built tt (g c)

-- A change of the blocks.
abbrev pub with_blocks : (List BasicBlock → List BasicBlock) → Ctx → Ctx
with_blocks g c = record c { f = record c.f { blocks = g c.f.blocks } }

abbrev pub append_to : Instr → BasicBlock → BasicBlock
append_to i blk = record blk { instrs = blk.instrs ++ i ∷ [] }

-- `c.b.Instrs = append(c.b.Instrs, i)`.
unfoldable pub emit : Instr → Ctx → Ctx
emit i c = with_blocks (update (append_to i) c.b) c

-- `newValue`, with the field `Sym` that the source fills in afterwards.
unfoldable pub new_value : Op → List ℤ → ℕ → Text → Build ℕ
unfolding emit
new_value op args k sym c =
    let i : Instr = record {
      res = pos c.next_id;
      val = record { op = op; args = args; imm = k; sym = sym };
    } in
    built c.next_id (emit i (record c { next_id = suc c.next_id }))

-- `add`, for operands that are values.
abbrev pub add : Op → List ℕ → Build ℕ
add op args = new_value op (ids args) 0 []
  where
    ids : List ℕ → List ℤ
    ids [] = []
    ids (a ∷ as') = pos a ∷ ids as'

abbrev pub iconst : ℕ → Build ℕ
iconst k = new_value Op.const [] k []

abbrev pub fconst : ℕ → Build ℕ
fconst bits = new_value Op.fconst [] bits []

abbrev pub global_addr : Text → Build ℕ
global_addr sym = new_value Op.global_addr [] 0 sym

unfoldable pub write_var : Text → ℕ → ℕ → Ctx → Ctx
write_var name blk id c = record c { cur_def = (blk, name, id) ∷ c.cur_def }

-- `f.newBlock`, whose block is known by its index.
unfoldable pub fresh_block : Text → Build ℕ
unfolding new_block
fresh_block name c = built (length c.f.blocks) (with_blocks (new_block name) c)

unfoldable pub edge : ℕ → ℕ → Build (Unit {0})
unfolding add_edge
edge p s = modify (with_blocks (add_edge p s))

abbrev pub without_result : Op → List ℤ → Instr
without_result op args = record {
  res = negsuc 0;
  val = record { op = op; args = args; imm = 0; sym = [] };
}

-- A jump from the current block, and its edge.
abbrev pub jump_only : ℕ → Build (Unit {0})
jump_only t = modify (emit (without_result Op.jmp (pos t ∷ [])))

abbrev pub edge_to : ℕ → Build (Unit {0})
edge_to t = do c ← get; edge (c.b) t

unfoldable pub jump : ℕ → Build (Unit {0})
unfolding emit edge
jump t = do jump_only t; edge_to t

abbrev pub branch_only : ℕ → ℕ → ℕ → Build (Unit {0})
branch_only v t f = modify (emit (without_result Op.jnz (pos v ∷ pos t ∷ pos f ∷ [])))

unfoldable pub branch : ℕ → ℕ → ℕ → Build (Unit {0})
unfolding emit edge
branch v t f = do branch_only v t f; edge_to t; edge_to f

abbrev pub move_to : ℕ → Build (Unit {0})
move_to blk = modify (λ c. record c { b = blk })

abbrev pub write_here : Text → ℕ → Build (Unit {0})
write_here name id = modify (λ c. write_var name c.b id c)

abbrev pub ends_block : Op → Bool
ends_block op = op_eq op Op.jmp || op_eq op Op.jnz || op_eq op Op.ret

unfoldable pub last_ends : List Instr → Bool
last_ends [] = false
last_ends (i ∷ []) = ends_block i.val.op
last_ends (i ∷ j ∷ is) = last_ends (j ∷ is)

-- `c.b.terminated()`.
unfoldable pub terminated : Ctx → Bool
unfolding last_ends
terminated c = last_ends (instrs_of (get_elem? c.f.blocks c.b))

-- `if !c.b.terminated() { jump }`.
abbrev pub unless_terminated : Build (Unit {0}) → Build (Unit {0})
unless_terminated m c = if terminated c then built tt c else m c

abbrev pub set_type : Text → CType → Build (Unit {0})
set_type name t = modify (λ c. record c { var_types = (name, t) ∷ c.var_types })
