-- ===== src/Ir/Ssa.antt =====
-- internal/ir/ir.go: single assignment within a block, as the builder makes it.
use mathlib.Core.Path.{fun_ext}
use ccomp.Base.{
  ℕ, ◌≡◌, refl, ap, ◌∙◌, Bool, true, false, ◌||◌, List, [], ◌∷◌, ◌++◌, any, All, arith, get_elem?,
  some, ==_iff,
}
use ccomp.Base.Int.{ℤ, ==_ℤ}
use ccomp.Ir.{Op, op_eq, op_number, Instr}
use ccomp.Ir.Opt.{set_const}

-- The opcodes by number.
all_ops : List Op
all_ops =
    Op.const ∷ Op.fconst ∷ Op.add ∷ Op.sub ∷ Op.mul ∷ Op.div ∷ Op.fadd ∷ Op.fsub ∷ Op.fmul ∷ Op.fdiv
    ∷ Op.eq ∷ Op.ne ∷ Op.lt ∷ Op.le ∷ Op.gt ∷ Op.ge ∷ Op.ret ∷ Op.store ∷ Op.load ∷ Op.load8
    ∷ Op.param ∷ Op.and ∷ Op.or ∷ Op.xor ∷ Op.shl ∷ Op.shr ∷ Op.not ∷ Op.copy ∷ Op.phi ∷ Op.jmp
    ∷ Op.jnz ∷ Op.call ∷ Op.addr ∷ Op.global_addr ∷ Op.slot_addr ∷ Op.store8 ∷ Op.logical_not
    ∷ Op.f2i ∷ Op.i2f ∷ []

get_elem?-op_number : (op : Op) → get_elem? all_ops (op_number op) ≡ some op
unfolding all_ops
get_elem?-op_number Op.const = refl
get_elem?-op_number _ = refl

pub op_eq→eq : (a b : Op) → op_eq a b ≡ true → a ≡ b
op_eq→eq a b h =
    let n : op_number a ≡ op_number b = (==_iff _ _).0 h in
    cc (get_elem?-op_number a, get_elem?-op_number b)

-- Whether one of the instructions has the id for its result.
unfoldable pub defines : List Instr → ℤ → Bool
defines is id = any (λ i. ==_ℤ i.res id) is

abbrev pub is_jump : Op → Bool
is_jump op = op_eq op Op.jmp || op_eq op Op.jnz

-- Single assignment within a block: an instruction that may have a result gives its id once, and no
-- instruction but a phi reads an id that it or a later instruction of the block defines.
abbrev pub Ssa : List Instr → Type 0
Ssa [] = Unit {0}
Ssa (i ∷ is) =
    (is_jump i.val.op ≡ false → defines is i.res ≡ false)
    × (op_eq i.val.op Op.phi ≡ false → All (λ a. defines (i ∷ is) a ≡ false) i.val.args)
    × Ssa is

pub defines-append :
    (xs ys : List Instr) (a : ℤ) → defines (xs ++ ys) a ≡ (defines xs a || defines ys a)
unfolding defines
defines-append [] ys a = refl
defines-append (x ∷ xs) ys a = ground (arith, defines-append xs ys a)

defines_front : (xs ys : List Instr) (a : ℤ) → defines (xs ++ ys) a ≡ false → defines xs a ≡ false
defines_front xs ys a h = ground (arith, defines-append xs ys a)

All-mono {ℓ} : {P Q : ℤ → Type ℓ} (as' : List ℤ) → ((a : ℤ) → P a → Q a) → All P as' → All Q as'
All-mono [] f h = tt
All-mono (a ∷ as') f h = (f a h.0, All-mono as' f h.1)

pub Ssa-front : (xs ys : List Instr) → Ssa (xs ++ ys) → Ssa xs
Ssa-front [] ys h = tt
Ssa-front (x ∷ xs) ys h = (
  λ j. defines_front xs ys _ (h.0 j),
  λ j. All-mono x.val.args (defines_front (x ∷ xs) ys) (h.1 j),
  Ssa-front xs ys h.2,
)

pub Ssa-back : (xs ys : List Instr) → Ssa (xs ++ ys) → Ssa ys
Ssa-back [] ys h = h
Ssa-back (x ∷ xs) ys h = Ssa-back xs ys h.2

defines-set_const :
    (done is : List Instr) (op : Op) (k : ℕ) (i : Instr) (a : ℤ)
    → defines (done ++ set_const op k i ∷ is) a ≡ defines (done ++ i ∷ is) a
unfolding defines
defines-set_const [] is op k i a = refl
defines-set_const (x ∷ done) is op k i a =
    ap (λ b. ==_ℤ x.res a || b) (defines-set_const done is op k i a)

pub set_const-Ssa :
    (done is : List Instr) (op : Op) (k : ℕ) (i : Instr)
    → is_jump i.val.op ≡ false
    → Ssa (done ++ i ∷ is)
    → Ssa (done ++ set_const op k i ∷ is)
set_const-Ssa [] is op k i j d = (λ _. d.0 j, λ _. tt, d.2)
set_const-Ssa (x ∷ done) is op k i j d = (
  λ h. defines-set_const done is op k i x.res ∙ d.0 h,
  λ h. rw (fun_ext (defines-set_const (x ∷ done) is op k i)) (d.1 h),
  set_const-Ssa done is op k i j d.2,
)
