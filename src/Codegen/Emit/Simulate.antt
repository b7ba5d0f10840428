-- ===== src/Codegen/Emit/Simulate.antt =====
-- internal/codegen/x86_64/emit.go: the emitted code of an instruction against the instruction's
-- meaning.
use ccomp.Base.{
  ℕ, ◌≡◌, refl, sym, subst, ap, ◌∙◌, inl, inr, Bool, true, false, ◌&&◌, not, List, [], ◌∷◌, map,
  Option, none, some, ◌==◌, Option-cases, if_true, if_false, arith, All,
}
use ccomp.Base.Int.{ℤ, ==_ℤ, ==_ℤ_iff}
use ccomp.Base.Word
use ccomp.Ir.{Op, Instr, BasicBlock, op_eq}
use ccomp.Ir.Meaning.{
  World, State, fall, Class, class_of, flag, binary, unary, step, step_class, write, store_result,
  on_two, on_one,
}
use ccomp.Codegen.Reg.{Reg}
use ccomp.Codegen.Ra.{Allocation}
use ccomp.Codegen.Asm.{Asm, Operand, Machine, read, exec}
use ccomp.Codegen.Emit.{
  rax, rcx, in_home, home, is_const, const_or_home, or_imm, reg_or, reg_or_const, emit_move,
  emit_bitwise_not, emit_logical_not,
}
use ccomp.Codegen.Emit.Func.{emit_op}
use ccomp.Codegen.Emit.Place.{same, Sets}
use ccomp.Codegen.Emit.Alu.{work}
use ccomp.Codegen.Emit.Unary.{emit_move-Sets, emit_bitwise_not-Sets, emit_logical_not-Sets}
use ccomp.Codegen.Emit.Binary.{Apart, Emits, emit_binary}

-- The machine has the value of an id in its home, and the value of a constant is the constant.
pub record Hosts (alloc : Allocation) (b : List Instr) (m : Machine) (env : ℤ → ℕ) (id : ℤ)
    : Type 0 where
  pub at_home : read (home alloc id) m ≡ env id
  pub as_const : (c : ℕ) → is_const b id ≡ some c → env id ≡ c

-- An id whose home is neither that of the result nor a scratch register.
pub record Elsewhere (alloc : Allocation) (res id : ℤ) : Type 0 where
  pub other : ==_ℤ res id ≡ false
  pub dest : same (home alloc res) (home alloc id) ≡ false
  pub not_rax : same rax (home alloc id) ≡ false
  pub not_rcx : same rcx (home alloc id) ≡ false

Hosts-const_or_home :
    (alloc : Allocation) (b : List Instr) (m : Machine) (env : ℤ → ℕ) (id : ℤ)
    → Hosts alloc b m env id
    → read (const_or_home alloc b id) m ≡ env id
unfolding const_or_home
Hosts-const_or_home alloc b m env id h = elim (Option-cases (is_const b id)) [
  | inl e ↦ rw (e, or_imm) h.at_home
  | inr (c, e) ↦ rw (e, or_imm) (sym (h.as_const c e))
]

read-reg_or :
    (o : Option Reg) (id : ℤ) (x : Operand) (m : Machine) (v : ℕ)
    → read (in_home o id) m ≡ v
    → read x m ≡ v
    → read (reg_or o x) m ≡ v
read-reg_or none id x m v h k = k
read-reg_or (some r) id x m v h k = h

Hosts-reg_or_const :
    (alloc : Allocation) (b : List Instr) (m : Machine) (env : ℤ → ℕ) (id : ℤ)
    → Hosts alloc b m env id
    → read (reg_or_const alloc b id) m ≡ env id
unfolding reg_or_const home
Hosts-reg_or_const alloc b m env id h =
    read-reg_or (alloc id) id (const_or_home alloc b id) m (env id) h.at_home
      (Hosts-const_or_home alloc b m env id h)

-- The opcodes on words whose code keeps every register but %rax and %rcx: all but the division.
abbrev plain_class : Class → Bool
plain_class Class.constant = true
plain_class Class.one_word = true
plain_class Class.two_words = true
plain_class _ = false

unfoldable pub is_plain : Op → Bool
is_plain op = plain_class (class_of op) && not (op_eq op Op.div)

module _ (w : World) where
  decode_two :
      (args : List ℤ) (f : ℕ → ℕ → Option ℕ) (r : ℤ) (s s' : State w)
      → store_result w r s (on_two w (map s.env args) f) ≡ some (fall s')
      → (x y : ℤ) × (v : ℕ) × ((args ≡ x ∷ y ∷ [])
          × ((f (s.env x) (s.env y) ≡ some v) × (s' ≡ write w r v s)))
  decode_two [] f r s s' h = cc h
  decode_two (x ∷ []) f r s s' h = cc h
  decode_two (x ∷ y ∷ []) f r s s' h = elim (Option-cases (f (s.env x) (s.env y))) [
    | inl e ↦ cc (rw e at h)
    | inr (v, e) ↦ (x, y, v, (refl, (e, cc (rw e at h))))
  ]
  decode_two (x ∷ y ∷ z ∷ args) f r s s' h = cc h

  decode_one :
      (args : List ℤ) (f : ℕ → Option ℕ) (r : ℤ) (s s' : State w)
      → store_result w r s (on_one w (map s.env args) f) ≡ some (fall s')
      → (x : ℤ) × (v : ℕ) × ((args ≡ x ∷ []) × ((f (s.env x) ≡ some v) × (s' ≡ write w r v s)))
  decode_one [] f r s s' h = cc h
  decode_one (x ∷ []) f r s s' h = elim (Option-cases (f (s.env x))) [
    | inl e ↦ cc (rw e at h)
    | inr (v, e) ↦ (x, v, (refl, (e, cc (rw e at h))))
  ]
  decode_one (x ∷ y ∷ args) f r s s' h = cc h

module _ (w : World) (alloc : Allocation) (bs : List BasicBlock) (size : ℕ) (b : List Instr) where
  abbrev Code : Op → Instr → ℕ → Machine → Type 0
  Code op i v m = Emits w.float alloc bs size b op i (home alloc i.res) v m

  emit_unary :
      (op : Op) (i : Instr) (x : ℤ) (v : ℕ) (m : Machine) (env : ℤ → ℕ)
      → i.val.args ≡ x ∷ []
      → Hosts alloc b m env x
      → unary op (env x) ≡ some v
      → Code op i v m
  unfolding emit_op unary
  emit_unary Op.copy i x v m env a h e =
      let code = emit_move alloc i.res (reg_or_const alloc b x) in
      let q : read (reg_or_const alloc b x) m ≡ v = Hosts-reg_or_const alloc b m env x h ∙ cc e in
      (
        code,
        (
          rw a refl,
          subst (λ z. Sets code (home alloc i.res) z m) q
              (emit_move-Sets alloc i.res (reg_or_const alloc b x) m),
        ),
      )
  emit_unary Op.not i x v m env a h e =
      let code = emit_bitwise_not alloc b i.res x in
      let q : Word.complement (read (const_or_home alloc b x) m) ≡ v =
        ap Word.complement (Hosts-const_or_home alloc b m env x h) ∙ cc e in
      (
        code,
        (
          rw a refl,
          subst (λ z. Sets code (home alloc i.res) z m) q (emit_bitwise_not-Sets alloc b i.res x m),
        ),
      )
  emit_unary Op.logical_not i x v m env a h e =
      let code = emit_logical_not alloc b i.res x in
      let q : flag (read (const_or_home alloc b x) m == 0) ≡ v =
        ap (λ z. flag (z == 0)) (Hosts-const_or_home alloc b m env x h) ∙ cc e in
      (
        code,
        (
          rw a refl,
          subst (λ z. Sets code (home alloc i.res) z m) q (emit_logical_not-Sets alloc b i.res x m),
        ),
      )
  emit_unary _ i x v m env a h e = cc e

  emit_constant :
      (op : Op) (i : Instr) (m : Machine) → class_of op ≡ Class.constant → Code op i i.val.imm m
  unfolding emit_op
  emit_constant Op.const i m e = (_, (refl, emit_move-Sets alloc i.res (Operand.imm i.val.imm) m))
  emit_constant Op.fconst i m e = (_, (refl, emit_move-Sets alloc i.res (Operand.imm i.val.imm) m))
  emit_constant _ i m e = cc e

  -- What the result of an instruction is, and code that computes it.
  unfoldable Computes : Instr → State w → State w → Machine → Type 0
  Computes i s s' m = (v : ℕ) × ((s' ≡ write w i.res v s) × Code i.val.op i v m)

  computes :
      (c : Class) (i : Instr) (s s' : State w) (m : Machine)
      → class_of i.val.op ≡ c
      → plain_class c ≡ true
      → op_eq i.val.op Op.div ≡ false
      → All (Hosts alloc b m s.env) i.val.args
      → All (λ a. Apart (work (alloc i.res)) (const_or_home alloc b a)) i.val.args
      → step_class w c i.res i.val s ≡ some (fall s')
      → Computes i s s' m
  unfolding Computes
  computes Class.constant i s s' m k p d h t e = (i.val.imm, (cc e, emit_constant i.val.op i m k))
  computes Class.one_word i s s' m k p d h t e =
      let (x, v, (a, (f, q))) = decode_one w i.val.args (unary i.val.op) i.res s s' e in
      let hosts = subst (λ z. All (Hosts alloc b m s.env) z) a h in
      (v, (q, emit_unary i.val.op i x v m s.env a hosts.0 f))
  computes Class.two_words i s s' m k p d h t e =
      let (x, y, v, (a, (f, q))) = decode_two w i.val.args (binary i.val.op) i.res s s' e in
      let hosts = subst (λ z. All (Hosts alloc b m s.env) z) a h in
      let aparts =
        subst (λ z. All (λ o. Apart (work (alloc i.res)) (const_or_home alloc b o)) z) a t in
      let right = Hosts-const_or_home alloc b m s.env y hosts.1.0 in
      (
        v,
        (
          q,
          emit_binary w.float alloc bs size b i.val.op i x y v m a d aparts.1.0
              (rw (hosts.0.at_home, right) f),
        ),
      )
  computes _ i s s' m k p d h t e = cc p

  written : (r : ℤ) (v : ℕ) (s s' : State w) → s' ≡ write w r v s → s'.env r ≡ v
  written r v s s' q = ap (λ (u : State w). u.env r) q ∙ if_true _ ((==_ℤ_iff r r).1 refl)

  unwritten :
      (r id : ℤ) (v : ℕ) (s s' : State w)
      → s' ≡ write w r v s
      → ==_ℤ r id ≡ false
      → s'.env id ≡ s.env id
  unwritten r id v s s' q f = ap (λ (u : State w). u.env id) q ∙ if_false _ f

  -- The code of the instruction runs to its end, the home of the result has its new value, and the
  -- home of `id` its own.
  unfoldable pub Simulates : Instr → State w → Machine → ℤ → Type 0
  Simulates i s' m id =
      (code : List Asm) × (n : Machine) × (emit_op w.float alloc bs size b i.val.op i ≡ some code)
      × (exec code m ≡ some n)
      × (read (home alloc i.res) n ≡ s'.env i.res)
      × (read (home alloc id) n ≡ s'.env id)

  simulates :
      (i : Instr) (s s' : State w) (m : Machine) (id : ℤ)
      → Elsewhere alloc i.res id
      → read (home alloc id) m ≡ s.env id
      → Computes i s s' m
      → Simulates i s' m id
  unfolding Computes Simulates
  simulates i s s' m id o k (v, (q, (code, (c, (n, (x, (g, keep))))))) = (
    code,
    n,
    c,
    x,
    g ∙ sym (written i.res v s s' q),
    keep (home alloc id) o.dest o.not_rax o.not_rcx
        ∙ (k ∙ sym (unwritten i.res id v s s' q o.other)),
  )

  -- Take a constant, a copy, a negation, an addition, subtraction, multiplication, bit
  -- operation, shift or comparison that has a meaning, on a machine that has the operands in
  -- their homes, where no operand is in %rax or in the register that the result is computed in,
  -- and that register is not %rcx. The code is emitted and runs to its end, and leaves the
  -- result in its home, and any other value, which has a home of its own that is neither %rax
  -- nor %rcx, in that home.
  pub exec-emit_op :
      (i : Instr) (s s' : State w) (m : Machine) (id : ℤ)
      → is_plain i.val.op ≡ true
      → All (Hosts alloc b m s.env) i.val.args
      → All (λ a. Apart (work (alloc i.res)) (const_or_home alloc b a)) i.val.args
      → step w i s ≡ some (fall s')
      → Elsewhere alloc i.res id
      → read (home alloc id) m ≡ s.env id
      → Simulates i s' m id
  unfolding is_plain step
  exec-emit_op i s s' m id p h t e o k =
      let plain : plain_class (class_of i.val.op) ≡ true = ground (arith, p) in
      let no_div : op_eq i.val.op Op.div ≡ false = ground (arith, p) in
      simulates i s s' m id o k (computes (class_of i.val.op) i s s' m refl plain no_div h t e)
