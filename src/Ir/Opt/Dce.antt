-- ===== src/Ir/Opt/Dce.antt =====
-- internal/ir/opt.go, dceFunc: a swept function runs as before.
use mathlib.Core.Path.{subst}
use mathlib.Core.Option.{some-injective}
use ccomp.Base.{
  ℕ, suc, ◌<◌, ◌≤◌, ◌≡◌, refl, ap, Bool, true, false, List, [], ◌∷◌, map, Option, none, some, All,
  if◌then◌else◌, ◌==◌, arith,
}
use ccomp.Base.Int.{ℤ, ==_ℤ_iff, is_negative}
use ccomp.Ir.{Value, Instr, BasicBlock}
use ccomp.Ir.Meaning.{
  World, State, Flow, fall, goto, return, write, store_result, perform, step_class, Class, binary,
  unary, on_one, on_two, float_binary, jump, branch, leave,
}
use ccomp.Ir.Ssa.{is_jump}
use ccomp.Ir.Opt.{count_id, uses_in, build_uses}

-- Jumps have no result: the builder gives them the id -1.
abbrev pub IsPlain : Instr → Type 0
IsPlain i = is_jump i.val.op ≡ true → is_negative i.res ≡ true

abbrev pub JumpsPlain : List BasicBlock → Type 0
JumpsPlain bs = All (λ b. All IsPlain b.instrs) bs

-- Every id that an instruction reads is counted.
abbrev pub IsCounted : (ℤ → ℕ) → Instr → Type 0
IsCounted u i = All (λ a. 0 < u a) i.val.args

count_id_lem :
    (u : ℤ → ℕ) (as' : List ℤ) → ((a : ℤ) → count_id a as' ≤ u a) → All (λ a. 0 < u a) as'
unfolding count_id
count_id_lem u [] h = tt
count_id_lem u (a ∷ as') h =
    (ground (arith, h a, ==_ℤ_iff a a), count_id_lem u as' (λ x. ground (arith, h x)))

uses_in_lem : (u : ℤ → ℕ) (is : List Instr) → ((a : ℤ) → uses_in is a ≤ u a) → All (IsCounted u) is
unfolding uses_in
uses_in_lem u [] h = tt
uses_in_lem u (i ∷ is) h = (
  count_id_lem u i.val.args (λ a. omega (arith, h a)),
  uses_in_lem u is (λ a. omega (arith, h a)),
)

pub build_uses_lem :
    (u : ℤ → ℕ) (bs : List BasicBlock)
    → ((a : ℤ) → build_uses bs a ≤ u a)
    → All (λ b. All (IsCounted u) b.instrs) bs
unfolding build_uses
build_uses_lem u [] h = tt
build_uses_lem u (b ∷ bs) h = (
  uses_in_lem u b.instrs (λ a. omega (arith, h a)),
  build_uses_lem u bs (λ a. omega (arith, h a)),
)

module _ (w : World) (u : ℤ → ℕ) where
  -- The states agree on all that is read.
  pub record Agree (s t : State w) : Type 0 where
    pub env_eq : (a : ℤ) → 0 < u a → s.env a ≡ t.env a
    pub mem_eq : s.mem ≡ t.mem
    pub from_eq : s.from ≡ t.from
    pub taken_eq : s.taken ≡ t.taken

  abbrev pub FlowAgree : Flow w → Flow w → Type 0
  FlowAgree (fall s) (fall t) = Agree s t
  FlowAgree (goto a s) (goto b t) = (a ≡ b) × Agree s t
  FlowAgree (return x s) (return y t) = (x ≡ y) × Agree s t
  FlowAgree _ _ = ⊥

  abbrev pub Follows : Flow w → Option (Flow w) → Type 0
  Follows fl none = ⊥
  Follows fl (some fl') = FlowAgree fl fl'

  map_env :
      (as' : List ℤ) (s t : State w)
      → Agree s t
      → All (λ a. 0 < u a) as'
      → map s.env as' ≡ map t.env as'
  map_env [] s t g h = refl
  map_env (a ∷ as') s t g h = cc (g.env_eq a h.0, map_env as' s t g h.1)

  Agree-write : (r : ℤ) (x : ℕ) (s t : State w) → Agree s t → Agree (write w r x s) (write w r x t)
  Agree-write r x s t g = record {
    env_eq = λ a h. ground (arith, g.env_eq a h);
    mem_eq = g.mem_eq;
    from_eq = g.from_eq;
    taken_eq = g.taken_eq;
  }

  Agree-drop : (r : ℤ) (x : ℕ) (s t : State w) → u r ≡ 0 → Agree s t → Agree (write w r x s) t
  Agree-drop r x s t z g = record {
    env_eq = λ a h. ground (arith, g.env_eq a h, ==_ℤ_iff r a);
    mem_eq = g.mem_eq;
    from_eq = g.from_eq;
    taken_eq = g.taken_eq;
  }

  store-Agree :
      (o : Option ℕ) (r : ℤ) (s t : State w) (fl : Flow w)
      → Agree s t
      → store_result w r s o ≡ some fl
      → Follows fl (store_result w r t o)
  store-Agree none r s t fl g e = cc
  store-Agree (some x) r s t fl g e =
      subst (λ z. FlowAgree z (fall (write w r x t))) (some-injective _ _ e) (Agree-write r x s t g)

  perform-Agree :
      (o o' : Option (ℕ × w.Memory)) (r : ℤ) (s t : State w) (fl : Flow w)
      → o ≡ o'
      → Agree s t
      → perform w r s o ≡ some fl
      → Follows fl (perform w r t o')
  perform-Agree none o' r s t fl p g e = cc
  perform-Agree (some (x, m)) o' r s t fl p g e = rw (← p) (
      subst (λ z. FlowAgree z (fall (write w r x (record t { mem = m })))) (some-injective _ _ e)
        (Agree-write r x (record s { mem = m }) (record t { mem = m })
          (record {
            env_eq = g.env_eq;
            mem_eq = refl;
            from_eq = g.from_eq;
            taken_eq = g.taken_eq;
          })))

  jump-Agree :
      (as' : List ℤ) (s t : State w) (fl : Flow w)
      → Agree s t
      → jump w as' s ≡ some fl
      → Follows fl (jump w as' t)
  jump-Agree [] s t fl g e = cc
  jump-Agree (a ∷ []) s t fl g e =
      subst (λ z. FlowAgree z (goto a t)) (some-injective _ _ e) (refl, g)
  jump-Agree (a ∷ b ∷ r) s t fl g e = cc

  branch-Agree :
      (as' : List ℤ) (s t : State w) (fl : Flow w)
      → Agree s t
      → All (λ a. 0 < u a) as'
      → branch w as' s ≡ some fl
      → Follows fl (branch w as' t)
  branch-Agree (c ∷ x ∷ y ∷ []) s t fl g h e =
      subst (λ z. FlowAgree z (goto (if t.env c == 0 then y else x) t)) (some-injective _ _ e)
        (ap (λ v. if v == 0 then y else x) (g.env_eq c h.0), g)
  branch-Agree [] s t fl g h e = cc
  branch-Agree (c ∷ []) s t fl g h e = cc
  branch-Agree (c ∷ x ∷ []) s t fl g h e = cc
  branch-Agree (c ∷ x ∷ y ∷ z ∷ r) s t fl g h e = cc

  leave-Agree :
      (as' : List ℤ) (s t : State w) (fl : Flow w)
      → Agree s t
      → All (λ a. 0 < u a) as'
      → leave w as' s ≡ some fl
      → Follows fl (leave w as' t)
  leave-Agree [] s t fl g h e = cc
  leave-Agree (a ∷ []) s t fl g h e =
      subst (λ z. FlowAgree z (return (t.env a) t)) (some-injective _ _ e) (g.env_eq a h.0, g)
  leave-Agree (a ∷ b ∷ r) s t fl g h e = cc

  pub step_class-Agree :
      (c : Class) (r : ℤ) (v : Value) (s t : State w) (fl : Flow w)
      → Agree s t
      → All (λ a. 0 < u a) v.args
      → step_class w c r v s ≡ some fl
      → Follows fl (step_class w c r v t)
  step_class-Agree Class.constant r v s t fl g h e = store-Agree (some v.imm) r s t fl g e
  step_class-Agree Class.two_words r v s t fl g h e =
      rw (← map_env v.args s t g h)
        (store-Agree (on_two w (map s.env v.args) (binary v.op)) r s t fl g e)
  step_class-Agree Class.one_word r v s t fl g h e =
      rw (← map_env v.args s t g h)
        (store-Agree (on_one w (map s.env v.args) (unary v.op)) r s t fl g e)
  step_class-Agree Class.two_floats r v s t fl g h e = rw (← map_env v.args s t g h) (
      store-Agree (on_two w (map s.env v.args) (λ a b. some (float_binary w v.op a b))) r s t fl g
        e)
  step_class-Agree Class.acting r v s t fl g h e =
      perform-Agree (w.act v.op v.sym (map s.env v.args) s.mem) _ r s t fl
        (cc (map_env v.args s t g h, g.mem_eq)) g e
  step_class-Agree Class.reading r v s t fl g h e =
      let same : w.read s.from v.op v.sym v.args (map s.env v.args) s.mem
          ≡ w.read t.from v.op v.sym v.args (map t.env v.args) t.mem =
        cc (map_env v.args s t g h, g.mem_eq, g.from_eq) in
      rw (← same)
        (store-Agree (some (w.read s.from v.op v.sym v.args (map s.env v.args) s.mem)) r s t fl g e)
  step_class-Agree Class.taking r v s t fl g h e = rw (← g.taken_eq) (
      store-Agree (some (w.argument s.taken)) r (record s { taken = suc s.taken })
        (record t { taken = suc s.taken }) fl
        (record { env_eq = g.env_eq; mem_eq = g.mem_eq; from_eq = g.from_eq; taken_eq = refl }) e)
  step_class-Agree Class.returning r v s t fl g h e = leave-Agree v.args s t fl g h e
  step_class-Agree Class.jumping r v s t fl g h e = jump-Agree v.args s t fl g e
  step_class-Agree Class.branching r v s t fl g h e = branch-Agree v.args s t fl g h e

  abbrev pub is_silent : Class → Bool
  is_silent Class.acting = false
  is_silent Class.taking = false
  is_silent Class.returning = false
  is_silent Class.jumping = false
  is_silent Class.branching = false
  is_silent _ = true

  drop-Agree :
      (o : Option ℕ) (r : ℤ) (s t : State w) (fl : Flow w)
      → u r ≡ 0
      → Agree s t
      → store_result w r s o ≡ some fl
      → FlowAgree fl (fall t)
  drop-Agree none r s t fl z g e = cc
  drop-Agree (some x) r s t fl z g e =
      subst (λ y. FlowAgree y (fall t)) (some-injective _ _ e) (Agree-drop r x s t z g)

  -- An instruction without an effect only writes its result.
  pub step_class_silent :
      (c : Class) (r : ℤ) (v : Value) (s t : State w) (fl : Flow w)
      → is_silent c ≡ true
      → u r ≡ 0
      → Agree s t
      → step_class w c r v s ≡ some fl
      → FlowAgree fl (fall t)
  step_class_silent Class.constant r v s t fl q z g e = drop-Agree (some v.imm) r s t fl z g e
  step_class_silent Class.two_words r v s t fl q z g e = drop-Agree _ r s t fl z g e
  step_class_silent Class.one_word r v s t fl q z g e = drop-Agree _ r s t fl z g e
  step_class_silent Class.two_floats r v s t fl q z g e = drop-Agree _ r s t fl z g e
  step_class_silent Class.reading r v s t fl q z g e =
      drop-Agree (some (w.read s.from v.op v.sym v.args (map s.env v.args) s.mem)) r s t fl z g e
  step_class_silent _ r v s t fl q z g e = cc
