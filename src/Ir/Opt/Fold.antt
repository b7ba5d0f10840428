-- ===== src/Ir/Opt/Fold.antt =====
-- internal/ir/opt.go, constFoldFunc: folding keeps what a block computes.
use ccomp.Base.{
  ap, sym, ℕ, ◌≡◌, refl, ◌∙◌, false, ◌&&◌, List, [], ◌∷◌, ◌++◌, map, Option, none, some, All,
  Bool-cases, arith, inl, inr,
}
use ccomp.Base.Int.{ℤ, ==_ℤ, ==_ℤ_iff}
use ccomp.Base.Word
use mathlib.Core.Option.{some-injective}
use ccomp.Ir.{Op, op_eq, Value, Instr}
use ccomp.Ir.Meaning.{
  World, State, Flow, fall, write, store_result, float_binary, step, step_class, exec, binary,
  class_of, Class,
}
use ccomp.Ir.Ssa.{defines, is_jump, Ssa, Ssa-front, Ssa-back, op_eq→eq}
use ccomp.Ir.Meaning.Laws.{resume_fall, exec_env}
use ccomp.Ir.Opt.{
  find_of, find_two, fold_int, fold_float, replace, on_found, is_float_op, fold_instr,
}

find_of-append :
    (op : Op) (xs ys : List Instr) (id : ℤ)
    → defines ys id ≡ false
    → find_of op (xs ++ ys) id ≡ find_of op xs id
unfolding find_of defines
find_of-append op [] [] id h = refl
find_of-append op [] (y ∷ ys) id h = ground (arith, find_of-append op [] ys id)
find_of-append op (x ∷ xs) ys id h = ground (arith, find_of-append op xs ys id h)

-- The integer operations: what folding puts in their place is their value.
fold_int_value :
    (op : Op) (a c : ℕ) {x v : ℕ} → fold_int op a c ≡ some x → binary op a c ≡ some v → v ≡ x
unfolding fold_int binary Word.div_defined
fold_int_value op a c h h' = ground arith

pub constant_no_jump : (op : Op) → class_of op ≡ Class.constant → is_jump op ≡ false
constant_no_jump op h = ground arith

module _ (w : World) where
  step_class_const :
      (c : Class) (r : ℤ) (v : Value) (s s' : State w)
      → c ≡ Class.constant
      → step_class w c r v s ≡ some (fall s')
      → s'.env r ≡ v.imm
  step_class_const c r v s s' e h = ground (arith, ==_ℤ_iff r r)

  -- The id of a constant holds it when the block is past the constant.
  exec-find_of :
      (op : Op) (xs : List Instr) (id : ℤ) (k : ℕ) (s s' : State w)
      → class_of op ≡ Class.constant
      → Ssa xs
      → exec w xs s ≡ some (fall s')
      → find_of op xs id ≡ some k
      → s'.env id ≡ k
  unfolding exec step find_of
  exec-find_of op [] id k s s' c d h e = cc
  exec-find_of op (x ∷ xs) id k s s' c d h e =
      let (t, p, q) = resume_fall w (step w x s) xs s' h in
      let here = ==_ℤ x.res id && op_eq x.val.op op in
      elim (Bool-cases here) [
        | inl y ↦
            let r : x.res ≡ id = (==_ℤ_iff _ _).0 (ground arith) in
            let o : x.val.op ≡ op = op_eq→eq _ _ (ground arith) in
            let cl : class_of x.val.op ≡ Class.constant = rw o c in
            let value : t.env x.res ≡ x.val.imm = step_class_const _ x.res x.val s t cl p in
            let kept : s'.env x.res ≡ t.env x.res =
              exec_env w xs x.res t s' q (d.0 (constant_no_jump _ cl)) in
            let imm : x.val.imm ≡ k = ground arith in ap s'.env (sym r) ∙ kept ∙ value ∙ imm
        | inr n ↦ exec-find_of op xs id k t s' c d.2 q (rw (n) at e)
      ]

fold_int_class :
    (op : Op) (a c : ℕ) {k : ℕ} → fold_int op a c ≡ some k → class_of op ≡ Class.two_words
unfolding fold_int
fold_int_class op a c h = ground arith

find_two_lem :
    (op : Op) (b : List Instr) (args : List ℤ) (a c : ℕ)
    → find_two op b args ≡ some (a, c)
    → (x y : ℤ) × (args ≡ x ∷ y ∷ []) × (find_of op b x ≡ some a) × (find_of op b y ≡ some c)
unfolding find_two
find_two_lem op b [] a c h = cc
find_two_lem op b (x ∷ []) a c h = cc
find_two_lem op b (x ∷ y ∷ []) a c h = (x, y, refl, ground arith, ground arith)
find_two_lem op b (x ∷ y ∷ z ∷ r) a c h = cc

module _ (w : World) where
  store_value :
      (o : Option ℕ) (r : ℤ) (k : ℕ) (s : State w) (fl : Flow w)
      → ((v : ℕ) → o ≡ some v → v ≡ k)
      → store_result w r s o ≡ some fl
      → fl ≡ fall (write w r k s)
  store_value none r k s fl h e = cc
  store_value (some v) r k s fl h e =
      sym (some-injective _ _ e) ∙ ap {B = Flow w} (λ z. fall (write w r z s)) (h v refl)

  fold_int_step :
      (v : Value) (a c k : ℕ) (r : ℤ) (s : State w) (fl : Flow w)
      → fold_int v.op a c ≡ some k
      → map s.env v.args ≡ a ∷ c ∷ []
      → step_class w (class_of v.op) r v s ≡ some fl
      → fl ≡ fall (write w r k s)
  fold_int_step v a c k r s fl h m e =
      let cl = fold_int_class v.op a c h in
      store_value (binary v.op a c) r k s fl (λ x. fold_int_value v.op a c h) (rw (cl, m) at e)

  fold_float_value :
      (op : Op) (a c k : ℕ)
      → fold_float w.float op a c ≡ some k
      → (class_of op ≡ Class.two_floats) × (float_binary w op a c ≡ k)
  unfolding fold_float
  fold_float_value op a c k h = ground arith

  fold_float_step :
      (v : Value) (a c k : ℕ) (r : ℤ) (s : State w) (fl : Flow w)
      → fold_float w.float v.op a c ≡ some k
      → map s.env v.args ≡ a ∷ c ∷ []
      → step_class w (class_of v.op) r v s ≡ some fl
      → fl ≡ fall (write w r k s)
  fold_float_step v a c k r s fl h m e =
      let (cl, e') = fold_float_value v.op a c k h in
      store_value (some (float_binary w v.op a c)) r k s fl (λ x p. sym (some-injective _ _ p) ∙ e')
        (rw (cl, m) at e)

words_no_phi : (op : Op) → class_of op ≡ Class.two_words → op_eq op Op.phi ≡ false
words_no_phi op h = ground arith

floats_no_phi : (op : Op) → class_of op ≡ Class.two_floats → op_eq op Op.phi ≡ false
floats_no_phi op h = ground arith

on_found_lem :
    (g : ℕ → ℕ → Option ℕ) (t : Option (ℕ × ℕ)) (k : ℕ)
    → on_found g t ≡ some k
    → (a c : ℕ) × (t ≡ some (a, c)) × (g a c ≡ some k)
on_found_lem g none k h = cc
on_found_lem g (some (a, c)) k h = (a, c, refl, h)

module _ (w : World) where
  replace-step :
      (op : Op) (o : Option ℕ) (i : Instr) (s : State w) (fl : Flow w)
      → class_of op ≡ Class.constant
      → ((k : ℕ) → o ≡ some k → fl ≡ fall (write w i.res k s))
      → step w i s ≡ some fl
      → step w (replace op o i) s ≡ some fl
  unfolding step
  replace-step op none i s fl cl h e = e
  replace-step op (some k) i s fl cl h e = rw cl (ap some (sym (h k refl)))

  -- One rewrite keeps the instruction's step, where the constants that it found are the operands.
  pub fold_instr-step :
      (b : List Instr) (i : Instr) (s : State w) (fl : Flow w)
      → ((op : Op) (a c : ℕ)
          → op_eq i.val.op Op.phi ≡ false
          → class_of op ≡ Class.constant
          → find_two op b i.val.args ≡ some (a, c)
          → map s.env i.val.args ≡ a ∷ c ∷ [])
      → step w i s ≡ some fl
      → step w (fold_instr w.float b i) s ≡ some fl
  unfolding fold_instr step
  fold_instr-step b i s fl known e = elim (Bool-cases (is_float_op i.val.op)) [
    | inl y ↦ rw y (
        replace-step Op.fconst _ i s fl refl
          (λ k h.
            let (a, c, p, q) = on_found_lem _ _ k h in
            fold_float_step w i.val a c k i.res s fl q
              (known Op.fconst a c (floats_no_phi _ (fold_float_value w _ a c k q).0) refl p) e)
          e)
    | inr n ↦ rw n (
        replace-step Op.const _ i s fl refl
          (λ k h.
            let (a, c, p, q) = on_found_lem _ _ k h in
            fold_int_step w i.val a c k i.res s fl q
              (known Op.const a c (words_no_phi _ (fold_int_class _ a c q)) refl p) e)
          e)
  ]

  -- What is known of the operands after the instructions before.
  pub operands_known :
      (done is : List Instr) (i : Instr) (s0 s : State w)
      → Ssa (done ++ i ∷ is)
      → exec w done s0 ≡ some (fall s)
      → (op : Op) (a c : ℕ) → op_eq i.val.op Op.phi ≡ false
      → class_of op ≡ Class.constant
      → find_two op (done ++ i ∷ is) i.val.args ≡ some (a, c)
      → map s.env i.val.args ≡ a ∷ c ∷ []
  unfolding defines
  operands_known done is i s0 s d h op a c np cl e =
      let (x, y, p, q, r) = find_two_lem op _ i.val.args a c e in
      let fresh : All (λ z. defines (i ∷ is) z ≡ false) (x ∷ y ∷ []) =
        rw p at ((Ssa-back done (i ∷ is) d).1 np) in
      let known : (z : ℤ) (k : ℕ)
          → defines (i ∷ is) z ≡ false
          → find_of op (done ++ i ∷ is) z ≡ some k
          → s.env z ≡ k =
        λ z k f g.
          exec-find_of w op done z k s0 s cl (Ssa-front done (i ∷ is) d) h
            (sym (find_of-append op done (i ∷ is) z f) ∙ g) in
      rw p (cc (known x a fresh.0 q, known y c fresh.1.0 r))
