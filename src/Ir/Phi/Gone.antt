-- ===== src/Ir/Phi/Gone.antt =====
-- internal/ir/phi.go: how many phis a block starts with, before and after.
use ccomp.Base.{
  ℕ, zero, suc, ◌≡◌, refl, sym, ap, ◌∙◌, inl, inr, true, false, List, [], ◌∷◌, ◌++◌, some, All,
  Bool-cases, Option-cases, get_elem?, if◌then◌else◌, if_false, if_both, arith, length, ◌==◌,
}
use ccomp.Ir.{Op, op_eq, Instr, BasicBlock}
use ccomp.Ir.Phi.{
  update, new_block, add_edge, retarget_last, is_terminator, insert_before_terminator, copies,
  insert_all, phis_of, drop_instrs, is_empty,
}

-- How many phis the instructions start with.
unfoldable pub num_phis : List Instr → ℕ
num_phis is = length (phis_of is)

abbrev IsCopy : Instr → Type 0
IsCopy x = op_eq x.val.op Op.phi ≡ false

terminator_no_phi : (op : Op) → is_terminator op ≡ true → op_eq op Op.phi ≡ false
terminator_no_phi op h = ground (arith, h)

insert-num_phis :
    (x : Instr) (is : List Instr)
    → IsCopy x
    → num_phis (insert_before_terminator x is) ≡ num_phis is
unfolding insert_before_terminator num_phis phis_of
insert-num_phis x [] h = rw h refl
insert-num_phis x (i ∷ []) h = elim (Bool-cases (is_terminator i.val.op)) [
  | inl t ↦ rw (t, h, terminator_no_phi i.val.op t) refl
  | inr f ↦ elim (Bool-cases (op_eq i.val.op Op.phi)) [
    | inl p ↦ rw (f, p, h) refl
    | inr q ↦ rw (f, q) refl
  ]
]
insert-num_phis x (i ∷ j ∷ is) h = elim (Bool-cases (op_eq i.val.op Op.phi)) [
  | inl p ↦ rw p (ap suc (insert-num_phis x (j ∷ is) h))
  | inr q ↦ rw q refl
]

pub insert_all-num_phis :
    (xs is : List Instr) → All IsCopy xs → num_phis (insert_all xs is) ≡ num_phis is
unfolding insert_all
insert_all-num_phis [] is h = refl
insert_all-num_phis (x ∷ xs) is h =
    insert_all-num_phis xs (insert_before_terminator x is) h.1 ∙ insert-num_phis x is h.0

pub copies-IsCopy : (pi : ℕ) (phis : List Instr) → All IsCopy (copies pi phis)
unfolding copies
copies-IsCopy pi [] = tt
copies-IsCopy pi (phi ∷ phis) = elim (Option-cases (get_elem? phi.val.args pi)) [
  | inl e ↦ rw (e, copies) (copies-IsCopy pi phis)
  | inr (src, e) ↦ rw (e, copies) (refl, copies-IsCopy pi phis)
]

pub append-num_phis :
    (is : List Instr) (x : Instr) → IsCopy x → num_phis (is ++ x ∷ []) ≡ num_phis is
unfolding num_phis phis_of
append-num_phis [] x h = rw h refl
append-num_phis (i ∷ is) x h = elim (Bool-cases (op_eq i.val.op Op.phi)) [
  | inl p ↦ rw p (ap suc (append-num_phis is x h))
  | inr q ↦ rw q refl
]

pub retarget_last-num_phis :
    (s n : ℕ) (is : List Instr) → num_phis (retarget_last s n is) ≡ num_phis is
unfolding retarget_last num_phis phis_of
retarget_last-num_phis s n [] = refl
retarget_last-num_phis s n (i ∷ []) = elim (Bool-cases (op_eq i.val.op Op.phi)) [
  | inl p ↦ rw p refl
  | inr q ↦ rw q refl
]
retarget_last-num_phis s n (i ∷ j ∷ is) = elim (Bool-cases (op_eq i.val.op Op.phi)) [
  | inl p ↦ rw p (ap suc (retarget_last-num_phis s n (j ∷ is)))
  | inr q ↦ rw q refl
]

pub drop-num_phis : (is : List Instr) (k : ℕ) → num_phis is ≡ k → num_phis (drop_instrs k is) ≡ 0
unfolding num_phis phis_of
drop-num_phis [] zero e = refl
drop-num_phis [] (suc k) e = refl
drop-num_phis (i ∷ is) zero e = e
drop-num_phis (i ∷ is) (suc k) e = elim (Bool-cases (op_eq i.val.op Op.phi)) [
  | inl p ↦ drop-num_phis is k (omega (arith, rw p at e))
  | inr q ↦ absurd (omega (arith, rw q at e))
]

zero_eq : (k : ℕ) → (suc k == 0) ≡ false
zero_eq k = ground arith

eq_zero : (n : ℕ) → (0 == suc n) ≡ false
eq_zero n = ground arith

suc_eq : (k n : ℕ) → (k == n) ≡ (suc k == suc n)
suc_eq k n = ground arith

pub get_elem?-update :
    (g : BasicBlock → BasicBlock) (n : ℕ) (bs : List BasicBlock) (k : ℕ) (x : BasicBlock)
    → get_elem? bs k ≡ some x
    → get_elem? (update g n bs) k ≡ some (if k == n then g x else x)
get_elem?-update g n [] k x e = cc
get_elem?-update g zero (b ∷ bs) zero x e = cc
get_elem?-update g zero (b ∷ bs) (suc k) x e =
    e ∙ ap (λ (y : BasicBlock). some y) (sym (if_false _ (zero_eq k)))
get_elem?-update g (suc n) (b ∷ bs) zero x e =
    e ∙ ap (λ (y : BasicBlock). some y) (sym (if_false _ (eq_zero n)))
get_elem?-update g (suc n) (b ∷ bs) (suc k) x e =
    get_elem?-update g n bs k x e ∙ ap (λ c. some (if c then g x else x)) (suc_eq k n)

-- What becomes of a block while phis are taken out of others: it keeps its phis, and if it had a
-- predecessor it has one.
pub record Kept (x y : BasicBlock) : Type 0 where
  pub same_phis : num_phis y.instrs ≡ num_phis x.instrs
  pub has_preds : is_empty x.preds ≡ false → is_empty y.preds ≡ false

pub record Holds (P : BasicBlock → Type 0) (bs : List BasicBlock) (k : ℕ) : Type 0 where
  pub found : BasicBlock
  pub there : get_elem? bs k ≡ some found
  pub holds : P found

abbrev pub Keeps : List BasicBlock → List BasicBlock → Type 0
Keeps bs cs = (k : ℕ) (x : BasicBlock) → get_elem? bs k ≡ some x → Holds (Kept x) cs k

pub Kept-refl : (x : BasicBlock) → Kept x x
Kept-refl x = record { same_phis = refl; has_preds = λ h. h }

pub Keeps-trans : (as' bs cs : List BasicBlock) → Keeps as' bs → Keeps bs cs → Keeps as' cs
Keeps-trans as' bs cs p q k x e =
    let y = p k x e in
    let z = q k y.found y.there in
    record {
      found = z.found;
      there = z.there;
      holds = record {
        same_phis = z.holds.same_phis ∙ y.holds.same_phis;
        has_preds = λ h. z.holds.has_preds (y.holds.has_preds h);
      };
    }

pub update-Keeps :
    (g : BasicBlock → BasicBlock) (n : ℕ) (bs : List BasicBlock)
    → ((x : BasicBlock) → Kept x (g x))
    → Keeps bs (update g n bs)
update-Keeps g n bs h k x e = record {
  found = if k == n then g x else x;
  there = get_elem?-update g n bs k x e;
  holds = if_both (Kept x) (k == n) (g x) x (h x) (Kept-refl x);
}

get_elem?-front :
    (bs cs : List BasicBlock) (k : ℕ) (x : BasicBlock)
    → get_elem? bs k ≡ some x
    → get_elem? (bs ++ cs) k ≡ some x
get_elem?-front [] cs k x e = cc
get_elem?-front (b ∷ bs) cs zero x e = e
get_elem?-front (b ∷ bs) cs (suc k) x e = get_elem?-front bs cs k x e

pub new_block-Keeps : (name : List ℕ) (bs : List BasicBlock) → Keeps bs (new_block name bs)
unfolding new_block
new_block-Keeps name bs k x e = record {
  found = x;
  there = get_elem?-front bs _ k x e;
  holds = Kept-refl x;
}

pub append-nonempty : (ps : List ℕ) (p : ℕ) → is_empty (ps ++ p ∷ []) ≡ false
append-nonempty [] p = refl
append-nonempty (q ∷ ps) p = refl

pub add_edge-Keeps : (p s : ℕ) (bs : List BasicBlock) → Keeps bs (add_edge p s bs)
unfolding add_edge
add_edge-Keeps p s bs =
    Keeps-trans bs _ _
      (update-Keeps (λ b. record b { succs = b.succs ++ s ∷ [] }) p bs
        (λ x. record { same_phis = refl; has_preds = λ h. h }))
      (update-Keeps (λ b. record b { preds = b.preds ++ p ∷ [] }) s _
        (λ x. record { same_phis = refl; has_preds = λ h. append-nonempty x.preds p }))
