-- ===== src/Ir/Phi/Lowered.antt =====
-- internal/ir/phi.go, PhiEliminate: the blocks are left without phis.
use ccomp.Base.{
  ℕ, zero, suc, ◌+◌, ◌<◌, ◌≤◌, ◌≡◌, refl, sym, subst, ap, ◌∙◌, ◌⊎◌, inl, inr, Bool, true, false,
  ◌||◌, List, [], ◌∷◌, some, Bool-cases, get_elem?, get_elem?-lt, if◌then◌else◌, arith, length,
  ◌==◌, ==_iff,
}
use ccomp.Ir.{Instr, BasicBlock, Function}
use ccomp.Ir.Phi.{
  instrs_of, preds_of, lower_preds, phis_of, drop_instrs, is_empty, lower_block, lower_blocks,
  phi_eliminate,
}
use ccomp.Ir.Phi.Gone.{num_phis, drop-num_phis, get_elem?-update, Kept, Holds}
use ccomp.Ir.Phi.Edges.{lower_preds-Keeps}

List-cases : {A : Type 0} (xs : List A) → (xs ≡ []) ⊎ ((x : A) × ((ys : List A) × (xs ≡ x ∷ ys)))
List-cases [] = inl refl
List-cases (x ∷ xs) = inr (x, (xs, refl))

-- What the turn of block `b` makes of block `k`.
record Turned (own : Bool) (x y : BasicBlock) : Type 0 where
  preds_stay : is_empty x.preds ≡ false → is_empty y.preds ≡ false
  phis_gone : own ≡ true → is_empty x.preds ≡ false → num_phis y.instrs ≡ 0
  none_new : num_phis x.instrs ≡ 0 → num_phis y.instrs ≡ 0

no_phis : (is : List Instr) → is_empty (phis_of is) ≡ true → num_phis is ≡ 0
unfolding num_phis
no_phis is h = elim (List-cases (phis_of is)) [
  | inl e ↦ rw e refl
  | inr (i, (js, e)) ↦ cc (rw e at h)
]

skipped :
    (own : Bool) (x : BasicBlock)
    → (own ≡ true → (is_empty (phis_of x.instrs) || is_empty x.preds) ≡ true)
    → Turned own x x
skipped own x h = record {
  preds_stay = λ p. p;
  phis_gone = λ o p. no_phis x.instrs (ground (arith, h o, p));
  none_new = λ n. n;
}

dropped_own :
    (x y : BasicBlock)
    → Kept x y
    → Turned true x (record y { instrs = drop_instrs (num_phis x.instrs) y.instrs })
dropped_own x y k =
    let gone = drop-num_phis y.instrs (num_phis x.instrs) k.same_phis in
    record { preds_stay = k.has_preds; phis_gone = λ _ _. gone; none_new = λ _. gone }

dropped_other : (x y : BasicBlock) → Kept x y → Turned false x y
dropped_other x y k = record {
  preds_stay = k.has_preds;
  phis_gone = λ o _. cc o;
  none_new = λ n. k.same_phis ∙ n;
}

turned :
    (own : Bool) (m : ℕ) (x y : BasicBlock)
    → (own ≡ true → num_phis x.instrs ≡ m)
    → Kept x y
    → Turned own x (if own then record y { instrs = drop_instrs m y.instrs } else y)
turned true m x y h k =
    subst (λ d. Turned true x (record y { instrs = drop_instrs d y.instrs })) (h refl)
      (dropped_own x y k)
turned false m x y h k = dropped_other x y k

-- The block whose turn it is.
own_block :
    (b k : ℕ) (bs : List BasicBlock) (x : BasicBlock)
    → get_elem? bs k ≡ some x
    → (k == b) ≡ true
    → some x ≡ get_elem? bs b
own_block b k bs x e o = sym e ∙ ap (get_elem? bs) ((==_iff k b).0 o)

lower_block-Turned :
    (b : ℕ) (bs : List BasicBlock) (k : ℕ) (x : BasicBlock)
    → get_elem? bs k ≡ some x
    → Holds (Turned (k == b) x) (lower_block b bs) k
unfolding lower_block num_phis
lower_block-Turned b bs k x e =
    let phis = phis_of (instrs_of (get_elem? bs b)) in
    let preds = preds_of (get_elem? bs b) in
    let own = own_block b k bs x e in
    elim (Bool-cases (is_empty phis || is_empty preds)) [
      | inl t ↦ rw t (record {
        found = x;
        there = e;
        holds =
            skipped (k == b) x (λ o.
              ap (λ z. is_empty (phis_of (instrs_of z)) || is_empty (preds_of z)) (own o) ∙ t);
      })
      | inr f ↦
          let m = length phis in
          let g = λ (z : BasicBlock). record z { instrs = drop_instrs m z.instrs } in
          let y = lower_preds-Keeps b phis 0 preds bs k x e in
          rw f (record {
            found = if k == b then g y.found else y.found;
            there = get_elem?-update g b (lower_preds b phis 0 preds bs) k y.found y.there;
            holds =
                turned (k == b) m x y.found (λ o. ap (λ z. num_phis (instrs_of z)) (own o)) y.holds;
          })
    ]

-- A block without phis that has a predecessor.
abbrev pub IsLowered : BasicBlock → Type 0
IsLowered y = (is_empty y.preds ≡ false) × (num_phis y.instrs ≡ 0)

stays-IsLowered :
    (n b : ℕ) (bs : List BasicBlock) (k : ℕ) (x : BasicBlock)
    → get_elem? bs k ≡ some x
    → IsLowered x
    → Holds IsLowered (lower_blocks n b bs) k
unfolding lower_blocks
stays-IsLowered zero b bs k x e h = record { found = x; there = e; holds = h }
stays-IsLowered (suc n) b bs k x e h =
    let y = lower_block-Turned b bs k x e in
    stays-IsLowered n (b + 1) (lower_block b bs) k y.found y.there
      (y.holds.preds_stay h.0, y.holds.none_new h.1)

lower_blocks-IsLowered :
    (n b : ℕ) (bs : List BasicBlock) (k : ℕ) (x : BasicBlock)
    → get_elem? bs k ≡ some x
    → is_empty x.preds ≡ false
    → b ≤ k
    → k < b + n
    → Holds IsLowered (lower_blocks n b bs) k
unfolding lower_blocks
lower_blocks-IsLowered zero b bs k x e h l u = absurd (omega (arith, l, u))
lower_blocks-IsLowered (suc n) b bs k x e h l u =
    let y = lower_block-Turned b bs k x e in
    let p = y.holds.preds_stay h in
    elim (Bool-cases (k == b)) [
      | inl t ↦
          stays-IsLowered n (b + 1) (lower_block b bs) k y.found y.there (p, y.holds.phis_gone t h)
      | inr f ↦
          lower_blocks-IsLowered n (b + 1) (lower_block b bs) k y.found y.there p
            (ground (arith, l, f)) (omega (arith, u))
    ]

-- A block that has a predecessor has one after the phis are eliminated, and starts with no phi.
pub phi_eliminate-IsLowered :
    (f : Function) (k : ℕ) (x : BasicBlock)
    → get_elem? f.blocks k ≡ some x
    → is_empty x.preds ≡ false
    → Holds IsLowered (phi_eliminate f).blocks k
unfolding phi_eliminate
phi_eliminate-IsLowered f k x e h =
    lower_blocks-IsLowered (length f.blocks) 0 f.blocks k x e h (omega arith)
      (omega (arith, get_elem?-lt f.blocks k x e))
