-- ===== src/Ir/Phi/Edges.antt =====
-- internal/ir/phi.go: splitting an edge and putting copies on it keep the phis of a block, and that it
-- has a predecessor.
use ccomp.Base.{
  ℕ, ◌+◌, ◌≡◌, refl, ap, ◌∙◌, Bool, true, false, List, [], ◌∷◌, ◌++◌, if◌then◌else◌, if_both,
  length, ◌==◌,
}
use ccomp.Ir.{Instr, BasicBlock}
use ccomp.Ir.Phi.{
  update, add_edge, is_critical, without, retarget_last, split_critical_edge, copies, insert_all,
  jump_to, lower_pred, lower_preds, is_empty,
}
use ccomp.Ir.Phi.Gone.{
  num_phis, insert_all-num_phis, copies-IsCopy, append-num_phis, retarget_last-num_phis,
  get_elem?-update, Keeps, Kept-refl, Keeps-trans, update-Keeps, new_block-Keeps, append-nonempty,
  add_edge-Keeps,
}

abbrev with_preds : (List ℕ → List ℕ) → BasicBlock → BasicBlock
with_preds f b = record b { preds = f b.preds }

abbrev with_succs : (List ℕ → List ℕ) → BasicBlock → BasicBlock
with_succs f b = record b { succs = f b.succs }

abbrev Unmoved : BasicBlock → BasicBlock → Type 0
Unmoved x y = y.instrs ≡ x.instrs

pick-Unmoved :
    (c : Bool) (g : BasicBlock → BasicBlock) (x : BasicBlock)
    → Unmoved x (g x)
    → Unmoved x (if c then g x else x)
pick-Unmoved c g x h = if_both (Unmoved x) c (g x) x h refl

-- The edge to `s` is taken away and the one from `n` put in its place: `s` has a predecessor still.
rewire-Keeps :
    (p s n : ℕ) (bs : List BasicBlock)
    → Keeps bs (add_edge n s (update (λ b. record b { preds = without p b.preds }) s bs))
unfolding add_edge
rewire-Keeps p s n bs k x e =
    let g1 = with_preds (without p) in
    let g2 = with_succs (λ ss. ss ++ s ∷ []) in
    let g3 = with_preds (λ ps. ps ++ n ∷ []) in
    let y1 = if k == s then g1 x else x in
    let y2 = if k == n then g2 y1 else y1 in
    let e1 = get_elem?-update g1 s bs k x e in
    let e2 = get_elem?-update g2 n (update g1 s bs) k y1 e1 in
    record {
      found = if k == s then g3 y2 else y2;
      there = get_elem?-update g3 s (update g2 n (update g1 s bs)) k y2 e2;
      holds = record {
        same_phis = ap num_phis (
            pick-Unmoved (k == s) g3 y2 refl
            ∙ (pick-Unmoved (k == n) g2 y1 refl ∙ pick-Unmoved (k == s) g1 x refl));
        has_preds = λ h. rewired (k == s) (k == n) x h;
      };
    }
  where
    rewired :
        (c d : Bool) (z : BasicBlock)
        → is_empty z.preds ≡ false
        → (let z1 = if c then with_preds (without p) z else z in
            let z2 = if d then with_succs (λ ss. ss ++ s ∷ []) z1 else z1 in
            is_empty (if c then with_preds (λ ps. ps ++ n ∷ []) z2 else z2).preds ≡ false)
    rewired true true z h = append-nonempty (without p z.preds) n
    rewired true false z h = append-nonempty (without p z.preds) n
    rewired false true z h = h
    rewired false false z h = h

split_critical_edge-Keeps : (p s : ℕ) (bs : List BasicBlock) → Keeps bs (split_critical_edge p s bs)
unfolding split_critical_edge
split_critical_edge-Keeps p s bs =
    let n = length bs in
    Keeps-trans bs _ _ (new_block-Keeps _ bs) (
      Keeps-trans _ _ _
        (update-Keeps (λ b. record b { succs = without s b.succs }) p _
          (λ x. record { same_phis = refl; has_preds = λ h. h }))
        (Keeps-trans _ _ _ (add_edge-Keeps p n _) (
          Keeps-trans _ _ _ (rewire-Keeps p s n _) (
            update-Keeps (λ b. record b { instrs = retarget_last s n b.instrs }) p _
              (λ x. record {
                same_phis = retarget_last-num_phis s n x.instrs;
                has_preds = λ h. h;
              })))))

lower_pred-Keeps :
    (b : ℕ) (phis : List Instr) (pi p : ℕ) (bs : List BasicBlock)
    → Keeps bs (lower_pred b phis pi p bs)
unfolding lower_pred
lower_pred-Keeps b phis pi p bs =
    let cs = copies pi phis in
    if_both (Keeps bs) (is_critical p b bs) _ _
      (Keeps-trans bs _ _ (split_critical_edge-Keeps p b bs) (
        update-Keeps (λ x. record x { instrs = insert_all cs x.instrs ++ jump_to b ∷ [] })
          (length bs) _
          (λ x. record {
            same_phis =
                append-num_phis (insert_all cs x.instrs) (jump_to b) refl
                ∙ insert_all-num_phis cs x.instrs (copies-IsCopy pi phis);
            has_preds = λ h. h;
          })))
      (update-Keeps (λ x. record x { instrs = insert_all cs x.instrs }) p bs
        (λ x. record {
          same_phis = insert_all-num_phis cs x.instrs (copies-IsCopy pi phis);
          has_preds = λ h. h;
        }))

pub lower_preds-Keeps :
    (b : ℕ) (phis : List Instr) (pi : ℕ) (ps : List ℕ) (bs : List BasicBlock)
    → Keeps bs (lower_preds b phis pi ps bs)
unfolding lower_preds
lower_preds-Keeps b phis pi [] bs k x e = record { found = x; there = e; holds = Kept-refl x }
lower_preds-Keeps b phis pi (p ∷ ps) bs k x e =
    Keeps-trans bs _ _ (lower_pred-Keeps b phis pi p bs)
      (lower_preds-Keeps b phis (pi + 1) ps (lower_pred b phis pi p bs)) k x e
