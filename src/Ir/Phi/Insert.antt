-- ===== src/Ir/Phi/Insert.antt =====
-- internal/ir/phi.go, insertBeforeTerminator: a block with the copies at its end.
use ccomp.Base.{ℕ, ◌≡◌, refl, sym, ap, ◌∙◌, false, true, List, [], ◌∷◌, ◌++◌, some, All, if_true}
use ccomp.Base.Int.{ℤ, ==_ℤ}
use ccomp.Ir.{Instr}
use ccomp.Ir.Meaning.{World, State, fall, exec}
use ccomp.Ir.Meaning.Laws.{resume, exec-append}
use ccomp.Ir.Phi.{copies, insert_before_terminator, insert_all, is_terminator}
use ccomp.Ir.Phi.Copies.{InOrder, HasValue, after, exec-copies, after-HasValue, after_other}

insert_before_terminator-append :
    (x t : Instr) (is : List Instr)
    → is_terminator t.val.op ≡ true
    → insert_before_terminator x (is ++ t ∷ []) ≡ is ++ x ∷ t ∷ []
unfolding insert_before_terminator
insert_before_terminator-append x t [] h = if_true _ h
insert_before_terminator-append x t (i ∷ []) h = ap (λ r. i ∷ r) (if_true _ h)
insert_before_terminator-append x t (i ∷ j ∷ is) h =
    ap (λ r. i ∷ r) (insert_before_terminator-append x t (j ∷ is) h)

append_one : (is : List Instr) (x : Instr) (ys : List Instr) → is ++ x ∷ ys ≡ (is ++ x ∷ []) ++ ys
append_one [] x ys = refl
append_one (i ∷ is) x ys = ap (λ r. i ∷ r) (append_one is x ys)

append_nil_instrs : (is : List Instr) → is ++ [] ≡ is
append_nil_instrs [] = refl
append_nil_instrs (i ∷ is) = ap (λ r. i ∷ r) (append_nil_instrs is)

insert_all-append :
    (xs : List Instr) (t : Instr) (is : List Instr)
    → is_terminator t.val.op ≡ true
    → insert_all xs (is ++ t ∷ []) ≡ (is ++ xs) ++ t ∷ []
unfolding insert_all
insert_all-append [] t is h = ap (λ r. r ++ t ∷ []) (sym (append_nil_instrs is))
insert_all-append (x ∷ xs) t is h =
    ap (insert_all xs) (insert_before_terminator-append x t is h ∙ append_one is x (t ∷ []))
    ∙ (insert_all-append xs t (is ++ x ∷ []) h ∙ ap (λ r. r ++ t ∷ []) (sym (append_one is x xs)))

module _ (w : World) where
  -- Take a block that ends with a jump or a return and runs up to there, and phis of which none
  -- sets what a later one reads or sets. The block with their copies for the predecessor number
  -- `pi` inserted does what its terminator does in a state in which each phi that has such an
  -- argument has the value that the argument had before the copies, and an id that is the result
  -- of no phi has its own.
  pub exec-insert_all :
      (pi : ℕ) (phis is : List Instr) (t : Instr) (s s1 : State w) (id : ℤ)
      → is_terminator t.val.op ≡ true
      → InOrder pi phis
      → exec w is s ≡ some (fall s1)
      → All (λ phi. ==_ℤ phi.res id ≡ false) phis
      → (s2 : State w) × (exec w (insert_all (copies pi phis) (is ++ t ∷ [])) s
          ≡ exec w (t ∷ []) s2)
        × All (HasValue w pi s1 s2) phis
        × (s2.env id ≡ s1.env id)
  exec-insert_all pi phis is t s s1 id h o e n =
      let cs = copies pi phis in
      let front : exec w (is ++ cs) s ≡ some (fall (after w pi phis s1)) =
        exec-append w is cs s ∙ (ap (resume w cs) e ∙ exec-copies w pi phis s1) in
      (
        after w pi phis s1,
        ap (λ r. exec w r s) (insert_all-append cs t is h)
            ∙ (exec-append w (is ++ cs) (t ∷ []) s ∙ ap (resume w (t ∷ [])) front),
        after-HasValue w pi phis s1 o,
        after_other w pi phis id s1 n,
      )
