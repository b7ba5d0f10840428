-- ===== src/Ir/Build/Read/Enough.antt =====
-- internal/ir/ir.go, readVar: the recursion comes to an end.
use ccomp.Base.{
  ℕ, zero, suc, ◌+◌, ◌*◌, ◌≤◌, ◌<◌, ◌≡◌, ◌≢◌, refl, subst, sym, ◌∙◌, Bool, true, false, List, [],
  ◌∷◌, Option, none, some, ◌==◌, if◌then◌else◌, length, get_elem?, arith, Bool-cases, inl, inr,
  ==_iff,
}
use ccomp.Base.Int.{ℤ}
use ccomp.Base.Text.{Text, text_eq_iff}
use native.Mathlib.Nat.{suc-mul}
use ccomp.Ir.{BasicBlock}
use ccomp.Ir.Phi.{preds_of, instrs_of}
use ccomp.Ir.Build.{Ctx, write_var}
use ccomp.Ir.Build.Read.{
  Found, found, undefined, exhausted, entry_of, is_sealed, new_phi, has_phi, with_value, read_all,
  put_args, add_phi_operands, or_exhausted, read_by_phi, read_preds, or_read, read_var_fuel,
  read_fuel, read_var,
}
use ccomp.Ir.Build.Read.Later.{
  Later, Later-trans, write_var-Later, new_phi-Later, read_var_fuel-Later,
}

-- The weights of those of the first `n` blocks that have no entry for the variable.
abbrev lacks : ℕ → Option ℕ → ℕ
lacks w none = w
lacks w (some v) = 0

unfoldable missing : ℕ → Text → ℕ → Ctx → ℕ
missing w name zero c = 0
missing w name (suc n) c = lacks w (entry_of n name c.cur_def) + missing w name n c

missing-le : (w : ℕ) (name : Text) (n : ℕ) (c : Ctx) → missing w name n c ≤ n * w
unfolding missing
missing-le w name zero c = omega arith
missing-le w name (suc n) c = at (entry_of n name c.cur_def) (missing-le w name n c)
  where
    at : (v : Option ℕ) → missing w name n c ≤ n * w → lacks w v + missing w name n c ≤ suc n * w
    at none h = omega (arith, suc-mul n w, h)
    at (some v) h = omega (arith, suc-mul n w, h)

lacks_mono : (w : ℕ) (u v : Option ℕ) → (u ≢ none → v ≢ none) → lacks w v ≤ lacks w u
lacks_mono w none none h = omega arith
lacks_mono w none (some v) h = omega arith
lacks_mono w (some u) none h = elim (h (cc) refl) [ ]
lacks_mono w (some u) (some v) h = omega arith

missing-Later :
    (w : ℕ) (name : Text) (n : ℕ) {c d : Ctx}
    → Later name c d
    → missing w name n d ≤ missing w name n c
unfolding missing
missing-Later w name zero l = omega arith
missing-Later w name (suc n) {c} {d} l = omega (
  arith,
  missing-Later w name n l,
  lacks_mono w (entry_of n name c.cur_def) (entry_of n name d.cur_def) (l.entries n),
)

entry_of-write_var :
    (name : Text) (b id : ℕ) (c : Ctx) → entry_of b name (write_var name b id c).cur_def ≡ some id
unfolding entry_of write_var
entry_of-write_var name b id c = ground (arith, text_eq_iff name name)

missing_there :
    (w : ℕ) (name : Text) (n id : ℕ) (c : Ctx)
    → entry_of n name c.cur_def ≡ none
    → missing w name (suc n) (write_var name n id c) + w ≤ missing w name (suc n) c
unfolding missing
missing_there w name n id c e =
    rw (e, entry_of-write_var name n id c)
      (omega (arith, missing-Later w name n (write_var-Later {name = name} n id c)))

-- A block that gets its entry is no longer missing.
missing-write_var :
    (w : ℕ) (name : Text) (n b id : ℕ) (c : Ctx)
    → b < n
    → entry_of b name c.cur_def ≡ none
    → missing w name n (write_var name b id c) + w ≤ missing w name n c
unfolding missing
missing-write_var w name zero b id c h e = elim h [ ]
missing-write_var w name (suc n) b id c h e = elim (Bool-cases (b == n)) [
  | inl t ↦
      subst (λ n. missing w name (suc n) (write_var name b id c) + w ≤ missing w name (suc n) c)
        ((==_iff b n).0 t) (missing_there w name b id c e)
  | inr f ↦
      let k = missing-write_var w name n b id c (ground (arith, f, h, ==_iff b n)) e in
      let l = (write_var-Later {name = name} b id c).entries n in
      omega (
        arith,
        k,
        lacks_mono w (entry_of n name c.cur_def) (entry_of n name (write_var name b id c).cur_def)
            l,
      )
]

-- The blocks that have one predecessor are in an order, in which that comes before.
pub record Ranked (rank : ℕ → ℕ) (c : Ctx) : Type 0 where
  pub bound : (b : ℕ) → rank b ≤ length c.f.blocks
  pub below : (b p : ℕ) → preds_of (get_elem? c.f.blocks b) ≡ p ∷ [] → rank p < rank b

Ranked-Later :
    {name : Text} {rank : ℕ → ℕ} {c d : Ctx} → Later name c d → Ranked rank c → Ranked rank d
Ranked-Later {rank} l r = record {
  bound = λ b. subst (λ n. rank b ≤ n) (sym l.size) (r.bound b);
  below = λ b p e. r.below b p (sym (l.preds b) ∙ e);
}

-- Reads that do not run out of fuel where a condition holds that they keep.
module _ (I : Ctx → Type 0) (read : ℕ → Ctx → Found × Ctx)
    (keep : (p : ℕ) (c : Ctx) → I c → I (read p c).1)
    (ends : (p : ℕ) (c : Ctx) → I c → (read p c).0 ≢ exhausted) where
  read_all-some : (ps : List ℕ) (c : Ctx) → I c → (read_all read ps c).0 ≢ none
  unfolding read_all
  read_all-some [] c i = cc
  read_all-some (p ∷ ps) c i =
      at (read p c).0 (read_all read ps (read p c).1).0 (ends p c i)
        (read_all-some ps (read p c).1 (keep p c i))
    where
      at : (v : Found) (vs : Option (List ℤ)) → v ≢ exhausted → vs ≢ none → with_value v vs ≢ none
      at (found v) (some vs) h k = cc
      at undefined (some vs) h k = cc
      at exhausted vs h k = elim (h refl) [ ]
      at v none h k = elim (k refl) [ ]

  put_args-some : (blk phi : ℕ) (r : Option (List ℤ) × Ctx) → r.0 ≢ none → put_args blk phi r ≢ none
  put_args-some blk phi (none, c) h = elim (h refl) [ ]
  put_args-some blk phi (some args, c) h = cc

  add_phi_operands-some : (blk phi : ℕ) (c : Ctx) → I c → add_phi_operands read blk phi c ≢ none
  unfolding add_phi_operands
  add_phi_operands-some blk phi c i = either (has_phi phi (instrs_of (get_elem? c.f.blocks blk)))
    where
      either :
          (t : Bool)
          → (if t
              then put_args blk phi (read_all read (preds_of (get_elem? c.f.blocks blk)) c)
              else some c)
            ≢ none
      either true =
          put_args-some blk phi _ (read_all-some (preds_of (get_elem? c.f.blocks blk)) c i)
      either false = cc

preds-length :
    (bs : List BasicBlock) (b p : ℕ) (ps : List ℕ)
    → preds_of (get_elem? bs b) ≡ p ∷ ps
    → b < length bs
preds-length [] b p ps e = cc
preds-length (x ∷ bs) zero p ps e = omega arith
preds-length (x ∷ bs) (suc b) p ps e = omega (arith, preds-length bs b p ps e)

module _ (name : Text) (rank : ℕ → ℕ) where
  -- The calls that may be nested below one to a block, where there are `size` blocks.
  abbrev calls : ℕ → ℕ → Ctx → ℕ
  calls size b c = missing (suc size) name size c + rank b

  -- All that a read from any block needs.
  record CanRead (fuel size : ℕ) (c : Ctx) : Type 0 where
    ranked : Ranked rank c
    same : length c.f.blocks ≡ size
    calls : missing (suc size) name size c + size < fuel

  CanRead-Later :
      {fuel size : ℕ} {c d : Ctx} → Later name c d → CanRead fuel size c → CanRead fuel size d
  CanRead-Later {size} l h = record {
    ranked = Ranked-Later l h.ranked;
    same = l.size ∙ h.same;
    calls = omega (arith, missing-Later (suc size) name size l, h.calls);
  }

  or_exhausted-ends :
      (phi : ℕ) (c : Ctx) (r : Option Ctx) → r ≢ none → (or_exhausted phi c r).0 ≢ exhausted
  or_exhausted-ends phi c none h = elim (h refl) [ ]
  or_exhausted-ends phi c (some d) h = cc

  abbrev Ends : ℕ → Type 0
  Ends fuel =
      (size b : ℕ) (c : Ctx)
      → Ranked rank c
      → length c.f.blocks ≡ size
      → calls size b c < fuel
      → (read_var_fuel fuel name b c).0 ≢ exhausted

  read_by_phi-Ends :
      (fuel : ℕ)
      → Ends fuel
      → (sealed : Bool) (size b : ℕ) (c : Ctx) → Ranked rank c
      → length c.f.blocks ≡ size
      → b < size
      → entry_of b name c.cur_def ≡ none
      → calls size b c < suc fuel
      → (read_by_phi (read_var_fuel fuel name) name b sealed c).0 ≢ exhausted
  unfolding write_var new_phi
  read_by_phi-Ends fuel ih false size b c r e l n h = cc
  read_by_phi-Ends fuel ih true size b c r e l n h =
      let phi = (new_phi b c).0 in
      let c1 = (new_phi b c).1 in
      let c2 = write_var name b phi c1 in
      let k : Later name c c1 = new_phi-Later b c in
      let w : CanRead fuel size c2 = record {
        ranked = Ranked-Later (Later-trans k (write_var-Later {name = name} b phi c1)) r;
        same = k.size ∙ e;
        calls = omega (
          arith,
          h,
          missing-Later (suc size) name size k,
          missing-write_var (suc size) name size b phi c1 l n,
        );
      } in
      or_exhausted-ends phi c2 _ (
        add_phi_operands-some (CanRead fuel size) (read_var_fuel fuel name)
          (λ p d i. CanRead-Later (read_var_fuel-Later fuel p d) i)
          (λ p d i. ih size p d i.ranked i.same (omega (arith, i.calls, i.ranked.bound p, i.same)))
          b phi c2 w)

  read_preds-Ends :
      (fuel : ℕ)
      → Ends fuel
      → (sealed : Bool) (ps : List ℕ) (size b : ℕ) (c : Ctx)
      → preds_of (get_elem? c.f.blocks b) ≡ ps
      → Ranked rank c
      → length c.f.blocks ≡ size
      → entry_of b name c.cur_def ≡ none
      → calls size b c < suc fuel
      → (read_preds (read_var_fuel fuel name) name b sealed ps c).0 ≢ exhausted
  unfolding read_preds
  read_preds-Ends fuel ih sealed [] size b c q r e n h = cc
  read_preds-Ends fuel ih sealed (p ∷ []) size b c q r e n h =
      ih size p c r e (omega (arith, h, r.below b p q))
  read_preds-Ends fuel ih sealed (p ∷ p' ∷ ps) size b c q r e n h =
      read_by_phi-Ends fuel ih sealed size b c r e
        (omega (arith, e, preds-length c.f.blocks b p (p' ∷ ps) q)) n h

  read_var_fuel-Ends : (fuel : ℕ) → Ends fuel
  unfolding read_var_fuel
  read_var_fuel-Ends zero size b c r e h = elim h [ ]
  read_var_fuel-Ends (suc fuel) size b c r e h =
      at (read_var_fuel-Ends fuel) (entry_of b name c.cur_def) refl
    where
      at :
          Ends fuel
          → (v : Option ℕ) → entry_of b name c.cur_def ≡ v
          → (or_read c v (
              read_preds
                (read_var_fuel fuel name)
                name
                b
                (is_sealed (get_elem? c.f.blocks b))
                (preds_of (get_elem? c.f.blocks b))
                c)).0
            ≢ exhausted
      at ih (some v) n = cc
      at ih none n =
          read_preds-Ends fuel ih (is_sealed (get_elem? c.f.blocks b))
            (preds_of (get_elem? c.f.blocks b)) size b c refl r e n h

-- A read of a variable comes to an end, with a value or an error, where no chain of blocks with one
-- predecessor each comes back to its start: where they have a rank that the predecessor is below.
pub read_var-ends :
    (rank : ℕ → ℕ) (name : Text) (b : ℕ) (c : Ctx)
    → ((b : ℕ) → rank b ≤ length c.f.blocks)
    → ((b p : ℕ) → preds_of (get_elem? c.f.blocks b) ≡ p ∷ [] → rank p < rank b)
    → (read_var name b c).0 ≢ exhausted
unfolding read_var
read_var-ends rank name b c bound below =
    let n = length c.f.blocks in
    read_var_fuel-Ends name rank (read_fuel c) n b c (record { bound = bound; below = below }) refl
      (omega (arith, missing-le (suc n) name n c, bound b, suc-mul n (suc n)))
