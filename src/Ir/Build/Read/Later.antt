-- ===== src/Ir/Build/Read/Later.antt =====
-- internal/ir/ir.go, readVar: what a read leaves as it is.
use ccomp.Base.{
  ℕ, zero, suc, ◌≡◌, ◌≢◌, refl, ◌∙◌, ap, Bool, true, false, List, [], ◌∷◌, Option, none, some, ◌==◌,
  ◌&&◌, if◌then◌else◌, length, get_elem?,
}
use ccomp.Base.Int.{ℤ}
use ccomp.Base.Text.{Text, text_eq}
use ccomp.Ir.{BasicBlock}
use ccomp.Ir.Phi.{update, preds_of, instrs_of}
use ccomp.Ir.Build.{Ctx, with_blocks, write_var}
use ccomp.Ir.Build.Read.{
  Found, entry_of, is_sealed, new_phi, set_args, has_phi, read_all, put_args, add_phi_operands,
  or_exhausted, read_by_phi, read_preds, or_read, read_var_fuel,
}

length-update :
    (g : BasicBlock → BasicBlock) (n : ℕ) (bs : List BasicBlock)
    → length (update g n bs) ≡ length bs
length-update g n [] = refl
length-update g zero (b ∷ bs) = refl
length-update g (suc n) (b ∷ bs) = ap suc (length-update g n bs)

preds-update :
    (g : BasicBlock → BasicBlock)
    → ((b : BasicBlock) → (g b).preds ≡ b.preds)
    → (n : ℕ) (bs : List BasicBlock) (k : ℕ)
    → preds_of (get_elem? (update g n bs) k) ≡ preds_of (get_elem? bs k)
preds-update g h n [] k = refl
preds-update g h zero (b ∷ bs) zero = h b
preds-update g h zero (b ∷ bs) (suc k) = refl
preds-update g h (suc n) (b ∷ bs) zero = refl
preds-update g h (suc n) (b ∷ bs) (suc k) = preds-update g h n bs k

-- The blocks and their predecessors are the same, and the variable still has its entries.
pub record Later (name : Text) (c d : Ctx) : Type 0 where
  pub size : length d.f.blocks ≡ length c.f.blocks
  pub preds : (b : ℕ) → preds_of (get_elem? d.f.blocks b) ≡ preds_of (get_elem? c.f.blocks b)
  pub entries : (b : ℕ) → entry_of b name c.cur_def ≢ none → entry_of b name d.cur_def ≢ none

-- A way to read that leaves things so.
abbrev pub Steady : Text → (ℕ → Ctx → Found × Ctx) → Type 0
Steady name read = (p : ℕ) (c : Ctx) → Later name c (read p c).1

abbrev Later? : Text → Ctx → Option Ctx → Type 0
Later? name c none = Unit {0}
Later? name c (some d) = Later name c d

module _ {name : Text} where
  pub Later-refl : (c : Ctx) → Later name c c
  Later-refl c = record { size = refl; preds = λ b. refl; entries = λ b h. h }

  pub Later-trans : {c d e : Ctx} → Later name c d → Later name d e → Later name c e
  Later-trans l k = record {
    size = k.size ∙ l.size;
    preds = λ b. k.preds b ∙ l.preds b;
    entries = λ b h. k.entries b (l.entries b h);
  }

  -- A change of one block that keeps its predecessors.
  changed :
      (g : BasicBlock → BasicBlock) (n : ℕ) (c : Ctx)
      → ((b : BasicBlock) → (g b).preds ≡ b.preds)
      → Later name c (with_blocks (update g n) c)
  changed g n c h = record {
    size = length-update g n c.f.blocks;
    preds = preds-update g h n c.f.blocks;
    entries = λ b k. k;
  }

  pub write_var-Later : (blk id : ℕ) (c : Ctx) → Later name c (write_var name blk id c)
  unfolding write_var entry_of
  write_var-Later blk id c = record {
    size = refl;
    preds = λ b. refl;
    entries = λ b h. if-ne (blk == b && text_eq name name) h;
  }
    where
      if-ne : {x : Option ℕ} (t : Bool) → x ≢ none → (if t then some id else x) ≢ none
      if-ne true h = cc
      if-ne false h = h

  pub new_phi-Later : (blk : ℕ) (c : Ctx) → Later name c (new_phi blk c).1
  unfolding new_phi
  new_phi-Later blk c = record {
    size = length-update _ blk c.f.blocks;
    preds = preds-update _ (λ b. refl) blk c.f.blocks;
    entries = λ b h. h;
  }

  pub read_all-Later :
      (read : ℕ → Ctx → Found × Ctx)
      → Steady name read
      → (ps : List ℕ) (c : Ctx) → Later name c (read_all read ps c).1
  unfolding read_all
  read_all-Later read s [] c = Later-refl c
  read_all-Later read s (p ∷ ps) c = Later-trans (s p c) (read_all-Later read s ps (read p c).1)

  put_args-Later :
      (blk phi : ℕ) (c : Ctx) (r : Option (List ℤ) × Ctx)
      → Later name c r.1
      → Later? name c (put_args blk phi r)
  put_args-Later blk phi c (none, d) l = tt
  put_args-Later blk phi c (some args, d) l =
      Later-trans l
        (changed (λ b. record b { instrs = set_args phi args b.instrs }) blk d (λ b. refl))

  add_phi_operands-Later :
      (read : ℕ → Ctx → Found × Ctx)
      → Steady name read
      → (blk phi : ℕ) (c : Ctx) → Later? name c (add_phi_operands read blk phi c)
  unfolding add_phi_operands
  add_phi_operands-Later read s blk phi c =
      either (has_phi phi (instrs_of (get_elem? c.f.blocks blk)))
    where
      either :
          (t : Bool)
          → Later? name c (
              if t
              then put_args blk phi (read_all read (preds_of (get_elem? c.f.blocks blk)) c)
              else some c)
      either true =
          let ps = preds_of (get_elem? c.f.blocks blk) in
          put_args-Later blk phi c (read_all read ps c) (read_all-Later read s ps c)
      either false = Later-refl c

  or_exhausted-Later :
      (phi : ℕ) (b c : Ctx) (r : Option Ctx)
      → Later name b c
      → Later? name c r
      → Later name b (or_exhausted phi c r).1
  or_exhausted-Later phi b c none l k = l
  or_exhausted-Later phi b c (some d) l k = Later-trans l k

  read_preds-Later :
      (read : ℕ → Ctx → Found × Ctx)
      → Steady name read
      → (blk : ℕ) (sealed : Bool) (ps : List ℕ) (c : Ctx)
      → Later name c (read_preds read name blk sealed ps c).1
  unfolding read_preds
  read_preds-Later read s blk sealed [] c = Later-refl c
  read_preds-Later read s blk sealed (p ∷ []) c = s p c
  read_preds-Later read s blk sealed (p ∷ q ∷ ps) c =
      let (phi, c1) = new_phi blk c in
      let c2 = write_var name blk phi c1 in
      let l : Later name c c2 = Later-trans (new_phi-Later blk c) (write_var-Later blk phi c1) in
      either sealed l
    where
      either :
          (t : Bool)
          → Later name c (write_var name blk (new_phi blk c).0 (new_phi blk c).1)
          → Later name c (read_by_phi read name blk t c).1
      either true l =
          let phi = (new_phi blk c).0 in
          let d = write_var name blk phi (new_phi blk c).1 in
          or_exhausted-Later phi c d (add_phi_operands read blk phi d) l
            (add_phi_operands-Later read s blk phi d)
      either false l = Later-trans l (record { size = refl; preds = λ b. refl; entries = λ b h. h })

  or_read-Later :
      (c : Ctx) (v : Option ℕ) (r : Found × Ctx) → Later name c r.1 → Later name c (or_read c v r).1
  or_read-Later c none r l = l
  or_read-Later c (some v) r l = Later-refl c

  pub read_var_fuel-Later : (n : ℕ) → Steady name (read_var_fuel n name)
  unfolding read_var_fuel
  read_var_fuel-Later zero b c = Later-refl c
  read_var_fuel-Later (suc n) b c = or_read-Later c (entry_of b name c.cur_def) _ (
      read_preds-Later (read_var_fuel n name) (read_var_fuel-Later n) b
        (is_sealed (get_elem? c.f.blocks b)) (preds_of (get_elem? c.f.blocks b)) c)
