-- ===== src/Ir/Phi/Copies.antt =====
-- internal/ir/phi.go: what the copies do, one after another, and where they are put.
use ccomp.Base.{
  ℕ, ◌≡◌, refl, ◌∙◌, inl, inr, false, List, [], ◌∷◌, Option, none, some, All, Option-cases,
  get_elem?, arith,
}
use ccomp.Base.Int.{ℤ, ==_ℤ, ==_ℤ_iff}
use ccomp.Ir.{Instr}
use ccomp.Ir.Meaning.{World, State, fall, step, exec, write, unary}
use ccomp.Ir.Phi.{copies, copy_to}

abbrev pub Avoids : ℤ → Option ℤ → Type 0
Avoids dst none = Unit
Avoids dst (some src) = ==_ℤ dst src ≡ false

-- No later phi reads or sets what this one sets, for the predecessor number `pi`.
abbrev pub ReadsNot : ℕ → ℤ → Instr → Type 0
ReadsNot pi dst phi = (==_ℤ dst phi.res ≡ false) × Avoids dst (get_elem? phi.val.args pi)

-- The phis may be carried out in their order.
abbrev pub InOrder : ℕ → List Instr → Type 0
InOrder pi [] = Unit
InOrder pi (phi ∷ phis) = All (ReadsNot pi phi.res) phis × InOrder pi phis

module _ (w : World) where
  copy_step :
      (dst src : ℤ) (s : State w)
      → step w (copy_to dst src) s ≡ some (fall (write w dst (s.env src) s))
  unfolding step unary
  copy_step dst src s = refl

  write_other :
      (r id : ℤ) (v : ℕ) (s : State w) → ==_ℤ r id ≡ false → (write w r v s).env id ≡ s.env id
  write_other r id v s h = rw h refl

  write_same : (r : ℤ) (v : ℕ) (s : State w) → (write w r v s).env r ≡ v
  write_same r v s = rw ((==_ℤ_iff r r).1 refl) refl

  -- The state after the copies.
  abbrev pub apply : ℤ → Option ℤ → State w → State w
  apply r none s = s
  apply r (some src) s = write w r (s.env src) s

  abbrev pub after : ℕ → List Instr → State w → State w
  after pi [] s = s
  after pi (phi ∷ phis) s = after pi phis (apply phi.res (get_elem? phi.val.args pi) s)

  pub exec-copies :
      (pi : ℕ) (phis : List Instr) (s : State w)
      → exec w (copies pi phis) s ≡ some (fall (after pi phis s))
  unfolding copies exec
  exec-copies pi [] s = refl
  exec-copies pi (phi ∷ phis) s = elim (Option-cases (get_elem? phi.val.args pi)) [
    | inl e ↦ rw (e, copies) (exec-copies pi phis s)
    | inr (src, e) ↦
        rw (e, copies, copy_step phi.res src s)
          (exec-copies pi phis (write w phi.res (s.env src) s))
  ]

  -- The result of a phi gets the value that its argument had, if it has that argument.
  abbrev pub Gets : ℤ → State w → State w → Option ℤ → Type 0
  Gets r s s' none = Unit
  Gets r s s' (some src) = s'.env r ≡ s.env src

  abbrev pub HasValue : ℕ → State w → State w → Instr → Type 0
  HasValue pi s s' phi = Gets phi.res s s' (get_elem? phi.val.args pi)

  apply_other :
      (r id : ℤ) (o : Option ℤ) (s : State w) → ==_ℤ r id ≡ false → (apply r o s).env id ≡ s.env id
  apply_other r id none s h = refl
  apply_other r id (some src) s h = write_other r id (s.env src) s h

  pub after_other :
      (pi : ℕ) (phis : List Instr) (id : ℤ) (s : State w)
      → All (λ phi. ==_ℤ phi.res id ≡ false) phis
      → (after pi phis s).env id ≡ s.env id
  after_other pi [] id s h = refl
  after_other pi (phi ∷ phis) id s h =
      let o = get_elem? phi.val.args pi in
      after_other pi phis id (apply phi.res o s) h.1 ∙ apply_other phi.res id o s h.0

  flip : (x y : ℤ) → ==_ℤ x y ≡ false → ==_ℤ y x ≡ false
  flip x y h = ground (arith, h, ==_ℤ_iff x y, ==_ℤ_iff y x)

  not_set :
      (pi : ℕ) (dst : ℤ) (phis : List Instr)
      → All (ReadsNot pi dst) phis
      → All (λ phi. ==_ℤ phi.res dst ≡ false) phis
  not_set pi dst [] h = tt
  not_set pi dst (phi ∷ phis) h = (flip dst phi.res h.0.0, not_set pi dst phis h.1)

  -- What later phis read is not what this one sets.
  Gets-earlier :
      (r dst : ℤ) (o p : Option ℤ) (s s' : State w)
      → Avoids dst p
      → Gets r (apply dst o s) s' p
      → Gets r s s' p
  Gets-earlier r dst o none s s' h g = tt
  Gets-earlier r dst o (some src) s s' h g = g ∙ apply_other dst src o s h

  All-earlier :
      (pi : ℕ) (dst : ℤ) (o : Option ℤ) (s s' : State w) (phis : List Instr)
      → All (ReadsNot pi dst) phis
      → All (HasValue pi (apply dst o s) s') phis
      → All (HasValue pi s s') phis
  All-earlier pi dst o s s' [] h g = tt
  All-earlier pi dst o s s' (phi ∷ phis) h g = (
    Gets-earlier phi.res dst o (get_elem? phi.val.args pi) s s' h.0.1 g.0,
    All-earlier pi dst o s s' phis h.1 g.1,
  )

  Gets-own :
      (r : ℤ) (o : Option ℤ) (s s' : State w) → s'.env r ≡ (apply r o s).env r → Gets r s s' o
  Gets-own r none s s' e = tt
  Gets-own r (some src) s s' e = e ∙ write_same r (s.env src) s

  pub after-HasValue :
      (pi : ℕ) (phis : List Instr) (s : State w)
      → InOrder pi phis
      → All (HasValue pi s (after pi phis s)) phis
  after-HasValue pi [] s h = tt
  after-HasValue pi (phi ∷ phis) s h =
      let o = get_elem? phi.val.args pi in
      let s1 = apply phi.res o s in
      (
        Gets-own phi.res o s (after pi phis s1)
            (after_other pi phis phi.res s1 (not_set pi phi.res phis h.0)),
        All-earlier pi phi.res o s (after pi phis s1) phis h.0 (after-HasValue pi phis s1 h.1),
      )
