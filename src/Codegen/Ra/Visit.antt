-- ===== src/Codegen/Ra/Visit.antt =====
-- internal/codegen/x86_64/ra.go: the intervals do not depend on the order in which `defAt` is visited.
use mathlib.Core.List.{Permᴰ}
use mathlib.Core.Path.{subst}
use ccomp.Base.{
  ℕ, ◌≡◌, refl, sym, ap, ◌∙◌, inl, inr, false, List, [], ◌∷◌, Option, none, some, All, leb, ◌==◌,
  if◌then◌else◌, arith, Bool-cases,
}
use ccomp.Base.Int.{ℤ}
use ccomp.Codegen.Ra.{LiveInterval, spans_call, interval_of, build_intervals, insert, sort}

-- The places of the definitions differ.
abbrev pub Distinct : List (ℤ × ℕ) → Type 0
Distinct [] = Unit {0}
Distinct (d ∷ ds) = All (λ e. (d.1 == e.1) ≡ false) ds × Distinct ds

All-perm {ℓ} : {xs ys : List (ℤ × ℕ)} (P : ℤ × ℕ → Type ℓ) → Permᴰ xs ys → All P xs → All P ys
All-perm P Permᴰ.nil h = tt
All-perm P (Permᴰ.cons e p) h = (subst P e h.0, All-perm P p h.1)
All-perm P (Permᴰ.swap e e') h = (subst P e' h.1.0, (subst P e h.0, h.1.1))
All-perm P (Permᴰ.trans p q) h = All-perm P q (All-perm P p h)

Distinct-perm : {xs ys : List (ℤ × ℕ)} → Permᴰ xs ys → Distinct xs → Distinct ys
Distinct-perm Permᴰ.nil h = tt
Distinct-perm (Permᴰ.cons {l₂ = l} e p) h =
    (subst (λ d. All (λ x. (d.1 == x.1) ≡ false) l) e (All-perm _ p h.0), Distinct-perm p h.1)
Distinct-perm (Permᴰ.swap {l = l} e e') h = (
  (
    ground (arith, h.0.0, ap (λ d. d.1) e, ap (λ d. d.1) e'),
    subst (λ d. All (λ x. (d.1 == x.1) ≡ false) l) e' h.1.0,
  ),
  (subst (λ d. All (λ x. (d.1 == x.1) ≡ false) l) e h.0.1, h.1.1),
)
Distinct-perm (Permᴰ.trans p q) h = Distinct-perm q (Distinct-perm p h)

insert_comm :
    (x y : LiveInterval) (xs : List LiveInterval)
    → (x.start == y.start) ≡ false
    → insert x (insert y xs) ≡ insert y (insert x xs)
unfolding insert
insert_comm x y [] h = ground (arith, h)
insert_comm x y (z ∷ xs) h = ground (arith, h, insert_comm x y xs h)

-- What the visit of a definition adds to the sorted intervals.
abbrev into : List ℕ → ℤ × ℕ → Option ℕ → List LiveInterval → List LiveInterval
into calls (id, def) none xs = xs
into calls (id, def) (some stop) xs =
    if leb stop def
    then xs
    else insert (record { id = id; start = def; stop = stop; spill = spans_call calls def stop }) xs

sort-interval_of :
    (calls : List ℕ) (d : ℤ × ℕ) (o : Option ℕ) (xs : List LiveInterval)
    → sort (interval_of calls d o xs) ≡ into calls d o (sort xs)
unfolding sort
sort-interval_of calls d none xs = refl
sort-interval_of calls d (some stop) xs = elim (Bool-cases (leb stop d.1)) [
  | inl t ↦ rw t refl
  | inr f ↦ rw f refl
]

into_comm :
    (calls : List ℕ) (d e : ℤ × ℕ) (o p : Option ℕ) (xs : List LiveInterval)
    → (d.1 == e.1) ≡ false
    → into calls d o (into calls e p xs) ≡ into calls e p (into calls d o xs)
into_comm calls d e none p xs h = refl
into_comm calls d e (some m) none xs h = refl
into_comm calls d e (some m) (some n) xs h = elim (Bool-cases (leb m d.1)) [
  | inl t ↦ rw t refl
  | inr t ↦
      rw t
        (elim (Bool-cases (leb n e.1)) [ inl u ↦ rw u refl | inr u ↦ rw u (insert_comm _ _ xs h) ])
]

module _ (calls : List ℕ) (uses : ℤ → Option ℕ) where
  -- `sort.Slice` undoes the order of the visit.
  pub sort-build_intervals :
      {ds es : List (ℤ × ℕ)}
      → Permᴰ ds es
      → Distinct ds
      → sort (build_intervals calls uses ds) ≡ sort (build_intervals calls uses es)
  unfolding build_intervals
  sort-build_intervals Permᴰ.nil h = refl
  sort-build_intervals (Permᴰ.cons {a = a} {b = b} {l₁ = xs} {l₂ = ys} e p) h =
      sort-interval_of calls a (uses a.0) (build_intervals calls uses xs)
      ∙ (ap (into calls a (uses a.0)) (sort-build_intervals p h.1)
          ∙ (ap (λ d. into calls d (uses d.0) (sort (build_intervals calls uses ys))) e
              ∙ sym (sort-interval_of calls b (uses b.0) (build_intervals calls uses ys))))
  sort-build_intervals (Permᴰ.swap {a = a} {b = b} {l = xs} e e') h =
      let two = λ (x y : ℤ × ℕ).
        sort-interval_of calls x (uses x.0) (build_intervals calls uses (y ∷ xs))
        ∙ ap (into calls x (uses x.0))
            (sort-interval_of calls y (uses y.0) (build_intervals calls uses xs)) in
      two a b
      ∙ (into_comm calls a b (uses a.0) (uses b.0) (sort (build_intervals calls uses xs)) h.0.0
          ∙ (sym (two b a) ∙ cc (e, e')))
  sort-build_intervals (Permᴰ.trans p q) h =
      sort-build_intervals p h ∙ sort-build_intervals q (Distinct-perm p h)
