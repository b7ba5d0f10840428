-- ===== src/Codegen/Ra/Intervals.antt =====
-- internal/codegen/x86_64/ra.go: the live intervals of a function.
use ccomp.Base.{
  ℕ, zero, suc, subst, some, get_elem?, ◌+◌, ◌<◌, ◌≤◌, ◌≡◌, refl, sym, inl, inr, true, false, ◌↔◌,
  ◌||◌, List, [], ◌∷◌, ◌++◌, Option, none, All, snoc-All, leb, ◌==◌, arith, Bool-cases,
  Option-cases, le→leb,
}
use native.Mathlib.Numerals.{add-one}
use ccomp.Base.Int.{ℤ, ==_ℤ, ==_ℤ_iff, is_negative}
use mathlib.Core.List.{Permᴰ}
use ccomp.Ir.{Instr, Function}
use ccomp.Codegen.Ra.Calls.{IsCut, spans_call-IsCut}
use ccomp.Codegen.Ra.Uses.{ReadAfter, def_use-ReadAfter}
use ccomp.Codegen.Ra.Visit.{Distinct, sort-build_intervals}
use ccomp.Codegen.Ra.{
  LiveInterval, DefUse, all_instrs, call_nums, defined, record_def, record_uses, def_use,
  interval_of, build_intervals, insert, sort, live_intervals,
}

-- The entries of `defAt` in the order of insertion: ids are new, and numbers grow from `lo` on.
abbrev DefsOk : ℕ → List (ℤ × ℕ) → Type 0
DefsOk lo [] = Unit {0}
DefsOk lo (d ∷ ds) = (lo ≤ d.1) × (defined d.0 ds ≡ false) × DefsOk (suc d.1) ds

abbrev Below : ℕ → List (ℤ × ℕ) → Type 0
Below n ds = All (λ d. d.1 < n) ds

snoc-DefsOk :
    (lo n : ℕ) (r : ℤ) (ds : List (ℤ × ℕ))
    → lo ≤ n
    → Below n ds
    → defined r ds ≡ false
    → DefsOk lo ds
    → DefsOk lo (ds ++ (r, n) ∷ [])
unfolding defined
snoc-DefsOk lo n r [] h b f d = (h, refl, tt)
snoc-DefsOk lo n r (e ∷ ds) h b f d = (
  d.0,
  fresh ds (ground (arith, ==_ℤ_iff e.0 r, ==_ℤ_iff r e.0)) d.1,
  snoc-DefsOk (suc e.1) n r ds b.0 b.1 (ground arith) d.2,
)
  where
    fresh :
        (xs : List (ℤ × ℕ))
        → ==_ℤ r e.0 ≡ false
        → defined e.0 xs ≡ false
        → defined e.0 (xs ++ (r, n) ∷ []) ≡ false
    fresh [] p q = ground arith
    fresh (x ∷ xs) p q = ground (arith, fresh xs p)

snoc-Below : (n : ℕ) (r : ℤ) (ds : List (ℤ × ℕ)) → Below n ds → Below (suc n) (ds ++ (r, n) ∷ [])
snoc-Below n r [] b = (omega arith, tt)
snoc-Below n r (e ∷ ds) b = (omega arith, snoc-Below n r ds b.1)

Below-suc : (n : ℕ) (ds : List (ℤ × ℕ)) → Below n ds → Below (suc n) ds
Below-suc n [] b = tt
Below-suc n (e ∷ ds) b = (omega arith, Below-suc n ds b.1)

record_uses-defs : (n : ℕ) (as' : List ℤ) (d : DefUse) → (record_uses n as' d).defs ≡ d.defs
unfolding record_uses
record_uses-defs n [] d = refl
record_uses-defs n (a ∷ as') d = record_uses-defs n as' _

record_def-DefsOk :
    (n : ℕ) (r : ℤ) (d : DefUse)
    → Below n d.defs
    → DefsOk 0 d.defs
    → DefsOk 0 (record_def n r d).defs × Below (suc n) (record_def n r d).defs
unfolding record_def
record_def-DefsOk n r d b o = elim (Bool-cases (is_negative r || defined r d.defs)) [
  | inl t ↦ rw t (o, Below-suc n d.defs b)
  | inr t ↦
      rw t (snoc-DefsOk 0 n r d.defs (omega arith) b (ground arith) o, snoc-Below n r d.defs b)
]

def_use-DefsOk :
    (n : ℕ) (is : List Instr) (d : DefUse)
    → Below n d.defs
    → DefsOk 0 d.defs
    → DefsOk 0 (def_use n is d).defs
unfolding def_use
def_use-DefsOk n [] d b o = o
def_use-DefsOk n (i ∷ is) d b o =
    let (o', b') = record_def-DefsOk n i.res d b o in
    let same = record_uses-defs n i.val.args (record_def n i.res d) in
    def_use-DefsOk (n + 1) is _ (rw (same, add-one n) b') (rw same o')

-- What holds of each result and its place holds of the entries of `defAt`.
def_use-All {ℓ} :
    (P : ℤ × ℕ → Type ℓ) (n : ℕ) (is : List Instr) (d : DefUse)
    → ((c : ℕ) (i : Instr) → get_elem? is c ≡ some i → P (i.res, n + c))
    → All P d.defs
    → All P (def_use n is d).defs
unfolding def_use record_def
def_use-All P n [] d h p = p
def_use-All P n (i ∷ is) d h p =
    def_use-All P (n + 1) is _ later (rw (record_uses-defs n i.val.args (record_def n i.res d)) now)
  where
    later : (c : ℕ) (j : Instr) → get_elem? is c ≡ some j → P (j.res, n + 1 + c)
    later c j e = subst (λ m. P (j.res, m)) (omega arith) (h (suc c) j e)

    here : P (i.res, n)
    here = subst (λ m. P (i.res, m)) (omega arith) (h zero i refl)

    now : All P (record_def n i.res d).defs
    now = elim (Bool-cases (is_negative i.res || defined i.res d.defs)) [
      | inl t ↦ rw t p
      | inr t ↦ rw t (snoc-All P d.defs (i.res, n) p here)
    ]

-- Intervals with new ids, whose starts grow from `lo` on.
abbrev pub Ordered : ℕ → List LiveInterval → Type 0
Ordered lo [] = Unit {0}
Ordered lo (x ∷ xs) =
    (lo ≤ x.start) × All (λ y. ==_ℤ x.id y.id ≡ false) xs × Ordered (suc x.start) xs

-- The instruction at the place has the id for its result.
abbrev pub DefinedAt : List Instr → ℤ → ℕ → Type 0
DefinedAt is id n = (i : Instr) × (get_elem? is n ≡ some i) × (i.res ≡ id)

-- An interval starts where its value is defined and ends after its start, where no later instruction
-- reads the value; it goes to the stack exactly when a call stands between.
abbrev pub IsInterval : List Instr → LiveInterval → Type 0
IsInterval is x =
    DefinedAt is x.id x.start
    × (x.start < x.stop)
    × (¬ ReadAfter is x.id x.stop)
    × ((x.spill ≡ true) ↔ IsCut is x.start x.stop)

Ordered-mono : (lo hi : ℕ) (xs : List LiveInterval) → lo ≤ hi → Ordered hi xs → Ordered lo xs
Ordered-mono lo hi [] h o = tt
Ordered-mono lo hi (x ∷ xs) h o = (omega arith, o.1, o.2)

build_new :
    (calls : List ℕ) (uses : ℤ → Option ℕ) (ds : List (ℤ × ℕ)) (id : ℤ)
    → defined id ds ≡ false
    → All (λ y. ==_ℤ id y.id ≡ false) (build_intervals calls uses ds)
unfolding build_intervals defined
build_new calls uses [] id h = tt
build_new calls uses (d ∷ ds) id h = elim (Option-cases (uses d.0)) [
  | inl e ↦ rw (e, interval_of) (build_new calls uses ds id (ground arith))
  | inr (stop, e) ↦
      rw (e, interval_of)
        (elim (Bool-cases (leb stop d.1)) [
          | inl t ↦ rw t (build_new calls uses ds id (ground arith))
          | inr t ↦ rw t (
            ground (arith, ==_ℤ_iff d.0 id, ==_ℤ_iff id d.0),
            build_new calls uses ds id (ground arith),
          )
        ])
]

build-Ordered :
    (calls : List ℕ) (uses : ℤ → Option ℕ) (lo : ℕ) (ds : List (ℤ × ℕ))
    → DefsOk lo ds
    → Ordered lo (build_intervals calls uses ds)
unfolding build_intervals
build-Ordered calls uses lo [] h = tt
build-Ordered calls uses lo (d ∷ ds) h =
    let rest = build-Ordered calls uses (suc d.1) ds h.2 in
    let skip = Ordered-mono lo (suc d.1) (build_intervals calls uses ds) (omega arith) rest in
    elim (Option-cases (uses d.0)) [
      | inl e ↦ rw (e, interval_of) skip
      | inr (stop, e) ↦
          rw (e, interval_of)
            (elim (Bool-cases (leb stop d.1)) [
              | inl t ↦ rw t skip
              | inr t ↦ rw t (h.0, build_new calls uses ds d.0 h.1, rest)
            ])
    ]

build-IsInterval :
    (is : List Instr) (uses : ℤ → Option ℕ) (ds : List (ℤ × ℕ))
    → All (λ d. DefinedAt is d.0 d.1) ds
    → ((id : ℤ) (stop : ℕ) → uses id ≡ some stop → ¬ ReadAfter is id stop)
    → All (IsInterval is) (build_intervals (call_nums 0 is) uses ds)
unfolding build_intervals
build-IsInterval is uses [] p h = tt
build-IsInterval is uses (d ∷ ds) p h = elim (Option-cases (uses d.0)) [
  | inl e ↦ rw (e, interval_of) (build-IsInterval is uses ds p.1 h)
  | inr (stop, e) ↦
      rw (e, interval_of)
        (elim (Bool-cases (leb stop d.1)) [
          | inl t ↦ rw t (build-IsInterval is uses ds p.1 h)
          | inr t ↦ rw t (
            (p.0, ground arith, h d.0 stop e, spans_call-IsCut is d.1 stop),
            build-IsInterval is uses ds p.1 h,
          )
        ])
]

insert-first :
    (lo : ℕ) (x : LiveInterval) (xs : List LiveInterval)
    → x.start ≤ lo
    → Ordered lo xs
    → insert x xs ≡ x ∷ xs
unfolding insert
insert-first lo x [] h o = refl
insert-first lo x (y ∷ ys) h o = rw (le→leb x.start y.start (omega arith))

sort_same : (lo : ℕ) (xs : List LiveInterval) → Ordered lo xs → sort xs ≡ xs
unfolding sort
sort_same lo [] o = refl
sort_same lo (x ∷ xs) o =
    rw (sort_same (suc x.start) xs o.2) (insert-first (suc x.start) x xs (omega arith) o.2)

above-Distinct :
    (lo n : ℕ) (ds : List (ℤ × ℕ)) → n < lo → DefsOk lo ds → All (λ e. (n == e.1) ≡ false) ds
above-Distinct lo n [] h o = tt
above-Distinct lo n (d ∷ ds) h o =
    (ground (arith, h, o.0), above-Distinct (suc d.1) n ds (omega (arith, h, o.0)) o.2)

DefsOk-Distinct : (lo : ℕ) (ds : List (ℤ × ℕ)) → DefsOk lo ds → Distinct ds
DefsOk-Distinct lo [] o = tt
DefsOk-Distinct lo (d ∷ ds) o =
    (above-Distinct (suc d.1) d.1 ds (omega arith) o.2, DefsOk-Distinct (suc d.1) ds o.2)

-- What the numbering of a function finds: `defAt` and `lastUseAt`.
abbrev pub found : Function → DefUse
found f = def_use 0 (all_instrs f.blocks) (record { defs = []; last_use_at = λ _. none })

found-DefsOk : (f : Function) → DefsOk 0 (found f).defs
found-DefsOk f = def_use-DefsOk 0 (all_instrs f.blocks) _ tt tt

pub live_intervals_lem :
    (f : Function)
    → Ordered 0 (live_intervals f) × All (IsInterval (all_instrs f.blocks)) (live_intervals f)
unfolding live_intervals
live_intervals_lem f =
    let is = all_instrs f.blocks in
    let d = found f in
    let o = build-Ordered (call_nums 0 is) d.last_use_at 0 d.defs (found-DefsOk f) in
    rw (sort_same 0 (build_intervals (call_nums 0 is) d.last_use_at d.defs) o) (
      o,
      build-IsInterval is d.last_use_at d.defs
          (def_use-All (λ e. DefinedAt is e.0 e.1) 0 is _
            (λ c i e. (i, subst (λ m. get_elem? is m ≡ some i) (omega arith) e, refl)) tt)
          (def_use-ReadAfter is _),
    )

-- In whatever order the map of definitions is visited, the sort gives the same intervals: they are
-- in the order of their starts, which differ, as their ids do; each starts at an instruction that has
-- the value for its result, ends after that, no instruction after its end reads the value, and it is
-- marked for the stack exactly when an instruction strictly between is a call.
pub live_intervals-Ordered :
    (f : Function) (ds : List (ℤ × ℕ))
    → Permᴰ (found f).defs ds
    → (sort (build_intervals (call_nums 0 (all_instrs f.blocks)) (found f).last_use_at ds)
        ≡ live_intervals f)
      × Ordered 0 (live_intervals f)
      × All (IsInterval (all_instrs f.blocks)) (live_intervals f)
unfolding live_intervals
live_intervals-Ordered f ds p =
    let distinct = DefsOk-Distinct 0 (found f).defs (found-DefsOk f) in
    let (o, i) = live_intervals_lem f in
    (
      sym (
          sort-build_intervals (call_nums 0 (all_instrs f.blocks)) (found f).last_use_at p
            distinct),
      o,
      i,
    )
