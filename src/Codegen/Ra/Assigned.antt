-- ===== src/Codegen/Ra/Assigned.antt =====
-- internal/codegen/x86_64/ra.go: which registers the linear scan gives, and to which intervals.
use mathlib.Core.Path.{subst}
use mathlib.Core.Option.{some-injective}
use ccomp.Base.{
  ℕ, zero, suc, ◌+◌, ◌≡◌, refl, ◌⊎◌, inl, inr, true, false, List, [], ◌∷◌, ◌++◌, Option, none, some,
  any, All, ltb, length, get_elem?, set, take, arith, Bool-cases, Option-cases, All-get_elem?,
}
use ccomp.Base.Int.{ℤ, ==_ℤ, ==_ℤ_iff}
use ccomp.Codegen.Reg.{Reg, reg_eq}
use ccomp.Codegen.Ra.{
  LiveInterval, Allocation, put, allocable_regs, ActiveInterval, expire, first_free,
  spill_candidate, remove_in_place, Scan, assign, take_over, try_spill, place, scan_one, scan,
  no_scan, live_intervals, all_instrs, allocate_registers,
}
use ccomp.Codegen.Ra.Calls.{IsCut}
use ccomp.Codegen.Ra.Uses.{ReadAfter}
use ccomp.Codegen.Ra.Intervals.{DefinedAt, IsInterval, live_intervals_lem}
use ccomp.Ir.{Function}

abbrev pub Member : LiveInterval → List LiveInterval → Type 0
Member x [] = ⊥
Member x (y ∷ ys) = (y ≡ x) ⊎ Member x ys

-- An interval of the list that was not marked for the stack, with the id.
abbrev pub Unspilled : List LiveInterval → ℤ → Type 0
Unspilled l id = (x : LiveInterval) × Member x l × (x.id ≡ id) × (x.spill ≡ false)

abbrev pub IsAllocable : Reg → Type 0
IsAllocable r = any (λ q. reg_eq q r) allocable_regs ≡ true

abbrev ActiveOk : List ActiveInterval → Type 0
ActiveOk as' = All (λ a. IsAllocable a.reg) as'

expire-ActiveOk : (p : ℕ) (as' : List ActiveInterval) → ActiveOk as' → ActiveOk (expire p as')
unfolding expire
expire-ActiveOk p [] h = tt
expire-ActiveOk p (a ∷ as') h = ground (arith, expire-ActiveOk p as' h.1)

set-ActiveOk :
    (as' : List ActiveInterval) (n : ℕ) (a : ActiveInterval)
    → ActiveOk as'
    → IsAllocable a.reg
    → ActiveOk (set as' n a)
set-ActiveOk [] n a h g = tt
set-ActiveOk (b ∷ as') zero a h g = (g, h.1)
set-ActiveOk (b ∷ as') (suc n) a h g = (h.0, set-ActiveOk as' n a h.1 g)

take-ActiveOk : (n : ℕ) (as' : List ActiveInterval) → ActiveOk as' → ActiveOk (take n as')
take-ActiveOk zero as' h = tt
take-ActiveOk (suc n) [] h = tt
take-ActiveOk (suc n) (a ∷ as') h = (h.0, take-ActiveOk n as' h.1)

snoc-ActiveOk :
    (as' : List ActiveInterval) (a : ActiveInterval)
    → ActiveOk as'
    → IsAllocable a.reg
    → ActiveOk (as' ++ a ∷ [])
snoc-ActiveOk [] a h g = (g, tt)
snoc-ActiveOk (b ∷ as') a h g = (h.0, snoc-ActiveOk as' a h.1 g)

remove_in_place-ActiveOk :
    (rounds j m k : ℕ) (cells : List ActiveInterval)
    → ActiveOk cells
    → ActiveOk (remove_in_place rounds j m k cells).1
unfolding remove_in_place
remove_in_place-ActiveOk zero j m k cells h = h
remove_in_place-ActiveOk (suc rounds) j m k cells h = elim (Option-cases (get_elem? cells j)) [
  | inl e ↦ rw (e, remove_in_place) h
  | inr (a, e) ↦
      rw (e, remove_in_place)
        (elim (Option-cases (get_elem? cells k)) [
          | inl e' ↦ rw (e', remove_in_place) h
          | inr (c, e') ↦
              rw (e', remove_in_place)
                (elim (Bool-cases (==_ℤ a.interval.id c.interval.id)) [
                  | inl t ↦
                      rw (t, remove_in_place) (remove_in_place-ActiveOk rounds (j + 1) m k cells h)
                  | inr t ↦
                      rw (t, remove_in_place)
                        (remove_in_place-ActiveOk rounds (j + 1) (m + 1) k (set cells m a)
                          (set-ActiveOk cells m a h (All-get_elem? _ cells j a h e)))
                ])
        ])
]

first_free-IsAllocable :
    (as' : List ActiveInterval) (rs : List Reg) (r : Reg)
    → first_free as' rs ≡ some r
    → any (λ q. reg_eq q r) rs ≡ true
unfolding first_free
first_free-IsAllocable as' [] r e = cc
first_free-IsAllocable as' (q ∷ rs) r e = ground (arith, first_free-IsAllocable as' rs r)

module _ (l : List LiveInterval) where
  -- Registers are allocable, and given to intervals of the list that no call cuts.
  abbrev RegsOk : Allocation → Type 0
  RegsOk m = (id : ℤ) (r : Reg) → m id ≡ some r → IsAllocable r × Unspilled l id

  pub record ScanOk (s : Scan) : Type 0 where
    pub active_ok : ActiveOk s.active
    pub regs_ok : RegsOk s.reg_of

  put-some-RegsOk :
      (k : ℤ) (q : Reg) (m : Allocation)
      → RegsOk m
      → IsAllocable q
      → Unspilled l k
      → RegsOk (put k (some q) m)
  put-some-RegsOk k q m h a u id r e = elim (Bool-cases (==_ℤ k id)) [
    | inl t ↦
        let got : q ≡ r = some-injective _ _ (rw t at e) in
        (subst IsAllocable got a, subst (Unspilled l) ((==_ℤ_iff k id).0 t) u)
    | inr t ↦ h id r (rw t at e)
  ]

  put-none-RegsOk : (k : ℤ) (m : Allocation) → RegsOk m → RegsOk (put k none m)
  put-none-RegsOk k m h id r e = elim (Bool-cases (==_ℤ k id)) [
    | inl t ↦ let no : none ≡ some r = rw t at e in cc
    | inr t ↦ h id r (rw t at e)
  ]

  take_over-ScanOk :
      (x : LiveInterval) (k : ℕ) (c : ActiveInterval) (s : Scan)
      → Unspilled l x.id
      → IsAllocable c.reg
      → ScanOk s
      → ScanOk (take_over x k c s)
  unfolding take_over
  take_over-ScanOk x k c s u a h =
      let out = remove_in_place (length s.active) 0 0 k s.active in
      let cells_ok : ActiveOk out.1 =
        remove_in_place-ActiveOk (length s.active) 0 0 k s.active h.active_ok in
      let regs =
        put-some-RegsOk x.id c.reg _ (put-none-RegsOk c.interval.id s.reg_of h.regs_ok) a u in
      let taken = take-ActiveOk out.0 out.1 cells_ok in
      elim (Option-cases (get_elem? out.1 k)) [
        | inl e ↦ rw (e, take_over) (record { active_ok = taken; regs_ok = regs })
        | inr (now, e) ↦
            rw (e, take_over)
              (record {
                active_ok = snoc-ActiveOk _ _ taken (All-get_elem? _ out.1 k now cells_ok e);
                regs_ok = regs;
              })
      ]

  try_spill-ScanOk :
      (x : LiveInterval) (s : Scan) (k : Option ℕ)
      → Unspilled l x.id
      → ScanOk s
      → ScanOk (try_spill x s k)
  try_spill-ScanOk x s none u h = h
  try_spill-ScanOk x s (some k) u h = elim (Option-cases (get_elem? s.active k)) [
    | inl e ↦ rw (e, try_spill) h
    | inr (c, e) ↦
        rw (e, try_spill)
          (elim (Bool-cases (ltb x.stop c.interval.stop)) [
            | inl t ↦
                rw t (take_over-ScanOk x k c s u (All-get_elem? _ s.active k c h.active_ok e) h)
            | inr t ↦ rw t h
          ])
  ]

  place-ScanOk :
      (x : LiveInterval) (s : Scan)
      → Unspilled l x.id
      → ScanOk s
      → ScanOk (place x s (first_free s.active allocable_regs))
  unfolding assign
  place-ScanOk x s u h = elim (Option-cases (first_free s.active allocable_regs)) [
    | inl e ↦ rw e (try_spill-ScanOk x s (spill_candidate s.active) u h)
    | inr (r, e) ↦
        let a = first_free-IsAllocable s.active allocable_regs r e in
        rw e (record {
          active_ok = snoc-ActiveOk s.active _ h.active_ok a;
          regs_ok = put-some-RegsOk x.id r s.reg_of h.regs_ok a u;
        })
  ]

  scan_one-ScanOk :
      (x : LiveInterval) (s : Scan)
      → (x.spill ≡ false → Unspilled l x.id)
      → ScanOk s
      → ScanOk (scan_one x s)
  unfolding scan_one
  scan_one-ScanOk x s u h =
      let s' : Scan = record s { active = expire x.start s.active } in
      let h' : ScanOk s' = record {
        active_ok = expire-ActiveOk x.start s.active h.active_ok;
        regs_ok = h.regs_ok;
      } in
      elim (Bool-cases x.spill) [ inl t ↦ rw t h' | inr t ↦ simp t (place-ScanOk x s' (u t) h') ]

  pub scan-ScanOk :
      (xs : List LiveInterval) (s : Scan)
      → All (λ x. x.spill ≡ false → Unspilled l x.id) xs
      → ScanOk s
      → ScanOk (scan xs s)
  unfolding scan
  scan-ScanOk [] s u h = h
  scan-ScanOk (x ∷ xs) s u h = scan-ScanOk xs (scan_one x s) u.1 (scan_one-ScanOk x s u.0 h)

All-Member :
    (P : LiveInterval → Type 0) (x : LiveInterval) (xs : List LiveInterval)
    → All P xs
    → Member x xs
    → P x
All-Member P x [] h m = elim m [ ]
All-Member P x (y ∷ ys) h (inl e) = subst P e h.0
All-Member P x (y ∷ ys) h (inr m) = All-Member P x ys h.1 m

Unspilled-All :
    (l xs : List LiveInterval)
    → ((x : LiveInterval) → Member x xs → Member x l)
    → All (λ x. x.spill ≡ false → Unspilled l x.id) xs
Unspilled-All l [] h = tt
Unspilled-All l (x ∷ xs) h =
    (λ s. (x, h x (inl refl), refl, s), Unspilled-All l xs (λ y m. h y (inr m)))

pub allocate_registers-Unspilled :
    (f : Function) (id : ℤ) (r : Reg)
    → allocate_registers f id ≡ some r
    → IsAllocable r × Unspilled (live_intervals f) id
unfolding allocate_registers
allocate_registers-Unspilled f id r e =
    let l = live_intervals f in
    (scan-ScanOk l l no_scan (Unspilled-All l l (λ x m. m))
        (record { active_ok = tt; regs_ok = λ j q h. absurd_none h })).regs_ok
      id r e
  where
    absurd_none : {A : Type 0} {q : Reg} → none ≡ some q → A
    absurd_none h = cc

-- A register that the allocator gives to a value is one of the seven allocable ones, hence neither
-- %rax nor %rcx, and the value has a live interval, which starts at an instruction that has the value
-- for its result, after which no instruction reads the value, and strictly inside which no
-- instruction is a call.
pub allocate_registers_sound :
    (f : Function) (id : ℤ) (r : Reg)
    → allocate_registers f id ≡ some r
    → (any (λ q. reg_eq q r) allocable_regs ≡ true)
      × ((x : LiveInterval) × Member x (live_intervals f)
          × (x.id ≡ id)
          × DefinedAt (all_instrs f.blocks) x.id x.start
          × (¬ ReadAfter (all_instrs f.blocks) x.id x.stop)
          × (¬ IsCut (all_instrs f.blocks) x.start x.stop))
allocate_registers_sound f id r e =
    let (a, (x, m, i, s)) = allocate_registers-Unspilled f id r e in
    let (from, _, to, cut) =
      All-Member (IsInterval _) x (live_intervals f) (live_intervals_lem f).1 m in
    (a, (x, m, i, from, to, λ c. let t : x.spill ≡ true = cut.1 c in cc))
