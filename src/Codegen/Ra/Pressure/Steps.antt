-- ===== src/Codegen/Ra/Pressure/Steps.antt =====
-- internal/codegen/x86_64/ra.go, the loop of the linear scan: one interval, and all of them.
use mathlib.Core.List.{append_assoc, append-nil, map-append}
use ccomp.Base.{
  ℕ, suc, ◌<◌, ◌≤◌, ◌≡◌, ◌≢◌, refl, sym, ap, ◌∙◌, inl, inr, true, false, List, [], ◌∷◌, ◌++◌, none,
  some, All, snoc-All, map-All, le→leb, length, arith, Bool-cases,
}
use ccomp.Base.Int.{==_ℤ, ==_ℤ_iff}
use ccomp.Ir.{Function}
use ccomp.Codegen.Reg.{Reg}
use ccomp.Codegen.Ra.{
  LiveInterval, put, ActiveInterval, expire, used, Scan, assign, scan_one, scan, no_scan,
  live_intervals, allocate_registers,
}
use ccomp.Codegen.Ra.Intervals.{Ordered, live_intervals_lem}
use ccomp.Codegen.Ra.Pressure.Free.{free_exists}
use ccomp.Codegen.Ra.Pressure.Live.{
  live_at, LowPressure, Apart, Separated, HasReg, HasOwn, intervals, Placed, expire-All,
  All-intervals, intervals-All, live_at-append, expire-active_eq,
}
use ccomp.Codegen.Ra.Pressure.Apart.{
  NewTo, live_at-All, All-live_at, put_old, put_new, put-Separated, snoc-Separated, unused_own,
}

-- The interval takes a free register.
assign-Placed :
    (x : LiveInterval) (r : Reg) (done : List LiveInterval) (s : Scan)
    → x.spill ≡ false
    → x.start ≤ x.stop
    → NewTo x.id done
    → used s.active r ≡ false
    → Placed x.start done s
    → Placed x.start (done ++ x ∷ []) (assign x r s)
unfolding assign live_at
assign-Placed x r done s sp le new free h =
    let old : All (λ a. ==_ℤ x.id a.interval.id ≡ false) s.active =
      All-intervals (λ y. ==_ℤ x.id y.id ≡ false) s.active
        (rw h.active_eq (live_at-All _ x.start done new)) in
    let own_old : All (HasOwn (put x.id (some r) s.reg_of)) s.active =
      kept_own s.active old h.own in
    let others : All (λ y. s.reg_of y.id ≢ some r) (live_at x.start done) =
      rw (← h.active_eq) (intervals-All _ s.active (unused_own s.reg_of r s.active free h.own)) in
    record {
      active_eq =
          map-append _ s.active _
          ∙ ap (λ l. l ++ x ∷ []) h.active_eq
          ∙ sym (live_at-append x.start done (x ∷ []) ∙ ap (λ l. live_at x.start done ++ l) alone);
      own = snoc-All _ s.active _ own_old (put_new s.reg_of x.id (some r));
      separated =
          snoc-Separated _ done x (put-Separated s.reg_of x.id (some r) done new h.separated)
            (clear done new (All-live_at _ x.start done others));
      assigned =
          snoc-All _ done x (kept_reg done new h.assigned)
            (λ _ e. let no : some r ≡ none = sym (put_new s.reg_of x.id (some r)) ∙ e in cc);
    }
  where
    alone : live_at x.start (x ∷ []) ≡ x ∷ []
    alone = simp (sp, le→leb x.start x.stop le)

    kept_own :
        (as' : List ActiveInterval)
        → All (λ a. ==_ℤ x.id a.interval.id ≡ false) as'
        → All (HasOwn s.reg_of) as'
        → All (HasOwn (put x.id (some r) s.reg_of)) as'
    kept_own [] n g = tt
    kept_own (a ∷ as') n g =
        (put_old s.reg_of x.id (some r) a.interval n.0 ∙ g.0, kept_own as' n.1 g.1)

    kept_reg :
        (ys : List LiveInterval)
        → NewTo x.id ys
        → All (HasReg s.reg_of) ys
        → All (HasReg (put x.id (some r) s.reg_of)) ys
    kept_reg [] n g = tt
    kept_reg (y ∷ ys) n g =
        (λ q e. g.0 q (sym (put_old s.reg_of x.id (some r) y n.0) ∙ e), kept_reg ys n.1 g.1)

    clear :
        (ys : List LiveInterval)
        → NewTo x.id ys
        → All (λ y. y.spill ≡ false → x.start ≤ y.stop → s.reg_of y.id ≢ some r) ys
        → All (λ y. Apart (put x.id (some r) s.reg_of) y x) ys
    clear [] n g = tt
    clear (y ∷ ys) n g = (
      λ a b c e.
          g.0 a c (sym (put_old s.reg_of x.id (some r) y n.0) ∙ e ∙ put_new s.reg_of x.id (some r)),
      clear ys n.1 g.1,
    )

-- The interval is marked for the stack.
spill-Placed :
    (x : LiveInterval) (done : List LiveInterval) (s : Scan)
    → x.spill ≡ true
    → Placed x.start done s
    → Placed x.start (done ++ x ∷ []) s
unfolding live_at
spill-Placed x done s sp h = record {
  active_eq = h.active_eq ∙ sym (live_at-append x.start done (x ∷ []) ∙ rw nothing (append-nil _));
  own = h.own;
  separated =
      snoc-Separated s.reg_of done x h.separated (map-All _ _ done (λ y _ a b c. cc) h.assigned);
  assigned = snoc-All _ done x h.assigned (λ q. cc);
}
  where
    nothing : live_at x.start (x ∷ []) ≡ []
    nothing = simp sp

expire-Placed :
    (p q : ℕ) (done : List LiveInterval) (s : Scan)
    → p ≤ q
    → Placed p done s
    → Placed q done (record s { active = expire q s.active })
expire-Placed p q done s le h = record {
  active_eq = expire-active_eq p q done s.active le h.active_eq;
  own = expire-All (HasOwn s.reg_of) q s.active h.own;
  separated = h.separated;
  assigned = h.assigned;
}

length-intervals : (as' : List ActiveInterval) → length (intervals as') ≡ length as'
length-intervals [] = refl
length-intervals (a ∷ as') = ap suc (length-intervals as')

scan_one-Placed :
    (x : LiveInterval) (p : ℕ) (done : List LiveInterval) (s : Scan)
    → p ≤ x.start
    → x.start ≤ x.stop
    → NewTo x.id done
    → (x.spill ≡ false → length (live_at x.start done) < 7)
    → Placed p done s
    → Placed x.start (done ++ x ∷ []) (scan_one x s)
unfolding scan_one
scan_one-Placed x p done s le lt new low h =
    let s' : Scan = record s { active = expire x.start s.active } in
    let h' : Placed x.start done s' = expire-Placed p x.start done s le h in
    elim (Bool-cases x.spill) [
      | inl t ↦ simp t (spill-Placed x done s' t h')
      | inr t ↦
          let count : length (live_at x.start done) ≡ length s'.active =
            sym (ap length h'.active_eq) ∙ length-intervals s'.active in
          let (r, free, unused) = free_exists s'.active (omega (arith, count, low t)) in
          simp (t, free) (assign-Placed x r done s' t lt new unused h')
    ]

NewTo-snoc :
    (x : LiveInterval) (done xs : List LiveInterval)
    → All (λ y. NewTo y.id done) xs
    → All (λ y. ==_ℤ x.id y.id ≡ false) xs
    → All (λ y. NewTo y.id (done ++ x ∷ [])) xs
NewTo-snoc x done [] h n = tt
NewTo-snoc x done (y ∷ ys) h n = (
  snoc-All _ done x h.0 (ground (arith, n.0, ==_ℤ_iff x.id y.id, ==_ℤ_iff y.id x.id)),
  NewTo-snoc x done ys h.1 n.1,
)

scan-Placed :
    (xs done : List LiveInterval) (p lo : ℕ) (s : Scan)
    → p ≤ lo
    → Ordered lo xs
    → All (λ x. x.start ≤ x.stop) xs
    → All (λ y. NewTo y.id done) xs
    → LowPressure done xs
    → Placed p done s
    → Separated (scan xs s).reg_of (done ++ xs) × All (HasReg (scan xs s).reg_of) (done ++ xs)
unfolding scan
scan-Placed [] done p lo s le o i n low h = rw (append-nil done) (h.separated, h.assigned)
scan-Placed (x ∷ xs) done p lo s le o i n low h =
    let h' = scan_one-Placed x p done s (omega arith) i.0 n.0 low.0 h in
    let rest =
      scan-Placed xs (done ++ x ∷ []) x.start (suc x.start) (scan_one x s) (omega arith) o.2 i.1
        (NewTo-snoc x done xs n.1 o.1) low.1 h' in
    rw (append_assoc done (x ∷ []) xs) at rest

All-NewTo : (xs : List LiveInterval) → All (λ y. NewTo y.id []) xs
All-NewTo [] = tt
All-NewTo (x ∷ xs) = (tt, All-NewTo xs)

-- If fewer than seven intervals that want a register are unfinished whenever one more starts, each
-- interval that no call cuts gets a register, and two such intervals that overlap, even where one
-- ends at the instruction that starts the other, get different ones.
pub allocate_registers_apart :
    (f : Function)
    → LowPressure [] (live_intervals f)
    → Separated (allocate_registers f) (live_intervals f)
      × All (HasReg (allocate_registers f)) (live_intervals f)
unfolding allocate_registers live_at
allocate_registers_apart f low =
    let (o, i) = live_intervals_lem f in
    let l = live_intervals f in
    scan-Placed l [] 0 0 no_scan (omega arith) o (map-All _ _ l (λ x h. omega (arith, h.1)) i)
      (All-NewTo l) low (record { active_eq = refl; own = tt; separated = tt; assigned = tt })
