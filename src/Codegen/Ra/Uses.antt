-- ===== src/Codegen/Ra/Uses.antt =====
-- internal/codegen/x86_64/ra.go: `lastUseAt` is at or after each use of a value.
use mathlib.Core.Option.{some-injective}
use ccomp.Base.{
  ℕ, zero, suc, ◌+◌, ◌<◌, ◌≤◌, ◌≡◌, refl, sym, subst, ◌∙◌, inl, inr, true, ◌||◌, List, [], ◌∷◌,
  Option, some, get_elem?, any, arith, Bool-cases,
}
use ccomp.Base.Int.{ℤ, ==_ℤ, is_negative}
use ccomp.Ir.{Instr}
use ccomp.Codegen.Ra.{DefUse, put, defined, record_def, record_uses, def_use}

-- The entry of an id is at `n` or later.
abbrev Since : ℕ → ℤ → DefUse → Type 0
Since n id d = (s : ℕ) × (d.last_use_at id ≡ some s) × (n ≤ s)

put-Since :
    (n m : ℕ) (a id : ℤ) (f : ℤ → Option ℕ)
    → n ≤ m
    → ((s : ℕ) × (f id ≡ some s) × (n ≤ s))
    → (s : ℕ) × (put a (some m) f id ≡ some s) × (n ≤ s)
put-Since n m a id f h k = elim (Bool-cases (==_ℤ a id)) [
  | inl t ↦ (m, rw t refl, h)
  | inr t ↦ (k.0, rw t k.1, k.2)
]

record_uses-Since :
    (n m : ℕ) (as' : List ℤ) (id : ℤ) (d : DefUse)
    → n ≤ m
    → Since n id d
    → Since n id (record_uses m as' d)
unfolding record_uses
record_uses-Since n m [] id d h k = k
record_uses-Since n m (a ∷ as') id d h k =
    record_uses-Since n m as' id _ h (put-Since n m a id d.last_use_at h k)

record_def-Since :
    (n m : ℕ) (r id : ℤ) (d : DefUse) → n ≤ m → Since n id d → Since n id (record_def m r d)
unfolding record_def
record_def-Since n m r id d h k = elim (Bool-cases (is_negative r || defined r d.defs)) [
  | inl t ↦ rw t k
  | inr t ↦ rw t (put-Since n m r id d.last_use_at h k)
]

def_use-Since :
    (n m : ℕ) (is : List Instr) (id : ℤ) (d : DefUse)
    → n ≤ m
    → Since n id d
    → Since n id (def_use m is d)
unfolding def_use
def_use-Since n m [] id d h k = k
def_use-Since n m (i ∷ is) id d h k =
    def_use-Since n (m + 1) is id _ (omega (arith, h))
      (record_uses-Since n m i.val.args id _ h (record_def-Since n m i.res id d h k))

-- Whether an instruction reads the id.
abbrev pub ReadBy : ℤ → Instr → Type 0
ReadBy id i = any (λ a. ==_ℤ a id) i.val.args ≡ true

record_uses_used :
    (n : ℕ) (as' : List ℤ) (id : ℤ) (d : DefUse)
    → any (λ a. ==_ℤ a id) as' ≡ true
    → Since n id (record_uses n as' d)
unfolding record_uses
record_uses_used n [] id d h = cc
record_uses_used n (a ∷ as') id d h = elim (Bool-cases (==_ℤ a id)) [
  | inl t ↦ record_uses-Since n n as' id _ (omega arith) (n, rw t refl, omega arith)
  | inr f ↦ record_uses_used n as' id _ (rw f at h)
]

def_use_used :
    (n c : ℕ) (is : List Instr) (i : Instr) (id : ℤ) (d : DefUse)
    → get_elem? is c ≡ some i
    → ReadBy id i
    → Since (n + c) id (def_use n is d)
unfolding def_use
def_use_used n c [] i id d e h = cc
def_use_used n zero (j ∷ is) i id d e h =
    let h' : ReadBy id j = subst (ReadBy id) (sym (some-injective j i e)) h in
    let (s, q, l) =
      def_use-Since n (n + 1) is id _ (omega arith) (record_uses_used n j.val.args id _ h') in
    (s, q, omega (arith, l))
def_use_used n (suc c) (j ∷ is) i id d e h =
    let (s, q, l) = def_use_used (n + 1) c is i id _ e h in (s, q, omega (arith, l))

-- An instruction after `stop` reads the id.
abbrev pub ReadAfter : List Instr → ℤ → ℕ → Type 0
ReadAfter is id stop = (c : ℕ) × (i : Instr) × (get_elem? is c ≡ some i) × ReadBy id i × (stop < c)

pub def_use-ReadAfter :
    (is : List Instr) (d : DefUse) (id : ℤ) (stop : ℕ)
    → (def_use 0 is d).last_use_at id ≡ some stop
    → ¬ ReadAfter is id stop
def_use-ReadAfter is d id stop e (c, i, g, h, l) =
    let (s, q, m) = def_use_used 0 c is i id d g h in
    let same : s ≡ stop = some-injective s stop (sym q ∙ e) in omega (arith, same, m, l)
