-- ===== src/Lexer/Ahead.antt =====
-- internal/lexer/lexer.go: the text that is still ahead of the lexer, the character at hand first.
use ccomp.Base.{
  ℕ, zero, suc, ◌+◌, ◌-◌, ◌≤◌, ◌≡◌, refl, sym, ap, ◌∙◌, inl, inr, Bool, true, false, ◌∷◌, [], ◌++◌,
  none, some, ◌==◌, Bool-cases, arith, length, length-append, get_elem?, All,
}
use ccomp.Base.Text.{Text}
use ccomp.Lexer.{Lexer, load, read, peek, start, left}
use ccomp.Lexer.Scan.{collect}
use ccomp.Lexer.Progress.{there_is}

abbrev pub drop : ℕ → Text → Text
drop zero s = s
drop (suc n) [] = []
drop (suc n) (c ∷ s) = drop n s

length-drop : (n : ℕ) (s : Text) → length (drop n s) ≡ length s - n
length-drop zero s = omega arith
length-drop (suc n) [] = omega arith
length-drop (suc n) (c ∷ s) = omega (arith, length-drop n s)

drop-[] : (n : ℕ) (s : Text) → drop n s ≡ [] → get_elem? s n ≡ none
drop-[] zero [] e = refl
drop-[] zero (c ∷ s) e = cc
drop-[] (suc n) [] e = refl
drop-[] (suc n) (c ∷ s) e = drop-[] n s e

drop-∷ :
    (n : ℕ) (s : Text) (c : ℕ) (t : Text)
    → drop n s ≡ c ∷ t
    → (get_elem? s n ≡ some c) × (drop (suc n) s ≡ t)
drop-∷ zero [] c t e = cc
drop-∷ zero (d ∷ s) c t e = (cc, cc)
drop-∷ (suc n) [] c t e = cc
drop-∷ (suc n) (d ∷ s) c t e = drop-∷ n s c t e

-- What `ch` and the rest of `src` spell.
abbrev pub Ahead : Lexer → Text → Type 0
Ahead l [] = (l.ch ≡ 0) × (drop l.i l.src ≡ [])
Ahead l (c ∷ s) = (l.ch ≡ c) × (drop l.i l.src ≡ s)

next-Ahead : (l : Lexer) (s : Text) → drop l.i l.src ≡ s → Ahead (read l) s
unfolding read
next-Ahead l [] e = rw (drop-[] l.i l.src e, load) (refl, e)
next-Ahead l (c ∷ s) e =
    let h = drop-∷ l.i l.src c s e in
    let e' : drop (l.i + 1) l.src ≡ s = ap (λ n. drop n l.src) {y = suc l.i} (omega arith) ∙ h.1 in
    elim (Bool-cases (c == 10)) [
      | inl t ↦ rw (h.0, load, t) (refl, e')
      | inr f ↦ rw (h.0, load, f) (refl, e')
    ]

pub read-Ahead : (l : Lexer) (c : ℕ) (s : Text) → Ahead l (c ∷ s) → Ahead (read l) s
read-Ahead l c s h = next-Ahead l s h.1

pub start-Ahead : (s : Text) → Ahead (start s) s
unfolding start
start-Ahead s = next-Ahead (record { src = s; i = 0; ch = 0; line = 1; col = 0 }) s refl

pub peek-Ahead : (l : Lexer) (c d : ℕ) (s : Text) → Ahead l (c ∷ d ∷ s) → peek l ≡ d
unfolding peek
peek-Ahead l c d s h = rw (drop-∷ l.i l.src d s h.1).0 refl

-- A text that no further character of p follows.
abbrev pub Ends : (ℕ → Bool) → Text → Type 0
Ends p [] = Unit
Ends p (d ∷ s) = p d ≡ false

abbrev pub Each : (ℕ → Bool) → Text → Type 0
Each p s = All (λ c. p c ≡ true) s

pub ch-Ends :
    (p : ℕ → Bool) (l : Lexer) (t : Text) → p 0 ≡ false → Ends p t → Ahead l t → p l.ch ≡ false
ch-Ends p l [] z e h = rw h.0 z
ch-Ends p l (d ∷ t) z e h = rw h.0 e

collect-end :
    (p : ℕ → Bool) (fuel : ℕ) (l : Lexer) (acc : Text)
    → p l.ch ≡ false
    → collect p fuel l acc ≡ (acc, l)
unfolding collect
collect-end p zero l acc h = refl
collect-end p (suc fuel) l acc h = rw (h, collect) refl

pub append_assoc_one : (acc : Text) (c : ℕ) (s : Text) → (acc ++ c ∷ []) ++ s ≡ acc ++ c ∷ s
append_assoc_one [] c s = refl
append_assoc_one (a ∷ acc) c s = ap (λ r. a ∷ r) (append_assoc_one acc c s)

pub append_nil : (s : Text) → s ++ [] ≡ s
append_nil [] = refl
append_nil (c ∷ s) = ap (λ r. c ∷ r) (append_nil s)

-- The loop takes the characters of p that are ahead, and no more.
pub collect-Ahead :
    (p : ℕ → Bool) (fuel : ℕ) (l : Lexer) (acc s t : Text)
    → p 0 ≡ false
    → Each p s
    → Ends p t
    → Ahead l (s ++ t)
    → length s ≤ fuel
    → ((collect p fuel l acc).0 ≡ acc ++ s) × Ahead (collect p fuel l acc).1 t
unfolding collect
collect-Ahead p fuel l acc [] t z a e h q =
    rw (collect-end p fuel l acc (ch-Ends p l t z e h)) (sym (append_nil acc), h)
collect-Ahead p zero l acc (c ∷ s) t z a e h q = ground (arith, q)
collect-Ahead p (suc fuel) l acc (c ∷ s) t z a e h q =
    let yes : p l.ch ≡ true = rw h.0 a.0 in
    let rest =
      collect-Ahead p fuel (read l) (acc ++ l.ch ∷ []) s t z a.1 e (read-Ahead l c (s ++ t) h)
        (omega (arith, q)) in
    rw (yes, collect) (rest.0 ∙ (append_assoc_one acc l.ch s ∙ ap (λ d. acc ++ d ∷ s) h.0), rest.1)

-- There is fuel for what is ahead.
pub left-enough :
    (p : ℕ → Bool) (l : Lexer) (s t : Text)
    → p 0 ≡ false
    → Each p s
    → Ahead l (s ++ t)
    → length s ≤ left l
unfolding left
left-enough p l [] t z a h = omega arith
left-enough p l (c ∷ s) t z a h =
    let f : (l.ch == 0) ≡ false = there_is p l.ch z (rw h.0 a.0) in
    ground (arith, f, length-drop l.i l.src, ap length h.1, length-append s t)
