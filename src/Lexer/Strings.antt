-- ===== src/Lexer/Strings.antt =====
-- internal/lexer/lexer.go, Next: string literals.
use ccomp.Base.{
  ℕ, zero, suc, ◌≤◌, ◌≡◌, refl, sym, subst, ap, ◌∙◌, inl, inr, Bool, true, false, not, ◌&&◌, ◌||◌,
  ◌∷◌, [], ◌++◌, none, ◌==◌, Bool-cases, if◌then◌else◌, if_both, if_true, if_false, arith, length,
}
use ccomp.Base.Text.{Text}
use ccomp.Lexer.{Lexer, read, peek, left}
use ccomp.Lexer.Token.{TokenType, Unicode}
use ccomp.Lexer.Scan.{string_body, escape}
use ccomp.Lexer.Next.{symbol, token, take_string, take_other, dispatch, next}
use ccomp.Lexer.Ahead.{Ahead, Each, read-Ahead, left-enough, append_nil, append_assoc_one}
use ccomp.Lexer.Words.{next-dispatch, comment_at-other, Yields}

-- A text as a literal has it: a backslash before a quote and before a backslash.
abbrev pub quote : Text → Text
quote [] = []
quote (c ∷ s) =
    if c == 0x22
    then 0x5c ∷ 0x22 ∷ quote s
    else if c == 0x5c
    then 0x5c ∷ 0x5c ∷ quote s
    else c ∷ quote s

abbrev pub not_nul : ℕ → Bool
not_nul c = not (c == 0)

not_nul-quote : (s : Text) → Each not_nul s → Each not_nul (quote s)
not_nul-quote [] h = tt
not_nul-quote (c ∷ s) h =
    let r = not_nul-quote s h.1 in
    if_both (Each not_nul) (c == 0x22) _ _ (refl, (refl, r))
      (if_both (Each not_nul) (c == 0x5c) _ _ (refl, (refl, r)) (h.0, r))

length-quote : (s : Text) → length s ≤ length (quote s)
length-quote [] = omega arith
length-quote (c ∷ s) = ground (arith, length-quote s)

-- One character of a body, and one after a backslash.
body-plain :
    (fuel : ℕ) (l : Lexer) (acc : Text)
    → (not (l.ch == 0) && not (l.ch == 0x22)) ≡ true
    → (l.ch == 0x5c) ≡ false
    → string_body (suc fuel) l acc ≡ string_body fuel (read l) (acc ++ l.ch ∷ [])
unfolding string_body
body-plain fuel l acc h k = rw (h, string_body) (rw (k, string_body) refl)

body-escaped :
    (fuel : ℕ) (l : Lexer) (acc : Text)
    → l.ch ≡ 0x5c
    → ((read l).ch == 0) ≡ false
    → string_body (suc fuel) l acc
      ≡ string_body fuel (read (read l)) (acc ++ escape (read l).ch ∷ [])
unfolding string_body
body-escaped fuel l acc h k =
    let a : (not (l.ch == 0) && not (l.ch == 0x22)) ≡ true = rw h refl in
    let b : (l.ch == 0x5c) ≡ true = rw h refl in
    rw (a, string_body) (rw (b, string_body) (rw (k, string_body) refl))

body-end : (fuel : ℕ) (l : Lexer) (acc : Text) → l.ch ≡ 0x22 → string_body fuel l acc ≡ (acc, l)
unfolding string_body
body-end zero l acc h = refl
body-end (suc fuel) l acc h =
    let a : (not (l.ch == 0) && not (l.ch == 0x22)) ≡ false = rw h refl in rw (a, string_body) refl

Bodies : ℕ → Lexer → Text → Text → Text → Type 0
Bodies fuel l acc s t = let r = string_body fuel l acc in (r.0 ≡ acc ++ s) × Ahead r.1 (0x22 ∷ t)

body-escaped-next :
    (fuel : ℕ) (l : Lexer) (acc s t : Text) (c : ℕ)
    → escape c ≡ c
    → (c == 0) ≡ false
    → Ahead l (0x5c ∷ c ∷ quote s ++ 0x22 ∷ t)
    → Bodies fuel (read (read l)) (acc ++ c ∷ []) s t
    → Bodies (suc fuel) l acc (c ∷ s) t
unfolding Bodies
body-escaped-next fuel l acc s t c e z h r =
    let h' = read-Ahead l 0x5c (c ∷ quote s ++ 0x22 ∷ t) h in
    let there : ((read l).ch == 0) ≡ false = rw h'.0 z in
    let kept : escape (read l).ch ≡ c = ap escape h'.0 ∙ e in
    rw (body-escaped fuel l acc h.0 there, kept) (r.0 ∙ append_assoc_one acc c s, r.1)

body-plain-next :
    (fuel : ℕ) (l : Lexer) (acc s t : Text) (c : ℕ)
    → (c == 0) ≡ false
    → (c == 0x22) ≡ false
    → (c == 0x5c) ≡ false
    → Ahead l (c ∷ quote s ++ 0x22 ∷ t)
    → Bodies fuel (read l) (acc ++ c ∷ []) s t
    → Bodies (suc fuel) l acc (c ∷ s) t
unfolding Bodies
body-plain-next fuel l acc s t c z q b h r =
    let there : (not (l.ch == 0) && not (l.ch == 0x22)) ≡ true = rw (h.0, z, q) refl in
    let kept : acc ++ l.ch ∷ [] ≡ acc ++ c ∷ [] = ap (λ x. acc ++ x ∷ []) h.0 in
    rw (body-plain fuel l acc there (rw h.0 b), kept) (r.0 ∙ append_assoc_one acc c s, r.1)

abbrev is_special : ℕ → Bool
is_special c = c == 0x22 || c == 0x5c

quote-special : (c : ℕ) (s : Text) → is_special c ≡ true → quote (c ∷ s) ≡ 0x5c ∷ c ∷ quote s
quote-special c s h = elim (Bool-cases (c == 0x22)) [
  | inl t ↦ rw t (ap (λ x. 0x5c ∷ x ∷ quote s) (ground (arith, t)))
  | inr f ↦
      let t : (c == 0x5c) ≡ true = ground (arith, h, f) in
      rw (f, t) (ap (λ x. 0x5c ∷ x ∷ quote s) (ground (arith, t)))
]

quote-other : (c : ℕ) (s : Text) → is_special c ≡ false → quote (c ∷ s) ≡ c ∷ quote s
quote-other c s h =
    let f : (c == 0x22) ≡ false = ground (arith, h) in
    let g : (c == 0x5c) ≡ false = ground (arith, h) in rw (f, g) refl

escape-special : (c : ℕ) → is_special c ≡ true → escape c ≡ c
escape-special c h = ground (arith, h)

body-quote :
    (fuel : ℕ) (l : Lexer) (acc s t : Text)
    → Each not_nul s
    → Ahead l (quote s ++ 0x22 ∷ t)
    → length s ≤ fuel
    → Bodies fuel l acc s t
unfolding Bodies
body-quote fuel l acc [] t a h q = rw (body-end fuel l acc h.0) (sym (append_nil acc), h)
body-quote zero l acc (c ∷ s) t a h q = ground (arith, q)
body-quote (suc fuel) l acc (c ∷ s) t a h q =
    let z : (c == 0) ≡ false = ground (arith, a.0) in
    let q' : length s ≤ fuel = omega (arith, q) in
    elim (Bool-cases (is_special c)) [
      | inl y ↦
          let h' : Ahead l (0x5c ∷ c ∷ quote s ++ 0x22 ∷ t) =
            subst (λ w. Ahead l (w ++ 0x22 ∷ t)) (quote-special c s y) h in
          let h'' = read-Ahead (read l) c (quote s ++ 0x22 ∷ t) (read-Ahead l 0x5c _ h') in
          body-escaped-next fuel l acc s t c (escape-special c y) z h'
            (body-quote fuel (read (read l)) (acc ++ c ∷ []) s t a.1 h'' q')
      | inr n ↦
          let h' : Ahead l (c ∷ quote s ++ 0x22 ∷ t) =
            subst (λ w. Ahead l (w ++ 0x22 ∷ t)) (quote-other c s n) h in
          body-plain-next fuel l acc s t c z (ground (arith, n)) (ground (arith, n)) h'
            (body-quote fuel (read l) (acc ++ c ∷ []) s t a.1 (read-Ahead l c _ h') q')
    ]

module _ (u : Unicode) where
  pub next-string :
      (l : Lexer) (s t : Text)
      → Each not_nul s
      → Ahead l (0x22 ∷ quote s ++ 0x22 ∷ t)
      → Yields u l TokenType.string s t
  unfolding take_other take_string Bodies symbol
  next-string l s t a h =
      let there : (l.ch == 0) ≡ false = rw h.0 refl in
      let none_of : symbol l.ch (peek l) ≡ none = rw h.0 refl in
      let q : next u l ≡ take_string l =
        next-dispatch u l (rw h.0 refl, comment_at-other l (rw h.0 refl)) there
        ∙ (ap (dispatch u l) none_of
            ∙ (if_false {b = l.ch == 0x27} _ (rw h.0 refl)
                ∙ if_true {b = l.ch == 0x22} _ (rw h.0 refl))) in
      let l1 = read l in
      let h1 = read-Ahead l 0x22 (quote s ++ 0x22 ∷ t) h in
      let fuel = left-enough not_nul l1 (quote s) (0x22 ∷ t) refl (not_nul-quote s a) h1 in
      let b = body-quote (left l1) l1 [] s t a h1 (omega (arith, fuel, length-quote s)) in
      let l2 = (string_body (left l1) l1 []).1 in
      let closed : (l2.ch == 0x22) ≡ true = rw b.1.0 refl in
      rw (q, closed) (ap (λ w. token TokenType.string w l) b.0, read-Ahead l2 0x22 t b.1)
