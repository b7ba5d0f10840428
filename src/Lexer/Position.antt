-- ===== src/Lexer/Position.antt =====
-- internal/lexer/lexer.go: the line and the column that `read` counts, and those of a token.
use ccomp.Base.{
  ℕ, zero, suc, ◌+◌, ◌≤◌, ◌≡◌, refl, sym, ap, ◌∙◌, ◌⊎◌, inl, inr, Bool, true, false, ◌||◌, ◌∷◌, [],
  ◌++◌, Option, none, some, ◌==◌, ==_iff, Bool-cases, Option-cases, if◌then◌else◌, if_true,
  if_false, if_both, arith, length, get_elem?, get_elem?-lt, take, any,
}
use ccomp.Base.Text.{Text}
use ccomp.Lexer.{Lexer, load, read, peek, start, left}
use ccomp.Lexer.Token.{TokenType, Token, Unicode, is_space}
use ccomp.Lexer.Scan.{skip}
use ccomp.Lexer.Next.{
  symbol, take_symbol, take_char, take_string, take_name, take_number, take_other, dispatch, lex_at,
  next, name_start,
}
use ccomp.Lexer.Reads.{Reads, Reads_trans, skip-Reads}
use ccomp.Lexer.Stream.{next_lem, start_of}

abbrev is_newline : ℕ → Bool
is_newline c = c == 10

abbrev newlines : Text → ℕ
newlines [] = 0
newlines (c ∷ s) = (if is_newline c then 1 else 0) + newlines s

-- How many characters stand behind the last newline.
abbrev column : Text → ℕ
column [] = 0
column (c ∷ s) = if any is_newline (c ∷ s) then column s else suc (length s)

newlines-snoc :
    (s : Text) (c : ℕ) → newlines (s ++ c ∷ []) ≡ newlines s + (if is_newline c then 1 else 0)
newlines-snoc [] c = omega arith
newlines-snoc (d ∷ s) c = omega (arith, newlines-snoc s c)

any-snoc : (s : Text) (c : ℕ) → any is_newline (s ++ c ∷ []) ≡ (any is_newline s || is_newline c)
any-snoc [] c = ground arith
any-snoc (d ∷ s) c = ground (arith, any-snoc s c)

length-snoc : (s : Text) (c : ℕ) → length (s ++ c ∷ []) ≡ suc (length s)
length-snoc [] c = refl
length-snoc (d ∷ s) c = ap suc (length-snoc s c)

column-snoc :
    (s : Text) (c : ℕ) → column (s ++ c ∷ []) ≡ (if is_newline c then 0 else suc (column s))
column-snoc [] c = ground arith
column-snoc (d ∷ s) c = ground (arith, any-snoc s c, length-snoc s c, column-snoc s c)

take-snoc : (s : Text) (n c : ℕ) → get_elem? s n ≡ some c → take (suc n) s ≡ take n s ++ c ∷ []
take-snoc [] n c e = cc
take-snoc (d ∷ s) zero c e = cc
take-snoc (d ∷ s) (suc n) c e = ap (λ t. d ∷ t) (take-snoc s n c e)

-- The line, counted from 1, and the column that a text ends at.
abbrev pub place : Text → ℕ × ℕ
place s = (suc (newlines s), column s)

-- The last of the first n characters is c, or all are read and c is 0.
abbrev IsAt : Text → ℕ → ℕ → Type 0
IsAt src n c = ((k : ℕ) × ((n ≡ suc k) × (get_elem? src k ≡ some c))) ⊎ ((c ≡ 0) × (length src ≤ n))

pub record Placed (src : Text) (l : Lexer) : Type 0 where
  pub same : l.src ≡ src
  pub within : l.i ≤ length src
  pub counted : (l.line, l.col) ≡ place (take l.i src)

abbrev pub Counts : Text → Lexer → Type 0
Counts src l = Placed src l × IsAt src l.i l.ch

load-none : (src : Text) (l : Lexer) → Placed src l → length src ≤ l.i → Counts src (load l none)
load-none src l h e =
    (record { same = h.same; within = h.within; counted = h.counted }, inr (refl, e))

pair_eq : {a b c d : ℕ} → a ≡ c → b ≡ d → ◌≡◌ {A = ℕ × ℕ} (a, b) (c, d)
pair_eq p q = cc

place-snoc :
    (s : Text) (c : ℕ)
    → place (s ++ c ∷ [])
      ≡ (if c == 10 then ((place s).0 + 1, 0) else ((place s).0, (place s).1 + 1))
place-snoc s c =
    rw (newlines-snoc s c, column-snoc s c)
      (elim (Bool-cases (c == 10)) [
        | inl t ↦ rw t (ap (λ (n : ℕ). (n, 0)) (omega arith))
        | inr f ↦ rw f (pair_eq (omega arith) (omega arith))
      ])

place-step :
    (src : Text) (l : Lexer) (c : ℕ)
    → Placed src l
    → get_elem? src l.i ≡ some c
    → place (take (l.i + 1) src) ≡ (if c == 10 then (l.line + 1, 0) else (l.line, l.col + 1))
place-step src l c h e =
    ap (λ n. place (take n src)) {y = suc l.i} (omega arith)
    ∙ (ap place (take-snoc src l.i c e)
        ∙ (place-snoc (take l.i src) c
            ∙ ap (λ (p : ℕ × ℕ). if c == 10 then (p.0 + 1, 0) else (p.0, p.1 + 1)) (sym h.counted)))

load-some :
    (src : Text) (l : Lexer) (c : ℕ)
    → Placed src l
    → get_elem? src l.i ≡ some c
    → Counts src (load l (some c))
load-some src l c h e =
    let p = place-step src l c h e in
    let within : l.i + 1 ≤ length src = omega (arith, get_elem?-lt src l.i c e) in
    let at : IsAt src (l.i + 1) c = inl (l.i, (omega arith, e)) in
    elim (Bool-cases (c == 10)) [
      | inl t ↦
          rw (t, load)
            (record { same = h.same; within = within; counted = sym (p ∙ if_true _ t) }, at)
      | inr f ↦
          rw (f, load)
            (record { same = h.same; within = within; counted = sym (p ∙ if_false _ f) }, at)
    ]

get_elem?-none : (s : Text) (n : ℕ) → get_elem? s n ≡ none → length s ≤ n
get_elem?-none [] n e = omega arith
get_elem?-none (c ∷ s) zero e = cc
get_elem?-none (c ∷ s) (suc n) e = omega (arith, get_elem?-none s n e)

-- Each `read` keeps the count, and so does all that the lexer does.
read-Counts : (src : Text) (l : Lexer) → Placed src l → Counts src (read l)
unfolding read
read-Counts src l h =
    let q : get_elem? src l.i ≡ get_elem? l.src l.i = ap (λ s. get_elem? s l.i) (sym h.same) in
    elim (Option-cases (get_elem? l.src l.i)) [
      | inl e ↦ rw e (load-none src l h (get_elem?-none src l.i (q ∙ e)))
      | inr (c, e) ↦ rw e (load-some src l c h (q ∙ e))
    ]

Reads-Counts : (src : Text) (l m : Lexer) → Reads l m → Counts src l → Counts src m
Reads-Counts src l m Reads.here h = h
Reads-Counts src l m (Reads.step {m = k} r) h = read-Counts src k (Reads-Counts src l k r h).0

start-Counts : (src : Text) → Counts src (start src)
unfolding start
start-Counts src =
    read-Counts src (record { src = src; i = 0; ch = 0; line = 1; col = 0 })
      (record { same = refl; within = omega arith; counted = refl })

abbrev Marks : Lexer → Token × Lexer → Type 0
Marks l r = ◌≡◌ {A = ℕ × ℕ} (r.0.line, r.0.col) (l.line, l.col)

take_symbol-Marks : (l : Lexer) (s : TokenType × Bool) → Marks l (take_symbol l s)
unfolding take_symbol
take_symbol-Marks l (t, true) = refl
take_symbol-Marks l (t, false) = refl

-- How many characters `Next` has read when its token starts, the token's first included.
abbrev pub token_at : Lexer → ℕ
token_at l = (skip (suc (left l)) l).i

module _ (u : Unicode) where
  take_other-Marks : (l : Lexer) → Marks l (take_other u l)
  unfolding take_other take_string take_name take_number
  take_other-Marks l = if_both (Marks l) (l.ch == 0x22) _ _ refl (
      if_both (Marks l) (name_start u l.ch) _ _ refl
        (if_both (Marks l) (u.is_digit l.ch) _ _ (if_both (Marks l) _ _ _ refl refl) refl))

  dispatch-Marks : (l : Lexer) (s : Option (TokenType × Bool)) → Marks l (dispatch u l s)
  unfolding take_char
  dispatch-Marks l (some s) = take_symbol-Marks l s
  dispatch-Marks l none = if_both (Marks l) (l.ch == 0x27) _ _ refl (take_other-Marks l)

  lex_at-Marks : (l : Lexer) → Marks l (lex_at u l)
  unfolding lex_at
  lex_at-Marks l = if_both (Marks l) (l.ch == 0) _ _ refl (dispatch-Marks l (symbol l.ch (peek l)))

  lex_at-end : (l : Lexer) → (l.ch == 0) ≡ true → (lex_at u l).0.type ≡ TokenType.eof
  unfolding lex_at
  lex_at-end l t = rw t refl

  -- Where reading has brought a lexer from the start of a text to where it is, the next token
  -- has the line and the column of the end of what is read when the token starts. Either the
  -- token is EOF, or the last character read is no space.
  pub next-place :
      (src : Text) (l : Lexer)
      → Reads (start src) l
      → (((next u l).0.line, (next u l).0.col) ≡ place (take (token_at l) src))
        × (((next u l).0.type ≡ TokenType.eof)
            ⊎ ((c k : ℕ) × ((token_at l ≡ suc k)
                  × ((get_elem? src k ≡ some c) × (is_space c ≡ false)))))
  next-place src l r =
      let m = skip (suc (left l)) l in
      let h =
        Reads-Counts src (start src) m (Reads_trans r (skip-Reads (suc (left l)) l))
          (start-Counts src) in
      (
        rw (next_lem u l) (lex_at-Marks m ∙ h.0.counted),
        elim h.1 [
          | inl (k, (e, g)) ↦ inr (m.ch, k, (e, (g, (start_of l).0)))
          | inr (z, _) ↦ inl (rw (next_lem u l) (lex_at-end m ((==_iff m.ch 0).1 z)))
        ],
      )
