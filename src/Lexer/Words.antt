-- ===== src/Lexer/Words.antt =====
-- internal/lexer/lexer.go, Next: what it makes of a word that is spelled ahead.
use ccomp.Base.{
  ℕ, suc, ◌<◌, ◌≡◌, refl, ap, ◌∙◌, Bool, true, false, ◌||◌, ◌∷◌, [], ◌++◌, none, ◌==◌, ==_iff,
  if_true, if_false, arith,
}
use ccomp.Base.Text.{Text}
use ccomp.Lexer.{Lexer, read, peek, left}
use ccomp.Lexer.Token.{TokenType, Unicode, is_space, ascii_letter, ascii_digit}
use ccomp.Lexer.Scan.{collect, comment_at, Comment}
use ccomp.Lexer.Next.{
  symbol, keyword, token, take_name, take_number, take_other, dispatch, lex_at, next, name_start,
  name_rest,
}
use ccomp.Lexer.Progress.{IsTokenStart}
use ccomp.Lexer.Stream.{next_lem, skip_none}
use ccomp.Lexer.Ahead.{
  Ahead, Ends, Each, read-Ahead, left-enough, ch-Ends, append_assoc_one, collect-Ahead,
}

abbrev pub ascii_name_start : ℕ → Bool
ascii_name_start c = ascii_letter c || c == b'_'

abbrev pub ascii_name_rest : ℕ → Bool
ascii_name_rest c = ascii_letter c || ascii_digit c || c == b'_'

symbol-name : (c n : ℕ) → ascii_name_start c ≡ true → symbol c n ≡ none
unfolding symbol
symbol-name c n h = ground (arith, h)

symbol-digit : (c n : ℕ) → ascii_digit c ≡ true → symbol c n ≡ none
unfolding symbol
symbol-digit c n h = ground (arith, h)

pub comment_at-other : (l : Lexer) → (l.ch == b'/') ≡ false → comment_at l ≡ Comment.no_comment
unfolding comment_at
comment_at-other l h = rw h refl

ascii_name_rest-lt : (c : ℕ) → ascii_name_rest c ≡ true → c < 128
ascii_name_rest-lt c h = ground (arith, h)

ascii_name_start-rest : (c : ℕ) → ascii_name_start c ≡ true → ascii_name_rest c ≡ true
ascii_name_start-rest c h = ground (arith, h)

ascii_digit-lt : (c : ℕ) → ascii_digit c ≡ true → c < 128
ascii_digit-lt c h = ground (arith, h)

-- A character that starts no other token than a name or a number, where those are.
abbrev pub IsPlainStart : ℕ → Type 0
IsPlainStart c =
    (((c == 0) ≡ false) × (is_space c ≡ false))
    × (((c == b'/') ≡ false) × (((c == 0x27) ≡ false) × ((c == 0x22) ≡ false)))

pub ascii_name_start-plain : (c : ℕ) → ascii_name_start c ≡ true → IsPlainStart c
ascii_name_start-plain c h = ground (arith, h)

pub ascii_digit-plain : (c : ℕ) → ascii_digit c ≡ true → IsPlainStart c
ascii_digit-plain c h = ground (arith, h)

Each-imp : (p q : ℕ → Bool) (s : Text) → ((c : ℕ) → p c ≡ true → q c ≡ true) → Each p s → Each q s
Each-imp p q [] f h = tt
Each-imp p q (c ∷ s) f h = (f c h.0, Each-imp p q s f h.1)

module _ (u : Unicode) where
  pub name_rest-ascii : (c : ℕ) → c < 128 → name_rest u c ≡ ascii_name_rest c
  name_rest-ascii c h = rw (u.letter_ascii c h, u.digit_ascii c h) refl

  name_start-ascii : (c : ℕ) → c < 128 → name_start u c ≡ ascii_name_start c
  name_start-ascii c h = rw (u.letter_ascii c h) refl

  name_rest-yes : (c : ℕ) → ascii_name_rest c ≡ true → name_rest u c ≡ true
  name_rest-yes c h = name_rest-ascii c (ascii_name_rest-lt c h) ∙ h

  digit-yes : (c : ℕ) → ascii_digit c ≡ true → u.is_digit c ≡ true
  digit-yes c h = u.digit_ascii c (ascii_digit-lt c h) ∙ h

  pub next-dispatch :
      (l : Lexer)
      → IsTokenStart l
      → (l.ch == 0) ≡ false
      → next u l ≡ dispatch u l (symbol l.ch (peek l))
  unfolding lex_at
  next-dispatch l h f = next_lem u l ∙ (ap (lex_at u) (skip_none (suc (left l)) l h) ∙ rw f refl)

  -- What is spelled by `s`, from `l` on, and ends before `t`.
  abbrev pub Yields : Lexer → TokenType → Text → Text → Type 0
  Yields l k s t = ((next u l).0 ≡ token k s l) × Ahead (next u l).1 t

  pub next-other :
      (l : Lexer) → IsPlainStart l.ch → symbol l.ch (peek l) ≡ none → next u l ≡ take_other u l
  next-other l p n =
      next-dispatch l (p.0.1, comment_at-other l p.1.0) p.0.0
      ∙ (ap (dispatch u l) n ∙ if_false _ p.1.1.0)

  take_name-Ahead :
      (l : Lexer) (c : ℕ) (s t : Text)
      → Each ascii_name_rest s
      → Ends (name_rest u) t
      → Ahead l (c ∷ s ++ t)
      → ((take_name u l).0 ≡ token (keyword (c ∷ s)) (c ∷ s) l) × Ahead (take_name u l).1 t
  unfolding take_name
  take_name-Ahead l c s t a e h =
      let z = name_rest-ascii 0 (omega arith) in
      let a' = Each-imp ascii_name_rest (name_rest u) s name_rest-yes a in
      let h' = read-Ahead l c (s ++ t) h in
      let fuel = left-enough (name_rest u) (read l) s t z a' h' in
      let r = collect-Ahead (name_rest u) (left (read l)) (read l) (l.ch ∷ []) s t z a' e h' fuel in
      (ap (λ w. token (keyword w) w l) (r.0 ∙ ap (λ d. d ∷ s) h.0), r.1)

  -- A name, or a keyword.
  pub next-name :
      (l : Lexer) (c : ℕ) (s t : Text)
      → ascii_name_start c ≡ true
      → Each ascii_name_rest s
      → Ends (name_rest u) t
      → Ahead l (c ∷ s ++ t)
      → Yields l (keyword (c ∷ s)) (c ∷ s) t
  unfolding take_other
  next-name l c s t b a e h =
      let b' : ascii_name_start l.ch ≡ true = rw h.0 b in
      let p = ascii_name_start-plain l.ch b' in
      let q : next u l ≡ take_name u l =
        next-other l p (symbol-name l.ch (peek l) b')
        ∙ (if_false _ p.1.1.1
            ∙ if_true _ (
                name_start-ascii l.ch (ascii_name_rest-lt l.ch (ascii_name_start-rest l.ch b'))
                ∙ b')) in
      rw q (take_name-Ahead l c s t a e h)

  digit-zero : u.is_digit 0 ≡ false
  digit-zero = u.digit_ascii 0 (omega arith)

  -- A run of digits from the next character on.
  digits-Ahead :
      (l : Lexer) (c : ℕ) (acc s t : Text)
      → Each ascii_digit s
      → Ends u.is_digit t
      → Ahead l (c ∷ s ++ t)
      → let r = collect u.is_digit (left (read l)) (read l) acc in (r.0 ≡ acc ++ s) × Ahead r.1 t
  digits-Ahead l c acc s t a e h =
      let a' = Each-imp ascii_digit u.is_digit s digit-yes a in
      let h' = read-Ahead l c (s ++ t) h in
      let fuel = left-enough u.is_digit (read l) s t digit-zero a' h' in
      collect-Ahead u.is_digit (left (read l)) (read l) acc s t digit-zero a' e h' fuel

  pub take_number-int :
      (l : Lexer) (c : ℕ) (s t : Text)
      → Each ascii_digit s
      → Ends u.is_digit t
      → Ends (λ d. d == b'.') t
      → Ahead l (c ∷ s ++ t)
      → ((take_number u l).0 ≡ token TokenType.int (c ∷ s) l) × Ahead (take_number u l).1 t
  unfolding take_number
  take_number-int l c s t a e n h =
      let r = digits-Ahead l c (l.ch ∷ []) s t a e h in
      let l2 = (collect u.is_digit (left (read l)) (read l) (l.ch ∷ [])).1 in
      rw (ch-Ends (λ d. d == b'.') l2 t refl n r.1)
        (ap (λ w. token TokenType.int w l) (r.0 ∙ ap (λ d. d ∷ s) h.0), r.1)

  pub take_number-float :
      (l : Lexer) (c : ℕ) (s f t : Text)
      → Each ascii_digit s
      → Each ascii_digit f
      → Ends u.is_digit t
      → Ahead l (c ∷ s ++ (b'.' ∷ f ++ t))
      → ((take_number u l).0 ≡ token TokenType.float (c ∷ s ++ b'.' ∷ f) l)
        × Ahead (take_number u l).1 t
  unfolding take_number
  take_number-float l c s f t a b e h =
      let r =
        digits-Ahead l c (l.ch ∷ []) s (b'.' ∷ f ++ t) a (u.digit_ascii b'.' (omega arith)) h in
      let (num, l2) = collect u.is_digit (left (read l)) (read l) (l.ch ∷ []) in
      let q = digits-Ahead l2 b'.' (num ++ l2.ch ∷ []) f t b e r.1 in
      let spelled : (num ++ l2.ch ∷ []) ++ f ≡ c ∷ s ++ b'.' ∷ f =
        append_assoc_one num l2.ch f ∙ rw (r.0, r.1.0) (ap (λ d. d ∷ s ++ b'.' ∷ f) h.0) in
      rw ((==_iff l2.ch b'.').1 r.1.0) (ap (λ w. token TokenType.float w l) (q.0 ∙ spelled), q.1)

  pub next-number :
      (l : Lexer) (c : ℕ) (t : Text)
      → ascii_digit c ≡ true
      → Ahead l (c ∷ t)
      → next u l ≡ take_number u l
  unfolding take_other
  next-number l c t b h =
      let b' : ascii_digit l.ch ≡ true = rw h.0 b in
      let p = ascii_digit-plain l.ch b' in
      let no : name_start u l.ch ≡ false =
        name_start-ascii l.ch (ascii_digit-lt l.ch b') ∙ ground (arith, b') in
      next-other l p (symbol-digit l.ch (peek l) b')
      ∙ (if_false _ p.1.1.1 ∙ (if_false _ no ∙ if_true _ (digit-yes l.ch b')))
