-- ===== src/Lexer/Print.antt =====
-- internal/lexer/lexer.go: words printed with spaces between them, read back.
use ccomp.Base.{
  ℕ, zero, suc, ◌<◌, ◌≡◌, ◌≢◌, refl, sym, subst, ap, ◌∙◌, inl, inr, Bool, true, false, List, ◌∷◌,
  [], ◌++◌, some, ◌==◌, Bool-cases, arith, length, All, map,
}
use ccomp.Base.Text.{Text}
use ccomp.Lexer.{Lexer, read, start, left}
use ccomp.Lexer.Token.{TokenType, Token, Unicode, is_space, ascii_digit}
use ccomp.Lexer.Scan.{skip_while, spaces, skip}
use ccomp.Lexer.Next.{symbol, token, lex_at, next}
use ccomp.Lexer.Vocabulary.{
  name_type, signs_of_one, signs_of_two, Listed, keyword_table, symbol-one, symbol-two,
}
use ccomp.Lexer.Progress.{IsTokenStart, read-left}
use ccomp.Lexer.Kind.{lex_at-eof}
use ccomp.Lexer.Stream.{next_lem, skip_none, skip_while_none, is_eof, is_eof_iff, tokens}
use ccomp.Lexer.Ahead.{Ahead, Each, read-Ahead, peek-Ahead, start-Ahead}
use ccomp.Lexer.Words.{
  ascii_name_start, ascii_name_rest, ascii_name_start-plain, ascii_digit-plain, comment_at-other,
  name_rest-ascii, next-name, next-number, take_number-int, take_number-float, Yields,
}
use ccomp.Lexer.Signs.{symbol-start, symbol-slash, comment_at-single, next-sign, next-signs}
use ccomp.Lexer.Strings.{quote, not_nul, next-string}

-- The words of the language that are printed: a name or keyword, numbers with at least one digit in
-- front, punctuation of one or two characters, and a string by what it stands for.
pub data Word : Type 0 where
  name int : ℕ → Text → Word
  float : ℕ → Text → Text → Word
  sign : ℕ → TokenType → Word
  signs : ℕ → ℕ → TokenType → Word
  literal : Text → Word

abbrev pub IsWord : Word → Type 0
IsWord (Word.name c s) = (ascii_name_start c ≡ true) × Each ascii_name_rest s
IsWord (Word.int c s) = (ascii_digit c ≡ true) × Each ascii_digit s
IsWord (Word.float c s f) = (ascii_digit c ≡ true) × (Each ascii_digit s × Each ascii_digit f)
IsWord (Word.sign c k) = Listed (c, k) signs_of_one
IsWord (Word.signs c d k) = Listed (c, d, k) signs_of_two
IsWord (Word.literal s) = Each not_nul s

abbrev pub spell : Word → Text
spell (Word.name c s) = c ∷ s
spell (Word.int c s) = c ∷ s
spell (Word.float c s f) = c ∷ s ++ (b'.' ∷ f)
spell (Word.sign c k) = c ∷ []
spell (Word.signs c d k) = c ∷ d ∷ []
spell (Word.literal s) = 0x22 ∷ quote s ++ 0x22 ∷ []

-- The type that the tables of the language give, and the spelling.
abbrev pub kind : Word → TokenType × Text
kind (Word.name c s) = (name_type (c ∷ s), c ∷ s)
kind (Word.int c s) = (TokenType.int, c ∷ s)
kind (Word.float c s f) = (TokenType.float, c ∷ s ++ (b'.' ∷ f))
kind (Word.sign c k) = (k, c ∷ [])
kind (Word.signs c d k) = (k, c ∷ d ∷ [])
kind (Word.literal s) = (TokenType.string, s)

-- A space, each word, and a space behind it.
abbrev pub print : List Word → Text
print [] = b' ' ∷ []
print (w ∷ ws) = b' ' ∷ spell w ++ print ws

append_assoc : (r s t : Text) → (r ++ s) ++ t ≡ r ++ (s ++ t)
append_assoc [] s t = refl
append_assoc (c ∷ r) s t = ap (λ x. c ∷ x) (append_assoc r s t)

abbrev Starts : Lexer → Type 0
Starts l = IsTokenStart l × ((l.ch == 0) ≡ false)

sign-Starts :
    (l : Lexer) (c d : ℕ) (k : TokenType) (t : Text)
    → symbol c d ≡ some (k, false)
    → (d == b'/') ≡ false
    → (d == b'*') ≡ false
    → Ahead l (c ∷ d ∷ t)
    → Starts l
sign-Starts l c d k t e n m h =
    let p = symbol-start c d (k, false) e in
    let q = peek-Ahead l c d t h in
    ((rw h.0 p.0, comment_at-single l (rw q n) (rw q m)), rw h.0 p.1)

word-Starts :
    (l : Lexer) (w : Word) (t : Text) → IsWord w → Ahead l (spell w ++ b' ' ∷ t) → Starts l
word-Starts l (Word.name c s) t a h =
    let p = ascii_name_start-plain c a.0 in
    ((rw h.0 p.0.1, comment_at-other l (rw h.0 p.1.0)), rw h.0 p.0.0)
word-Starts l (Word.int c s) t a h =
    let p = ascii_digit-plain c a.0 in
    ((rw h.0 p.0.1, comment_at-other l (rw h.0 p.1.0)), rw h.0 p.0.0)
word-Starts l (Word.float c s f) t a h =
    let p = ascii_digit-plain c a.0 in
    ((rw h.0 p.0.1, comment_at-other l (rw h.0 p.1.0)), rw h.0 p.0.0)
word-Starts l (Word.sign c k) t a h = sign-Starts l c b' ' k t (symbol-one c k a) refl refl h
word-Starts l (Word.signs c d k) t a h =
    let e = symbol-two c d k a in
    let p = symbol-start c d (k, true) e in
    ((rw h.0 p.0, comment_at-other l (rw h.0 (symbol-slash c d k e))), rw h.0 p.1)
word-Starts l (Word.literal s) t a h =
    ((rw h.0 refl, comment_at-other l (rw h.0 refl)), rw h.0 refl)

print-space : (ws : List Word) → (t : Text) × (print ws ≡ b' ' ∷ t)
print-space [] = ([], refl)
print-space (w ∷ ws) = (spell w ++ print ws, refl)

is_eof-false : (k : TokenType) → k ≢ TokenType.eof → is_eof k ≡ false
is_eof-false k h = elim (Bool-cases (is_eof k)) [
  | inl t ↦ elim (h ((is_eof_iff k).0 t)) [ ]
  | inr f ↦ f
]

cons_eq {ℓ} : {A : Type ℓ} {x y : A} {xs ys : List A} → x ≡ y → xs ≡ ys → x ∷ xs ≡ y ∷ ys
cons_eq p q = cc

skip_while-one :
    (p : ℕ → Bool) (fuel : ℕ) (l : Lexer)
    → p l.ch ≡ true
    → p (read l).ch ≡ false
    → 0 < fuel
    → skip_while p fuel l ≡ read l
unfolding skip_while
skip_while-one p zero l t f q = ground (arith, q)
skip_while-one p (suc fuel) l t f q = rw (t, skip_while) (skip_while_none p fuel (read l) f)

skip-space :
    (fuel : ℕ) (l : Lexer) → l.ch ≡ b' ' → IsTokenStart (read l) → skip (suc fuel) l ≡ read l
unfolding skip spaces
skip-space fuel l e h =
    let there : (l.ch == 0) ≡ false = rw e refl in
    let q : spaces l ≡ read l =
      skip_while-one is_space (left l) l (rw e refl) h.0 (ground (arith, read-left l there)) in
    rw (q, h.1) refl

abbrev pub kind_of : Token → TokenType × Text
kind_of t = (t.type, t.lex)

module _ (u : Unicode) where
  digit-other : (d : ℕ) → d < 128 → ascii_digit d ≡ false → u.is_digit d ≡ false
  digit-other d h e = u.digit_ascii d h ∙ e

  -- One word, where a space follows.
  next-word :
      (l : Lexer) (w : Word) (t : Text)
      → IsWord w
      → Ahead l (spell w ++ b' ' ∷ t)
      → Yields u l (kind w).0 (kind w).1 (b' ' ∷ t)
  next-word l (Word.name c s) t a h =
      rw (← keyword_table (c ∷ s))
        (next-name u l c s (b' ' ∷ t) a.0 a.1 (name_rest-ascii u b' ' (omega arith)) h)
  next-word l (Word.int c s) t a h =
      rw (next-number u l c _ a.0 h)
        (take_number-int u l c s (b' ' ∷ t) a.1 (digit-other b' ' (omega arith) refl) refl h)
  next-word l (Word.float c s f) t a h =
      let h' : Ahead l (c ∷ s ++ (b'.' ∷ f ++ b' ' ∷ t)) =
        subst (λ r. Ahead l (c ∷ r)) (append_assoc s (b'.' ∷ f) (b' ' ∷ t)) h in
      rw (next-number u l c _ a.0 h) (
        take_number-float u l c s f (b' ' ∷ t) a.1.0 a.1.1 (digit-other b' ' (omega arith) refl) h')
  next-word l (Word.sign c k) t a h = next-sign u l c b' ' k t (symbol-one c k a) refl refl h
  next-word l (Word.signs c d k) t a h = next-signs u l c d k (b' ' ∷ t) (symbol-two c d k a) h
  next-word l (Word.literal s) t a h =
      next-string u l s (b' ' ∷ t) a
        (subst (λ r. Ahead l (0x22 ∷ r)) (append_assoc (quote s) (0x22 ∷ []) (b' ' ∷ t)) h)

  next-space : (l : Lexer) → l.ch ≡ b' ' → IsTokenStart (read l) → next u l ≡ next u (read l)
  next-space l e h =
      next_lem u l
      ∙ (ap (lex_at u)
            (skip-space (left l) l e h ∙ sym (skip_none (suc (left (read l))) (read l) h))
          ∙ sym (next_lem u (read l)))

  next-end : (l : Lexer) → l.ch ≡ 0 → next u l ≡ (token TokenType.eof [] l, l)
  unfolding lex_at
  next-end l z =
      let t : (l.ch == 0) ≡ true = rw z refl in
      let h : IsTokenStart l = (rw z refl, comment_at-other l (rw z refl)) in
      next_lem u l ∙ (ap (lex_at u) (skip_none (suc (left l)) l h) ∙ rw t refl)

  next-eof : (l : Lexer) → Starts l → (next u l).0.type ≢ TokenType.eof
  next-eof l h = rw (next_lem u l, skip_none (suc (left l)) l h.0) (lex_at-eof u l h.1)

  tokens-Ahead :
      (fuel : ℕ) (ws : List Word) (l : Lexer)
      → All IsWord ws
      → Ahead l (print ws)
      → length ws < fuel
      → map kind_of (tokens u fuel l) ≡ map kind ws ++ (TokenType.eof, []) ∷ []
  unfolding tokens
  tokens-Ahead zero ws l a h q = ground (arith, q)
  tokens-Ahead (suc fuel) [] l a h q =
      let m = read l in
      let h' = read-Ahead l b' ' [] h in
      let s : IsTokenStart m = (rw h'.0 refl, comment_at-other m (rw h'.0 refl)) in
      rw (next-space l h.0 s ∙ next-end m h'.0) refl
  tokens-Ahead (suc fuel) (w ∷ ws) l a h q =
      let m = read l in
      let (t, e) = print-space ws in
      let h' : Ahead m (spell w ++ b' ' ∷ t) =
        subst (λ r. Ahead m (spell w ++ r)) e (read-Ahead l b' ' _ h) in
      let s = word-Starts m w t a.0 h' in
      let y = next-word m w t a.0 h' in
      let more : is_eof (next u m).0.type ≡ false = is_eof-false (next u m).0.type (next-eof m s) in
      let h'' : Ahead (next u m).1 (print ws) = subst (λ r. Ahead (next u m).1 r) (sym e) y.1 in
      let rest = tokens-Ahead fuel ws (next u m).1 a.1 h'' (omega (arith, q)) in
      rw (next-space l h.0 s.0, more) (cons_eq (ap kind_of y.0) rest)

  -- Names of ASCII letters, digits and underscores, numbers of ASCII digits, the punctuation that
  -- the language lists, and strings without NUL, whose quotes and backslashes are escaped, printed with
  -- a space between each and the next, are read back as they were: the tokens of the text are
  -- those of the words in their order, by spelling and type, and EOF. The types of keywords and of
  -- punctuation are those of the language's tables.
  pub tokens-print :
      (ws : List Word)
      → All IsWord ws
      → map kind_of (tokens u (suc (length ws)) (start (print ws)))
        ≡ map kind ws ++ (TokenType.eof, []) ∷ []
  tokens-print ws a =
      tokens-Ahead (suc (length ws)) ws (start (print ws)) a (start-Ahead (print ws)) (omega arith)
