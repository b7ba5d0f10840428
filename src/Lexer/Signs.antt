-- ===== src/Lexer/Signs.antt =====
-- internal/lexer/lexer.go, Next: punctuation of one and of two characters.
use ccomp.Base.{ℕ, ◌≡◌, ap, ◌∙◌, Bool, true, false, ◌∷◌, [], some, ◌==◌, arith}
use ccomp.Base.Text.{Text}
use ccomp.Lexer.{Lexer, read, peek}
use ccomp.Lexer.Token.{TokenType, Unicode, is_space}
use ccomp.Lexer.Scan.{comment_at, Comment}
use ccomp.Lexer.Next.{symbol, token, take_symbol, dispatch, next}
use ccomp.Lexer.Ahead.{Ahead, read-Ahead, peek-Ahead}
use ccomp.Lexer.Words.{next-dispatch, comment_at-other, Yields}

-- What `symbol` starts with, and what it leaves to the other cases.
pub symbol-start :
    (c n : ℕ) (s : TokenType × Bool)
    → symbol c n ≡ some s
    → (is_space c ≡ false) × ((c == 0) ≡ false)
unfolding symbol
symbol-start c n s h = ground (arith, h)

pub symbol-slash : (c n : ℕ) (k : TokenType) → symbol c n ≡ some (k, true) → (c == b'/') ≡ false
unfolding symbol
symbol-slash c n k h = ground (arith, h)

pub comment_at-single :
    (l : Lexer)
    → (peek l == b'/') ≡ false
    → (peek l == b'*') ≡ false
    → comment_at l ≡ Comment.no_comment
unfolding comment_at
comment_at-single l h k = ground (arith, h, k)

module _ (u : Unicode) where
  pub next-sign :
      (l : Lexer) (c d : ℕ) (k : TokenType) (t : Text)
      → symbol c d ≡ some (k, false)
      → (d == b'/') ≡ false
      → (d == b'*') ≡ false
      → Ahead l (c ∷ d ∷ t)
      → Yields u l k (c ∷ []) (d ∷ t)
  unfolding take_symbol
  next-sign l c d k t e n m h =
      let sp = symbol-start c d (k, false) e in
      let pk = peek-Ahead l c d t h in
      let e' : symbol l.ch (peek l) ≡ some (k, false) = rw (h.0, pk) e in
      let there : (l.ch == 0) ≡ false = rw h.0 sp.1 in
      let q : next u l ≡ (token k (l.ch ∷ []) l, read l) =
        next-dispatch u l (rw h.0 sp.0, comment_at-single l (rw pk n) (rw pk m)) there
        ∙ ap (dispatch u l) e' in
      rw q (ap (λ x. token k (x ∷ []) l) h.0, read-Ahead l c (d ∷ t) h)

  pub next-signs :
      (l : Lexer) (c d : ℕ) (k : TokenType) (t : Text)
      → symbol c d ≡ some (k, true)
      → Ahead l (c ∷ d ∷ t)
      → Yields u l k (c ∷ d ∷ []) t
  unfolding take_symbol
  next-signs l c d k t e h =
      let sp = symbol-start c d (k, true) e in
      let pk = peek-Ahead l c d t h in
      let e' : symbol l.ch (peek l) ≡ some (k, true) = rw (h.0, pk) e in
      let there : (l.ch == 0) ≡ false = rw h.0 sp.1 in
      let q : next u l ≡ (token k (l.ch ∷ peek l ∷ []) l, read (read l)) =
        next-dispatch u l (rw h.0 sp.0, comment_at-other l (rw h.0 (symbol-slash c d k e))) there
        ∙ ap (dispatch u l) e' in
      rw q (
        rw pk (ap (λ x. token k (x ∷ d ∷ []) l) h.0),
        read-Ahead (read l) d t (read-Ahead l c (d ∷ t) h),
      )
