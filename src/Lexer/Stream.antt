-- ===== src/Lexer/Stream.antt =====
-- tools/debug_tokens.go: the tokens up to EOF, as its loop and the parser read them.
use ccomp.Base.{
  ℕ, zero, suc, sym, ◌∙◌, ◌<◌, ◌≡◌, ◌≢◌, refl, ◌↔◌, ◌⊎◌, inl, inr, Bool, true, false, List, ◌∷◌, [],
  ◌==◌, Bool-cases, if◌then◌else◌, arith,
}
use ccomp.Lexer.{Lexer, left}
use ccomp.Lexer.Token.{TokenType, Token, Unicode, is_space}
use ccomp.Lexer.Scan.{skip_while, spaces, skip}
use ccomp.Lexer.Next.{token, lex_at, next}
use ccomp.Lexer.Reads.{skip-Reads, lex_at-Takes}
use ccomp.Lexer.Progress.{IsTokenStart, skip-IsTokenStart, read-left, Reads-left}
use ccomp.Lexer.Kind.{lex_at-eof}

abbrev pub is_eof : TokenType → Bool
is_eof TokenType.eof = true
is_eof _ = false

pub is_eof_iff : (t : TokenType) → (is_eof t ≡ true) ↔ (t ≡ TokenType.eof)
is_eof_iff t = ground arith

-- The first EOF ends the list, and there is one.
unfoldable pub EndsWithEof : List Token → Type 0
EndsWithEof [] = ⊥
EndsWithEof (t ∷ []) = t.type ≡ TokenType.eof
EndsWithEof (t ∷ s ∷ ts) = (t.type ≢ TokenType.eof) × EndsWithEof (s ∷ ts)

EndsWithEof-∷ :
    (t : Token) (ts : List Token) → t.type ≢ TokenType.eof → EndsWithEof ts → EndsWithEof (t ∷ ts)
unfolding EndsWithEof
EndsWithEof-∷ t [] n h = elim h [ ]
EndsWithEof-∷ t (s ∷ ts) n h = (n, h)

pub start_of : (l : Lexer) → IsTokenStart (skip (suc (left l)) l)
start_of l = skip-IsTokenStart (suc (left l)) l (omega arith)

pub skip_while_none :
    (p : ℕ → Bool) (fuel : ℕ) (l : Lexer) → p l.ch ≡ false → skip_while p fuel l ≡ l
unfolding skip_while
skip_while_none p zero l h = refl
skip_while_none p (suc fuel) l h = rw (h, skip_while) refl

pub skip_none : (fuel : ℕ) (l : Lexer) → IsTokenStart l → skip fuel l ≡ l
unfolding skip spaces
skip_none zero l h = refl
skip_none (suc fuel) l h = rw (skip_while_none is_space (left l) l h.0, h.1) refl

module _ (u : Unicode) where
  -- `for { t := l.Next(); ...; if t.Type == lexer.EOF { break } }`.
  unfoldable pub tokens : ℕ → Lexer → List Token
  tokens zero l = []
  tokens (suc fuel) l =
      let (t, l') = next u l in
      let rest = tokens fuel l' in t ∷ (if is_eof t.type then [] else rest)

  pub next_lem : (l : Lexer) → next u l ≡ lex_at u (skip (suc (left l)) l)
  unfolding next
  next_lem l = refl

  lex_at-left : (l : Lexer) → ((lex_at u l).0.type ≡ TokenType.eof) ⊎ (left (lex_at u l).1 < left l)
  unfolding lex_at
  lex_at-left l = elim (Bool-cases (l.ch == 0)) [
    | inl t ↦ inl (rw (t, lex_at) refl)
    | inr f ↦ inr (omega (arith, Reads-left (lex_at-Takes u l f), read-left l f))
  ]

  -- Each call of the lexer moves on: it gives EOF, or fewer characters are left after it.
  pub next-left : (l : Lexer) → ((next u l).0.type ≡ TokenType.eof) ⊎ (left (next u l).1 < left l)
  next-left l = rw (next_lem l) (elim (lex_at-left (skip (suc (left l)) l)) [
    | inl e ↦ inl e
    | inr h ↦ inr (omega (arith, h, Reads-left (skip-Reads (suc (left l)) l)))
  ])

  -- A text has a last token: with more fuel than characters the list of the tokens ends with EOF, and
  -- no other token of it is EOF.
  pub tokens-EndsWithEof : (fuel : ℕ) (l : Lexer) → left l < fuel → EndsWithEof (tokens fuel l)
  unfolding tokens EndsWithEof
  tokens-EndsWithEof zero l h = ground (arith, h)
  tokens-EndsWithEof (suc fuel) l h =
      let (t, l') = next u l in
      elim (Bool-cases (is_eof t.type)) [
        | inl e ↦ rw e ((is_eof_iff t.type).0 e)
        | inr f ↦ rw f (
            EndsWithEof-∷ t _ (λ e. ground (arith, f, (is_eof_iff t.type).1 e))
              (tokens-EndsWithEof fuel l' (ground (arith, f, h, next-left l, is_eof_iff t.type))))
      ]

  -- After EOF the lexer gives EOF for ever: the same token at the same position, in the same state.
  pub next_again : (l : Lexer) → (next u l).0.type ≡ TokenType.eof → next u (next u l).1 ≡ next u l
  unfolding lex_at
  next_again l h =
      let m = skip (suc (left l)) l in
      elim (Bool-cases (m.ch == 0)) [
        | inr f ↦ elim (lex_at-eof u m f (rw (sym (next_lem l)) h)) [ ]
        | inl t ↦
            let e : lex_at u m ≡ (token TokenType.eof [] m, m) = rw t refl in
            let n : next u l ≡ (token TokenType.eof [] m, m) = next_lem l ∙ e in
            rw (n, next_lem m, skip_none (suc (left m)) m (start_of l), e) refl
      ]
