-- ===== src/Parser/Source.antt =====
-- internal/parser/parser.go: the parser asks the lexer for a token at a time; in the model it takes
-- them from the list of the tokens.
use ccomp.Base.{
  ℕ, zero, suc, ◌<◌, ◌≡◌, refl, sym, ap, ◌∙◌, true, false, [], Bool-cases, inl, inr, ◌==◌, arith,
}
use ccomp.Lexer.{Lexer}
use ccomp.Lexer
use ccomp.Lexer.Token.{Token, TokenType, Unicode}
use ccomp.Lexer.Scan.{skip}
use ccomp.Lexer.Next.{next, token, lex_at}
use ccomp.Lexer.Kind.{lex_at-eof}
use ccomp.Lexer.Stream.{tokens, is_eof, is_eof_iff, next-left, next_lem, next_again}
use ccomp.Parser.{Parser, advance, pull, eof_at}
use ccomp.Parser.Decl.{parser_at}

-- The token of a parser after `n` calls of `next`.
unfoldable pub tok_after : ℕ → Parser → Token
tok_after zero p = p.tok
tok_after (suc n) p = tok_after n (advance p)

module _ (u : Unicode) where
  -- What the lexer gives when it is asked for the token number `n`.
  unfoldable pub asked : ℕ → Lexer → Token
  asked zero l = (next u l).0
  asked (suc n) l = asked n (next u l).1

  eof_as_it_is :
      (l : Lexer) → (next u l).0.type ≡ TokenType.eof → eof_at (next u l).0 ≡ (next u l).0
  unfolding lex_at
  eof_as_it_is l h =
      let m = skip (suc (Lexer.left l)) l in
      elim (Bool-cases (m.ch == 0)) [
        | inr f ↦ elim (lex_at-eof u m f (rw (sym (next_lem u l)) h)) [ ]
        | inl t ↦
            let e : lex_at u m ≡ (token TokenType.eof [] m, m) = rw t refl in
            rw (next_lem u l ∙ e) refl
      ]

  asked_eof : (n : ℕ) (l : Lexer) → (next u l).0.type ≡ TokenType.eof → asked n l ≡ (next u l).0
  unfolding asked
  asked_eof zero l h = refl
  asked_eof (suc n) l h =
      let e = next_again u l h in
      asked_eof n (next u l).1 (rw e h) ∙ ap (λ (x : Token × Lexer). x.0) e

tok_after_eof : (n : ℕ) (t : Token) → tok_after n (pull t []) ≡ eof_at t
unfolding tok_after advance
tok_after_eof zero t = refl
tok_after_eof (suc n) t = tok_after_eof n (eof_at t)

module _ (u : Unicode) where
  first : (fuel : ℕ) (l : Lexer) → (parser_at (tokens u (suc fuel) l)).tok ≡ (next u l).0
  unfolding tokens parser_at
  first fuel l = refl

  at_eof :
      (fuel : ℕ) (l : Lexer)
      → is_eof (next u l).0.type ≡ true
      → advance (parser_at (tokens u (suc fuel) l)) ≡ pull (next u l).0 []
  unfolding tokens parser_at
  at_eof fuel l h = rw h refl

  not_at_eof :
      (fuel : ℕ) (l : Lexer)
      → is_eof (next u l).0.type ≡ false
      → advance (parser_at (tokens u (suc (suc fuel)) l))
        ≡ parser_at (tokens u (suc fuel) (next u l).1)
  unfolding tokens parser_at
  not_at_eof fuel l h = rw h refl

  -- The parser over the list of the tokens has after each number of steps the token that the lexer
  -- gives when it is asked as often, also past the end, if the list has more fuel than there are
  -- characters.
  pub tok_after-tokens :
      (n fuel : ℕ) (l : Lexer)
      → Lexer.left l < fuel
      → tok_after n (parser_at (tokens u fuel l)) ≡ asked u n l
  unfolding tok_after asked
  tok_after-tokens n zero l h = elim h [ ]
  tok_after-tokens zero (suc fuel) l h = first fuel l
  tok_after-tokens (suc n) (suc fuel) l h = elim (Bool-cases (is_eof (next u l).0.type)) [
    | inl e ↦
        let t = (is_eof_iff (next u l).0.type).0 e in
        ap (tok_after n) (at_eof fuel l e)
        ∙ tok_after_eof n (next u l).0
        ∙ eof_as_it_is u l t
        ∙ sym (asked_eof u (suc n) l t)
    | inr f ↦
        later n fuel l f (ground (arith, f, h, next-left u l, is_eof_iff (next u l).0.type))
          (λ fuel' k. tok_after-tokens n fuel' (next u l).1 k)
  ]
    where
      later :
          (n fuel : ℕ) (l : Lexer)
          → is_eof (next u l).0.type ≡ false
          → Lexer.left (next u l).1 < fuel
          → ((fuel' : ℕ)
              → Lexer.left (next u l).1 < fuel'
              → tok_after n (parser_at (tokens u fuel' (next u l).1)) ≡ asked u n (next u l).1)
          → tok_after n (advance (parser_at (tokens u (suc fuel) l))) ≡ asked u n (next u l).1
      later n zero l f k ih = elim k [ ]
      later n (suc fuel) l f k ih = ap (tok_after n) (not_at_eof fuel l f) ∙ ih (suc fuel) k
