-- ===== src/Lexer/Kind.antt =====
-- internal/lexer/lexer.go, Next: the kind of the token that a character starts.
use ccomp.Base.{
  ℕ, ◌≡◌, ◌≢◌, refl, inl, inr, Bool, true, false, ◌∷◌, [], some, ◌==◌, Option-cases, if_both, arith,
}
use ccomp.Base.Text.{Text}
use ccomp.Lexer.{Lexer, read, peek, left}
use ccomp.Lexer.Token.{TokenType, Token, Unicode}
use ccomp.Lexer.Scan.{collect}
use ccomp.Lexer.Next.{
  symbol, keyword, take_symbol, take_char, take_string, take_name, take_number, take_other,
  dispatch, lex_at, name_rest, name_start,
}

symbol-eof : (ch n : ℕ) (t : TokenType) (b : Bool) → symbol ch n ≡ some (t, b) → t ≢ TokenType.eof
unfolding symbol
symbol-eof ch n t b h = ground (arith, h)

keyword-eof : (s : Text) → keyword s ≢ TokenType.eof
unfolding keyword
keyword-eof s = ground arith

take_symbol-type : (l : Lexer) (t : TokenType) (b : Bool) → (take_symbol l (t, b)).0.type ≡ t
unfolding take_symbol
take_symbol-type l t true = refl
take_symbol-type l t false = refl

abbrev NotEof : Token × Lexer → Type 0
NotEof r = r.0.type ≢ TokenType.eof

module _ (u : Unicode) where
  take_name-eof : (l : Lexer) → (take_name u l).0.type ≢ TokenType.eof
  unfolding take_name
  take_name-eof l = keyword-eof (collect (name_rest u) (left (read l)) (read l) (l.ch ∷ [])).0

  take_number-eof : (l : Lexer) → (take_number u l).0.type ≢ TokenType.eof
  unfolding take_number
  take_number-eof l = ground arith

  take_other-eof : (l : Lexer) → (take_other u l).0.type ≢ TokenType.eof
  unfolding take_other take_string
  take_other-eof l =
      if_both NotEof (l.ch == 0x22) _ _ (λ e. ground (arith, e))
        (if_both NotEof (name_start u l.ch) _ _ (take_name-eof l)
          (if_both NotEof (u.is_digit l.ch) _ _ (take_number-eof l) (λ e. ground (arith, e))))

  dispatch-eof : (l : Lexer) → (dispatch u l (symbol l.ch (peek l))).0.type ≢ TokenType.eof
  unfolding take_char
  dispatch-eof l = elim (Option-cases (symbol l.ch (peek l))) [
    | inl e ↦ rw e (if_both NotEof (l.ch == 0x27) _ _ (λ e'. ground (arith, e')) (take_other-eof l))
    | inr ((t, b), e) ↦ rw (e, take_symbol-type l t b) (symbol-eof l.ch (peek l) t b e)
  ]

  pub lex_at-eof : (l : Lexer) → (l.ch == 0) ≡ false → (lex_at u l).0.type ≢ TokenType.eof
  unfolding lex_at
  lex_at-eof l h = rw h (dispatch-eof l)
