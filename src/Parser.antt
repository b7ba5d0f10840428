-- ===== src/Parser.antt =====
-- internal/parser/parser.go: the state of the parser, its errors and its steps. The grammar and the
-- proofs are in the children.
pub mod Number
pub mod Expr
pub mod Simple
pub mod Stmt
pub mod Decl
pub mod Within
pub mod ExprEnds
pub mod SimpleEnds
pub mod StmtEnds
pub mod DeclEnds
pub mod Climb
pub mod Print
pub mod Reading
pub mod RoundTrip
pub mod Precedence
pub mod Source
pub mod Operators
mod Tests
use ccomp.Base.{ℕ, zero, suc, ◌≡◌, Bool, true, false, List, [], ◌∷◌, if◌then◌else◌, any, length}
use ccomp.Base.Text.{Text}
use ccomp.Lexer.Token.{Token, TokenType, type_eq}

-- The struct `Parser`. Its lexer is the list of the tokens to come.
pub record Parser : Type 0 where
  pub lx : List Token
  pub tok : Token

-- The errors, by what is wrong and the token that the message shows.
pub data Error : Type 0 where
  expected : TokenType → Token → Error
  unexpected bad_decl bad_global_init bad_param bad_switch bad_field : Token → Error
  bad_typedef bad_enum_end : Token → Error
  bad_enum_value : Text → Error

-- `out_of_fuel` has no counterpart in the program.
pub data Result {ℓ} (A : Type ℓ) : Type ℓ where
  ok : A → Parser → Result A
  err : Error → Result A
  out_of_fuel : Result A

-- A method of the parser: an error leaves the state behind.
abbrev pub Parse {ℓ} : Type ℓ → Type ℓ
Parse A = Parser → Result A

abbrev pub bind {ℓ κ} : {A : Type ℓ} {B : Type κ} → Result A → (A → Parse B) → Result B
bind (ok a p) f = f a p
bind (err e) f = err e
bind out_of_fuel f = out_of_fuel

infixl 5 ◌>>=◌ ◌>>◌
abbrev pub ◌>>=◌ {ℓ κ} : {A : Type ℓ} {B : Type κ} → Parse A → (A → Parse B) → Parse B
◌>>=◌ m f p = bind (m p) f

abbrev pub ◌>>◌ {ℓ κ} : {A : Type ℓ} {B : Type κ} → Parse A → Parse B → Parse B
◌>>◌ m k p = bind (m p) (λ _. k)

abbrev pub pure {ℓ} : {A : Type ℓ} → A → Parse A
pure a p = ok a p

abbrev pub fail {ℓ} : {A : Type ℓ} → (Token → Error) → Parse A
fail e p = err (e p.tok)

abbrev pub tok_in : List TokenType → Parser → Bool
tok_in ts p = any (type_eq p.tok.type) ts

abbrev pub tok_is : TokenType → Parser → Bool
tok_is t p = type_eq p.tok.type t

-- What the lexer gives after the last token.
abbrev pub eof_at : Token → Token
eof_at t = record t { type = TokenType.eof; lex = [] }

abbrev pub pull : Token → List Token → Parser
pull t [] = record { lx = []; tok = eof_at t }
pull t (u ∷ us) = record { lx = us; tok = u }

-- `p.tok = p.lx.Next()`.
unfoldable pub advance : Parser → Parser
advance p = pull p.tok p.lx

abbrev pub next : Parse (Unit {0})
next p = ok tt (advance p)

-- The current token, which is taken.
abbrev pub take_tok : Parse Token
take_tok p = ok p.tok (advance p)

unfoldable pub expect : TokenType → Parse Token
expect tt p = if tok_is tt p then take_tok p else err (expected tt p.tok)

-- How many tokens there are before the end.
unfoldable pub left : Parser → ℕ
left p = if tok_is TokenType.eof p then 0 else suc (length p.lx)

-- `for test { body }`, with the rounds that are left.
unfoldable pub repeat {ℓ} : {A : Type ℓ} → ℕ → (Parser → Bool) → (A → Parse A) → A → Parse A
repeat zero test body a p = out_of_fuel
repeat (suc n) test body a p =
    let more = bind (body a p) (repeat n test body) in if test p then more else ok a p

-- Each round takes a token.
unfoldable pub while {ℓ} : {A : Type ℓ} → (Parser → Bool) → (A → Parse A) → A → Parse A
unfolding repeat left
while test body a p = repeat (suc (left p)) test body a p

-- The stars of a pointer: whether there is one.
unfoldable pub stars : Parse Bool
unfolding while advance
stars = while (tok_is TokenType.star) (λ _ p. ok true (advance p)) false

-- A part that is missing at the token `t`, which stays: `nil` then.
abbrev pub opt_until {ℓ} : {A : Type ℓ} → TokenType → A → Parse A → Parse A
opt_until t nil m p = if tok_is t p then ok nil p else m p
