-- ===== src/Parser/Within.antt =====
-- internal/parser/parser.go: how many tokens a step of the parser leaves. The rules by which the
-- fuel of its loops and recursions is shown to be enough.
use ccomp.Base.{
  ℕ, zero, suc, ◌≤◌, ◌<◌, ◌≡◌, ◌≢◌, ◌⊎◌, refl, sym, subst, Bool, true, false, List, [], ◌∷◌, any,
  All, length, if◌then◌else◌, Bool-cases, inl, inr, arith,
}
use ccomp.Lexer.Token.{Token, TokenType, type_eq}
use ccomp.Parser.{
  Parser, Parse, Result, Error, ok, err, out_of_fuel, bind, ◌>>=◌, ◌>>◌, pure, tok_in, tok_is,
  advance, pull, next, take_tok, expect, left, repeat, while, stars, opt_until,
}

-- The run is an error, or leaves fewer than `k` tokens: it has not run out of fuel.
pub data Within {ℓ} {A : Type ℓ} (k : ℕ) : Result A → Type ℓ where
  done : {a : A} {p : Parser} → left p < k → Within k (ok a p)
  failed : {e : Error} → Within k (err e)

-- A parser that takes a token or fails wherever fewer than `k` are left.
abbrev pub Eats {ℓ} : {A : Type ℓ} → ℕ → Parse A → Type ℓ
Eats k m = (p : Parser) → left p < k → Within (left p) (m p)

-- A parser that may take none.
abbrev pub Keeps {ℓ} : {A : Type ℓ} → ℕ → Parse A → Type ℓ
Keeps k m = (p : Parser) → left p < k → Within (suc (left p)) (m p)

module _ {ℓ} {A : Type ℓ} where
  pub Within-mono : {j k : ℕ} {r : Result A} → j ≤ k → Within j r → Within k r
  Within-mono h (done l) = done (omega (arith, h, l))
  Within-mono h failed = failed

  pub Within-if :
      {k : ℕ} (b : Bool) {x y : Result A}
      → (b ≡ true → Within k x)
      → (b ≡ false → Within k y)
      → Within k (if b then x else y)
  Within-if true f g = f refl
  Within-if false f g = g refl

  pub Within-ne : {k : ℕ} {r : Result A} → Within k r → r ≢ out_of_fuel
  Within-ne (done l) = cc
  Within-ne failed = cc

pub Within-bind {ℓ κ} :
    {A : Type ℓ} {B : Type κ} {j k : ℕ} {r : Result A} {f : A → Parse B}
    → Within j r
    → ((a : A) (p : Parser) → left p < j → Within k (f a p))
    → Within k (bind r f)
Within-bind (done {a} {p} l) g = g a p l
Within-bind failed g = failed

-- A step that eats, and then one that keeps.
module _ {ℓ κ} {A : Type ℓ} {B : Type κ} {k : ℕ} {m : Parse A} {f : A → Parse B} where
  pub Eats-then : Eats k m → ((a : A) → Keeps k (f a)) → Eats k (m >>= f)
  Eats-then e g p h =
      Within-bind (e p h) λ a q l. Within-mono (omega (arith, l)) (g a q (omega (arith, l, h)))

  pub keeps_then : Keeps k m → ((a : A) → Keeps k (f a)) → Keeps k (m >>= f)
  keeps_then e g p h =
      Within-bind (e p h) λ a q l. Within-mono (omega (arith, l)) (g a q (omega (arith, l, h)))

  pub then-Eats : Keeps k m → ((a : A) → Eats k (f a)) → Eats k (m >>= f)
  then-Eats e g p h =
      Within-bind (e p h) λ a q l. Within-mono (omega (arith, l)) (g a q (omega (arith, l, h)))

pub eats_keeps {ℓ} : {A : Type ℓ} {k : ℕ} {m : Parse A} → Eats k m → Keeps k m
eats_keeps e p h = Within-mono (omega arith) (e p h)

pub pure-Keeps {ℓ} : {A : Type ℓ} {k : ℕ} (a : A) → Keeps k (pure a)
pure-Keeps a p h = done (omega arith)

-- What the current token is tells whether one is left.
pub type_eq-eof :
    (t s : TokenType)
    → type_eq t s ≡ true
    → type_eq s TokenType.eof ≡ false
    → type_eq t TokenType.eof ≡ false
type_eq-eof t s e n = ground arith

pub in-ne-eof :
    (ts : List TokenType) (t : TokenType)
    → All (λ s. type_eq s TokenType.eof ≡ false) ts
    → any (type_eq t) ts ≡ true
    → type_eq t TokenType.eof ≡ false
in-ne-eof [] t h e = cc
in-ne-eof (s ∷ ts) t h e = elim (Bool-cases (type_eq t s)) [
  | inl y ↦ type_eq-eof t s y h.0
  | inr n ↦ in-ne-eof ts t h.1 (rw n at e)
]

pull-left : (t : Token) (us : List Token) → left (pull t us) ≤ length us
unfolding left
pull-left t [] = ground arith
pull-left t (u ∷ us) = ground arith

pub left-some : (p : Parser) → tok_is TokenType.eof p ≡ false → left p ≡ suc (length p.lx)
unfolding left
left-some p h = rw h refl

advance-pull : (p : Parser) → advance p ≡ pull p.tok p.lx
unfolding advance
advance-pull p = refl

-- The current token is not the end if its type is another.
pub is-ne-eof :
    {t : TokenType} (p : Parser)
    → p.tok.type ≡ t
    → type_eq t TokenType.eof ≡ false
    → tok_is TokenType.eof p ≡ false
is-ne-eof p e n = subst (λ t. type_eq t TokenType.eof ≡ false) (sym e) n

-- A token that is there is taken.
pub advance-left : (p : Parser) → tok_is TokenType.eof p ≡ false → left (advance p) < left p
advance-left p h = rw (left-some p h, advance-pull p) (omega (arith, pull-left p.tok p.lx))

-- A parser that eats where there is a token.
abbrev pub Takes {ℓ} : {A : Type ℓ} → ℕ → Parse A → Type ℓ
Takes k m = (p : Parser) → left p < k → tok_is TokenType.eof p ≡ false → Within (left p) (m p)

module _ {ℓ} {A : Type ℓ} where
  pub next_then : {k : ℕ} {m : Parse A} → Keeps k m → Takes (suc k) (next >> m)
  next_then g p h t =
      let l = advance-left p t in
      Within-mono (omega (arith, l)) (g (advance p) (omega (arith, l, h)))

  pub next_then-Eats : {k : ℕ} {m : Parse A} → Eats k m → Takes (suc k) (next >> m)
  next_then-Eats g p h t =
      let l = advance-left p t in
      Within-mono (omega (arith, l)) (g (advance p) (omega (arith, l, h)))

  pub take_then :
      {k : ℕ} {f : Token → Parse A} → ((t : Token) → Keeps k (f t)) → Takes (suc k) (take_tok >>= f)
  take_then g p h t =
      let l = advance-left p t in
      Within-mono (omega (arith, l)) (g p.tok (advance p) (omega (arith, l, h)))

  -- At one state.
  pub run-Takes :
      {m : Parse A} (p : Parser)
      → Takes (suc (left p)) m
      → tok_is TokenType.eof p ≡ false
      → Within (left p) (m p)
  run-Takes p h = h p (omega arith)

  pub run_then-Keeps :
      {m : Parse A} (p : Parser)
      → Takes (suc (left p)) m
      → tok_is TokenType.eof p ≡ false
      → Within (suc (left p)) (m p)
  run_then-Keeps p h t = Within-mono (omega arith) (h p (omega arith) t)

  pub run-Eats : {m : Parse A} (p : Parser) → Eats (suc (left p)) m → Within (left p) (m p)
  run-Eats p h = h p (omega arith)

  pub Within-tok :
      (ts : List TokenType) (p : Parser) {k : ℕ} {x y : Result A}
      → All (λ s. type_eq s TokenType.eof ≡ false) ts
      → (tok_is TokenType.eof p ≡ false → Within k x)
      → Within k y
      → Within k (if tok_in ts p then x else y)
  Within-tok ts p n f g = Within-if (tok_in ts p) (λ e. f (in-ne-eof ts p.tok.type n e)) (λ _. g)

  pub Within-is :
      (t : TokenType) (p : Parser) {k : ℕ} {x y : Result A}
      → type_eq t TokenType.eof ≡ false
      → (tok_is TokenType.eof p ≡ false → Within k x)
      → Within k y
      → Within k (if tok_is t p then x else y)
  Within-is t p n f g = Within-if (tok_is t p) (λ e. f (type_eq-eof p.tok.type t e n)) (λ _. g)

pub expect-Eats : {k : ℕ} (t : TokenType) → type_eq t TokenType.eof ≡ false → Eats k (expect t)
unfolding expect
expect-Eats t n p h = Within-is t p n (λ e. done (advance-left p e)) failed

module _ {ℓ} {A : Type ℓ} {k : ℕ} (test : Parser → Bool) (body : A → Parse A)
    (each : (a : A) (p : Parser) → left p < k → test p ≡ true → Within (left p) (body a p)) where
  -- A loop each of whose rounds takes a token ends within one round more than tokens.
  repeat-Within :
      (n : ℕ) (a : A) (p : Parser)
      → left p < n
      → left p < k
      → Within (suc (left p)) (repeat n test body a p)
  unfolding repeat
  repeat-Within zero a p h l = elim h [ ]
  repeat-Within (suc n) a p h l =
      Within-if (test p)
        (λ e. Within-bind (each a p l e) λ b q m.
          Within-mono (omega (arith, m))
            (repeat-Within n b q (omega (arith, h, m)) (omega (arith, l, m))))
        (λ _. done (omega arith))

  pub while-Keeps : (a : A) → Keeps k (while test body a)
  unfolding while
  while-Keeps a p l = repeat-Within (suc (left p)) a p (omega arith) l

pub stars-Keeps : {k : ℕ} → Keeps k stars
unfolding stars
stars-Keeps =
    while-Keeps (tok_is TokenType.star) (λ _ p. ok true (advance p))
      (λ b p l e. done (advance-left p (type_eq-eof p.tok.type TokenType.star e refl))) false

pub opt_until-Keeps {ℓ} :
    {A : Type ℓ} {k : ℕ} (t : TokenType) (nil : A) (m : Parse A)
    → Keeps k m
    → Keeps k (opt_until t nil m)
opt_until-Keeps t nil m h p l =
    Within-if (tok_is t p) (λ _. done {p = p} (omega arith)) (λ _. h p l)

pub bind-eq-ok {ℓ κ} :
    {A : Type ℓ} {B : Type κ} (r : Result A) (f : A → Parse B) {b : B} {q : Parser}
    → bind r f ≡ ok b q
    → (a : A) × (p : Parser) × (r ≡ ok a p) × (f a p ≡ ok b q)
bind-eq-ok (ok a p) f h = (a, p, refl, h)
bind-eq-ok (err e) f h = cc
bind-eq-ok out_of_fuel f h = cc

-- A run that has not run out of fuel is an error or a result.
pub Within-cases {ℓ} :
    {A : Type ℓ} {k : ℕ} (r : Result A)
    → Within k r
    → ((e : Error) × (r ≡ err e)) ⊎ ((a : A) × (p : Parser) × (r ≡ ok a p))
Within-cases (ok a p) w = inr (a, p, refl)
Within-cases (err e) w = inl (e, refl)
Within-cases out_of_fuel w = absurd (Within-ne w refl)

-- A loop is left where its test fails.
module _ {ℓ} {A : Type ℓ} (test : Parser → Bool) (body : A → Parse A) where
  repeat-ends :
      (n : ℕ) (a : A) (p : Parser) (b : A) (q : Parser)
      → repeat n test body a p ≡ ok b q
      → test q ≡ false
  unfolding repeat
  repeat-ends zero a p b q e = cc
  repeat-ends (suc n) a p b q e = elim (Bool-cases (test p)) [
    | inl t ↦
        let (c, r, _, m) = bind-eq-ok (body a p) (repeat n test body) (rw t at e) in
        repeat-ends n c r b q m
    | inr f ↦ subst (λ s. test s ≡ false) (cc (rw f at e)) f
  ]

  pub while-ends :
      (a : A) (p : Parser) (b : A) (q : Parser) → while test body a p ≡ ok b q → test q ≡ false
  unfolding while
  while-ends a p b q = repeat-ends (suc (left p)) a p b q

pub left-eof : (p : Parser) → tok_is TokenType.eof p ≡ true → left p ≡ 0
unfolding left
left-eof p e = rw e refl
