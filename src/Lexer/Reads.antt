-- ===== src/Lexer/Reads.antt =====
-- internal/lexer/lexer.go: every operation of the lexer goes on by `read` alone.
use ccomp.Base.{
  ℕ, zero, suc, ◌≡◌, inl, inr, Bool, true, false, ◌&&◌, not, ◌∷◌, [], Option, none, some, ◌==◌,
  Bool-cases, if_both,
}
use ccomp.Base.Text.{Text}
use ccomp.Lexer.{Lexer, read, peek, left}
use ccomp.Lexer.Token.{TokenType, Token, Unicode, is_space}
use ccomp.Lexer.Scan.{
  skip_while, collect, skip_block, Comment, in_line, spaces, line_rest, block_rest, after, skip,
  string_body,
}
use ccomp.Lexer.Next.{
  symbol, take_symbol, read_if, take_char, take_string, take_name, take_number, take_other,
  dispatch, lex_at, name_rest, name_start,
}

pub data Reads (l : Lexer) : Lexer → Type 0 where
  here : Reads l l
  step : {m : Lexer} → Reads l m → Reads l (read m)

pub Reads_trans : {k l m : Lexer} → Reads k l → Reads l m → Reads k m
Reads_trans r here = r
Reads_trans r (step s) = step (Reads_trans r s)

pub from_read : {l m : Lexer} → Reads (read l) m → Reads l m
from_read r = Reads_trans (step here) r

pub skip_while-Reads : (p : ℕ → Bool) (fuel : ℕ) (l : Lexer) → Reads l (skip_while p fuel l)
unfolding skip_while
skip_while-Reads p zero l = here
skip_while-Reads p (suc fuel) l = elim (Bool-cases (p l.ch)) [
  | inl t ↦ rw (t, skip_while) (from_read (skip_while-Reads p fuel (read l)))
  | inr t ↦ rw (t, skip_while) here
]

collect-Reads :
    (p : ℕ → Bool) (fuel : ℕ) (l : Lexer) (acc : Text) → Reads l (collect p fuel l acc).1
unfolding collect
collect-Reads p zero l acc = here
collect-Reads p (suc fuel) l acc = elim (Bool-cases (p l.ch)) [
  | inl t ↦ rw (t, collect) (from_read (collect-Reads p fuel (read l) _))
  | inr t ↦ rw (t, collect) here
]

pub skip_block-Reads : (fuel : ℕ) (l : Lexer) → Reads l (skip_block fuel l)
unfolding skip_block
skip_block-Reads zero l = here
skip_block-Reads (suc fuel) l = elim (Bool-cases (l.ch == 0)) [
  | inl t ↦ rw (t, skip_block) here
  | inr t ↦
      rw (t, skip_block)
        (elim (Bool-cases (l.ch == b'*' && peek l == b'/')) [
          | inl q ↦ rw (q, skip_block) (step (step here))
          | inr q ↦ rw (q, skip_block) (from_read (skip_block-Reads fuel (read l)))
        ])
]

string_body-Reads : (fuel : ℕ) (l : Lexer) (acc : Text) → Reads l (string_body fuel l acc).1
unfolding string_body
string_body-Reads zero l acc = here
string_body-Reads (suc fuel) l acc = elim (Bool-cases (not (l.ch == 0) && not (l.ch == 0x22))) [
  | inr t ↦ rw (t, string_body) here
  | inl t ↦
      rw (t, string_body)
        (elim (Bool-cases (l.ch == 0x5c)) [
          | inr q ↦ rw (q, string_body) (from_read (string_body-Reads fuel (read l) _))
          | inl q ↦
              rw (q, string_body)
                (elim (Bool-cases ((read l).ch == 0)) [
                  | inl v ↦ rw (v, string_body) (step here)
                  | inr v ↦
                      rw (v, string_body)
                        (from_read (from_read (string_body-Reads fuel (read (read l)) _)))
                ])
        ])
]

after-Reads :
    (rec : Lexer → Lexer) (c : Comment) (l : Lexer)
    → ((m : Lexer) → Reads m (rec m))
    → Reads l (after rec c l)
unfolding line_rest block_rest
after-Reads rec Comment.no_comment l h = here
after-Reads rec Comment.line_comment l h = Reads_trans (skip_while-Reads in_line (left l) l) (h _)
after-Reads rec Comment.block_comment l h =
    from_read
      (from_read (Reads_trans (skip_block-Reads (left (read (read l))) (read (read l))) (h _)))

pub skip-Reads : (fuel : ℕ) (l : Lexer) → Reads l (skip fuel l)
unfolding skip spaces
skip-Reads zero l = here
skip-Reads (suc fuel) l =
    Reads_trans (skip_while-Reads is_space (left l) l)
      (after-Reads (skip fuel) _ _ (skip-Reads fuel))

-- A token takes its first character, and whatever follows.
abbrev Takes : Lexer → Lexer → Type 0
Takes l m = Reads (read l) m

read_if-Reads : (b : Bool) (l : Lexer) → Reads l (read_if b l)
read_if-Reads true l = step here
read_if-Reads false l = here

take_symbol-Takes : (l : Lexer) (s : TokenType × Bool) → Takes l (take_symbol l s).1
unfolding take_symbol
take_symbol-Takes l (t, true) = step here
take_symbol-Takes l (t, false) = here

take_char-Takes : (l : Lexer) → Takes l (take_char l).1
unfolding take_char
take_char-Takes l =
    let l1 = read l in
    let l2 = read_if (l1.ch == 0x5c) l1 in
    let l3 = read_if (not (l2.ch == 0)) l2 in
    Reads_trans (read_if-Reads (l1.ch == 0x5c) l1)
      (Reads_trans (read_if-Reads (not (l2.ch == 0)) l2) (read_if-Reads (l3.ch == 0x27) l3))

take_string-Takes : (l : Lexer) → Takes l (take_string l).1
unfolding take_string
take_string-Takes l =
    let l2 = (string_body (left (read l)) (read l) []).1 in
    Reads_trans (string_body-Reads (left (read l)) (read l) []) (read_if-Reads (l2.ch == 0x22) l2)

module _ (u : Unicode) where
  take_name-Takes : (l : Lexer) → Takes l (take_name u l).1
  unfolding take_name
  take_name-Takes l = collect-Reads (name_rest u) (left (read l)) (read l) (l.ch ∷ [])

  take_number-Takes : (l : Lexer) → Takes l (take_number u l).1
  unfolding take_number
  take_number-Takes l =
      let l1 = read l in
      let int = collect u.is_digit (left l1) l1 (l.ch ∷ []) in
      let to_int = collect-Reads u.is_digit (left l1) l1 (l.ch ∷ []) in
      elim (Bool-cases (int.1.ch == b'.')) [
        | inl t ↦ rw t (Reads_trans to_int (from_read (collect-Reads u.is_digit _ (read int.1) _)))
        | inr t ↦ rw t to_int
      ]

  take_other-Takes : (l : Lexer) → Takes l (take_other u l).1
  unfolding take_other
  take_other-Takes l =
      let P = λ (r : Token × Lexer). Takes l r.1 in
      if_both P (l.ch == 0x22) _ _ (take_string-Takes l) (
        if_both P (name_start u l.ch) _ _ (take_name-Takes l)
          (if_both P (u.is_digit l.ch) _ _ (take_number-Takes l) here))

  dispatch-Takes : (l : Lexer) (s : Option (TokenType × Bool)) → Takes l (dispatch u l s).1
  dispatch-Takes l (some s) = take_symbol-Takes l s
  dispatch-Takes l none = elim (Bool-cases (l.ch == 0x27)) [
    | inl t ↦ rw (t, dispatch) (take_char-Takes l)
    | inr t ↦ rw (t, dispatch) (take_other-Takes l)
  ]

  pub lex_at-Takes : (l : Lexer) → (l.ch == 0) ≡ false → Takes l (lex_at u l).1
  unfolding lex_at
  lex_at-Takes l h = rw h (dispatch-Takes l (symbol l.ch (peek l)))
