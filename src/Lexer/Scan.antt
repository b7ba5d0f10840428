-- ===== src/Lexer/Scan.antt =====
-- internal/lexer/lexer.go, Next: the loops over characters. Each has for its fuel the number of the
-- characters that are left.
use ccomp.Base.{ℕ, zero, suc, Bool, true, false, ◌&&◌, not, [], ◌∷◌, ◌++◌, ◌==◌, if◌then◌else◌}
use ccomp.Base.Text.{Text}
use ccomp.Lexer.{Lexer, read, peek, left}
use ccomp.Lexer.Token.{is_space}

-- `for p(l.ch) { l.read() }`.
unfoldable pub skip_while : (ℕ → Bool) → ℕ → Lexer → Lexer
skip_while p zero l = l
skip_while p (suc fuel) l = elim (p l.ch) [ true ↦ skip_while p fuel (read l) | false ↦ l ]

-- The same, with the characters appended to `acc`.
unfoldable pub collect : (ℕ → Bool) → ℕ → Lexer → Text → Text × Lexer
collect p zero l acc = (acc, l)
collect p (suc fuel) l acc = elim (p l.ch) [
  | true ↦ collect p fuel (read l) (acc ++ l.ch ∷ [])
  | false ↦ (acc, l)
]

-- The inside of a block comment, up to and with the `*/`.
unfoldable pub skip_block : ℕ → Lexer → Lexer
skip_block zero l = l
skip_block (suc fuel) l = elim (l.ch == 0) [
  | true ↦ l
  | false ↦ elim (l.ch == b'*' && peek l == b'/') [
    | true ↦ read (read l)
    | false ↦ skip_block fuel (read l)
  ]
]

pub data Comment : Type 0 where
  no_comment line_comment block_comment : Comment

unfoldable pub comment_at : Lexer → Comment
unfolding peek
comment_at l =
    if l.ch == b'/' && peek l == b'/'
    then line_comment
    else if l.ch == b'/' && peek l == b'*'
    then block_comment
    else no_comment

abbrev pub in_line : ℕ → Bool
in_line c = not (c == 0) && not (c == 10)

unfoldable pub spaces : Lexer → Lexer
unfolding skip_while left
spaces l = skip_while is_space (left l) l

unfoldable pub line_rest : Lexer → Lexer
unfolding skip_while left
line_rest l = skip_while in_line (left l) l

unfoldable pub block_rest : Lexer → Lexer
unfolding skip_block left
block_rest l = let l' = read (read l) in skip_block (left l') l'

-- The loop over spaces and comments: after a comment it goes on.
abbrev pub after : (Lexer → Lexer) → Comment → Lexer → Lexer
after rec no_comment l = l
after rec line_comment l = rec (line_rest l)
after rec block_comment l = rec (block_rest l)

unfoldable pub skip : ℕ → Lexer → Lexer
skip zero l = l
skip (suc fuel) l = let l' = spaces l in after (skip fuel) (comment_at l') l'

-- What a backslash and a character stand for, in both kinds of literals.
abbrev pub escape : ℕ → ℕ
escape c =
    if c == b'n'
    then 10
    else if c == b't'
    then 9
    else if c == b'r'
    then 13
    else if c == b'0'
    then 0
    else c

-- The characters of a string literal up to its closing quote, escapes resolved.
unfoldable pub string_body : ℕ → Lexer → Text → Text × Lexer
string_body zero l acc = (acc, l)
string_body (suc fuel) l acc = elim (not (l.ch == 0) && not (l.ch == 0x22)) [
  | false ↦ (acc, l)
  | true ↦ elim (l.ch == 0x5c) [
    | false ↦ string_body fuel (read l) (acc ++ l.ch ∷ [])
    | true ↦ elim ((read l).ch == 0) [
      | true ↦ (acc, read l)
      | false ↦ string_body fuel (read (read l)) (acc ++ escape (read l).ch ∷ [])
    ]
  ]
]
