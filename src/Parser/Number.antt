-- ===== src/Parser/Number.antt =====
-- `strconv.ParseInt(s, 10, 64)`, whose error internal/parser/parser.go mostly drops.
use ccomp.Base.{
  ℕ, ◌+◌, ◌-◌, ◌*◌, Bool, true, false, [], ◌∷◌, Option, none, some, ◌==◌, ltb, leb, if◌then◌else◌,
}
use ccomp.Base.Text.{Text}
use ccomp.Base.Word.{word_mod, sign_bit, neg}
use ccomp.Lexer.Token.{ascii_digit}

-- ParseUint: `none` at a character that is no digit, and at the first overflow the largest value.
unfoldable pub digits : ℕ → Text → Option ℕ
digits n [] = some n
digits n (c ∷ cs) =
    let m = n * 10 + (c - b'0') in
    let rest = digits m cs in
    if ascii_digit c then if ltb m word_mod then rest else some (word_mod - 1) else none

unfoldable pub parse_uint : Text → Option ℕ
unfolding digits
parse_uint [] = none
parse_uint (c ∷ cs) = digits 0 (c ∷ cs)

-- A value cut to the range of int64, as bits, and whether there is an error.
abbrev in_range : Bool → Option ℕ → ℕ × Bool
in_range minus none = (0, true)
in_range false (some n) = if ltb n sign_bit then (n, false) else (sign_bit - 1, true)
in_range true (some n) = if leb n sign_bit then (neg n, false) else (sign_bit, true)

unfoldable pub parse_int : Text → ℕ × Bool
unfolding parse_uint
parse_int [] = (0, true)
parse_int (c ∷ cs) =
    if c == b'-'
    then in_range true (parse_uint cs)
    else if c == b'+'
    then in_range false (parse_uint cs)
    else in_range false (parse_uint (c ∷ cs))
