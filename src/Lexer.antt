-- ===== src/Lexer.antt =====
-- internal/lexer/lexer.go: from source text to tokens. `Token` is token.go; the proofs are in the
-- other children.
pub mod Token
pub mod Scan
pub mod Next
pub mod Reads
pub mod Progress
pub mod Kind
pub mod Stream
pub mod Words
pub mod Signs
pub mod Vocabulary
pub mod Strings
pub mod Print
mod Tests
pub mod Ahead
pub mod Position
use ccomp.Base.{
  ℕ, suc, ◌+◌, ◌-◌, Bool, true, false, ◌&&◌, ◌||◌, List, Option, none, some, ◌==◌, ltb, leb,
  if◌then◌else◌, length, get_elem?,
}
use ccomp.Base.Text.{Text}

-- The struct `Lexer`; `ch` is 0 at the end.
pub record Lexer : Type 0 where
  pub src : Text
  pub i : ℕ
  pub ch : ℕ
  pub line : ℕ
  pub col : ℕ

abbrev pub load : Lexer → Option ℕ → Lexer
load l none = record l { ch = 0 }
load l (some c) =
    if c == 10
    then record l { ch = c; i = l.i + 1; line = l.line + 1; col = 0 }
    else record l { ch = c; i = l.i + 1; col = l.col + 1 }

unfoldable pub read : Lexer → Lexer
read l = load l (get_elem? l.src l.i)

abbrev pub or_zero : Option ℕ → ℕ
or_zero none = 0
or_zero (some c) = c

unfoldable pub peek : Lexer → ℕ
peek l = or_zero (get_elem? l.src l.i)

-- `New`.
unfoldable pub start : Text → Lexer
unfolding read
start src = read (record { src = src; i = 0; ch = 0; line = 1; col = 0 })

-- How many more characters there are, the one at hand included.
unfoldable pub left : Lexer → ℕ
left l = length l.src - l.i + (if l.ch == 0 then 0 else 1)
