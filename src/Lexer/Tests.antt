-- ===== src/Lexer/Tests.antt =====
-- internal/lexer/lexer.go: the lexer run on small texts.
use ccomp.Base.{
  ℕ, ◌<◌, suc, false, ◌≡◌, ◌⊎◌, refl, List, ◌∷◌, [], ◌++◌, some, map, length, get_elem?, take, All,
  arith,
}
use ccomp.Base.Text.{Text, codes}
use ccomp.Lexer.{Lexer, read, start, left}
use ccomp.Lexer.Token.{TokenType, Unicode, ascii_letter, ascii_digit, is_space}
use ccomp.Lexer.Next.{next}
use ccomp.Lexer.Reads.{Reads}
use ccomp.Lexer.Stream.{tokens, EndsWithEof, tokens-EndsWithEof, next-left, next_again}
use ccomp.Lexer.Position.{place, token_at, next-place}
use ccomp.Lexer.Print.{Word, IsWord, kind, kind_of, print, tokens-print}

abbrev ascii : Unicode
ascii = record {
  is_letter = ascii_letter;
  is_digit = ascii_digit;
  letter_ascii = λ c h. refl;
  digit_ascii = λ c h. refl;
}

abbrev sample : Text
sample = codes "int f(/* x */) {\n  return a<<12; // two\n}"

sample-tokens :
    map kind_of (tokens ascii 20 (start sample))
    ≡ (TokenType.kw_int, codes "int")
      ∷ (TokenType.ident, codes "f")
      ∷ (TokenType.lparen, codes "(")
      ∷ (TokenType.rparen, codes ")")
      ∷ (TokenType.lbrace, codes "{")
      ∷ (TokenType.kw_return, codes "return")
      ∷ (TokenType.ident, codes "a")
      ∷ (TokenType.shl, codes "<<")
      ∷ (TokenType.int, codes "12")
      ∷ (TokenType.semi, codes ";")
      ∷ (TokenType.rbrace, codes "}")
      ∷ (TokenType.eof, [])
      ∷ []
unfolding tokens next start read left
sample-tokens = refl

tokens-EndsWithEof_example : EndsWithEof (tokens ascii 60 (start sample))
unfolding start read left
tokens-EndsWithEof_example = tokens-EndsWithEof ascii 60 (start sample) (omega arith)

abbrev blank : Lexer
blank = record { src = codes " "; i = 1; ch = 32; line = 1; col = 1 }

next_again_example : next ascii (next ascii blank).1 ≡ next ascii blank
unfolding next read left
next_again_example = next_again ascii blank refl

next-left_example :
    ((next ascii (start sample)).0.type ≡ TokenType.eof)
    ⊎ (left (next ascii (start sample)).1 < left (start sample))
next-left_example = next-left ascii (start sample)

next-place_example :
    (((next ascii (start sample)).0.line, (next ascii (start sample)).0.col)
      ≡ place (take (token_at (start sample)) sample))
    × (((next ascii (start sample)).0.type ≡ TokenType.eof)
        ⊎ ((c k : ℕ) × ((token_at (start sample) ≡ suc k)
              × ((get_elem? sample k ≡ some c) × (is_space c ≡ false)))))
next-place_example = next-place ascii sample (start sample) Reads.here

abbrev words : List Word
words =
    Word.name b'b' (codes "reak")
    ∷ Word.name b'x' (codes "1")
    ∷ Word.sign b'(' TokenType.lparen
    ∷ Word.float b'1' (codes "0") (codes "25")
    ∷ Word.signs b'<' b'=' TokenType.le
    ∷ Word.literal (codes "a\"b\\")
    ∷ Word.sign b'/' TokenType.slash
    ∷ Word.int b'7' []
    ∷ []

words-IsWord : All IsWord words
words-IsWord = (
  name_start,
  (
    (refl, (refl, tt)),
    ((0, refl), (float_digits, ((5, refl), (quoted, ((16, refl), ((refl, tt), tt)))))),
  ),
)
  where
    name_start : IsWord (Word.name b'b' (codes "reak"))
    name_start = (refl, (refl, (refl, (refl, (refl, tt)))))

    float_digits : IsWord (Word.float b'1' (codes "0") (codes "25"))
    float_digits = (refl, ((refl, tt), (refl, (refl, tt))))

    quoted : IsWord (Word.literal (codes "a\"b\\"))
    quoted = (refl, (refl, (refl, (refl, tt))))

tokens-print_example :
    map kind_of (tokens ascii (suc (length words)) (start (print words)))
    ≡ map kind words ++ (TokenType.eof, []) ∷ []
tokens-print_example = tokens-print ascii words words-IsWord
