-- ===== src/Lexer/Progress.antt =====
-- internal/lexer/lexer.go, Next: what is left shrinks, and spaces and comments are skipped.
use ccomp.Base.{
  ℕ, zero, suc, ◌-◌, ◌<◌, ◌≤◌, ◌≡◌, ◌≢◌, refl, ◌⊎◌, inl, inr, Bool, true, false, ◌==◌, Bool-cases,
  Option-cases, if◌then◌else◌, get_elem?, get_elem?-lt, arith,
}
use ccomp.Lexer.{Lexer, load, read, left}
use ccomp.Lexer.Token.{is_space}
use ccomp.Lexer.Scan.{
  skip_while, comment_at, Comment, in_line, spaces, line_rest, block_rest, after, skip,
}
use ccomp.Lexer.Reads.{Reads, skip_while-Reads, skip_block-Reads}

-- `read` takes the character at hand away.
read_left : (l : Lexer) → left (read l) ≤ left l - (if l.ch == 0 then 0 else 1)
unfolding read left
read_left l = elim (Option-cases (get_elem? l.src l.i)) [
  | inl e ↦ rw (e, load) (ground arith)
  | inr (c, e) ↦ rw (e, load) (ground (arith, get_elem?-lt l.src l.i c e))
]

pub read-left : (l : Lexer) → (l.ch == 0) ≡ false → left (read l) < left l
unfolding left
read-left l h = ground (arith, read_left l)

pub Reads-left : {l m : Lexer} → Reads l m → left m ≤ left l
Reads-left Reads.here = omega arith
Reads-left (Reads.step {m} r) = omega (arith, Reads-left r, read_left m)

left_zero : (l : Lexer) → left l ≤ 0 → l.ch ≡ 0
unfolding left
left_zero l h = ground arith

-- A test that fails at the end holds of a character only where there is one.
pub there_is : (p : ℕ → Bool) (c : ℕ) → p 0 ≡ false → p c ≡ true → (c == 0) ≡ false
there_is p zero z t = cc
there_is p (suc c) z t = ground arith

-- A loop over characters that stops at the end, at the latest, has enough fuel.
skip_while_stops :
    (p : ℕ → Bool) (fuel : ℕ) (l : Lexer)
    → p 0 ≡ false
    → left l ≤ fuel
    → p (skip_while p fuel l).ch ≡ false
unfolding skip_while
skip_while_stops p zero l z h = rw (left_zero l h) z
skip_while_stops p (suc fuel) l z h = elim (Bool-cases (p l.ch)) [
  | inl t ↦
      rw (t, skip_while)
        (skip_while_stops p fuel (read l) z (omega (arith, h, read-left l (there_is p l.ch z t))))
  | inr t ↦ rw (t, skip_while) t
]

spaces-left : (l : Lexer) → left (spaces l) ≤ left l
unfolding spaces
spaces-left l = Reads-left (skip_while-Reads is_space (left l) l)

spaces-is_space : (l : Lexer) → is_space (spaces l).ch ≡ false
unfolding spaces
spaces-is_space l = skip_while_stops is_space (left l) l refl (omega arith)

-- Where a comment starts there is a character, and all of the comment is behind it.
comment_at-there : (l : Lexer) → ((l.ch == 0) ≡ false) ⊎ (comment_at l ≡ Comment.no_comment)
unfolding comment_at
comment_at-there l = elim (Bool-cases (l.ch == 0)) [ inr f ↦ inl f | inl t ↦ inr (ground arith) ]

skip_while-less :
    (p : ℕ → Bool) (fuel : ℕ) (l : Lexer)
    → p 0 ≡ false
    → p l.ch ≡ true
    → left l ≤ fuel
    → left (skip_while p fuel l) < left l
unfolding skip_while
skip_while-less p zero l z t h = ground (arith, read-left l (there_is p l.ch z t))
skip_while-less p (suc fuel) l z t h =
    rw (t, skip_while)
      (omega
        (arith, read-left l (there_is p l.ch z t), Reads-left (skip_while-Reads p fuel (read l))))

comment_at-slash : (l : Lexer) → comment_at l ≢ Comment.no_comment → l.ch ≡ b'/'
unfolding comment_at
comment_at-slash l h = ground arith

line_rest-less : (l : Lexer) → l.ch ≡ b'/' → left (line_rest l) < left l
unfolding line_rest
line_rest-less l e = skip_while-less in_line (left l) l refl (rw e refl) (omega arith)

block_rest-less : (l : Lexer) → l.ch ≡ b'/' → left (block_rest l) < left l
unfolding block_rest
block_rest-less l e = omega (
  arith,
  read-left l (rw e refl),
  read_left (read l),
  Reads-left (skip_block-Reads (left (read (read l))) (read (read l))),
)

-- What a token starts at: neither a space nor a comment.
abbrev pub IsTokenStart : Lexer → Type 0
IsTokenStart l = (is_space l.ch ≡ false) × (comment_at l ≡ Comment.no_comment)

after-IsTokenStart :
    (fuel : ℕ) (l : Lexer) (c : Comment)
    → comment_at l ≡ c
    → is_space l.ch ≡ false
    → left l ≤ fuel
    → ((m : Lexer) → left m < fuel → IsTokenStart (skip fuel m))
    → IsTokenStart (after (skip fuel) c l)
after-IsTokenStart fuel l Comment.no_comment e s h rec = (s, e)
after-IsTokenStart fuel l Comment.line_comment e s h rec =
    rec (line_rest l) (omega (arith, h, line_rest-less l (comment_at-slash l (ground (arith, e)))))
after-IsTokenStart fuel l Comment.block_comment e s h rec =
    rec (block_rest l)
      (omega (arith, h, block_rest-less l (comment_at-slash l (ground (arith, e)))))

pub skip-IsTokenStart : (fuel : ℕ) (l : Lexer) → left l < fuel → IsTokenStart (skip fuel l)
unfolding skip
skip-IsTokenStart zero l h = ground (arith, h)
skip-IsTokenStart (suc fuel) l h =
    after-IsTokenStart fuel (spaces l) (comment_at (spaces l)) refl (spaces-is_space l)
      (omega (arith, h, spaces-left l)) (skip-IsTokenStart fuel)
