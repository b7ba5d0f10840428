-- ===== src/Base/Word.antt =====
-- 64-bit machine words as their bit patterns, below 2 ^ 64: Go's int64 and uint64, and a register.
use ccomp.Base.{ℕ, ◌+◌, ◌-◌, ◌*◌, ◌/◌, ◌%◌, ◌^◌, Bool, true, false, ltb, ◌==◌, if◌then◌else◌}

abbrev pub word_mod : ℕ
word_mod = 2 ^ 64

abbrev pub sign_bit : ℕ
sign_bit = 2 ^ 63

abbrev pub wrap : ℕ → ℕ
wrap n = n % word_mod

-- The sign of a two's complement word.
abbrev pub is_neg : ℕ → Bool
is_neg w = if ltb w sign_bit then false else true

-- -w modulo 2 ^ 64.
abbrev pub neg : ℕ → ℕ
neg w = wrap (word_mod - w)

abbrev pub magnitude : ℕ → ℕ
magnitude w = if is_neg w then word_mod - w else w

unfoldable pub add : ℕ → ℕ → ℕ
add a b = wrap (a + b)

unfoldable pub sub : ℕ → ℕ → ℕ
sub a b = wrap (a + word_mod - b)

unfoldable pub mul : ℕ → ℕ → ℕ
mul a b = wrap (a * b)

-- Signed division that truncates towards zero; the divisor is not 0. -2^63 / -1 wraps to -2^63.
unfoldable pub sdiv : ℕ → ℕ → ℕ
sdiv a b =
    let q = magnitude a / magnitude b in
    if is_neg a then if is_neg b then wrap q else neg q else if is_neg b then neg q else q

-- Shifts by a count below 64.
unfoldable pub shl : ℕ → ℕ → ℕ
shl a n = wrap (a * 2 ^ n)

-- The arithmetic shift to the right copies the sign.
unfoldable pub sar : ℕ → ℕ → ℕ
sar a n = if is_neg a then word_mod - 1 - (word_mod - 1 - a) / 2 ^ n else a / 2 ^ n

-- The signed order.
unfoldable pub slt : ℕ → ℕ → Bool
slt a b = ltb (wrap (a + sign_bit)) (wrap (b + sign_bit))

unfoldable pub complement : ℕ → ℕ
complement a = word_mod - 1 - a

-- Divisors and dividends at which the quotient of 64-bit words is a word.
unfoldable pub div_defined : ℕ → ℕ → Bool
div_defined a b =
    if b == 0
    then false
    else if a == sign_bit
    then if b == word_mod - 1 then false else true
    else true
