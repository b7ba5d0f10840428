-- ===== src/Base/Int.antt =====
-- Signed integers over the native numbers, under the library's names: Go's `int`, where it may be -1.
use ccomp.Base.{ℕ, ◌≡◌, ◌↔◌, Bool, true, false, arith, ◌==◌}

-- `negsuc n` is -(n + 1).
pub data ℤ : Type 0 where
  pos : ℕ → ℤ
  negsuc : ℕ → ℤ

abbrev pub ==_ℤ : ℤ → ℤ → Bool
==_ℤ (pos a) (pos b) = a == b
==_ℤ (negsuc a) (negsuc b) = a == b
==_ℤ _ _ = false

abbrev pub is_negative : ℤ → Bool
is_negative (pos n) = false
is_negative (negsuc n) = true

pub ==_ℤ_iff : (a b : ℤ) → (==_ℤ a b ≡ true) ↔ (a ≡ b)
==_ℤ_iff a b = ground arith
