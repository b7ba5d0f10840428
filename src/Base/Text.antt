-- ===== src/Base/Text.antt =====
-- Text as a list of code points: Go's `[]rune`, and the `string` made of one.
use Prim.Native.Char.{code}
use Prim.Native.String.{String}
use ccomp.Base.{ℕ, ◌≡◌, ◌↔◌, List, [], ◌∷◌, Bool, true, false, ◌&&◌, arith, ◌==◌}

abbrev pub Text : Type 0
Text = List ℕ

abbrev pub codes : String → Text
codes String.[] = []
codes (String.◌∷◌ c s) = code c ∷ codes s

abbrev pub text_eq : Text → Text → Bool
text_eq [] [] = true
text_eq (a ∷ s) (b ∷ t) = a == b && text_eq s t
text_eq _ _ = false

pub text_eq_iff : (s t : Text) → (text_eq s t ≡ true) ↔ (s ≡ t)
text_eq_iff [] [] = ground arith
text_eq_iff [] (b ∷ t) = ground arith
text_eq_iff (a ∷ s) [] = ground arith
text_eq_iff (a ∷ s) (b ∷ t) = ground (arith, text_eq_iff s t)
