-- ===== src/Types/Laws.antt =====
-- The classes of internal/types/types.go: what the predicates and the sizes say of one another.
use ccomp.Base.{ℕ, ◌+◌, ◌≡◌, Bool, arith, ◌==◌, if◌then◌else◌}
use ccomp.Types.{
  CType, leaf, node, size, elem_size, is_pointer, is_signed, is_unsigned, is_float, from_basic_type,
}

abbrev pub count_true : Bool → ℕ
count_true b = if b then 1 else 0

-- Every type is in exactly one of the classes signed, unsigned, float and pointer.
pub classes_partition :
    (t : CType)
    → count_true (is_signed t)
        + count_true (is_unsigned t)
        + count_true (is_float t)
        + count_true (is_pointer t)
      ≡ 1
unfolding is_signed is_unsigned is_float is_pointer
classes_partition (leaf κ) = ground arith
classes_partition (node κ t) = ground arith

-- A type that `from_basic_type` builds is a pointer exactly when asked for one, its size is 1 for a
-- plain char and 8 for every other type, and its element size is 0 if it is no pointer, 1 for a
-- pointer to char, and 8 for any other pointer.
pub from_basic_type_sizes :
    (bt : ℕ) (ptr : Bool)
    → (is_pointer (from_basic_type bt ptr) ≡ ptr)
      × (size (from_basic_type bt ptr) ≡ (if ptr then 8 else if bt == 1 then 1 else 8))
      × (elem_size (from_basic_type bt ptr) ≡ (if ptr then if bt == 1 then 1 else 8 else 0))
unfolding from_basic_type is_pointer size elem_size
from_basic_type_sizes bt ptr = ground arith
