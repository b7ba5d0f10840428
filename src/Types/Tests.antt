-- ===== src/Types/Tests.antt =====
-- internal/types/types.go at concrete types.
use ccomp.Base.{refl, map, [], ◌∷◌, ◌+◌, ◌≡◌, refl, true}
use ccomp.Types.{int8_t, int16_t, int32_t, int, uint8_t, uint16_t, uint32_t, uint64_t, float64_t}
use ccomp.Types.{
  Kind, leaf, node, size, elem_size, is_pointer, is_signed, is_unsigned, is_float, from_basic_type,
}
use ccomp.Types.Laws.{count_true, classes_partition, from_basic_type_sizes}

char_pointer : from_basic_type 1 true ≡ node Kind.ptr (leaf Kind.byte)
unfolding from_basic_type
char_pointer = refl

classes_partition_example :
    count_true (is_signed (leaf Kind.byte))
      + count_true (is_unsigned (leaf Kind.byte))
      + count_true (is_float (leaf Kind.byte))
      + count_true (is_pointer (leaf Kind.byte))
    ≡ 1
classes_partition_example = classes_partition (leaf Kind.byte)

from_basic_type_sizes_example :
    (is_pointer (from_basic_type 1 true) ≡ true)
    × (size (from_basic_type 1 true) ≡ 8)
    × (elem_size (from_basic_type 1 true) ≡ 1)
from_basic_type_sizes_example = from_basic_type_sizes 1 true

-- The sizes of the integers and floats.
sizes :
    map size
      (int8_t ∷ int16_t ∷ int32_t ∷ int ∷ uint8_t ∷ uint16_t ∷ uint32_t ∷ uint64_t ∷ float64_t ∷ [])
    ≡ 1 ∷ 2 ∷ 4 ∷ 8 ∷ 1 ∷ 2 ∷ 4 ∷ 8 ∷ 8 ∷ []
unfolding size
sizes = refl
