-- ===== src/Types.antt =====
-- internal/types/types.go: the types that the builder tracks, with their sizes and classes.
mod Laws
mod Tests
use ccomp.Base.{ℕ, Bool, true, false, ◌||◌, ◌==◌, if◌then◌else◌}
use ccomp.Base.Text.{Text}

pub data Kind : Type 0 where
  int8 int16 int32 int64 uint8 uint16 uint32 uint64 float32 float64 ptr byte : Kind

-- The Go struct {K, Elem}: `leaf k` has a nil `Elem`, `node k t` points to `t`.
pub data CType : Type 0 where
  leaf : Kind → CType
  node : Kind → CType → CType

abbrev pub k : CType → Kind
k (leaf κ) = κ
k (node κ t) = κ

abbrev pub is_ptr : Kind → Bool
is_ptr Kind.ptr = true
is_ptr _ = false

abbrev pub int : CType
int = leaf Kind.int64

abbrev pub int8_t : CType
int8_t = leaf Kind.int8

abbrev pub int16_t : CType
int16_t = leaf Kind.int16

abbrev pub int32_t : CType
int32_t = leaf Kind.int32

abbrev pub uint8_t : CType
uint8_t = leaf Kind.uint8

abbrev pub uint16_t : CType
uint16_t = leaf Kind.uint16

abbrev pub uint32_t : CType
uint32_t = leaf Kind.uint32

abbrev pub uint64_t : CType
uint64_t = leaf Kind.uint64

abbrev pub float64_t : CType
float64_t = leaf Kind.float64

abbrev pub byte_t : CType
byte_t = leaf Kind.byte

abbrev pub char_t : CType
char_t = leaf Kind.byte

abbrev pub double_t : CType
double_t = leaf Kind.float64

unfoldable pub pointer_to : CType → CType
pointer_to t = node Kind.ptr t

abbrev pub kind_size : Kind → ℕ
kind_size Kind.int8 = 1
kind_size Kind.uint8 = 1
kind_size Kind.byte = 1
kind_size Kind.int16 = 2
kind_size Kind.uint16 = 2
kind_size Kind.int32 = 4
kind_size Kind.uint32 = 4
kind_size Kind.float32 = 4
kind_size _ = 8

unfoldable pub size : CType → ℕ
size t = kind_size (k t)

unfoldable pub is_pointer : CType → Bool
is_pointer t = is_ptr (k t)

unfoldable pub elem_size : CType → ℕ
unfolding size
elem_size (node Kind.ptr t) = size t
elem_size _ = 0

abbrev pub kind_signed : Kind → Bool
kind_signed Kind.int8 = true
kind_signed Kind.int16 = true
kind_signed Kind.int32 = true
kind_signed Kind.int64 = true
kind_signed _ = false

abbrev pub kind_unsigned : Kind → Bool
kind_unsigned Kind.uint8 = true
kind_unsigned Kind.uint16 = true
kind_unsigned Kind.uint32 = true
kind_unsigned Kind.uint64 = true
kind_unsigned Kind.byte = true
kind_unsigned _ = false

abbrev pub kind_float : Kind → Bool
kind_float Kind.float32 = true
kind_float Kind.float64 = true
kind_float _ = false

unfoldable pub is_signed : CType → Bool
is_signed t = kind_signed (k t)

unfoldable pub is_unsigned : CType → Bool
is_unsigned t = kind_unsigned (k t)

unfoldable pub is_integer : CType → Bool
unfolding is_signed is_unsigned
is_integer t = is_signed t || is_unsigned t

unfoldable pub is_float : CType → Bool
is_float t = kind_float (k t)

-- `StructType`, whose `Def` is of any type.
record StructType {ℓ} (D : Type ℓ) : Type ℓ where
  name : Text
  def : D

-- The argument is the number of an AST basic type: 0 int, 1 char, 2 double.
unfoldable pub from_basic_type : ℕ → Bool → CType
unfolding pointer_to
from_basic_type bt to =
    if to
    then if bt == 1
      then pointer_to char_t
      else if bt == 2
      then pointer_to double_t
      else pointer_to int
    else if bt == 1
    then char_t
    else if bt == 2
    then double_t
    else int
