-- ===== src/Value.antt =====
-- The tagged words of src/frothy_value.c and src/frothy_value.h: a value is a 32-bit word whose low
-- two bits are its tag. A word is a number below 2^32, an int32_t an integer in its range.
pub mod Ints
pub mod Tags
use froth.Base.{
  ℕ, ◌+◌, ◌-◌, ◌*◌, ◌/◌, ◌%◌, ◌^◌, ◌≤◌, ◌<◌, ◌≡◌, Bool, not, ◌||◌, ◌&&◌, bit_and, bit_or, ◌==◌,
  if◌then◌else◌,
}
use froth.Base.Int.{ℤ, pos, negsuc, to_u32, to_i32, leb_ℤ, shr2_ℤ}
use froth.Status.{Result, ok, err, value_overflow}

-- FROTHY_VALUE_TAG_MASK and the four tags.
abbrev pub tag_mask : ℕ
tag_mask = 3

abbrev pub tag_int : ℕ
tag_int = 0

abbrev pub tag_special : ℕ
tag_special = 1

abbrev pub tag_slot : ℕ
tag_slot = 2

abbrev pub tag_object : ℕ
tag_object = 3

abbrev pub special_nil : ℕ
special_nil = 1

abbrev pub special_false : ℕ
special_false = 5

abbrev pub special_true : ℕ
special_true = 9

-- FROTHY_VALUE_INT_MIN and FROTHY_VALUE_INT_MAX
abbrev pub int_min : ℤ
int_min = negsuc (2 ^ 29 - 1)

abbrev pub int_max : ℤ
int_max = pos (2 ^ 29 - 1)

-- `(uint32_t)n << 2`
abbrev shl2 : ℕ → ℕ
shl2 n = (n % 2 ^ 32 * 4) % 2 ^ 32

-- frothy_value_is_object_ref
unfoldable pub is_object_ref : ℕ → Bool
is_object_ref v = bit_and v tag_mask == tag_object

-- frothy_value_is_slot_designator
unfoldable pub is_slot_designator : ℕ → Bool
is_slot_designator v = bit_and v tag_mask == tag_slot

-- frothy_object_value
unfoldable pub object_value : ℕ → ℕ
object_value id = bit_or (shl2 id) tag_object

-- frothy_value_object_index
unfoldable pub object_index : ℕ → ℕ
object_index v = v / 4

-- frothy_slot_value
unfoldable pub slot_value : ℕ → ℕ
slot_value i = bit_or (shl2 i) tag_slot

-- frothy_value_slot_index
unfoldable pub slot_index : ℕ → ℕ
slot_index v = v / 4

-- frothy_value_to_cell
unfoldable pub to_cell : ℕ → ℤ
to_cell v = to_i32 v

-- frothy_value_from_cell
unfoldable pub from_cell : ℤ → ℕ
from_cell c = to_u32 c

-- frothy_value_make_int
unfoldable pub make_int : ℤ → Result ℕ
make_int z =
    if not (leb_ℤ int_min z) || not (leb_ℤ z int_max)
    then err value_overflow
    else ok (shl2 (to_u32 z))

-- frothy_value_wrap_int
unfoldable pub wrap_int : ℤ → ℤ
wrap_int raw =
    let bits = bit_and (to_u32 raw) (2 ^ 30 - 1) in
    to_i32 (if not (bit_and bits (2 ^ 29) == 0) then bit_or bits (2 ^ 32 - 2 ^ 30) else bits)

-- frothy_value_make_bool
unfoldable pub make_bool : Bool → ℕ
make_bool b = if b then special_true else special_false

-- frothy_value_make_nil
unfoldable pub make_nil : ℕ
make_nil = special_nil

-- frothy_value_is_int
unfoldable pub is_int : ℕ → Bool
is_int v = bit_and v tag_mask == tag_int

-- frothy_value_is_bool
unfoldable pub is_bool : ℕ → Bool
is_bool v = v == special_true || v == special_false

-- frothy_value_is_nil
unfoldable pub is_nil : ℕ → Bool
is_nil v = v == special_nil

-- frothy_value_as_int
unfoldable pub as_int : ℕ → ℤ
as_int v = shr2_ℤ (to_i32 v)

-- frothy_value_as_bool
unfoldable pub as_bool : ℕ → Bool
as_bool v = v == special_true
