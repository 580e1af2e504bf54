-- ===== src/Value/Tags.antt =====
-- The tags tell the kinds of values apart.
use froth.Base.{ℕ, ◌+◌, ◌*◌, ◌%◌, ◌^◌, ◌≤◌, ◌<◌, ◌≡◌, Bool, true, false, arith, if◌then◌else◌}
use froth.Base.Int.{ℤ, to_u32-to_i32, to_i32-IsInt32, IsInt32, to_i32-to_u32}
use froth.Base.Bits.{bit_and_low, bit_or_sum}
use froth.Value.{
  is_int, is_bool, is_nil, is_object_ref, is_slot_designator, object_value, object_index,
  slot_value, slot_index, to_cell, from_cell, tag_special,
}

abbrev pub digit : Bool → ℕ
digit b = if b then 1 else 0

-- Of a word at most one of the tests for an integer, a Boolean, nil, a slot designator and an
-- object reference holds; exactly one, unless the word has the special tag and is none of its
-- three values.
pub kinds_exclusive :
    (v : ℕ)
    → let kinds =
        digit (is_int v)
        + digit (is_bool v)
        + digit (is_nil v)
        + digit (is_slot_designator v)
        + digit (is_object_ref v) in
      (kinds ≤ 1) × (kinds ≡ 0 → (v % 4 ≡ tag_special) × (is_bool v ≡ false) × (is_nil v ≡ false))
unfolding is_int is_bool is_nil is_object_ref is_slot_designator
kinds_exclusive v = (ground (arith, bit_and_low 2 v), λ h. ground (arith, bit_and_low 2 v))

-- The word of an object or of a slot keeps an index below 2^30 and has its own tag.
pub references :
    (i : ℕ)
    → i < 2 ^ 30
    → (object_index (object_value i) ≡ i)
      × (is_object_ref (object_value i) ≡ true)
      × (slot_index (slot_value i) ≡ i)
      × (is_slot_designator (slot_value i) ≡ true)
      × (object_value i < 2 ^ 32)
      × (slot_value i < 2 ^ 32)
unfolding object_value object_index slot_value slot_index is_object_ref is_slot_designator
references i h =
    let object = bit_or_sum 2 i 3 (omega arith) in
    let slot = bit_or_sum 2 i 2 (omega arith) in
    (
      ground (arith, object),
      ground (arith, object, bit_and_low 2 (i * 4 + 3)),
      ground (arith, slot),
      ground (arith, slot, bit_and_low 2 (i * 4 + 2)),
      ground (arith, object),
      ground (arith, slot),
    )

-- A word stored in a cell is read back unchanged, and a cell's integer likewise.
pub from_cell-to_cell :
    ((w : ℕ) → w < 2 ^ 32 → (from_cell (to_cell w) ≡ w) × IsInt32 (to_cell w))
    × ((z : ℤ) → IsInt32 z → to_cell (from_cell z) ≡ z)
unfolding from_cell to_cell
from_cell-to_cell = (λ w h. (to_u32-to_i32 w h, to_i32-IsInt32 w h), λ z h. to_i32-to_u32 z h)
