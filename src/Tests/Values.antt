-- ===== src/Tests/Values.antt =====
-- The words of src/frothy_value.c and the checksum of src/froth_crc32.c, at concrete inputs.
use froth.Base.{◌≡◌, ◌≢◌, ◌<◌, ◌≤◌, ◌+◌, ◌^◌, refl, true, false, [], ◌∷◌, arith}
use froth.Base.Int.{pos, negsuc}
use froth.Status.{ok}
use froth.Value.{
  make_int, wrap_int, is_int, is_bool, is_nil, is_object_ref, is_slot_designator, object_value,
  slot_value, object_index, slot_index, tag_special,
}
use froth.Value.Tags.{kinds_exclusive, digit, references}
use froth.Crc32.{crc32, crc32_update, crc_byte, crc_bit}
use froth.Crc32.Detect.{crc32_update-append, crc32_detects}

-- The check value of the CRC-32 of zlib.
crc32_check : crc32 (b'1' ∷ b'2' ∷ b'3' ∷ b'4' ∷ b'5' ∷ b'6' ∷ b'7' ∷ b'8' ∷ b'9' ∷ []) ≡ 0xCBF43926
unfolding crc32 crc32_update crc_byte crc_bit
crc32_check = refl

make_int_minus_one : make_int (negsuc 0) ≡ ok 0xFFFF_FFFC
unfolding make_int
make_int_minus_one = refl

wrap_int_max : wrap_int (pos 536870912) ≡ negsuc 536870911
unfolding wrap_int
wrap_int_max = refl

is_int_word : is_int 0xFFFF_FFFC ≡ true
unfolding is_int
is_int_word = refl

kinds_exclusive_example :
    let kinds =
      digit (is_int 13)
      + digit (is_bool 13)
      + digit (is_nil 13)
      + digit (is_slot_designator 13)
      + digit (is_object_ref 13) in
    (kinds ≤ 1) × (kinds ≡ 0 → (1 ≡ tag_special) × (is_bool 13 ≡ false) × (is_nil 13 ≡ false))
kinds_exclusive_example = kinds_exclusive 13

references_example :
    (object_index (object_value 5) ≡ 5)
    × (is_object_ref (object_value 5) ≡ true)
    × (slot_index (slot_value 5) ≡ 5)
    × (is_slot_designator (slot_value 5) ≡ true)
    × (object_value 5 < 2 ^ 32)
    × (slot_value 5 < 2 ^ 32)
references_example = references 5 (omega arith)

crc32_update-append_example :
    crc32_update 9 (1 ∷ 2 ∷ []) ≡ crc32_update (crc32_update 9 (1 ∷ [])) (2 ∷ [])
crc32_update-append_example = crc32_update-append 9 (1 ∷ []) (2 ∷ [])

crc32_detects_example : crc32 (1 ∷ 2 ∷ 3 ∷ []) ≢ crc32 (1 ∷ 250 ∷ 3 ∷ [])
crc32_detects_example =
    crc32_detects (1 ∷ []) (3 ∷ []) 2 250 (omega arith) (omega arith) (omega arith) (omega arith)
      (omega arith)
