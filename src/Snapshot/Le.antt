-- ===== src/Snapshot/Le.antt =====
-- The little-endian fields: frothy_snapshot_write_le16 and _le32, frothy_snapshot_read_le16 and
-- _le32. A write of a field is the list of its bytes.
use froth.Base.{
  ℕ, ◌+◌, ◌*◌, ◌/◌, ◌%◌, ◌^◌, ◌≡◌, List, [], ◌∷◌, ◌++◌, arith, bit_and, bit_or, get_or,
}
use froth.Base.Bits.{bit_and_low, bit_or_sum_swapped}

-- frothy_snapshot_write_le16
unfoldable pub le16 : ℕ → List ℕ
le16 v = bit_and v 0xff ∷ bit_and (v / 2 ^ 8) 0xff ∷ []

-- frothy_snapshot_write_le32
unfoldable pub le32 : ℕ → List ℕ
le32 v =
    bit_and v 0xff
    ∷ bit_and (v / 2 ^ 8) 0xff
    ∷ bit_and (v / 2 ^ 16) 0xff
    ∷ bit_and (v / 2 ^ 24) 0xff
    ∷ []

-- frothy_snapshot_read_le16
unfoldable pub read_le16 : List ℕ → ℕ
read_le16 bs = bit_or (get_or bs 0 0) (get_or bs 1 0 * 2 ^ 8)

-- frothy_snapshot_read_le32
unfoldable pub read_le32 : List ℕ → ℕ
read_le32 bs =
    bit_or (bit_or (bit_or (get_or bs 0 0) (get_or bs 1 0 * 2 ^ 8)) (get_or bs 2 0 * 2 ^ 16))
      (get_or bs 3 0 * 2 ^ 24)

-- Reading a field gives back the number that was written, cut to the field's width, whatever bytes
-- follow.
pub read_le :
    (v : ℕ) (rest : List ℕ)
    → (read_le16 (le16 v ++ rest) ≡ v % 2 ^ 16) × (read_le32 (le32 v ++ rest) ≡ v % 2 ^ 32)
unfolding le16 le32 read_le16 read_le32
read_le v rest =
    let b0 = v % 256 in
    let b1 = v / 2 ^ 8 % 256 in
    let b2 = v / 2 ^ 16 % 256 in
    let b3 = v / 2 ^ 24 % 256 in
    let two : bit_or b0 (b1 * 2 ^ 8) ≡ b1 * 2 ^ 8 + b0 = bit_or_sum_swapped 8 b1 b0 (omega arith) in
    let four : bit_or (bit_or (bit_or b0 (b1 * 2 ^ 8)) (b2 * 2 ^ 16)) (b3 * 2 ^ 24)
        ≡ b3 * 2 ^ 24 + (b2 * 2 ^ 16 + (b1 * 2 ^ 8 + b0)) =
      rw (two, bit_or_sum_swapped 16 b2 (b1 * 2 ^ 8 + b0) (omega arith))
        (bit_or_sum_swapped 24 b3 (b2 * 2 ^ 16 + (b1 * 2 ^ 8 + b0)) (omega arith)) in
    rw
      (
        bit_and_low 8 v,
        bit_and_low 8 (v / 2 ^ 8),
        bit_and_low 8 (v / 2 ^ 16),
        bit_and_low 8 (v / 2 ^ 24),
      )
      (omega (arith, two), omega (arith, four))
