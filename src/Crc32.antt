-- ===== src/Crc32.antt =====
-- src/froth_crc32.c: the bitwise CRC-32. Its arguments are 32-bit words and lists of bytes.
pub mod Detect
use froth.Base.{ℕ, zero, suc, ◌/◌, List, [], ◌∷◌, bit_and, bit_xor, ◌==◌, if◌then◌else◌}

-- One round of the inner loop.
unfoldable pub crc_bit : ℕ → ℕ
crc_bit crc = if bit_and crc 1 == 0 then crc / 2 else bit_xor (crc / 2) 0xEDB88320

-- The inner loop with `n` rounds to go.
abbrev pub crc_bits : ℕ → ℕ → ℕ
crc_bits zero crc = crc
crc_bits (suc n) crc = crc_bits n (crc_bit crc)

unfoldable pub crc_byte : ℕ → ℕ → ℕ
unfolding crc_bit
crc_byte crc b = crc_bits 8 (bit_xor crc b)

-- froth_crc32_update
unfoldable pub crc32_update : ℕ → List ℕ → ℕ
unfolding crc_byte
crc32_update crc [] = crc
crc32_update crc (b ∷ bs) = crc32_update (crc_byte crc b) bs

-- froth_crc32
unfoldable pub crc32 : List ℕ → ℕ
unfolding crc32_update
crc32 bs = bit_xor (crc32_update 0xFFFF_FFFF bs) 0xFFFF_FFFF
