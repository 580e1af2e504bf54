-- ===== src/Codec/Put.antt =====
-- The writer of src/frothy_snapshot_codec.c. What is written is a list of bytes; the buffer's
-- capacity bounds it.
use froth.Base.{
  ℕ, ◌-◌, ◌%◌, ◌^◌, false, not, List, [], ◌∷◌, ◌++◌, leb, ltb, if◌then◌else◌, length, Bool,
}
use froth.Base.Int.{ℤ, to_u32}
use froth.Status.{Exec, ok, err, bind, snapshot_overflow}
use froth.Snapshot.Le.{le16, le32}

-- frothy_snapshot_writer_t
pub record Writer : Type 0 where
  pub bytes : List ℕ
  pub capacity : ℕ

abbrev pub Put : Type 0
Put = Exec Writer (Unit {0})

infixr 4 ◌>>◌
abbrev pub ◌>>◌ : Put → Put → Put
m >> n = bind m λ u. n

-- `return FROTH_OK`
abbrev pub skip : Put
skip w = (ok tt, w)

-- frothy_snapshot_writer_has_space
unfoldable pub has_space : Writer → ℕ → Bool
has_space w n =
    if ltb w.capacity (length w.bytes) then false else leb n (w.capacity - length w.bytes)

-- frothy_snapshot_writer_write_bytes
unfoldable pub write_bytes : List ℕ → Put
unfolding has_space
write_bytes bs w =
    if not (has_space w (length bs))
    then (err snapshot_overflow, w)
    else (ok tt, record w { bytes = w.bytes ++ bs })

-- frothy_snapshot_writer_write_u8, of a value that is cut to a byte
abbrev pub write_u8 : ℕ → Put
write_u8 v = write_bytes (v % 2 ^ 8 ∷ [])

-- frothy_snapshot_writer_write_u16, of a value that is cut to 16 bits
abbrev pub write_u16 : ℕ → Put
write_u16 v = write_bytes (le16 v)

-- frothy_snapshot_writer_write_u32, of a value that is cut to 32 bits
abbrev pub write_u32 : ℕ → Put
write_u32 v = write_bytes (le32 v)

-- frothy_snapshot_writer_write_i32
abbrev pub write_i32 : ℤ → Put
write_i32 z = write_u32 (to_u32 z)

-- frothy_snapshot_write_string
unfoldable pub write_string : List ℕ → Put
unfolding write_bytes le16
write_string text =
    if ltb 0xFFFF (length text)
    then (λ w. (err snapshot_overflow, w))
    else write_u16 (length text) >> write_bytes text

-- `b ? 1u : 0u`
abbrev pub flag : Bool → ℕ
flag b = if b then 1 else 0
