-- ===== src/Codec/Get.antt =====
-- The reader of src/frothy_snapshot_codec.c. Its state is the list of the bytes from the offset on.
-- The reads of the decoder and of the measuring pass have a second component, the room that is left
-- for strings, or the room that the strings need. No caller goes on after an error, so an error has
-- no state.
use froth.Base.{ℕ, Bool, List, leb, ◌==◌, if◌then◌else◌, length, get_or, take, drop}
use froth.Base.Int.{ℤ, to_i32}
use froth.Status.{Error, Result, ok, err, snapshot_overflow, snapshot_format}
use froth.Snapshot.Le.{read_le16, read_le32}

abbrev pub Get : Type 0 → Type 0 → Type 0
Get S A = S → Result (A × S)

module _ {S A B : Type 0} where
  -- FROTH_TRY
  abbrev pub carry : Result (A × S) → (A → Get S B) → Result (B × S)
  carry (ok (a, s)) f = f a s
  carry (err e) f = err e

  infixl 5 ◌>>=◌
  abbrev pub ◌>>=◌ : Get S A → (A → Get S B) → Get S B
  ◌>>=◌ m f s = carry (m s) f

module _ {S : Type 0} where
  infixl 5 ◌>>◌
  abbrev pub ◌>>◌ : {B : Type 0} → Get S (Unit {0}) → Get S B → Get S B
  m >> k = m >>= λ u. k

  abbrev pub give : {A : Type 0} → A → Get S A
  give a s = ok (a, s)

  abbrev pub reject : {A : Type 0} → Error → Get S A
  reject e s = err e

  -- An early return with an error unless the test holds.
  abbrev pub require : Bool → Error → Get S (Unit {0})
  require b e s = if b then ok (tt, s) else err e

-- frothy_snapshot_reader_read_bytes
unfoldable pub read_bytes : ℕ → Get (List ℕ) (List ℕ)
read_bytes n bs = if leb n (length bs) then ok (take n bs, drop n bs) else err snapshot_overflow

-- frothy_snapshot_reader_read_u8
unfoldable pub read_u8 : Get (List ℕ) ℕ
read_u8 bs = if leb 1 (length bs) then ok (get_or bs 0 0, drop 1 bs) else err snapshot_overflow

-- frothy_snapshot_reader_read_u16
unfoldable pub read_u16 : Get (List ℕ) ℕ
unfolding read_le16
read_u16 bs = if leb 2 (length bs) then ok (read_le16 bs, drop 2 bs) else err snapshot_overflow

-- frothy_snapshot_reader_read_u32
unfoldable pub read_u32 : Get (List ℕ) ℕ
unfolding read_le32
read_u32 bs = if leb 4 (length bs) then ok (read_le32 bs, drop 4 bs) else err snapshot_overflow

-- frothy_snapshot_reader_read_i32
abbrev pub read_i32 : Get (List ℕ) ℤ
read_i32 = read_u32 >>= λ bits. give (to_i32 bits)

-- frothy_snapshot_read_string_bytes
unfoldable pub read_string_bytes : Get (List ℕ) (List ℕ)
unfolding read_u16 read_bytes
read_string_bytes = read_u16 >>= λ n. if n == 0 then reject snapshot_format else read_bytes n

-- A read beside the room for strings.
abbrev pub Input : Type 0
Input = List ℕ × ℕ

abbrev pub beside : {A : Type 0} → ℕ → Result (A × List ℕ) → Result (A × Input)
beside room (ok (a, bs)) = ok (a, (bs, room))
beside room (err e) = err e

abbrev pub on_bytes : {A : Type 0} → Get (List ℕ) A → Get Input A
on_bytes r (bs, room) = beside room (r bs)
