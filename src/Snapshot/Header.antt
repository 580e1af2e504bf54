-- ===== src/Snapshot/Header.antt =====
-- frothy_snapshot_build_header and frothy_snapshot_parse_header of src/frothy_snapshot.c, with the
-- offsets of src/frothy_snapshot.h, for 32-bit cells. A header is a list of 50 bytes.
use froth.Base.{
  ℕ, zero, suc, ◌/◌, ◌%◌, ◌^◌, ◌<◌, ◌≡◌, refl, Bool, true, false, not, ◌∙◌, ap, List, [], ◌∷◌, ◌++◌,
  arith, bit_and, ◌==◌, if◌then◌else◌, length, take, drop, replicate, write_at,
}
use froth.Base.Bits.{bit_and_low}
use froth.Status.{Result, ok, err, snapshot_format, snapshot_bad_crc, snapshot_incompat}
use froth.Crc32.{crc32}
use froth.Crc32.Detect.{AreBytes, crc32-lt}
use froth.Snapshot.Le.{le16, le32, read_le16, read_le32, read_le}

-- "FRTHSNAP"
abbrev pub magic : List ℕ
magic = b'F' ∷ b'R' ∷ b'T' ∷ b'H' ∷ b'S' ∷ b'N' ∷ b'A' ∷ b'P' ∷ []

abbrev pub version : ℕ
version = 5

abbrev pub header_size : ℕ
header_size = 50

abbrev pub cell_size_bits : ℕ
cell_size_bits = 32

-- frothy_snapshot_header_info_t
pub record HeaderInfo : Type 0 where
  pub payload_len : ℕ
  pub generation : ℕ
  pub flags : ℕ

-- frothy_snapshot_abi_hash
pub abi_hash : ℕ
abi_hash = crc32 (cell_size_bits ∷ 0 ∷ bit_and version 0xff ∷ bit_and (version / 2 ^ 8) 0xff ∷ [])

-- frothy_snapshot_stored_crc32
unfoldable pub stored_crc32 : List ℕ → ℕ
stored_crc32 header = read_le32 (drop 26 header)

-- The header before its own checksum is written.
abbrev unsealed : ℕ → List ℕ → ℕ → List ℕ
unsealed payload_len payload generation =
    let h0 = replicate header_size 0 in
    let h1 = write_at 0 magic h0 in
    let h2 = write_at 8 (le16 version) h1 in
    let h3 = write_at 10 (le16 0) h2 in
    let h4 = write_at 12 (cell_size_bits ∷ []) h3 in
    let h5 = write_at 13 (0 ∷ []) h4 in
    let h6 = write_at 14 (le32 abi_hash) h5 in
    let h7 = write_at 18 (le32 generation) h6 in
    let h8 = write_at 22 (le32 payload_len) h7 in
    write_at 26 (le32 (crc32 (take payload_len payload))) h8

-- frothy_snapshot_build_header, with the arguments that are not null
unfoldable pub build_header : ℕ → List ℕ → ℕ → List ℕ
unfolding le16 le32
build_header payload_len payload generation =
    let h = unsealed payload_len payload generation in write_at 30 (le32 (crc32 h)) h

abbrev same : List ℕ → List ℕ → Bool
same [] [] = true
same (x ∷ xs) (y ∷ ys) = if x == y then same xs ys else false
same _ _ = false

-- frothy_snapshot_parse_header
unfoldable pub parse_header : List ℕ → Result HeaderInfo
parse_header header =
    let copy = write_at 30 (0 ∷ 0 ∷ 0 ∷ 0 ∷ []) header in
    if not (same (take 8 header) magic)
    then err snapshot_format
    else if not (crc32 copy == read_le32 (drop 30 header))
    then err snapshot_bad_crc
    else if not (read_le16 (drop 8 header) == version)
    then err snapshot_format
    else if not (read_le32 (drop 14 header) == abi_hash)
    then err snapshot_incompat
    else ok (record {
      payload_len = read_le32 (drop 22 header);
      generation = read_le32 (drop 18 header);
      flags = read_le16 (drop 10 header);
    })

low_byte-lt : (v : ℕ) → bit_and v 255 < 256
low_byte-lt v = omega (arith, bit_and_low 8 v)

take-AreBytes : (n : ℕ) (bs : List ℕ) → AreBytes bs → AreBytes (take n bs)
take-AreBytes zero bs h = tt
take-AreBytes (suc n) [] h = tt
take-AreBytes (suc n) (b ∷ bs) h = (h.0, take-AreBytes n bs h.1)

module _ (n : ℕ) (payload : List ℕ) (generation : ℕ) where
  abbrev header : List ℕ
  header = build_header n payload generation

  abbrev rest26 : List ℕ
  rest26 = le32 (crc32 (unsealed n payload generation)) ++ replicate 16 0

  zeroed : write_at 30 (0 ∷ 0 ∷ 0 ∷ 0 ∷ []) header ≡ unsealed n payload generation
  unfolding build_header le16 le32
  zeroed = refl

  at30 : drop 30 header ≡ rest26
  unfolding build_header le16 le32
  at30 = refl

  at26 : drop 26 header ≡ le32 (crc32 (take n payload)) ++ rest26
  unfolding build_header le16 le32
  at26 = refl

  at22 : drop 22 header ≡ le32 n ++ (le32 (crc32 (take n payload)) ++ rest26)
  unfolding build_header le16 le32
  at22 = refl

  at18 : drop 18 header ≡ le32 generation ++ drop 22 header
  unfolding build_header le16 le32
  at18 = refl

  at14 : drop 14 header ≡ le32 abi_hash ++ drop 18 header
  unfolding build_header le16 le32
  at14 = refl

  at8 : drop 8 header ≡ le16 version ++ drop 10 header
  unfolding build_header le16 le32
  at8 = refl

  at10 : drop 10 header ≡ le16 0 ++ drop 12 header
  unfolding build_header le16 le32
  at10 = refl

  same_magic : same (take 8 header) magic ≡ true
  unfolding build_header le16 le32
  same_magic = refl

  header_bytes : AreBytes (unsealed n payload generation)
  unfolding le16 le32
  header_bytes = omega (arith, low_byte-lt)

  abi_hash-lt : abi_hash < 2 ^ 32
  unfolding abi_hash
  abi_hash-lt = crc32-lt (32 ∷ 0 ∷ 5 ∷ 0 ∷ []) (omega arith)

  own_crc : crc32 (unsealed n payload generation) ≡ read_le32 (drop 30 header)
  own_crc =
      let small : crc32 (unsealed n payload generation) < 2 ^ 32 =
        crc32-lt (unsealed n payload generation) header_bytes in
      rw at30
        (omega (arith, (read_le (crc32 (unsealed n payload generation)) (replicate 16 0)).1, small))

  -- A header that was built is parsed back to the payload's length, the generation, both as 32-bit
  -- words, and no flags.
  pub parse-build_header :
      parse_header header
      ≡ ok (record { payload_len = n % 2 ^ 32; generation = generation % 2 ^ 32; flags = 0 })
  unfolding parse_header
  parse-build_header =
      let crc_ok : (crc32 (write_at 30 (0 ∷ 0 ∷ 0 ∷ 0 ∷ []) header) == read_le32 (drop 30 header))
          ≡ true =
        rw zeroed (ground (arith, own_crc)) in
      let version_ok : (read_le16 (drop 8 header) == version) ≡ true =
        rw at8 (ground (arith, (read_le version (drop 10 header)).0)) in
      let abi_ok : (read_le32 (drop 14 header) == abi_hash) ≡ true =
        rw at14 (ground (arith, (read_le abi_hash (drop 18 header)).1, abi_hash-lt)) in
      rw (same_magic, crc_ok, version_ok, abi_ok)
        (ground (
          arith,
          ap read_le32 at22 ∙ (read_le n (le32 (crc32 (take n payload)) ++ rest26)).1,
          ap read_le32 at18 ∙ (read_le generation (drop 22 header)).1,
          ap read_le16 at10 ∙ (read_le 0 (drop 12 header)).0,
        ))

  -- The payload's checksum is stored in the header.
  pub stored_crc32-build_header : AreBytes payload → stored_crc32 header ≡ crc32 (take n payload)
  unfolding stored_crc32
  stored_crc32-build_header h =
      let small : crc32 (take n payload) < 2 ^ 32 =
        crc32-lt (take n payload) (take-AreBytes n payload h) in
      rw at26 (omega (arith, (read_le (crc32 (take n payload)) rest26).1, small))

  pub length-build_header : length header ≡ header_size
  unfolding build_header le16 le32
  length-build_header = refl
