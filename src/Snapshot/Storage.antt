-- ===== src/Snapshot/Storage.antt =====
-- The two snapshot slots: platform_snapshot_read, _write and _erase of platforms/posix/platform.c,
-- where a slot is a file, and frothy_snapshot_read_slot_header of src/frothy_snapshot.c.
-- A missing file, a short read and an empty transfer are errors as in the source; that the host's
-- own calls fail (a full disk, a lost permission) is not modelled.
use froth.Base.{
  ℕ, zero, suc, ◌+◌, ◌≤◌, ◌≡◌, refl, ap, Option, none, some, List, [], ◌∷◌, ◌++◌, ◌||◌, arith, ltb,
  ◌==◌, if◌then◌else◌, length, take, drop, length-append, length-drop,
}
use froth.Status.{Exec, Result, ok, err, io, ◌>>=◌}
use froth.Snapshot.Header.{HeaderInfo, parse_header, header_size}

-- The file of each slot, if it exists.
pub record Storage : Type 0 where
  pub file_a : Option (List ℕ)
  pub file_b : Option (List ℕ)

-- snap_path
abbrev pub file_of : ℕ → Storage → Option (List ℕ)
file_of slot st = if slot == 0 then st.file_a else st.file_b

abbrev pub with_file : ℕ → Option (List ℕ) → Storage → Storage
with_file slot f st = if slot == 0 then record st { file_a = f } else record st { file_b = f }

abbrev pub read_file : Option (List ℕ) → ℕ → ℕ → Result (List ℕ)
read_file none offset len = err io
read_file (some bytes) offset len =
    if len == 0 || ltb (length bytes) (offset + len)
    then err io
    else ok (take len (drop offset bytes))

-- platform_snapshot_read
unfoldable pub snapshot_read : ℕ → ℕ → ℕ → Storage → Result (List ℕ)
snapshot_read slot offset len st = read_file (file_of slot st) offset len

-- A write at an offset of a file; a gap in front of it is filled with zeros.
abbrev pub overwrite : ℕ → List ℕ → List ℕ → List ℕ
overwrite zero src bytes = src ++ drop (length src) bytes
overwrite (suc offset) src [] = 0 ∷ overwrite offset src []
overwrite (suc offset) src (b ∷ bytes) = b ∷ overwrite offset src bytes

abbrev pub contents : Option (List ℕ) → List ℕ
contents none = []
contents (some bytes) = bytes

-- platform_snapshot_write: opening for the write creates a missing file.
unfoldable pub snapshot_write : ℕ → ℕ → List ℕ → Exec Storage (Unit {0})
snapshot_write slot offset src st =
    let bytes = contents (file_of slot st) in
    if length src == 0
    then (err io, with_file slot (some bytes) st)
    else (ok tt, with_file slot (some (overwrite offset src bytes)) st)

-- platform_snapshot_erase
unfoldable pub snapshot_erase : ℕ → Storage → Storage
snapshot_erase slot st = with_file slot none st

-- frothy_snapshot_read_slot_header
unfoldable pub read_slot_header : ℕ → Storage → Result HeaderInfo
unfolding snapshot_read
read_slot_header slot st = snapshot_read slot 0 header_size st >>= parse_header

-- What was written is read back.
pub read-overwrite :
    (offset : ℕ) (src bytes : List ℕ)
    → take (length src) (drop offset (overwrite offset src bytes)) ≡ src
read-overwrite zero src bytes = front src (drop (length src) bytes)
  where
    front : (xs ys : List ℕ) → take (length xs) (xs ++ ys) ≡ xs
    front [] ys = refl
    front (x ∷ xs) ys = ap (λ (t : List ℕ). x ∷ t) (front xs ys)
read-overwrite (suc offset) src [] = read-overwrite offset src []
read-overwrite (suc offset) src (b ∷ bytes) = read-overwrite offset src bytes

pub length-overwrite :
    (offset : ℕ) (src bytes : List ℕ)
    → (offset + length src ≤ length (overwrite offset src bytes))
      × (length bytes ≤ length (overwrite offset src bytes))
length-overwrite zero src bytes =
    omega (arith, length-append src (drop (length src) bytes), length-drop (length src) bytes)
length-overwrite (suc offset) src [] = omega (arith, length-overwrite offset src [])
length-overwrite (suc offset) src (b ∷ bytes) = omega (arith, length-overwrite offset src bytes)

-- A write behind the first bytes leaves them alone.
pub take-overwrite :
    (n offset : ℕ) (src bytes : List ℕ)
    → n ≤ offset
    → n ≤ length bytes
    → take n (overwrite offset src bytes) ≡ take n bytes
take-overwrite zero offset src bytes h k = refl
take-overwrite (suc n) zero src bytes h k = elim h [ ]
take-overwrite (suc n) (suc offset) src [] h k = elim k [ ]
take-overwrite (suc n) (suc offset) src (b ∷ bytes) h k =
    ap (λ (t : List ℕ). b ∷ t) (take-overwrite n offset src bytes (omega arith) (omega arith))

-- A write in front leaves the rest alone.
pub drop-overwrite_front :
    (src bytes : List ℕ) → drop (length src) (overwrite 0 src bytes) ≡ drop (length src) bytes
drop-overwrite_front src bytes = front src (drop (length src) bytes)
  where
    front : (xs ys : List ℕ) → drop (length xs) (xs ++ ys) ≡ ys
    front [] ys = refl
    front (x ∷ xs) ys = front xs ys
