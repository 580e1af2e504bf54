-- ===== src/Codec/Fields.antt =====
-- The fields of the format in src/frothy_snapshot_codec.c: each is read as it was written.
use froth.Base.{
  ℕ, suc, ◌%◌, ◌^◌, ◌<◌, ◌≡◌, refl, sym, ap, ◌∙◌, true, false, List, [], ◌∷◌, ◌++◌, arith, leb, ltb,
  ◌==◌, length, take, drop, Bool-cases, inl, inr, length-append,
}
use froth.Base.Int.{ℤ, IsInt32, to_u32, to_i32-to_u32, to_u32-lt}
use froth.Status.{Result, ok, err, snapshot_overflow}
use froth.Snapshot.Le.{le16, le32, read_le16, read_le32, read_le}
use froth.Codec.Put.{
  Put, Writer, write_bytes, write_u8, write_u16, write_u32, write_i32, write_string, has_space,
}
use froth.Codec.Get.{Get, read_bytes, read_u8, read_u16, read_u32, read_i32, read_string_bytes}
use froth.Codec.Transmit.{Sends, Sends-next}

take-append : (bs rest : List ℕ) → take (length bs) (bs ++ rest) ≡ bs
take-append [] rest = refl
take-append (b ∷ bs) rest = ap (λ (t : List ℕ). b ∷ t) (take-append bs rest)

pub drop-append : (bs rest : List ℕ) → drop (length bs) (bs ++ rest) ≡ rest
drop-append [] rest = refl
drop-append (b ∷ bs) rest = drop-append bs rest

-- A write that succeeds appends its bytes.
pub write_bytes-ok :
    (bs : List ℕ) (w w' : Writer)
    → write_bytes bs w ≡ (ok tt, w')
    → w' ≡ record w { bytes = w.bytes ++ bs }
unfolding write_bytes
write_bytes-ok bs w w' e = elim (Bool-cases (has_space w (length bs))) [
  | inl h ↦
      let full : write_bytes bs w ≡ (ok tt, record w { bytes = w.bytes ++ bs }) = rw h refl in
      ap (λ (t : Result (Unit {0}) × Writer). t.1) (sym e ∙ full)
  | inr h ↦
      let none_left : write_bytes bs w ≡ (err snapshot_overflow, w) = rw h refl in
      let bad : err snapshot_overflow ≡ ok tt =
        ap (λ (t : Result (Unit {0}) × Writer). t.0) (sym none_left ∙ e) in
      cc
]

pub bytes-Sends : (bs : List ℕ) → Sends (write_bytes bs) (read_bytes (length bs)) bs
unfolding read_bytes
bytes-Sends bs = record {
  run = λ w w' e. (
    bs,
    write_bytes-ok bs w w' e,
    λ rest.
        let enough : leb (length bs) (length (bs ++ rest)) ≡ true =
          ground (arith, length-append bs rest) in
        rw (enough, take-append bs rest, drop-append bs rest) refl,
  );
}

pub u8-Sends : (v : ℕ) → v < 2 ^ 8 → Sends (write_u8 v) read_u8 v
unfolding read_u8
u8-Sends v h = record {
  run = λ w w' e. (
    v % 2 ^ 8 ∷ [],
    write_bytes-ok (v % 2 ^ 8 ∷ []) w w' e,
    λ rest.
        let enough : leb 1 (suc (length rest)) ≡ true = ground arith in
        let same : v % 2 ^ 8 ≡ v = omega arith in rw (enough, same) refl,
  );
}

pub u16-Sends : (v : ℕ) → v < 2 ^ 16 → Sends (write_u16 v) read_u16 v
unfolding read_u16 le16
u16-Sends v h = record {
  run = λ w w' e. (
    le16 v,
    write_bytes-ok (le16 v) w w' e,
    λ rest.
        let enough : leb 2 (suc (suc (length rest))) ≡ true = ground arith in
        let same : read_le16 (le16 v ++ rest) ≡ v = omega (arith, (read_le v rest).0) in
        rw (enough, same) refl,
  );
}

pub u32-Sends : (v : ℕ) → v < 2 ^ 32 → Sends (write_u32 v) read_u32 v
unfolding read_u32 le32
u32-Sends v h = record {
  run = λ w w' e. (
    le32 v,
    write_bytes-ok (le32 v) w w' e,
    λ rest.
        let enough : leb 4 (suc (suc (suc (suc (length rest))))) ≡ true = ground arith in
        let same : read_le32 (le32 v ++ rest) ≡ v = omega (arith, (read_le v rest).1) in
        rw (enough, same) refl,
  );
}

pub i32-Sends : (z : ℤ) → IsInt32 z → Sends (write_i32 z) read_i32 z
i32-Sends z h = record {
  run = λ w w' e.
      let (bs, p, q) = (u32-Sends (to_u32 z) (to_u32-lt z)).run w w' e in
      (bs, p, λ rest. rw (q rest) (ap (λ (x : ℤ). ok (x, rest)) (to_i32-to_u32 z h)));
}

-- A string that is not empty and that the writer takes.
pub string-Sends :
    (text : List ℕ) → 0 < length text → Sends (write_string text) read_string_bytes text
unfolding write_string read_string_bytes
string-Sends text h = elim (Bool-cases (ltb 0xFFFF (length text))) [
  | inl long ↦ record {
    run = λ w w' e.
        let refused : write_string text w ≡ (err snapshot_overflow, w) = rw long refl in
        let bad : err snapshot_overflow ≡ ok tt =
          ap (λ (t : Result (Unit {0}) × Writer). t.0) (sym refused ∙ e) in
        cc;
  }
  | inr fits ↦
      let some_bytes : (length text == 0) ≡ false = ground arith in
      rw fits
        (Sends-next (u16-Sends (length text) (ground arith)) _ (rw some_bytes (bytes-Sends text)))
]

-- What is read from the bytes that a writer added.
pub received :
    {A : Type 0} {m : Put} {r : Get (List ℕ) A} {a : A}
    → Sends m r a
    → (w w' : Writer) (rest : List ℕ) → m w ≡ (ok tt, w')
    → r (drop (length w.bytes) w'.bytes ++ rest) ≡ ok (a, rest)
received {r = r} sends w w' rest e =
    let (bs, p, q) = sends.run w w' e in
    let added : drop (length w.bytes) w'.bytes ≡ bs =
      ap (λ (v : Writer). drop (length w.bytes) v.bytes) p ∙ drop-append w.bytes bs in
    ap (λ (x : List ℕ). r (x ++ rest)) added ∙ q rest
