-- ===== src/Snapshot/Crash.antt =====
-- What a save of src/frothy_snapshot.c that stops between its two writes leaves.
use froth.Base.{
  ℕ, ◌≤◌, ◌<◌, ◌≡◌, refl, sym, ap, ◌∙◌, Bool, true, ◌||◌, Option, none, some, List, [], ◌∷◌, arith,
  leb, ◌==◌, length, Bool-cases, inl, inr,
}
use froth.Status.{Error, Result, ok, err, snapshot_format, ◌>>=◌}
use mathlib.Core.Path.{subst}
use froth.Snapshot.Header.{HeaderInfo, parse_header, header_size}
use froth.Snapshot.Storage.{
  Storage, file_of, with_file, contents, overwrite, read_file, snapshot_read, read_slot_header,
  length-overwrite, take-overwrite,
}
use froth.Snapshot.Pick.{active_of, pick_active, pick_inactive, inactive_ne_active}
use froth.Snapshot.Save.{write_payload, file_between, write_payload-eq}
use froth.Snapshot.Saved.{HealthyHeaders, read_file-eq, file_other, slot_is_binary}

-- Each file is missing, empty or holds at least a header.
abbrev pub is_sized : Option (List ℕ) → Bool
is_sized f = length (contents f) == 0 || leb header_size (length (contents f))

abbrev pub Same : Result HeaderInfo → Result HeaderInfo → Type 0
Same (ok a) r = r ≡ ok a
Same (err e) r = (x : Error) × (r ≡ err x)

active_of-Same :
    (a b a' b' : Result HeaderInfo) → Same a a' → Same b b' → active_of a' b' ≡ active_of a b
active_of-Same (ok a) (ok b) a' b' p q = rw (p, q)
active_of-Same (ok a) (err x) a' b' p q = rw (p, q.1)
active_of-Same (err x) (ok b) a' b' p q = rw (p.1, q)
active_of-Same (err x) (err y) a' b' p q = rw (p.1, q.1)

Same-refl : (a : Result HeaderInfo) → Same a a
Same-refl (ok a) = refl
Same-refl (err e) = (e, refl)

-- A missing or empty file has no valid header, before and after.
new_file :
    (bytes : List ℕ)
    → 0 < length bytes
    → (x : Error) × ((read_file (some (overwrite 50 bytes [])) 0 header_size >>= parse_header)
        ≡ err x)
unfolding parse_header
new_file bytes h = (
  snapshot_format,
  ap (λ (r : Result (List ℕ)). r >>= parse_header)
      (read_file-eq (overwrite 50 bytes []) 0 50 (omega arith)
        (omega (arith, length-overwrite 50 bytes []))),
)

-- A write behind the header keeps a header that is there, and makes none that is valid.
header_kept :
    (bytes : List ℕ) (f : Option (List ℕ))
    → 0 < length bytes
    → is_sized f ≡ true
    → Same
        (read_file f 0 header_size >>= parse_header)
        (read_file (some (file_between bytes f)) 0 header_size >>= parse_header)
header_kept bytes none h s = new_file bytes h
header_kept bytes (some []) h s = new_file bytes h
header_kept bytes (some (c ∷ cs)) h s =
    subst (Same (read_file (some (c ∷ cs)) 0 header_size >>= parse_header)) (sym kept)
      (Same-refl (read_file (some (c ∷ cs)) 0 header_size >>= parse_header))
  where
    whole : 50 ≤ length (c ∷ cs)
    whole = ground arith

    kept :
        (read_file (some (file_between bytes (some (c ∷ cs)))) 0 header_size >>= parse_header)
        ≡ (read_file (some (c ∷ cs)) 0 header_size >>= parse_header)
    kept =
        ap (λ (r : Result (List ℕ)). r >>= parse_header)
          (read_file-eq (overwrite 50 bytes (c ∷ cs)) 0 50 (omega arith)
              (omega (arith, length-overwrite 50 bytes (c ∷ cs)))
            ∙ ap ok (take-overwrite 50 50 bytes (c ∷ cs) (omega arith) whole)
            ∙ sym (read_file-eq (c ∷ cs) 0 50 (omega arith) whole))

-- The storage after a save that wrote these bytes behind the header's place, and then stopped.
abbrev pub cut_short : List ℕ → Storage → Storage
cut_short bytes st = (write_payload (pick_inactive st).0 bytes st).1

module _ (bytes : List ℕ) (st : Storage) (some_bytes : 0 < length bytes) where
  cut-file :
      cut_short bytes st
      ≡ with_file
          (pick_inactive st).0
          (some (file_between bytes (file_of (pick_inactive st).0 st)))
          st
  cut-file =
      ap (λ (r : Result (Unit {0}) × Storage). r.1)
        (write_payload-eq bytes st some_bytes (pick_inactive st).0)

  -- Where no valid header has the last 32-bit generation, two valid headers have different
  -- generations, and some slot is active, a save of at least one byte that stops behind its first
  -- write leaves the file of the active slot as it was, however long or short the two files are.
  pub active_file-cut_short :
      (k g : ℕ)
      → HealthyHeaders st
      → pick_active st ≡ ok (k, g)
      → file_of k (cut_short bytes st) ≡ file_of k st
  unfolding pick_active
  active_file-cut_short k g healthy e = rw cut-file (
      file_other (pick_inactive st).0 k _ st slot-binary
        (active-lt (read_slot_header 0 st) (read_slot_header 1 st) k g e)
        (unfold pick_inactive in
          inactive_ne_active (read_slot_header 0 st) (read_slot_header 1 st) k g healthy e))
    where
      slot-binary : (pick_inactive st).0 < 2
      slot-binary =
          unfold pick_inactive in slot_is_binary (read_slot_header 0 st) (read_slot_header 1 st)

      active-lt : (a b : Result HeaderInfo) (k g : ℕ) → active_of a b ≡ ok (k, g) → k < 2
      active-lt (ok a) (ok b) k g e = ground arith
      active-lt (ok a) (err x) k g e = ground arith
      active-lt (err x) (ok b) k g e = ground arith
      active-lt (err x) (err y) k g e = cc

  module _ (sized_a : is_sized st.file_a ≡ true) (sized_b : is_sized st.file_b ≡ true) where
    written_at :
        (k : ℕ)
        → let st' = with_file k (some (file_between bytes (file_of k st))) st in
          Same (read_slot_header 0 st) (read_slot_header 0 st')
          × Same (read_slot_header 1 st) (read_slot_header 1 st')
    unfolding read_slot_header snapshot_read
    written_at k = elim (Bool-cases (k == 0)) [
      | inl e ↦
          rw e (header_kept bytes st.file_a some_bytes sized_a, Same-refl (read_slot_header 1 st))
      | inr e ↦
          rw e (Same-refl (read_slot_header 0 st), header_kept bytes st.file_b some_bytes sized_b)
    ]

    -- If each file is missing, empty or as long as a header, then a save that stops behind its first
    -- write, whatever bytes that wrote, leaves the same slot with the same generation active.
    pub pick_active-cut_short : pick_active (cut_short bytes st) ≡ pick_active st
    unfolding pick_active
    pick_active-cut_short =
        let headers = written_at (pick_inactive st).0 in
        rw cut-file
          (active_of-Same (read_slot_header 0 st) (read_slot_header 1 st) _ _ headers.0 headers.1)
