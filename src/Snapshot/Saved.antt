-- ===== src/Snapshot/Saved.antt =====
-- What a complete save of src/frothy_snapshot.c leaves: what the two slots and the choice of the
-- active one read after it.
use froth.Base.{
  ℕ, ◌+◌, ◌%◌, ◌^◌, ◌≤◌, ◌<◌, ◌≡◌, ◌≢◌, refl, sym, ap, ap₂, ◌∙◌, false, Option, some, List, arith,
  ltb, ◌==◌, if◌then◌else◌, length, take, drop, Bool-cases, inl, inr,
}
use froth.Status.{Result, ok, err, ◌>>=◌}
use froth.Snapshot.Header.{
  HeaderInfo, build_header, parse_header, header_size, parse-build_header, length-build_header,
}
use froth.Snapshot.Storage.{
  Storage, file_of, with_file, contents, read_file, snapshot_read, read_slot_header, read-overwrite,
  length-overwrite, drop-overwrite_front,
}
use froth.Snapshot.Pick.{
  active_of, inactive_of, pick_active, pick_inactive, Healthy, active-inactive,
}
use froth.Snapshot.Save.{save, file_between, file_after, save_lem}

abbrev pub HealthyHeaders : Storage → Type 0
HealthyHeaders st = Healthy (read_slot_header 0 st) (read_slot_header 1 st)

generation-lt : (a b : Result HeaderInfo) → (inactive_of a b).1 < 2 ^ 32
generation-lt (ok a) (ok b) = ground arith
generation-lt (ok a) (err x) = ground arith
generation-lt (err x) (ok b) = ground arith
generation-lt (err x) (err y) = ground arith

pub slot_is_binary : (a b : Result HeaderInfo) → (inactive_of a b).0 < 2
slot_is_binary (ok a) (ok b) = ground arith
slot_is_binary (ok a) (err x) = ground arith
slot_is_binary (err x) (ok b) = ground arith
slot_is_binary (err x) (err y) = ground arith

-- A read inside a file.
pub read_file-eq :
    (bytes : List ℕ) (offset len : ℕ)
    → 0 < len
    → offset + len ≤ length bytes
    → read_file (some bytes) offset len ≡ ok (take len (drop offset bytes))
read_file-eq bytes offset len h k =
    let a : (len == 0) ≡ false = ground arith in
    let b : ltb (length bytes) (offset + len) ≡ false = ground arith in rw (a, b)

module _ (payload : List ℕ) (generation : ℕ) (f : Option (List ℕ))
    (some_bytes : 0 < length payload) where
  abbrev the_header : List ℕ
  the_header = build_header (length payload) payload generation

  size : length the_header ≡ 50
  size = length-build_header (length payload) payload generation

  long_enough : 50 + length payload ≤ length (file_after generation payload f)
  long_enough = omega (
    arith,
    length-overwrite 0 the_header (file_between payload f),
    length-overwrite 50 payload (contents f),
  )

  -- The two reads that find what was saved.
  pub read_header_back :
      read_file (some (file_after generation payload f)) 0 header_size ≡ ok the_header
  read_header_back =
      read_file-eq (file_after generation payload f) 0 50 (omega arith) (omega (arith, long_enough))
      ∙ ap (λ (n : ℕ). ok (take n (file_after generation payload f))) (sym size)
      ∙ ap ok (read-overwrite 0 the_header (file_between payload f))

  pub read_payload_back :
      read_file (some (file_after generation payload f)) header_size (length payload) ≡ ok payload
  read_payload_back =
      read_file-eq (file_after generation payload f) 50 (length payload) some_bytes long_enough
      ∙ ap (λ (n : ℕ). ok (take (length payload) (drop n (file_after generation payload f))))
          (sym size)
      ∙ ap (λ (t : List ℕ). ok (take (length payload) t))
          (drop-overwrite_front the_header (file_between payload f))
      ∙ ap (λ (n : ℕ). ok (take (length payload) (drop n (file_between payload f)))) size
      ∙ ap ok (read-overwrite 50 payload (contents f))

abbrev pub saved : List ℕ → Storage → Storage
saved payload st = (save (ok payload) st).1

-- The files behind the two slot numbers.
file_self : (k : ℕ) (f : Option (List ℕ)) (st : Storage) → file_of k (with_file k f st) ≡ f
file_self k f st = ground arith

pub file_other :
    (k j : ℕ) (f : Option (List ℕ)) (st : Storage)
    → k < 2
    → j < 2
    → k ≢ j
    → file_of j (with_file k f st) ≡ file_of j st
file_other k j f st a b h = ground arith

module _ (payload : List ℕ) (st : Storage) (some_bytes : 0 < length payload) where
  abbrev slot : ℕ
  slot = (pick_inactive st).0

  abbrev generation : ℕ
  generation = (pick_inactive st).1

  slot-lt : slot < 2
  slot-lt = unfold pick_inactive in slot_is_binary (read_slot_header 0 st) (read_slot_header 1 st)

  pub saved-file :
      file_of slot (saved payload st) ≡ some (file_after generation payload (file_of slot st))
  saved-file =
      ap (λ (r : Result (Unit {0}) × Storage). file_of slot r.1) (save_lem payload st some_bytes)
      ∙ file_self slot (some (file_after generation payload (file_of slot st))) st

  saved-other : (j : ℕ) → j < 2 → slot ≢ j → file_of j (saved payload st) ≡ file_of j st
  saved-other j h k =
      ap (λ (r : Result (Unit {0}) × Storage). file_of j r.1) (save_lem payload st some_bytes)
      ∙ file_other slot j (some (file_after generation payload (file_of slot st))) st slot-lt h k

  info : HeaderInfo
  info = record { payload_len = length payload % 2 ^ 32; generation = generation; flags = 0 }

  header-saved : read_slot_header slot (saved payload st) ≡ ok info
  unfolding read_slot_header snapshot_read info
  header-saved =
      ap (λ (f : Option (List ℕ)). read_file f 0 header_size >>= parse_header) saved-file
      ∙ ap (λ (r : Result (List ℕ)). r >>= parse_header)
          (read_header_back payload generation (file_of slot st) some_bytes)
      ∙ parse-build_header (length payload) payload generation
      ∙ ap
          (λ (g : ℕ).
            ok (record { payload_len = length payload % 2 ^ 32; generation = g; flags = 0 }))
          small
    where
      small : generation % 2 ^ 32 ≡ generation
      small =
          unfold pick_inactive in
          omega (arith, generation-lt (read_slot_header 0 st) (read_slot_header 1 st))

  header-other :
      (j : ℕ) → j < 2 → slot ≢ j → read_slot_header j (saved payload st) ≡ read_slot_header j st
  unfolding read_slot_header snapshot_read
  header-other j h k =
      ap (λ (f : Option (List ℕ)). read_file f 0 header_size >>= parse_header) (saved-other j h k)

  module _ (healthy : HealthyHeaders st) where
    -- After a save from healthy headers the saved slot is the active one, with the new generation.
    pub pick_active-save : pick_active (saved payload st) ≡ ok (pick_inactive st)
    unfolding pick_active
    pick_active-save =
        let to_slot : (if slot == 0
              then active_of (ok info) (read_slot_header 1 st)
              else active_of (read_slot_header 0 st) (ok info))
            ≡ ok (pick_inactive st) =
          unfold pick_inactive in
          active-inactive (read_slot_header 0 st) (read_slot_header 1 st) info healthy
            (unfold info pick_inactive in refl) in
        elim (Bool-cases (slot == 0)) [
          | inl e ↦
              let zero' : slot ≡ 0 = ground arith in
              ap₂ active_of
                (ap (λ (k : ℕ). read_slot_header k (saved payload st)) (sym zero') ∙ header-saved)
                (header-other 1 (omega arith) (λ q. omega (arith, q, zero')))
              ∙ (rw e at to_slot)
          | inr e ↦
              let one' : slot ≡ 1 = ground (arith, slot-lt) in
              ap₂ active_of (header-other 0 (omega arith) (λ q. omega (arith, q, one')))
                (ap (λ (k : ℕ). read_slot_header k (saved payload st)) (sym one') ∙ header-saved)
              ∙ (rw e at to_slot)
        ]
