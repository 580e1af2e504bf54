-- ===== src/Snapshot/Restore.antt =====
-- frothy_snapshot_restore and frothy_snapshot_wipe of src/frothy_snapshot.c, over the state of the
-- runtime. The base image's reset (src/frothy_base_image.c) and the codec's check and replay of a
-- payload (src/frothy_snapshot_codec.c) are arguments; `max_payload` is
-- FROTH_SNAPSHOT_MAX_PAYLOAD_BYTES and `capacity` the size of the codec's payload buffer.
use froth.Base.{
  ℕ, ◌%◌, ◌^◌, ◌≤◌, ◌<◌, ◌≡◌, refl, ap, ◌∙◌, true, false, not, ◌||◌, Option, some, List, arith, ltb,
  ◌==◌, if◌then◌else◌, length, take-length,
}
use froth.Status.{Error, Exec, Result, ok, err, after, snapshot_overflow, snapshot_bad_crc}
use froth.Crc32.{crc32}
use froth.Crc32.Detect.{AreBytes}
use froth.Snapshot.Header.{
  HeaderInfo, parse_header, build_header, header_size, stored_crc32, parse-build_header,
  stored_crc32-build_header,
}
use froth.Snapshot.Storage.{Storage, file_of, read_file, snapshot_erase}
use froth.Snapshot.Pick.{pick_active, pick_inactive}
use froth.Snapshot.Save.{file_after}
use froth.Snapshot.Saved.{
  read_header_back, read_payload_back, saved, saved-file, pick_active-save, HealthyHeaders,
}
use froth.Snapshot.Crash.{cut_short, pick_active-cut_short, active_file-cut_short, is_sized}

module _ {R : Type 0} (reset : Exec R (Unit {0})) (validate : List ℕ → Result (Unit {0}))
    (restore_payload : List ℕ → Exec R (Unit {0})) (max_payload capacity : ℕ) where
  abbrev with_error : Error → Result (Unit {0}) × R → Result (Unit {0}) × R
  with_error e (ok u, r) = (err e, r)
  with_error e (err x, r) = (err x, r)

  -- frothy_snapshot_reset_with_error
  pub reset_with_error : Error → Exec R (Unit {0})
  reset_with_error e r = with_error e (reset r)

  abbrev or_reset : Result (Unit {0}) × R → Result (Unit {0}) × R
  or_reset (ok u, r) = (ok u, r)
  or_reset (err e, r) = reset_with_error e r

  -- From a payload that passed its checks on: the base image, then the payload.
  pub replay : List ℕ → Exec R (Unit {0})
  replay payload r = after (reset r).0 (reset r).1 (λ _ s. or_reset (restore_payload payload s))

  abbrev checked : Result (Unit {0}) → List ℕ → Exec R (Unit {0})
  checked (ok u) payload r = replay payload r
  checked (err e) payload r = reset_with_error e r

  -- The checks of a payload that was read.
  abbrev check_payload : List ℕ → Result (List ℕ) → Exec R (Unit {0})
  check_payload header (err e) r = reset_with_error e r
  check_payload header (ok payload) r =
      if not (crc32 payload == stored_crc32 header)
      then reset_with_error snapshot_bad_crc r
      else checked (validate payload) payload r

  abbrev load : Option (List ℕ) → List ℕ → Result HeaderInfo → Exec R (Unit {0})
  load f header (err e) r = reset_with_error e r
  load f header (ok info) r =
      if ltb max_payload info.payload_len || ltb capacity info.payload_len
      then reset_with_error snapshot_overflow r
      else check_payload header (read_file f header_size info.payload_len) r

  abbrev load_header : Option (List ℕ) → Result (List ℕ) → Exec R (Unit {0})
  load_header f (err e) r = reset_with_error e r
  load_header f (ok header) r = load f header (parse_header header) r

  -- The part that reads the file of the active slot.
  restore_file : Option (List ℕ) → Exec R (Unit {0})
  restore_file f r = load_header f (read_file f 0 header_size) r

  abbrev restore_active : Result (ℕ × ℕ) → Storage → Exec R (Unit {0})
  restore_active (err e) st r = reset_with_error e r
  restore_active (ok (slot, generation)) st r = restore_file (file_of slot st) r

  -- frothy_snapshot_restore
  unfoldable pub restore : Storage → Exec R (Unit {0})
  unfolding restore_file
  restore st r = restore_active (pick_active st) st r

  -- frothy_snapshot_wipe
  pub wipe : Storage → R → Result (Unit {0}) × Storage × R
  wipe st r = let (status, r') = reset r in (status, snapshot_erase 1 (snapshot_erase 0 st), r')

  -- A file with a good header and payload is replayed.
  load-good :
      (f : Option (List ℕ)) (header payload : List ℕ) (info : HeaderInfo) (r : R)
      → info.payload_len ≡ length payload
      → length payload ≤ max_payload
      → length payload ≤ capacity
      → read_file f header_size (length payload) ≡ ok payload
      → stored_crc32 header ≡ crc32 payload
      → validate payload ≡ ok tt
      → load f header (ok info) r ≡ replay payload r
  load-good f header payload info r len fits fits' read stored accepted =
      let a : ltb max_payload info.payload_len ≡ false = ground arith in
      let b : ltb capacity info.payload_len ≡ false = ground arith in
      let crc_ok : (crc32 payload == stored_crc32 header) ≡ true = ground (arith, stored) in
      rw (a, b)
        (ap (λ (n : ℕ). check_payload header (read_file f header_size n) r) len
          ∙ ap (λ (p : Result (List ℕ)). check_payload header p r) read
          ∙ (rw (crc_ok, accepted) refl))

  restore_file-saved :
      (payload : List ℕ) (generation : ℕ) (f : Option (List ℕ)) (r : R)
      → 0 < length payload
      → AreBytes payload
      → length payload < 2 ^ 32
      → length payload ≤ max_payload
      → length payload ≤ capacity
      → validate payload ≡ ok tt
      → restore_file (some (file_after generation payload f)) r ≡ replay payload r
  unfolding restore_file
  restore_file-saved payload generation f r some_bytes bytes small fits fits' accepted =
      ap (λ (h : Result (List ℕ)). load_header (some (file_after generation payload f)) h r)
        (read_header_back payload generation f some_bytes)
      ∙ ap
          (λ (h : Result HeaderInfo).
            load (some (file_after generation payload f))
              (build_header (length payload) payload generation) h r)
          (parse-build_header (length payload) payload generation)
      ∙ load-good (some (file_after generation payload f))
          (build_header (length payload) payload generation) payload
          (record {
            payload_len = length payload % 2 ^ 32;
            generation = generation % 2 ^ 32;
            flags = 0;
          })
          r (omega (arith, small)) fits fits' (read_payload_back payload generation f some_bytes)
          (stored_crc32-build_header (length payload) payload generation bytes
            ∙ ap crc32 (take-length payload))
          accepted

  module _ (payload : List ℕ) (st : Storage) (some_bytes : 0 < length payload)
      (healthy : HealthyHeaders st) where
    -- A restore after a save, from healthy headers, replays exactly the payload that was saved, if
    -- the codec accepts it and it is within the size limits.
    pub restore-save :
        (r : R)
        → AreBytes payload
        → length payload < 2 ^ 32
        → length payload ≤ max_payload
        → length payload ≤ capacity
        → validate payload ≡ ok tt
        → restore (saved payload st) r ≡ replay payload r
    unfolding restore
    restore-save r bytes small fits fits' accepted =
        ap (λ (p : Result (ℕ × ℕ)). restore_active p (saved payload st) r)
          (pick_active-save payload st some_bytes healthy)
        ∙ ap (λ (f : Option (List ℕ)). restore_file f r) (saved-file payload st some_bytes)
        ∙ restore_file-saved payload (pick_inactive st).1 (file_of (pick_inactive st).0 st) r
            some_bytes bytes small fits fits' accepted

  module _ (bytes : List ℕ) (st : Storage) (some_bytes : 0 < length bytes)
      (sized_a : is_sized st.file_a ≡ true) (sized_b : is_sized st.file_b ≡ true)
      (healthy : HealthyHeaders st) where
    -- From healthy headers, with each file missing, empty or as long as a header: if a save stops
    -- behind its first write, whatever bytes that wrote, a restore has the result and the effect that
    -- it had before the save.
    pub restore-cut_short : (r : R) → restore (cut_short bytes st) r ≡ restore st r
    unfolding restore
    restore-cut_short r =
        rw (pick_active-cut_short bytes st some_bytes sized_a sized_b) (kept (pick_active st) refl)
      where
        kept :
            (p : Result (ℕ × ℕ))
            → pick_active st ≡ p
            → restore_active p (cut_short bytes st) r ≡ restore_active p st r
        kept (err e) q = refl
        kept (ok (k, g)) q =
            ap (λ (f : Option (List ℕ)). restore_file f r)
              (active_file-cut_short bytes st some_bytes k g healthy q)
