-- ===== src/Snapshot/Save.antt =====
-- frothy_snapshot_save of src/frothy_snapshot.c. The payload is what
-- frothy_snapshot_codec_write_payload returned: its bytes, or its error.
use froth.Base.{ℕ, ◌<◌, ◌≡◌, ap, ◌∙◌, false, Option, some, List, arith, ◌==◌, length}
use froth.Status.{Exec, Result, ok, err, bind}
use froth.Snapshot.Header.{build_header, header_size, length-build_header}
use froth.Snapshot.Storage.{Storage, file_of, with_file, contents, overwrite, snapshot_write}
use froth.Snapshot.Pick.{pick_inactive}

-- The second write: the header, behind a successful write of the payload.
abbrev pub write_header : ℕ → ℕ → List ℕ → Exec Storage (Unit {0})
write_header slot generation payload =
    snapshot_write slot 0 (build_header (length payload) payload generation)

-- The first write.
abbrev pub write_payload : ℕ → List ℕ → Exec Storage (Unit {0})
write_payload slot payload = snapshot_write slot header_size payload

save_payload : Result (List ℕ) → Exec Storage (Unit {0})
save_payload (err e) st = (err e, st)
save_payload (ok payload) st =
    let (slot, generation) = pick_inactive st in
    bind (write_payload slot payload) (λ _. write_header slot generation payload) st

-- frothy_snapshot_save
unfoldable pub save : Result (List ℕ) → Exec Storage (Unit {0})
unfolding save_payload
save payload = save_payload payload

-- The files that the two writes leave at the slot.
abbrev pub file_between : List ℕ → Option (List ℕ) → List ℕ
file_between payload f = overwrite header_size payload (contents f)

abbrev pub file_after : ℕ → List ℕ → Option (List ℕ) → List ℕ
file_after generation payload f =
    overwrite 0 (build_header (length payload) payload generation) (file_between payload f)

module _ (payload : List ℕ) (st : Storage) (some_bytes : 0 < length payload) where
  abbrev slot : ℕ
  slot = (pick_inactive st).0

  abbrev generation : ℕ
  generation = (pick_inactive st).1

  -- The state between the two writes.
  pub write_payload-eq :
      (k : ℕ)
      → write_payload k payload st
        ≡ (ok tt, with_file k (some (file_between payload (file_of k st))) st)
  unfolding snapshot_write
  write_payload-eq k = let not_empty : (length payload == 0) ≡ false = ground arith in rw not_empty

  file_of-with : (k : ℕ) (f : Option (List ℕ)) → file_of k (with_file k f st) ≡ f
  file_of-with k f = ground arith

  with-with : (k : ℕ) (f g : Option (List ℕ)) → with_file k g (with_file k f st) ≡ with_file k g st
  with-with k f g = ground arith

  -- `save` of a non-empty payload succeeds, and replaces the file of the inactive slot by one with
  -- the new header and the payload; the other slot's file is not touched.
  pub save_lem :
      save (ok payload) st
      ≡ (ok tt, with_file slot (some (file_after generation payload (file_of slot st))) st)
  unfolding save
  save_lem =
      ap
        (λ (r : Result (Unit {0}) × Storage).
          bind (λ _. r) (λ _. write_header slot generation payload) st)
        (write_payload-eq slot)
      ∙ second
    where
      between : Storage
      between = with_file slot (some (file_between payload (file_of slot st))) st

      second :
          write_header slot generation payload between
          ≡ (ok tt, with_file slot (some (file_after generation payload (file_of slot st))) st)
      second =
          let sized : (length (build_header (length payload) payload generation) == 0) ≡ false =
            rw (length-build_header (length payload) payload generation) in
          unfold snapshot_write in
          rw (sized, file_of-with slot (some (file_between payload (file_of slot st))))
            (ap (λ (t : Storage). (ok tt, t))
              (with-with slot (some (file_between payload (file_of slot st)))
                (some (file_after generation payload (file_of slot st)))))
