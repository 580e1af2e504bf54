-- ===== src/Tests/Snapshot.antt =====
-- The snapshots of src/frothy_snapshot.c, at a concrete state: a runtime that is the bytes it holds.
use froth.Base.{ℕ, ◌≡◌, ◌++◌, refl, ap₂, true, none, some, List, [], ◌∷◌, arith}
use froth.Status.{Exec, Result, ok, err, io}
use froth.Crc32.{crc32}
use froth.Snapshot.Le.{le16, le32, read_le16, read_le32, read_le}
use froth.Snapshot.Header.{
  build_header, parse_header, stored_crc32, parse-build_header, stored_crc32-build_header,
}
use froth.Snapshot.Storage.{Storage, file_of, read_slot_header, snapshot_read}
use froth.Snapshot.Pick.{active_of, inactive_of, pick_active, pick_inactive}
use froth.Snapshot.Saved.{HealthyHeaders, saved}
use froth.Snapshot.Crash.{is_sized, cut_short, pick_active-cut_short, active_file-cut_short}
use froth.Snapshot.Restore.{restore, replay, restore-save, restore-cut_short}

abbrev payload : List ℕ
payload = 1 ∷ 2 ∷ 3 ∷ []

abbrev bytes : List ℕ
bytes = 7 ∷ 8 ∷ []

-- The payload with generation 4 in slot 0, nothing in slot 1.
abbrev storage : Storage
storage = record { file_a = some (build_header 3 payload 4 ++ payload); file_b = none }

header_0 : read_slot_header 0 storage ≡ ok (record { payload_len = 3; generation = 4; flags = 0 })
unfolding read_slot_header snapshot_read build_header le16 le32
header_0 = parse-build_header 3 payload 4

header_1 : read_slot_header 1 storage ≡ err io
unfolding read_slot_header snapshot_read
header_1 = refl

storage-Healthy : HealthyHeaders storage
storage-Healthy = rw (header_0, header_1) (omega arith)

active : pick_active storage ≡ ok (0, 4)
unfolding pick_active
active = ap₂ active_of header_0 header_1

inactive : pick_inactive storage ≡ (1, 5)
unfolding pick_inactive
inactive = ap₂ inactive_of header_0 header_1

sized : is_sized storage.file_a ≡ true
unfolding build_header le16 le32
sized = refl

parse-build_header_example :
    parse_header (build_header 3 payload 4)
    ≡ ok (record { payload_len = 3; generation = 4; flags = 0 })
parse-build_header_example = parse-build_header 3 payload 4

stored_crc32-build_header_example : stored_crc32 (build_header 3 payload 4) ≡ crc32 payload
stored_crc32-build_header_example = stored_crc32-build_header 3 payload 4 (omega arith)

read_le_example :
    (read_le16 (le16 65537 ++ payload) ≡ 1) × (read_le32 (le32 65537 ++ payload) ≡ 65537)
read_le_example = read_le 65537 payload

pick_active-cut_short_example : pick_active (cut_short bytes storage) ≡ pick_active storage
pick_active-cut_short_example = pick_active-cut_short bytes storage (omega arith) sized refl

active_file-cut_short_example : file_of 0 (cut_short bytes storage) ≡ file_of 0 storage
active_file-cut_short_example =
    active_file-cut_short bytes storage (omega arith) 0 4 storage-Healthy active

-- The runtime's parts that a restore uses.
abbrev clear : Exec (List ℕ) (Unit {0})
clear r = (ok tt, [])

abbrev accept : List ℕ → Result (Unit {0})
accept p = ok tt

abbrev put : List ℕ → Exec (List ℕ) (Unit {0})
put p r = (ok tt, p ++ r)

restore-save_example :
    restore clear accept put 100 100 (saved bytes storage) payload
    ≡ replay clear accept put 100 100 bytes payload
restore-save_example =
    restore-save clear accept put 100 100 bytes storage (omega arith) storage-Healthy payload
      (omega arith) (omega arith) (omega arith) (omega arith) refl

restore-cut_short_example :
    restore clear accept put 100 100 (cut_short bytes storage) payload
    ≡ restore clear accept put 100 100 storage payload
restore-cut_short_example =
    restore-cut_short clear accept put 100 100 bytes storage (omega arith) sized refl
      storage-Healthy payload
