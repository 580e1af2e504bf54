-- ===== src/Snapshot/Pick.antt =====
-- frothy_snapshot_pick_active and frothy_snapshot_pick_inactive of src/frothy_snapshot.c.
use froth.Base.{ℕ, ◌+◌, ◌%◌, ◌^◌, ◌<◌, ◌≡◌, ◌≢◌, arith, leb, ◌==◌, if◌then◌else◌}
use froth.Status.{Result, ok, err, snapshot_no_snapshot}
use froth.Snapshot.Header.{HeaderInfo}
use froth.Snapshot.Storage.{Storage, read_slot_header}

-- The choice of the slot to load, from the two headers: the slot and its generation.
abbrev pub active_of : Result HeaderInfo → Result HeaderInfo → Result (ℕ × ℕ)
active_of (ok a) (ok b) =
    if leb b.generation a.generation then ok (0, a.generation) else ok (1, b.generation)
active_of (ok a) (err e) = ok (0, a.generation)
active_of (err e) (ok b) = ok (1, b.generation)
active_of (err e) (err f) = err snapshot_no_snapshot

-- `generation + 1` on uint32_t
abbrev pub next_generation : ℕ → ℕ
next_generation g = (g + 1) % 2 ^ 32

-- The choice of the slot to save to, and the generation of the new snapshot.
abbrev pub inactive_of : Result HeaderInfo → Result HeaderInfo → ℕ × ℕ
inactive_of (err e) (err f) = (0, 1)
inactive_of (ok a) (err e) = (1, next_generation a.generation)
inactive_of (err e) (ok b) = (0, next_generation b.generation)
inactive_of (ok a) (ok b) =
    if leb a.generation b.generation
    then (0, next_generation b.generation)
    else (1, next_generation a.generation)

-- frothy_snapshot_pick_active
unfoldable pub pick_active : Storage → Result (ℕ × ℕ)
pick_active st = active_of (read_slot_header 0 st) (read_slot_header 1 st)

-- frothy_snapshot_pick_inactive, which always succeeds
unfoldable pub pick_inactive : Storage → ℕ × ℕ
pick_inactive st = inactive_of (read_slot_header 0 st) (read_slot_header 1 st)

-- Where both headers are valid they have different generations, and no valid header has the last
-- 32-bit generation.
abbrev pub Healthy : Result HeaderInfo → Result HeaderInfo → Type 0
Healthy (ok a) (ok b) =
    (a.generation ≢ b.generation) × (a.generation + 1 < 2 ^ 32) × (b.generation + 1 < 2 ^ 32)
Healthy (ok a) (err e) = a.generation + 1 < 2 ^ 32
Healthy (err e) (ok b) = b.generation + 1 < 2 ^ 32
Healthy (err e) (err f) = Unit

-- The header of a slot, by its number.
abbrev pub header_at : ℕ → Result HeaderInfo → Result HeaderInfo → Result HeaderInfo
header_at slot a b = if slot == 0 then a else b

-- The slot to save to is never the active one.
pub inactive_ne_active :
    (a b : Result HeaderInfo) (slot generation : ℕ)
    → Healthy a b
    → active_of a b ≡ ok (slot, generation)
    → (inactive_of a b).0 ≢ slot
inactive_ne_active (ok a) (ok b) slot g h e = λ q. ground arith
inactive_ne_active (ok a) (err x) slot g h e = λ q. ground arith
inactive_ne_active (err x) (ok b) slot g h e = λ q. ground arith
inactive_ne_active (err x) (err y) slot g h e = cc

-- A header with the chosen generation, written to the chosen slot, makes that slot active.
pub active-inactive :
    (a b : Result HeaderInfo) (i : HeaderInfo)
    → Healthy a b
    → i.generation ≡ (inactive_of a b).1
    → (if (inactive_of a b).0 == 0 then active_of (ok i) b else active_of a (ok i))
      ≡ ok (inactive_of a b)
active-inactive (ok a) (ok b) i h e = ground arith
active-inactive (ok a) (err x) i h e = ground arith
active-inactive (err x) (ok b) i h e = ground arith
active-inactive (err x) (err y) i h e = ground arith
