-- ===== src/Snapshot.antt =====
-- src/frothy_snapshot.c: the header of a snapshot, the choice between the two slots, saving and
-- restoring. `platform_snapshot_read`, `_write` and `_erase` are those of platforms/posix.
pub mod Le
pub mod Header
pub mod Storage
pub mod Pick
pub mod Save
pub mod Saved
pub mod Crash
pub mod Restore
