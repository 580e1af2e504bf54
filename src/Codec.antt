-- ===== src/Codec.antt =====
-- src/frothy_snapshot_codec.c: the bytes of the persisted program code, their writer, their check
-- and their decoder.
pub mod Put
pub mod Get
pub mod Transmit
pub mod Fields
pub mod Symbols
pub mod Values
pub mod Nodes
pub mod Decode
pub mod Code
pub mod Measure
pub mod Validate
