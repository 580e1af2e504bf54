-- ===== src/Tests.antt =====
-- Runs of the models at concrete inputs, and the theorems at concrete inputs.
mod Memory
mod Slots
mod Payload
mod Values
mod Objects
mod Parser
mod Cells
mod Release
mod Codec
mod Symbols
mod CodecValues
mod Names
mod Snapshot
