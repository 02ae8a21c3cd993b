-- ===== src/Examples.antt =====
-- The theorems at concrete inputs, and tests of the definitions.
mod Queues
mod Buffers
mod Timers
mod Handles
mod Names
mod Packets
mod Connections
mod Packs
mod Texts
mod Streams
mod Frames
