-- ===== src/Rlp.antt =====
-- contracts/primitives/rlp: RLP headers and scans, hex-prefix paths, receipt envelopes.
pub mod Core
pub mod Scan
pub mod Nibbles
pub mod Envelope
mod Runs
