-- ===== src/Mpt.antt =====
-- contracts/mpt: the walk down a Merkle-Patricia trie, one supplied node at a time.
pub mod State
pub mod Keys
pub mod Descend
pub mod Handoff
pub mod Walk
mod Runs
