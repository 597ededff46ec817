-- ===== src/Ssz.antt =====
-- SSZ proofs: contracts/primitives/ssz.
pub mod Powers
pub mod Branch
pub mod Merkleize
mod Runs
