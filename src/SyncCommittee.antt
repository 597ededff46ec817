-- ===== src/SyncCommittee.antt =====
-- contracts/sync_committee: the verifier of finalized headers, with the code of its header that the
-- other contracts take from it.
pub mod Header
pub mod Period
pub mod Bitfield
pub mod Forks
pub mod Install
pub mod Message
pub mod Verifier
pub mod Runs
