-- ===== src/StateAnchor.antt =====
-- TrustedRootAnchor: contracts/state_anchor.
pub mod Record
pub mod Box
pub mod Forks
pub mod Bridge
pub mod App
pub mod Handoff
mod Runs
