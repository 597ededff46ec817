-- ===== src/Receipt.antt =====
-- contracts/receipt: one log of the receipt of a transaction, by a walk from the receipts root.
pub mod State
pub mod Decode
pub mod Box
pub mod Handoff
pub mod App
mod Runs
