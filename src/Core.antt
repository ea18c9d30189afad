-- ===== src/Core.antt =====
-- rp-core: the data model, the account state and the rules that a block must meet.
pub mod Crypto
pub mod Models
pub mod Transaction
pub mod Block
pub mod Slashing
pub mod State
pub mod Blockchain
