-- ===== src/Examples.antt =====
-- The theorems at concrete inputs.
pub mod Store
pub mod Ancestors
pub mod Proposals
pub mod Signers
pub mod Orders
pub mod Memory
pub mod Chains
pub mod Pools
pub mod Ledger
pub mod Groups
pub mod Few
pub mod Blocks
pub mod Commits
