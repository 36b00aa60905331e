-- ===== src/State.antt =====
-- The ledger state: libraries/chain/space/state.
pub mod Account
pub mod Attributes
pub mod Space
pub mod Backend
pub mod Db
pub mod Ops
pub mod ByAddress
pub mod Bind
pub mod Commit
pub mod View
pub mod Refine
pub mod Tracked
