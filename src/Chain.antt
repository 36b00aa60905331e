-- ===== src/Chain.antt =====
-- The space chain: libraries/chain/space.
pub mod Insert
pub mod Pool
pub mod Vrf
pub mod Votes
pub mod Genesis
pub mod Ticks
pub mod Tx
pub mod Make
pub mod Storage
pub mod Exec
pub mod Apply
pub mod Blocks
