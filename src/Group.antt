-- ===== src/Group.antt =====
-- The consensus groups: libraries/chain/validategroup.
pub mod Rand
pub mod Store
pub mod Defs
pub mod Reset
pub mod Select
pub mod Members
