-- ===== src/Common.antt =====
-- The crate `catalyst-common` (crates/common/src), which the other crates share.
pub mod Types
pub mod Errors
pub mod Hashing
pub mod Merkle
pub mod Clock
