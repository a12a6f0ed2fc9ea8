-- ===== src/Policy.antt =====
-- The crate `catalyst-batch-policy` (crates/batch-policy/src/lib.rs): when to seal a batch.
pub mod Fixed
pub mod Adaptive
pub mod Auto
pub mod Engine
pub mod Limits
