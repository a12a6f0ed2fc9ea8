-- ===== src/Tests.antt =====
-- The theorems at concrete inputs, and runs of the code.
mod Fixtures
mod Hashing
mod Batches
mod Proofs
mod Pipelines
mod Workloads
mod Sealing
mod Onchain
mod Nodes
mod Sealed
mod Checked
mod Clients
mod Lines
mod Timers
