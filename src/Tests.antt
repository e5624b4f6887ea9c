-- ===== src/Tests.antt =====
-- The theorems at concrete inputs.
pub mod Guard
pub mod Service
pub mod Runs
pub mod Replays
pub mod Episodes
pub mod Services
pub mod Artifacts
pub mod Tasks
pub mod Batches
pub mod Baselines
pub mod Bundles
pub mod Sessions
pub mod Ledgers
pub mod Chains
