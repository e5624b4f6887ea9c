-- ===== src/Env.antt =====
-- agent_bench/env: the in-memory environment and its sandbox.
pub mod Path
pub mod Network
pub mod State
pub mod Guard
