-- ===== src/Replay.antt =====
-- agent_bench/runner/replay.py: the comparison of two runs.
pub mod Audit
pub mod Compare
