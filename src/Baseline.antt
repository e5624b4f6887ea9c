-- ===== src/Baseline.antt =====
-- agent_bench/runner/baseline.py: the summary of runs by agent and task, and the difference of two
-- runs. Floating-point numbers are left out: an average is its sum and its count.
pub mod Summary
pub mod Keyed
pub mod Buckets
pub mod Audit
pub mod Delta
pub mod Diff
pub mod Same
