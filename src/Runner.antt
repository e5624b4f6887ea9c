-- ===== src/Runner.antt =====
-- agent_bench/runner/runner.py: one run of an agent against a task.
pub mod Action
pub mod Validation
pub mod Model
pub mod Loop
pub mod Run
pub mod Report
