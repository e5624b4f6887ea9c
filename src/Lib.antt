-- ===== src/Lib.antt =====
-- TraceCore runs an agent against a task in a sandbox, step by step within budgets, records a trace,
-- and gives a result that a validator decided. This library models the parts of it that decide.
--
-- The parts, and how they go together:
-- - Env: the state that a task and its actions share, and the guard around it
--   (agent_bench/env/environment.py, agent_bench/env/filesystem.py). Env.Path has `normalize_path`
--   and the test of a root, Env.State the class `Environment`, Env.Network the class
--   `NetworkGuard`, Env.Guard the class `GuardedEnv` with its audit. A method is a function that
--   returns its result and the state that it leaves, which is the new state also when it raises.
--   The call stack that `inspect.stack()` shows is an argument, a hidden value is of any type.
-- - Failures: the taxonomy of failures (agent_bench/runner/failures.py, results.py).
-- - Budgets: what is left of steps and tool calls (agent_bench/runner/budgets.py).
-- - Runner: `run` (agent_bench/runner/runner.py). Runner.Action has `_validate_action`,
--   Runner.Validation what is made of the validator's dict, Runner.Model the data, Runner.Loop the
--   `while True` loop with one function to a stage, Runner.Run what comes before the loop and the
--   loop with its fuel, Runner.Report `_result_payload`. The guard is handed to the action and to
--   the validator, and the audit of an action goes into the entry of the trace.
-- - Replay: the comparison of two runs (agent_bench/runner/replay.py). Replay.Audit has
--   `_audit_allowed`, which uses the guard of Env, Replay.Compare `check_record`, `check_replay`
--   and `check_strict`; a message is a constructor.
-- - Spec: `check_spec_compliance` (agent_bench/runner/spec_check.py), an artifact against the
--   specification. Migration: `migrate_run_artifact` (agent_bench/runner/migration.py), which brings
--   an artifact up to date, with `_stable_payload` of the runner.
-- - Registry: agent_bench/tasks/registry.py. Registry.Manifest has the checks of a task's manifest,
--   Registry.Descriptor `_enrich_descriptor`, which fills a descriptor from it, and Registry.Store
--   the merged registry with its lookups.
-- - Episode: the configuration of an episode (agent_bench/runner/episode_config.py).
-- - Batch: `run_batch` (agent_bench/runner/batch.py). The jobs come with what their processes gave
--   back, in the order in which they were done; a strict batch uses Spec.
-- - Baseline: agent_bench/runner/baseline.py. Baseline.Summary has `summarize_runs`, Baseline.Audit
--   the difference of two audits, Baseline.Diff `diff_runs`.
-- - Tasks: the services of the tasks. Tasks.Chain is `MockChainAPI`
--   (tasks/rate_limited_chain/service.py), Tasks.Api `MockRateLimitedAPI`
--   (tasks/rate_limited_api/service.py), Tasks.Det `MockDeterministicService`
--   (tasks/deterministic_rate_service/service.py). Tasks.Chain.Task is the task around the first of
--   them: `setup` and `validate` (tasks/rate_limited_chain/setup.py, validate.py), and in
--   Tasks.Chain.Task.Actions every action of actions.py, on the guarded environment of Env. With
--   them a run of Runner is a run of that task by any agent; Runner.Run.Carried takes what a trace
--   tells of the environment from the setup to the verdict.
-- - Files: texts by name, with the printing and reading of JSON and the digest.
-- - Bundle: a run on the disk (agent_bench/runner/bundle.py). Bundle.Text cuts texts into lines,
--   Bundle.Write has `write_bundle`, Bundle.Verify `verify_bundle`, which uses Replay.Audit for the
--   accesses of a call, and Bundle.Sign `sign_bundle`.
-- - RunLog: the log of runs (agent_bench/runner/runlog.py), files by the id of the run.
-- - Session: the pointer to the latest run (agent_bench/session.py), a text or nothing.
-- - Ledger: the registry of agents (agent_bench/ledger/__init__.py), and in Ledger.Signing its
--   signatures (agent_bench/ledger/signing.py).
-- - Value, Exc and Prelude: JSON-like values with Python's comparison, exceptions as values, and
--   the helpers on texts, lists, dicts and integers.
-- - Tests: the theorems at concrete inputs.
--
-- The agent, the action module and the validator are code that the runner loads at run time, so they
-- are parameters, functions over states of any type that return or raise. So are the clock and the
-- text of an exception. The loop has fuel: one more than the steps of the budget, which is enough
-- because each iteration that goes on has used a step.
--
-- What the JSON schema validator says, the digest of a payload, Python's `str`, `repr` and `int` of a
-- value that is no text or number, and what the files of a task hold are parameters too. So are
-- the printing and reading of JSON, SHA-256, keys and their signatures, and the archive of a
-- directory. That a printed value reads back is a hypothesis where it is needed.
--
-- Not modelled: floating-point numbers (an average is a sum and a count, a time is in whole
-- milliseconds), time stamps, measured latency, hashes and identifiers of a run, the benchmark of
-- reasoning, what a write that raises leaves on the disk, symbolic links, the table of pairings,
-- metrics, the other tasks, other processes, the command line and the web pages. Texts are compared
-- and lowered as ASCII. Budgets are integers, as the source's.
pub mod Prelude
pub mod Value
pub mod Exc
pub mod Env
pub mod Failures
pub mod Budgets
pub mod Files
pub mod Bundle
pub mod RunLog
pub mod Session
pub mod Ledger
pub mod Runner
pub mod Episode
pub mod Spec
pub mod Migration
pub mod Registry
pub mod Batch
pub mod Baseline
pub mod Replay
pub mod Tasks
pub mod Tests
