-- ===== src/Registry.antt =====
-- agent_bench/tasks/registry.py: the manifest of a task, the descriptor that it fills, and the
-- registry of descriptors. Files on disk and plugins are arguments.
pub mod Manifest
pub mod Valid
pub mod Descriptor
pub mod Enriched
pub mod Store
pub mod Merged
pub mod Latest
