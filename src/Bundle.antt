-- ===== src/Bundle.antt =====
-- The bundle of a run: agent_bench/runner/bundle.py. A directory holds texts by name, the folder of
-- bundles holds directories by the run's id.
pub mod Text
pub mod Write
pub mod Verify
pub mod Sign
mod Rows
mod Listing
mod Listed
pub mod Verified
pub mod Fresh
pub mod Tamper
pub mod Signed
