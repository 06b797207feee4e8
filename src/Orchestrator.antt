-- ===== src/Orchestrator.antt =====
-- src/flowsec/runtime/orchestrator.py.
pub mod Backends
pub mod Create
pub mod Context
pub mod Checks
pub mod Merge
pub mod Flow
pub mod Summaries
pub mod Evaluate
pub mod Finish
pub mod Supervise
pub mod Acquire
pub mod Run
pub mod Sound
pub mod Trust
