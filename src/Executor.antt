-- ===== src/Executor.antt =====
-- packages/core/src/executor: how a stage of a run is given to the agent SDK.
pub mod Sessions
pub mod Resume
