-- ===== src/Pipeline.antt =====
-- packages/core/src/pipeline: the parts of the pipeline runner.
pub mod Queue
pub mod BranchLock
pub mod Router
pub mod StopSignals
pub mod Terminate
pub mod Automerge
