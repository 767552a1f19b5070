-- ===== src/Repo.antt =====
-- packages/core/src/repo: the calls of the code hosts, and the care of agent branches.
pub mod PullRequests
pub mod BranchSweep
