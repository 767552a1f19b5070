-- ===== src/Tests.antt =====
-- The theorems at concrete inputs, and the definitions run on small examples.
mod GlobMatching
mod PolicyGates
mod UserRoles
mod Concurrency
mod IssueControl
mod Releasing
mod Merging
mod Accounts
mod Collecting
mod Versions
mod Branches
mod AgentSessions
mod PmAgent
mod Ticking
mod Coordinating
mod Approving
mod Recovering
mod Starting
