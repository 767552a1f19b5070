-- ===== src/Pm.antt =====
-- pm/: the PM agent. The modules are named for the files that they model.
pub mod Percent
pub mod Runs
pub mod Budget
pub mod Breaker
pub mod Promote
pub mod Coordination
pub mod Approvals
pub mod RecoverStuck
pub mod StateMap
pub mod StartTodo
pub mod Alerts
