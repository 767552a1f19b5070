-- ===== src/Auth.antt =====
-- packages/core/src/auth: the sessions and the users of the dashboard.
pub mod Timestamps
pub mod Sessions
pub mod Users
