-- ===== src/Rbac.antt =====
-- packages/core/src/rbac: the roles of the dashboard's users.
-- The rows of the table `dashboard_users` (db/schema.ts) are a list.
pub mod Matrix
pub mod Store
pub mod Access
pub mod LastAdmin
pub mod Outcomes
use urateam.Prelude.{ℕ, String, Bool, Option, true, false}

pub data Role : Type 0 where
  admin operator viewer : Role

pub record User : Type 0 where
  pub id : String
  pub email : String
  pub name : Option String
  pub role : Role
  pub last_login_at : Option ℕ

abbrev pub role_eq : Role → Role → Bool
role_eq admin admin = true
role_eq operator operator = true
role_eq viewer viewer = true
role_eq _ _ = false
