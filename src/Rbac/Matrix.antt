-- ===== src/Rbac/Matrix.antt =====
-- rbac/matrix.ts. Whether the feature "rbac" is licensed, which license.ts answers, is an argument.
use urateam.Prelude.{Bool, false, List, [], ◌∷◌, any, if◌then◌else◌}
use urateam.Rbac.{Role, admin, operator, viewer, role_eq}

pub data PermissionKey : Type 0 where
  runs_view runs_retry runs_stop system_halt tokens_view audit_view audit_export : PermissionKey
  cost_view cost_export errors_view coordination_view config_view users_view : PermissionKey
  users_manage : PermissionKey

unfoldable permission_matrix : PermissionKey → List Role
permission_matrix runs_view = admin ∷ operator ∷ viewer ∷ []
permission_matrix runs_retry = admin ∷ operator ∷ []
permission_matrix runs_stop = admin ∷ operator ∷ []
permission_matrix system_halt = admin ∷ operator ∷ []
permission_matrix tokens_view = admin ∷ operator ∷ viewer ∷ []
permission_matrix audit_view = admin ∷ operator ∷ []
permission_matrix audit_export = admin ∷ operator ∷ []
permission_matrix cost_view = admin ∷ operator ∷ []
permission_matrix cost_export = admin ∷ operator ∷ []
permission_matrix errors_view = admin ∷ operator ∷ viewer ∷ []
permission_matrix coordination_view = admin ∷ operator ∷ []
permission_matrix config_view = admin ∷ []
permission_matrix users_view = admin ∷ []
permission_matrix users_manage = admin ∷ []

unfoldable pub can_access : Bool → Role → PermissionKey → Bool
unfolding permission_matrix
can_access licensed role action =
    if licensed then any (role_eq role) (permission_matrix action) else false
