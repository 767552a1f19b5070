-- ===== src/Rbac/Access.antt =====
-- Who may do what by rbac/matrix.ts, with the roles in an order.
use urateam.Prelude.{ℕ, ◌≤◌, ◌≡◌, ◌↔◌, Bool, true, arith}
use urateam.Rbac.{Role, admin, operator, viewer}
use urateam.Rbac.Matrix.{
  PermissionKey, runs_view, tokens_view, errors_view, config_view, users_view, users_manage,
  can_access,
}

abbrev pub rank : Role → ℕ
rank viewer = 0
rank operator = 1
rank admin = 2

-- The rank that an action needs: the configuration and the users are for admins, the audit log,
-- costs, coordination and every action on runs for operators, the other views for all.
abbrev pub needed : PermissionKey → ℕ
needed runs_view = 0
needed tokens_view = 0
needed errors_view = 0
needed config_view = 2
needed users_view = 2
needed users_manage = 2
needed _ = 1

-- A role may do an action exactly when the feature is licensed and the role has the rank that the
-- action needs. So an operator may do all that a viewer may, and an admin all.
can_access_iff :
    (licensed : Bool) (role : Role) (action : PermissionKey)
    → (can_access licensed role action ≡ true) ↔ ((licensed ≡ true) × (needed action ≤ rank role))
unfolding can_access
can_access_iff licensed role action = ground arith
