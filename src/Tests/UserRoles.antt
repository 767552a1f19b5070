-- ===== src/Tests/UserRoles.antt =====
-- The roles of packages/core/src/rbac, run on a table of two users.
use urateam.Prelude.{◌≡◌, refl, ◌↔◌, none, some, List, [], ◌∷◌, inl}
use urateam.Rbac.{admin, operator, viewer, User}
use urateam.Rbac.Store.{
  SetUserRoleArgs, revoke_role, last_admin, find_user, count_other_admins, update_role, change_role,
  body, role_events, finish, set_user_role,
}
use urateam.Rbac.LastAdmin.{HasAdmin, DistinctIds, set_user_role-HasAdmin}
use urateam.Rbac.Outcomes.{Allowed, set_user_role_succeeds_iff}

abbrev ann : User
ann = record { id = "u1"; email = "ann@x.io"; name = none; role = admin; last_login_at = none }

abbrev bob : User
bob = record {
  id = "u2";
  email = "bob@x.io";
  name = some "Bob";
  role = operator;
  last_login_at = none;
}

abbrev users : List User
users = ann ∷ bob ∷ []

-- Ann takes Bob's rights away.
abbrev demote_bob : SetUserRoleArgs
demote_bob = record { user_id = "u2"; new_role = viewer; actor_user_id = "u1" }

-- Bob asks that the last admin loses the role.
abbrev demote_ann : SetUserRoleArgs
demote_ann = record { user_id = "u1"; new_role = viewer; actor_user_id = "u2" }

demotes : set_user_role demote_bob users ≡ (
  ann ∷ record bob { role = viewer } ∷ [],
  none,
  revoke_role "u2" "bob@x.io" operator viewer "u1" "ann@x.io" ∷ [],
)
unfolding set_user_role body change_role finish role_events find_user count_other_admins update_role
demotes = refl

refused : set_user_role demote_ann users ≡ (users, some last_admin, [])
unfolding set_user_role body change_role finish role_events find_user count_other_admins update_role
refused = refl

distinct : DistinctIds users
unfolding find_user
distinct = (refl, (refl, tt))

set_user_role-HasAdmin_example : HasAdmin (set_user_role demote_ann users).0
set_user_role-HasAdmin_example = set_user_role-HasAdmin demote_ann users distinct (inl refl)

set_user_role_succeeds_iff_example :
    ((set_user_role demote_bob users).1 ≡ none)
    ↔ ((current : User) × (find_user "u2" users ≡ some current) × Allowed demote_bob users current)
set_user_role_succeeds_iff_example = set_user_role_succeeds_iff demote_bob users

succeeds : (set_user_role demote_bob users).1 ≡ none
succeeds = rw demotes refl
