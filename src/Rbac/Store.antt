-- ===== src/Rbac/Store.antt =====
-- rbac/user-role-store.ts. A transaction that throws is rolled back: the table stays as it was.
use urateam.Prelude.{
  ℕ, suc, String, Bool, true, false, ◌&&◌, not, Option, none, some, List, [], ◌∷◌, map, filter,
  if◌then◌else◌, ◌==◌, str_eq, includes, to_lower, trim, split_comma,
}
use urateam.Rbac.{Role, admin, viewer, User, role_eq}

pub data RoleError : Type 0 where
  user_not_found self_demote last_admin : RoleError

pub record SetUserRoleArgs : Type 0 where
  pub user_id : String
  pub new_role : Role
  pub actor_user_id : String

pub data RoleEvent : Type 0 where
  grant_role revoke_role :
      (target_user_id target_email : String) (old_role new_role : Role)
      (actor_user_id actor_email : String)
      → RoleEvent
  bootstrap_admin : (target_user_id target_email : String) → RoleEvent

-- `rows[0]` of the rows with the id.
unfoldable pub find_user : String → List User → Option User
find_user id [] = none
find_user id (u ∷ us) = if str_eq u.id id then some u else find_user id us

-- `SELECT COUNT(*) … WHERE role = 'admin' AND id <> ?`
unfoldable pub count_other_admins : String → List User → ℕ
count_other_admins id [] = 0
count_other_admins id (u ∷ us) =
    let rest = count_other_admins id us in
    if role_eq u.role admin && not (str_eq u.id id) then suc rest else rest

-- `UPDATE … SET role = ? WHERE id = ?`
unfoldable pub update_role : String → Role → List User → List User
update_role id role [] = []
update_role id role (u ∷ us) =
    (if str_eq u.id id then record u { role = role } else u) ∷ update_role id role us

abbrev email_of : Option User → String
email_of none = "unknown"
email_of (some u) = u.email

-- What `body` leaves in the variables of `setUserRole`.
pub record Outcome : Type 0 where
  pub users : List User
  pub old_role : Role
  pub target_email : String
  pub actor_email : String

pub data Result (A : Type 0) : Type 0 where
  ok : A → Result A
  err : RoleError → Result A

-- The guards and the update, once the row is read.
unfoldable pub change_role : SetUserRoleArgs → List User → User → Result Outcome
change_role args users current =
    if role_eq current.role args.new_role
    then ok (record {
      users = users;
      old_role = current.role;
      target_email = current.email;
      actor_email = "unknown";
    })
    else if str_eq args.user_id args.actor_user_id && not (role_eq args.new_role admin)
    then err self_demote
    else if role_eq current.role admin
        && not (role_eq args.new_role admin)
        && count_other_admins args.user_id users == 0
    then err last_admin
    else ok (record {
      users = update_role args.user_id args.new_role users;
      old_role = current.role;
      target_email = current.email;
      actor_email =
          email_of (find_user args.actor_user_id (update_role args.user_id args.new_role users));
    })

unfoldable pub body : SetUserRoleArgs → List User → Result Outcome
unfolding change_role
body args users = elim (find_user args.user_id users) [
  | none ↦ err user_not_found
  | some current ↦ change_role args users current
]

-- The audit write, skipped where the role was the same.
unfoldable pub role_events : SetUserRoleArgs → Outcome → List RoleEvent
role_events args o =
    if role_eq o.old_role args.new_role
    then []
    else (if role_eq args.new_role viewer
        then revoke_role args.user_id o.target_email o.old_role args.new_role args.actor_user_id
            o.actor_email
        else grant_role args.user_id o.target_email o.old_role args.new_role args.actor_user_id
            o.actor_email)
      ∷ []

-- The table after the call, what it throws, and the audit events.
unfoldable pub finish :
    SetUserRoleArgs → List User → Result Outcome → List User × Option RoleError × List RoleEvent
finish args users (err e) = (users, some e, [])
finish args users (ok o) = (o.users, none, role_events args o)

unfoldable pub set_user_role :
    SetUserRoleArgs → List User → List User × Option RoleError × List RoleEvent
unfolding body finish role_events
set_user_role args users = finish args users (body args users)

abbrev pub role_of : Option User → Option Role
role_of none = none
role_of (some u) = some u.role

unfoldable pub get_user_role : List User → String → Option Role
unfolding find_user
get_user_role users id = role_of (find_user id users)

abbrev pub is_admin : Option Role → Bool
is_admin none = false
is_admin (some r) = role_eq r admin

-- The entries of the comma-separated list.
unfoldable pub admin_set : String → List String
admin_set list = filter (λ s. not (str_eq s "")) (map (λ s. to_lower (trim s)) (split_comma list))

-- The body below the guard on `envAdminList`.
unfoldable promote_listed : String → List User → String → String → List User × Bool × List RoleEvent
promote_listed list users email user_id =
    let normalized_email = to_lower (trim email) in
    if not (includes (admin_set list) normalized_email)
    then (users, false, [])
    else if is_admin (get_user_role users user_id)
    then (users, false, [])
    else (update_role user_id admin users, true, bootstrap_admin user_id normalized_email ∷ [])

unfoldable pub apply_bootstrap_admins :
    List User → String → String → Option String → List User × Bool × List RoleEvent
unfolding promote_listed
apply_bootstrap_admins users email user_id none = (users, false, [])
apply_bootstrap_admins users email user_id (some list) =
    if str_eq (trim list) "" then (users, false, []) else promote_listed list users email user_id
