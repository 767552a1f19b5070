-- ===== src/Rbac/LastAdmin.antt =====
-- The admins before and after a role change of rbac/user-role-store.ts.
use urateam.Prelude.{
  ◌<◌, ◌≡◌, refl, ap, ◌≢◌, ◌⊎◌, inl, inr, ◌↔◌, String, true, none, some, List, [], ◌∷◌, arith,
  str_eq, eq_iff, Any, Bool-cases, Option-cases,
}
use urateam.Rbac.{Role, admin, User, role_eq}
use urateam.Rbac.Store.{
  RoleError, SetUserRoleArgs, Outcome, Result, ok, err, find_user, count_other_admins, update_role,
  change_role, body, finish, role_events, set_user_role, user_not_found,
}

pub role_eq_iff : (r s : Role) → (role_eq r s ≡ true) ↔ (r ≡ s)
role_eq_iff r s = ground arith

abbrev pub HasAdmin : List User → Type 0
HasAdmin users = Any (λ u. u.role ≡ admin) users

-- The primary key: no id stands twice.
abbrev pub DistinctIds : List User → Type 0
DistinctIds [] = Unit
DistinctIds (u ∷ us) = (find_user u.id us ≡ none) × DistinctIds us

-- An admin of another id stays, whatever becomes of this id.
others_stay :
    (id : String) (role : Role) (users : List User)
    → 0 < count_other_admins id users
    → HasAdmin (update_role id role users)
unfolding count_other_admins update_role
others_stay id role [] h = absurd (omega arith)
others_stay id role (u ∷ us) h = ground (arith, others_stay id role us, role_eq_iff u.role admin)

admins_elsewhere :
    (id : String) (users : List User)
    → find_user id users ≡ none
    → HasAdmin users
    → 0 < count_other_admins id users
unfolding find_user count_other_admins
admins_elsewhere id [] e h = elim h [ ]
admins_elsewhere id (u ∷ us) e h = ground (arith, admins_elsewhere id us, role_eq_iff u.role admin)

-- Where the row of this id is no admin, an admin has another id.
other_admin :
    (id : String) (users : List User) (current : User)
    → DistinctIds users
    → find_user id users ≡ some current
    → current.role ≢ admin
    → HasAdmin users
    → 0 < count_other_admins id users
unfolding find_user count_other_admins
other_admin id [] current d e n h = elim h [ ]
other_admin id (u ∷ us) current d e n h = elim (Bool-cases (str_eq u.id id)) [
  | inl t ↦ ground (
    arith,
    admins_elsewhere id us,
    role_eq_iff u.role admin,
    eq_iff u.id id,
    ap (λ i. find_user i us) ((eq_iff u.id id).0 t),
  )
  | inr f ↦ ground (arith, other_admin id us current d.1, role_eq_iff u.role admin)
]

pub promoted :
    (id : String) (users : List User) (current : User)
    → find_user id users ≡ some current
    → HasAdmin (update_role id admin users)
unfolding find_user update_role
promoted id [] current e = cc
promoted id (u ∷ us) current e = elim (Bool-cases (str_eq u.id id)) [
  | inl t ↦ rw t (inl refl)
  | inr f ↦ rw f (inr (promoted id us current (rw f at e)))
]

-- A change that succeeds leaves the table as it was, promotes the target, or leaves another admin.
change_role-cases :
    (args : SetUserRoleArgs) (users : List User) (current : User) (o : Outcome)
    → change_role args users current ≡ ok o
    → (o.users ≡ users)
      ⊎ ((o.users ≡ update_role args.user_id args.new_role users)
          × ((args.new_role ≡ admin)
              ⊎ (current.role ≢ admin)
              ⊎ (0 < count_other_admins args.user_id users)))
unfolding change_role
change_role-cases args users current o e = ground arith

module _ (args : SetUserRoleArgs) (users : List User) where
  pub call_missing :
      find_user args.user_id users ≡ none
      → set_user_role args users ≡ (users, some user_not_found, [])
  unfolding set_user_role
  call_missing e = rw (e, body)

  call_found :
      (current : User)
      → find_user args.user_id users ≡ some current
      → set_user_role args users ≡ finish args users (change_role args users current)
  unfolding set_user_role
  call_found current e = rw (e, body)

  pub finish_err :
      (current : User) (x : RoleError)
      → find_user args.user_id users ≡ some current
      → change_role args users current ≡ err x
      → set_user_role args users ≡ (users, some x, [])
  unfolding finish
  finish_err current x e c = rw (call_found current e, c)

  pub finish_ok :
      (current : User) (o : Outcome)
      → find_user args.user_id users ≡ some current
      → change_role args users current ≡ ok o
      → set_user_role args users ≡ (o.users, none, role_events args o)
  unfolding finish
  finish_ok current o e c = rw (call_found current e, c)

pub Result-cases :
    (r : Result Outcome) → ((o : Outcome) × (r ≡ ok o)) ⊎ ((x : RoleError) × (r ≡ err x))
Result-cases (ok o) = inl (o, refl)
Result-cases (err x) = inr (x, refl)

-- If ids are distinct and the dashboard has an admin, it has one after any role change, whether the
-- change succeeds or throws.
pub set_user_role-HasAdmin :
    (args : SetUserRoleArgs) (users : List User)
    → DistinctIds users
    → HasAdmin users
    → HasAdmin (set_user_role args users).0
set_user_role-HasAdmin args users d h = elim (Option-cases (find_user args.user_id users)) [
  | inl e ↦ rw (call_missing args users e) h
  | inr (current, e) ↦ elim (Result-cases (change_role args users current)) [
    | inr (x, c) ↦ rw (finish_err args users current x e c) h
    | inl (o, c) ↦
        rw (finish_ok args users current o e c) (elim (change_role-cases args users current o c) [
          | inl same ↦ rw same h
          | inr (new, why) ↦ rw new (elim why [
            | inl up ↦ rw up (promoted args.user_id users current e)
            | inr rest ↦ elim rest [
              | inl was ↦
                  others_stay args.user_id args.new_role users
                    (other_admin args.user_id users current d e was h)
              | inr others ↦ others_stay args.user_id args.new_role users others
            ]
          ])
        ])
  ]
]
