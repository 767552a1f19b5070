-- ===== src/Rbac/Outcomes.antt =====
-- When a role change of rbac/user-role-store.ts succeeds, what it changes, and the bootstrap.
use urateam.Prelude.{
  ◌<◌, ◌≡◌, refl, sym, ap, subst, ◌∙◌, ◌≢◌, ◌⊎◌, inl, inr, ◌↔◌, String, Bool, true, false, Option,
  none, some, List, [], ◌∷◌, arith, if◌then◌else◌, str_eq, eq_iff, In, Bool-cases, Option-cases,
  some-eq, to_lower, trim, includes_iff,
}
use urateam.Rbac.{Role, admin, User}
use urateam.Rbac.Store.{
  SetUserRoleArgs, Outcome, Result, ok, err, find_user, count_other_admins, update_role,
  change_role, set_user_role, role_of, get_user_role, is_admin, admin_set, apply_bootstrap_admins,
}
use urateam.Rbac.LastAdmin.{role_eq_iff, call_missing, finish_err, finish_ok, Result-cases}

find-update_self :
    (id : String) (role : Role) (users : List User) (current : User)
    → find_user id users ≡ some current
    → role_of (find_user id (update_role id role users)) ≡ some role
unfolding find_user update_role
find-update_self id role [] current e = cc
find-update_self id role (u ∷ us) current e = elim (Bool-cases (str_eq u.id id)) [
  | inl t ↦ rw (t, t)
  | inr f ↦ rw (f, f) (find-update_self id role us current (rw f at e))
]

find-update_ne :
    (id j : String) (role : Role) (users : List User)
    → j ≢ id
    → find_user j (update_role id role users) ≡ find_user j users
unfolding find_user update_role
find-update_ne id j role [] n = refl
find-update_ne id j role (u ∷ us) n = elim (Bool-cases (str_eq u.id id)) [
  | inl t ↦
      let ne : str_eq u.id j ≡ false = ground (arith, eq_iff u.id id, eq_iff u.id j) in
      rw (t, ne) (find-update_ne id j role us n)
  | inr f ↦ rw f (ground (arith, find-update_ne id j role us n))
]

-- The guards that a change passes: the role is the same, or it is neither an admin's own demotion
-- nor that of the last admin.
abbrev pub Allowed : SetUserRoleArgs → List User → User → Type 0
Allowed args users current =
    (current.role ≡ args.new_role)
    ⊎ ((args.user_id ≡ args.actor_user_id → args.new_role ≡ admin)
        × (current.role ≡ admin
            → args.new_role ≢ admin
            → 0 < count_other_admins args.user_id users))

abbrev is_ok : Result Outcome → Bool
is_ok (ok o) = true
is_ok (err x) = false

change_role_iff :
    (args : SetUserRoleArgs) (users : List User) (current : User)
    → (is_ok (change_role args users current) ≡ true) ↔ Allowed args users current
unfolding change_role
change_role_iff args users current = (
  ground (arith, role_eq_iff current.role args.new_role, eq_iff args.user_id args.actor_user_id),
  ground (arith, role_eq_iff current.role args.new_role, eq_iff args.user_id args.actor_user_id),
)

-- A change succeeds exactly when the user exists and one of two holds: the user has the new role
-- already; or the new role is admin where the actor is the user, and some other user is an admin
-- where an admin is to lose that role.
pub set_user_role_succeeds_iff :
    (args : SetUserRoleArgs) (users : List User)
    → ((set_user_role args users).1 ≡ none) ↔ (
        (current : User) × (find_user args.user_id users ≡ some current)
        × Allowed args users current)
set_user_role_succeeds_iff args users = elim (Option-cases (find_user args.user_id users)) [
  | inl e ↦ (λ h. cc (ap (λ r. r.1) (call_missing args users e)), λ (c, e', a). cc)
  | inr (current, e) ↦ elim (Result-cases (change_role args users current)) [
    | inl (o, c) ↦ (
      λ h. (current, e, (change_role_iff args users current).0 (ap is_ok c)),
      λ _. rw (finish_ok args users current o e c),
    )
    | inr (x, c) ↦ (
      λ h. cc (ap (λ r. r.1) (finish_err args users current x e c)),
      λ (v, e', a).
          let same : current ≡ v = some-eq (sym e ∙ e') in
          cc (
            sym (ap is_ok c)
            ∙ (change_role_iff args users current).1 (subst (Allowed args users) (sym same) a)),
    )
  ]
]

-- A change that throws leaves every row as it was, and audits nothing.
set_user_role_rolls_back :
    (args : SetUserRoleArgs) (users : List User)
    → (set_user_role args users).1 ≢ none
    → ((set_user_role args users).0 ≡ users) × ((set_user_role args users).2 ≡ [])
set_user_role_rolls_back args users n = elim (Option-cases (find_user args.user_id users)) [
  | inl e ↦ rw (call_missing args users e) (refl, refl)
  | inr (current, e) ↦ elim (Result-cases (change_role args users current)) [
    | inl (o, c) ↦ absurd (n (ap (λ r. r.1) (finish_ok args users current o e c)))
    | inr (x, c) ↦ rw (finish_err args users current x e c) (refl, refl)
  ]
]

change_role-users :
    (args : SetUserRoleArgs) (users : List User) (current : User) (o : Outcome)
    → change_role args users current ≡ ok o
    → ((current.role ≡ args.new_role) × (o.users ≡ users))
      ⊎ (o.users ≡ update_role args.user_id args.new_role users)
unfolding change_role
change_role-users args users current o e = ground (arith, role_eq_iff current.role args.new_role)

get_user_role-find :
    (users : List User) (id : String) (current : User)
    → find_user id users ≡ some current
    → get_user_role users id ≡ some current.role
unfolding get_user_role
get_user_role-find users id current e = rw (e, role_of)

get_user_role-update :
    (users : List User) (id : String) (role : Role) (current : User)
    → find_user id users ≡ some current
    → get_user_role (update_role id role users) id ≡ some role
unfolding get_user_role
get_user_role-update users id role current e = find-update_self id role users current e

-- After a change that succeeds the user has the new role, and every other row is as it was.
set_user_role_changes :
    (args : SetUserRoleArgs) (users : List User)
    → (set_user_role args users).1 ≡ none
    → (get_user_role (set_user_role args users).0 args.user_id ≡ some args.new_role)
      × ((j : String)
          → j ≢ args.user_id
          → find_user j (set_user_role args users).0 ≡ find_user j users)
set_user_role_changes args users h = elim (Option-cases (find_user args.user_id users)) [
  | inl e ↦ cc (ap (λ r. r.1) (call_missing args users e))
  | inr (current, e) ↦ elim (Result-cases (change_role args users current)) [
    | inr (x, c) ↦ cc (ap (λ r. r.1) (finish_err args users current x e c))
    | inl (o, c) ↦
        rw (finish_ok args users current o e c) (elim (change_role-users args users current o c) [
          | inl (same, kept) ↦
              rw kept (get_user_role-find users _ current e ∙ ap some same, λ j n. refl)
          | inr new ↦ rw new (
            get_user_role-update users args.user_id args.new_role current e,
            λ j n. find-update_ne args.user_id j args.new_role users n,
          )
        ])
  ]
]

-- The list is given, is not blank, and names the address, up to case and white space at its ends.
abbrev pub Listed : Option String → String → Type 0
Listed none email = ⊥
Listed (some list) email = (trim list ≢ "") × In (to_lower (trim email)) (admin_set list)

is_admin-false : (r : Option Role) → (is_admin r ≡ false) ↔ (r ≢ some admin)
is_admin-false none = ground arith
is_admin-false (some r) = ground (arith, role_eq_iff r admin)

-- The bootstrap reports a change exactly when the e-mail address is on the list, up to case and
-- white space at its ends, and the user is not an admin already.
apply_bootstrap_admins_iff :
    (users : List User) (email user_id : String) (list : Option String)
    → ((apply_bootstrap_admins users email user_id list).1 ≡ true)
      ↔ (Listed list email × (get_user_role users user_id ≢ some admin))
unfolding apply_bootstrap_admins
apply_bootstrap_admins_iff users email user_id none = (λ h. cc, λ (l, n). elim l [ ])
apply_bootstrap_admins_iff users email user_id (some list) = ground (
  arith,
  eq_iff (trim list) "",
  includes_iff (admin_set list) (to_lower (trim email)),
  is_admin-false (get_user_role users user_id),
)

bootstrap-users :
    (users : List User) (email user_id : String) (list : Option String)
    → (apply_bootstrap_admins users email user_id list).0 ≡ (
        if (apply_bootstrap_admins users email user_id list).1
        then update_role user_id admin users
        else users)
unfolding apply_bootstrap_admins
bootstrap-users users email user_id none = refl
bootstrap-users users email user_id (some list) = ground arith

-- Where it reports a change and the user exists, the user is an admin afterwards; no other row
-- changes, and where it reports none, no row does.
apply_bootstrap_admins_effect :
    (users : List User) (email user_id : String) (list : Option String)
    → let (after, changed, events) = apply_bootstrap_admins users email user_id list in
      ((changed ≡ true) → find_user user_id users ≢ none → get_user_role after user_id ≡ some admin)
      × ((j : String) → j ≢ user_id → find_user j after ≡ find_user j users)
      × ((changed ≡ false) → after ≡ users)
apply_bootstrap_admins_effect users email user_id list = (
  λ t n. elim (Option-cases (find_user user_id users)) [
    | inl e ↦ absurd (n e)
    | inr (c, e) ↦
        rw (bootstrap-users users email user_id list, t)
          (get_user_role-update users user_id admin c e)
  ],
  λ j n. elim (Bool-cases (apply_bootstrap_admins users email user_id list).1) [
    | inl t ↦
        rw (bootstrap-users users email user_id list, t) (find-update_ne user_id j admin users n)
    | inr f ↦ rw (bootstrap-users users email user_id list, f)
  ],
  λ f. rw (bootstrap-users users email user_id list, f),
)
