-- ===== src/Auth/Users/Upsert.antt =====
-- What a login does to the table of auth/user-store.ts.
use urateam.Prelude.{
  ℕ, ◌≡◌, ◌≢◌, refl, ◌∙◌, inl, inr, String, true, false, Option, none, some, List, [], ◌∷◌, ◌++◌,
  arith, if◌then◌else◌, any, str_eq, eq_iff, eq_refl, Bool-cases,
}
use urateam.Auth.Users.{
  DashboardUser, UpsertUserInput, normalize_email, update_on_conflict, inserted, insert_or_update,
  find_by_email, upsert_user,
}

-- What a login refreshes in a row.
abbrev pub refreshed : UpsertUserInput → ℕ → DashboardUser → DashboardUser
refreshed input now u = record u {
  name = input.name;
  workos_user_id = input.workos_user_id;
  last_login_at = some now;
}

abbrev pub refresh : UpsertUserInput → ℕ → Option DashboardUser → Option DashboardUser
refresh input now none = none
refresh input now (some u) = some (refreshed input now u)

module _ (input : UpsertUserInput) (now : ℕ) (email : String) where
  update_on_conflict-find :
      (other : String) (users : List DashboardUser)
      → find_by_email other (update_on_conflict email input now users) ≡ (
          if str_eq email other
          then refresh input now (find_by_email other users)
          else find_by_email other users)
  unfolding update_on_conflict find_by_email
  update_on_conflict-find other [] = ground arith
  update_on_conflict-find other (u ∷ users) =
      let rest = update_on_conflict-find other users in
      elim (Bool-cases (str_eq u.email email)) [
        | inl t ↦
            rw t
              (ground (arith, rest, eq_iff u.email email, eq_iff u.email other, eq_iff email other))
        | inr f ↦
            rw f
              (ground (arith, rest, eq_iff u.email email, eq_iff u.email other, eq_iff email other))
      ]

any_email-find :
    (email : String) (users : List DashboardUser)
    → any (λ u. str_eq u.email email) users ≡ false
    → find_by_email email users ≡ none
unfolding find_by_email
any_email-find email [] h = refl
any_email-find email (u ∷ users) h = ground (arith, any_email-find email users)

any_email-found :
    (email : String) (users : List DashboardUser)
    → any (λ u. str_eq u.email email) users ≡ true
    → (u : DashboardUser) × (find_by_email email users ≡ some u)
unfolding find_by_email
any_email-found email [] h = cc
any_email-found email (u ∷ users) h = elim (Bool-cases (str_eq u.email email)) [
  | inl t ↦ (u, rw t refl)
  | inr f ↦ let (v, e) = any_email-found email users (ground arith) in (v, rw f e)
]

find-append :
    (email : String) (users rows : List DashboardUser)
    → find_by_email email (users ++ rows)
      ≡ (elim (find_by_email email users) [ none ↦ find_by_email email rows | some u ↦ some u ])
unfolding find_by_email
find-append email [] rows = refl
find-append email (u ∷ users) rows = elim (Bool-cases (str_eq u.email email)) [
  | inl t ↦ rw t refl
  | inr f ↦ rw f (find-append email users rows)
]

find-append_absent :
    (email : String) (users rows : List DashboardUser)
    → find_by_email email rows ≡ none
    → find_by_email email (users ++ rows) ≡ find_by_email email users
unfolding find_by_email
find-append_absent email [] rows h = h
find-append_absent email (u ∷ users) rows h = elim (Bool-cases (str_eq u.email email)) [
  | inl t ↦ rw t refl
  | inr f ↦ rw f (find-append_absent email users rows h)
]

-- The row that an address has after a login: that from before with the fields of the login, or a new
-- one.
abbrev pub row_after : String → UpsertUserInput → ℕ → Option DashboardUser → DashboardUser
row_after id input now none = inserted id (normalize_email input.email) input now
row_after id input now (some u) = refreshed input now u

module _ (id : String) (input : UpsertUserInput) (now : ℕ) (users : List DashboardUser) where
  upsert-inserted :
      (after : List DashboardUser) (row : DashboardUser)
      → insert_or_update id (normalize_email input.email) input now users ≡ some after
      → find_by_email (normalize_email input.email) after ≡ some row
      → upsert_user id input now users ≡ some (after, some row.id)
  unfolding upsert_user
  upsert-inserted after row e found = rw (e, found) refl

  known-email :
      any (λ u. str_eq u.email (normalize_email input.email)) users ≡ true
      → insert_or_update id (normalize_email input.email) input now users
        ≡ some (update_on_conflict (normalize_email input.email) input now users)
  unfolding insert_or_update
  known-email t = rw t refl

  new-email :
      any (λ u. str_eq u.email (normalize_email input.email)) users ≡ false
      → any (λ u. str_eq u.id id) users ≡ false
      → insert_or_update id (normalize_email input.email) input now users
        ≡ some (users ++ inserted id (normalize_email input.email) input now ∷ [])
  unfolding insert_or_update
  new-email f free = rw (f, free) refl

  inserted-find :
      (other : String)
      → find_by_email other (inserted id (normalize_email input.email) input now ∷ []) ≡ (
          if str_eq (normalize_email input.email) other
          then some (inserted id (normalize_email input.email) input now)
          else none)
  unfolding find_by_email
  inserted-find other = refl

-- A login with a generated id that is not taken succeeds. Then the row of its address, up to case and
-- white space at its ends, has the fields of the login, and keeps its id, its role and its time of
-- creation where it was there before; its id is returned; and the row of each other address is as it
-- was.
pub upsert_user_lem :
    (id : String) (input : UpsertUserInput) (now : ℕ) (users : List DashboardUser)
    → any (λ u. str_eq u.id id) users ≡ false
    → let email = normalize_email input.email in
      let row = row_after id input now (find_by_email email users) in
      (after : List DashboardUser) × (upsert_user id input now users ≡ some (after, some row.id))
      × (find_by_email email after ≡ some row)
      × ((other : String) → other ≢ email → find_by_email other after ≡ find_by_email other users)
upsert_user_lem id input now users free =
    let email = normalize_email input.email in
    elim (Bool-cases (any (λ u. str_eq u.email email) users)) [
      | inl t ↦
          let (u, found) = any_email-found email users t in
          let after = update_on_conflict email input now users in
          let same : find_by_email email after ≡ some (refreshed input now u) =
            update_on_conflict-find input now email email users ∙ rw (eq_refl email, found) refl in
          (
            after,
            rw found (
                upsert-inserted id input now users after _ (known-email id input now users t) same),
            rw found same,
            λ other n.
                update_on_conflict-find input now email other users
                ∙ ground (arith, eq_iff email other),
          )
      | inr f ↦
          let row = inserted id email input now in
          let absent = any_email-find email users f in
          let after = users ++ row ∷ [] in
          let same : find_by_email email after ≡ some row =
            find-append email users (row ∷ [])
            ∙ rw absent (inserted-find id input now users email ∙ rw (eq_refl email) refl) in
          (
            after,
            rw absent (
                upsert-inserted id input now users after row (new-email id input now users f free)
                  same),
            rw absent same,
            λ other n.
                find-append_absent other users (row ∷ [])
                  (inserted-find id input now users other ∙ ground (arith, eq_iff email other)),
          )
    ]
