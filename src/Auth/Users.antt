-- ===== src/Auth/Users.antt =====
-- auth/user-store.ts, on a table of rows. The clock and the random id are arguments.
pub mod Upsert
use urateam.Prelude.{
  ℕ, String, Bool, true, false, Option, none, some, List, [], ◌∷◌, ◌++◌, if◌then◌else◌, any, str_eq,
  to_lower, trim,
}
use urateam.Rbac.{Role, viewer}

pub record DashboardUser : Type 0 where
  pub id : String
  pub email : String
  pub name : Option String
  pub workos_user_id : Option String
  pub created_at : ℕ
  pub last_login_at : Option ℕ
  pub role : Role

pub record UpsertUserInput : Type 0 where
  pub email : String
  pub name : Option String
  pub workos_user_id : Option String

unfoldable pub normalize_email : String → String
normalize_email email = to_lower (trim email)

-- `onConflictDoUpdate` on the column `email`.
unfoldable pub update_on_conflict :
    String → UpsertUserInput → ℕ → List DashboardUser → List DashboardUser
update_on_conflict email input now [] = []
update_on_conflict email input now (u ∷ users) =
    (if str_eq u.email email
      then record u {
        name = input.name;
        workos_user_id = input.workos_user_id;
        last_login_at = some now;
      }
      else u)
    ∷ update_on_conflict email input now users

-- The row that is inserted; the role is the column's default.
abbrev pub inserted : String → String → UpsertUserInput → ℕ → DashboardUser
inserted id email input now = record {
  id = id;
  email = email;
  name = input.name;
  workos_user_id = input.workos_user_id;
  created_at = now;
  last_login_at = some now;
  role = viewer;
}

-- `none` where the insertion throws, since the id is taken.
unfoldable pub insert_or_update :
    String → String → UpsertUserInput → ℕ → List DashboardUser → Option (List DashboardUser)
insert_or_update id email input now users =
    if any (λ u. str_eq u.email email) users
    then some (update_on_conflict email input now users)
    else if any (λ u. str_eq u.id id) users
    then none
    else some (users ++ inserted id email input now ∷ [])

-- The first row with the address.
unfoldable pub find_by_email : String → List DashboardUser → Option DashboardUser
find_by_email email [] = none
find_by_email email (u ∷ users) =
    let rest = find_by_email email users in if str_eq u.email email then some u else rest

abbrev id_of : Option DashboardUser → Option String
id_of none = none
id_of (some u) = some u.id

-- The read of the canonical id.
abbrev read_back :
    String → Option (List DashboardUser) → Option (List DashboardUser × Option String)
read_back email none = none
read_back email (some after) = some (after, id_of (find_by_email email after))

-- The table after the call and the canonical id; `none` where the call throws.
unfoldable pub upsert_user :
    String → UpsertUserInput → ℕ → List DashboardUser → Option (List DashboardUser × Option String)
upsert_user id input now users =
    let email = normalize_email input.email in
    read_back email (insert_or_update id email input now users)

unfoldable get_user_by_id : List DashboardUser → String → Option DashboardUser
get_user_by_id [] id = none
get_user_by_id (u ∷ users) id =
    let rest = get_user_by_id users id in if str_eq u.id id then some u else rest
