-- ===== src/Tests/Accounts.antt =====
-- The sessions and users of packages/core/src/auth, run on small tables.
use urateam.Prelude.{
  ◌≡◌, ◌≢◌, refl, String, none, some, List, [], ◌∷◌, to_lower, trim, trim_start, trim_end,
}
use urateam.Rbac.{operator}
use urateam.Auth.Timestamps.{sqlite}
use urateam.Auth.Sessions.{SessionRow, prune_expired_sessions}
use urateam.Auth.Users.{
  DashboardUser, UpsertUserInput, normalize_email, upsert_user, insert_or_update,
  update_on_conflict, find_by_email,
}
use urateam.Auth.Users.Upsert.{row_after, upsert_user_lem}

-- On SQLite, a session that expires at 5 seconds, and one that expires at 9.
abbrev table : List SessionRow
table =
    record { id = "s1"; user_id = "u1"; created_at = 0; expires_at = 5; last_seen_at = 0 }
    ∷ record { id = "s2"; user_id = "u2"; created_at = 0; expires_at = 9; last_seen_at = 0 }
    ∷ []

pruned : (prune_expired_sessions sqlite 6500 table).1 ≡ 1
unfolding prune_expired_sessions
pruned = refl

abbrev users : List DashboardUser
users =
    record {
      id = "usr_1";
      email = "bob@x.io";
      name = none;
      workos_user_id = none;
      created_at = 0;
      last_login_at = none;
      role = operator;
    }
    ∷ []

abbrev login : UpsertUserInput
login = record { email = " Bob@X.io"; name = some "Bob"; workos_user_id = some "w1" }

upsert_user_lem_example :
    let row = row_after "usr_2" login 99 (find_by_email (normalize_email " Bob@X.io") users) in
    (after : List DashboardUser) × (upsert_user "usr_2" login 99 users ≡ some (after, some row.id))
    × (find_by_email (normalize_email " Bob@X.io") after ≡ some row)
    × ((other : String)
        → other ≢ normalize_email " Bob@X.io"
        → find_by_email other after ≡ find_by_email other users)
upsert_user_lem_example = upsert_user_lem "usr_2" login 99 users refl

keeps_the_id :
    upsert_user "usr_2" login 99 users
    ≡ some (
      record {
        id = "usr_1";
        email = "bob@x.io";
        name = some "Bob";
        workos_user_id = some "w1";
        created_at = 0;
        last_login_at = some 99;
        role = operator;
      }
          ∷ [],
      some "usr_1",
    )
unfolding upsert_user insert_or_update update_on_conflict find_by_email normalize_email to_lower
    trim trim_start trim_end
keeps_the_id = refl
