-- ===== src/Auth/Sessions.antt =====
-- auth/session-store.ts, on a table of rows. The clock and the random id are arguments.
pub mod Lifetime
use urateam.Prelude.{
  ℕ, suc, ◌+◌, ◌*◌, String, Bool, true, false, ◌&&◌, not, Option, none, some, List, [], ◌∷◌, ◌++◌,
  ltb, if◌then◌else◌, any, filter, length, str_eq,
}
use urateam.Auth.Timestamps.{Driver, to_driver, from_driver}

-- A row, with its times as the driver holds them.
pub record SessionRow : Type 0 where
  pub id : String
  pub user_id : String
  pub created_at : ℕ
  pub expires_at : ℕ
  pub last_seen_at : ℕ

pub record DashboardSession : Type 0 where
  pub id : String
  pub user_id : String
  pub created_at : ℕ
  pub expires_at : ℕ
  pub last_seen_at : ℕ

module _ (driver : Driver) where
  -- The table after the insertion, and the id; `none` where the id is taken and the insertion throws.
  unfoldable pub create_session :
      (id user_id : String) (duration_hours now : ℕ) (table : List SessionRow)
      → Option (List SessionRow × String)
  create_session id user_id duration_hours now table =
      if any (λ r. str_eq r.id id) table
      then none
      else some (
        table
            ++ record {
              id = id;
              user_id = user_id;
              created_at = to_driver driver now;
              expires_at = to_driver driver (now + duration_hours * 3600000);
              last_seen_at = to_driver driver now;
            }
              ∷ [],
        id,
      )

  abbrev pub session : SessionRow → DashboardSession
  session r = record {
    id = r.id;
    user_id = r.user_id;
    created_at = from_driver driver r.created_at;
    expires_at = from_driver driver r.expires_at;
    last_seen_at = from_driver driver r.last_seen_at;
  }

  -- The first row with the id that has not expired.
  unfoldable pub get_session : (id : String) (now : ℕ) → List SessionRow → Option DashboardSession
  get_session id now [] = none
  get_session id now (r ∷ table) =
      let rest = get_session id now table in
      if str_eq r.id id && ltb (to_driver driver now) r.expires_at then some (session r) else rest

  unfoldable pub delete_session : String → List SessionRow → List SessionRow
  delete_session id table = filter (λ r. not (str_eq r.id id)) table

  -- The table without the rows that expired before now, and the number of those.
  unfoldable pub prune_expired_sessions : ℕ → List SessionRow → List SessionRow × ℕ
  prune_expired_sessions now [] = ([], 0)
  prune_expired_sessions now (r ∷ table) =
      let (kept, deleted) = prune_expired_sessions now table in
      if ltb r.expires_at (to_driver driver now) then (kept, suc deleted) else (r ∷ kept, deleted)

  unfoldable pub touch_session_last_seen : String → ℕ → List SessionRow → List SessionRow
  touch_session_last_seen id now [] = []
  touch_session_last_seen id now (r ∷ table) =
      (if str_eq r.id id then record r { last_seen_at = to_driver driver now } else r)
      ∷ touch_session_last_seen id now table
