-- ===== src/Auth/Sessions/Lifetime.antt =====
-- How long auth/session-store.ts accepts a session.
use urateam.Prelude.{
  ℕ, ◌+◌, ◌*◌, ◌≤◌, ◌≡◌, refl, inl, inr, String, false, none, List, [], ◌∷◌, ◌++◌, arith,
  if◌then◌else◌, any, length, str_eq, eq_iff, Bool-cases, is_some,
}
use urateam.Auth.Timestamps.{Driver, to_driver, to_driver_mono}
use urateam.Auth.Sessions.{
  SessionRow, get_session, delete_session, prune_expired_sessions, touch_session_last_seen,
}

module _ (driver : Driver) (id : String) where
  -- Pruning is not seen: at no time from then on does a lookup answer otherwise.
  prune_expired_sessions-get :
      (now later : ℕ) (table : List SessionRow)
      → now ≤ later
      → get_session driver id later (prune_expired_sessions driver now table).0
        ≡ get_session driver id later table
  unfolding get_session prune_expired_sessions
  prune_expired_sessions-get now later [] le = refl
  prune_expired_sessions-get now later (r ∷ table) le =
      ground
        (arith, prune_expired_sessions-get now later table le, to_driver_mono driver now later le)

  -- Each row is kept or counted as deleted.
  prune_expired_sessions-length :
      (now : ℕ) (table : List SessionRow)
      → length (prune_expired_sessions driver now table).0
          + (prune_expired_sessions driver now table).1
        ≡ length table
  unfolding prune_expired_sessions
  prune_expired_sessions-length now [] = refl
  prune_expired_sessions-length now (r ∷ table) =
      ground (arith, prune_expired_sessions-length now table)

  -- A deleted session is not accepted any more, and the other sessions are as before.
  delete_session-get :
      (other : String) (now : ℕ) (table : List SessionRow)
      → get_session driver other now (delete_session driver id table)
        ≡ (if str_eq id other then none else get_session driver other now table)
  unfolding get_session delete_session
  delete_session-get other now [] = ground arith
  delete_session-get other now (r ∷ table) = ground (
    arith,
    delete_session-get other now table,
    eq_iff r.id id,
    eq_iff r.id other,
    eq_iff id other,
  )

  -- To note that a session was seen accepts and rejects no session that was not before.
  touch_session_last_seen-get :
      (other : String) (seen now : ℕ) (table : List SessionRow)
      → is_some (get_session driver other now (touch_session_last_seen driver id seen table))
        ≡ is_some (get_session driver other now table)
  unfolding get_session touch_session_last_seen
  touch_session_last_seen-get other seen now [] = refl
  touch_session_last_seen-get other seen now (r ∷ table) =
      let rest = touch_session_last_seen-get other seen now table in
      elim (Bool-cases (str_eq r.id id)) [
        | inl t ↦ rw t (ground (arith, rest))
        | inr f ↦ rw f (ground (arith, rest))
      ]

-- What `createSession` adds to the table.
abbrev new_row : Driver → String → String → ℕ → ℕ → SessionRow
new_row driver id user_id duration_hours now = record {
  id = id;
  user_id = user_id;
  created_at = to_driver driver now;
  expires_at = to_driver driver (now + duration_hours * 3600000);
  last_seen_at = to_driver driver now;
}

module _ (driver : Driver) (id user_id : String) (duration_hours now : ℕ) (table : List SessionRow)
    (free : any (λ r. str_eq r.id id) table ≡ false) where
  created : List SessionRow
  created = table ++ new_row driver id user_id duration_hours now ∷ []
