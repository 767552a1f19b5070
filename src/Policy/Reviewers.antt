-- ===== src/Policy/Reviewers.antt =====
-- policy/reviewer-gate.ts. What GitHub answers is a parameter: the reviews of the pull request,
-- oldest first, and the roster of a team; `none` is a call that throws. The team cache is the state.
use Prim.Native.String
use urateam.Prelude.{
  ℕ, ◌+◌, ◌*◌, String, Bool, ◌&&◌, not, Option, none, some, List, [], ◌∷◌, ltb, if◌then◌else◌, any,
  filter, is_empty, includes, to_lower, str_eq, map, Assoc, lookup, insert,
}
use urateam.Policy.{Policy, ReviewerRequest}

abbrev pub team_cache_ttl_ms : ℕ
team_cache_ttl_ms = 15 * 60 * 1000

pub record TeamCacheEntry : Type 0 where
  pub members : List String
  pub expires_at : ℕ

abbrev pub TeamCache : Type 0
TeamCache = Assoc TeamCacheEntry

-- `user` is null for a deleted account.
pub record Review : Type 0 where
  pub user : Option String
  pub state : String

pub record ApprovalVerification : Type 0 where
  pub satisfied : Bool
  pub missing_users : List String
  pub missing_teams : List String

unfoldable clear_team_membership_cache : TeamCache → TeamCache
clear_team_membership_cache cache = []

abbrev nonempty_request : ReviewerRequest → Option ReviewerRequest
nonempty_request r = if is_empty r.users && is_empty r.teams then none else some r

unfoldable build_reviewer_request : Option Policy → Option ReviewerRequest
build_reviewer_request none = none
build_reviewer_request (some policy) = elim policy.mandatory_reviewers [
  | none ↦ none
  | some r ↦ nonempty_request r
]

-- `if (r.user) latestByUser.set(r.user.login.toLowerCase(), r.state)`
unfoldable pub record_state : Option String → String → Assoc String → Assoc String
record_state none state latest = latest
record_state (some login) state latest = insert (to_lower login) state latest

-- The loop that fills `latestByUser`.
unfoldable pub latest_by_user : List Review → Assoc String → Assoc String
unfolding record_state
latest_by_user [] latest = latest
latest_by_user (r ∷ rs) latest = latest_by_user rs (record_state r.user r.state latest)

-- The keys whose state is "APPROVED".
unfoldable pub approved_logins : Assoc String → List String
approved_logins [] = []
approved_logins ((login, state) ∷ m) =
    let rest = approved_logins m in if str_eq state "APPROVED" then login ∷ rest else rest

unfoldable pub cache_key : String → String → String
cache_key owner team = String.◌++◌ owner (String.◌++◌ "\0" team)

abbrev push_missing : Bool → String → Option (List String) → Option (List String)
push_missing any_approved team none = none
push_missing any_approved team (some missing) =
    some (if any_approved then missing else team ∷ missing)

abbrev pub verdict : List String → List String → ApprovalVerification
verdict missing_users missing_teams = record {
  satisfied = is_empty missing_users && is_empty missing_teams;
  missing_users = missing_users;
  missing_teams = missing_teams;
}

module _ (list_members_in_org : String → String → Option (List String)) where
  -- Asks GitHub, and writes the cache.
  unfoldable pub fetch_members : String → ℕ → String → TeamCache → Option (List String) × TeamCache
  fetch_members owner now team cache = elim (list_members_in_org owner team) [
    | none ↦ (none, cache)
    | some members ↦ (
      some (map to_lower members),
      insert (cache_key owner team)
          (record { members = map to_lower members; expires_at = now + team_cache_ttl_ms }) cache,
    )
  ]

  -- The members of a team, from the cache while its entry is fresh.
  unfoldable pub team_members : String → ℕ → String → TeamCache → Option (List String) × TeamCache
  unfolding fetch_members
  team_members owner now team cache = elim (lookup (cache_key owner team) cache) [
    | none ↦ fetch_members owner now team cache
    | some cached ↦
        if ltb now cached.expires_at
        then (some cached.members, cache)
        else fetch_members owner now team cache
  ]

  -- The loop over the required teams; a call that throws ends it and keeps the cache.
  unfoldable pub missing_teams_loop :
      String → ℕ → List String → List String → TeamCache → Option (List String) × TeamCache
  missing_teams_loop owner now approved [] cache = (some [], cache)
  missing_teams_loop owner now approved (team ∷ teams) cache =
      let (found, cache') = team_members owner now team cache in
      elim found [
        | none ↦ (none, cache')
        | some members ↦
            let (missing, cache'') = missing_teams_loop owner now approved teams cache' in
            (push_missing (any (includes members) approved) team missing, cache'')
      ]

  unfoldable pub check_reviews :
      List Review
      → String
      → ℕ
      → ReviewerRequest
      → TeamCache
      → Option ApprovalVerification × TeamCache
  check_reviews reviews owner now required cache =
      let approved = approved_logins (latest_by_user reviews []) in
      let missing_users = filter (λ u. not (includes approved (to_lower u))) required.users in
      let (missing, cache') = missing_teams_loop owner now approved required.teams cache in
      elim missing [
        | none ↦ (none, cache')
        | some missing_teams ↦ (some (verdict missing_users missing_teams), cache')
      ]

  unfoldable pub verify_approvals_received :
      Option (List Review)
      → String
      → ℕ
      → ReviewerRequest
      → TeamCache
      → Option ApprovalVerification × TeamCache
  unfolding check_reviews
  verify_approvals_received list_reviews owner now required cache =
      if is_empty required.users && is_empty required.teams
      then (some (verdict [] []), cache)
      else elim list_reviews [
        | none ↦ (none, cache)
        | some reviews ↦ check_reviews reviews owner now required cache
      ]
