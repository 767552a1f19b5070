-- ===== src/Policy/Approvals.antt =====
-- What policy/reviewer-gate.ts verifies, and what becomes of the team cache.
use text.Mathlib.TextLemmas.{append_cancel_left}
use urateam.Prelude.{
  ℕ, ◌+◌, ◌≡◌, refl, sym, ap, ◌∙◌, ◌⊎◌, inl, inr, ◌↔◌, String, Bool, true, false, not, Option, some,
  List, [], ◌∷◌, map, arith, any, filter, is_empty, includes, to_lower, str_eq, eq_iff, ltb, In,
  All, lookup, insert, lookup-insert, includes_iff, and_iff, iff_trans, iff-pair, any_iff,
  Any-witness, Any-of_In, In-map, In-map_of, All-iff, filter-empty_iff, Option-cases, Bool-cases,
  some-eq,
}
use urateam.Policy.{ReviewerRequest}
use urateam.Policy.Reviewers.{
  Review, TeamCache, TeamCacheEntry, ApprovalVerification, latest_by_user, approved_logins, verdict,
  cache_key, team_cache_ttl_ms, fetch_members, team_members, missing_teams_loop, check_reviews,
  verify_approvals_received,
}
use urateam.Policy.LastReviews.{Approves, approvers_iff}

module _ (list_members_in_org : String → String → Option (List String)) (owner : String)
    (roster : String → List String)
    (answers : (team : String) → list_members_in_org owner team ≡ some (roster team)) where
  -- Each entry of the cache for this owner tells what GitHub answers.
  abbrev pub Current : TeamCache → Type 0
  Current cache =
      (team : String) (e : TeamCacheEntry)
      → lookup (cache_key owner team) cache ≡ some e
      → e.members ≡ map to_lower (roster team)

  cache_key-eq : (s t : String) → cache_key owner s ≡ cache_key owner t → s ≡ t
  unfolding cache_key
  cache_key-eq s t e = append_cancel_left _ s t (append_cancel_left owner _ _ e)

  insert-Current :
      (team : String) (entry : TeamCacheEntry) (cache : TeamCache)
      → entry.members ≡ map to_lower (roster team)
      → Current cache
      → Current (insert (cache_key owner team) entry cache)
  insert-Current team entry cache fits c t e found =
      elim (Bool-cases (str_eq (cache_key owner team) (cache_key owner t))) [
        | inl same ↦
            let here : some entry ≡ some e =
              rw (lookup-insert (cache_key owner team) (cache_key owner t) entry cache, same) at
                found in
            let eq : team ≡ t = cache_key-eq team t ((eq_iff _ _).0 same) in
            ap TeamCacheEntry.members (sym (some-eq here))
            ∙ fits
            ∙ ap (λ x. map to_lower (roster x)) eq
        | inr other ↦ c t e (
            rw (lookup-insert (cache_key owner team) (cache_key owner t) entry cache, other) at
              found)
      ]

  fetch_members_lem :
      (now : ℕ) (team : String) (cache : TeamCache)
      → fetch_members list_members_in_org owner now team cache ≡ (
        some (map to_lower (roster team)),
        insert
            (cache_key owner team)
            (record { members = map to_lower (roster team); expires_at = now + team_cache_ttl_ms })
            cache,
      )
  unfolding fetch_members
  fetch_members_lem now team cache = rw (answers team, fetch_members)

  team_members-cases :
      (now : ℕ) (team : String) (cache : TeamCache)
      → (team_members list_members_in_org owner now team cache
          ≡ fetch_members list_members_in_org owner now team cache)
        ⊎ ((e : TeamCacheEntry) × (lookup (cache_key owner team) cache ≡ some e)
            × (team_members list_members_in_org owner now team cache ≡ (some e.members, cache)))
  unfolding team_members
  team_members-cases now team cache = elim (Option-cases (lookup (cache_key owner team) cache)) [
    | inl e ↦ inl (rw (e, team_members))
    | inr (cached, e) ↦ elim (Bool-cases (ltb now cached.expires_at)) [
      | inl fresh ↦ inr (cached, e, ground arith)
      | inr stale ↦ inl (ground arith)
    ]
  ]

  -- A fresh answer and a cached one are the same, and the cache stays current.
  team_members_lem :
      (now : ℕ) (team : String) (cache : TeamCache)
      → Current cache
      → ((team_members list_members_in_org owner now team cache).0
          ≡ some (map to_lower (roster team)))
        × Current (team_members list_members_in_org owner now team cache).1
  team_members_lem now team cache c = elim (team_members-cases now team cache) [
    | inl asked ↦
        rw (asked, fetch_members_lem now team cache) (refl, insert-Current team _ cache refl c)
    | inr (e, found, cached) ↦ rw cached (ap some (c team e found), c)
  ]

  abbrev lacks : List String → String → Bool
  lacks approved team = not (any (includes (map to_lower (roster team))) approved)

  missing_teams_lem :
      (now : ℕ) (approved teams : List String) (cache : TeamCache)
      → Current cache
      → ((missing_teams_loop list_members_in_org owner now approved teams cache).0
          ≡ some (filter (lacks approved) teams))
        × Current (missing_teams_loop list_members_in_org owner now approved teams cache).1
  unfolding missing_teams_loop
  missing_teams_lem now approved [] cache c = (refl, c)
  missing_teams_lem now approved (team ∷ teams) cache c =
      let (found, c') = team_members_lem now team cache c in
      let (rest, c'') =
        missing_teams_lem now approved teams
          (team_members list_members_in_org owner now team cache).1 c' in
      (ground (arith, found, rest), rw (found, missing_teams_loop) c'')

  -- The login has approved last, as the set of approving logins tells it.
  module _ (reviews : List Review) where
    approving : List String
    approving = approved_logins (latest_by_user reviews [])

    user_iff :
        (user : String) → (not (includes approving (to_lower user)) ≡ false) ↔ Approves reviews user
    unfolding approving
    user_iff user =
        let (to, from) = approvers_iff reviews (to_lower user) in
        (λ h. to (ground arith), λ a. ap not (from a))

    -- Some member of the team has approved.
    abbrev pub TeamApproves : String → Type 0
    TeamApproves team = (member : String) × In member (roster team) × Approves reviews member

    team_iff : (team : String) → (lacks approving team ≡ false) ↔ TeamApproves team
    unfolding approving
    team_iff team =
        let (any_to, any_from) = any_iff (includes (map to_lower (roster team))) approving in
        (
          λ h.
              let (login, i, j) = Any-witness _ approving (any_to (ground arith)) in
              let (member, k, e) =
                In-map to_lower login (roster team) ((includes_iff _ login).0 j) in
              let has : includes approving (to_lower member) ≡ true =
                rw e ((includes_iff approving login).1 i) in
              (member, k, (approvers_iff reviews (to_lower member)).0 has),
          λ (member, i, a). ap not (
              any_from (
                Any-of_In _ (to_lower member) approving
                  ((includes_iff approving (to_lower member)).0
                    ((approvers_iff reviews (to_lower member)).1 a))
                  ((includes_iff _ (to_lower member)).1
                    (In-map_of to_lower member (roster team) i)))),
        )

    -- The early return agrees with the rest of the code.
    verify_lem :
        (now : ℕ) (required : ReviewerRequest) (cache : TeamCache)
        → verify_approvals_received list_members_in_org (some reviews) owner now required cache
          ≡ check_reviews list_members_in_org reviews owner now required cache
    unfolding verify_approvals_received check_reviews missing_teams_loop
    verify_lem now required cache = ground arith

    missing_users : List String → List String
    missing_users users = filter (λ u. not (includes approving (to_lower u))) users

    missing_users_iff :
        (users : List String)
        → (is_empty (missing_users users) ≡ true) ↔ All (Approves reviews) users
    unfolding missing_users
    missing_users_iff users = iff_trans (filter-empty_iff _ users) (All-iff _ _ users user_iff)

    missing_teams_iff :
        (teams : List String)
        → (is_empty (filter (lacks approving) teams) ≡ true) ↔ All TeamApproves teams
    missing_teams_iff teams = iff_trans (filter-empty_iff _ teams) (All-iff _ _ teams team_iff)

    check_reviews_lem :
        (now : ℕ) (required : ReviewerRequest) (cache : TeamCache)
        → Current cache
        → ((check_reviews list_members_in_org reviews owner now required cache).0
            ≡ some
                (verdict (missing_users required.users) (filter (lacks approving) required.teams)))
          × Current (check_reviews list_members_in_org reviews owner now required cache).1
    unfolding check_reviews missing_users approving
    check_reviews_lem now required cache c =
        let (missing, c') = missing_teams_lem now approving required.teams cache c in
        (ground (arith, missing), rw (missing, check_reviews) c')

    -- If GitHub answers and the cached rosters of the owner are current, the verification returns
    -- a result and leaves the cache current. It is satisfied exactly when the last review of each
    -- required user, and of some member of each required team, is an approval.
    pub verify_approvals_received_lem :
        (now : ℕ) (required : ReviewerRequest) (cache : TeamCache)
        → Current cache
        → (v : ApprovalVerification) × ((verify_approvals_received list_members_in_org
              (some reviews)
              owner
              now
              required
              cache).0
            ≡ some v)
          × Current
              (verify_approvals_received list_members_in_org
                (some reviews)
                owner
                now
                required
                cache).1
          × ((v.satisfied ≡ true)
              ↔ (All (Approves reviews) required.users × All TeamApproves required.teams))
    verify_approvals_received_lem now required cache c =
        let (found, c') = check_reviews_lem now required cache c in
        (
          verdict (missing_users required.users) (filter (lacks approving) required.teams),
          rw verify_lem found,
          rw verify_lem c',
          iff_trans (and_iff _ _)
              (iff-pair (missing_users_iff required.users) (missing_teams_iff required.teams)),
        )
