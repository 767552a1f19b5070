-- ===== src/Pm/Approvals/Once.antt =====
-- How often an approval is acted on.
use urateam.Prelude.{
  ◌-◌, ◌≤◌, ◌≡◌, ◌≢◌, refl, sym, ◌∙◌, ◌⊎◌, inl, inr, String, Bool, true, false, Option, none, some,
  List, [], ◌∷◌, arith, filter, In, All, All-In, Bool-cases, subst, In-filter, In-append,
}
use urateam.Pm.Approvals.Settled.{IsSettled, Settles, set_status-keeps, set_status-own}
use urateam.Pm.Approvals.{
  Status, approved, rejected, expired, Approval, Reaction, awaits, approves, rejects, Call,
  update_issue, create_comment, Services, ResolveApprovalsInput, approval_timeout_ms, act_in,
  act_in_teams, state_in, Outcome, settle, react, is_too_old, resolve_one, set_status, is_pending,
  resolve_each, resolve_all,
}

abbrev pub approval_of : Call → String
approval_of (update_issue a issue state) = a
approval_of (create_comment a issue) = a

-- Slack has the approval, in time, and the table took it.
abbrev pub IsGranted : Services → ResolveApprovalsInput → Approval → Type 0
IsGranted services input a =
    (is_pending a ≡ true)
    × (input.now - a.created_at ≤ approval_timeout_ms)
    × (services.reaction a.slack_message_ts ≡ some approves)
    × (services.update_row_succeeds a.id ≡ true)

-- The calls for an approval are about it.
act_in-own :
    (services : Services) (a : Approval) (state : Option String) (found : Option (Option String))
    (later : List Call)
    → All (λ c. approval_of c ≡ a.id) later
    → All (λ c. approval_of c ≡ a.id) (act_in services a state found later)
act_in-own services a none found later h = h
act_in-own services a (some state) none later h = h
act_in-own services a (some state) (some none) later h = tt
act_in-own services a (some state) (some (some issue)) later h =
    elim (Bool-cases (services.update_issue_succeeds issue state)) [
      | inl u ↦ elim (Bool-cases (services.comment_succeeds issue)) [
        | inl v ↦ rw (u, v) (refl, (refl, tt))
        | inr v ↦ rw (u, v) (refl, (refl, h))
      ]
      | inr u ↦ rw u (refl, h)
    ]

in_time :
    (input : ResolveApprovalsInput) (a : Approval)
    → is_too_old input a ≡ false
    → input.now - a.created_at ≤ approval_timeout_ms
in_time input a h = ground arith

module _ (services : Services) (input : ResolveApprovalsInput) where
  act_in_teams-own :
      (a : Approval) (team_ids : List String)
      → All (λ c. approval_of c ≡ a.id) (act_in_teams services input a team_ids)
  unfolding act_in_teams
  act_in_teams-own a [] = tt
  act_in_teams-own a (team ∷ team_ids) =
      act_in-own services a (state_in input a.action team) (services.search a.issue_id) _
        (act_in_teams-own a team_ids)

  -- A row is settled or left pending, and calls are made only for one that is granted.
  record Sound (a : Approval) (o : Outcome) : Type 0 where
    settles : Settles o.new_status
    own : All (λ c. approval_of c ≡ a.id) o.calls
    acts :
        (o.calls ≡ [])
        ⊎ ((o.new_status ≡ some approved)
            × (is_too_old input a ≡ false)
            × (services.reaction a.slack_message_ts ≡ some approves)
            × (services.update_row_succeeds a.id ≡ true))

  settle-Sound :
      (a : Approval) (status : Status) (is_counted : Bool)
      → Settles (some status)
      → Sound a (settle (services.update_row_succeeds a.id) status [] is_counted)
  settle-Sound a status is_counted ok = elim (Bool-cases (services.update_row_succeeds a.id)) [
    | inl u ↦ rw u (record { settles = ok; own = tt; acts = inl refl })
    | inr u ↦ rw u (record { settles = tt; own = tt; acts = inl refl })
  ]

  react-Sound :
      (a : Approval) (r : Option Reaction)
      → is_too_old input a ≡ false
      → services.reaction a.slack_message_ts ≡ r
      → Sound a (react services input a r)
  react-Sound a none young e = record { settles = tt; own = tt; acts = inl refl }
  react-Sound a (some awaits) young e = record { settles = tt; own = tt; acts = inl refl }
  react-Sound a (some rejects) young e = settle-Sound a rejected true tt
  react-Sound a (some approves) young e = elim (Bool-cases (services.update_row_succeeds a.id)) [
    | inl u ↦
        subst (λ b. Sound a (settle b approved (act_in_teams services input a input.team_ids) true))
          (sym u)
          (record {
            settles = tt;
            own = act_in_teams-own a input.team_ids;
            acts = inr (refl, young, e, u);
          })
    | inr u ↦ rw u (record { settles = tt; own = tt; acts = inl refl })
  ]

  resolve_one-Sound : (a : Approval) → Sound a (resolve_one services input a)
  unfolding resolve_one
  resolve_one-Sound a = elim (Bool-cases (is_too_old input a)) [
    | inl old ↦ rw old (settle-Sound a expired (services.post_expired_succeeds a.issue_id) tt)
    | inr young ↦ rw young (react-Sound a (services.reaction a.slack_message_ts) young refl)
  ]

  resolve_each-keeps :
      (id : String) (approvals rows : List Approval)
      → IsSettled id rows
      → IsSettled id (resolve_each services input approvals rows).rows
  unfolding resolve_each
  resolve_each-keeps id [] rows h = h
  resolve_each-keeps id (a ∷ approvals) rows h =
      let o = resolve_one services input a in
      resolve_each-keeps id approvals (set_status input a.id o.new_status rows)
        (set_status-keeps input id a.id o.new_status rows (resolve_one-Sound a).settles h)

  -- A call is about one of the approvals, which is granted, and which is not pending any more.
  abbrev pub IsJustified : List Approval → List Approval → Call → Type 0
  IsJustified approvals after c =
      ((a : Approval) × In a approvals
        × (a.id ≡ approval_of c)
        × (is_too_old input a ≡ false)
        × (services.reaction a.slack_message_ts ≡ some approves)
        × (services.update_row_succeeds a.id ≡ true))
      × IsSettled (approval_of c) after

  IsJustified-here :
      (a : Approval) (approvals rows : List Approval) (o : Outcome) (c : Call)
      → Sound a o
      → In c o.calls
      → IsJustified
          (a ∷ approvals)
          (resolve_each services input approvals (set_status input a.id o.new_status rows)).rows
          c
  IsJustified-here a approvals rows o c sound i =
      let same = All-In (λ d. approval_of d ≡ a.id) c o.calls sound.own i in
      elim sound.acts [
        | inl e ↦ elim (subst (In c) e i) [ ]
        | inr (status, young, reacted, updated) ↦ (
          (a, inl refl, sym same, young, reacted, updated),
          subst
              (λ id.
                IsSettled id
                  (resolve_each services input approvals
                    (set_status input a.id o.new_status rows)).rows)
              (sym same)
              (resolve_each-keeps a.id approvals (set_status input a.id o.new_status rows) (
                subst (λ s. IsSettled a.id (set_status input a.id s rows)) (sym status)
                  (set_status-own input a.id approved rows tt))),
        )
      ]

  resolve_each-IsJustified :
      (approvals rows : List Approval) (c : Call)
      → In c (resolve_each services input approvals rows).calls
      → IsJustified approvals (resolve_each services input approvals rows).rows c
  unfolding resolve_each
  resolve_each-IsJustified [] rows c i = elim i [ ]
  resolve_each-IsJustified (a ∷ approvals) rows c i =
      let o = resolve_one services input a in
      let now = set_status input a.id o.new_status rows in
      elim (In-append c o.calls (resolve_each services input approvals now).calls i) [
        | inl here ↦ IsJustified-here a approvals rows o c (resolve_one-Sound a) here
        | inr there ↦
            let ((b, found, same, young, reacted, updated), done) =
              resolve_each-IsJustified approvals now c there in
            ((b, inr found, same, young, reacted, updated), done)
      ]

-- Ticks one after the other.
unfoldable pub ticks : List (Services × ResolveApprovalsInput) → List Approval → List Approval
unfolding resolve_all
ticks [] rows = rows
ticks ((services, input) ∷ later) rows = ticks later (resolve_all services input rows).rows

ticks-keeps :
    (id : String) (later : List (Services × ResolveApprovalsInput)) (rows : List Approval)
    → IsSettled id rows
    → IsSettled id (ticks later rows)
unfolding ticks resolve_all
ticks-keeps id [] rows h = h
ticks-keeps id ((services, input) ∷ later) rows h =
    ticks-keeps id later _ (resolve_each-keeps services input id (filter is_pending rows) rows h)

-- A call of Linear is made only for a row that was pending, that was at most 48 hours old, that was
-- approved in Slack, and whose update succeeded; and no later tick makes a call for the same approval.
pub acts_once :
    (services : Services) (input : ResolveApprovalsInput) (rows : List Approval) (c : Call)
    (between : List (Services × ResolveApprovalsInput)) (next : Services)
    (next_input : ResolveApprovalsInput)
    → In c (resolve_all services input rows).calls
    → ((a : Approval) × In a rows × (a.id ≡ approval_of c) × IsGranted services input a)
      × ((d : Call)
          → In d
              (resolve_all next next_input
                (ticks between (resolve_all services input rows).rows)).calls
          → approval_of d ≢ approval_of c)
unfolding resolve_all
acts_once services input rows c between next next_input i =
    let ((a, found, same, young, reacted, updated), done) =
      resolve_each-IsJustified services input (filter is_pending rows) rows c i in
    let (listed, was_pending) = In-filter is_pending a rows found in
    (
      (a, listed, same, (was_pending, in_time input a young, reacted, updated)),
      λ d j e.
          let after = ticks between (resolve_all services input rows).rows in
          let ((b, again, own, _, _, _), _) =
            resolve_each-IsJustified next next_input (filter is_pending after) after d j in
          let (there, still) = In-filter is_pending b after again in
          cc (sym still ∙ ticks-keeps (approval_of c) between _ done b there (own ∙ e)),
    )
