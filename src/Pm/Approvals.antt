-- ===== src/Pm/Approvals.antt =====
-- pm/actions/resolve-approvals.ts: `resolveApprovals`, on the rows of `pm_approvals`. Log lines, audit
-- events and the texts of comments are left out.
pub mod Settled
pub mod Once
use Prim.Native.String
use urateam.Prelude.{
  ℕ, ◌+◌, ◌-◌, ◌*◌, String, Bool, true, false, not, Option, none, some, List, [], ◌∷◌, ◌++◌, map,
  length, ltb, if◌then◌else◌, filter, str_eq, Assoc, lookup,
}

pub data Status : Type 0 where
  pending approved rejected expired : Status

pub data ApprovalAction : Type 0 where
  deprioritize cancel : ApprovalAction

pub record Approval : Type 0 where
  pub id : String
  pub issue_id : String
  pub action : ApprovalAction
  pub slack_message_ts : String
  pub status : Status
  pub created_at : ℕ
  pub resolved_at : Option ℕ

-- What `checkApprovalReactions` returns.
pub data Reaction : Type 0 where
  awaits approves rejects : Reaction

-- What is asked of Linear, and for which approval.
pub data Call : Type 0 where
  update_issue : (approval issue state : String) → Call
  create_comment : (approval issue : String) → Call

-- `none` stands for a call that throws; a search that finds nothing answers `some none`.
pub record Services : Type 0 where
  pub update_row_succeeds : String → Bool
  pub post_expired_succeeds : String → Bool
  pub reaction : String → Option Reaction
  pub search : String → Option (Option String)
  pub update_issue_succeeds : (issue state : String) → Bool
  pub comment_succeeds : String → Bool

pub record ResolveApprovalsInput : Type 0 where
  pub team_ids : List String
  pub state_map : Assoc String
  pub now : ℕ

pub record ResolveApprovalsResult : Type 0 where
  pub resolved : ℕ
  pub expired : ℕ
  pub still_pending : ℕ

-- 48 hours.
abbrev pub approval_timeout_ms : ℕ
approval_timeout_ms = 48 * 60 * 60 * 1000

abbrev target_state : ApprovalAction → String
target_state deprioritize = "Icebox"
target_state cancel = "Canceled"

abbrev state_in : ResolveApprovalsInput → ApprovalAction → (team : String) → Option String
state_in input action team =
    lookup (String.◌++◌ team (String.◌++◌ ":" (target_state action))) input.state_map

-- The calls in one team; `later` are those in the teams after it, which are tried where a call throws.
abbrev pub act_in :
    Services → Approval → Option String → Option (Option String) → (later : List Call) → List Call
act_in services a none found later = later
act_in services a (some state) none later = later
act_in services a (some state) (some none) later = []
act_in services a (some state) (some (some issue)) later =
    update_issue a.id issue state
    ∷ (if not (services.update_issue_succeeds issue state)
        then later
        else create_comment a.id issue ∷ (if services.comment_succeeds issue then [] else later))

unfoldable pub act_in_teams :
    Services → ResolveApprovalsInput → Approval → (team_ids : List String) → List Call
act_in_teams services input a [] = []
act_in_teams services input a (team ∷ team_ids) =
    let later = act_in_teams services input a team_ids in
    act_in services a (state_in input a.action team) (services.search a.issue_id) later

-- What becomes of a pending row: its new status, the calls, and whether it is counted.
pub record Outcome : Type 0 where
  pub new_status : Option Status
  pub calls : List Call
  pub is_counted : Bool

abbrev pub no_change : Outcome
no_change = record { new_status = none; calls = []; is_counted = false }

abbrev pub settle : (is_updated : Bool) → Status → List Call → (is_counted : Bool) → Outcome
settle false status calls is_counted = no_change
settle true status calls is_counted = record {
  new_status = some status;
  calls = calls;
  is_counted = is_counted;
}

abbrev pub react : Services → ResolveApprovalsInput → Approval → Option Reaction → Outcome
react services input a none = no_change
react services input a (some awaits) = no_change
react services input a (some rejects) = settle (services.update_row_succeeds a.id) rejected [] true
react services input a (some approves) =
    settle (services.update_row_succeeds a.id) approved
      (act_in_teams services input a input.team_ids) true

abbrev pub is_too_old : ResolveApprovalsInput → Approval → Bool
is_too_old input a = ltb approval_timeout_ms (input.now - a.created_at)

-- The row is updated before Slack or Linear are called.
unfoldable pub resolve_one : Services → ResolveApprovalsInput → Approval → Outcome
unfolding act_in_teams
resolve_one services input a =
    if is_too_old input a
    then settle (services.update_row_succeeds a.id) expired []
        (services.post_expired_succeeds a.issue_id)
    else react services input a (services.reaction a.slack_message_ts)

abbrev pub settled : ResolveApprovalsInput → Status → Approval → Approval
settled input status a = record a { status = status; resolved_at = some input.now }

abbrev pub update_row : ResolveApprovalsInput → (id : String) → Status → Approval → Approval
update_row input id status a = if str_eq id a.id then settled input status a else a

abbrev pub set_status :
    ResolveApprovalsInput → (id : String) → Option Status → List Approval → List Approval
set_status input id none rows = rows
set_status input id (some status) rows = map (update_row input id status) rows

-- The table, the calls, and the counts.
pub record Resolved : Type 0 where
  pub rows : List Approval
  pub calls : List Call
  pub resolved : ℕ
  pub expired : ℕ

abbrev pub count_resolved : Outcome → ℕ
count_resolved o = counts o.new_status o.is_counted
  where
    counts : Option Status → Bool → ℕ
    counts (some approved) true = 1
    counts (some rejected) true = 1
    counts _ _ = 0

abbrev pub count_expired : Outcome → ℕ
count_expired o = counts o.new_status o.is_counted
  where
    counts : Option Status → Bool → ℕ
    counts (some expired) true = 1
    counts _ _ = 0

abbrev pub is_pending : Approval → Bool
is_pending a = pends a.status
  where
    pends : Status → Bool
    pends pending = true
    pends _ = false

module _ (services : Services) (input : ResolveApprovalsInput) where
  unfoldable pub resolve_each : List Approval → List Approval → Resolved
  unfolding resolve_one
  resolve_each [] rows = record { rows = rows; calls = []; resolved = 0; expired = 0 }
  resolve_each (a ∷ approvals) rows =
      let o = resolve_one services input a in
      let later = resolve_each approvals (set_status input a.id o.new_status rows) in
      record {
        rows = later.rows;
        calls = o.calls ++ later.calls;
        resolved = count_resolved o + later.resolved;
        expired = count_expired o + later.expired;
      }

  unfoldable pub resolve_all : List Approval → Resolved
  unfolding resolve_each
  resolve_all rows = resolve_each (filter is_pending rows) rows

  unfoldable pub resolve_approvals : List Approval → ResolveApprovalsResult
  unfolding resolve_all
  resolve_approvals rows =
      let done = resolve_all rows in
      record {
        resolved = done.resolved;
        expired = done.expired;
        still_pending = length (filter is_pending rows) - done.resolved - done.expired;
      }
