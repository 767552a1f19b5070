-- ===== src/Pm/RecoverStuck.antt =====
-- pm/actions/recover-stuck.ts: `recoverStuckInProgressIssues`. The state is the table of runs; the issues
-- come with the relations that are fetched before the loop. Log lines, audit events, the Slack notice
-- and the texts of comments are left out.
pub mod Zombies
pub mod Moves
use Prim.Native.String
use urateam.Prelude.{
  ℕ, ◌-◌, ◌*◌, String, Bool, true, false, ◌&&◌, not, Option, none, some, List, [], ◌∷◌, ◌++◌, map,
  ltb, show, if◌then◌else◌, filter, str_eq, includes, take, is_some, or_else, Assoc, lookup,
}
use urateam.Pm.Runs.{
  PipelineRunStatus, running, completed, failed, PipelineRun, IssueIds,
  get_active_and_recent_issue_ids,
}

pub record StuckIssue : Type 0 where
  pub id : String
  pub identifier : String
  pub team_id : Option String
  pub state_name : Option String

pub record StuckIssueResult : Type 0 where
  pub issue_id : String
  pub identifier : String
  pub previous_state : String
  pub last_run_status : Option PipelineRunStatus
  pub target_state : String
  pub recovered_long_running : Bool

-- The two calls of Linear, which are made at once.
pub data Call : Type 0 where
  update_issue : (issue : String) (state : String) → Call
  create_comment : (issue : String) → Call

pub record Services : Type 0 where
  pub update_run_succeeds : String → Bool
  pub update_issue_succeeds : String → Bool
  pub create_comment_succeeds : String → Bool

pub record RecoverStuckInput : Type 0 where
  pub target_state : String
  pub max_per_tick : ℕ
  pub stuck_run_age_minutes : ℕ
  pub state_map : Assoc String
  pub now : ℕ

-- The table of runs after the tick, the results, and the calls, in order.
pub record Recovery : Type 0 where
  pub runs : List PipelineRun
  pub results : List StuckIssueResult
  pub calls : List Call

abbrev pub age_ms : RecoverStuckInput → ℕ
age_ms input = input.stuck_run_age_minutes * 60 * 1000

abbrev pub recent_window_ms : ℕ
recent_window_ms = 30 * 60 * 1000

-- The later of two runs; the first of equals.
abbrev pub later_run : PipelineRun → Option PipelineRun → Option PipelineRun
later_run run none = some run
later_run run (some r) = if ltb run.started_at r.started_at then some r else some run

-- The newest run of an issue: the first after the sort.
unfoldable pub last_run : String → List PipelineRun → Option PipelineRun
last_run identifier [] = none
last_run identifier (run ∷ runs) =
    let rest = last_run identifier runs in
    if str_eq run.issue_id identifier then later_run run rest else rest

abbrev pub is_running : PipelineRunStatus → Bool
is_running running = true
is_running _ = false

abbrev pub is_completed : PipelineRunStatus → Bool
is_completed completed = true
is_completed _ = false

abbrev pub already_shipped : Option PipelineRun → Bool
already_shipped none = false
already_shipped (some run) = is_completed run.status && run.auto_merged

-- The id of a run that went on for too long: it is running, and yet not active.
abbrev pub zombie_id : Option PipelineRun → Option String
zombie_id none = none
zombie_id (some run) = if is_running run.status then some run.id else none

abbrev pub state_of : Assoc String → Option String → String → Option String
state_of state_map none name = none
state_of state_map (some team) name = lookup (String.◌++◌ team (String.◌++◌ ":" name)) state_map

abbrev pub has_pr : Option PipelineRun → Bool
has_pr none = false
has_pr (some run) = is_completed run.status && is_some run.pr_url

abbrev pub in_review_override : Assoc String → StuckIssue → Option PipelineRun → Option String
in_review_override state_map issue last =
    if has_pr last then state_of state_map issue.team_id "In Review" else none

-- What is to be done for an issue.
pub data Plan : Type 0 where
  leave : Plan
  move : (zombie : Option String) (target state : String) → Plan

-- The first state is that of the override.
abbrev pub choose : Option String → (review fallback : Option String) → (target : String) → Plan
choose zombie (some state) fallback target = move zombie "In Review" state
choose zombie none (some state) target = move zombie target state
choose zombie none none target = leave

unfoldable pub plan_for : RecoverStuckInput → List PipelineRun → StuckIssue → Plan
unfolding last_run
plan_for input runs issue =
    let last = last_run issue.identifier runs in
    if already_shipped last
    then leave
    else choose (zombie_id last) (in_review_override input.state_map issue last)
        (state_of input.state_map issue.team_id input.target_state) input.target_state

abbrev error_message : (stuck_run_age_minutes : ℕ) → String
error_message minutes =
    String.◌++◌ "recovered: running > " (String.◌++◌ (show minutes) " min with no completion")

abbrev pub failed_row : RecoverStuckInput → PipelineRun → PipelineRun
failed_row input run = record run {
  status = failed;
  completed_at = some input.now;
  error_message = some (error_message input.stuck_run_age_minutes);
}

abbrev pub mark_failed : RecoverStuckInput → (id : String) → PipelineRun → PipelineRun
mark_failed input id run = if str_eq id run.id then failed_row input run else run

abbrev fail_zombie : RecoverStuckInput → Option String → List PipelineRun → List PipelineRun
fail_zombie input none runs = runs
fail_zombie input (some id) runs = map (mark_failed input id) runs

abbrev zombie_update_succeeds : Services → Option String → Bool
zombie_update_succeeds services none = true
zombie_update_succeeds services (some id) = services.update_run_succeeds id

abbrev status_of : Option PipelineRun → Option PipelineRunStatus
status_of none = none
status_of (some run) = some run.status

abbrev result_for : StuckIssue → Option PipelineRun → Option String → String → StuckIssueResult
result_for issue last zombie target = record {
  issue_id = issue.id;
  identifier = issue.identifier;
  previous_state = or_else issue.state_name "In Progress";
  last_run_status = status_of last;
  target_state = target;
  recovered_long_running = is_some zombie;
}

-- One issue, in its `try`: `runs` is the table now, `last` the run as it was fetched before the loop.
abbrev pub execute :
    Services
    → RecoverStuckInput
    → StuckIssue
    → Option PipelineRun
    → Plan
    → List PipelineRun
    → Recovery
execute services input issue last leave runs = record { runs = runs; results = []; calls = [] }
execute services input issue last (move zombie target state) runs =
    if not (zombie_update_succeeds services zombie)
    then record { runs = runs; results = []; calls = [] }
    else record {
      runs = fail_zombie input zombie runs;
      results =
          if services.update_issue_succeeds issue.id && services.create_comment_succeeds issue.id
          then result_for issue last zombie target ∷ []
          else [];
      calls = update_issue issue.id state ∷ create_comment issue.id ∷ [];
    }

abbrev pub then_recovery : Recovery → Recovery → Recovery
then_recovery first later = record later {
  results = first.results ++ later.results;
  calls = first.calls ++ later.calls;
}

module _ (services : Services) (input : RecoverStuckInput) (fetched : List PipelineRun) where
  -- The loop: the newest runs were fetched before it.
  unfoldable pub recover_each : List StuckIssue → List PipelineRun → Recovery
  unfolding plan_for last_run
  recover_each [] runs = record { runs = runs; results = []; calls = [] }
  recover_each (issue ∷ issues) runs =
      let last = last_run issue.identifier fetched in
      let first = execute services input issue last (plan_for input fetched issue) runs in
      then_recovery first (recover_each issues first.runs)

abbrev pub stuck_issues : RecoverStuckInput → List PipelineRun → List StuckIssue → List StuckIssue
stuck_issues input runs in_progress =
    let ids =
      get_active_and_recent_issue_ids input.now recent_window_ms (some (age_ms input)) runs in
    filter
      (λ i.
        not (includes ids.active_issue_ids i.identifier)
        && not (includes ids.recently_processed i.identifier))
      in_progress

unfoldable pub recover_stuck_in_progress_issues :
    Services → RecoverStuckInput → List StuckIssue → List PipelineRun → Recovery
unfolding recover_each
recover_stuck_in_progress_issues services input in_progress runs =
    recover_each services input runs (take input.max_per_tick (stuck_issues input runs in_progress))
      runs
