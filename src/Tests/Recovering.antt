-- ===== src/Tests/Recovering.antt =====
-- The recovery of issues of packages/core/src/pm, on one run that hangs and one that ended with a pull
-- request.
use urateam.Prelude.{
  ◌≤◌, ◌≡◌, refl, true, false, none, some, List, [], ◌∷◌, All, In, length, includes, lookup,
}
use urateam.Pm.Runs.{PipelineRun, running, completed, get_active_and_recent_issue_ids}
use urateam.Pm.RecoverStuck.{
  StuckIssue, Services, RecoverStuckInput, last_run, plan_for, recover_each, already_shipped,
  recover_stuck_in_progress_issues,
}
use urateam.Pm.RecoverStuck.Zombies.{IsUnheld, OnlyStaleFailed, stale_runs_fail}
use urateam.Pm.RecoverStuck.Moves.{moves, Goes, moved_lem}

abbrev hangs : PipelineRun
hangs = record {
  id = "p1";
  issue_id = "BEC-1";
  repo_url = "r";
  status = running;
  started_at = 1000;
  completed_at = none;
  total_input_tokens = 30;
  total_output_tokens = 10;
  error_message = none;
  retry_count = 0;
  pr_url = none;
  auto_merged = false;
  linear_team_id = some "t";
}

abbrev runs : List PipelineRun
runs =
    record hangs {
      id = "p2";
      issue_id = "BEC-2";
      status = completed;
      completed_at = some 2000;
      pr_url = some "https://x/pull/1";
    }
    ∷ hangs
    ∷ []

abbrev stuck : StuckIssue
stuck = record {
  id = "i1";
  identifier = "BEC-1";
  team_id = some "t";
  state_name = some "In Progress";
}

abbrev in_progress : List StuckIssue
in_progress = stuck ∷ record stuck { id = "i2"; identifier = "BEC-2" } ∷ []

abbrev input : RecoverStuckInput
input = record {
  target_state = "Backlog";
  max_per_tick = 5;
  stuck_run_age_minutes = 60;
  state_map = ("t:Backlog", "s1") ∷ ("t:In Review", "s2") ∷ [];
  now = 10000000;
}

abbrev working : Services
working = record {
  update_run_succeeds = λ id. true;
  update_issue_succeeds = λ id. true;
  create_comment_succeeds = λ id. true;
}

recovers :
    moves (recover_stuck_in_progress_issues working input in_progress runs).calls
    ≡ ("i1", "s1") ∷ ("i2", "s2") ∷ []
unfolding recover_stuck_in_progress_issues recover_each plan_for last_run lookup includes
    get_active_and_recent_issue_ids
recovers = refl

stale_runs_fail_example :
    OnlyStaleFailed input runs
      (recover_stuck_in_progress_issues working input in_progress runs).runs
stale_runs_fail_example = stale_runs_fail working input in_progress runs

moved_lem_example :
    let asked = moves (recover_stuck_in_progress_issues working input in_progress runs).calls in
    (length asked ≤ 5)
    × All
        (λ m.
          (issue : StuckIssue) × In issue in_progress
          × (issue.id ≡ m.0)
          × IsUnheld input runs issue
          × (already_shipped (last_run issue.identifier runs) ≡ false)
          × Goes input runs issue m.1)
        asked
moved_lem_example = moved_lem working input in_progress runs
