-- ===== src/Tests/Starting.antt =====
-- The start of issues and the alerts on budgets of packages/core/src/pm, on two issues and one scope.
use urateam.Prelude.{
  ℕ, map, ◌≤◌, ◌≡◌, refl, true, false, none, some, List, [], ◌∷◌, All, length, to_lower, includes,
  lookup,
}
use urateam.Pipeline.Router.{resolve_pipeline, by_priority, first_label, read}
use urateam.Pm.Budget.{BudgetEvaluation, ScopeBudget, team, warn_80}
use urateam.Pm.Runs.{
  PipelineRun, failed, running, batch_count_consecutive_failures, get_active_and_recent_issue_ids,
}
use urateam.Pm.Alerts.{
  AlertRow, Services, has_row, fire_threshold, fire_thresholds, fire_scopes, maybe_fire_alerts,
}
use urateam.Pm.Alerts.Once.{deliveries, Call, fire_all, alerts_once}
use urateam.Pm.Alerts.Delivery.{Works}
use urateam.Pm.Alerts.Refinement.{announce_all, announced_by, reached_in, alerts_refine}
use urateam.Pm.StartTodo.{
  Issue, StartTodoInput, started, skipped, circuit_breaker, select_repo_config, by_label, process,
  over_budget, start_todo_issues,
}
use urateam.Pm.StartTodo.Started.{starts, IsStartable, started_lem}

abbrev team_scope : ScopeBudget
team_scope = record { scope = team "t"; limit = 100; used = 85; percent = 85; tier = warn_80 }

abbrev evaluation : BudgetEvaluation
evaluation = record {
  scopes = team_scope ∷ [];
  worst_tier = warn_80;
  promote_blocked = false;
  block_reason = none;
  active_count = 1;
}

abbrev working : Services
working = record {
  insert_succeeds = λ row. true;
  post_succeeds = λ row. true;
  delete_succeeds = λ row. true;
}

-- Slack is down.
abbrev unposted : Services
unposted = record working { post_succeeds = λ row. false }

abbrev alert_80 : AlertRow
alert_80 = record { date = "2026-05-01"; scope = "team:t"; threshold = 80 }

abbrev calls : List Call
calls =
    record { services = unposted; today = "2026-05-01"; evaluation = evaluation }
    ∷ record { services = working; today = "2026-05-01"; evaluation = evaluation }
    ∷ record { services = working; today = "2026-05-01"; evaluation = evaluation }
    ∷ []

delivered_later : deliveries alert_80 (fire_all calls []).posts ≡ 1
unfolding fire_all maybe_fire_alerts fire_scopes fire_thresholds fire_threshold
delivered_later = refl

alerts_once_example :
    (deliveries alert_80 (fire_all calls []).posts ≤ 1)
    × (has_row alert_80 [] ≡ true → deliveries alert_80 (fire_all calls []).posts ≡ 0)
alerts_once_example = alerts_once calls [] alert_80

working-Works : Works working
working-Works row = (refl, refl)

abbrev failed_run : PipelineRun
failed_run = record {
  id = "p1";
  issue_id = "BEC-1";
  repo_url = "r";
  status = failed;
  started_at = 50;
  completed_at = some 60;
  total_input_tokens = 30;
  total_output_tokens = 10;
  error_message = some "boom";
  retry_count = 0;
  pr_url = none;
  auto_merged = false;
  linear_team_id = some "t";
}

abbrev fresh : Issue
fresh = record { identifier = "BEC-2"; team_id = some "t"; project_id = none; labels = "Bug" ∷ [] }

abbrev todo_issues : List Issue
todo_issues =
    record fresh { identifier = "BEC-3" } ∷ record fresh { identifier = "BEC-1" } ∷ fresh ∷ []

abbrev input : StartTodoInput ℕ
input = record {
  pipeline_configs = ("bug", 1) ∷ [];
  repo_configs = ("t", record { url = "https://x/r"; label_pattern = none }) ∷ [];
  max_per_tick = 2;
  budget_evaluation = some evaluation;
  max_consecutive_failures = some 1;
  probe_override_ids = [];
  runs = record failed_run { id = "p2"; issue_id = "BEC-3"; status = running } ∷ failed_run ∷ [];
  now = 9000000;
  start_succeeds = λ identifier. true;
}

starts_one :
    start_todo_issues input todo_issues
    ≡ skipped "BEC-1" (circuit_breaker 1) ∷ started "BEC-2" "bug" ∷ []
unfolding start_todo_issues process get_active_and_recent_issue_ids select_repo_config by_label
    batch_count_consecutive_failures includes resolve_pipeline by_priority first_label read lookup
    to_lower
starts_one = refl

started_lem_example :
    let asked = starts (start_todo_issues input todo_issues) in
    (length asked ≤ 2)
    × (over_budget (some evaluation) ≡ true → asked ≡ [])
    × All (IsStartable input todo_issues) asked
started_lem_example = started_lem input todo_issues

abbrev day : List Call
day =
    record { services = working; today = "2026-05-01"; evaluation = evaluation }
    ∷ record { services = working; today = "2026-05-01"; evaluation = evaluation }
    ∷ []

alerts_refine_example :
    let fired = fire_all day [] in
    let spec = announce_all (map reached_in day) (announced_by []) in
    (announced_by fired.rows ≡ spec.0) × ((λ row. deliveries row fired.posts) ≡ spec.1)
alerts_refine_example = alerts_refine day [] (working-Works, (working-Works, tt))
