-- ===== src/Tests/PmAgent.antt =====
-- The PM agent of packages/core/src/pm, on three runs and two issues.
use urateam.Prelude.{
  ◌≡◌, refl, ◌↔◌, ◌≤◌, ◌<◌, ◌+◌, String, true, false, none, some, List, [], ◌∷◌, arith, inl, In,
  lookup, if◌then◌else◌, includes, length, All, to_lower, is_some, eq_iff,
}
use urateam.Auth.Timestamps.{sqlite}
use urateam.Pipeline.Router.{resolve_pipeline, by_priority, read}
use urateam.Pm.Percent.{percent, shift, shift_from, quotient_bits, times_100, round_div}
use urateam.Pm.Percent.Rounding.{percent_full_iff}
use urateam.Pm.Runs.{
  PipelineRun, failed, completed, count_consecutive_failures, batch_count_consecutive_failures,
}
use urateam.Pm.Runs.Failures.{batch_count_lem}
use urateam.Pm.Budget.{Budgets, evaluate_budget}
use urateam.Pm.Budget.Spending.{spent, any_group, of_team, of_repo}
use urateam.Pm.Budget.Scopes.{Valid, Exhausted}
use urateam.Pm.Budget.Verdict.{promote_blocked_iff}
use urateam.Pm.Breaker.{
  BreakerRow, SelectProbeCandidatesOptions, select_probe_candidates, BreakerEvent, select, escalate,
  clear, after_events,
}
use urateam.Pm.Breaker.Spacing.{Keeps, probes_apart}
use urateam.Pm.StateMap.{todo_states_after}
use urateam.Pm.Promote.{
  Candidate, Services, PromoteInput, no_risk, promote_ready_issues, set_state, comment_promoted,
}
use urateam.Pm.Promote.Conditions.{moves, IsAllowed}
use urateam.Pm.Promote.Slots.{failures_of, promoted_lem}

-- A third that is rounded twice.
rounds_down : (percent 29 100 ≡ 28) × (percent 58 100 ≡ 57) × (percent 4 5 ≡ 80)
unfolding percent shift quotient_bits times_100 round_div shift_from
rounds_down = (refl, refl, refl)

percent_full_iff_example : (100 ≤ percent 29 100) ↔ (100 ≤ 29)
percent_full_iff_example = percent_full_iff 29 100 (omega arith) (omega arith)

abbrev run_1 : PipelineRun
run_1 = record {
  id = "p1";
  issue_id = "BEC-1";
  repo_url = "r";
  status = failed;
  started_at = 50;
  completed_at = some 60;
  total_input_tokens = 30;
  total_output_tokens = 10;
  error_message = some "boom";
  retry_count = 0;
  pr_url = none;
  auto_merged = false;
  linear_team_id = some "t";
}

abbrev runs : List PipelineRun
runs =
    run_1
    ∷ record run_1 { id = "p2"; started_at = 40 }
    ∷ record run_1 { id = "p3"; started_at = 5; status = completed }
    ∷ []

counts :
    batch_count_consecutive_failures runs ("BEC-1" ∷ "BEC-2" ∷ [])
    ≡ ("BEC-1", 2) ∷ ("BEC-2", 0) ∷ []
unfolding batch_count_consecutive_failures includes
counts = refl

batch_count_lem_example : lookup "BEC-1" (batch_count_consecutive_failures runs ("BEC-1" ∷ [])) ≡ (
    if includes ("BEC-1" ∷ []) "BEC-1"
    then some (count_consecutive_failures runs "BEC-1")
    else none)
batch_count_lem_example = batch_count_lem runs ("BEC-1" ∷ []) "BEC-1"

abbrev budgets : Budgets
budgets = record {
  daily_token_budget = 100;
  default_limit = some 90;
  per_team = ("t", 80) ∷ [];
  per_repo = [];
}

budgets-Valid : Valid budgets
unfolding lookup
budgets-Valid = record {
  daily = (omega arith, omega arith);
  teams = λ id. ground arith;
  repos = λ url. (omega arith, omega arith);
}

-- The two runs since 10 spend 80 of the 80 tokens of the team.
blocks :
    ((evaluate_budget 10 100 (some runs) budgets).promote_blocked ≡ true)
    × ((evaluate_budget 10 100 none budgets).promote_blocked ≡ false)
unfolding evaluate_budget percent shift quotient_bits times_100 round_div shift_from
blocks = (refl, refl)

promote_blocked_iff_example :
    let result = evaluate_budget 10 100 (some runs) budgets in
    ((result.promote_blocked ≡ true)
      ↔ Exhausted budgets
          (spent any_group 10 100 runs)
          (λ id. spent (of_team id) 10 100 runs)
          (λ url. spent (of_repo url) 10 100 runs))
    × ((is_some result.block_reason ≡ true) ↔ (result.promote_blocked ≡ true))
promote_blocked_iff_example = promote_blocked_iff 10 100 (some runs) budgets budgets-Valid

abbrev options : SelectProbeCandidatesOptions
options = record {
  cap = 1;
  cooldown_ms = 5000;
  max_consecutive_failures = 2;
  now = 90000;
  disabled = false;
}

abbrev rows : List BreakerRow
rows =
    record { issue_id = "BEC-1"; escalated_at = 3; last_probe_at = some 50; probe_attempts = 1 }
    ∷ []

probes : (select_probe_candidates sqlite options runs rows).0 ≡ "BEC-1" ∷ []
unfolding select_probe_candidates includes
probes = refl

abbrev later : SelectProbeCandidatesOptions
later = record options { now = 95000 }

-- A selection that finds nothing, and what happens to another issue.
abbrev between : List BreakerEvent
between = select (record options { now = 91000 }) runs ∷ escalate "BEC-2" 92000 ∷ clear "BEC-2" ∷ []

other_issue : Keeps "BEC-1" 90000 (clear "BEC-2")
other_issue e = cc ((eq_iff "BEC-2" "BEC-1").1 e)

between-Keeps : All (Keeps "BEC-1" 90000) between
between-Keeps = (omega arith, (omega arith, (other_issue, tt)))

probed_again :
    In "BEC-1"
      (select_probe_candidates sqlite later runs
        (after_events sqlite between (select_probe_candidates sqlite options runs rows).1)).0
unfolding select_probe_candidates after_events includes
probed_again = inl refl

probed_first : In "BEC-1" (select_probe_candidates sqlite options runs rows).0
unfolding select_probe_candidates includes
probed_first = inl refl

probes_apart_example : 90000 + 5000 < 95000 + 1000
probes_apart_example =
    probes_apart sqlite options later runs runs rows between "BEC-1" (omega arith) between-Keeps
      probed_first probed_again

abbrev issue : Candidate
issue = record {
  id = "u2";
  identifier = "BEC-2";
  priority = some 1;
  description = "";
  team_id = some "t";
  labels = record { id = "l1"; name = "bug" } ∷ [];
}

abbrev services : Services
services = record {
  check_conflict = λ d. some no_risk;
  set_state_succeeds = λ i. true;
  comment_succeeds = λ i. true;
  set_labels_succeeds = λ i. true;
  issue_labels = none;
  has_slack = false;
}

abbrev input : PromoteInput String
input = record {
  slots_available = 1;
  require_pipeline_label = true;
  pipeline_configs = ("bug", "fix") ∷ [];
  max_consecutive_failures = some 2;
  probe_override_ids = [];
  state_map = ("t:Backlog", "backlog") ∷ ("t:Todo", "todo") ∷ [];
  runs = runs;
}

abbrev backlog : List Candidate
backlog = record issue { id = "u1"; identifier = "BEC-1"; priority = none } ∷ issue ∷ issue ∷ []

-- The urgent issue takes the one slot.
promotes :
    (promote_ready_issues services input backlog).calls
    ≡ set_state "u2" "todo" ∷ comment_promoted "u2" no_risk ∷ []
unfolding promote_ready_issues includes resolve_pipeline by_priority to_lower read todo_states_after
promotes = refl

promoted_lem_example :
    let asked = moves (promote_ready_issues services input backlog).calls in
    (length asked ≤ 1) × All (IsAllowed services input (failures_of input backlog) backlog) asked
promoted_lem_example = promoted_lem services input backlog
