-- ===== src/Pm/StartTodo.antt =====
-- pm/actions/start-todo.ts: `startTodoIssues`, and pm/actions/select-repo-config.ts. What Linear and the
-- runner answer are arguments; log lines, audit events and the title in a result are left out.
pub mod Routing
pub mod Started
use urateam.Prelude.{
  ℕ, ◌*◌, String, Bool, true, false, ◌&&◌, not, Option, none, some, List, [], ◌∷◌, map, take, leb,
  if◌then◌else◌, filter, str_eq, to_lower, includes, Assoc, lookup,
}
use urateam.Pipeline.Router.{Resolved, Slot, resolve_pipeline}
use urateam.Pm.Budget.{BudgetEvaluation}
use urateam.Pm.Runs.{
  PipelineRun, batch_count_consecutive_failures, count_of, get_active_and_recent_issue_ids,
}

pub record RepoConfig : Type 0 where
  pub url : String
  pub label_pattern : Option String

-- `a && b[a]`: an empty id is no id.
abbrev pub by_id : Option String → Assoc RepoConfig → Option RepoConfig
by_id none configs = none
by_id (some id) configs = if str_eq id "" then none else lookup id configs

-- An empty pattern is no pattern.
abbrev pub has_pattern : String → RepoConfig → Bool
has_pattern label_lower config = fits config.label_pattern
  where
    fits : Option String → Bool
    fits none = false
    fits (some pattern) = not (str_eq pattern "") && str_eq (to_lower pattern) label_lower

unfoldable pub by_label : (label_lower : String) → Assoc RepoConfig → Option RepoConfig
by_label label_lower [] = none
by_label label_lower (entry ∷ configs) =
    let later = by_label label_lower configs in
    if has_pattern label_lower entry.1 then some entry.1 else later

abbrev pub or_else_try {ℓ} : {A : Type ℓ} → Option A → Option A → Option A
or_else_try none o = o
or_else_try (some a) o = some a

unfoldable pub select_repo_config :
    (pipeline_label : String) (team_id project_id : Option String)
    → Assoc RepoConfig
    → Option RepoConfig
unfolding by_label
select_repo_config pipeline_label team_id project_id configs =
    or_else_try (by_label (to_lower pipeline_label) configs)
      (or_else_try (by_id team_id configs) (by_id project_id configs))

pub record Issue : Type 0 where
  pub identifier : String
  pub team_id : Option String
  pub project_id : Option String
  pub labels : List String

pub data Reason : Type 0 where
  circuit_breaker : (failure_count : ℕ) → Reason
  no_pipeline start_failed : Reason
  no_repo : (pipeline_label : String) → Reason

pub data StartTodoResult : Type 0 where
  started : (identifier pipeline : String) → StartTodoResult
  skipped : (identifier : String) → Reason → StartTodoResult

pub record StartTodoInput {ℓ} (C : Type ℓ) : Type ℓ where
  pub pipeline_configs : Assoc C
  pub repo_configs : Assoc RepoConfig
  pub max_per_tick : ℕ
  pub budget_evaluation : Option BudgetEvaluation
  pub max_consecutive_failures : Option ℕ
  pub probe_override_ids : List String
  pub runs : List PipelineRun
  pub now : ℕ
  pub start_succeeds : String → Bool

-- `recentWindowMs` of `getActiveAndRecentIssueIds`, by default 30 minutes.
abbrev pub recent_window_ms : ℕ
recent_window_ms = 30 * 60 * 1000

abbrev pub over_budget : Option BudgetEvaluation → Bool
over_budget none = false
over_budget (some evaluation) = evaluation.promote_blocked

module _ {ℓ} {C : Type ℓ} (input : StartTodoInput C) where
  abbrev pub opens : Option ℕ → Assoc ℕ → Issue → Bool
  opens none failures issue = false
  opens (some limit) failures issue =
      leb limit (count_of failures issue.identifier)
      && not (includes input.probe_override_ids issue.identifier)

  abbrev pub repo_for : Issue → Resolved (Slot C) → Option RepoConfig
  repo_for issue resolved =
      select_repo_config resolved.key issue.team_id issue.project_id input.repo_configs

  -- The call of the runner, and what becomes of it.
  abbrev start_in : Issue → Resolved (Slot C) → Option RepoConfig → StartTodoResult
  start_in issue resolved none = skipped issue.identifier (no_repo resolved.key)
  start_in issue resolved (some config) =
      if input.start_succeeds issue.identifier
      then started issue.identifier resolved.key
      else skipped issue.identifier start_failed

  abbrev start_with : Issue → Option (Resolved (Slot C)) → StartTodoResult
  start_with issue none = skipped issue.identifier no_pipeline
  start_with issue (some resolved) = start_in issue resolved (repo_for issue resolved)

  unfoldable pub process : Assoc ℕ → Issue → StartTodoResult
  process failures issue =
      if opens input.max_consecutive_failures failures issue
      then skipped issue.identifier (circuit_breaker (count_of failures issue.identifier))
      else start_with issue (resolve_pipeline issue.labels input.pipeline_configs)

  -- The issues with no active run and none that ended a short while ago.
  abbrev pub orphaned : List Issue → List Issue
  orphaned issues =
      let ids = get_active_and_recent_issue_ids input.now recent_window_ms none input.runs in
      filter (λ i. not (includes ids.recently_processed i.identifier))
        (filter (λ i. not (includes ids.active_issue_ids i.identifier)) issues)

  abbrev pub to_process : List Issue → List Issue
  to_process todo_issues = take input.max_per_tick (orphaned todo_issues)

  unfoldable pub start_todo_issues : List Issue → List StartTodoResult
  unfolding process
  start_todo_issues todo_issues =
      let issues = to_process todo_issues in
      let failures = batch_count_consecutive_failures input.runs (map (λ i. i.identifier) issues) in
      if over_budget input.budget_evaluation then [] else map (process failures) issues
