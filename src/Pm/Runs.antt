-- ===== src/Pm/Runs.antt =====
-- The rows of `pipelineRuns` (db/schema.ts), and what pm/actions/db-queries.ts reads from them.
pub mod Failures
pub mod Listing
use urateam.Prelude.{
  ℕ, suc, ◌+◌, ◌-◌, String, Bool, true, false, ◌||◌, ◌&&◌, Option, none, some, List, [], ◌∷◌, ◌++◌,
  map, leb, if◌then◌else◌, filter, or_else, str_eq, includes, Assoc, lookup, insert,
}

-- `retriable` is written by the runner and read by pm/actions/recover.ts; the type does not list it.
pub data PipelineRunStatus : Type 0 where
  queued running completed failed aborted paused cancelled retriable : PipelineRunStatus

pub record PipelineRun : Type 0 where
  pub id : String
  pub issue_id : String
  pub repo_url : String
  pub status : PipelineRunStatus
  pub started_at : ℕ
  pub completed_at : Option ℕ
  pub total_input_tokens : ℕ
  pub total_output_tokens : ℕ
  pub error_message : Option String
  pub retry_count : ℕ
  pub linear_team_id : Option String
  pub pr_url : Option String
  pub auto_merged : Bool

abbrev pub is_active : PipelineRunStatus → Bool
is_active queued = true
is_active running = true
is_active _ = false

abbrev pub is_failed : PipelineRunStatus → Bool
is_failed failed = true
is_failed _ = false

abbrev pub is_terminal : PipelineRunStatus → Bool
is_terminal completed = true
is_terminal failed = true
is_terminal _ = false

-- A table stands in the order of `ORDER BY started_at DESC, id DESC`.
unfoldable pub count_leading_failures : List PipelineRunStatus → ℕ
count_leading_failures [] = 0
count_leading_failures (status ∷ rows) =
    let rest = count_leading_failures rows in if is_failed status then suc rest else 0

unfoldable pub terminal_of : String → List PipelineRun → List PipelineRunStatus
terminal_of issue_id [] = []
terminal_of issue_id (run ∷ runs) =
    let rest = terminal_of issue_id runs in
    if str_eq run.issue_id issue_id && is_terminal run.status then run.status ∷ rest else rest

unfoldable pub count_consecutive_failures : List PipelineRun → String → ℕ
unfolding count_leading_failures terminal_of
count_consecutive_failures runs issue_id = count_leading_failures (terminal_of issue_id runs)

abbrev pub bucket_of : String → Assoc (List PipelineRunStatus) → List PipelineRunStatus
bucket_of issue_id by_issue = or_else (lookup issue_id by_issue) []

-- The rows of the query, into the buckets: the first is read first.
unfoldable pub group_rows :
    List String → List PipelineRun → Assoc (List PipelineRunStatus) → Assoc (List PipelineRunStatus)
unfolding lookup insert
group_rows issue_ids [] by_issue = by_issue
group_rows issue_ids (run ∷ runs) by_issue =
    let bucket = bucket_of run.issue_id by_issue ++ run.status ∷ [] in
    group_rows issue_ids runs (
      if includes issue_ids run.issue_id && is_terminal run.status
      then insert run.issue_id bucket by_issue
      else by_issue)

unfoldable pub count_buckets : List String → Assoc (List PipelineRunStatus) → Assoc ℕ → Assoc ℕ
unfolding count_leading_failures lookup insert
count_buckets [] by_issue result = result
count_buckets (issue_id ∷ issue_ids) by_issue result =
    count_buckets issue_ids by_issue
      (insert issue_id (count_leading_failures (bucket_of issue_id by_issue)) result)

unfoldable pub batch_count_consecutive_failures : List PipelineRun → List String → Assoc ℕ
unfolding group_rows count_buckets
batch_count_consecutive_failures runs [] = []
batch_count_consecutive_failures runs (issue_id ∷ issue_ids) =
    count_buckets (issue_id ∷ issue_ids) (group_rows (issue_id ∷ issue_ids) runs []) []

unfoldable pub get_last_failure_error : List PipelineRun → String → Option String
get_last_failure_error [] issue_id = none
get_last_failure_error (run ∷ runs) issue_id =
    let earlier = get_last_failure_error runs issue_id in
    if str_eq run.issue_id issue_id && is_failed run.status then run.error_message else earlier

-- `map.get(key) ?? 0`
abbrev pub count_of : Assoc ℕ → String → ℕ
count_of counts issue_id = or_else (lookup issue_id counts) 0

-- With `stuck_run_age_ms`, a run that started before the cutoff is not active.
abbrev pub holds_issue : ℕ → Option ℕ → PipelineRun → Bool
holds_issue now none run = is_active run.status
holds_issue now (some age) run = still_active run.status (leb (now - age) run.started_at)
  where
    still_active : PipelineRunStatus → Bool → Bool
    still_active queued recent = true
    still_active running recent = recent
    still_active _ recent = false

abbrev pub finished_since : ℕ → PipelineRun → Bool
finished_since cutoff run = is_terminal run.status && reaches run.completed_at
  where
    reaches : Option ℕ → Bool
    reaches none = false
    reaches (some t) = leb cutoff t

pub record IssueIds : Type 0 where
  pub active_issue_ids : List String
  pub recently_processed : List String

unfoldable pub get_active_and_recent_issue_ids :
    (now recent_window_ms : ℕ) → Option ℕ → List PipelineRun → IssueIds
get_active_and_recent_issue_ids now recent_window_ms stuck_run_age_ms runs = record {
  active_issue_ids = map (λ r. r.issue_id) (filter (holds_issue now stuck_run_age_ms) runs);
  recently_processed =
      map (λ r. r.issue_id) (filter (finished_since (now - recent_window_ms)) runs);
}
