-- ===== src/Release/Triggers.antt =====
-- release-manager/triggers.ts. A reason is a constructor with the numbers that its text shows; a
-- duration is compared with its threshold in milliseconds, where the source divides.
use urateam.Prelude.{
  ℕ, ◌+◌, ◌*◌, String, Bool, true, false, not, Option, none, some, leb, ltb, if◌then◌else◌, str_eq,
}
use urateam.Release.{QaCheckConfig, QaRunSnapshot, CiStatus, green, not_green, unavailable}

pub data Reason : Type 0 where
  merged_prs merged_prs_not_met : (have threshold : ℕ) → Reason
  no_prior_tag : Reason
  time_since_last time_since_last_not_met : (last now threshold_hours : ℕ) → Reason
  ci_check_unavailable ci_not_green : Reason
  ci_green ci_green_not_met : (since now threshold_minutes : ℕ) → Reason
  approval_not_required approval_is_fresh no_fresh_approval : Reason
  qa_passed : Reason
  qa_failed : (run_id : ℕ) (conclusion : String) → Reason
  qa_running qa_timed_out : (run_id : ℕ) → Reason
  qa_needs_trigger qa_no_workflow : Reason

pub record TriggerResult : Type 0 where
  pub pass : Bool
  pub reason : Reason

abbrev pub passed : Reason → TriggerResult
passed reason = record { pass = true; reason = reason }

abbrev pub failed : Reason → TriggerResult
failed reason = record { pass = false; reason = reason }

unfoldable pub eval_merged_prs_since : (actual_count threshold : ℕ) → TriggerResult
eval_merged_prs_since actual_count threshold =
    if leb threshold actual_count
    then passed (merged_prs actual_count threshold)
    else failed (merged_prs_not_met actual_count threshold)

unfoldable pub eval_time_since_last_hours : Option ℕ → (threshold_hours now : ℕ) → TriggerResult
eval_time_since_last_hours none threshold_hours now = passed no_prior_tag
eval_time_since_last_hours (some last) threshold_hours now =
    if leb (last + threshold_hours * 3600000) now
    then passed (time_since_last last now threshold_hours)
    else failed (time_since_last_not_met last now threshold_hours)

unfoldable pub eval_ci_green_for_minutes :
    CiStatus → Option ℕ → (threshold_minutes now : ℕ) → TriggerResult
eval_ci_green_for_minutes unavailable green_since threshold_minutes now =
    failed ci_check_unavailable
eval_ci_green_for_minutes not_green green_since threshold_minutes now = failed ci_not_green
eval_ci_green_for_minutes green none threshold_minutes now = failed ci_not_green
eval_ci_green_for_minutes green (some since) threshold_minutes now =
    if leb (since + threshold_minutes * 60000) now
    then passed (ci_green since now threshold_minutes)
    else failed (ci_green_not_met since now threshold_minutes)

unfoldable pub eval_require_slack_approval : (required has_fresh : Bool) → TriggerResult
eval_require_slack_approval required has_fresh =
    if not required
    then passed approval_not_required
    else if has_fresh
    then passed approval_is_fresh
    else failed no_fresh_approval

-- What a run for the current commit says, by its conclusion.
abbrev pub qa_outcome : QaCheckConfig → QaRunSnapshot → Option String → ℕ → TriggerResult
qa_outcome config run (some conclusion) now =
    if str_eq conclusion "success"
    then passed qa_passed
    else failed (qa_failed run.run_id conclusion)
qa_outcome config run none now =
    if ltb (run.triggered_at + config.timeout_minutes * 60 * 1000) now
    then failed (qa_timed_out run.run_id)
    else failed (qa_running run.run_id)

abbrev pub qa_tracked :
    QaCheckConfig → String → Option QaRunSnapshot → Option String → ℕ → TriggerResult
qa_tracked config head_sha none run_conclusion now = failed qa_needs_trigger
qa_tracked config head_sha (some run) run_conclusion now =
    if str_eq run.run_sha head_sha
    then qa_outcome config run run_conclusion now
    else failed qa_needs_trigger

unfoldable pub eval_qa_check :
    QaCheckConfig → String → Bool → Option QaRunSnapshot → Option String → ℕ → TriggerResult
eval_qa_check config head_sha workflow_file_exists qa_run run_conclusion now =
    if not workflow_file_exists
    then failed qa_no_workflow
    else qa_tracked config head_sha qa_run run_conclusion now
