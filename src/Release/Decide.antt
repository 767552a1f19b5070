-- ===== src/Release/Decide.antt =====
-- release-manager/decide.ts.
use urateam.Prelude.{ℕ, String, Bool, true, false, Option, none, some, if◌then◌else◌, or_else}
use urateam.Release.{QaCheckConfig, ReleaseManagerTriggers, CollectedState}
use urateam.Release.Triggers.{
  Reason, TriggerResult, eval_merged_prs_since, eval_time_since_last_hours,
  eval_ci_green_for_minutes, eval_require_slack_approval, eval_qa_check,
}

pub record DecideQaState : Type 0 where
  pub workflow_file_exists : Bool
  pub run_conclusion : Option String

-- `qa_action_needed` is the QA result that the tick acts on.
pub data DecisionResult : Type 0 where
  skip : Reason → (qa_action_needed : Option Reason) → DecisionResult
  awaiting_approval : Reason → DecisionResult
  fire : DecisionResult

-- `if (threshold !== undefined) { if (!r.pass) return skip } …`
abbrev pub guarded : {A : Type 0} → Option A → (A → TriggerResult) → DecisionResult → DecisionResult
guarded none eval rest = rest
guarded (some threshold) eval rest =
    let r = eval threshold in if r.pass then rest else skip r.reason none

-- The QA check, with the state that stands for `null`.
unfoldable pub qa_result : CollectedState → Option DecideQaState → ℕ → QaCheckConfig → TriggerResult
qa_result state qa_state now config =
    let qa = or_else qa_state (record { workflow_file_exists = false; run_conclusion = none }) in
    eval_qa_check config state.head_sha qa.workflow_file_exists state.qa_run qa.run_conclusion now

abbrev pub qa_guarded :
    Option QaCheckConfig → (QaCheckConfig → TriggerResult) → DecisionResult → DecisionResult
qa_guarded none eval rest = rest
qa_guarded (some config) eval rest =
    let r = eval config in if r.pass then rest else skip r.reason (some r.reason)

-- The last trigger.
unfoldable pub approval_step : CollectedState → Bool → DecisionResult
approval_step state required =
    let r = eval_require_slack_approval true state.has_fresh_approval in
    if required then if r.pass then fire else awaiting_approval r.reason else fire

unfoldable pub decide :
    CollectedState → ReleaseManagerTriggers → ℕ → Option DecideQaState → DecisionResult
unfolding approval_step
decide state triggers now qa_state =
    guarded triggers.merged_prs_since (eval_merged_prs_since state.merged_commits_since_last_tag) (
      guarded triggers.time_since_last_hours
        (λ hours. eval_time_since_last_hours state.last_tag_at hours now)
        (guarded triggers.ci_green_for_minutes
          (λ minutes. eval_ci_green_for_minutes state.ci_status state.ci_green_since minutes now)
          (qa_guarded triggers.qa_check (qa_result state qa_state now)
            (approval_step state triggers.require_slack_approval))))
