-- ===== src/Tests/Releasing.antt =====
-- The release decision of packages/core/src/release-manager, run on one state of a repository.
use urateam.Prelude.{◌≡◌, refl, ◌↔◌, true, false, Option, none, some, [], []}
use urateam.Release.{ReleaseManagerTriggers, green, CollectedState}
use urateam.Release.Triggers.{
  qa_running, eval_merged_prs_since, eval_time_since_last_hours, eval_ci_green_for_minutes,
  eval_require_slack_approval, eval_qa_check,
}
use urateam.Release.Decide.{DecideQaState, fire, skip, qa_result, approval_step, decide}
use urateam.Release.Firing.{Ready, decide_fires_iff}

-- Three commits since a tag at time 0, green since one hour after it, and no approval.
abbrev state : CollectedState
state = record {
  last_tag = some "v1.0.0";
  last_tag_sha = some "aaa";
  last_tag_at = some 0;
  head_sha = "abc";
  merged_commits_since_last_tag = 3;
  commits_since_last_tag = [];
  ci_status = green;
  ci_green_since = some 3600000;
  has_fresh_approval = false;
  fresh_approval_approver = none;
  manual_tag_detected = false;
  qa_run = some (record { run_id = 12; run_sha = "abc"; triggered_at = 3600000 });
}

abbrev triggers : ReleaseManagerTriggers
triggers = record {
  merged_prs_since = some 3;
  time_since_last_hours = some 2;
  ci_green_for_minutes = some 30;
  require_slack_approval = false;
  qa_check = none;
}

abbrev with_qa : ReleaseManagerTriggers
with_qa = record triggers {
  qa_check = some (record { workflow = "smoke.yml"; timeout_minutes = 90 });
}

abbrev qa_pending : Option DecideQaState
qa_pending = some (record { workflow_file_exists = true; run_conclusion = none })

fires_at_two : decide state triggers 7200000 none ≡ fire
unfolding decide approval_step eval_merged_prs_since eval_time_since_last_hours
    eval_ci_green_for_minutes eval_require_slack_approval
fires_at_two = refl

qa_still_runs :
    decide state with_qa 7200000 qa_pending ≡ skip (qa_running 12) (some (qa_running 12))
unfolding decide approval_step eval_merged_prs_since eval_time_since_last_hours
    eval_ci_green_for_minutes eval_require_slack_approval qa_result eval_qa_check
qa_still_runs = refl

decide_fires_iff_example :
    (decide state triggers 7200000 none ≡ fire)
    ↔ (Ready state triggers 7200000 none × (false ≡ true → false ≡ true))
decide_fires_iff_example = decide_fires_iff state triggers 7200000 none
