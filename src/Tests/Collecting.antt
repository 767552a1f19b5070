-- ===== src/Tests/Collecting.antt =====
-- The collected state of packages/core/src/release-manager, on one repository.
use urateam.Prelude.{ℕ, ◌≡◌, refl, ◌+◌, ◌*◌, ◌≤◌, true, false, none, some, List, [], ◌∷◌, All}
use urateam.Auth.Timestamps.{sqlite}
use urateam.Release.{ReleaseManagerTriggers, green}
use urateam.Release.Triggers.{eval_ci_green_for_minutes, eval_require_slack_approval}
use urateam.Release.Decide.{decide, fire, approval_step}
use urateam.Release.Versioning.{strip, span, read_from, number, suffix, standard}
use urateam.Release.State.{
  named, CheckRun, Answers, Tables, is_release_tag, find_tag, latest_decision, latest_completed,
  ci_of_runs, latest_approval, collected,
}
use urateam.Release.State.Checks.{SucceededBy, fire-checks}

abbrev runs : List CheckRun
runs =
    record { status = "completed"; conclusion = some "success"; completed_at = some 60000 }
    ∷ record { status = "completed"; conclusion = some "success"; completed_at = some 90000 }
    ∷ []

abbrev answers : Answers
answers = record {
  branch_head = some "abc";
  tags =
      some (record { name = "nightly"; sha = "000" } ∷ record { name = "1.4.0"; sha = "aaa" } ∷ []);
  commit_dates = λ sha. some (none, some 5000);
  compare_commits = λ sha. some ("feat: a" ∷ []);
  list_commits = none;
  check_runs = some runs;
}

-- The last tag was made by hand, and an approval has gone stale.
abbrev tables : Tables
tables = record {
  driver = sqlite;
  decisions =
      record {
        id = "rd_1";
        reason = named "release";
        proposed_version = none;
        fired_sha = none;
        attempt_count = 0;
        repo_url = "r";
        branch = "main";
        decision = "fire";
        fired_tag = some "v1.3.0";
        qa_run_id = none;
        qa_run_sha = "";
        decided_at = 3;
      }
      ∷ [];
  approvals =
      record {
        id = "ra_1";
        repo_url = "r";
        branch = "main";
        approved_by = "U1";
        approved_at = 10;
        consumed_at = none;
      }
      ∷ [];
  repo_url = "r";
  branch = "main";
  approval_ttl_ms = 30000;
}

abbrev after_green : ReleaseManagerTriggers
after_green = record {
  merged_prs_since = none;
  time_since_last_hours = none;
  ci_green_for_minutes = some 1;
  require_slack_approval = false;
  qa_check = none;
}

collects : collected answers tables 150000 "abc" ≡ record {
  last_tag = some "v1.4.0";
  last_tag_sha = some "aaa";
  last_tag_at = some 5000;
  head_sha = "abc";
  merged_commits_since_last_tag = 1;
  commits_since_last_tag = "feat: a" ∷ [];
  ci_status = green;
  ci_green_since = some 90000;
  has_fresh_approval = false;
  fresh_approval_approver = none;
  manual_tag_detected = true;
  qa_run = none;
}
unfolding collected find_tag is_release_tag standard number span strip suffix read_from
    latest_decision latest_completed ci_of_runs latest_approval
collects = refl

fires : decide (collected answers tables 150000 "abc") after_green 150000 none ≡ fire
unfolding decide approval_step eval_ci_green_for_minutes collected ci_of_runs latest_completed
    eval_require_slack_approval
fires = refl

fire-checks_example : (since : ℕ) × All (SucceededBy since) runs × (since + 1 * 60000 ≤ 150000)
fire-checks_example =
    fire-checks answers tables 150000 1 "abc" after_green none runs fires refl refl
