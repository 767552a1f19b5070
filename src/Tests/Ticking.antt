-- ===== src/Tests/Ticking.antt =====
-- The ticks of packages/core/src/release-manager, on one repository.
use urateam.Prelude.{◌≡◌, ◌↔◌, refl, true, false, Option, none, some, List, [], ◌∷◌, All, show}
use urateam.Auth.Timestamps.{sqlite}
use urateam.Release.{CollectedState}
use urateam.Release.Triggers.{eval_require_slack_approval}
use urateam.Release.Decide.{decide}
use urateam.Release.Versioning.{
  by_patch, strip, span, read_from, number, suffix, standard, parse_semver, next_version, print_tag,
}
use urateam.Release.State.{
  Answers, Tables, Tag, is_release_tag, find_tag, latest_decision, latest_completed, ci_of_runs,
  latest_approval, collected, collect_state, named,
}
use urateam.Release.Ledger.{filed}
use urateam.Release.Tick.{World, Config, exists, made, not_dispatched, sweep_fire_pending_rows}
use urateam.Release.Tick.Cycle.{tick, tables_for, proposed_version}
use urateam.Release.Tick.Outcomes.{
  collected_by, IsRunning, FiresOn, tick_tags_iff, retried_release-approvals,
}
use urateam.Release.Tick.ManualTags.{HasManualTag, ticks, manual_tag_stays}

abbrev tags : Option (List Tag)
tags = some (record { name = "v1.4.0"; sha = "aaa" } ∷ [])

abbrev answers : Answers
answers = record {
  branch_head = some "abc";
  tags = tags;
  commit_dates = λ sha. some (some 5000, none);
  compare_commits = λ sha. some ("fix: b" ∷ []);
  list_commits = none;
  check_runs = some [];
}

abbrev world : World
world = record {
  now = 90000;
  is_licensed = true;
  answers = answers;
  get_ref = λ t. exists;
  create_release = λ t. true;
  create_ref = made;
  workflow_file_exists = none;
  polled = none;
  dispatch = not_dispatched;
  gap = filed;
  decision_id = "rd_2";
  sweep_id = λ id. "rd_3";
}

abbrev config : Config
config = record {
  triggers = record {
    merged_prs_since = none;
    time_since_last_hours = none;
    ci_green_for_minutes = none;
    require_slack_approval = true;
    qa_check = none;
  };
  version_bump = by_patch;
  prerelease_channel = none;
}

-- One fresh approval.
abbrev tables : Tables
tables = record {
  driver = sqlite;
  decisions = [];
  approvals =
      record {
        id = "ra_1";
        repo_url = "r";
        branch = "main";
        approved_by = "U1";
        approved_at = 80;
        consumed_at = none;
      }
      ∷ [];
  repo_url = "r";
  branch = "main";
  approval_ttl_ms = 0;
}

fires : (tick world config 0 tables).tagged ≡ some ("v1.4.1", "abc")
unfolding tick collected find_tag is_release_tag standard number span strip suffix read_from
    latest_decision latest_completed ci_of_runs latest_approval decide proposed_version
    collect_state tables_for eval_require_slack_approval parse_semver print_tag show next_version
fires = refl

tick_tags_iff_example : ((tick world config 0 tables).tagged ≡ some ("v1.4.1", "abc")) ↔ (
    IsRunning world 0
    × ((state : CollectedState) × (collected_by world config tables ≡ some state)
        × FiresOn world config state "v1.4.1" "abc"))
tick_tags_iff_example = tick_tags_iff world config 0 tables "v1.4.1" "abc"

abbrev refusing : World
refusing = record world { create_release = λ t. false }

-- The tag is made, and the release with it at the next tick, on an approval that stays fresh.
retried_release-approvals_example :
    (sweep_fire_pending_rows world (tick refusing config 0 tables).tables).approvals
    ≡ tables.approvals
retried_release-approvals_example =
    retried_release-approvals refusing world config 0 tables (λ t. refl)

-- The last release was 1.3.0.
abbrev behind : Tables
behind = record tables {
  decisions =
      record {
        id = "rd_1";
        reason = named "all triggers passed";
        proposed_version = none;
        fired_sha = some "000";
        attempt_count = 0;
        repo_url = "r";
        branch = "main";
        decision = "fire";
        fired_tag = some "v1.3.0";
        qa_run_id = none;
        qa_run_sha = "";
        decided_at = 3;
      }
      ∷ [];
}

behind-HasManualTag : HasManualTag tags behind
unfolding find_tag is_release_tag standard number span strip suffix read_from latest_decision
behind-HasManualTag = (refl, refl)

manual_tag_stays_example :
    All (λ t. t ≡ none) (ticks config ((world, 0) ∷ (record world { now = 180000 }, 0) ∷ []) behind)
manual_tag_stays_example =
    manual_tag_stays config tags ((world, 0) ∷ (record world { now = 180000 }, 0) ∷ []) behind
      behind-HasManualTag (refl, (refl, tt))
