-- ===== src/Release/Tick/Cycle.antt =====
-- `tick` of release-manager/release-tick.ts.
use urateam.Prelude.{
  ℕ, ◌+◌, ◌*◌, String, true, not, ◌||◌, Option, none, some, leb, ltb, if◌then◌else◌, or_else,
  str_eq,
}
use urateam.Release.{CollectedState, QaRunSnapshot, QaCheckConfig}
use urateam.Release.Triggers.{Reason, qa_needs_trigger, qa_no_workflow}
use urateam.Release.Decide.{DecideQaState, DecisionResult, skip, awaiting_approval, fire, decide}
use urateam.Release.Versioning.{bump_from_config_and_commits}
use urateam.Release.State.{Tables, RowReason, named, of_trigger, collect_state}
use urateam.Release.Ledger.{
  NewDecision, persist_decision, consume_approval_row, max_attempt_count, max_qa_retry_attempts,
  clear_failure_rows_for_sha, file_gap_or_log,
}
use urateam.Release.Tick.{
  World, Config, Outcome, Dispatch, dispatched, not_found, unprocessable, not_dispatched, pending,
  CreateResult, created, tag_exists, release_create_failed, other_error, create_tag_and_release,
  plain, sweep_fire_pending_rows,
}

abbrev run_conclusion : World → CollectedState → Option QaRunSnapshot → Option String
run_conclusion world state none = none
run_conclusion world state (some run) =
    if str_eq run.run_sha state.head_sha then or_else world.polled none else none

-- A check of the file that throws counts as a file that is there.
abbrev pub qa_state_of : World → CollectedState → Option QaCheckConfig → Option DecideQaState
qa_state_of world state none = none
qa_state_of world state (some check) = some (record {
  workflow_file_exists = or_else world.workflow_file_exists true;
  run_conclusion = run_conclusion world state state.qa_run;
})

-- The bump of a tag that was read by the pattern of releases.
unfoldable pub proposed_version : Config → CollectedState → String
unfolding bump_from_config_and_commits
proposed_version config state =
    or_else
      (bump_from_config_and_commits state.last_tag state.commits_since_last_tag config.version_bump
        (or_else config.prerelease_channel "none"))
      ""

abbrev row_reason : Reason → RowReason
row_reason qa_needs_trigger = named "qa_needs_trigger"
row_reason qa_no_workflow = named "qa_no_workflow"
row_reason reason = of_trigger reason

-- What the QA branch of a skip chooses, with the tables after it.
pub record QaSkip : Type 0 where
  pub final_reason : RowReason
  pub attempt_count : ℕ
  pub qa_run_id : Option ℕ
  pub qa_run_sha : String
  pub tables : Tables

abbrev by_gap : World → Tables → QaSkip
by_gap world tables =
    let (reason, attempts) = file_gap_or_log world.gap tables in
    record {
      final_reason = named reason;
      attempt_count = attempts;
      qa_run_id = none;
      qa_run_sha = "";
      tables = tables;
    }

abbrev pub cleared : String → Tables → Tables
cleared sha tables = clear_failure_rows_for_sha "qa_needs_trigger" sha tables

unfoldable pub after_dispatch : World → Tables → String → ℕ → Dispatch → QaSkip
after_dispatch world tables sha previous (dispatched run_id) = record {
  final_reason = named "qa_needs_trigger";
  attempt_count = 0;
  qa_run_id = some run_id;
  qa_run_sha = sha;
  tables = cleared sha tables;
}
after_dispatch world tables sha previous not_found = by_gap world tables
after_dispatch world tables sha previous unprocessable = record {
  final_reason = named "qa_dispatch_error";
  attempt_count = 99;
  qa_run_id = none;
  qa_run_sha = "";
  tables = tables;
}
after_dispatch world tables sha previous pending = record {
  final_reason = named "qa_needs_trigger";
  attempt_count = 0;
  qa_run_id = none;
  qa_run_sha = sha;
  tables = cleared sha tables;
}
after_dispatch world tables sha previous not_dispatched = record {
  final_reason = named (
      if leb max_qa_retry_attempts (previous + 1) then "qa_dispatch_error" else "qa_needs_trigger");
  attempt_count = previous + 1;
  qa_run_id = none;
  qa_run_sha = sha;
  tables = tables;
}

unfoldable pub qa_skip : World → Tables → String → Reason → Option Reason → QaSkip
unfolding after_dispatch
qa_skip world tables sha reason (some qa_needs_trigger) =
    after_dispatch world tables sha
      (max_attempt_count tables "qa_needs_trigger" (some sha) tables.decisions) world.dispatch
qa_skip world tables sha reason (some qa_no_workflow) = by_gap world tables
qa_skip world tables sha reason _ = record {
  final_reason = row_reason reason;
  attempt_count = 0;
  qa_run_id = none;
  qa_run_sha = "";
  tables = tables;
}

unfoldable pub on_skip : World → Tables → CollectedState → String → Reason → Option Reason → Tables
unfolding qa_skip
on_skip world tables state version reason qa_action =
    let s = qa_skip world tables state.head_sha reason qa_action in
    persist_decision world.now
      (record (plain world "skip" s.final_reason) {
        proposed_version = some version;
        attempt_count = s.attempt_count;
        qa_run_id = s.qa_run_id;
        qa_run_sha = s.qa_run_sha;
      })
      s.tables

abbrev fired_row : World → CollectedState → String → String → String → NewDecision
fired_row world state version decision reason = record (plain world decision (named reason)) {
  proposed_version = some version;
  fired_tag = some version;
  fired_sha = some state.head_sha;
}

abbrev skipped_row : World → String → String → NewDecision
skipped_row world version reason = record (plain world "skip" (named reason)) {
  proposed_version = some version;
}

-- What is written after GitHub was asked for the tag and the release.
unfoldable pub on_fire : World → Tables → CollectedState → String → CreateResult → Tables
on_fire world tables state version tag_exists =
    persist_decision world.now (skipped_row world version "tag_exists") tables
on_fire world tables state version other_error =
    persist_decision world.now (skipped_row world version "tag_create_error") tables
on_fire world tables state version release_create_failed =
    persist_decision world.now
      (record (fired_row world state version "fire-pending" "release_create_failed") {
        attempt_count = 1;
      })
      tables
on_fire world tables state version created =
    let written =
      persist_decision world.now (fired_row world state version "fire" "all triggers passed")
        tables in
    if state.has_fresh_approval then consume_approval_row world.now written else written

abbrev pub quiet : Tables → Outcome
quiet tables = record { tables = tables; tagged = none }

unfoldable pub on_decision : World → Tables → CollectedState → String → DecisionResult → Outcome
unfolding on_skip on_fire create_tag_and_release
on_decision world tables state version (skip reason qa_action) =
    quiet (on_skip world tables state version reason qa_action)
on_decision world tables state version (awaiting_approval reason) = quiet (
    persist_decision world.now
      (record (plain world "awaiting-approval" (of_trigger reason)) {
        proposed_version = some version;
      })
      tables)
on_decision world tables state version fire = record {
  tables =
      on_fire world tables state version
        (create_tag_and_release world.create_ref (world.create_release version));
  tagged = some (version, state.head_sha);
}

abbrev pub decision_of : World → Config → CollectedState → DecisionResult
decision_of world config state =
    decide state config.triggers world.now (qa_state_of world state config.triggers.qa_check)

-- From the collected state on; `none` where the collection throws.
unfoldable pub on_state : World → Config → Tables → Option CollectedState → Outcome
unfolding on_decision
on_state world config tables none = quiet tables
on_state world config tables (some state) =
    if state.manual_tag_detected
    then quiet
        (persist_decision world.now (plain world "skip" (named "manual_tag_detected")) tables)
    else on_decision world tables state (proposed_version config state)
        (decision_of world config state)

abbrev approval_ttl_ms : Option ℕ → ℕ
approval_ttl_ms none = 24 * 3600 * 1000
approval_ttl_ms (some hours) = if ltb 0 hours then hours * 3600 * 1000 else 24 * 3600 * 1000

unfoldable pub tables_for : Config → Tables → Tables
tables_for config tables = record tables {
  approval_ttl_ms = approval_ttl_ms config.triggers.time_since_last_hours;
}

-- `paused_until` is the pause that `/release skip` sets.
unfoldable pub tick : World → Config → (paused_until : ℕ) → Tables → Outcome
unfolding on_state sweep_fire_pending_rows
tick world config paused_until tables =
    let swept = tables_for config (sweep_fire_pending_rows world tables) in
    if not world.is_licensed || ltb world.now paused_until
    then quiet tables
    else on_state world config swept (collect_state world.answers swept world.now)
