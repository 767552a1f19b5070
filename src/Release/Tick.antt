-- ===== src/Release/Tick.antt =====
-- release-manager/release-tick.ts, with `createTagAndRelease` of github.ts. What GitHub and Linear
-- answer during a tick is a record. Log lines, Slack posts and audit events are left out.
pub mod Sweep
pub mod Cycle
pub mod Outcomes
pub mod ManualTags
use urateam.Prelude.{
  ℕ, suc, ◌+◌, ◌-◌, ◌*◌, String, Bool, true, false, ◌&&◌, ◌||◌, not, Option, none, some, List, [],
  ◌∷◌, leb, ltb, if◌then◌else◌, filter, map, is_some, or_else, str_eq,
}
use urateam.Release.{CollectedState, ReleaseManagerTriggers}
use urateam.Release.Triggers.{Reason, qa_needs_trigger, qa_no_workflow}
use urateam.Release.Decide.{DecideQaState, DecisionResult, skip, awaiting_approval, fire, decide}
use urateam.Release.Versioning.{BumpPolicy, bump_from_config_and_commits}
use urateam.Release.State.{
  Answers, Tables, DecisionRow, RowReason, named, of_trigger, collect_state,
}
use urateam.Release.Ledger.{
  NewDecision, persist_decision, consume_approval_row, here, max_attempt_count,
  max_qa_retry_attempts, clear_failure_rows_for_sha, GapAnswer, file_gap_or_log,
}

pub data TagRef : Type 0 where
  exists gone unreadable : TagRef

-- `createRef`: the tag was made, GitHub says that it exists (status 422), or another error.
pub data RefAnswer : Type 0 where
  made conflict failed : RefAnswer

pub data Dispatch : Type 0 where
  dispatched : (run_id : ℕ) → Dispatch
  not_found unprocessable not_dispatched pending : Dispatch

pub record World : Type 0 where
  pub now : ℕ
  pub is_licensed : Bool
  pub answers : Answers
  pub get_ref : String → TagRef
  pub create_release : String → Bool
  pub create_ref : RefAnswer
  -- `none` where the call throws
  pub workflow_file_exists : Option Bool
  pub polled : Option (Option String)
  pub dispatch : Dispatch
  pub gap : GapAnswer
  -- fresh ids: of the decision, and of a row that the sweep writes for another
  pub decision_id : String
  pub sweep_id : String → String

pub record Config : Type 0 where
  pub triggers : ReleaseManagerTriggers
  pub version_bump : BumpPolicy
  pub prerelease_channel : Option String

abbrev pub max_fire_pending_attempts : ℕ
max_fire_pending_attempts = 3

-- The tables, and the tags that GitHub was asked to make, with their commits.
pub record Outcome : Type 0 where
  pub tables : Tables
  pub tagged : Option (String × String)

pub data CreateResult : Type 0 where
  created tag_exists release_create_failed other_error : CreateResult

unfoldable pub create_tag_and_release : RefAnswer → Bool → CreateResult
create_tag_and_release conflict release = tag_exists
create_tag_and_release failed release = other_error
create_tag_and_release made true = created
create_tag_and_release made false = release_create_failed

abbrev pub plain : World → String → RowReason → NewDecision
plain world decision reason = record {
  id = world.decision_id;
  decision = decision;
  reason = reason;
  proposed_version = none;
  fired_tag = none;
  fired_sha = none;
  attempt_count = 0;
  qa_run_id = none;
  qa_run_sha = "";
}

abbrev pub is_fire_pending : Tables → DecisionRow → Bool
is_fire_pending tables r =
    here tables r.repo_url r.branch
    && str_eq r.decision "fire-pending"
    && ltb r.attempt_count max_fire_pending_attempts

-- `UPDATE … WHERE id = …`
unfoldable pub update_row :
    String → (DecisionRow → DecisionRow) → List DecisionRow → List DecisionRow
update_row id change [] = []
update_row id change (r ∷ rows) =
    let rest = update_row id change rows in if str_eq r.id id then change r ∷ rest else r ∷ rest

abbrev pub set_attempts : String → ℕ → Tables → Tables
set_attempts id count tables = record tables {
  decisions = update_row id (λ r. record r { attempt_count = count }) tables.decisions;
}

abbrev pub set_fired : String → Tables → Tables
set_fired id tables = record tables {
  decisions = update_row id (λ r. record r { decision = "fire" }) tables.decisions;
}

abbrev exhausted : World → DecisionRow → NewDecision
exhausted world row = record {
  id = world.sweep_id row.id;
  decision = "skip";
  reason = named "release_create_failed_after_retries";
  proposed_version = row.proposed_version;
  fired_tag = row.fired_tag;
  fired_sha = row.fired_sha;
  attempt_count = row.attempt_count + 1;
  qa_run_id = none;
  qa_run_sha = "";
}

-- Another try of `createRelease`.
unfoldable pub retry_release : World → DecisionRow → Bool → Tables → Tables
unfolding update_row
retry_release world row true tables = set_fired row.id tables
retry_release world row false tables =
    let counted = set_attempts row.id (row.attempt_count + 1) tables in
    if leb max_fire_pending_attempts (row.attempt_count + 1)
    then persist_decision world.now (exhausted world row) counted
    else counted

abbrev pub retry_tag : World → DecisionRow → String → TagRef → Tables → Tables
retry_tag world row tag gone tables = tables
retry_tag world row tag exists tables = retry_release world row (world.create_release tag) tables
retry_tag world row tag unreadable tables =
    retry_release world row (world.create_release tag) tables

-- `if (!row.firedTag || !row.firedSha) continue`
unfoldable pub retry_row : World → DecisionRow → Tables → Tables
retry_row world row tables =
    let tag = or_else row.fired_tag "" in
    let sha = or_else row.fired_sha "" in
    if str_eq tag "" || str_eq sha ""
    then tables
    else retry_tag world row tag (world.get_ref tag) tables

unfoldable pub retry_rows : World → List DecisionRow → Tables → Tables
unfolding retry_row
retry_rows world [] tables = tables
retry_rows world (row ∷ rows) tables = retry_rows world rows (retry_row world row tables)

-- The rows are those of the query before the loop.
unfoldable pub sweep_fire_pending_rows : World → Tables → Tables
unfolding retry_rows
sweep_fire_pending_rows world tables =
    retry_rows world (filter (is_fire_pending tables) tables.decisions) tables
