-- ===== src/Release/Ledger.antt =====
-- release-manager/release-helpers.ts: what the tick writes into the two tables, and the Slack posts.
use urateam.Prelude.{
  ℕ, ◌+◌, String, Bool, true, false, ◌&&◌, not, Option, none, some, List, [], ◌∷◌, leb,
  if◌then◌else◌, filter, is_some, str_eq,
}
use urateam.Auth.Timestamps.{to_driver}
use urateam.Release.State.{Tables, DecisionRow, ApprovalRow, RowReason, named}

-- `getMaxAttemptCountForReason` and `tryFileQaGapIssue` give up at this count.
abbrev pub max_qa_retry_attempts : ℕ
max_qa_retry_attempts = 3

abbrev pub here : Tables → (repo_url branch : String) → Bool
here tables repo_url branch = str_eq repo_url tables.repo_url && str_eq branch tables.branch

-- The fields that the caller of `persistDecision` chooses.
pub record NewDecision : Type 0 where
  pub id : String
  pub decision : String
  pub reason : RowReason
  pub proposed_version : Option String
  pub fired_tag : Option String
  pub fired_sha : Option String
  pub attempt_count : ℕ
  pub qa_run_id : Option ℕ
  pub qa_run_sha : String

unfoldable pub row_of : Tables → ℕ → NewDecision → DecisionRow
row_of tables now new = record {
  id = new.id;
  repo_url = tables.repo_url;
  branch = tables.branch;
  decision = new.decision;
  reason = new.reason;
  proposed_version = new.proposed_version;
  fired_sha = new.fired_sha;
  attempt_count = new.attempt_count;
  fired_tag = new.fired_tag;
  qa_run_id = new.qa_run_id;
  qa_run_sha = new.qa_run_sha;
  decided_at = to_driver tables.driver now;
}

-- The newest row stands first.
unfoldable pub persist_decision : ℕ → NewDecision → Tables → Tables
unfolding row_of
persist_decision now new tables = record tables {
  decisions = row_of tables now new ∷ tables.decisions;
}

abbrev pub is_unconsumed : Tables → ApprovalRow → Bool
is_unconsumed tables r = here tables r.repo_url r.branch && not (is_some r.consumed_at)

-- The latest approval that is not consumed, whatever its age.
unfoldable pub latest_unconsumed : Tables → List ApprovalRow → Option ApprovalRow
latest_unconsumed tables [] = none
latest_unconsumed tables (r ∷ rows) =
    let later = latest_unconsumed tables rows in
    if is_unconsumed tables r && as_late later r then some r else later
  where
    as_late : Option ApprovalRow → ApprovalRow → Bool
    as_late none r = true
    as_late (some s) r = leb s.approved_at r.approved_at

unfoldable pub consume : (id : String) (at : ℕ) → List ApprovalRow → List ApprovalRow
consume id at [] = []
consume id at (r ∷ rows) =
    let rest = consume id at rows in
    if str_eq r.id id then record r { consumed_at = some at } ∷ rest else r ∷ rest

abbrev consume_found : Option ApprovalRow → ℕ → List ApprovalRow → List ApprovalRow
consume_found none at rows = rows
consume_found (some r) at rows = consume r.id at rows

unfoldable pub consume_approval_row : ℕ → Tables → Tables
unfolding latest_unconsumed consume
consume_approval_row now tables = record tables {
  approvals =
      consume_found (latest_unconsumed tables tables.approvals) (to_driver tables.driver now)
        tables.approvals;
}

abbrev pub has_reason : String → RowReason → Bool
has_reason reason (named text) = str_eq text reason
has_reason reason _ = false

abbrev sha_matches : Option String → DecisionRow → Bool
sha_matches none r = true
sha_matches (some sha) r = str_eq r.qa_run_sha sha

abbrev larger : ℕ → ℕ → ℕ
larger m n = if leb m n then n else m

-- `MAX(attempt_count)` of the rows with the reason and, where it is given, the commit.
unfoldable pub max_attempt_count : Tables → String → Option String → List DecisionRow → ℕ
max_attempt_count tables reason sha [] = 0
max_attempt_count tables reason sha (r ∷ rows) =
    let rest = max_attempt_count tables reason sha rows in
    if here tables r.repo_url r.branch && has_reason reason r.reason && sha_matches sha r
    then larger r.attempt_count rest
    else rest

abbrev is_failure_row : Tables → String → String → DecisionRow → Bool
is_failure_row tables reason sha r =
    here tables r.repo_url r.branch
    && has_reason reason r.reason
    && str_eq r.qa_run_sha sha
    && not (is_some r.qa_run_id)

unfoldable pub clear_failure_rows_for_sha : String → String → Tables → Tables
clear_failure_rows_for_sha reason sha tables = record tables {
  decisions = filter (λ r. not (is_failure_row tables reason sha r)) tables.decisions;
}

-- What `fileGapIssue` comes to: there is no client for Linear, the call failed, or an issue is there.
pub data GapAnswer : Type 0 where
  no_client linear_error filed : GapAnswer

-- `tryFileQaGapIssue`, behind `fileGapOrLog`: the final reason, and the count of attempts.
unfoldable pub file_gap_or_log : GapAnswer → Tables → String × ℕ
unfolding max_attempt_count
file_gap_or_log no_client tables = ("qa_no_workflow", 0)
file_gap_or_log filed tables = ("qa_no_workflow", 0)
file_gap_or_log linear_error tables =
    let attempts = max_attempt_count tables "qa_no_workflow" none tables.decisions + 1 in
    (if leb max_qa_retry_attempts attempts then "qa_gap_file_error" else "qa_no_workflow", attempts)
