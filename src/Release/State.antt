-- ===== src/Release/State.antt =====
-- release-manager/state.ts: `collectState`. What GitHub answers is a record, with `none` for a call that
-- throws; dates are read to times. The rows of the two tables hold times as the driver holds them.
pub mod Checks
use Prim.Native.String
use urateam.Prelude.{
  ℕ, ◌+◌, ◌-◌, String, Bool, true, false, ◌||◌, ◌&&◌, not, Option, none, some, List, [], ◌∷◌, leb,
  ltb, if◌then◌else◌, all, is_some, or_else, str_eq, length,
}
use urateam.Auth.Timestamps.{Driver, to_driver, from_driver}
use urateam.Release.{CollectedState, CiStatus, green, not_green, unavailable, QaRunSnapshot}
use urateam.Release.Triggers.{Reason}
use urateam.Release.Versioning.{strip, standard, without_v}

-- The text of a reason: that of a trigger, or one that the tick writes itself.
pub data RowReason : Type 0 where
  of_trigger : Reason → RowReason
  named : String → RowReason

-- An absent `qa_run_sha` is the empty text.
pub record DecisionRow : Type 0 where
  pub id : String
  pub repo_url : String
  pub branch : String
  pub decision : String
  pub reason : RowReason
  pub proposed_version : Option String
  pub fired_sha : Option String
  pub attempt_count : ℕ
  pub fired_tag : Option String
  pub qa_run_id : Option ℕ
  pub qa_run_sha : String
  pub decided_at : ℕ

pub record ApprovalRow : Type 0 where
  pub id : String
  pub repo_url : String
  pub branch : String
  pub approved_by : String
  pub approved_at : ℕ
  pub consumed_at : Option ℕ

pub record CheckRun : Type 0 where
  pub status : String
  pub conclusion : Option String
  pub completed_at : Option ℕ

pub record Tag : Type 0 where
  pub name : String
  pub sha : String

-- `commit_dates` are those of the committer and of the author.
pub record Answers : Type 0 where
  pub branch_head : Option String
  pub tags : Option (List Tag)
  pub commit_dates : String → Option (Option ℕ × Option ℕ)
  pub compare_commits : String → Option (List String)
  pub list_commits : Option (List String)
  pub check_runs : Option (List CheckRun)

pub record Tables : Type 0 where
  pub driver : Driver
  pub decisions : List DecisionRow
  pub approvals : List ApprovalRow
  pub repo_url : String
  pub branch : String
  pub approval_ttl_ms : ℕ

-- `RELEASE_TAG_RE`
unfoldable pub is_release_tag : String → Bool
is_release_tag name = is_some (standard (without_v name))

unfoldable pub find_tag : List Tag → Option Tag
find_tag [] = none
find_tag (t ∷ tags) = let rest = find_tag tags in if is_release_tag t.name then some t else rest

abbrev pub tag_name : Tag → String
tag_name t = if is_some (strip "v" t.name) then t.name else String.◌++◌ "v" t.name

abbrev tag_date : Option (Option ℕ × Option ℕ) → Option ℕ
tag_date none = none
tag_date (some (some date, author)) = some date
tag_date (some (none, author)) = author

abbrev pub last_tag_at : Answers → Option Tag → Option ℕ
last_tag_at answers none = none
last_tag_at answers (some t) = tag_date (answers.commit_dates t.sha)

abbrev pub decided_after : Option DecisionRow → DecisionRow → Bool
decided_after none r = true
decided_after (some s) r = leb s.decided_at r.decided_at

abbrev approved_after : Option ApprovalRow → ApprovalRow → Bool
approved_after none r = true
approved_after (some s) r = leb s.approved_at r.approved_at

-- `ORDER BY decided_at DESC LIMIT 1` of the rows that pass the test: the first of the latest.
unfoldable pub latest_decision :
    (DecisionRow → Bool) → Tables → List DecisionRow → Option DecisionRow
latest_decision passes tables [] = none
latest_decision passes tables (r ∷ rows) =
    let later = latest_decision passes tables rows in
    if str_eq r.repo_url tables.repo_url
      && str_eq r.branch tables.branch
      && passes r
      && decided_after later r
    then some r
    else later

abbrev pub is_fired : DecisionRow → Bool
is_fired r = str_eq r.decision "fire" || str_eq r.decision "fire-pending"

abbrev pub last_fired_tag : Option DecisionRow → Option String
last_fired_tag none = none
last_fired_tag (some r) = r.fired_tag

-- `lastTag !== null && lastFiredTag !== null && lastTag !== lastFiredTag`
abbrev pub differs : Option String → Option String → Bool
differs (some last) (some fired) = not (str_eq last fired)
differs _ _ = false

-- The messages of the commits since the tag; a call that throws gives none.
abbrev commits_since : Answers → Option String → List String
commits_since answers none = or_else answers.list_commits []
commits_since answers (some sha) =
    if str_eq sha ""
    then or_else answers.list_commits []
    else or_else (answers.compare_commits sha) []

abbrev pub later_of : Option ℕ → Option ℕ → Option ℕ
later_of none rest = rest
later_of (some t) none = some t
later_of (some t) (some u) = some (if ltb t u then u else t)

-- `Math.max` of the times of completion that are there.
unfoldable pub latest_completed : List CheckRun → Option ℕ
latest_completed [] = none
latest_completed (r ∷ runs) = later_of r.completed_at (latest_completed runs)

abbrev pub is_completed : CheckRun → Bool
is_completed r = str_eq r.status "completed"

abbrev pub is_success : CheckRun → Bool
is_success r = str_eq (or_else r.conclusion "") "success"

unfoldable pub ci_of_runs : List CheckRun → CiStatus × Option ℕ
ci_of_runs [] = (unavailable, none)
ci_of_runs (r ∷ runs) =
    if not (all is_completed (r ∷ runs))
    then (not_green, none)
    else if all is_success (r ∷ runs)
    then (green, latest_completed (r ∷ runs))
    else (not_green, none)

abbrev pub ci_status_of : Option (List CheckRun) → CiStatus × Option ℕ
ci_status_of none = (unavailable, none)
ci_status_of (some runs) = ci_of_runs runs

-- The latest approval that is not consumed and at least as late as the cutoff.
unfoldable pub latest_approval : Tables → ℕ → List ApprovalRow → Option ApprovalRow
latest_approval tables now [] = none
latest_approval tables now (r ∷ rows) =
    let later = latest_approval tables now rows in
    if str_eq r.repo_url tables.repo_url
      && str_eq r.branch tables.branch
      && not (is_some r.consumed_at)
      && leb (to_driver tables.driver (now - tables.approval_ttl_ms)) r.approved_at
      && approved_after later r
    then some r
    else later

abbrev qa_snapshot : Driver → DecisionRow → Option ℕ → Option QaRunSnapshot
qa_snapshot driver r none = none
qa_snapshot driver r (some run_id) = some (record {
  run_id = run_id;
  run_sha = r.qa_run_sha;
  triggered_at = from_driver driver r.decided_at;
})

abbrev latest_qa_run : Driver → Option DecisionRow → Option QaRunSnapshot
latest_qa_run driver none = none
latest_qa_run driver (some r) = qa_snapshot driver r r.qa_run_id

abbrev pub map_option : {A B : Type 0} → (A → B) → Option A → Option B
map_option f none = none
map_option f (some a) = some (f a)

-- The state at a head commit.
unfoldable pub collected : Answers → Tables → ℕ → String → CollectedState
collected answers tables now head_sha =
    let tag = find_tag (or_else answers.tags []) in
    let last_tag = map_option tag_name tag in
    let last_tag_sha = map_option Tag.sha tag in
    let commits = commits_since answers last_tag_sha in
    let (status, since) = ci_status_of answers.check_runs in
    let approval = latest_approval tables now tables.approvals in
    record {
      last_tag = last_tag;
      last_tag_sha = last_tag_sha;
      last_tag_at = last_tag_at answers tag;
      head_sha = head_sha;
      merged_commits_since_last_tag = length commits;
      commits_since_last_tag = commits;
      ci_status = status;
      ci_green_since = since;
      has_fresh_approval = is_some approval;
      fresh_approval_approver = map_option ApprovalRow.approved_by approval;
      manual_tag_detected =
          differs last_tag (last_fired_tag (latest_decision is_fired tables tables.decisions));
      qa_run =
          latest_qa_run tables.driver
            (latest_decision (λ r. is_some r.qa_run_id) tables tables.decisions);
    }

-- `none` where the branch cannot be read, and the call throws.
unfoldable pub collect_state : Answers → Tables → ℕ → Option CollectedState
collect_state answers tables now = map_option (collected answers tables now) answers.branch_head
