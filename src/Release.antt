-- ===== src/Release.antt =====
-- packages/core/src/release-manager: when the release manager tags a release.
-- Types of release-manager/types.ts and qa/types.ts. A time is a number of milliseconds.
pub mod Triggers
pub mod Decide
pub mod Firing
pub mod Versioning
pub mod State
pub mod Ledger
pub mod Tick
use urateam.Prelude.{ℕ, String, Bool, Option, List}

pub record QaCheckConfig : Type 0 where
  pub workflow : String
  pub timeout_minutes : ℕ

pub record QaRunSnapshot : Type 0 where
  pub run_id : ℕ
  pub run_sha : String
  pub triggered_at : ℕ

pub record ReleaseManagerTriggers : Type 0 where
  pub merged_prs_since : Option ℕ
  pub time_since_last_hours : Option ℕ
  pub ci_green_for_minutes : Option ℕ
  pub require_slack_approval : Bool
  pub qa_check : Option QaCheckConfig

pub data CiStatus : Type 0 where
  green not_green unavailable : CiStatus

pub record CollectedState : Type 0 where
  pub last_tag : Option String
  pub last_tag_sha : Option String
  pub last_tag_at : Option ℕ
  pub head_sha : String
  pub merged_commits_since_last_tag : ℕ
  pub commits_since_last_tag : List String
  pub ci_status : CiStatus
  pub ci_green_since : Option ℕ
  pub has_fresh_approval : Bool
  pub fresh_approval_approver : Option String
  pub manual_tag_detected : Bool
  pub qa_run : Option QaRunSnapshot
