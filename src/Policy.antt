-- ===== src/Policy.antt =====
-- packages/core/src/policy: the organisation's guardrails on a pipeline run.
-- Types of policy/types.ts, of `PolicySchema` in types.ts and of policy/reviewer-gate.ts.
pub mod Gates
pub mod Evaluate
pub mod Blocklist
pub mod Decision
pub mod AuditTrail
pub mod Reviewers
pub mod LastReviews
pub mod Approvals
use urateam.Prelude.{ℕ, String, List, Option}

pub data Gate : Type 0 where
  path cost reviewer : Gate

pub data Severity : Type 0 where
  blocking : Severity

-- The payloads that the gates write into `Record<string, unknown>`.
pub data Payload : Type 0 where
  blocked : (file pattern : String) → Payload
  exceeded : (tokens_used limit : ℕ) (stage : String) → Payload

pub record PolicyViolation : Type 0 where
  pub gate : Gate
  pub detail : String
  pub severity : Severity
  pub payload : Payload

pub record ReviewerRequest : Type 0 where
  pub users : List String
  pub teams : List String

pub record Policy : Type 0 where
  pub path_blocklist : List String
  pub max_tokens_per_issue : Option ℕ
  pub override_label : String
  pub mandatory_reviewers : Option ReviewerRequest
