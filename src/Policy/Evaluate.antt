-- ===== src/Policy/Evaluate.antt =====
-- policy/evaluate.ts: `evaluatePolicyGates`, with the audit events that it emits in order.
use urateam.Prelude.{
  ℕ, String, Bool, true, false, Option, none, some, List, [], ◌∷◌, ◌++◌, if◌then◌else◌, is_empty,
  is_some,
}
use urateam.Policy.{Policy, Gate, path, cost, PolicyViolation, blocked, exceeded}
use urateam.Policy.Gates.{evaluate_path_blocklist, evaluate_cost_gate, has_override_label}

pub record PolicyGateInput : Type 0 where
  pub run_id : String
  pub issue_id : String
  -- What `issue.labels()` returns; `none` where it throws.
  pub labels : Option (List String)
  pub policy : Option Policy
  pub changed_files : List String
  pub tokens_used : ℕ
  pub stage : String

pub record PolicyGateResult : Type 0 where
  pub violations : List PolicyViolation
  pub override_active : Bool
  pub should_draft : Bool

pub data AuditEvent : Type 0 where
  policy_override_used : (run_id issue_id : String) → Gate → (label : String) → AuditEvent
  policy_path_blocked : (run_id file pattern : String) → (had_override : Bool) → AuditEvent
  policy_cost_exceeded :
      (run_id : String) (tokens_used limit : ℕ) (stage : String)
      → (had_override : Bool) → AuditEvent

abbrev pub no_violations : PolicyGateResult
no_violations = record { violations = []; override_active = false; should_draft = false }

-- `costViolation ? [costViolation] : []`
abbrev pub to_list : Option PolicyViolation → List PolicyViolation
to_list none = []
to_list (some v) = v ∷ []

-- The events of the branch with an active override.
unfoldable override_events :
    PolicyGateInput → Policy → List PolicyViolation → Option PolicyViolation → List AuditEvent
override_events input policy path_violations cost_violation =
    (if is_empty path_violations
      then []
      else policy_override_used input.run_id input.issue_id path policy.override_label ∷ [])
    ++ (if is_some cost_violation
        then policy_override_used input.run_id input.issue_id cost policy.override_label ∷ []
        else [])

unfoldable pub violation_event : String → PolicyViolation → AuditEvent
violation_event run_id v = elim v.payload [
  | blocked file pattern ↦ policy_path_blocked run_id file pattern false
  | exceeded tokens_used limit stage ↦ policy_cost_exceeded run_id tokens_used limit stage false
]

unfoldable pub violation_events : String → List PolicyViolation → List AuditEvent
unfolding violation_event
violation_events run_id [] = []
violation_events run_id (v ∷ vs) = violation_event run_id v ∷ violation_events run_id vs

-- The body below the guard on `input.policy`.
unfoldable pub evaluate_with : PolicyGateInput → Policy → PolicyGateResult × List AuditEvent
unfolding override_events violation_events
evaluate_with input policy =
    let override_active = has_override_label input.labels policy.override_label in
    let path_violations = evaluate_path_blocklist input.changed_files policy.path_blocklist in
    let cost_violation =
      evaluate_cost_gate input.tokens_used policy.max_tokens_per_issue input.stage in
    let violations = path_violations ++ to_list cost_violation in
    if is_empty violations
    then (no_violations, [])
    else if override_active
    then (
      record { violations = violations; override_active = true; should_draft = false },
      override_events input policy path_violations cost_violation,
    )
    else (
      record { violations = violations; override_active = false; should_draft = true },
      violation_events input.run_id path_violations
          ++ violation_events input.run_id (to_list cost_violation),
    )

unfoldable pub evaluate_policy_gates : PolicyGateInput → PolicyGateResult × List AuditEvent
unfolding evaluate_with
evaluate_policy_gates input = elim input.policy [
  | none ↦ (no_violations, [])
  | some policy ↦ evaluate_with input policy
]
