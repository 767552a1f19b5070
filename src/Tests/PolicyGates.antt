-- ===== src/Tests/PolicyGates.antt =====
-- The policy gates of packages/core/src/policy, run on a small policy.
use urateam.Prelude.{
  ◌≡◌, refl, ◌↔◌, String, true, Option, none, some, List, [], ◌∷◌, All, lookup-nil, to_lower, sym,
  ◌∙◌,
}
use urateam.Policy.{Policy, ReviewerRequest}
use urateam.Policy.Gates.{evaluate_path_blocklist, evaluate_cost_gate, has_override_label}
use urateam.Policy.Evaluate.{PolicyGateInput, evaluate_policy_gates, evaluate_with}
use urateam.Policy.Decision.{Violated, Overridden, should_draft_iff}
use urateam.Policy.Reviewers.{Review, ApprovalVerification, verify_approvals_received}
use urateam.Policy.LastReviews.{Approves}
use urateam.Policy.Approvals.{Current, TeamApproves, verify_approvals_received_lem}

abbrev limited : Policy
limited = record {
  path_blocklist = [];
  max_tokens_per_issue = some 1000;
  override_label = "policy-override";
  mandatory_reviewers = none;
}

abbrev over_limit : PolicyGateInput
over_limit = record {
  run_id = "run-1";
  issue_id = "ISS-7";
  labels = some ("bug" ∷ []);
  policy = some limited;
  changed_files = "src/a.ts" ∷ [];
  tokens_used = 1001;
  stage = "implement";
}

abbrev under_limit : PolicyGateInput
under_limit = record over_limit { tokens_used = 1000 }

should_draft_iff_example : ((evaluate_policy_gates over_limit).0.should_draft ≡ true) ↔ (
    (policy : Policy) × (over_limit.policy ≡ some policy)
    × Violated over_limit policy
    × ¬ Overridden over_limit.labels policy.override_label)
should_draft_iff_example = should_draft_iff over_limit

drafts : (evaluate_policy_gates over_limit).0.should_draft ≡ true
unfolding evaluate_policy_gates evaluate_with has_override_label evaluate_path_blocklist
    evaluate_cost_gate to_lower
drafts = refl

-- One approval, by the only member of the only required team.
abbrev one_approval : List Review
one_approval = record { user = some "Ann"; state = "APPROVED" } ∷ []

abbrev security : ReviewerRequest
security = record { users = []; teams = "security" ∷ [] }

abbrev roster : String → List String
roster team = "ann" ∷ []

abbrev answer : String → String → Option (List String)
answer owner team = some ("ann" ∷ [])

no_entry : Current answer "acme" roster (λ team. refl) []
no_entry team e found = cc (sym (lookup-nil _) ∙ found)

verify_approvals_received_lem_example :
    (v : ApprovalVerification) × ((verify_approvals_received answer
        (some one_approval)
        "acme"
        0
        security
        []).0
      ≡ some v)
    × Current answer "acme" roster
        (λ team. refl)
        (verify_approvals_received answer (some one_approval) "acme" 0 security []).1
    × ((v.satisfied ≡ true) ↔ (
        All (Approves one_approval) []
        × All (TeamApproves answer "acme" roster (λ team. refl) one_approval) ("security" ∷ [])))
verify_approvals_received_lem_example =
    verify_approvals_received_lem answer "acme" roster (λ team. refl) one_approval 0 security []
      no_entry
