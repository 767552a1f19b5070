-- ===== src/Policy/AuditTrail.antt =====
-- What policy/evaluate.ts writes to the audit log.
use urateam.Prelude.{
  ◌≡◌, refl, ap, inl, inr, String, true, false, List, [], ◌∷◌, ◌++◌, map, arith, Option-cases,
}
use urateam.Policy.{Policy, PolicyViolation}
use urateam.Policy.Gates.{evaluate_path_blocklist, evaluate_cost_gate}
use urateam.Policy.Evaluate.{
  PolicyGateInput, to_list, violation_event, violation_events, evaluate_with, evaluate_policy_gates,
}
use urateam.Policy.Decision.{gates_none, gates_some}

violation_events-append :
    (run_id : String) (vs ws : List PolicyViolation)
    → violation_events run_id vs ++ violation_events run_id ws
      ≡ map (violation_event run_id) (vs ++ ws)
unfolding violation_events
violation_events-append run_id [] [] = refl
violation_events-append run_id [] (w ∷ ws) =
    ap (λ r. violation_event run_id w ∷ r) (violation_events-append run_id [] ws)
violation_events-append run_id (v ∷ vs) ws =
    ap (λ r. violation_event run_id v ∷ r) (violation_events-append run_id vs ws)

module _ (input : PolicyGateInput) where
  draft_events_lem :
      (p : Policy)
      → (evaluate_with input p).0.should_draft ≡ true
      → (evaluate_with input p).1
        ≡ map (violation_event input.run_id) (evaluate_with input p).0.violations
  unfolding evaluate_with
  draft_events_lem p h = ground (
    arith,
    violation_events-append input.run_id
        (evaluate_path_blocklist input.changed_files p.path_blocklist)
        (to_list (evaluate_cost_gate input.tokens_used p.max_tokens_per_issue input.stage)),
  )

  quiet_events_lem :
      (p : Policy)
      → (evaluate_with input p).0.should_draft ≡ false
      → (evaluate_with input p).0.override_active ≡ false
      → ((evaluate_with input p).0.violations ≡ []) × ((evaluate_with input p).1 ≡ [])
  unfolding evaluate_with
  quiet_events_lem p h k = ground arith

  -- A run that is forced to draft is audited with one event for each of its violations, in order.
  draft_events :
      (evaluate_policy_gates input).0.should_draft ≡ true
      → (evaluate_policy_gates input).1
        ≡ map (violation_event input.run_id) (evaluate_policy_gates input).0.violations
  draft_events h = elim (Option-cases input.policy) [
    | inl e ↦ cc (ap (λ r. r.0.should_draft) (gates_none input e))
    | inr (p, e) ↦ rw (gates_some input p e) (draft_events_lem p (rw (gates_some input p e) at h))
  ]

  -- A run that is neither forced to draft nor let through by an override has no violation, and
  -- nothing is audited.
  quiet_events :
      (evaluate_policy_gates input).0.should_draft ≡ false
      → (evaluate_policy_gates input).0.override_active ≡ false
      → ((evaluate_policy_gates input).0.violations ≡ []) × ((evaluate_policy_gates input).1 ≡ [])
  quiet_events h k = elim (Option-cases input.policy) [
    | inl e ↦ rw (gates_none input e) (refl, refl)
    | inr (p, e) ↦
        rw (gates_some input p e)
          (quiet_events_lem p (rw (gates_some input p e) at h) (rw (gates_some input p e) at k))
  ]
