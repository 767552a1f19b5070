-- ===== src/Policy/Decision.antt =====
-- What policy/evaluate.ts decides about a run.
use urateam.Prelude.{
  ℕ, ◌<◌, ◌≡◌, refl, sym, ap, subst, ◌⊎◌, inl, inr, ◌↔◌, String, true, false, Option, none, some,
  List, [], ◌∷◌, ◌++◌, arith, any, is_empty, is_some, to_lower, str_eq, eq_iff, Any, Bool-cases,
  Option-cases, some-eq, is_empty-In, head_of_nonempty,
}
use urateam.Policy.{Policy, PolicyViolation}
use urateam.Policy.Gates.{
  path_violation, evaluate_path_blocklist, evaluate_cost_gate, has_override_label,
}
use urateam.Policy.Evaluate.{
  PolicyGateInput, no_violations, to_list, evaluate_with, evaluate_policy_gates,
}
use urateam.Policy.Blocklist.{Blocks, evaluate_path_blocklist_iff}

-- The budget of the issue is spent.
abbrev IsOver : ℕ → Option ℕ → Type 0
IsOver tokens_used limit = (l : ℕ) × (limit ≡ some l) × (l < tokens_used)

cost_gate-IsOver :
    (tokens_used : ℕ) (limit : Option ℕ) (stage : String)
    → (is_some (evaluate_cost_gate tokens_used limit stage) ≡ true) ↔ IsOver tokens_used limit
unfolding evaluate_cost_gate
cost_gate-IsOver tokens_used none stage = (λ h. cc, λ (l, e, over). cc)
cost_gate-IsOver tokens_used (some l) stage =
    (λ h. (l, refl, ground arith), λ (k, e, over). ground arith)

-- The issue carries the override label, whatever its case.
abbrev pub Overridden : Option (List String) → String → Type 0
Overridden labels name =
    (ls : List String) × (labels ≡ some ls) × Any (λ l. to_lower l ≡ to_lower name) ls

any-label :
    (name : String) (ls : List String)
    → (any (λ l. str_eq (to_lower l) (to_lower name)) ls ≡ true)
      ↔ Any (λ l. to_lower l ≡ to_lower name) ls
any-label name [] = (λ h. cc, λ h. elim h [ ])
any-label name (l ∷ ls) = ground (arith, eq_iff (to_lower l) (to_lower name), any-label name ls)

override_iff :
    (labels : Option (List String)) (name : String)
    → (has_override_label labels name ≡ true) ↔ Overridden labels name
unfolding has_override_label
override_iff none name = (λ h. cc, λ (ls, e, a). cc)
override_iff (some ls) name = (
  λ h. (ls, refl, (any-label name ls).0 h),
  λ (ks, e, a).
      (any-label name ls).1 (subst (Any (λ l. to_lower l ≡ to_lower name)) (sym (some-eq e)) a),
)

abbrev found : PolicyGateInput → Policy → List PolicyViolation
found input policy =
    evaluate_path_blocklist input.changed_files policy.path_blocklist
    ++ to_list (evaluate_cost_gate input.tokens_used policy.max_tokens_per_issue input.stage)

module _ (input : PolicyGateInput) (policy : Policy) where
  drafts_lem : ((evaluate_with input policy).0.should_draft ≡ true) ↔ (
      (is_empty (found input policy) ≡ false)
      × (has_override_label input.labels policy.override_label ≡ false))
  unfolding evaluate_with
  drafts_lem = ground arith

  overrides_lem : ((evaluate_with input policy).0.override_active ≡ true) ↔ (
      (is_empty (found input policy) ≡ false)
      × (has_override_label input.labels policy.override_label ≡ true))
  unfolding evaluate_with
  overrides_lem = ground arith

  violations_lem : (evaluate_with input policy).0.violations ≡ found input policy
  unfolding evaluate_with
  violations_lem = ground arith

-- A changed file stands on the blocklist, or the budget of the issue is spent.
abbrev pub Violated : PolicyGateInput → Policy → Type 0
Violated input policy =
    ((file : String) × (pattern : String) × Blocks input.changed_files policy.path_blocklist file
        pattern)
    ⊎ IsOver input.tokens_used policy.max_tokens_per_issue

nonempty-append :
    (xs : List PolicyViolation) (o : Option PolicyViolation)
    → (is_empty (xs ++ to_list o) ≡ false) ↔ ((is_empty xs ≡ false) ⊎ (is_some o ≡ true))
nonempty-append [] none = ground arith
nonempty-append [] (some v) = ground arith
nonempty-append (x ∷ xs) o = ground arith

blocklist-nonempty :
    (files patterns : List String)
    → (is_empty (evaluate_path_blocklist files patterns) ≡ false)
      ↔ ((file : String) × (pattern : String) × Blocks files patterns file pattern)
blocklist-nonempty files patterns = (
  λ h.
      let (v, i) = head_of_nonempty _ h in
      let (f, p, b, _) = (evaluate_path_blocklist_iff files patterns v).0 i in (f, p, b),
  λ (f, p, b).
      is_empty-In (path_violation f p) _
        ((evaluate_path_blocklist_iff files patterns _).1 (f, p, b, refl)),
)

module _ (input : PolicyGateInput) (policy : Policy) where
  nonempty_iff : (is_empty (found input policy) ≡ false) ↔ Violated input policy
  nonempty_iff =
      let (to, from) = nonempty-append _ _ in
      let (block_to, block_from) = blocklist-nonempty input.changed_files policy.path_blocklist in
      let (over_to, over_from) =
        cost_gate-IsOver input.tokens_used policy.max_tokens_per_issue input.stage in
      (
        λ h. elim (to h) [ inl a ↦ inl (block_to a) | inr b ↦ inr (over_to b) ],
        λ v. from (elim v [ inl a ↦ inl (block_from a) | inr b ↦ inr (over_from b) ]),
      )

  not-Overridden_iff :
      (has_override_label input.labels policy.override_label ≡ false)
      ↔ ¬ Overridden input.labels policy.override_label
  not-Overridden_iff =
      let (to, from) = override_iff input.labels policy.override_label in
      (
        λ f o. cc (from o),
        λ n. elim (Bool-cases (has_override_label input.labels policy.override_label)) [
          | inl t ↦ absurd (n (to t))
          | inr f ↦ f
        ],
      )

module _ (input : PolicyGateInput) where
  pub gates_none : input.policy ≡ none → evaluate_policy_gates input ≡ (no_violations, [])
  unfolding evaluate_policy_gates
  gates_none e = rw e

  pub gates_some :
      (p : Policy) → input.policy ≡ some p → evaluate_policy_gates input ≡ evaluate_with input p
  unfolding evaluate_policy_gates
  gates_some p e = rw e

-- The run is forced to draft exactly when there is a policy, the policy is violated (a changed file
-- matches the blocklist, or the tokens exceed the limit), and no override label is read from the
-- issue (a failed read of the labels counts as no label).
pub should_draft_iff :
    (input : PolicyGateInput)
    → ((evaluate_policy_gates input).0.should_draft ≡ true) ↔ (
        (policy : Policy) × (input.policy ≡ some policy)
        × Violated input policy
        × ¬ Overridden input.labels policy.override_label)
should_draft_iff input = elim (Option-cases input.policy) [
  | inl e ↦ (λ h. cc (ap (λ r. r.0.should_draft) (gates_none input e)), λ (p, e', v, n). cc)
  | inr (p, e) ↦ (
    λ h.
        let (some_found, no_label) = (drafts_lem input p).0 (rw (gates_some input p e) at h) in
        (p, e, (nonempty_iff input p).0 some_found, (not-Overridden_iff input p).0 no_label),
    λ (q, e', v, n).
        rw (gates_some input q e')
          ((drafts_lem input q).1 ((nonempty_iff input q).1 v, (not-Overridden_iff input q).1 n)),
  )
]

-- An override is active exactly when there is a policy, the policy is violated, and the issue
-- carries the override label in some case.
override_active_iff :
    (input : PolicyGateInput)
    → ((evaluate_policy_gates input).0.override_active ≡ true) ↔ (
        (policy : Policy) × (input.policy ≡ some policy)
        × Violated input policy
        × Overridden input.labels policy.override_label)
override_active_iff input = elim (Option-cases input.policy) [
  | inl e ↦ (λ h. cc (ap (λ r. r.0.override_active) (gates_none input e)), λ (p, e', v, n). cc)
  | inr (p, e) ↦ (
    λ h.
        let (some_found, label) = (overrides_lem input p).0 (rw (gates_some input p e) at h) in
        (
          p,
          e,
          (nonempty_iff input p).0 some_found,
          (override_iff input.labels p.override_label).0 label,
        ),
    λ (q, e', v, o). rw (gates_some input q e') (
        (overrides_lem input q).1
          ((nonempty_iff input q).1 v, (override_iff input.labels q.override_label).1 o)),
  )
]
