-- ===== src/Pm/Promote/Slots.antt =====
-- The whole of `promoteReadyIssues`.
use urateam.Prelude.{
  ℕ, ◌≤◌, ◌≡◌, ◌⊎◌, inl, inr, List, [], ◌∷◌, arith, length, map, Assoc, In, All, All-of_In, All-In,
}
use urateam.Pm.Runs.{batch_count_consecutive_failures}
use urateam.Pm.Promote.{
  Candidate, Services, PromoteInput, insert_candidate, sort_by_priority, promote_ready_issues,
}
use urateam.Pm.Promote.Conditions.{moves, IsAllowed, promote_from-Bounded}

In-insert_candidate :
    (x c : Candidate) (cs : List Candidate) → In x (insert_candidate c cs) → (c ≡ x) ⊎ In x cs
unfolding insert_candidate
In-insert_candidate x c [] h = h
In-insert_candidate x c (d ∷ cs) h = ground (arith, In-insert_candidate x c cs)

In-sort_by_priority : (x : Candidate) (cs : List Candidate) → In x (sort_by_priority cs) → In x cs
unfolding sort_by_priority
In-sort_by_priority x [] h = h
In-sort_by_priority x (c ∷ cs) h = elim (In-insert_candidate x c (sort_by_priority cs) h) [
  | inl e ↦ inl e
  | inr r ↦ inr (In-sort_by_priority x cs r)
]

-- The consecutive failures of the issues, as they are fetched for all of them at once.
abbrev pub failures_of {ℓ} : {C : Type ℓ} → PromoteInput C → List Candidate → Assoc ℕ
failures_of input backlog =
    batch_count_consecutive_failures input.runs (map (λ c. c.identifier) (sort_by_priority backlog))

-- At most as many issues are moved as there are slots, and each that is moved is one of the backlog
-- that has a pipeline label where one is asked for, is not held back by its circuit breaker, has no
-- high risk of a conflict, and goes to the Todo state of its team.
pub promoted_lem {ℓ} :
    {C : Type ℓ} (services : Services) (input : PromoteInput C) (backlog : List Candidate)
    → let asked = moves (promote_ready_issues services input backlog).calls in
      (length asked ≤ input.slots_available)
      × All (IsAllowed services input (failures_of input backlog) backlog) asked
unfolding promote_ready_issues
promoted_lem services input backlog =
    let sorted = sort_by_priority backlog in
    let b =
      promote_from-Bounded services input (failures_of input backlog) input.slots_available
        sorted in
    (
      b.few,
      All-of_In _ _ (λ m i.
          let (c, found, e, ok) = All-In _ m _ b.allowed i in
          (c, In-sort_by_priority c backlog found, e, ok)),
    )
