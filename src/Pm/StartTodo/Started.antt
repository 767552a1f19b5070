-- ===== src/Pm/StartTodo/Started.antt =====
-- Which issues are started, and how many.
use urateam.Prelude.{
  ℕ, suc, ◌-◌, ◌≤◌, ◌<◌, ◌⊎◌, ◌≡◌, refl, ap, inl, inr, String, true, false, ◌&&◌, not, Option, none,
  some, List, [], ◌∷◌, arith, length, map, filter, includes, In, All, Bool-cases, subst, In-filter,
  In-map, In-take, length-take, includes_iff, some-eq, leb, In-map_of, All-of_In,
}
use urateam.Pm.Runs.{
  PipelineRun, is_active, holds_issue, finished_since, get_active_and_recent_issue_ids,
  batch_count_consecutive_failures, count_consecutive_failures,
}
use urateam.Pm.Runs.Failures.{count_of_lem}
use urateam.Pm.Runs.Listing.{unlisted-run}
use urateam.Pm.StartTodo.Routing.{IsRouted, process-IsRouted}
use urateam.Pm.StartTodo.{
  Issue, StartTodoInput, StartTodoResult, started, skipped, recent_window_ms, over_budget, opens,
  process, orphaned, to_process, start_todo_issues,
}

-- The issues that the runner was asked to start, with their pipelines.
abbrev pub starts : List StartTodoResult → List (String × String)
starts [] = []
starts (started identifier pipeline ∷ results) = (identifier, pipeline) ∷ starts results
starts (skipped identifier reason ∷ results) = starts results

starts-In :
    (identifier pipeline : String) (results : List StartTodoResult)
    → In (identifier, pipeline) (starts results)
    → In (started identifier pipeline) results
starts-In identifier pipeline [] i = elim i [ ]
starts-In identifier pipeline (started a b ∷ results) (inl e) = inl (ap (λ p. started p.0 p.1) e)
starts-In identifier pipeline (started a b ∷ results) (inr i) =
    inr (starts-In identifier pipeline results i)
starts-In identifier pipeline (skipped a reason ∷ results) i =
    inr (starts-In identifier pipeline results i)

length-starts : (results : List StartTodoResult) → length (starts results) ≤ length results
length-starts [] = omega arith
length-starts (started a b ∷ results) = omega (arith, length-starts results)
length-starts (skipped a reason ∷ results) = omega (arith, length-starts results)

below : (count l limit : ℕ) → (leb l count && true) ≡ false → l ≡ limit → count < limit
below count l limit h e = ground arith

module _ {ℓ} {C : Type ℓ} (input : StartTodoInput C) where
  -- No run of the issue is active, and none completed or failed within the last half hour: a run that was
  -- aborted or cancelled does not count.
  abbrev pub IsIdle : String → Type 0
  IsIdle identifier =
      (run : PipelineRun)
      → In run input.runs
      → run.issue_id ≡ identifier
      → (is_active run.status ≡ false) × (finished_since (input.now - recent_window_ms) run ≡ false)

  -- The failures in a row are below the limit, where there is one, or the issue is probed.
  abbrev pub IsClosed : String → Type 0
  IsClosed identifier =
      (limit : ℕ)
      → input.max_consecutive_failures ≡ some limit
      → (count_consecutive_failures input.runs identifier < limit)
        ⊎ In identifier input.probe_override_ids

  -- What holds of each issue that is started.
  abbrev pub IsStartable : List Issue → String × String → Type 0
  IsStartable todo_issues asked =
      (issue : Issue) × In issue todo_issues
      × (issue.identifier ≡ asked.0)
      × IsIdle asked.0
      × IsClosed asked.0
      × IsRouted input issue asked.1

  orphaned-IsIdle :
      (issue : Issue) (issues : List Issue)
      → In issue (orphaned input issues)
      → In issue issues × IsIdle issue.identifier
  unfolding get_active_and_recent_issue_ids
  orphaned-IsIdle issue issues i =
      let ids = get_active_and_recent_issue_ids input.now recent_window_ms none input.runs in
      let (j, recent) =
        In-filter (λ x. not (includes ids.recently_processed x.identifier)) issue
          (filter (λ x. not (includes ids.active_issue_ids x.identifier)) issues) i in
      let (k, active) =
        In-filter (λ x. not (includes ids.active_issue_ids x.identifier)) issue issues j in
      (
        k,
        λ run found same. (
          unlisted-run (holds_issue input.now none) issue.identifier input.runs active run found
              same,
          unlisted-run (finished_since (input.now - recent_window_ms)) issue.identifier input.runs
              recent run found same,
        ),
      )

  closed-IsClosed :
      (issues : List Issue) (issue : Issue) (o : Option ℕ)
      → In issue issues
      → opens input o
          (batch_count_consecutive_failures input.runs (map (λ i. i.identifier) issues))
          issue
        ≡ false
      → (limit : ℕ) → o ≡ some limit
      → (count_consecutive_failures input.runs issue.identifier < limit)
        ⊎ In issue.identifier input.probe_override_ids
  closed-IsClosed issues issue none i h limit e = cc
  closed-IsClosed issues issue (some l) i h limit e =
      let count =
        count_of_lem input.runs (map (λ i. i.identifier) issues) issue.identifier
          (In-map_of (λ i. i.identifier) issue issues i) in
      elim (Bool-cases (includes input.probe_override_ids issue.identifier)) [
        | inl p ↦ inr ((includes_iff input.probe_override_ids issue.identifier).0 p)
        | inr p ↦ inl (below _ l limit (rw (count, p) at h) (some-eq e))
      ]

  pub process-IsStartable :
      (todo_issues : List Issue) (asked : String × String)
      → let failures =
          batch_count_consecutive_failures input.runs
            (map (λ i. i.identifier) (to_process input todo_issues)) in
        In asked (starts (map (process input failures) (to_process input todo_issues)))
        → IsStartable todo_issues asked
  process-IsStartable todo_issues asked i =
      let issues = to_process input todo_issues in
      let failures = batch_count_consecutive_failures input.runs (map (λ i. i.identifier) issues) in
      let (issue, found, e) =
        In-map (process input failures) _ issues
          (starts-In asked.0 asked.1 (map (process input failures) issues) i) in
      let (same, closed, routed) = process-IsRouted input failures issue asked.0 asked.1 e in
      let (listed, idle) = orphaned-IsIdle issue todo_issues (In-take issue _ _ found) in
      (
        issue,
        listed,
        same,
        subst IsIdle same idle,
        subst IsClosed same
            (closed-IsClosed issues issue input.max_consecutive_failures found closed),
        routed,
      )

length-map : {A B : Type 0} (f : A → B) (xs : List A) → length (map f xs) ≡ length xs
length-map f [] = refl
length-map f (x ∷ xs) = ap suc (length-map f xs)

-- At most `maxPerTick` issues are started, and none while the budget blocks; each of them is in Todo,
-- has no active run and none that completed or failed within the last half hour, is let through by its breaker, and
-- has a pipeline by its labels and a repository.
pub started_lem {ℓ} :
    {C : Type ℓ} (input : StartTodoInput C) (todo_issues : List Issue)
    → let asked = starts (start_todo_issues input todo_issues) in
      (length asked ≤ input.max_per_tick)
      × (over_budget input.budget_evaluation ≡ true → asked ≡ [])
      × All (IsStartable input todo_issues) asked
unfolding start_todo_issues
started_lem input todo_issues = elim (Bool-cases (over_budget input.budget_evaluation)) [
  | inl b ↦ rw b (omega arith, λ _. refl, tt)
  | inr b ↦ rw b (
    omega (
      arith,
      length-starts (map (process input _) (to_process input todo_issues)),
      length-map (process input _) (to_process input todo_issues),
      length-take input.max_per_tick (orphaned input todo_issues),
    ),
    λ e. cc,
    All-of_In _ _ (process-IsStartable input todo_issues),
  )
]
