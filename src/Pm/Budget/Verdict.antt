-- ===== src/Pm/Budget/Verdict.antt =====
-- When promotions are blocked.
use urateam.Prelude.{
  ℕ, ◌≤◌, ◌≡◌, ◌≢◌, ◌↔◌, inl, inr, refl, subst, String, true, Option, none, some, List, [], arith,
  or_else, is_some, str_eq, eq_iff, Assoc, Any, Bool-cases, iff_trans,
}
use urateam.Pm.Runs.{PipelineRun}
use urateam.Pm.Budget.{
  Budgets, Usage, ensure_keys, all_scopes, evaluate, evaluate_budget, query_rows, no_usage, team,
  repo, ok,
}
use urateam.Pm.Budget.Spending.{
  Test, held, spent, any_group, of_team, of_repo, usage_of, global_lem, team_lem, no_team_lem,
  repo_lem,
}
use urateam.Pm.Budget.Blocking.{Blocked, Spent, worst_of-Blocked, first_blocked-Blocked}
use urateam.Pm.Budget.Scopes.{
  aggregate-Distinct, default_of, team_limit, repo_limit, Valid, Exhausted, all_scopes-Blocked,
}

evaluate-Blocked :
    (budgets : Budgets) (usage : Usage)
    → ((evaluate budgets usage).promote_blocked ≡ true) ↔ Any Blocked (all_scopes budgets usage)
unfolding evaluate
evaluate-Blocked budgets usage =
    let (to, from) = worst_of-Blocked (all_scopes budgets usage) ok in
    (λ h. elim (to h) [ inl e ↦ cc | inr b ↦ b ], λ b. from (inr b))

reason_iff :
    (budgets : Budgets) (usage : Usage)
    → (is_some (evaluate budgets usage).block_reason ≡ true)
      ↔ Any Blocked (all_scopes budgets usage)
unfolding evaluate
reason_iff budgets usage = first_blocked-Blocked (all_scopes budgets usage)

evaluate-reason :
    (budgets : Budgets) (usage : Usage)
    → (is_some (evaluate budgets usage).block_reason ≡ true)
      ↔ ((evaluate budgets usage).promote_blocked ≡ true)
evaluate-reason budgets usage =
    iff_trans (reason_iff budgets usage)
      ((evaluate-Blocked budgets usage).1, (evaluate-Blocked budgets usage).0)

module _ (day_start day_end : ℕ) (runs : List PipelineRun) (budgets : Budgets)
    (valid : Valid budgets) where
  abbrev spent_by : Test → ℕ
  spent_by passes = spent passes day_start day_end runs

  no_team-Spent :
      {id : String}
      → id ≡ ""
      → team_limit budgets id
        ≤ held id (ensure_keys budgets.per_team (usage_of day_start day_end runs).team_used)
      → ⊥
  no_team-Spent {id} e h =
      let empty = subst (λ k. team_limit budgets k ≤ held k teams_held) e h in
      ground (arith, empty, no_team_lem day_start day_end runs budgets.per_team, valid.teams "")
    where
      teams_held : Assoc ℕ
      teams_held = ensure_keys budgets.per_team (usage_of day_start day_end runs).team_used

  team-Exhausted :
      Spent team budgets.per_team
        (default_of budgets)
        (ensure_keys budgets.per_team (usage_of day_start day_end runs).team_used)
      ↔ ((id : String) × (id ≢ "") × (team_limit budgets id ≤ spent_by (of_team id)))
  team-Exhausted = (
    λ (id, h). elim (Bool-cases (str_eq id "")) [
      | inl t ↦ absurd (no_team-Spent ((eq_iff id "").0 t) h)
      | inr f ↦
          let named : id ≢ "" = λ e. cc in
          (id, named, ground (arith, h, team_lem day_start day_end runs id budgets.per_team named))
    ],
    λ (id, named, h).
        (id, ground (arith, h, team_lem day_start day_end runs id budgets.per_team named)),
  )

  repo-Exhausted :
      Spent repo budgets.per_repo
        (default_of budgets)
        (ensure_keys budgets.per_repo (usage_of day_start day_end runs).repo_used)
      ↔ ((url : String) × (repo_limit budgets url ≤ spent_by (of_repo url)))
  repo-Exhausted = (
    λ (url, h). (url, ground (arith, h, repo_lem day_start day_end runs url budgets.per_repo)),
    λ (url, h). (url, ground (arith, h, repo_lem day_start day_end runs url budgets.per_repo)),
  )

  evaluated_iff :
      ((evaluate budgets (usage_of day_start day_end runs)).promote_blocked ≡ true)
      ↔ Exhausted budgets
          (spent_by any_group)
          (λ id. spent_by (of_team id))
          (λ url. spent_by (of_repo url))
  evaluated_iff =
      let usage = usage_of day_start day_end runs in
      iff_trans (evaluate-Blocked budgets usage) (
        iff_trans
          (all_scopes-Blocked budgets usage valid
            (aggregate-Distinct (query_rows day_start day_end runs) no_usage (tt, tt)))
          (
            λ h. elim h [
              | inl g ↦ inl (ground (arith, g, global_lem day_start day_end runs))
              | inr r ↦
                  inr
                    (elim r [ inl t ↦ inl (team-Exhausted.0 t) | inr u ↦ inr (repo-Exhausted.0 u) ])
            ],
            λ h. elim h [
              | inl g ↦ inl (ground (arith, g, global_lem day_start day_end runs))
              | inr r ↦
                  inr
                    (elim r [ inl t ↦ inl (team-Exhausted.1 t) | inr u ↦ inr (repo-Exhausted.1 u) ])
            ],
          ))

evaluate_budget_lem :
    (day_start day_end : ℕ) (runs : Option (List PipelineRun)) (budgets : Budgets)
    → evaluate_budget day_start day_end runs budgets
      ≡ evaluate budgets (usage_of day_start day_end (or_else runs []))
unfolding evaluate_budget
evaluate_budget_lem day_start day_end none budgets = refl
evaluate_budget_lem day_start day_end (some runs) budgets = refl

-- Promotions are blocked exactly when the tokens of the runs that started today have reached the
-- daily budget, or those of a team or of a repository its limit; a reason is given exactly then. The
-- limits of the configuration are positive, and where the query throws nothing was spent.
pub promote_blocked_iff :
    (day_start day_end : ℕ) (runs : Option (List PipelineRun)) (budgets : Budgets)
    → Valid budgets
    → let result = evaluate_budget day_start day_end runs budgets in
      let today = or_else runs [] in
      ((result.promote_blocked ≡ true)
        ↔ Exhausted budgets
            (spent any_group day_start day_end today)
            (λ id. spent (of_team id) day_start day_end today)
            (λ url. spent (of_repo url) day_start day_end today))
      × ((is_some result.block_reason ≡ true) ↔ (result.promote_blocked ≡ true))
promote_blocked_iff day_start day_end runs budgets valid =
    rw (evaluate_budget_lem day_start day_end runs budgets)
      (evaluated_iff day_start day_end (or_else runs []) budgets valid, evaluate-reason budgets _)
