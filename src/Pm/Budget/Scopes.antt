-- ===== src/Pm/Budget/Scopes.antt =====
-- Which limits a list of scopes sees spent.
use urateam.Prelude.{
  ℕ, ◌≤◌, ◌≢◌, ◌↔◌, ◌⊎◌, inl, inr, String, Bool, true, false, Option, none, some, List, [], ◌∷◌,
  ◌++◌, if◌then◌else◌, or_else, is_some, str_eq, Assoc, lookup, DistinctKeys, DistinctKeys-insert,
  Any,
}
use urateam.Pm.Budget.{
  ScopeBudget, Budgets, Usage, add_used, add_team_used, add_row, aggregate, ensure_keys, all_scopes,
  Row, global, team, repo,
}
use urateam.Pm.Budget.Blocking.{
  IsLimit, Blocked, Spent, limit_of, make_scope-Blocked, make_scopes-Blocked,
}

-- No team and no repository stands twice.
abbrev pub Distinct : Usage → Type 0
Distinct usage = DistinctKeys usage.team_used × DistinctKeys usage.repo_used

DistinctKeys-if :
    (b : Bool) (m n : Assoc ℕ) → DistinctKeys m → DistinctKeys n → DistinctKeys (if b then m else n)
DistinctKeys-if true m n d e = d
DistinctKeys-if false m n d e = e

add_team_used-DistinctKeys :
    (id : Option String) (tokens : ℕ) (used : Assoc ℕ)
    → DistinctKeys used
    → DistinctKeys (add_team_used id tokens used)
unfolding add_team_used add_used
add_team_used-DistinctKeys none tokens used d = d
add_team_used-DistinctKeys (some id) tokens used d =
    DistinctKeys-if (str_eq id "") _ _ d (DistinctKeys-insert _ _ _ d)

add_row-Distinct : (row : Row) (usage : Usage) → Distinct usage → Distinct (add_row row usage)
unfolding add_row add_used add_team_used
add_row-Distinct row usage (t, r) = (
  add_team_used-DistinctKeys row.linear_team_id row.total_tokens _ t,
  DistinctKeys-insert _ _ _ r,
)

pub aggregate-Distinct :
    (rows : List Row) (usage : Usage) → Distinct usage → Distinct (aggregate rows usage)
unfolding aggregate
aggregate-Distinct [] usage d = d
aggregate-Distinct (row ∷ rows) usage d = aggregate-Distinct rows _ (add_row-Distinct row usage d)

ensure_keys-DistinctKeys :
    (configured used : Assoc ℕ) → DistinctKeys used → DistinctKeys (ensure_keys configured used)
unfolding ensure_keys
ensure_keys-DistinctKeys [] used d = d
ensure_keys-DistinctKeys (entry ∷ configured) used d =
    ensure_keys-DistinctKeys configured _
      (DistinctKeys-if (is_some (lookup entry.0 used)) _ _ d (DistinctKeys-insert _ _ _ d))

abbrev pub default_of : Budgets → ℕ
default_of budgets = or_else budgets.default_limit budgets.daily_token_budget

abbrev pub team_limit : Budgets → String → ℕ
team_limit budgets = limit_of budgets.per_team (default_of budgets)

abbrev pub repo_limit : Budgets → String → ℕ
repo_limit budgets = limit_of budgets.per_repo (default_of budgets)

-- The limits of a configuration that was validated.
pub record Valid (budgets : Budgets) : Type 0 where
  pub daily : IsLimit budgets.daily_token_budget
  pub teams : (id : String) → IsLimit (team_limit budgets id)
  pub repos : (url : String) → IsLimit (repo_limit budgets url)

-- The whole, a team or a repository has spent its limit.
abbrev pub Exhausted : Budgets → (all : ℕ) (by_team by_repo : String → ℕ) → Type 0
Exhausted budgets all by_team by_repo =
    (budgets.daily_token_budget ≤ all)
    ⊎ ((id : String) × (id ≢ "") × (team_limit budgets id ≤ by_team id))
    ⊎ ((url : String) × (repo_limit budgets url ≤ by_repo url))

Any-append :
    (P : ScopeBudget → Type 0) (xs ys : List ScopeBudget) → Any P (xs ++ ys) ↔ (Any P xs ⊎ Any P ys)
Any-append P [] ys = (λ h. inr h, λ h. elim h [ inl a ↦ elim a [ ] | inr b ↦ b ])
Any-append P (x ∷ xs) ys =
    let (to, from) = Any-append P xs ys in
    (
      λ h. elim h [
        | inl p ↦ inl (inl p)
        | inr r ↦ elim (to r) [ inl a ↦ inl (inr a) | inr b ↦ inr b ]
      ],
      λ h. elim h [
        | inl a ↦ elim a [ inl p ↦ inl p | inr r ↦ inr (from (inl r)) ]
        | inr b ↦ inr (from (inr b))
      ],
    )

module _ (budgets : Budgets) (usage : Usage) (valid : Valid budgets)
    (distinct : Distinct usage) where
  abbrev teams_used : Assoc ℕ
  teams_used = ensure_keys budgets.per_team usage.team_used

  abbrev repos_used : Assoc ℕ
  repos_used = ensure_keys budgets.per_repo usage.repo_used

  pub all_scopes-Blocked : Any Blocked (all_scopes budgets usage) ↔ (
      (budgets.daily_token_budget ≤ usage.global_used)
      ⊎ Spent team budgets.per_team (default_of budgets) teams_used
      ⊎ Spent repo budgets.per_repo (default_of budgets) repos_used)
  unfolding all_scopes
  all_scopes-Blocked =
      let (g_to, g_from) =
        make_scope-Blocked global usage.global_used budgets.daily_token_budget valid.daily in
      let (t_to, t_from) =
        make_scopes-Blocked team budgets.per_team (default_of budgets) teams_used valid.teams
          (ensure_keys-DistinctKeys budgets.per_team _ distinct.0) in
      let (r_to, r_from) =
        make_scopes-Blocked repo budgets.per_repo (default_of budgets) repos_used valid.repos
          (ensure_keys-DistinctKeys budgets.per_repo _ distinct.1) in
      let (to, from) = Any-append Blocked _ _ in
      (
        λ h. elim h [
          | inl g ↦ inl (g_to g)
          | inr r ↦ elim (to r) [ inl t ↦ inr (inl (t_to t)) | inr u ↦ inr (inr (r_to u)) ]
        ],
        λ h. elim h [
          | inl g ↦ inl (g_from g)
          | inr r ↦ inr (from (elim r [ inl t ↦ inl (t_from t) | inr u ↦ inr (r_from u) ]))
        ],
      )
