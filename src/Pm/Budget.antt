-- ===== src/Pm/Budget.antt =====
-- pm/budget.ts: `evaluateBudget`. The query of the runs since midnight is read from their rows.
pub mod Spending
pub mod Blocking
pub mod Scopes
pub mod Verdict
use Prim.Native.String
use urateam.Prelude.{
  ℕ, suc, ◌+◌, String, Bool, true, false, ◌&&◌, ◌||◌, not, Option, none, some, List, [], ◌∷◌, ◌++◌,
  leb, ltb, if◌then◌else◌, or_else, is_some, str_eq, Assoc, lookup, insert,
}
use urateam.Pm.Percent.{percent}
use urateam.Pm.Runs.{PipelineRun, is_active}

pub data BudgetScope : Type 0 where
  global : BudgetScope
  team repo : String → BudgetScope

pub data BudgetTier : Type 0 where
  ok warn_50 warn_80 blocked_100 : BudgetTier

pub record ScopeBudget : Type 0 where
  pub scope : BudgetScope
  pub limit : ℕ
  pub used : ℕ
  pub percent : ℕ
  pub tier : BudgetTier

-- `block_reason` is the scope that the message is about.
pub record BudgetEvaluation : Type 0 where
  pub scopes : List ScopeBudget
  pub worst_tier : BudgetTier
  pub promote_blocked : Bool
  pub block_reason : Option ScopeBudget
  pub active_count : ℕ

-- `dailyTokenBudget` and `budgets` of the configuration.
pub record Budgets : Type 0 where
  pub daily_token_budget : ℕ
  pub default_limit : Option ℕ
  pub per_team : Assoc ℕ
  pub per_repo : Assoc ℕ

-- A row of the query: a team and a repository with their sums.
pub record Row : Type 0 where
  pub linear_team_id : Option String
  pub repo_url : String
  pub total_tokens : ℕ
  pub active_count : ℕ

abbrev pub run_tokens : PipelineRun → ℕ
run_tokens run = run.total_input_tokens + run.total_output_tokens

abbrev pub started_today : (day_start day_end : ℕ) → PipelineRun → Bool
started_today day_start day_end run = leb day_start run.started_at && ltb run.started_at day_end

abbrev pub same_team : Option String → Option String → Bool
same_team none none = true
same_team (some a) (some b) = str_eq a b
same_team _ _ = false

abbrev one_if : Bool → ℕ
one_if true = 1
one_if false = 0

-- A run, into the group of its team and repository.
unfoldable pub add_to_group : PipelineRun → List Row → List Row
add_to_group run [] =
    record {
      linear_team_id = run.linear_team_id;
      repo_url = run.repo_url;
      total_tokens = run_tokens run;
      active_count = one_if (is_active run.status);
    }
    ∷ []
add_to_group run (row ∷ rows) =
    let rest = add_to_group run rows in
    if same_team row.linear_team_id run.linear_team_id && str_eq row.repo_url run.repo_url
    then record row {
      total_tokens = row.total_tokens + run_tokens run;
      active_count = row.active_count + one_if (is_active run.status);
    }
      ∷ rows
    else row ∷ rest

-- The query: `WHERE started_at >= … AND started_at < … GROUP BY linear_team_id, repo_url`.
unfoldable pub query_rows : (day_start day_end : ℕ) → List PipelineRun → List Row
unfolding add_to_group
query_rows day_start day_end [] = []
query_rows day_start day_end (run ∷ runs) =
    let rows = query_rows day_start day_end runs in
    if started_today day_start day_end run then add_to_group run rows else rows

pub record Usage : Type 0 where
  pub global_used : ℕ
  pub active_count : ℕ
  pub team_used : Assoc ℕ
  pub repo_used : Assoc ℕ

-- `used.set(key, (used.get(key) ?? 0) + tokens)`
unfoldable pub add_used : String → ℕ → Assoc ℕ → Assoc ℕ
unfolding lookup insert
add_used key tokens used = insert key (or_else (lookup key used) 0 + tokens) used

-- An empty team is no team.
unfoldable pub add_team_used : Option String → ℕ → Assoc ℕ → Assoc ℕ
unfolding add_used
add_team_used none tokens used = used
add_team_used (some id) tokens used = if str_eq id "" then used else add_used id tokens used

unfoldable pub add_row : Row → Usage → Usage
unfolding add_used add_team_used
add_row row usage = record {
  global_used = usage.global_used + row.total_tokens;
  active_count = usage.active_count + row.active_count;
  team_used = add_team_used row.linear_team_id row.total_tokens usage.team_used;
  repo_used = add_used row.repo_url row.total_tokens usage.repo_used;
}

-- The loop over the rows.
unfoldable pub aggregate : List Row → Usage → Usage
unfolding add_row
aggregate [] usage = usage
aggregate (row ∷ rows) usage = aggregate rows (add_row row usage)

-- Each configured key appears, with no spending.
unfoldable pub ensure_keys : Assoc ℕ → Assoc ℕ → Assoc ℕ
unfolding lookup insert
ensure_keys [] used = used
ensure_keys (entry ∷ configured) used =
    ensure_keys configured (if is_some (lookup entry.0 used) then used else insert entry.0 0 used)

abbrev pub tier_of : ℕ → BudgetTier
tier_of p =
    if leb 100 p
    then blocked_100
    else if leb 80 p
    then warn_80
    else if leb 50 p
    then warn_50
    else ok

unfoldable pub make_scope : BudgetScope → (used limit : ℕ) → ScopeBudget
make_scope scope used limit =
    let p = if ltb 0 limit then percent used limit else 0 in
    record { scope = scope; limit = limit; used = used; percent = p; tier = tier_of p }

-- The scopes of the teams, or those of the repositories.
unfoldable pub make_scopes : (String → BudgetScope) → Assoc ℕ → ℕ → Assoc ℕ → List ScopeBudget
unfolding make_scope lookup
make_scopes kind limits default_limit [] = []
make_scopes kind limits default_limit (entry ∷ used) =
    make_scope (kind entry.0) entry.1 (or_else (lookup entry.0 limits) default_limit)
    ∷ make_scopes kind limits default_limit used

abbrev pub tier_rank : BudgetTier → ℕ
tier_rank ok = 0
tier_rank warn_50 = 1
tier_rank warn_80 = 2
tier_rank blocked_100 = 3

abbrev pub is_blocked : BudgetTier → Bool
is_blocked blocked_100 = true
is_blocked _ = false

unfoldable pub worst_of : List ScopeBudget → BudgetTier → BudgetTier
worst_of [] worst = worst
worst_of (s ∷ scopes) worst =
    worst_of scopes (if ltb (tier_rank worst) (tier_rank s.tier) then s.tier else worst)

unfoldable pub first_blocked : List ScopeBudget → Option ScopeBudget
first_blocked [] = none
first_blocked (s ∷ scopes) =
    let later = first_blocked scopes in if is_blocked s.tier then some s else later

unfoldable pub all_scopes : Budgets → Usage → List ScopeBudget
unfolding make_scope make_scopes ensure_keys
all_scopes budgets usage =
    let limit = or_else budgets.default_limit budgets.daily_token_budget in
    make_scope global usage.global_used budgets.daily_token_budget
      ∷ make_scopes team budgets.per_team limit (ensure_keys budgets.per_team usage.team_used)
    ++ make_scopes repo budgets.per_repo limit (ensure_keys budgets.per_repo usage.repo_used)

abbrev pub no_usage : Usage
no_usage = record { global_used = 0; active_count = 0; team_used = []; repo_used = [] }

unfoldable pub evaluate : Budgets → Usage → BudgetEvaluation
unfolding all_scopes worst_of first_blocked
evaluate budgets usage =
    let scopes = all_scopes budgets usage in
    record {
      scopes = scopes;
      worst_tier = worst_of scopes ok;
      promote_blocked = is_blocked (worst_of scopes ok);
      block_reason = first_blocked scopes;
      active_count = usage.active_count;
    }

-- The table, or `none` where the query throws.
unfoldable pub evaluate_budget :
    (day_start day_end : ℕ) → Option (List PipelineRun) → Budgets → BudgetEvaluation
unfolding query_rows aggregate evaluate
evaluate_budget day_start day_end none budgets = evaluate budgets no_usage
evaluate_budget day_start day_end (some runs) budgets =
    evaluate budgets (aggregate (query_rows day_start day_end runs) no_usage)
