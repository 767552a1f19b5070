-- ===== src/Pm/Budget/Spending.antt =====
-- The sums of the query, against the runs of the day.
use urateam.Prelude.{
  ℕ, ◌+◌, String, Bool, true, false, ◌&&◌, ◌≡◌, ◌≢◌, refl, ap, ◌∙◌, Option, none, some, List, [],
  ◌∷◌, arith, if◌then◌else◌, or_else, is_some, str_eq, eq_iff, Assoc, lookup, insert, lookup-insert,
}
use urateam.Pm.Runs.{PipelineRun}
use urateam.Pm.Budget.{
  Row, Usage, run_tokens, started_today, add_to_group, query_rows, add_used, add_team_used, add_row,
  same_team, aggregate, ensure_keys, no_usage,
}

-- Groups that a test on team and repository picks.
abbrev pub Test : Type 0
Test = Option String → String → Bool

abbrev pub any_group : Test
any_group team repo = true

abbrev pub of_team : String → Test
of_team id none repo = false
of_team id (some team) repo = str_eq team id

abbrev pub of_repo : String → Test
of_repo url team repo = str_eq repo url

same_team-eq : (a b : Option String) → same_team a b ≡ true → a ≡ b
same_team-eq none none h = refl
same_team-eq (some a) (some b) h = ap some ((eq_iff a b).0 h)
same_team-eq none (some b) h = cc
same_team-eq (some a) none h = cc

module _ (passes : Test) where
  abbrev picked : Option String → String → ℕ → ℕ
  picked team repo tokens = if passes team repo then tokens else 0

  -- The tokens of the runs of the day that pass the test.
  unfoldable pub spent : (day_start day_end : ℕ) → List PipelineRun → ℕ
  spent day_start day_end [] = 0
  spent day_start day_end (run ∷ runs) =
      let rest = spent day_start day_end runs in
      if started_today day_start day_end run && passes run.linear_team_id run.repo_url
      then rest + run_tokens run
      else rest

  abbrev row_sum : List Row → ℕ
  row_sum [] = 0
  row_sum (row ∷ rows) = row_sum rows + picked row.linear_team_id row.repo_url row.total_tokens

  row_sum-add_to_group :
      (run : PipelineRun) (rows : List Row)
      → row_sum (add_to_group run rows)
        ≡ row_sum rows + picked run.linear_team_id run.repo_url (run_tokens run)
  unfolding add_to_group
  row_sum-add_to_group run [] = refl
  row_sum-add_to_group run (row ∷ rows) = ground (
    arith,
    row_sum-add_to_group run rows,
    same_team-eq row.linear_team_id run.linear_team_id,
    eq_iff row.repo_url run.repo_url,
  )

  row_sum-query_rows :
      (day_start day_end : ℕ) (runs : List PipelineRun)
      → row_sum (query_rows day_start day_end runs) ≡ spent day_start day_end runs
  unfolding query_rows spent
  row_sum-query_rows day_start day_end [] = refl
  row_sum-query_rows day_start day_end (run ∷ runs) = ground (
    arith,
    row_sum-query_rows day_start day_end runs,
    row_sum-add_to_group run (query_rows day_start day_end runs),
  )

-- What is held under a key, 0 where nothing is.
abbrev pub held : String → Assoc ℕ → ℕ
held key used = or_else (lookup key used) 0

held-add_used :
    (asked key : String) (tokens : ℕ) (used : Assoc ℕ)
    → held asked (add_used key tokens used)
      ≡ held asked used + (if str_eq key asked then tokens else 0)
unfolding add_used
held-add_used asked key tokens used =
    ground (arith, eq_iff key asked, lookup-insert key asked (held key used + tokens) used)

held-add_team_used :
    (asked : String) (team : Option String) (tokens : ℕ) (used : Assoc ℕ)
    → asked ≢ ""
    → held asked (add_team_used team tokens used)
      ≡ held asked used + (if of_team asked team "" then tokens else 0)
unfolding add_team_used
held-add_team_used asked none tokens used h = ground arith
held-add_team_used asked (some team) tokens used h =
    ground (arith, held-add_used asked team tokens used, eq_iff team asked, eq_iff team "")

held-no_team :
    (team : Option String) (tokens : ℕ) (used : Assoc ℕ)
    → held "" (add_team_used team tokens used) ≡ held "" used
unfolding add_team_used
held-no_team none tokens used = refl
held-no_team (some team) tokens used =
    ground (arith, held-add_used "" team tokens used, eq_iff team "")

aggregate-global :
    (rows : List Row) (usage : Usage)
    → (aggregate rows usage).global_used ≡ usage.global_used + row_sum any_group rows
unfolding aggregate add_row
aggregate-global [] usage = omega arith
aggregate-global (row ∷ rows) usage = omega (arith, aggregate-global rows (add_row row usage))

aggregate-team :
    (asked : String) (rows : List Row) (usage : Usage)
    → asked ≢ ""
    → held asked (aggregate rows usage).team_used
      ≡ held asked usage.team_used + row_sum (of_team asked) rows
unfolding aggregate add_row
aggregate-team asked [] usage h = omega arith
aggregate-team asked (row ∷ rows) usage h = ground (
  arith,
  aggregate-team asked rows (add_row row usage) h,
  held-add_team_used asked row.linear_team_id row.total_tokens usage.team_used h,
)

aggregate-repo :
    (asked : String) (rows : List Row) (usage : Usage)
    → held asked (aggregate rows usage).repo_used
      ≡ held asked usage.repo_used + row_sum (of_repo asked) rows
unfolding aggregate add_row
aggregate-repo asked [] usage = omega arith
aggregate-repo asked (row ∷ rows) usage = ground (
  arith,
  aggregate-repo asked rows (add_row row usage),
  held-add_used asked row.repo_url row.total_tokens usage.repo_used,
)

abbrev ensured : String → Assoc ℕ → Assoc ℕ
ensured key used = if is_some (lookup key used) then used else insert key 0 used

held-ensured :
    (asked key : String) (used : Assoc ℕ) → held asked (ensured key used) ≡ held asked used
held-ensured asked key used = ground (arith, eq_iff key asked, lookup-insert key asked 0 used)

held-ensure_keys :
    (asked : String) (configured used : Assoc ℕ)
    → held asked (ensure_keys configured used) ≡ held asked used
unfolding ensure_keys
held-ensure_keys asked [] used = refl
held-ensure_keys asked (entry ∷ configured) used =
    held-ensure_keys asked configured (ensured entry.0 used) ∙ held-ensured asked entry.0 used

aggregate-no_team :
    (rows : List Row) (usage : Usage)
    → held "" (aggregate rows usage).team_used ≡ held "" usage.team_used
unfolding aggregate add_row
aggregate-no_team [] usage = refl
aggregate-no_team (row ∷ rows) usage =
    aggregate-no_team rows (add_row row usage)
    ∙ held-no_team row.linear_team_id row.total_tokens usage.team_used

module _ (day_start day_end : ℕ) (runs : List PipelineRun) where
  abbrev pub usage_of : Usage
  usage_of = aggregate (query_rows day_start day_end runs) no_usage

  pub global_lem : usage_of.global_used ≡ spent any_group day_start day_end runs
  global_lem = omega (
    arith,
    aggregate-global (query_rows day_start day_end runs) no_usage,
    row_sum-query_rows any_group day_start day_end runs,
  )

  pub team_lem :
      (id : String) (configured : Assoc ℕ)
      → id ≢ ""
      → held id (ensure_keys configured usage_of.team_used)
        ≡ spent (of_team id) day_start day_end runs
  unfolding lookup
  team_lem id configured h = omega (
    arith,
    held-ensure_keys id configured usage_of.team_used,
    aggregate-team id (query_rows day_start day_end runs) no_usage h,
    row_sum-query_rows (of_team id) day_start day_end runs,
  )

  pub no_team_lem : (configured : Assoc ℕ) → held "" (ensure_keys configured usage_of.team_used) ≡ 0
  unfolding lookup
  no_team_lem configured =
      held-ensure_keys "" configured usage_of.team_used
      ∙ aggregate-no_team (query_rows day_start day_end runs) no_usage

  pub repo_lem :
      (url : String) (configured : Assoc ℕ)
      → held url (ensure_keys configured usage_of.repo_used)
        ≡ spent (of_repo url) day_start day_end runs
  unfolding lookup
  repo_lem url configured = omega (
    arith,
    held-ensure_keys url configured usage_of.repo_used,
    aggregate-repo url (query_rows day_start day_end runs) no_usage,
    row_sum-query_rows (of_repo url) day_start day_end runs,
  )
