-- ===== src/Pm/Alerts.antt =====
-- pm/budget-alerts.ts: `maybeFireAlerts`, on the rows of `budget_alerts`. The id of a row and the time
-- it was made are left out: nothing reads them.
pub mod Once
pub mod Delivery
pub mod Refinement
use Prim.Native.String
use urateam.Prelude.{
  ℕ, ◌==◌, String, Bool, true, false, ◌&&◌, not, List, [], ◌∷◌, ◌++◌, any, filter, if◌then◌else◌,
  str_eq,
}
use urateam.Pm.Budget.{
  BudgetScope, global, team, repo, BudgetTier, ok, warn_50, warn_80, blocked_100, ScopeBudget,
  BudgetEvaluation,
}

pub record AlertRow : Type 0 where
  pub date : String
  pub scope : String
  pub threshold : ℕ

-- An alert that is posted, and whether Slack took it.
pub record Post : Type 0 where
  pub about : ScopeBudget
  pub row : AlertRow
  pub delivered : Bool

-- What the database and Slack answer for a row.
pub record Services : Type 0 where
  pub insert_succeeds : AlertRow → Bool
  pub post_succeeds : AlertRow → Bool
  pub delete_succeeds : AlertRow → Bool

-- The table, and what was posted.
pub record Fired : Type 0 where
  pub rows : List AlertRow
  pub posts : List Post

abbrev pub thresholds_for_tier : BudgetTier → List ℕ
thresholds_for_tier blocked_100 = 50 ∷ 80 ∷ 100 ∷ []
thresholds_for_tier warn_80 = 50 ∷ 80 ∷ []
thresholds_for_tier warn_50 = 50 ∷ []
thresholds_for_tier ok = []

abbrev pub scope_to_key : BudgetScope → String
scope_to_key global = "global"
scope_to_key (team id) = String.◌++◌ "team:" id
scope_to_key (repo url) = String.◌++◌ "repo:" url

-- The columns of the unique index.
abbrev pub same_row : AlertRow → AlertRow → Bool
same_row a b = str_eq a.date b.date && str_eq a.scope b.scope && a.threshold == b.threshold

abbrev pub has_row : AlertRow → List AlertRow → Bool
has_row row rows = any (same_row row) rows

abbrev delete_row : AlertRow → List AlertRow → List AlertRow
delete_row row rows = filter (λ r. not (same_row row r)) rows

abbrev try_insert_alert : Services → AlertRow → List AlertRow → Bool
try_insert_alert services row rows = services.insert_succeeds row && not (has_row row rows)

abbrev post_of : ScopeBudget → AlertRow → Bool → List Post
post_of about row delivered = record { about = about; row = row; delivered = delivered } ∷ []

-- The row is inserted before the post, and deleted again where Slack fails.
abbrev pub outcome :
    (is_inserted is_posted is_deleted : Bool) → ScopeBudget → AlertRow → List AlertRow → Fired
outcome false is_posted is_deleted about row rows = record { rows = rows; posts = [] }
outcome true true is_deleted about row rows = record {
  rows = row ∷ rows;
  posts = post_of about row true;
}
outcome true false true about row rows = record {
  rows = delete_row row (row ∷ rows);
  posts = post_of about row false;
}
outcome true false false about row rows = record {
  rows = row ∷ rows;
  posts = post_of about row false;
}

unfoldable pub fire_threshold : Services → ScopeBudget → AlertRow → List AlertRow → Fired
fire_threshold services about row rows =
    outcome (try_insert_alert services row rows) (services.post_succeeds row)
      (services.delete_succeeds row) about row rows

abbrev row_for : (today : String) → ScopeBudget → ℕ → AlertRow
row_for today about threshold = record {
  date = today;
  scope = scope_to_key about.scope;
  threshold = threshold;
}

abbrev after : Fired → Fired → Fired
after first later = record later { posts = first.posts ++ later.posts }

unfoldable pub fire_thresholds :
    Services → (today : String) → ScopeBudget → List ℕ → List AlertRow → Fired
unfolding fire_threshold
fire_thresholds services today about [] rows = record { rows = rows; posts = [] }
fire_thresholds services today about (threshold ∷ thresholds) rows =
    let first = fire_threshold services about (row_for today about threshold) rows in
    after first (fire_thresholds services today about thresholds first.rows)

unfoldable pub fire_scopes : Services → (today : String) → List ScopeBudget → List AlertRow → Fired
unfolding fire_thresholds
fire_scopes services today [] rows = record { rows = rows; posts = [] }
fire_scopes services today (about ∷ scopes) rows =
    let first = fire_thresholds services today about (thresholds_for_tier about.tier) rows in
    after first (fire_scopes services today scopes first.rows)

unfoldable pub maybe_fire_alerts :
    Services → (today : String) → BudgetEvaluation → List AlertRow → Fired
unfolding fire_scopes
maybe_fire_alerts services today evaluation rows = fire_scopes services today evaluation.scopes rows
