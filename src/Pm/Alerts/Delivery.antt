-- ===== src/Pm/Alerts/Delivery.antt =====
-- Which alerts are delivered where the database and Slack work.
use urateam.Prelude.{
  ℕ, ◌≡◌, refl, ◌∙◌, inl, inr, String, Bool, true, false, ◌&&◌, ◌||◌, not, List, [], ◌∷◌, arith,
  if◌then◌else◌, any, Bool-cases,
}
use urateam.Pm.Budget.{ScopeBudget, BudgetEvaluation}
use urateam.Pm.Alerts.{
  AlertRow, Services, Fired, thresholds_for_tier, same_row, has_row, fire_threshold, row_for, after,
  fire_thresholds, fire_scopes, maybe_fire_alerts,
}
use urateam.Pm.Alerts.Once.{one_of, deliveries, deliveries-append, has_row-same}

-- The row is that of a threshold which the scope has reached.
abbrev pub reaches : (today : String) → AlertRow → ScopeBudget → Bool
reaches today row about =
    any (λ threshold. same_row row (row_for today about threshold)) (thresholds_for_tier about.tier)

abbrev pub Works : Services → Type 0
Works services =
    (row : AlertRow) → (services.insert_succeeds row ≡ true) × (services.post_succeeds row ≡ true)

-- A row that is wanted is there afterwards, and its alert is delivered unless it was there before.
abbrev Exact : AlertRow → List AlertRow → (is_wanted : Bool) → Fired → Type 0
Exact row rows is_wanted fired =
    (deliveries row fired.posts ≡ one_of (not (has_row row rows) && is_wanted))
    × (has_row row fired.rows ≡ (has_row row rows || is_wanted))

fire_threshold-Exact :
    (services : Services) (about : ScopeBudget) (row r : AlertRow) (rows : List AlertRow)
    → Works services
    → Exact row rows (same_row row r) (fire_threshold services about r rows)
unfolding fire_threshold
fire_threshold-Exact services about row r rows works = elim (Bool-cases (has_row r rows)) [
  | inl h ↦ rw ((works r).0, (works r).1, h) (ground (arith, has_row-same row r rows))
  | inr h ↦ rw ((works r).0, (works r).1, h) (ground (arith, has_row-same row r rows))
]

after-Exact :
    (row : AlertRow) (rows : List AlertRow) (a b : Bool) (first later : Fired)
    → Exact row rows a first
    → Exact row first.rows b later
    → Exact row rows (a || b) (after first later)
after-Exact row rows a b first later (sent, there) (sent_later, there_later) =
    ground
      (arith, deliveries-append row first.posts later.posts, sent, there, sent_later, there_later)

fire_thresholds-Exact :
    (services : Services) (today : String) (about : ScopeBudget) (thresholds : List ℕ)
    (row : AlertRow) (rows : List AlertRow)
    → Works services
    → Exact row rows
        (any (λ t. same_row row (row_for today about t)) thresholds)
        (fire_thresholds services today about thresholds rows)
unfolding fire_thresholds
fire_thresholds-Exact services today about [] row rows works = ground arith
fire_thresholds-Exact services today about (threshold ∷ thresholds) row rows works =
    let first = fire_threshold services about (row_for today about threshold) rows in
    after-Exact row rows _ _ first (fire_thresholds services today about thresholds first.rows)
      (fire_threshold-Exact services about row (row_for today about threshold) rows works)
      (fire_thresholds-Exact services today about thresholds row first.rows works)

fire_scopes-Exact :
    (services : Services) (today : String) (scopes : List ScopeBudget) (row : AlertRow)
    (rows : List AlertRow)
    → Works services
    → Exact row rows (any (reaches today row) scopes) (fire_scopes services today scopes rows)
unfolding fire_scopes
fire_scopes-Exact services today [] row rows works = ground arith
fire_scopes-Exact services today (about ∷ scopes) row rows works =
    let first = fire_thresholds services today about (thresholds_for_tier about.tier) rows in
    after-Exact row rows _ _ first (fire_scopes services today scopes first.rows)
      (fire_thresholds-Exact services today about (thresholds_for_tier about.tier) row rows works)
      (fire_scopes-Exact services today scopes row first.rows works)

one_of-if : (b : Bool) → one_of b ≡ (if b then 1 else 0)
one_of-if true = refl
one_of-if false = refl

-- Where the database and Slack work, a call delivers an alert exactly for each threshold that a scope
-- has reached and that has no row yet, once, and a row is there afterwards exactly where it was there
-- before or its threshold is reached.
pub maybe_fire_alerts_lem :
    (services : Services) (today : String) (evaluation : BudgetEvaluation) (rows : List AlertRow)
    (row : AlertRow)
    → Works services
    → let fired = maybe_fire_alerts services today evaluation rows in
      let is_reached = any (reaches today row) evaluation.scopes in
      (deliveries row fired.posts ≡ (if not (has_row row rows) && is_reached then 1 else 0))
      × (has_row row fired.rows ≡ (has_row row rows || is_reached))
unfolding maybe_fire_alerts
maybe_fire_alerts_lem services today evaluation rows row works =
    let (sent, there) = fire_scopes-Exact services today evaluation.scopes row rows works in
    (sent ∙ one_of-if _, there)
