-- ===== src/Pm/Alerts/Once.antt =====
-- How often an alert is delivered.
use urateam.Prelude.{
  ℕ, ◌+◌, ◌≤◌, ◌≡◌, refl, ap, inl, inr, String, Bool, true, false, ◌&&◌, not, List, [], ◌∷◌, ◌++◌,
  arith, eq_iff, Bool-cases, subst,
}
use urateam.Pm.Budget.{ScopeBudget, BudgetEvaluation}
use urateam.Pm.Alerts.{
  AlertRow, Post, Services, Fired, thresholds_for_tier, same_row, has_row, delete_row,
  fire_threshold, row_for, after, fire_thresholds, fire_scopes, maybe_fire_alerts, outcome,
}

abbrev pub one_of : Bool → ℕ
one_of true = 1
one_of false = 0

-- How often an alert was delivered.
abbrev pub deliveries : AlertRow → List Post → ℕ
deliveries row [] = 0
deliveries row (p ∷ posts) = one_of (p.delivered && same_row row p.row) + deliveries row posts

pub deliveries-append :
    (row : AlertRow) (xs ys : List Post)
    → deliveries row (xs ++ ys) ≡ deliveries row xs + deliveries row ys
deliveries-append row [] ys = omega arith
deliveries-append row (x ∷ xs) ys = omega (arith, deliveries-append row xs ys)

abbrev row_of : String → String → ℕ → AlertRow
row_of date scope threshold = record { date = date; scope = scope; threshold = threshold }

row_of-eq : (d e s t : String) (m n : ℕ) → d ≡ e → s ≡ t → m ≡ n → row_of d s m ≡ row_of e t n
row_of-eq d e s t m n p q r = cc

same_row-eq : (a b : AlertRow) → same_row a b ≡ true → a ≡ b
same_row-eq a b h =
    row_of-eq a.date b.date a.scope b.scope a.threshold b.threshold
      (ground (arith, eq_iff a.date b.date)) (ground (arith, eq_iff a.scope b.scope)) (ground arith)

same_row_self : (a : AlertRow) → same_row a a ≡ true
same_row_self a = ground (arith, eq_iff a.date a.date, eq_iff a.scope a.scope)

-- Only the row itself is deleted.
has_row-delete :
    (row r : AlertRow) (rows : List AlertRow)
    → same_row row r ≡ false
    → has_row row (delete_row r rows) ≡ has_row row rows
has_row-delete row r [] h = refl
has_row-delete row r (x ∷ rows) h = elim (Bool-cases (same_row r x)) [
  | inl e ↦
      rw (e, subst (λ y. same_row row y ≡ false) (same_row-eq r x e) h)
        (has_row-delete row r rows h)
  | inr e ↦ rw (e, has_row-delete row r rows h) refl
]

-- No row is lost, and a delivery adds one.
abbrev Counted : AlertRow → List AlertRow → Fired → Type 0
Counted row rows fired =
    deliveries row fired.posts + one_of (has_row row rows) ≤ one_of (has_row row fired.rows)

pub has_row-same :
    (row r : AlertRow) (rows : List AlertRow)
    → same_row row r ≡ true
    → has_row row rows ≡ has_row r rows
has_row-same row r rows e = ap (λ x. has_row x rows) (same_row-eq row r e)

outcome-Counted :
    (is_free is_inserted is_posted is_deleted : Bool) (about : ScopeBudget) (row r : AlertRow)
    (rows : List AlertRow)
    → has_row r rows ≡ not is_free
    → Counted row rows (outcome (is_inserted && is_free) is_posted is_deleted about r rows)
outcome-Counted is_free false is_posted is_deleted about row r rows h = omega arith
outcome-Counted false true is_posted is_deleted about row r rows h = omega arith
outcome-Counted true true true is_deleted about row r rows h = elim (Bool-cases (same_row row r)) [
  | inl e ↦ ground (arith, has_row-same row r rows e, h)
  | inr e ↦ rw e (omega arith)
]
outcome-Counted true true false true about row r rows h = elim (Bool-cases (same_row row r)) [
  | inl e ↦ ground (arith, has_row-same row r rows e, h)
  | inr e ↦ rw (same_row_self r, has_row-delete row r rows e) (omega arith)
]
outcome-Counted true true false false about row r rows h = ground arith

fire_threshold-Counted :
    (services : Services) (about : ScopeBudget) (row r : AlertRow) (rows : List AlertRow)
    → Counted row rows (fire_threshold services about r rows)
unfolding fire_threshold
fire_threshold-Counted services about row r rows =
    outcome-Counted (not (has_row r rows)) (services.insert_succeeds r) (services.post_succeeds r)
      (services.delete_succeeds r) about row r rows (ground arith)

after-Counted :
    (row : AlertRow) (rows : List AlertRow) (first later : Fired)
    → Counted row rows first
    → Counted row first.rows later
    → Counted row rows (after first later)
after-Counted row rows first later h k =
    omega (arith, h, k, deliveries-append row first.posts later.posts)

fire_thresholds-Counted :
    (services : Services) (today : String) (about : ScopeBudget) (thresholds : List ℕ)
    (row : AlertRow) (rows : List AlertRow)
    → Counted row rows (fire_thresholds services today about thresholds rows)
unfolding fire_thresholds
fire_thresholds-Counted services today about [] row rows = omega arith
fire_thresholds-Counted services today about (threshold ∷ thresholds) row rows =
    let first = fire_threshold services about (row_for today about threshold) rows in
    after-Counted row rows first (fire_thresholds services today about thresholds first.rows)
      (fire_threshold-Counted services about row (row_for today about threshold) rows)
      (fire_thresholds-Counted services today about thresholds row first.rows)

fire_scopes-Counted :
    (services : Services) (today : String) (scopes : List ScopeBudget) (row : AlertRow)
    (rows : List AlertRow)
    → Counted row rows (fire_scopes services today scopes rows)
unfolding fire_scopes
fire_scopes-Counted services today [] row rows = omega arith
fire_scopes-Counted services today (about ∷ scopes) row rows =
    let first = fire_thresholds services today about (thresholds_for_tier about.tier) rows in
    after-Counted row rows first (fire_scopes services today scopes first.rows)
      (fire_thresholds-Counted services today about (thresholds_for_tier about.tier) row rows)
      (fire_scopes-Counted services today scopes row first.rows)

-- One call of `maybeFireAlerts`.
pub record Call : Type 0 where
  pub services : Services
  pub today : String
  pub evaluation : BudgetEvaluation

-- Calls one after the other: the table after them, and all that was posted.
unfoldable pub fire_all : List Call → List AlertRow → Fired
unfolding maybe_fire_alerts
fire_all [] rows = record { rows = rows; posts = [] }
fire_all (call ∷ calls) rows =
    let first = maybe_fire_alerts call.services call.today call.evaluation rows in
    after first (fire_all calls first.rows)

fire_all-Counted :
    (calls : List Call) (row : AlertRow) (rows : List AlertRow)
    → Counted row rows (fire_all calls rows)
unfolding fire_all maybe_fire_alerts
fire_all-Counted [] row rows = omega arith
fire_all-Counted (call ∷ calls) row rows =
    let first = maybe_fire_alerts call.services call.today call.evaluation rows in
    after-Counted row rows first (fire_all calls first.rows)
      (fire_scopes-Counted call.services call.today call.evaluation.scopes row rows)
      (fire_all-Counted calls row first.rows)

one_of-le : (b : Bool) → one_of b ≤ 1
one_of-le true = omega arith
one_of-le false = omega arith

-- Over all calls, whatever the database and Slack answer, the alert of a day, a scope and a threshold is
-- delivered at most once, and not at all where its row was there from the start.
pub alerts_once :
    (calls : List Call) (rows : List AlertRow) (row : AlertRow)
    → (deliveries row (fire_all calls rows).posts ≤ 1)
      × (has_row row rows ≡ true → deliveries row (fire_all calls rows).posts ≡ 0)
alerts_once calls rows row =
    let counted = fire_all-Counted calls row rows in
    let few = one_of-le (has_row row (fire_all calls rows).rows) in
    (omega (arith, counted, few), λ there. omega (arith, rw there at counted, few))
