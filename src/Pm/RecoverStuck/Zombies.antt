-- ===== src/Pm/RecoverStuck/Zombies.antt =====
-- Which runs are marked as failed.
use urateam.Prelude.{
  ℕ, ◌-◌, ◌<◌, ◌≡◌, refl, ap, ◌∙◌, ◌⊎◌, inl, inr, String, Bool, true, false, ◌&&◌, ◌||◌, not,
  Option, none, some, List, [], ◌∷◌, arith, if◌then◌else◌, map, take, includes, In, All, Bool-cases,
  subst, In-filter, All-of_In, In-take, some-eq, eq_iff, and_iff, str_eq, ltb,
}
use urateam.Pm.Runs.{
  PipelineRunStatus, PipelineRun, running, holds_issue, get_active_and_recent_issue_ids,
}
use urateam.Pm.Runs.Listing.{unlisted-run}
use urateam.Pm.RecoverStuck.{
  StuckIssue, Services, RecoverStuckInput, Plan, leave, move, later_run, last_run, zombie_id,
  choose, in_review_override, state_of, plan_for, failed_row, mark_failed, execute, recover_each,
  stuck_issues, recover_stuck_in_progress_issues, age_ms, already_shipped, is_running,
  recent_window_ms,
}

-- The newest run of an issue is one of the table, and of the issue.
later_run-cases :
    (run : PipelineRun) (o : Option PipelineRun) (found : PipelineRun)
    → later_run run o ≡ some found
    → (run ≡ found) ⊎ (o ≡ some found)
later_run-cases run none found e = inl (some-eq e)
later_run-cases run (some r) found e = elim (Bool-cases (ltb run.started_at r.started_at)) [
  | inl l ↦ inr (rw l at e)
  | inr l ↦ inl (some-eq (rw l at e))
]

last_run-In :
    (identifier : String) (runs : List PipelineRun) (found : PipelineRun)
    → last_run identifier runs ≡ some found
    → In found runs × (found.issue_id ≡ identifier)
unfolding last_run
last_run-In identifier [] found e = cc
last_run-In identifier (run ∷ runs) found e = elim (Bool-cases (str_eq run.issue_id identifier)) [
  | inl same ↦ elim (later_run-cases run (last_run identifier runs) found (rw same at e)) [
    | inl f ↦
        (inl f, subst (λ r. r.issue_id ≡ identifier) f ((eq_iff run.issue_id identifier).0 same))
    | inr f ↦ let (i, own) = last_run-In identifier runs found f in (inr i, own)
  ]
  | inr other ↦ let (i, own) = last_run-In identifier runs found (rw other at e) in (inr i, own)
]

or_true : {A : Type 0} (a : Bool) (x y : A) → (if a then x else x) ≡ (if a || true then x else y)
or_true true x y = refl
or_true false x y = refl

or_false : {A : Type 0} (a : Bool) (x y : A) → (if a then x else y) ≡ (if a || false then x else y)
or_false true x y = refl
or_false false x y = refl

cons-eq : {A : Type 0} {x y : A} {xs ys : List A} → x ≡ y → xs ≡ ys → x ∷ xs ≡ y ∷ ys
cons-eq p q = cc

abbrev zombie_of : Plan → Option String
zombie_of leave = none
zombie_of (move zombie target state) = zombie

running_of : (status : PipelineRunStatus) → is_running status ≡ true → status ≡ running
running_of status e = ground arith

stale-holds :
    (now age : ℕ) (run : PipelineRun)
    → is_running run.status ≡ true
    → holds_issue now (some age) run ≡ false
    → run.started_at < now - age
stale-holds now age run busy h = ground (arith, running_of run.status busy)

module _ (input : RecoverStuckInput) (runs : List PipelineRun) where
  -- The run with the id has been running for longer than the age.
  abbrev pub IsStale : String → Type 0
  IsStale id =
      (run : PipelineRun) × In run runs
      × (run.id ≡ id)
      × (run.status ≡ running)
      × (run.started_at < input.now - age_ms input)

  abbrev pub mark_ids : List String → PipelineRun → PipelineRun
  mark_ids ids run = if includes ids run.id then failed_row input run else run

  mark_if :
      (id : String) (b : Bool) (run : PipelineRun)
      → mark_failed input id (if b then failed_row input run else run)
        ≡ (if str_eq id run.id || b then failed_row input run else run)
  mark_if id true run = or_true (str_eq id run.id) (failed_row input run) run
  mark_if id false run = or_false (str_eq id run.id) (failed_row input run) run

  map-mark_ids :
      (id : String) (ids : List String) (rows : List PipelineRun)
      → map (mark_failed input id) (map (mark_ids ids) rows) ≡ map (mark_ids (id ∷ ids)) rows
  unfolding includes
  map-mark_ids id ids [] = refl
  map-mark_ids id ids (run ∷ rows) =
      cons-eq (mark_if id (includes ids run.id) run) (map-mark_ids id ids rows)

  -- Some runs were marked as failed, all of them stale; the rest of the table is as it was.
  abbrev pub OnlyStaleFailed : List PipelineRun → Type 0
  OnlyStaleFailed rows = (ids : List String) × (rows ≡ map (mark_ids ids) runs) × All IsStale ids

  choose-zombie :
      (zombie review fallback : Option String) (target : String) (id : String) (name state : String)
      → choose zombie review fallback target ≡ move (some id) name state
      → zombie ≡ some id
  choose-zombie zombie (some s) fallback target id name state e = ap zombie_of e
  choose-zombie zombie none (some s) target id name state e = ap zombie_of e
  choose-zombie zombie none none target id name state e = cc

  zombie_id-running :
      (o : Option PipelineRun) (id : String)
      → zombie_id o ≡ some id
      → (run : PipelineRun) × (o ≡ some run) × (run.id ≡ id) × (is_running run.status ≡ true)
  zombie_id-running none id e = cc
  zombie_id-running (some run) id e = elim (Bool-cases (is_running run.status)) [
    | inl r ↦ (run, refl, some-eq (rw r at e), r)
    | inr r ↦ cc (rw r at e)
  ]

  plan_for-zombie :
      (issue : StuckIssue) (id name state : String)
      → plan_for input runs issue ≡ move (some id) name state
      → zombie_id (last_run issue.identifier runs) ≡ some id
  unfolding plan_for
  plan_for-zombie issue id name state e =
      let last = last_run issue.identifier runs in
      elim (Bool-cases (already_shipped last)) [
        | inl s ↦ cc (rw s at e)
        | inr s ↦
            choose-zombie (zombie_id last) (in_review_override input.state_map issue last)
              (state_of input.state_map issue.team_id input.target_state) input.target_state id name
              state (rw s at e)
      ]

  -- No run of the issue counts as active.
  abbrev pub IsUnheld : StuckIssue → Type 0
  IsUnheld issue =
      (run : PipelineRun)
      → In run runs
      → run.issue_id ≡ issue.identifier
      → holds_issue input.now (some (age_ms input)) run ≡ false

  plan_for-IsStale :
      (issue : StuckIssue) (id name state : String)
      → IsUnheld issue
      → plan_for input runs issue ≡ move (some id) name state
      → IsStale id
  plan_for-IsStale issue id name state unheld e =
      let (run, newest, same, busy) =
        zombie_id-running (last_run issue.identifier runs) id
          (plan_for-zombie issue id name state e) in
      let (found, own) = last_run-In issue.identifier runs run newest in
      (
        run,
        found,
        same,
        running_of run.status busy,
        stale-holds input.now (age_ms input) run busy (unheld run found own),
      )

  execute-OnlyStaleFailed :
      (services : Services) (issue : StuckIssue) (last : Option PipelineRun) (plan : Plan)
      (rows : List PipelineRun)
      → ((id name state : String) → plan ≡ move (some id) name state → IsStale id)
      → OnlyStaleFailed rows
      → OnlyStaleFailed (execute services input issue last plan rows).runs
  execute-OnlyStaleFailed services issue last leave rows stale h = h
  execute-OnlyStaleFailed services issue last (move none name state) rows stale h = h
  execute-OnlyStaleFailed services issue last (move (some id) name state) rows stale (ids, e, all) =
      elim (Bool-cases (services.update_run_succeeds id)) [
        | inl u ↦ rw u (
          id ∷ ids,
          ap (map (mark_failed input id)) e ∙ map-mark_ids id ids runs,
          (stale id name state refl, all),
        )
        | inr u ↦ rw u (ids, e, all)
      ]

  recover_each-OnlyStaleFailed :
      (services : Services) (issues : List StuckIssue) (rows : List PipelineRun)
      → All IsUnheld issues
      → OnlyStaleFailed rows
      → OnlyStaleFailed (recover_each services input runs issues rows).runs
  unfolding recover_each
  recover_each-OnlyStaleFailed services [] rows unheld h = h
  recover_each-OnlyStaleFailed services (issue ∷ issues) rows (held, unheld) h =
      recover_each-OnlyStaleFailed services issues _ unheld (
        execute-OnlyStaleFailed services issue (last_run issue.identifier runs)
          (plan_for input runs issue) rows
          (λ id name state. plan_for-IsStale issue id name state held) h)

  unmarked : (rows : List PipelineRun) → rows ≡ map (mark_ids []) rows
  unfolding includes
  unmarked [] = refl
  unmarked (run ∷ rows) = ap (λ r. run ∷ r) (unmarked rows)

  -- A stuck issue is one that Linear has in progress, with no run that counts as active.
  pub stuck-IsUnheld :
      (in_progress : List StuckIssue) (issue : StuckIssue)
      → In issue (stuck_issues input runs in_progress)
      → In issue in_progress × IsUnheld issue
  unfolding get_active_and_recent_issue_ids
  stuck-IsUnheld in_progress issue i =
      let ids =
        get_active_and_recent_issue_ids input.now recent_window_ms (some (age_ms input)) runs in
      let (listed, free) =
        In-filter
          (λ x.
            not (includes ids.active_issue_ids x.identifier)
            && not (includes ids.recently_processed x.identifier))
          issue in_progress i in
      (
        listed,
        unlisted-run (holds_issue input.now (some (age_ms input))) issue.identifier runs
            ((and_iff _ _).0 free).0,
      )

-- A tick marks as failed only runs that are running and have been for longer than the age; the rest of
-- the table of runs is as it was.
pub stale_runs_fail :
    (services : Services) (input : RecoverStuckInput) (in_progress : List StuckIssue)
    (runs : List PipelineRun)
    → OnlyStaleFailed input runs
        (recover_stuck_in_progress_issues services input in_progress runs).runs
unfolding recover_stuck_in_progress_issues
stale_runs_fail services input in_progress runs =
    let issues = take input.max_per_tick (stuck_issues input runs in_progress) in
    recover_each-OnlyStaleFailed input runs services issues runs
      (All-of_In (IsUnheld input runs) issues (λ issue i.
        (stuck-IsUnheld input runs in_progress issue (In-take issue input.max_per_tick _ i)).1))
      ([], unmarked input runs runs, tt)
