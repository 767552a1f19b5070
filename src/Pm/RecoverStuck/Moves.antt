-- ===== src/Pm/RecoverStuck/Moves.antt =====
-- Which issues are moved, and to which state.
use urateam.Prelude.{
  ◌≤◌, ◌≡◌, refl, sym, ap, ◌∙◌, ◌⊎◌, inl, inr, String, false, Option, none, some, List, [], ◌∷◌,
  ◌++◌, arith, length, take, length-take, In, All, All-of_In, All-In, Bool-cases, subst, In-take,
}
use urateam.Pm.Runs.{PipelineRun}
use urateam.Pm.RecoverStuck.{
  StuckIssue, Call, update_issue, create_comment, Services, RecoverStuckInput, Plan, leave, move,
  last_run, zombie_id, choose, in_review_override, state_of, plan_for, execute, recover_each,
  stuck_issues, recover_stuck_in_progress_issues, already_shipped,
}
use urateam.Pm.RecoverStuck.Zombies.{IsUnheld, stuck-IsUnheld}

-- The issues that Linear is asked to move, with their new states.
abbrev pub moves : List Call → List (String × String)
moves [] = []
moves (update_issue issue state ∷ calls) = (issue, state) ∷ moves calls
moves (create_comment issue ∷ calls) = moves calls

moves-append : (xs ys : List Call) → moves (xs ++ ys) ≡ moves xs ++ moves ys
moves-append [] ys = refl
moves-append (update_issue issue state ∷ xs) ys = ap (λ m. (issue, state) ∷ m) (moves-append xs ys)
moves-append (create_comment issue ∷ xs) ys = moves-append xs ys

abbrev state_in : Plan → Option String
state_in leave = none
state_in (move zombie target state) = some state

module _ (input : RecoverStuckInput) (runs : List PipelineRun) where
  -- In Review where the newest run completed with a pull request and the team has that state, and else
  -- the state that is configured.
  abbrev pub Goes : StuckIssue → String → Type 0
  Goes issue state =
      let review = in_review_override input.state_map issue (last_run issue.identifier runs) in
      (review ≡ some state)
      ⊎ ((review ≡ none) × (state_of input.state_map issue.team_id input.target_state ≡ some state))

  choose-Goes :
      (zombie review fallback : Option String) (target name state : String) (id : Option String)
      → choose zombie review fallback target ≡ move id name state
      → (review ≡ some state) ⊎ ((review ≡ none) × (fallback ≡ some state))
  choose-Goes zombie (some s) fallback target name state id e = inl (ap state_in e)
  choose-Goes zombie none (some s) target name state id e = inr (refl, ap state_in e)
  choose-Goes zombie none none target name state id e = cc

  plan_for-Goes :
      (issue : StuckIssue) (zombie : Option String) (name state : String)
      → plan_for input runs issue ≡ move zombie name state
      → (already_shipped (last_run issue.identifier runs) ≡ false) × Goes issue state
  unfolding plan_for
  plan_for-Goes issue zombie name state e =
      let last = last_run issue.identifier runs in
      elim (Bool-cases (already_shipped last)) [
        | inl s ↦ cc (rw s at e)
        | inr s ↦ (
          s,
          choose-Goes (zombie_id last) (in_review_override input.state_map issue last)
              (state_of input.state_map issue.team_id input.target_state) input.target_state name
              state zombie (rw s at e),
        )
      ]

  -- The move is that of one of the issues, whose work has not been shipped.
  abbrev pub IsAllowed : List StuckIssue → String × String → Type 0
  IsAllowed issues m =
      (issue : StuckIssue) × In issue issues
      × (issue.id ≡ m.0)
      × (already_shipped (last_run issue.identifier runs) ≡ false)
      × Goes issue m.1

  execute-moves :
      (services : Services) (issue : StuckIssue) (last : Option PipelineRun) (plan : Plan)
      (rows : List PipelineRun)
      → (moves (execute services input issue last plan rows).calls ≡ [])
        ⊎ ((zombie : Option String) × (name : String) × (state : String) × (plan
              ≡ move zombie name state)
            × (moves (execute services input issue last plan rows).calls ≡ (issue.id, state) ∷ []))
  execute-moves services issue last leave rows = inl refl
  execute-moves services issue last (move none name state) rows =
      inr (none, name, state, refl, refl)
  execute-moves services issue last (move (some id) name state) rows =
      elim (Bool-cases (services.update_run_succeeds id)) [
        | inl u ↦ inr (some id, name, state, refl, rw u refl)
        | inr u ↦ inl (rw u refl)
      ]

  IsAllowed-later :
      (issue : StuckIssue) (issues : List StuckIssue) (ms : List (String × String))
      → All (IsAllowed issues) ms
      → All (IsAllowed (issue ∷ issues)) ms
  IsAllowed-later issue issues [] h = tt
  IsAllowed-later issue issues (m ∷ ms) ((i, found, same, unshipped, goes), h) =
      ((i, inr found, same, unshipped, goes), IsAllowed-later issue issues ms h)

  abbrev Bounded : List StuckIssue → List (String × String) → Type 0
  Bounded issues ms = (length ms ≤ length issues) × All (IsAllowed issues) ms

  recover_each-Bounded :
      (services : Services) (issues : List StuckIssue) (rows : List PipelineRun)
      → Bounded issues (moves (recover_each services input runs issues rows).calls)
  unfolding recover_each
  recover_each-Bounded services [] rows = (omega arith, tt)
  recover_each-Bounded services (issue ∷ issues) rows =
      let last = last_run issue.identifier runs in
      let first = execute services input issue last (plan_for input runs issue) rows in
      let later = recover_each services input runs issues first.runs in
      let (few, allowed) = recover_each-Bounded services issues first.runs in
      elim (execute-moves services issue last (plan_for input runs issue) rows) [
        | inl e ↦
            subst (Bounded (issue ∷ issues))
              (sym (moves-append first.calls later.calls ∙ ap (λ m. m ++ moves later.calls) e))
              (omega (arith, few), IsAllowed-later issue issues _ allowed)
        | inr (zombie, name, state, planned, e) ↦
            let (unshipped, goes) = plan_for-Goes issue zombie name state planned in
            subst (Bounded (issue ∷ issues))
              (sym (moves-append first.calls later.calls ∙ ap (λ m. m ++ moves later.calls) e))
              (
                omega (arith, few),
                ((issue, inl refl, refl, unshipped, goes), IsAllowed-later issue issues _ allowed),
              )
      ]

-- At most as many issues are moved as a tick may process. Each is in progress, with no run that counts as
-- active and with work that was not merged automatically, and goes to In Review or to the configured
-- state.
pub moved_lem :
    (services : Services) (input : RecoverStuckInput) (in_progress : List StuckIssue)
    (runs : List PipelineRun)
    → let asked = moves (recover_stuck_in_progress_issues services input in_progress runs).calls in
      (length asked ≤ input.max_per_tick)
      × All
          (λ m.
            (issue : StuckIssue) × In issue in_progress
            × (issue.id ≡ m.0)
            × IsUnheld input runs issue
            × (already_shipped (last_run issue.identifier runs) ≡ false)
            × Goes input runs issue m.1)
          asked
unfolding recover_stuck_in_progress_issues
moved_lem services input in_progress runs =
    let stuck = stuck_issues input runs in_progress in
    let issues = take input.max_per_tick stuck in
    let (few, allowed) = recover_each-Bounded input runs services issues runs in
    (
      omega (arith, few, length-take input.max_per_tick stuck),
      All-of_In _ _ (λ m i.
          let (issue, found, same, unshipped, goes) = All-In _ m _ allowed i in
          let (listed, unheld) =
            stuck-IsUnheld input runs in_progress issue
              (In-take issue input.max_per_tick stuck found) in
          (issue, listed, same, unheld, unshipped, goes)),
    )
