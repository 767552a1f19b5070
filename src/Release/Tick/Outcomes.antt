-- ===== src/Release/Tick/Outcomes.antt =====
-- When a tick tags a commit, and when it consumes an approval.
use urateam.Prelude.{
  ℕ, ◌≡◌, ◌≢◌, ◌↔◌, refl, sym, subst, ◌∙◌, String, Bool, true, false, ◌||◌, not, Option, none, some,
  List, arith, ltb, if◌then◌else◌, some-eq,
}
use urateam.Release.{CollectedState}
use urateam.Release.Triggers.{Reason}
use urateam.Release.Decide.{DecisionResult, skip, awaiting_approval, fire}
use urateam.Release.State.{Tables, ApprovalRow, collect_state}
use urateam.Release.Ledger.{persist_decision, clear_failure_rows_for_sha, max_attempt_count}
use urateam.Release.Tick.{
  World, Config, Outcome, RefAnswer, Dispatch, dispatched, not_found, unprocessable, not_dispatched,
  pending, made, conflict, failed, create_tag_and_release, sweep_fire_pending_rows,
}
use urateam.Release.Tick.Sweep.{sweep-approvals}
use urateam.Release.Tick.Cycle.{
  quiet, after_dispatch, on_state, on_decision, on_fire, on_skip, proposed_version, decision_of,
  tables_for, tick,
}

-- The state that a tick decides on.
abbrev pub collected_by : World → Config → Tables → Option CollectedState
collected_by world config tables =
    collect_state world.answers (tables_for config (sweep_fire_pending_rows world tables)) world.now

-- The release manager is licensed, and no pause holds.
abbrev pub IsRunning : World → ℕ → Type 0
IsRunning world paused_until = (world.is_licensed ≡ true) × (ltb world.now paused_until ≡ false)

-- The state fires, by hand no tag was made.
abbrev pub FiresOn : World → Config → CollectedState → String → String → Type 0
FiresOn world config state tag sha =
    (state.manual_tag_detected ≡ false)
    × (decision_of world config state ≡ fire)
    × (proposed_version config state ≡ tag)
    × (state.head_sha ≡ sha)

-- A guard before an outcome that tags.
guard_tagged :
    (b : Bool) (x y : Outcome) (t : String × String)
    → x.tagged ≡ none
    → ((if b then x else y).tagged ≡ some t) ↔ ((b ≡ false) × (y.tagged ≡ some t))
guard_tagged true x y t h = (λ e. cc, λ (f, e). cc)
guard_tagged false x y t h = (λ e. (refl, e), λ (f, e). e)

if_approvals :
    (b : Bool) (x y : Outcome) (rows : List ApprovalRow)
    → x.tables.approvals ≡ rows
    → y.tables.approvals ≡ rows
    → (if b then x else y).tables.approvals ≡ rows
if_approvals true x y rows h k = h
if_approvals false x y rows h k = k

on_decision-tagged :
    (world : World) (tables : Tables) (state : CollectedState) (version : String)
    (d : DecisionResult) (tag sha : String)
    → ((on_decision world tables state version d).tagged ≡ some (tag, sha))
      ↔ ((d ≡ fire) × (version ≡ tag) × (state.head_sha ≡ sha))
unfolding on_decision
on_decision-tagged world tables state version (skip r a) tag sha = (λ h. cc, λ (e, v, s). cc)
on_decision-tagged world tables state version (awaiting_approval r) tag sha =
    (λ h. cc, λ (e, v, s). cc)
on_decision-tagged world tables state version fire tag sha = (λ h. (refl, cc, cc), λ (e, v, s). cc)

on_state-none :
    (world : World) (config : Config) (tables : Tables) (t : String × String)
    → (on_state world config tables none).tagged ≢ some t
unfolding on_state
on_state-none world config tables t h = cc

on_state-FiresOn :
    (world : World) (config : Config) (tables : Tables) (state : CollectedState) (tag sha : String)
    → ((on_state world config tables (some state)).tagged ≡ some (tag, sha))
      ↔ FiresOn world config state tag sha
unfolding on_state
on_state-FiresOn world config tables state tag sha =
    let (to, from) =
      on_decision-tagged world tables state (proposed_version config state)
        (decision_of world config state) tag sha in
    let (guard_to, guard_from) = guard_tagged state.manual_tag_detected _ _ (tag, sha) refl in
    (
      λ h. let (m, e) = guard_to h in let (d, v, s) = to e in (m, d, v, s),
      λ (m, d, v, s). guard_from (m, from (d, v, s)),
    )

on_state-tagged :
    (world : World) (config : Config) (tables : Tables) (o : Option CollectedState)
    (tag sha : String)
    → ((on_state world config tables o).tagged ≡ some (tag, sha))
      ↔ ((state : CollectedState) × (o ≡ some state) × FiresOn world config state tag sha)
on_state-tagged world config tables none tag sha = (not_tagged, λ (s, e, f). cc)
  where
    not_tagged :
        (on_state world config tables none).tagged ≡ some (tag, sha)
        → (state : CollectedState) × (none ≡ some state) × FiresOn world config state tag sha
    not_tagged h = absurd (on_state-none world config tables (tag, sha) h)
on_state-tagged world config tables (some state) tag sha =
    let (to, from) = on_state-FiresOn world config tables state tag sha in
    (
      λ h. (state, refl, to h),
      λ (s, e, fires). from (subst (λ x. FiresOn world config x tag sha) (sym (some-eq e)) fires),
    )

-- A tick asks GitHub for a tag exactly when the release manager is licensed and not paused, the state
-- could be collected, it shows no tag made by hand, and the decision on it is to fire; the tag is then
-- the next version, at the head of the branch.
pub tick_tags_iff :
    (world : World) (config : Config) (paused_until : ℕ) (tables : Tables) (tag sha : String)
    → ((tick world config paused_until tables).tagged ≡ some (tag, sha)) ↔ (
        IsRunning world paused_until
        × ((state : CollectedState) × (collected_by world config tables ≡ some state)
            × FiresOn world config state tag sha))
unfolding tick
tick_tags_iff world config paused_until tables tag sha =
    let (to, from) =
      on_state-tagged world config (tables_for config (sweep_fire_pending_rows world tables))
        (collected_by world config tables) tag sha in
    let (guard_to, guard_from) =
      guard_tagged (not world.is_licensed || ltb world.now paused_until) _ _ (tag, sha) refl in
    (
      λ h. let (c, e) = guard_to h in (ground arith, to e),
      λ (running, s). guard_from (ground arith, from s),
    )

-- A release that GitHub refuses leaves the approvals alone.
on_fire-approvals :
    (world : World) (tables : Tables) (state : CollectedState) (version : String)
    → (on_fire world tables state version (create_tag_and_release world.create_ref false)).approvals
      ≡ tables.approvals
unfolding on_fire create_tag_and_release persist_decision
on_fire-approvals world tables state version = by_ref world.create_ref
  where
    by_ref :
        (ref : RefAnswer)
        → (on_fire world tables state version (create_tag_and_release ref false)).approvals
          ≡ tables.approvals
    by_ref made = refl
    by_ref conflict = refl
    by_ref failed = refl

after_dispatch-approvals :
    (world : World) (tables : Tables) (sha : String) (previous : ℕ) (d : Dispatch)
    → (after_dispatch world tables sha previous d).tables.approvals ≡ tables.approvals
unfolding after_dispatch clear_failure_rows_for_sha
after_dispatch-approvals world tables sha previous (dispatched run_id) = refl
after_dispatch-approvals world tables sha previous not_found = refl
after_dispatch-approvals world tables sha previous unprocessable = refl
after_dispatch-approvals world tables sha previous not_dispatched = refl
after_dispatch-approvals world tables sha previous pending = refl

on_skip-approvals :
    (world : World) (tables : Tables) (state : CollectedState) (version : String) (reason : Reason)
    (action : Option Reason)
    → (on_skip world tables state version reason action).approvals ≡ tables.approvals
unfolding on_skip persist_decision
on_skip-approvals world tables state version reason action =
    let previous =
      max_attempt_count tables "qa_needs_trigger" (some state.head_sha) tables.decisions in
    ground (arith, after_dispatch-approvals world tables state.head_sha previous world.dispatch)

on_decision-approvals :
    (world : World) (tables : Tables) (state : CollectedState) (version : String)
    (d : DecisionResult)
    → world.create_release version ≡ false
    → (on_decision world tables state version d).tables.approvals ≡ tables.approvals
unfolding on_decision persist_decision
on_decision-approvals world tables state version (skip r a) h =
    on_skip-approvals world tables state version r a
on_decision-approvals world tables state version (awaiting_approval r) h = refl
on_decision-approvals world tables state version fire h =
    rw h (on_fire-approvals world tables state version)

on_state-approvals :
    (world : World) (config : Config) (tables : Tables) (o : Option CollectedState)
    → ((tag : String) → world.create_release tag ≡ false)
    → (on_state world config tables o).tables.approvals ≡ tables.approvals
unfolding on_state persist_decision
on_state-approvals world config tables none h = refl
on_state-approvals world config tables (some state) h =
    if_approvals state.manual_tag_detected _ _ tables.approvals refl
      (on_decision-approvals world tables state _ _ (h _))

tick-approvals :
    (world : World) (config : Config) (paused_until : ℕ) (tables : Tables)
    → ((tag : String) → world.create_release tag ≡ false)
    → (tick world config paused_until tables).tables.approvals ≡ tables.approvals
unfolding tick tables_for
tick-approvals world config paused_until tables h =
    let swept = tables_for config (sweep_fire_pending_rows world tables) in
    if_approvals (not world.is_licensed || ltb world.now paused_until) (quiet tables)
      (on_state world config swept (collect_state world.answers swept world.now)) tables.approvals
      refl
      (on_state-approvals world config swept (collect_state world.answers swept world.now) h
        ∙ sweep-approvals world tables)

-- A tick whose release GitHub refuses, and the retries of a later tick that complete the release,
-- leave every approval as it was: the approval that let the tag be made is consumed by neither.
pub retried_release-approvals :
    (first second : World) (config : Config) (paused_until : ℕ) (tables : Tables)
    → ((tag : String) → first.create_release tag ≡ false)
    → (sweep_fire_pending_rows second (tick first config paused_until tables).tables).approvals
      ≡ tables.approvals
retried_release-approvals first second config paused_until tables h =
    sweep-approvals second (tick first config paused_until tables).tables
    ∙ tick-approvals first config paused_until tables h
