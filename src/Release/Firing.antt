-- ===== src/Release/Firing.antt =====
-- When release-manager/decide.ts fires a release, and when it asks for an approval.
use urateam.Prelude.{
  ℕ, ◌+◌, ◌*◌, ◌≤◌, ◌≡◌, refl, ◌≢◌, ◌↔◌, String, true, false, Option, none, some, arith, eq_iff,
  some-eq,
}
use urateam.Release.{
  QaCheckConfig, QaRunSnapshot, ReleaseManagerTriggers, CiStatus, green, not_green, unavailable,
  CollectedState,
}
use urateam.Release.Triggers.{
  Reason, TriggerResult, no_fresh_approval, eval_merged_prs_since, eval_time_since_last_hours,
  eval_ci_green_for_minutes, eval_require_slack_approval, eval_qa_check, qa_tracked, qa_outcome,
}
use urateam.Release.Decide.{
  DecideQaState, DecisionResult, fire, skip, awaiting_approval, guarded, qa_result, qa_guarded,
  approval_step, decide,
}

-- The condition of a trigger, where it is configured.
abbrev pub Met : {A : Type 0} → Option A → (A → Type 0) → Type 0
Met none P = Unit
Met (some a) P = P a

-- No tag yet, or the last one is at least so many hours old.
abbrev Rested : Option ℕ → ℕ → ℕ → Type 0
Rested none now hours = Unit
Rested (some last) now hours = last + hours * 3600000 ≤ now

-- The checks are green, and have been for at least so many minutes.
abbrev pub GreenFor : CiStatus → Option ℕ → ℕ → ℕ → Type 0
GreenFor status green_since now minutes =
    (status ≡ green) × ((since : ℕ) × (green_since ≡ some since) × (since + minutes * 60000 ≤ now))

-- The workflow exists, and its run for the head commit ended with "success".
abbrev QaPassed : String → Option QaRunSnapshot → Option DecideQaState → Type 0
QaPassed head_sha qa_run qa_state =
    (qa : DecideQaState) × (qa_state ≡ some qa)
    × (qa.workflow_file_exists ≡ true)
    × (qa.run_conclusion ≡ some "success")
    × ((run : QaRunSnapshot) × (qa_run ≡ some run) × (run.run_sha ≡ head_sha))

-- All triggers but the approval.
abbrev pub Ready : CollectedState → ReleaseManagerTriggers → ℕ → Option DecideQaState → Type 0
Ready state triggers now qa_state =
    Met triggers.merged_prs_since (λ n. n ≤ state.merged_commits_since_last_tag)
    × Met triggers.time_since_last_hours (Rested state.last_tag_at now)
    × Met triggers.ci_green_for_minutes (GreenFor state.ci_status state.ci_green_since now)
    × Met triggers.qa_check (λ _. QaPassed state.head_sha state.qa_run qa_state)

Rested-iff :
    (last : Option ℕ) (hours now : ℕ)
    → ((eval_time_since_last_hours last hours now).pass ≡ true) ↔ Rested last now hours
unfolding eval_time_since_last_hours
Rested-iff none hours now = (λ _. tt, λ _. refl)
Rested-iff (some last) hours now = ground arith

green_iff :
    (status : CiStatus) (green_since : Option ℕ) (minutes now : ℕ)
    → ((eval_ci_green_for_minutes status green_since minutes now).pass ≡ true)
      ↔ GreenFor status green_since now minutes
unfolding eval_ci_green_for_minutes
green_iff unavailable green_since minutes now = ground arith
green_iff not_green green_since minutes now = ground arith
green_iff green none minutes now = ground arith
green_iff green (some since) minutes now = ground arith

outcome_iff :
    (config : QaCheckConfig) (run : QaRunSnapshot) (conclusion : Option String) (now : ℕ)
    → ((qa_outcome config run conclusion now).pass ≡ true) ↔ (conclusion ≡ some "success")
outcome_iff config run none now = ground arith
outcome_iff config run (some c) now = ground (arith, eq_iff c "success")

tracked_iff :
    (config : QaCheckConfig) (head_sha : String) (qa_run : Option QaRunSnapshot)
    (conclusion : Option String) (now : ℕ)
    → ((qa_tracked config head_sha qa_run conclusion now).pass ≡ true) ↔ (
        (conclusion ≡ some "success")
        × ((run : QaRunSnapshot) × (qa_run ≡ some run) × (run.run_sha ≡ head_sha)))
tracked_iff config head_sha none conclusion now = ground arith
tracked_iff config head_sha (some run) conclusion now =
    let same = eq_iff run.run_sha head_sha in
    let ended = outcome_iff config run conclusion now in
    (
      λ h. (ground (arith, same, ended), (run, refl, ground (arith, same, ended))),
      λ (c, (v, e, i)). ground (arith, same, ended, some-eq e),
    )

qa_iff :
    (state : CollectedState) (qa_state : Option DecideQaState) (now : ℕ) (config : QaCheckConfig)
    → ((qa_result state qa_state now config).pass ≡ true)
      ↔ QaPassed state.head_sha state.qa_run qa_state
unfolding qa_result eval_qa_check
qa_iff state none now config = ground arith
qa_iff state (some qa) now config =
    ground (arith, tracked_iff config state.head_sha state.qa_run qa.run_conclusion now)

-- A decision that is not a skip passes the guard.
module _ {A : Type 0} (eval : A → TriggerResult) (P : A → Type 0)
    (e : (a : A) → ((eval a).pass ≡ true) ↔ P a) (rest d : DecisionResult)
    (unskipped : (r : Reason) (a : Option Reason) → d ≢ skip r a) where
  guarded_iff : (o : Option A) → (guarded o eval rest ≡ d) ↔ (Met o P × (rest ≡ d))
  guarded_iff none = (λ h. (tt, h), λ h. h.1)
  guarded_iff (some a) = ground (arith, e a, unskipped (eval a).reason none)

module _ (state : CollectedState) (triggers : ReleaseManagerTriggers) (now : ℕ)
    (qa_state : Option DecideQaState) (d : DecisionResult)
    (unskipped : (r : Reason) (a : Option Reason) → d ≢ skip r a) where
  qa_guarded_iff :
      (o : Option QaCheckConfig) (rest : DecisionResult)
      → (qa_guarded o (qa_result state qa_state now) rest ≡ d)
        ↔ (Met o (λ _. QaPassed state.head_sha state.qa_run qa_state) × (rest ≡ d))
  qa_guarded_iff none rest = (λ h. (tt, h), λ h. h.1)
  qa_guarded_iff (some config) rest =
      let result = qa_result state qa_state now config in
      ground (arith, qa_iff state qa_state now config, unskipped result.reason (some result.reason))

  -- A decision that is no skip comes from the approval step, with all the other triggers met.
  decide-unskipped : (decide state triggers now qa_state ≡ d) ↔ (
      Ready state triggers now qa_state × (approval_step state triggers.require_slack_approval ≡ d))
  unfolding decide eval_merged_prs_since
  decide-unskipped =
      let last = approval_step state triggers.require_slack_approval in
      let qa = qa_guarded triggers.qa_check (qa_result state qa_state now) last in
      let ci =
        guarded triggers.ci_green_for_minutes
          (λ minutes. eval_ci_green_for_minutes state.ci_status state.ci_green_since minutes now)
          qa in
      let time =
        guarded triggers.time_since_last_hours
          (λ hours. eval_time_since_last_hours state.last_tag_at hours now) ci in
      let (a, a') =
        guarded_iff _ (λ n. n ≤ state.merged_commits_since_last_tag) (λ n. ground arith) time d
          unskipped triggers.merged_prs_since in
      let (b, b') =
        guarded_iff _ (Rested state.last_tag_at now)
          (λ hours. Rested-iff state.last_tag_at hours now) ci d unskipped
          triggers.time_since_last_hours in
      let (c, c') =
        guarded_iff _ (GreenFor state.ci_status state.ci_green_since now)
          (λ minutes. green_iff state.ci_status state.ci_green_since minutes now) qa d unskipped
          triggers.ci_green_for_minutes in
      let (e, e') = qa_guarded_iff triggers.qa_check last in
      (
        λ h.
            let (m, h1) = a h in
            let (t, h2) = b h1 in let (g, h3) = c h2 in let (q, h4) = e h3 in ((m, t, g, q), h4),
        λ ((m, t, g, q), h). a' (m, b' (t, c' (g, e' (q, h)))),
      )

fire-unskipped : (r : Reason) (a : Option Reason) → fire ≢ skip r a
fire-unskipped r a h = cc

await-unskipped : (why r : Reason) (a : Option Reason) → awaiting_approval why ≢ skip r a
await-unskipped why r a h = cc

-- A release fires exactly when every configured trigger is met: enough commits since the last tag, a
-- last tag that is old enough, checks that have been green for long enough, a QA run for the head
-- commit that ended with success, and a fresh approval where one is required.
pub decide_fires_iff :
    (state : CollectedState) (triggers : ReleaseManagerTriggers) (now : ℕ)
    (qa_state : Option DecideQaState)
    → (decide state triggers now qa_state ≡ fire) ↔ (
        Ready state triggers now qa_state
        × (triggers.require_slack_approval ≡ true → state.has_fresh_approval ≡ true))
unfolding approval_step eval_require_slack_approval
decide_fires_iff state triggers now qa_state =
    let (to, from) = decide-unskipped state triggers now qa_state fire fire-unskipped in
    (
      λ h. let (ready, last) = to h in (ready, ground arith),
      λ (ready, approved). from (ready, ground arith),
    )

-- The decision waits for an approval exactly when the approval is the only configured trigger that
-- is not met.
decide_awaits_iff :
    (state : CollectedState) (triggers : ReleaseManagerTriggers) (now : ℕ)
    (qa_state : Option DecideQaState)
    → (decide state triggers now qa_state ≡ awaiting_approval no_fresh_approval) ↔ (
        Ready state triggers now qa_state
        × (triggers.require_slack_approval ≡ true)
        × (state.has_fresh_approval ≡ false))
unfolding approval_step eval_require_slack_approval
decide_awaits_iff state triggers now qa_state =
    let (to, from) =
      decide-unskipped state triggers now qa_state (awaiting_approval no_fresh_approval)
        (await-unskipped no_fresh_approval) in
    (
      λ h. let (ready, last) = to h in (ready, ground arith, ground arith),
      λ (ready, required, stale). from (ready, ground arith),
    )

Rested-later :
    (last : Option ℕ) (now later hours : ℕ)
    → now ≤ later
    → Rested last now hours
    → Rested last later hours
Rested-later none now later hours le h = tt
Rested-later (some last) now later hours le h = omega (arith, le, h)

Met-imp : {A : Type 0} (o : Option A) (P Q : A → Type 0) → ((a : A) → P a → Q a) → Met o P → Met o Q
Met-imp none P Q f h = tt
Met-imp (some a) P Q f h = f a h

-- A release that would fire still fires later, while nothing but the time changes.
decide_fires_later :
    (state : CollectedState) (triggers : ReleaseManagerTriggers) (now later : ℕ)
    (qa_state : Option DecideQaState)
    → now ≤ later
    → decide state triggers now qa_state ≡ fire
    → decide state triggers later qa_state ≡ fire
decide_fires_later state triggers now later qa_state le h =
    let ((m, t, g, q), approved) = (decide_fires_iff state triggers now qa_state).0 h in
    let t' =
      Met-imp triggers.time_since_last_hours _ (Rested state.last_tag_at later)
        (λ hours r. Rested-later state.last_tag_at now later hours le r) t in
    let g' =
      Met-imp triggers.ci_green_for_minutes _ (GreenFor state.ci_status state.ci_green_since later)
        (λ minutes (s, (since, found, r)). (s, (since, found, omega (arith, le, r)))) g in
    (decide_fires_iff state triggers later qa_state).1 ((m, t', g', q), approved)
