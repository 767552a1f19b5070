-- ===== src/Release/State/Checks.antt =====
-- What release-manager/state.ts and decide.ts together make of the check runs of the head commit.
use urateam.Prelude.{
  ℕ, ◌+◌, ◌*◌, ◌≤◌, ◌≡◌, sym, inl, inr, String, true, Option, none, some, List, [], ◌∷◌, arith, all,
  All, Bool-cases, str_eq, eq_iff, or_else, subst, and_iff,
}
use urateam.Release.{ReleaseManagerTriggers, green}
use urateam.Release.Decide.{DecideQaState, decide, fire}
use urateam.Release.Firing.{GreenFor, Met, decide_fires_iff}
use urateam.Release.State.{
  CheckRun, Answers, Tables, latest_completed, later_of, is_completed, is_success, ci_of_runs,
  ci_status_of, collected,
}

abbrev AtMost : Option ℕ → ℕ → Type 0
AtMost none u = Unit
AtMost (some t) u = t ≤ u

-- The run is completed with success, by the time at the latest where the time is known.
abbrev pub SucceededBy : ℕ → CheckRun → Type 0
SucceededBy time r =
    (r.status ≡ "completed") × (r.conclusion ≡ some "success") × AtMost r.completed_at time

later_of-AtMost : (a b : Option ℕ) (u : ℕ) → AtMost (later_of a b) u → AtMost a u × AtMost b u
later_of-AtMost none b u h = (tt, h)
later_of-AtMost (some t) none u h = (h, tt)
later_of-AtMost (some t) (some v) u h = ground arith

success_iff : (c : Option String) → str_eq (or_else c "") "success" ≡ true → c ≡ some "success"
success_iff none h = ground arith
success_iff (some c) h = ground (arith, eq_iff c "success")

runs-SucceededBy :
    (runs : List CheckRun) (u : ℕ)
    → all is_completed runs ≡ true
    → all is_success runs ≡ true
    → AtMost (latest_completed runs) u
    → All (SucceededBy u) runs
unfolding latest_completed
runs-SucceededBy [] u c s h = tt
runs-SucceededBy (r ∷ runs) u c s h =
    let (now, rest) = later_of-AtMost r.completed_at (latest_completed runs) u h in
    let (c0, c1) = (and_iff (is_completed r) (all is_completed runs)).0 c in
    let (s0, s1) = (and_iff (is_success r) (all is_success runs)).0 s in
    (
      ((eq_iff r.status "completed").0 c0, success_iff r.conclusion s0, now),
      runs-SucceededBy runs u c1 s1 rest,
    )

green_runs :
    (runs : List CheckRun) (u : ℕ)
    → (ci_of_runs runs).0 ≡ green
    → (ci_of_runs runs).1 ≡ some u
    → All (SucceededBy u) runs
unfolding ci_of_runs
green_runs [] u g e = tt
green_runs (r ∷ runs) u g e = elim (Bool-cases (all is_completed (r ∷ runs))) [
  | inl c ↦ elim (Bool-cases (all is_success (r ∷ runs))) [
    | inl s ↦
        runs-SucceededBy (r ∷ runs) u c s
          (subst (λ o. AtMost o u) (sym (rw (c, s) at e)) (omega arith))
    | inr s ↦ cc (rw (c, s) at g)
  ]
  | inr c ↦ cc (rw c at g)
]

-- If a release fires on the state that is collected, under a trigger on green checks, and GitHub lists
-- the check runs of the head commit, then each is completed with success and, where its time is known,
-- at least as many minutes ago as the trigger asks for.
pub fire-checks :
    (answers : Answers) (tables : Tables) (now minutes : ℕ) (head_sha : String)
    (triggers : ReleaseManagerTriggers) (qa_state : Option DecideQaState) (runs : List CheckRun)
    → decide (collected answers tables now head_sha) triggers now qa_state ≡ fire
    → triggers.ci_green_for_minutes ≡ some minutes
    → answers.check_runs ≡ some runs
    → (since : ℕ) × All (SucceededBy since) runs × (since + minutes * 60000 ≤ now)
unfolding collected
fire-checks answers tables now minutes head_sha triggers qa_state runs fires asked listed =
    let ((m, t, g, q), approved) =
      (decide_fires_iff (collected answers tables now head_sha) triggers now qa_state).0 fires in
    let (status, (since, found, le)) =
      subst
        (λ o.
          Met o
            (GreenFor (ci_status_of answers.check_runs).0 (ci_status_of answers.check_runs).1 now))
        asked g in
    (since, green_runs runs since (rw listed at status) (rw listed at found), le)
