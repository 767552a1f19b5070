-- ===== src/Pipeline/Terminate/Effects.antt =====
-- What a termination changes.
use urateam.Prelude.{
  ℕ, ◌≡◌, ◌≢◌, refl, sym, ap, ◌∙◌, ◌↔◌, inl, inr, String, Bool, true, false, not, Option, none,
  some, List, [], ◌∷◌, arith, if◌then◌else◌, map, In, Bool-cases, subst, str_eq, eq_iff, In-filter,
  some-eq,
}
use urateam.Pm.Runs.{failed, PipelineRun}
use urateam.Pm.Coordination.{ActiveWork, remove_active_work, check_file_overlap}
use urateam.Pm.Coordination.Overlaps.{check_file_overlap_lem}
use urateam.Pipeline.Terminate.{
  Answer, terminated, threw, Terminated, is_terminal, find_run, failed_by_hand, terminate_found,
  terminate_run,
}

remove-In :
    (run_id : String) (row : ActiveWork) (work : List ActiveWork)
    → In row (remove_active_work true run_id work)
    → row.run_id ≢ run_id
unfolding remove_active_work
remove-In run_id row work i e =
    let (found, other) = In-filter (λ r. not (str_eq r.run_id run_id)) row work i in
    ground (arith, eq_iff row.run_id run_id)

failed_by_hand-id :
    (now : ℕ) (run_id : String) (r : PipelineRun) → (failed_by_hand now run_id r).id ≡ r.id
failed_by_hand-id now run_id r = elim (Bool-cases (str_eq r.id run_id)) [
  | inl s ↦ rw s refl
  | inr s ↦ rw s refl
]

if_true : {A : Type 0} (b : Bool) (x y : A) → b ≡ true → (if b then x else y) ≡ x
if_true b x y e = rw e refl

if_false : {A : Type 0} (b : Bool) (x y : A) → b ≡ false → (if b then x else y) ≡ y
if_false b x y e = rw e refl

find_run-failed :
    (now : ℕ) (run_id : String) (runs : List PipelineRun) (run : PipelineRun)
    → find_run run_id runs ≡ some run
    → find_run run_id (map (failed_by_hand now run_id) runs) ≡ some (failed_by_hand now run_id run)
unfolding find_run
find_run-failed now run_id [] run e = cc
find_run-failed now run_id (r ∷ runs) run e =
    let same = ap (λ i. str_eq i run_id) (failed_by_hand-id now run_id r) in
    elim (Bool-cases (str_eq r.id run_id)) [
      | inl s ↦
          if_true (str_eq (failed_by_hand now run_id r).id run_id) _ _ (same ∙ s)
          ∙ ap (λ q. some (failed_by_hand now run_id q)) (some-eq (rw s at e))
      | inr s ↦
          if_false (str_eq (failed_by_hand now run_id r).id run_id) _ _ (same ∙ s)
          ∙ find_run-failed now run_id runs run (rw s at e)
    ]

find_run-id :
    (run_id : String) (runs : List PipelineRun) (run : PipelineRun)
    → find_run run_id runs ≡ some run
    → str_eq run.id run_id ≡ true
unfolding find_run
find_run-id run_id [] run e = cc
find_run-id run_id (r ∷ runs) run e = elim (Bool-cases (str_eq r.id run_id)) [
  | inl s ↦ subst (λ q. str_eq q.id run_id ≡ true) (some-eq (rw s at e)) s
  | inr s ↦ find_run-id run_id runs run (rw s at e)
]

abbrev pub has_ended : Answer → Bool
has_ended (terminated result) = true
has_ended (threw error) = false

module _ (now : ℕ) (run_id : String) (runs : List PipelineRun) (work : List ActiveWork) where
  -- The run that is found goes on.
  abbrev pub GoesOn : Type 0
  GoesOn =
      (run : PipelineRun) × (find_run run_id runs ≡ some run) × (is_terminal run.status ≡ false)

  -- The run is failed, and no other run is told of a conflict with it.
  abbrev pub IsGone : Terminated → Type 0
  IsGone t =
      ((run : PipelineRun) × (find_run run_id t.runs ≡ some run) × (run.status ≡ failed))
      × ((other : String) (files : List String)
          → ¬ In run_id (check_file_overlap (some t.work) other files).conflicting_run_ids)

  failed-status :
      (run : PipelineRun)
      → str_eq run.id run_id ≡ true
      → (failed_by_hand now run_id run).status ≡ failed
  failed-status run e = rw e refl

  removed-IsGone :
      (other : String) (files : List String)
      → let left = remove_active_work true run_id work in
        ¬ In run_id (check_file_overlap (some left) other files).conflicting_run_ids
  removed-IsGone other files i =
      let (_, told, _) = check_file_overlap_lem (remove_active_work true run_id work) other files in
      let (x, asked, (row, found, same, differ, has)) = (told run_id).0 i in
      remove-In run_id row work found same

  terminate_found-lem :
      (o : Option PipelineRun)
      → find_run run_id runs ≡ o
      → let t = terminate_found true now run_id o runs work in
        ((has_ended t.answer ≡ true) ↔ GoesOn)
        × ((has_ended t.answer ≡ true) → IsGone t)
        × ((has_ended t.answer ≡ false) → (t.runs ≡ runs) × (t.work ≡ work))
  terminate_found-lem none e = ((λ h. cc, λ (run, f, g). cc), λ h. cc, λ h. (refl, refl))
  terminate_found-lem (some run) e = elim (Bool-cases (is_terminal run.status)) [
    | inl t ↦ rw t (
      (λ h. cc, λ (r, f, g). cc (sym t ∙ ap (λ q. is_terminal q.status) (some-eq (sym e ∙ f)) ∙ g)),
      λ h. cc,
      λ h. (refl, refl),
    )
    | inr t ↦ rw t (
      (λ h. (run, e, t), λ goes. refl),
      λ h. (
        (
          failed_by_hand now run_id run,
          find_run-failed now run_id runs run e,
          failed-status run (find_run-id run_id runs run e),
        ),
        removed-IsGone,
      ),
      λ h. cc,
    )
  ]

-- Where the active work is removed, a termination succeeds exactly for a run that exists and is neither
-- completed nor aborted. That run is failed afterwards, and no other run is told of a conflict with it;
-- a termination that throws changes nothing.
pub terminate_run_lem :
    (now : ℕ) (run_id : String) (runs : List PipelineRun) (work : List ActiveWork)
    → let t = terminate_run true now run_id runs work in
      ((has_ended t.answer ≡ true) ↔ GoesOn now run_id runs work)
      × ((has_ended t.answer ≡ true) → IsGone now run_id runs work t)
      × ((has_ended t.answer ≡ false) → (t.runs ≡ runs) × (t.work ≡ work))
unfolding terminate_run
terminate_run_lem now run_id runs work =
    terminate_found-lem now run_id runs work (find_run run_id runs) refl
