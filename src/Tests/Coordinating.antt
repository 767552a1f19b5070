-- ===== src/Tests/Coordinating.antt =====
-- The table of active work of packages/core/src, and a termination, on two runs that share a file.
use urateam.Prelude.{◌≡◌, ◌↔◌, refl, String, true, false, none, some, List, [], ◌∷◌, In, includes}
use urateam.Pm.Runs.{PipelineRun, running}
use urateam.Pm.Coordination.{ActiveWork, Entry, upsert_row, check_file_overlap, scan, push_new}
use urateam.Pm.Coordination.Overlaps.{Others, check_file_overlap_lem}
use urateam.Pipeline.Terminate.{find_run, terminate_run}
use urateam.Pipeline.Terminate.Effects.{has_ended, GoesOn, IsGone, terminate_run_lem}

abbrev entry : Entry
entry = record {
  run_id = "p1";
  issue_id = "BEC-1";
  stage = "implement";
  files_modified = some ("src/a.ts" ∷ "src/b.ts" ∷ []);
}

abbrev work : List ActiveWork
work = upsert_row 10 entry []

overlaps : check_file_overlap (some work) "p2" ("src/b.ts" ∷ "src/c.ts" ∷ []) ≡ (record {
  has_overlap = true;
  overlapping_files = "src/b.ts" ∷ [];
  conflicting_run_ids = "p1" ∷ [];
})
unfolding check_file_overlap scan push_new upsert_row includes
overlaps = refl

check_file_overlap_lem_example :
    let result = check_file_overlap (some work) "p2" ("src/b.ts" ∷ []) in
    ((x : String)
      → In x result.overlapping_files
        ↔ (In x ("src/b.ts" ∷ []) × ((id : String) × Others work "p2" id x)))
    × ((id : String)
        → In id result.conflicting_run_ids
          ↔ ((x : String) × In x ("src/b.ts" ∷ []) × Others work "p2" id x))
    × ((result.has_overlap ≡ true)
        ↔ ((x : String) × In x ("src/b.ts" ∷ []) × ((id : String) × Others work "p2" id x)))
check_file_overlap_lem_example = check_file_overlap_lem work "p2" ("src/b.ts" ∷ [])

abbrev runs : List PipelineRun
runs =
    record {
      id = "p1";
      issue_id = "BEC-1";
      repo_url = "r";
      status = running;
      started_at = 1000;
      completed_at = none;
      total_input_tokens = 30;
      total_output_tokens = 10;
      error_message = none;
      retry_count = 0;
      pr_url = none;
      auto_merged = false;
      linear_team_id = some "t";
    }
    ∷ []

ends : has_ended (terminate_run true 99 "p1" runs work).answer ≡ true
unfolding terminate_run find_run
ends = refl

terminate_run_lem_example :
    let t = terminate_run true 99 "p1" runs work in
    ((has_ended t.answer ≡ true) ↔ GoesOn 99 "p1" runs work)
    × ((has_ended t.answer ≡ true) → IsGone 99 "p1" runs work t)
    × ((has_ended t.answer ≡ false) → (t.runs ≡ runs) × (t.work ≡ work))
terminate_run_lem_example = terminate_run_lem 99 "p1" runs work
