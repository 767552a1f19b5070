-- ===== src/Pipeline/Terminate.antt =====
-- pipeline/terminate.ts: `terminateRun`, on the tables of runs and of active work.
pub mod Effects
use urateam.Prelude.{
  ℕ, String, Bool, true, false, ◌||◌, Option, none, some, List, [], ◌∷◌, map, if◌then◌else◌, str_eq,
}
use urateam.Pm.Runs.{PipelineRunStatus, completed, aborted, failed, PipelineRun}
use urateam.Pm.Coordination.{ActiveWork, remove_active_work}

pub record TerminateRunResult : Type 0 where
  pub run_id : String
  pub issue_id : String
  pub previous_status : PipelineRunStatus

-- What is thrown.
pub data TerminateError : Type 0 where
  not_found : TerminateError
  already_ended : PipelineRunStatus → TerminateError

pub data Answer : Type 0 where
  terminated : TerminateRunResult → Answer
  threw : TerminateError → Answer

pub record Terminated : Type 0 where
  pub runs : List PipelineRun
  pub work : List ActiveWork
  pub answer : Answer

abbrev pub is_terminal : PipelineRunStatus → Bool
is_terminal completed = true
is_terminal aborted = true
is_terminal _ = false

unfoldable pub find_run : String → List PipelineRun → Option PipelineRun
find_run run_id [] = none
find_run run_id (run ∷ runs) =
    let later = find_run run_id runs in if str_eq run.id run_id then some run else later

abbrev pub failed_by_hand : (now : ℕ) (run_id : String) → PipelineRun → PipelineRun
failed_by_hand now run_id run =
    if str_eq run.id run_id
    then record run {
      status = failed;
      error_message = some "manually terminated via CLI";
      completed_at = some now;
    }
    else run

-- `is_removed` is whether the deletion of the active work succeeds.
abbrev pub terminate_found :
    (is_removed : Bool) (now : ℕ) (run_id : String)
    → Option PipelineRun
    → List PipelineRun
    → List ActiveWork
    → Terminated
terminate_found is_removed now run_id none runs work = record {
  runs = runs;
  work = work;
  answer = threw not_found;
}
terminate_found is_removed now run_id (some run) runs work =
    if is_terminal run.status
    then record { runs = runs; work = work; answer = threw (already_ended run.status) }
    else record {
      runs = map (failed_by_hand now run_id) runs;
      work = remove_active_work is_removed run_id work;
      answer =
          terminated
            (record { run_id = run_id; issue_id = run.issue_id; previous_status = run.status });
    }

unfoldable pub terminate_run :
    (is_removed : Bool) (now : ℕ) (run_id : String)
    → List PipelineRun
    → List ActiveWork
    → Terminated
unfolding find_run remove_active_work
terminate_run is_removed now run_id runs work =
    terminate_found is_removed now run_id (find_run run_id runs) runs work
