-- ===== src/Pm/Coordination.antt =====
-- pm/coordination.ts: the table `active_work` and the overlap of the files of two runs. The id of a row is
-- that of its run. `getModifiedFiles`, which parses the output of git, is not modelled.
pub mod Scan
pub mod Overlaps
use urateam.Prelude.{
  ℕ, String, Bool, true, false, ◌&&◌, not, Option, none, some, List, [], ◌∷◌, ◌++◌, is_empty,
  if◌then◌else◌, filter, str_eq, includes,
}

-- The column `files_modified`: null, text that is no JSON, or a list, the only JSON that
-- `upsert_active_work` writes.
pub data StoredFiles : Type 0 where
  null malformed : StoredFiles
  listed : List String → StoredFiles

pub record ActiveWork : Type 0 where
  pub run_id : String
  pub issue_id : String
  pub stage : String
  pub files_modified : StoredFiles
  pub started_at : ℕ
  pub updated_at : ℕ

pub record Entry : Type 0 where
  pub run_id : String
  pub issue_id : String
  pub stage : String
  pub files_modified : Option (List String)

pub record FileOverlapResult : Type 0 where
  pub has_overlap : Bool
  pub overlapping_files : List String
  pub conflicting_run_ids : List String

abbrev pub stored : Option (List String) → StoredFiles
stored none = null
stored (some fs) = listed fs

-- On a conflict the issue and the start stay.
unfoldable pub upsert_row : (now : ℕ) → Entry → List ActiveWork → List ActiveWork
upsert_row now entry [] =
    record {
      run_id = entry.run_id;
      issue_id = entry.issue_id;
      stage = entry.stage;
      files_modified = stored entry.files_modified;
      started_at = now;
      updated_at = now;
    }
    ∷ []
upsert_row now entry (row ∷ rows) =
    let rest = upsert_row now entry rows in
    if str_eq row.run_id entry.run_id
    then record row {
      stage = entry.stage;
      files_modified = stored entry.files_modified;
      updated_at = now;
    }
      ∷ rows
    else row ∷ rest

-- A statement that throws is logged, and the table stays as it is.
abbrev pub upsert_active_work :
    (succeeds : Bool) (now : ℕ) → Entry → List ActiveWork → List ActiveWork
upsert_active_work succeeds now entry rows = if succeeds then upsert_row now entry rows else rows

unfoldable pub remove_active_work :
    (succeeds : Bool) (run_id : String) → List ActiveWork → List ActiveWork
remove_active_work succeeds run_id rows =
    if succeeds then filter (λ r. not (str_eq r.run_id run_id)) rows else rows

-- The parsed files of a row; a row that is no JSON is passed over.
abbrev pub parsed : StoredFiles → List String
parsed null = []
parsed malformed = []
parsed (listed fs) = fs

unfoldable pub push_new : (overlap overlapping : List String) → List String
push_new [] overlapping = overlapping
push_new (f ∷ overlap) overlapping =
    push_new overlap (if includes overlapping f then overlapping else overlapping ++ f ∷ [])

abbrev pub overlap_of : (files : List String) → ActiveWork → List String
overlap_of files row = filter (λ f. includes files f) (parsed row.files_modified)

-- A row with some overlap is recorded.
abbrev pub record_overlap :
    (overlap : List String) (run_id : String) → FileOverlapResult → FileOverlapResult
record_overlap [] run_id result = result
record_overlap (f ∷ overlap) run_id result = record result {
  overlapping_files = push_new (f ∷ overlap) result.overlapping_files;
  conflicting_run_ids = result.conflicting_run_ids ++ run_id ∷ [];
}

unfoldable pub scan :
    (files : List String) → List ActiveWork → FileOverlapResult → FileOverlapResult
unfolding push_new
scan files [] result = result
scan files (row ∷ others) result =
    scan files others (record_overlap (overlap_of files row) row.run_id result)

abbrev pub no_overlap : FileOverlapResult
no_overlap = record { has_overlap = false; overlapping_files = []; conflicting_run_ids = [] }

abbrev pub has_files : StoredFiles → Bool
has_files null = false
has_files malformed = true
has_files (listed fs) = true

abbrev pub is_other : (run_id : String) → ActiveWork → Bool
is_other run_id row = not (str_eq row.run_id run_id) && has_files row.files_modified

abbrev pub concluded : FileOverlapResult → FileOverlapResult
concluded r = record r { has_overlap = not (is_empty r.overlapping_files) }

-- The table, or `none` where the query throws.
unfoldable pub check_file_overlap :
    Option (List ActiveWork) → (run_id : String) (files : List String) → FileOverlapResult
unfolding scan
check_file_overlap rows run_id [] = no_overlap
check_file_overlap none run_id (f ∷ fs) = no_overlap
check_file_overlap (some rows) run_id (f ∷ fs) =
    concluded (scan (f ∷ fs) (filter (is_other run_id) rows) no_overlap)
