-- ===== src/Pm/Runs/Failures.antt =====
-- The batch query against the query for one issue.
use mathlib.Core.List.{append-nil, append_assoc}
use urateam.Prelude.{
  includes_iff, In, ℕ, String, true, ◌&&◌, ◌≡◌, refl, ap, ◌∙◌, sym, none, some, List, [], ◌∷◌, ◌++◌,
  arith, if◌then◌else◌, str_eq, eq_iff, includes, Assoc, lookup, insert, lookup-insert, Bool-cases,
  inl, inr,
}
use urateam.Pm.Runs.{
  count_of, PipelineRun, PipelineRunStatus, is_terminal, terminal_of, bucket_of, group_rows,
  count_buckets, count_leading_failures, count_consecutive_failures,
  batch_count_consecutive_failures,
}

-- What one row adds to the bucket of an issue.
abbrev one : String → PipelineRun → List PipelineRunStatus
one issue_id run =
    if str_eq run.issue_id issue_id && is_terminal run.status then run.status ∷ [] else []

terminal_of-cons :
    (issue_id : String) (run : PipelineRun) (runs : List PipelineRun)
    → terminal_of issue_id (run ∷ runs) ≡ one issue_id run ++ terminal_of issue_id runs
unfolding terminal_of
terminal_of-cons issue_id run runs = ground arith

module _ (issue_ids : List String) (issue_id : String) where
  -- The buckets after one row.
  abbrev grouped : PipelineRun → Assoc (List PipelineRunStatus) → Assoc (List PipelineRunStatus)
  grouped run by_issue =
      if includes issue_ids run.issue_id && is_terminal run.status
      then insert run.issue_id (bucket_of run.issue_id by_issue ++ run.status ∷ []) by_issue
      else by_issue

  grouped-bucket :
      (run : PipelineRun) (by_issue : Assoc (List PipelineRunStatus))
      → includes issue_ids issue_id ≡ true
      → bucket_of issue_id (grouped run by_issue) ≡ bucket_of issue_id by_issue ++ one issue_id run
  grouped-bucket run by_issue h = ground (
    arith,
    append-nil (bucket_of issue_id by_issue),
    eq_iff run.issue_id issue_id,
    lookup-insert run.issue_id issue_id (bucket_of run.issue_id by_issue ++ run.status ∷ [])
        by_issue,
  )

  group_rows-bucket :
      (runs : List PipelineRun) (by_issue : Assoc (List PipelineRunStatus))
      → includes issue_ids issue_id ≡ true
      → bucket_of issue_id (group_rows issue_ids runs by_issue)
        ≡ bucket_of issue_id by_issue ++ terminal_of issue_id runs
  unfolding group_rows terminal_of
  group_rows-bucket [] by_issue h = sym (append-nil _)
  group_rows-bucket (run ∷ runs) by_issue h =
      group_rows-bucket runs (grouped run by_issue) h
      ∙ ap (λ b. b ++ terminal_of issue_id runs) (grouped-bucket run by_issue h)
      ∙ append_assoc (bucket_of issue_id by_issue) (one issue_id run) (terminal_of issue_id runs)
      ∙ ap (λ t. bucket_of issue_id by_issue ++ t) (sym (terminal_of-cons issue_id run runs))

module _ (by_issue : Assoc (List PipelineRunStatus)) (issue_id : String) where
  count_buckets-lookup :
      (issue_ids : List String) (result : Assoc ℕ)
      → lookup issue_id (count_buckets issue_ids by_issue result) ≡ (
          if includes issue_ids issue_id
          then some (count_leading_failures (bucket_of issue_id by_issue))
          else lookup issue_id result)
  unfolding count_buckets includes
  count_buckets-lookup [] result = refl
  count_buckets-lookup (i ∷ issue_ids) result = ground (
    arith,
    count_buckets-lookup issue_ids
        (insert i (count_leading_failures (bucket_of i by_issue)) result),
    lookup-insert i issue_id (count_leading_failures (bucket_of i by_issue)) result,
    eq_iff i issue_id,
  )

-- The batch query holds a count for each issue that is asked for and for no other, and the count is
-- that of the query for one issue.
pub batch_count_lem :
    (runs : List PipelineRun) (issue_ids : List String) (issue_id : String)
    → lookup issue_id (batch_count_consecutive_failures runs issue_ids) ≡ (
        if includes issue_ids issue_id
        then some (count_consecutive_failures runs issue_id)
        else none)
unfolding batch_count_consecutive_failures count_consecutive_failures lookup includes
batch_count_lem runs [] issue_id = refl
batch_count_lem runs (i ∷ issue_ids) issue_id =
    let buckets = group_rows (i ∷ issue_ids) runs [] in
    count_buckets-lookup buckets issue_id (i ∷ issue_ids) []
    ∙ elim (Bool-cases (includes (i ∷ issue_ids) issue_id)) [
      | inr f ↦ rw f refl
      | inl t ↦ rw t (
          ap (λ b. some (count_leading_failures b))
            (group_rows-bucket (i ∷ issue_ids) issue_id runs [] t))
    ]

-- The batch has the count of each issue that was asked for.
pub count_of_lem :
    (runs : List PipelineRun) (ids : List String) (issue_id : String)
    → In issue_id ids
    → count_of (batch_count_consecutive_failures runs ids) issue_id
      ≡ count_consecutive_failures runs issue_id
count_of_lem runs ids issue_id h =
    ground (arith, batch_count_lem runs ids issue_id, (includes_iff ids issue_id).1 h)
