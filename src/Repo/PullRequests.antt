-- ===== src/Repo/PullRequests.antt =====
-- repo/github.ts: the approvals, the checks and the merge of a pull request. What GitHub answers is
-- an argument.
pub mod Approvals
use Prim.Native.String
use urateam.Prelude.{
  ℕ, suc, String, Bool, true, false, Option, none, some, List, [], ◌∷◌, ◌==◌, if◌then◌else◌,
  or_else, str_eq, Assoc, insert,
}

-- What a call returns, or the message of what it throws.
pub data Answer (A : Type 0) : Type 0 where
  answered : A → Answer A
  threw : String → Answer A

-- `user` is null for a deleted account.
pub record PrReview : Type 0 where
  pub user_id : Option ℕ
  pub state : String

-- `latestByReviewer.set(userId, review.state)`
unfoldable pub set_state : ℕ → String → List (ℕ × String) → List (ℕ × String)
set_state id state [] = (id, state) ∷ []
set_state id state (entry ∷ latest) =
    let later = set_state id state latest in
    if entry.0 == id then (id, state) ∷ latest else entry ∷ later

-- The loop over the reviews, oldest first.
unfoldable pub latest_by_reviewer : List PrReview → List (ℕ × String) → List (ℕ × String)
latest_by_reviewer [] latest = latest
latest_by_reviewer (review ∷ reviews) latest =
    latest_by_reviewer reviews (set_state (or_else review.user_id 0) review.state latest)

unfoldable pub count_approved : List (ℕ × String) → ℕ
count_approved [] = 0
count_approved (entry ∷ latest) =
    let rest = count_approved latest in if str_eq entry.1 "APPROVED" then suc rest else rest

unfoldable pub get_pr_approval_count : List PrReview → ℕ
get_pr_approval_count reviews = count_approved (latest_by_reviewer reviews [])

-- `results.set(status.context, status.state)`
unfoldable pub set_statuses : List (String × String) → Assoc String → Assoc String
set_statuses [] results = results
set_statuses (status ∷ statuses) results = set_statuses statuses (insert status.0 status.1 results)

-- `results.set(run.name, run.conclusion ?? "pending")`
unfoldable pub set_check_runs : List (String × Option String) → Assoc String → Assoc String
set_check_runs [] results = results
set_check_runs (run ∷ runs) results =
    set_check_runs runs (insert run.0 (or_else run.1 "pending") results)

abbrev answer_or_nothing : {A : Type 0} → Answer (List A) → List A
answer_or_nothing (answered xs) = xs
answer_or_nothing (threw message) = []

-- A call that throws is passed over.
unfoldable pub get_pr_check_results :
    Answer (List (String × String)) → Answer (List (String × Option String)) → Assoc String
get_pr_check_results statuses check_runs =
    set_check_runs (answer_or_nothing check_runs) (set_statuses (answer_or_nothing statuses) [])

pub data MergeMethod : Type 0 where
  merge squash rebase : MergeMethod

-- The response of the merge call, or the HTTP status and the message of its error.
pub data MergeAnswer : Type 0 where
  responded : (merged : Bool) (message : Option String) → MergeAnswer
  refused : (status : Option ℕ) (message : String) → MergeAnswer

pub record MergeResult : Type 0 where
  pub merged : Bool
  pub message : String

abbrev not_merged : String → String → Answer MergeResult
not_merged why message = answered (record { merged = false; message = String.◌++◌ why message })

unfoldable pub merge_pr_via_api : MergeAnswer → Answer MergeResult
merge_pr_via_api (responded merged message) =
    answered (record { merged = merged; message = or_else message "Merged successfully" })
merge_pr_via_api (refused status message) =
    let code = or_else status 0 in
    if code == 405
    then not_merged "Branch protection prevented merge: " message
    else if code == 409
    then not_merged "Merge conflict: " message
    else if code == 422
    then not_merged "Merge validation failed: " message
    else threw message
