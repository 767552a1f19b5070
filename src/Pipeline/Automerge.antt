-- ===== src/Pipeline/Automerge.antt =====
-- pipeline/automerge.ts. What GitHub answers is a record.
pub mod Eligibility
use Prim.Native.String
use urateam.Prelude.{
  template, ℕ, String, Bool, true, false, ◌||◌, ◌&&◌, not, Option, none, some, List, [], ◌∷◌, ltb,
  if◌then◌else◌, filter, is_empty, or_else, map, str_eq, includes, show, Assoc, lookup,
}
use urateam.Repo.PullRequests.{
  Answer, answered, threw, PrReview, get_pr_approval_count, get_pr_check_results, MergeMethod,
  squash, MergeAnswer, MergeResult, merge_pr_via_api,
}

pub record AutomergeOptions : Type 0 where
  pub minimum_approving_reviews : Option ℕ
  pub required_status_checks : Option (List String)
  pub required_labels : Option (List String)
  pub allowed_branches : Option (List String)
  pub merge_method : Option MergeMethod

pub record PullRequest : Type 0 where
  pub draft : Bool
  pub base_ref : String
  pub labels : List (Option String)
  pub merged : Bool
  pub state : String

-- What the calls answer for the pull request and its head commit.
pub record Github : Type 0 where
  pub pull : Answer PullRequest
  pub reviews : Answer (List PrReview)
  pub statuses : Answer (List (String × String))
  pub check_runs : Answer (List (String × Option String))
  pub merge_answer : MergeAnswer

pub record AutomergeCheckResult : Type 0 where
  pub eligible : Bool
  pub reason : String

abbrev ineligible : String → AutomergeCheckResult
ineligible reason = record { eligible = false; reason = reason }

-- `xs.join(", ")`
unfoldable pub join_comma : List String → String
join_comma [] = ""
join_comma (x ∷ []) = x
join_comma (x ∷ y ∷ xs) = template (x ∷ ", " ∷ join_comma (y ∷ xs) ∷ [])

-- `pr.labels.map((l) => l.name ?? "").filter(Boolean)`
abbrev pub label_names : List (Option String) → List String
label_names labels = filter (λ name. not (str_eq name "")) (map (λ l. or_else l "") labels)

abbrev pub missing_labels : List String → PullRequest → List String
missing_labels required pr = filter (λ l. not (includes (label_names pr.labels) l)) required

abbrev pub check_passed : Option String → Bool
check_passed none = false
check_passed (some conclusion) = str_eq conclusion "success" || str_eq conclusion "neutral"

-- The loop over the required checks.
unfoldable pub check_statuses : List String → Assoc String → AutomergeCheckResult
check_statuses [] results = record { eligible = true; reason = "All automerge criteria met" }
check_statuses (name ∷ names) results =
    let rest = check_statuses names results in
    if check_passed (lookup name results)
    then rest
    else ineligible (
        template (
          "Required status check '"
          ∷ name
          ∷ "' has not passed (status: "
          ∷ or_else (lookup name results) "not found"
          ∷ ")"
          ∷ []))

abbrev pub enough_approvals :
    Answer (List PrReview) → ℕ → AutomergeCheckResult → AutomergeCheckResult
enough_approvals (threw message) minimum rest =
    ineligible (String.◌++◌ "Failed to fetch reviews: " message)
enough_approvals (answered reviews) minimum rest =
    let count = get_pr_approval_count reviews in
    if ltb count minimum
    then ineligible
        (template ("PR has " ∷ show count ∷ " approving review(s), need " ∷ show minimum ∷ []))
    else rest

-- The checks on a pull request that was fetched, in order.
unfoldable pub check_pull : Github → AutomergeOptions → PullRequest → AutomergeCheckResult
unfolding check_statuses
check_pull github options pr =
    let allowed = or_else options.allowed_branches [] in
    let missing = missing_labels (or_else options.required_labels []) pr in
    let minimum = or_else options.minimum_approving_reviews 0 in
    let statuses =
      check_statuses (or_else options.required_status_checks [])
        (get_pr_check_results github.statuses github.check_runs) in
    if pr.draft
    then ineligible "PR is a draft"
    else if pr.merged || str_eq pr.state "closed"
    then ineligible "PR is already merged or closed"
    else if not (is_empty allowed) && not (includes allowed pr.base_ref)
    then ineligible (
        template (
          "Base branch '"
          ∷ pr.base_ref
          ∷ "' is not in allowedBranches: ["
          ∷ join_comma allowed
          ∷ "]"
          ∷ []))
    else if not (is_empty missing)
    then ineligible (String.◌++◌ "PR is missing required labels: " (join_comma missing))
    else if ltb 0 minimum
    then enough_approvals github.reviews minimum statuses
    else statuses

unfoldable pub check_auto_merge_eligibility : Github → AutomergeOptions → AutomergeCheckResult
check_auto_merge_eligibility github options = elim github.pull [
  | threw message ↦ ineligible (String.◌++◌ "Failed to fetch PR details: " message)
  | answered pr ↦ check_pull github options pr
]

pub record AutomergeResult : Type 0 where
  pub merged : Bool
  pub message : String

abbrev pub merge_outcome : Answer MergeResult → AutomergeResult
merge_outcome (threw message) = record {
  merged = false;
  message = String.◌++◌ "Automerge error: " message;
}
merge_outcome (answered result) =
    if result.merged
    then record { merged = true; message = "PR auto-merged successfully" }
    else record { merged = false; message = result.message }

-- The result, and the method that GitHub was asked to merge by.
unfoldable pub attempt_auto_merge : Github → AutomergeOptions → AutomergeResult × Option MergeMethod
attempt_auto_merge github options =
    let eligibility = check_auto_merge_eligibility github options in
    if not eligibility.eligible
    then (record { merged = false; message = eligibility.reason }, none)
    else (
      merge_outcome (merge_pr_via_api github.merge_answer),
      some (or_else options.merge_method squash),
    )
