-- ===== src/Tests/Merging.antt =====
-- The automerge of packages/core/src/pipeline, run on one pull request.
use urateam.Prelude.{
  ◌≡◌, refl, ◌↔◌, String, true, false, Option, none, some, List, [], ◌∷◌, lookup, insert, includes,
  show, show_from,
}
use urateam.Repo.PullRequests.{
  answered, threw, PrReview, set_state, latest_by_reviewer, count_approved, get_pr_approval_count,
  set_statuses, set_check_runs, get_pr_check_results, squash, responded, merge_pr_via_api,
}
use urateam.Repo.PullRequests.Approvals.{get_pr_approval_count_lem}
use urateam.Pipeline.Automerge.{
  AutomergeOptions, PullRequest, Github, check_statuses, check_pull, check_auto_merge_eligibility,
  attempt_auto_merge,
}
use urateam.Pipeline.Automerge.Eligibility.{
  Meets, check_auto_merge_eligibility_iff, attempt_auto_merge_iff,
}

-- The reviewer 7 takes the approval back; the reviewer 8 approves.
abbrev reviews : List PrReview
reviews =
    record { user_id = some 7; state = "APPROVED" }
    ∷ record { user_id = some 8; state = "APPROVED" }
    ∷ record { user_id = some 7; state = "CHANGES_REQUESTED" }
    ∷ []

abbrev github : Github
github = record {
  pull = answered (record {
    draft = false;
    base_ref = "main";
    labels = some "automerge" ∷ none ∷ [];
    merged = false;
    state = "open";
  });
  reviews = answered reviews;
  statuses = threw "not found";
  check_runs = answered (("build", some "success") ∷ ("lint", none) ∷ []);
  merge_answer = responded true none;
}

abbrev one_approval : AutomergeOptions
one_approval = record {
  minimum_approving_reviews = some 1;
  required_status_checks = some ("build" ∷ []);
  required_labels = some ("automerge" ∷ []);
  allowed_branches = none;
  merge_method = none;
}

abbrev two_approvals : AutomergeOptions
two_approvals = record one_approval { minimum_approving_reviews = some 2 }

merges :
    attempt_auto_merge github one_approval
    ≡ (record { merged = true; message = "PR auto-merged successfully" }, some squash)
unfolding attempt_auto_merge check_auto_merge_eligibility check_pull check_statuses
    get_pr_approval_count latest_by_reviewer set_state count_approved set_statuses set_check_runs
    get_pr_check_results merge_pr_via_api lookup insert includes
merges = refl

too_few :
    attempt_auto_merge github two_approvals
    ≡ (record { merged = false; message = "PR has 1 approving review(s), need 2" }, none)
unfolding attempt_auto_merge check_auto_merge_eligibility check_pull check_statuses
    get_pr_approval_count latest_by_reviewer set_state count_approved set_statuses set_check_runs
    get_pr_check_results merge_pr_via_api lookup insert includes show show_from
too_few = refl

get_pr_approval_count_lem_example : get_pr_approval_count reviews ≡ 1
get_pr_approval_count_lem_example = get_pr_approval_count_lem reviews

check_auto_merge_eligibility_iff_example :
    ((check_auto_merge_eligibility github one_approval).eligible ≡ true)
    ↔ ((pr : PullRequest) × (github.pull ≡ answered pr) × Meets github one_approval pr)
check_auto_merge_eligibility_iff_example = check_auto_merge_eligibility_iff github one_approval

attempt_auto_merge_iff_example :
    ((attempt_auto_merge github one_approval).1 ≡ some squash
      ↔ (((check_auto_merge_eligibility github one_approval).eligible ≡ true) × (squash ≡ squash)))
    × ((attempt_auto_merge github one_approval).0.merged ≡ true ↔ (
        ((check_auto_merge_eligibility github one_approval).eligible ≡ true)
        × ((message : Option String) × (responded true none ≡ responded true message))))
attempt_auto_merge_iff_example = attempt_auto_merge_iff github one_approval squash
