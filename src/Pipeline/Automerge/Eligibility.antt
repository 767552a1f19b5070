-- ===== src/Pipeline/Automerge/Eligibility.antt =====
-- Which pull requests pipeline/automerge.ts merges.
use urateam.Prelude.{
  ℕ, ◌≤◌, ◌<◌, ◌≡◌, ◌≢◌, refl, sym, ◌∙◌, ◌⊎◌, inl, inr, ◌↔◌, String, Bool, true, false, ◌||◌, ◌&&◌,
  not, Option, none, some, List, [], ◌∷◌, arith, ltb, if◌then◌else◌, is_empty, or_else, includes,
  includes_iff, In, All, str_eq, eq_iff, lookup, Assoc, filter-empty_iff, All-iff, iff_trans,
  Bool-cases,
}
use urateam.Repo.PullRequests.{
  Answer, answered, threw, PrReview, get_pr_check_results, MergeMethod, squash, MergeAnswer,
  responded, refused, merge_pr_via_api,
}
use urateam.Repo.PullRequests.Approvals.{final_approvals, get_pr_approval_count_lem}
use urateam.Pipeline.Automerge.{
  AutomergeOptions, PullRequest, Github, AutomergeCheckResult, label_names, missing_labels,
  check_passed, check_statuses, enough_approvals, check_pull, check_auto_merge_eligibility,
  merge_outcome, attempt_auto_merge,
}

-- The check ended with "success" or "neutral".
abbrev Passes : Assoc String → String → Type 0
Passes results name =
    (lookup name results ≡ some "success") ⊎ (lookup name results ≡ some "neutral")

-- As many last reviews are approvals as are asked for.
abbrev Approved : Answer (List PrReview) → ℕ → Type 0
Approved (threw message) minimum = minimum ≡ 0
Approved (answered reviews) minimum = minimum ≤ final_approvals reviews

-- The criteria on a pull request.
pub record Meets (github : Github) (options : AutomergeOptions) (pr : PullRequest) : Type 0 where
  pub ready : pr.draft ≡ false
  pub unmerged : pr.merged ≡ false
  pub unclosed : pr.state ≢ "closed"
  pub branch :
      (or_else options.allowed_branches [] ≡ [])
      ⊎ In pr.base_ref (or_else options.allowed_branches [])
  pub labelled : All (λ l. In l (label_names pr.labels)) (or_else options.required_labels [])
  pub approved : Approved github.reviews (or_else options.minimum_approving_reviews 0)
  pub checked :
      All
        (Passes (get_pr_check_results github.statuses github.check_runs))
        (or_else options.required_status_checks [])

check_passed_iff :
    (c : Option String) → (check_passed c ≡ true) ↔ ((c ≡ some "success") ⊎ (c ≡ some "neutral"))
check_passed_iff none = ground arith
check_passed_iff (some c) = ground (arith, eq_iff c "success", eq_iff c "neutral")

check_statuses_iff :
    (names : List String) (results : Assoc String)
    → ((check_statuses names results).eligible ≡ true) ↔ All (Passes results) names
unfolding check_statuses
check_statuses_iff [] results = (λ _. tt, λ _. refl)
check_statuses_iff (name ∷ names) results =
    ground (arith, check_statuses_iff names results, check_passed_iff (lookup name results))

enough_approvals_iff :
    (reviews : Answer (List PrReview)) (minimum : ℕ) (rest : AutomergeCheckResult)
    → 0 < minimum
    → ((enough_approvals reviews minimum rest).eligible ≡ true)
      ↔ (Approved reviews minimum × (rest.eligible ≡ true))
enough_approvals_iff (threw message) minimum rest positive = ground arith
enough_approvals_iff (answered reviews) minimum rest positive =
    ground (arith, get_pr_approval_count_lem reviews)

nothing_asked :
    (reviews : Answer (List PrReview)) (minimum : ℕ) (rest : AutomergeCheckResult)
    → minimum ≡ 0
    → (rest.eligible ≡ true) ↔ (Approved reviews minimum × (rest.eligible ≡ true))
nothing_asked (threw message) minimum rest e = (λ h. (e, h), λ h. h.1)
nothing_asked (answered reviews) minimum rest e = (λ h. (omega (arith, e), h), λ h. h.1)

approval_part_iff :
    (reviews : Answer (List PrReview)) (minimum : ℕ) (rest : AutomergeCheckResult)
    → ((if ltb 0 minimum then enough_approvals reviews minimum rest else rest).eligible ≡ true)
      ↔ (Approved reviews minimum × (rest.eligible ≡ true))
approval_part_iff reviews minimum rest = elim (Bool-cases (ltb 0 minimum)) [
  | inl t ↦ rw t (enough_approvals_iff reviews minimum rest (ground arith))
  | inr f ↦ rw f (nothing_asked reviews minimum rest (ground arith))
]

branch_iff :
    (allowed : List String) (base : String)
    → ((not (is_empty allowed) && not (includes allowed base)) ≡ false)
      ↔ ((allowed ≡ []) ⊎ In base allowed)
branch_iff [] base = ground arith
branch_iff (a ∷ others) base = ground (arith, includes_iff (a ∷ others) base)

labels_iff :
    (required : List String) (pr : PullRequest)
    → ((not (is_empty (missing_labels required pr))) ≡ false)
      ↔ All (λ l. In l (label_names pr.labels)) required
labels_iff required pr = iff_trans (ground arith) (
    iff_trans (filter-empty_iff (λ l. not (includes (label_names pr.labels) l)) required)
      (All-iff _ _ required (λ l. ground (arith, includes_iff (label_names pr.labels) l))))

-- A guard that returns early.
guard_iff :
    (b : Bool) (reason : String) (rest : AutomergeCheckResult)
    → ((if b then record { eligible = false; reason = reason } else rest).eligible ≡ true)
      ↔ ((b ≡ false) × (rest.eligible ≡ true))
guard_iff true reason rest = ground arith
guard_iff false reason rest = (λ h. (refl, h), λ h. h.1)

check_pull_iff :
    (github : Github) (options : AutomergeOptions) (pr : PullRequest)
    → ((check_pull github options pr).eligible ≡ true) ↔ Meets github options pr
unfolding check_pull
check_pull_iff github options pr =
    let (branch, branch') = branch_iff (or_else options.allowed_branches []) pr.base_ref in
    let (labels, labels') = labels_iff (or_else options.required_labels []) pr in
    let results = get_pr_check_results github.statuses github.check_runs in
    let statuses = check_statuses (or_else options.required_status_checks []) results in
    let (checks, checks') =
      check_statuses_iff (or_else options.required_status_checks []) results in
    let (approvals, approvals') =
      approval_part_iff github.reviews (or_else options.minimum_approving_reviews 0) statuses in
    let closed = eq_iff pr.state "closed" in
    (
      λ h.
          let (d, h1) = (guard_iff pr.draft _ _).0 h in
          let (m, h2) = (guard_iff (pr.merged || str_eq pr.state "closed") _ _).0 h1 in
          let (b, h3) = (guard_iff _ _ _).0 h2 in
          let (l, h4) = (guard_iff _ _ _).0 h3 in
          let (a, c) = approvals h4 in
          record {
            ready = d;
            unmerged = ground arith;
            unclosed = λ e. ground (arith, closed);
            branch = branch b;
            labelled = labels l;
            approved = a;
            checked = checks c;
          },
      λ v.
          let m : (pr.merged || str_eq pr.state "closed") ≡ false =
            ground (arith, closed, v.unmerged, v.unclosed) in
          (guard_iff pr.draft _ _).1 (
            v.ready,
            (guard_iff _ _ _).1 (
              m,
              (guard_iff _ _ _).1 (
                branch' v.branch,
                (guard_iff _ _ _).1
                    (labels' v.labelled, approvals' (v.approved, checks' v.checked)),
              ),
            ),
          ),
    )

Answer-cases :
    {A : Type 0} (a : Answer A)
    → ((message : String) × (a ≡ threw message)) ⊎ ((x : A) × (a ≡ answered x))
Answer-cases (threw message) = inl (message, refl)
Answer-cases (answered x) = inr (x, refl)

refused_unmerged :
    (status : Option ℕ) (message : String)
    → (merge_outcome (merge_pr_via_api (refused status message))).merged ≡ false
unfolding merge_pr_via_api
refused_unmerged status message = ground arith

merged_iff :
    (answer : MergeAnswer)
    → ((merge_outcome (merge_pr_via_api answer)).merged ≡ true)
      ↔ ((message : Option String) × (answer ≡ responded true message))
unfolding merge_pr_via_api
merged_iff (responded true message) = (λ h. (message, refl), λ h. refl)
merged_iff (responded false message) = (λ h. cc, λ (m, e). cc)
merged_iff (refused status message) =
    (λ h. cc (sym (refused_unmerged status message) ∙ h), λ (m, e). cc)

-- A pull request is eligible exactly when it is fetched, is no draft, is open and unmerged, targets an
-- allowed branch where some are listed, carries each required label, has as many reviewers whose last
-- review is an approval as are asked for, and each required check ended with "success" or "neutral".
pub check_auto_merge_eligibility_iff :
    (github : Github) (options : AutomergeOptions)
    → ((check_auto_merge_eligibility github options).eligible ≡ true)
      ↔ ((pr : PullRequest) × (github.pull ≡ answered pr) × Meets github options pr)
unfolding check_auto_merge_eligibility check_pull
check_auto_merge_eligibility_iff github options = elim (Answer-cases github.pull) [
  | inl (message, e) ↦ (λ h. cc (rw e at h), λ (pr, f, v). cc (sym e ∙ f))
  | inr (pr, e) ↦ (
    λ h. (pr, e, (check_pull_iff github options pr).0 (rw e at h)),
    λ (other, f, v). rw f ((check_pull_iff github options other).1 v),
  )
]

-- GitHub is asked to merge exactly the pull requests that are eligible, by the configured method or
-- "squash"; and one is reported as merged exactly when GitHub answers that it is.
pub attempt_auto_merge_iff :
    (github : Github) (options : AutomergeOptions) (method : MergeMethod)
    → ((attempt_auto_merge github options).1 ≡ some method ↔ (
        ((check_auto_merge_eligibility github options).eligible ≡ true)
        × (or_else options.merge_method squash ≡ method)))
      × ((attempt_auto_merge github options).0.merged ≡ true ↔ (
          ((check_auto_merge_eligibility github options).eligible ≡ true)
          × ((message : Option String) × (github.merge_answer ≡ responded true message))))
unfolding attempt_auto_merge
attempt_auto_merge_iff github options method =
    let merged = merged_iff github.merge_answer in
    elim (Bool-cases (check_auto_merge_eligibility github options).eligible) [
      | inl t ↦ (rw t (ground arith), rw t (ground (arith, merged)))
      | inr f ↦ (rw f (ground arith), rw f (ground arith))
    ]
