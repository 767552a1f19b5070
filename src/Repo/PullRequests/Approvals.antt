-- ===== src/Repo/PullRequests/Approvals.antt =====
-- What the approval count of repo/github.ts counts.
use urateam.Prelude.{
  ℕ, suc, ◌+◌, ◌≡◌, refl, subst, inl, inr, Bool-cases, String, Bool, false, ◌&&◌, not, List, [],
  ◌∷◌, arith, ◌==◌, if◌then◌else◌, any, or_else, str_eq, All,
}
use urateam.Repo.PullRequests.{
  PrReview, set_state, latest_by_reviewer, count_approved, get_pr_approval_count,
}

-- Deleted accounts share the id 0.
abbrev pub reviewer : PrReview → ℕ
reviewer review = or_else review.user_id 0

-- A review by the reviewer.
abbrev reviewed_by : ℕ → List PrReview → Bool
reviewed_by id reviews = any (λ r. reviewer r == id) reviews

-- The number of reviews that are approvals and the last of their reviewer.
abbrev pub final_approvals : List PrReview → ℕ
final_approvals [] = 0
final_approvals (review ∷ reviews) =
    let rest = final_approvals reviews in
    if str_eq review.state "APPROVED" && not (reviewed_by (reviewer review) reviews)
    then suc rest
    else rest

-- The approvals of the map that no later review replaces.
abbrev kept : List PrReview → List (ℕ × String) → ℕ
kept reviews [] = 0
kept reviews (entry ∷ latest) =
    let rest = kept reviews latest in
    if str_eq entry.1 "APPROVED" && not (reviewed_by entry.0 reviews) then suc rest else rest

abbrev Fresh : ℕ → List (ℕ × String) → Type 0
Fresh id latest = All (λ entry. (entry.0 == id) ≡ false) latest

abbrev DistinctIds : List (ℕ × String) → Type 0
DistinctIds [] = Unit
DistinctIds (entry ∷ latest) = Fresh entry.0 latest × DistinctIds latest

kept-Fresh :
    (review : PrReview) (reviews : List PrReview) (latest : List (ℕ × String))
    → Fresh (reviewer review) latest
    → kept (review ∷ reviews) latest ≡ kept reviews latest
kept-Fresh review reviews [] f = refl
kept-Fresh review reviews (entry ∷ latest) f = ground (arith, kept-Fresh review reviews latest f.1)

kept-set_state :
    (review : PrReview) (reviews : List PrReview) (latest : List (ℕ × String))
    → DistinctIds latest
    → kept reviews (set_state (reviewer review) review.state latest)
      ≡ kept (review ∷ reviews) latest
        + (if str_eq review.state "APPROVED" && not (reviewed_by (reviewer review) reviews)
            then 1
            else 0)
unfolding set_state
kept-set_state review reviews [] d = ground arith
kept-set_state review reviews (entry ∷ latest) d = elim (Bool-cases (entry.0 == reviewer review)) [
  | inl t ↦
      let e : entry.0 ≡ reviewer review = ground arith in
      let same = kept-Fresh review reviews latest (subst (λ id. Fresh id latest) e d.0) in
      rw (t, e) (ground (arith, same))
  | inr f ↦ rw f (ground (arith, kept-set_state review reviews latest d.1))
]

Fresh-set_state :
    (id other : ℕ) (state : String) (latest : List (ℕ × String))
    → (id == other) ≡ false
    → Fresh other latest
    → Fresh other (set_state id state latest)
unfolding set_state
Fresh-set_state id other state [] n f = (n, tt)
Fresh-set_state id other state (entry ∷ latest) n f =
    ground (arith, Fresh-set_state id other state latest n f.1)

DistinctIds-set_state :
    (id : ℕ) (state : String) (latest : List (ℕ × String))
    → DistinctIds latest
    → DistinctIds (set_state id state latest)
unfolding set_state
DistinctIds-set_state id state [] d = (tt, tt)
DistinctIds-set_state id state (entry ∷ latest) d = elim (Bool-cases (entry.0 == id)) [
  | inl t ↦ let e : entry.0 ≡ id = ground arith in rw t (subst (λ i. Fresh i latest) e d.0, d.1)
  | inr f ↦ rw f (
    Fresh-set_state id entry.0 state latest (ground arith) d.0,
    DistinctIds-set_state id state latest d.1,
  )
]

kept-nil : (latest : List (ℕ × String)) → kept [] latest ≡ count_approved latest
unfolding count_approved
kept-nil [] = refl
kept-nil (entry ∷ latest) = ground (arith, kept-nil latest)

latest-count :
    (reviews : List PrReview) (latest : List (ℕ × String))
    → DistinctIds latest
    → count_approved (latest_by_reviewer reviews latest)
      ≡ kept reviews latest + final_approvals reviews
unfolding latest_by_reviewer
latest-count [] latest d = omega (arith, kept-nil latest)
latest-count (review ∷ reviews) latest d = ground (
  arith,
  latest-count reviews (set_state (reviewer review) review.state latest)
      (DistinctIds-set_state (reviewer review) review.state latest d),
  kept-set_state review reviews latest d,
)

-- The approval count is the number of approvals that are the last review of their reviewer, with all
-- deleted accounts taken for one reviewer.
pub get_pr_approval_count_lem :
    (reviews : List PrReview) → get_pr_approval_count reviews ≡ final_approvals reviews
unfolding get_pr_approval_count
get_pr_approval_count_lem reviews = omega (arith, latest-count reviews [] tt)
