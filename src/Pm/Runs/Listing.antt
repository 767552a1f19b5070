-- ===== src/Pm/Runs/Listing.antt =====
-- What it means that an issue is not among those of the selected runs.
use urateam.Prelude.{
  ◌≡◌, inl, inr, String, Bool, true, false, not, List, map, filter, includes, includes_iff, In,
  subst, In-map_of, In-filter_of, Bool-cases,
}
use urateam.Pm.Runs.{PipelineRun}

absurd_listed : {A : Type 0} (b : Bool) → not b ≡ true → b ≡ true → A
absurd_listed true h e = cc
absurd_listed false h e = cc

pub unlisted-run :
    (p : PipelineRun → Bool) (identifier : String) (runs : List PipelineRun)
    → not (includes (map (λ r. r.issue_id) (filter p runs)) identifier) ≡ true
    → (run : PipelineRun) → In run runs
    → run.issue_id ≡ identifier
    → p run ≡ false
unlisted-run p identifier runs h run found same = elim (Bool-cases (p run)) [
  | inl e ↦
      let listed =
        In-map_of (λ r. r.issue_id) run (filter p runs) (In-filter_of p run runs found e) in
      absurd_listed _ h (
        (includes_iff _ identifier).1
          (subst (λ i. In i (map (λ r. r.issue_id) (filter p runs))) same listed))
  | inr e ↦ e
]
