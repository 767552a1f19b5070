-- ===== src/Pm/StartTodo/Routing.antt =====
-- The pipeline and the repository of an issue that is started.
use urateam.Prelude.{
  ℕ, ◌≡◌, refl, ap, inl, inr, String, false, Option, none, some, Assoc, Bool-cases, subst,
}
use urateam.Pipeline.Router.{Resolved, Slot, resolve_pipeline}
use urateam.Pm.StartTodo.{
  RepoConfig, Issue, StartTodoInput, StartTodoResult, started, skipped, opens, repo_for, start_in,
  start_with, process, select_repo_config,
}

abbrev pub key_of {ℓ} : {C : Type ℓ} → Option (Resolved (Slot C)) → Option String
key_of none = none
key_of (some resolved) = some resolved.key

abbrev id_of : StartTodoResult → String
id_of (started identifier pipeline) = identifier
id_of (skipped identifier reason) = identifier

abbrev pipeline_of : StartTodoResult → String
pipeline_of (started identifier pipeline) = pipeline
pipeline_of (skipped identifier reason) = ""

module _ {ℓ} {C : Type ℓ} (input : StartTodoInput C) where
  -- The labels give the pipeline, and that, or the team or the project, a repository.
  abbrev pub IsRouted : Issue → String → Type 0
  IsRouted issue pipeline =
      (key_of (resolve_pipeline issue.labels input.pipeline_configs) ≡ some pipeline)
      × ((config : RepoConfig) × (select_repo_config pipeline issue.team_id issue.project_id
              input.repo_configs
            ≡ some config))

  start_in-IsRouted :
      (issue : Issue) (resolved : Resolved (Slot C)) (o : Option RepoConfig)
      (identifier pipeline : String)
      → start_in input issue resolved o ≡ started identifier pipeline
      → (issue.identifier ≡ identifier)
        × (resolved.key ≡ pipeline)
        × ((config : RepoConfig) × (o ≡ some config))
  start_in-IsRouted issue resolved none identifier pipeline e = cc
  start_in-IsRouted issue resolved (some config) identifier pipeline e =
      elim (Bool-cases (input.start_succeeds issue.identifier)) [
        | inl s ↦ let f = rw s at e in (ap id_of f, ap pipeline_of f, (config, refl))
        | inr s ↦ cc (rw s at e)
      ]

  start_with-IsRouted :
      (issue : Issue) (o : Option (Resolved (Slot C))) (identifier pipeline : String)
      → start_with input issue o ≡ started identifier pipeline
      → (issue.identifier ≡ identifier)
        × (key_of o ≡ some pipeline)
        × ((config : RepoConfig) × (select_repo_config pipeline issue.team_id issue.project_id
                input.repo_configs
              ≡ some config))
  start_with-IsRouted issue none identifier pipeline e = cc
  start_with-IsRouted issue (some resolved) identifier pipeline e =
      let (same, key, (config, found)) =
        start_in-IsRouted issue resolved (repo_for input issue resolved) identifier pipeline e in
      (
        same,
        ap some key,
        (
          config,
          subst
              (λ k.
                select_repo_config k issue.team_id issue.project_id input.repo_configs
                ≡ some config)
              key found,
        ),
      )

  pub process-IsRouted :
      (failures : Assoc ℕ) (issue : Issue) (identifier pipeline : String)
      → process input failures issue ≡ started identifier pipeline
      → (issue.identifier ≡ identifier)
        × (opens input input.max_consecutive_failures failures issue ≡ false)
        × IsRouted issue pipeline
  unfolding process
  process-IsRouted failures issue identifier pipeline e =
      elim (Bool-cases (opens input input.max_consecutive_failures failures issue)) [
        | inl o ↦ cc (rw o at e)
        | inr o ↦
            let (same, key, found) =
              start_with-IsRouted issue (resolve_pipeline issue.labels input.pipeline_configs)
                identifier pipeline (rw o at e) in
            (same, o, (key, found))
      ]
