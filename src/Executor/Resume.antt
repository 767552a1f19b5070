-- ===== src/Executor/Resume.antt =====
-- Which stages of executor/session-resolver.ts go on with the session of their run.
use text.Mathlib.Text.{starts_with}
use text.Mathlib.TextBridge.{IsPrefix}
use text.Mathlib.TextEquality.{starts_with_iff}
use urateam.Prelude.{
  ℕ, ◌≡◌, ◌≢◌, refl, sym, inl, inr, ◌↔◌, String, Bool, true, false, Option, none, some, arith,
  eq_iff, str_eq, includes, Bool-cases,
}
use urateam.Executor.Sessions.{
  is_always_fresh_stage, model_family, is_resumable, transcript_path, ResolveSessionOptsParams,
  session_id, resume, given, resolve_with, resolve_from, resolve_session_opts,
}

not_true : (b : Bool) → b ≢ true → b ≡ false
not_true true n = absurd (n refl)
not_true false n = refl

-- A stage resumes exactly when it is none of the stages that always start fresh and its model is a
-- Claude model but no Haiku.
is_resumable_iff :
    (stage model : String)
    → (is_resumable stage model ≡ true) ↔ (
        (stage ≢ "validate")
        × (stage ≢ "ralph-check")
        × IsPrefix "claude-" model
        × ¬ IsPrefix "claude-haiku" model)
unfolding is_resumable is_always_fresh_stage model_family includes
is_resumable_iff stage model =
    let validate = eq_iff "validate" stage in
    let ralph = eq_iff "ralph-check" stage in
    let claude = starts_with_iff model "claude-" in
    let haiku = starts_with_iff model "claude-haiku" in
    (
      λ h. (
        λ e. ground (arith, validate, sym e),
        λ e. ground (arith, ralph, sym e),
        claude.0 (ground arith),
        λ p. ground (arith, haiku.1 p),
      ),
      λ (v, r, c, n).
          let at_validate = not_true (str_eq "validate" stage) (λ t. v (sym (validate.0 t))) in
          let at_ralph = not_true (str_eq "ralph-check" stage) (λ t. r (sym (ralph.0 t))) in
          let at_haiku = not_true (starts_with model "claude-haiku") (λ t. n (haiku.0 t)) in
          ground (arith, at_validate, at_ralph, at_haiku, claude.1 c),
    )

-- The run has a session, and the stage has a model and resumes on it.
abbrev pub HasSession : String → Option String → Option String → String → Type 0
HasSession stage agent_session_id model id =
    (agent_session_id ≡ some id) × ((m : String) × (model ≡ some m) × (is_resumable stage m ≡ true))

module _ (join : String → String → String → String) (projects_root : String)
    (exists : String → Bool) (count_lines : String → Option ℕ)
    (params : ResolveSessionOptsParams) where
  resolve_with-present :
      (id : String)
      → exists (transcript_path join projects_root params.workdir id) ≡ true
      → (resolve_with join projects_root exists count_lines params id).0 ≡ resume id
  unfolding resolve_with
  resolve_with-present id e = rw e refl

  resolve_with-absent :
      (id : String)
      → exists (transcript_path join projects_root params.workdir id) ≡ false
      → (resolve_with join projects_root exists count_lines params id).0 ≡ session_id id
  unfolding resolve_with
  resolve_with-absent id e = rw e refl

  resolve_from_iff :
      (s m : Option String) (id : String)
      → let opts = (resolve_from join projects_root exists count_lines params s m).0 in
        let present = exists (transcript_path join projects_root params.workdir id) in
        (opts ≡ resume id ↔ (HasSession params.stage s m id × (present ≡ true)))
        × (opts ≡ session_id id ↔ (HasSession params.stage s m id × (present ≡ false)))
  unfolding resolve_from
  resolve_from_iff none m id = ((λ h. cc, λ h. cc), (λ h. cc, λ h. cc))
  resolve_from_iff (some s) none id = ((λ h. cc, λ h. cc), (λ h. cc, λ h. cc))
  resolve_from_iff (some s) (some m) id = elim (Bool-cases (is_resumable params.stage m)) [
    | inl t ↦ elim (Bool-cases (exists (transcript_path join projects_root params.workdir s))) [
      | inl p ↦
          let q = resolve_with-present s p in
          rw t (
            (λ h. ((cc, (m, refl, t)), cc), λ (a, x). let e = a.0 in cc),
            (λ h. cc, λ (a, x). let e = a.0 in cc),
          )
      | inr p ↦
          let q = resolve_with-absent s p in
          rw t (
            (λ h. cc, λ (a, x). let e = a.0 in cc),
            (λ h. ((cc, (m, refl, t)), cc), λ (a, x). let e = a.0 in cc),
          )
    ]
    | inr f ↦ rw f ((λ h. cc, λ ((e, (n, i, r)), x). cc), (λ h. cc, λ ((e, (n, i, r)), x). cc))
  ]

  -- A stage resumes the session of its run exactly when the run has one, the stage has a model and
  -- resumes on it, and the transcript exists; it creates the session exactly when all but the last hold.
  pub resolve_session_opts_iff :
      (id : String)
      → let opts = (resolve_session_opts join projects_root exists count_lines params).0 in
        let present = exists (transcript_path join projects_root params.workdir id) in
        let has = HasSession params.stage params.agent_session_id (given params.model) id in
        (opts ≡ resume id ↔ (has × (present ≡ true)))
        × (opts ≡ session_id id ↔ (has × (present ≡ false)))
  unfolding resolve_session_opts
  resolve_session_opts_iff id = resolve_from_iff params.agent_session_id (given params.model) id
