-- ===== src/Pipeline/Queue/Draining.antt =====
-- That the queue of pipeline/queue.ts serves every job, once no more arrive.
use mathlib.Core.List.{append-nil}
use urateam.Prelude.{
  ℕ, suc, ◌+◌, ◌*◌, ◌≤◌, ◌<◌, ◌≡◌, refl, sym, ap, ◌∙◌, inl, inr, Bool, true, false, List, [], ◌∷◌,
  ◌++◌, arith, length, length-append, List-cases, subst,
}
use urateam.Pipeline.Queue.{
  System, Step, start, block, wake, finish, Reach, next, resume, release, wake_next,
}
use urateam.Pipeline.Queue.Accounting.{Reach-Inv, none_stranded, length-around}

-- Whether a step is the arrival of a job.
abbrev pub arrives : {concurrency : ℕ} {s t : System} → Step concurrency s t → Bool
arrives (start s job e h) = true
arrives (block s job e h) = true
arrives (wake s job rest w e) = false
arrives (finish s before job after h e) = false

-- A schedule of steps with no arrival.
pub data Drain (concurrency : ℕ) : ℕ → System → System → Type 0 where
  stop : {s t : System} → t ≡ s → Drain concurrency 0 s t
  more :
      {n : ℕ} {s t u : System} (st : Step concurrency s t)
      → arrives st ≡ false
      → Drain concurrency n t u
      → Drain concurrency (suc n) s u

-- What is still to be done: a job that waits is woken, goes on, and ends.
abbrev pub work : System → ℕ
work s = 3 * length s.queue.waiting + 2 * length s.queue.woken + length s.holders

release-work :
    (s : System) (holders : List ℕ)
    → length holders + 1 ≡ length s.holders
    → work (record s { queue = release s.queue; holders = holders }) < work s
unfolding release
release-work s holders less = elim (List-cases s.queue.waiting) [
  | inl e ↦ rw (e, wake_next) (omega (arith, less, ap length e))
  | inr (job, rest, e) ↦
      rw (e, wake_next) (omega (arith, less, ap length e, length-append s.queue.woken (job ∷ [])))
]

step-work :
    {concurrency : ℕ} {s t : System} (st : Step concurrency s t)
    → arrives st ≡ false
    → (work t < work s) × (t.blocked ≡ s.blocked)
unfolding resume
step-work (start s job e h) quiet_step = cc
step-work (block s job e h) quiet_step = cc
step-work (wake s job rest w e) quiet_step = rw e (omega (arith, ap length w), refl)
step-work (finish s before job after h e) quiet_step =
    rw e
      (release-work s (before ++ after) (length-around before job after ∙ ap length (sym h)), refl)

Drain-work :
    {concurrency n : ℕ} {s t : System}
    → Drain concurrency n s t
    → (n + work t ≤ work s) × (t.blocked ≡ s.blocked)
Drain-work (stop e) = rw e (omega arith, refl)
Drain-work (more st quiet_step d) =
    let (less, same) = step-work st quiet_step in
    let (few, kept) = Drain-work d in (omega (arith, less, few), kept ∙ same)

Drain-Reach :
    {concurrency n : ℕ} {s t : System}
    → Reach concurrency s
    → Drain concurrency n s t
    → Reach concurrency t
Drain-Reach {concurrency} r (stop e) = subst (Reach concurrency) (sym e) r
Drain-Reach r (more st quiet_step d) = Drain-Reach (next r st) d

-- No step but an arrival is possible.
abbrev pub IsStuck : ℕ → System → Type 0
IsStuck concurrency t = (u : System) (st : Step concurrency t u) → arrives st ≡ true

stuck-holders : {concurrency : ℕ} (t : System) → IsStuck concurrency t → t.holders ≡ []
stuck-holders {concurrency} t stuck = elim (List-cases t.holders) [
  | inl e ↦ e
  | inr (job, rest, e) ↦
      let st : Step concurrency t (record t { queue = release t.queue; holders = [] ++ rest }) =
        finish t [] job rest e refl in
      cc (sym (stuck _ st))
]

stuck-woken : {concurrency : ℕ} (t : System) → IsStuck concurrency t → t.queue.woken ≡ []
stuck-woken {concurrency} t stuck = elim (List-cases t.queue.woken) [
  | inl e ↦ e
  | inr (job, rest, e) ↦
      let st : Step concurrency t (record t {
        queue = resume t.queue rest;
        holders = job ∷ t.holders;
        resumed = t.resumed ++ job ∷ [];
      }) =
        wake t job rest e refl in
      cc (sym (stuck _ st))
]

-- Once no more jobs arrive, every job is served: with a positive concurrency, a schedule from a reachable
-- state takes at most three steps for each job that waits, two for each that was woken, and one for
-- each that runs; and where it cannot go on, nothing runs or waits, and every job that ever had to
-- wait has gone on, in the order in which they came.
pub drains :
    {concurrency n : ℕ} {s t : System}
    → Reach concurrency s
    → 0 < concurrency
    → Drain concurrency n s t
    → (n ≤ work s)
      × (IsStuck concurrency t
          → (t.holders ≡ [])
            × (t.queue.woken ≡ [])
            × (t.queue.waiting ≡ [])
            × (t.resumed ≡ s.blocked))
drains {t} r positive d =
    let (few, kept) = Drain-work d in
    let reached = Drain-Reach r d in
    (
      omega (arith, few),
      λ stuck.
          let idle = stuck-holders t stuck in
          let quiet = stuck-woken t stuck in
          let empty = none_stranded reached positive idle quiet in
          (
            idle,
            quiet,
            empty,
            sym (append-nil t.resumed)
                ∙ ap (λ w. t.resumed ++ w) (sym (ap (λ w. w ++ t.queue.waiting) quiet ∙ empty))
                ∙ (Reach-Inv reached).fair
                ∙ kept,
          ),
    )
