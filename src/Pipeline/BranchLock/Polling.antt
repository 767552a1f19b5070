-- ===== src/Pipeline/BranchLock/Polling.antt =====
-- How the polling of pipeline/distributed-lock.ts ends.
use urateam.Prelude.{
  ℕ, zero, suc, ◌+◌, ◌-◌, ◌*◌, ◌/◌, ◌≤◌, min, ◌≡◌, refl, ap, inl, inr, Bool, true, false, some,
  List, [], ◌∷◌, ◌++◌, arith, leb, All, Bool-cases,
}
use urateam.Pipeline.BranchLock.{
  Outcome, lock_timeout, LockEvent, tried, slept, ran, released, poll_interval_ms, poll,
  with_branch_lock,
}

-- An attempt that failed, or a sleep.
abbrev IsWait : LockEvent → Type 0
IsWait (tried b) = b ≡ false
IsWait (slept n) = n ≤ poll_interval_ms
IsWait ran = ⊥
IsWait released = ⊥

-- After waiting, the lock is taken, the work is run and the lock released, in this order and
-- nothing after it; or the last attempt fails, the deadline is past, and the work is not run.
pub data Settled {A : Type 0} (try_acquire : ℕ → Bool) (clock : ℕ → ℕ) (deadline : ℕ)
    (work : Outcome A) : Outcome A → List LockEvent → Type 0 where
  held :
      {result : Outcome A} {events : List LockEvent} (waits : List LockEvent) (attempt : ℕ)
      → All IsWait waits
      → try_acquire attempt ≡ true
      → result ≡ work
      → events ≡ waits ++ tried true ∷ ran ∷ released ∷ []
      → Settled try_acquire clock deadline work result events
  gave_up :
      {result : Outcome A} {events : List LockEvent} (waits : List LockEvent) (attempt : ℕ)
      → All IsWait waits
      → try_acquire attempt ≡ false
      → deadline ≤ clock attempt
      → result ≡ lock_timeout
      → events ≡ waits ++ tried false ∷ []
      → Settled try_acquire clock deadline work result events

-- `setTimeout` waits at least as long as it is asked to.
abbrev pub Advances : (ℕ → ℕ) → ℕ → Type 0
Advances clock deadline =
    (k : ℕ) → clock k + min poll_interval_ms (deadline - clock k) ≤ clock (suc k)

module _ {A : Type 0} {try_acquire : ℕ → Bool} {clock : ℕ → ℕ} {deadline : ℕ}
    {work : Outcome A} where
  Settled-wait :
      (n : ℕ) {result : Outcome A} {events : List LockEvent}
      → n ≤ poll_interval_ms
      → Settled try_acquire clock deadline work result events
      → Settled try_acquire clock deadline work result (tried false ∷ slept n ∷ events)
  Settled-wait n short (held waits attempt w free r e) =
      held (tried false ∷ slept n ∷ waits) attempt (refl, (short, w)) free r
        (ap (λ es. tried false ∷ slept n ∷ es) e)
  Settled-wait n short (gave_up waits attempt w taken late r e) =
      gave_up (tried false ∷ slept n ∷ waits) attempt (refl, (short, w)) taken late r
        (ap (λ es. tried false ∷ slept n ∷ es) e)

module _ {A : Type 0} (try_acquire : ℕ → Bool) (clock : ℕ → ℕ) (work : Outcome A) where
  poll-Settled :
      (deadline fuel attempt : ℕ)
      → Advances clock deadline
      → deadline - clock attempt + poll_interval_ms ≤ poll_interval_ms * fuel
      → (result : Outcome A) × (events : List LockEvent) × (poll try_acquire clock deadline work
            fuel attempt
          ≡ some (result, events))
        × Settled try_acquire clock deadline work result events
  unfolding poll
  poll-Settled deadline zero attempt adv h = absurd (omega arith)
  poll-Settled deadline (suc fuel) attempt adv h = elim (Bool-cases (try_acquire attempt)) [
    | inl free ↦
        (work, tried true ∷ ran ∷ released ∷ [], rw free, held [] attempt tt free refl refl)
    | inr taken ↦ elim (Bool-cases (leb deadline (clock attempt))) [
      | inl late ↦ (
        lock_timeout,
        tried false ∷ [],
        rw (taken, late),
        gave_up [] attempt tt taken (ground arith) refl refl,
      )
      | inr early ↦
          let (result, events, found, settled) =
            poll-Settled deadline fuel (suc attempt) adv (ground (arith, adv attempt)) in
          let pause = min poll_interval_ms (deadline - clock attempt) in
          (
            result,
            tried false ∷ slept pause ∷ events,
            rw (taken, early, found),
            Settled-wait pause (omega arith) settled,
          )
    ]
  ]

-- The bound on the attempts: one for each poll interval of the timeout, and two.
abbrev pub attempts : ℕ → ℕ
attempts timeout_ms = timeout_ms / poll_interval_ms + 2

-- If each sleep lasts at least as long as it is asked to, and the clock does not start behind, the
-- call settles after at most one attempt for each 250 ms of the timeout, and two: it takes the
-- lock, runs the work and releases the lock, or it gives up after the deadline with the work not
-- run and nothing to release.
pub with_branch_lock-Settled :
    {A : Type 0} (try_acquire : ℕ → Bool) (clock : ℕ → ℕ) (start timeout_ms : ℕ) (work : Outcome A)
    → Advances clock (start + timeout_ms)
    → start ≤ clock 0
    → (result : Outcome A) × (events : List LockEvent) × (with_branch_lock try_acquire clock start
          timeout_ms work
          (attempts timeout_ms)
        ≡ some (result, events))
      × Settled try_acquire clock (start + timeout_ms) work result events
unfolding with_branch_lock
with_branch_lock-Settled try_acquire clock start timeout_ms work adv behind =
    poll-Settled try_acquire clock work (start + timeout_ms) (attempts timeout_ms) 0 adv
      (omega arith)
