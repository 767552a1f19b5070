-- ===== src/Pipeline/BranchLock.antt =====
-- pipeline/distributed-lock.ts: `withBranchLock`. The adapter's answers and the clock are
-- parameters: what the k-th `tryAcquire` returns, and the time at the check after it.
pub mod Polling
use urateam.Prelude.{
  ℕ, zero, suc, ◌+◌, ◌-◌, min, Bool, true, false, Option, none, some, List, [], ◌∷◌, ◌++◌, leb,
  if◌then◌else◌,
}

-- What the call settles with: the work returns or throws, or `LockTimeoutError`.
pub data Outcome (A : Type 0) : Type 0 where
  returned : A → Outcome A
  threw : Outcome A
  lock_timeout : Outcome A

pub data LockEvent : Type 0 where
  tried : Bool → LockEvent
  slept : ℕ → LockEvent
  ran released : LockEvent

abbrev pub poll_interval_ms : ℕ
poll_interval_ms = 250

-- `createNoopLockAdapter`
unfoldable noop_try_acquire : ℕ → Bool
noop_try_acquire attempt = true

abbrev or_false : Option Bool → Bool
or_false none = false
or_false (some acquired) = acquired

-- `createPgLockAdapter`: a query that throws counts as a lock that is not free.
unfoldable pg_try_acquire : (ℕ → Option Bool) → ℕ → Bool
pg_try_acquire execute attempt = or_false (execute attempt)

module _ {A : Type 0} where
  abbrev pub after :
      List LockEvent → Option (Outcome A × List LockEvent) → Option (Outcome A × List LockEvent)
  after waited none = none
  after waited (some (result, events)) = some (result, waited ++ events)

  -- The `while (true)` loop from an attempt on; `none` means that the fuel ran out. `work` is what
  -- `fn` settles with; the `finally` block releases the lock either way.
  unfoldable pub poll :
      (ℕ → Bool) → (ℕ → ℕ) → ℕ → Outcome A → ℕ → ℕ → Option (Outcome A × List LockEvent)
  poll try_acquire clock deadline work zero attempt = none
  poll try_acquire clock deadline work (suc fuel) attempt =
      let again =
        after (tried false ∷ slept (min poll_interval_ms (deadline - clock attempt)) ∷ [])
          (poll try_acquire clock deadline work fuel (suc attempt)) in
      if try_acquire attempt
      then some (work, tried true ∷ ran ∷ released ∷ [])
      else if leb deadline (clock attempt)
      then some (lock_timeout, tried false ∷ [])
      else again

  unfoldable pub with_branch_lock :
      (ℕ → Bool)
      → (ℕ → ℕ)
      → (start timeout_ms : ℕ) → Outcome A
      → ℕ
      → Option (Outcome A × List LockEvent)
  with_branch_lock try_acquire clock start timeout_ms work fuel =
      poll try_acquire clock (start + timeout_ms) work fuel 0
