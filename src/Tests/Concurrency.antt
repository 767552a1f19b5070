-- ===== src/Tests/Concurrency.antt =====
-- The queue and the branch lock of packages/core/src/pipeline, run on short schedules.
use urateam.Prelude.{ℕ, ◌≡◌, refl, ◌≤◌, ◌+◌, ◌*◌, ◌==◌, Bool, some, List, [], ◌∷◌, arith, length}
use urateam.Pipeline.Queue.{
  System, Step, start, block, finish, Reach, here, next, create_queue, acquire, release, initial,
}
use urateam.Pipeline.Queue.Accounting.{Inv, Reach-Inv}
use urateam.Pipeline.Queue.Draining.{IsStuck, work, drains, stop, more}
use urateam.Pipeline.Queue.Overrun.{calm_here, calm_next, running-le-concurrency, overrun}
use urateam.Pipeline.BranchLock.{Outcome, returned, LockEvent, with_branch_lock}
use urateam.Pipeline.BranchLock.Polling.{Settled, Advances, attempts, with_branch_lock-Settled}

-- Job 7 runs, and job 8 waits for the only slot.
abbrev one_waits : System
one_waits = record {
  queue = record { running = 1; pending = 1; waiting = 8 ∷ []; woken = [] };
  holders = 7 ∷ [];
  blocked = 8 ∷ [];
  resumed = [];
}

abbrev one_runs : System
one_runs = record {
  queue = record { running = 1; pending = 0; waiting = []; woken = [] };
  holders = 7 ∷ [];
  blocked = [];
  resumed = [];
}

abbrev all_done : System
all_done = record {
  queue = record { running = 0; pending = 0; waiting = []; woken = [] };
  holders = [];
  blocked = [];
  resumed = [];
}

first_job : Step 1 initial one_runs
unfolding create_queue acquire
first_job = start initial 7 refl refl

second_job : Step 1 one_runs one_waits
unfolding acquire
second_job = block one_runs 8 refl refl

first_done : Step 1 one_runs all_done
unfolding release
first_done = finish one_runs [] 7 [] refl refl

Reach-Inv_example : Inv 1 one_waits
Reach-Inv_example = Reach-Inv (next (next (here refl) first_job) second_job)

drains_example :
    (1 ≤ work one_runs)
    × (IsStuck 1 all_done
        → (all_done.holders ≡ [])
          × (all_done.queue.woken ≡ [])
          × (all_done.queue.waiting ≡ [])
          × (all_done.resumed ≡ one_runs.blocked))
unfolding first_done
drains_example =
    drains (next (here refl) first_job) (omega arith) (more first_done refl (stop refl))

running-le-concurrency_example : length one_runs.holders ≤ 1
unfolding create_queue acquire
running-le-concurrency_example =
    running-le-concurrency (calm_next (calm_here refl) (start initial 7 refl refl) refl)

overrun_example : (s : System) × Reach 1 s × (length s.holders ≡ 1 + 1)
overrun_example = overrun 1 (omega arith)

-- The lock is taken until the third attempt; each sleep is exact.
abbrev third_try : ℕ → Bool
third_try attempt = attempt == 2

abbrev clock : ℕ → ℕ
clock k = 1000 + 250 * k

exact_sleeps : Advances clock 6000
exact_sleeps k = ground arith

with_branch_lock-Settled_example :
    (result : Outcome ℕ) × (events : List LockEvent) × (with_branch_lock third_try clock 1000 5000
        (returned 5)
        (attempts 5000)
      ≡ some (result, events))
    × Settled third_try clock (1000 + 5000) (returned 5) result events
with_branch_lock-Settled_example =
    with_branch_lock-Settled third_try clock 1000 5000 (returned 5) exact_sleeps (omega arith)
