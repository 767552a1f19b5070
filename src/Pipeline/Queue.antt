-- ===== src/Pipeline/Queue.antt =====
-- pipeline/queue.ts: `createQueue`. JavaScript runs one callback at a time, so the state is stepped by
-- the pieces of code between two `await`s. A job is a number. `waiting` holds the jobs whose
-- promise is pending; `woken` those whose promise is resolved and whose continuation has not run.
pub mod Accounting
pub mod Overrun
pub mod Draining
use urateam.Prelude.{ℕ, ◌+◌, ◌-◌, Bool, true, false, List, [], ◌∷◌, ◌++◌, ◌≡◌, ltb, if◌then◌else◌}

pub record WorkQueue : Type 0 where
  pub running : ℕ
  pub pending : ℕ
  pub waiting : List ℕ
  pub woken : List ℕ

unfoldable pub create_queue : WorkQueue
create_queue = record { running = 0; pending = 0; waiting = []; woken = [] }

-- `acquire` up to its `await`; whether it returned at once.
unfoldable pub acquire : ℕ → ℕ → WorkQueue → WorkQueue × Bool
acquire concurrency job q =
    if ltb q.running concurrency
    then (record q { running = q.running + 1 }, true)
    else (record q { pending = q.pending + 1; waiting = q.waiting ++ job ∷ [] }, false)

-- `acquire` after its `await`, for the first job whose promise is resolved.
unfoldable pub resume : WorkQueue → List ℕ → WorkQueue
resume q rest = record q { pending = q.pending - 1; running = q.running + 1; woken = rest }

-- `waiting.shift()`, and the call of what it returns.
unfoldable pub wake_next : WorkQueue → List ℕ → WorkQueue
wake_next q [] = q
wake_next q (next ∷ rest) = record q { waiting = rest; woken = q.woken ++ next ∷ [] }

unfoldable pub release : WorkQueue → WorkQueue
unfolding wake_next
release q = wake_next (record q { running = q.running - 1 }) q.waiting

-- The queue with the jobs that run, and the history: the jobs that had to wait and those of them
-- that went on, each in order.
pub record System : Type 0 where
  pub queue : WorkQueue
  pub holders : List ℕ
  pub blocked : List ℕ
  pub resumed : List ℕ

abbrev pub initial : System
initial = record { queue = create_queue; holders = []; blocked = []; resumed = [] }

-- `enqueue` calls `acquire`, runs the job, and calls `release` in its `finally`; the schedule chooses.
pub data Step (concurrency : ℕ) : System → System → Type 0 where
  start :
      (s : System) (job : ℕ) {t : System}
      → t ≡ record s { queue = (acquire concurrency job s.queue).0; holders = job ∷ s.holders }
      → ltb s.queue.running concurrency ≡ true
      → Step concurrency s t
  block :
      (s : System) (job : ℕ) {t : System}
      → t
        ≡ record s { queue = (acquire concurrency job s.queue).0; blocked = s.blocked ++ job ∷ [] }
      → ltb s.queue.running concurrency ≡ false
      → Step concurrency s t
  wake :
      (s : System) (job : ℕ) (rest : List ℕ) {t : System}
      → s.queue.woken ≡ job ∷ rest
      → t ≡ record s {
        queue = resume s.queue rest;
        holders = job ∷ s.holders;
        resumed = s.resumed ++ job ∷ [];
      }
      → Step concurrency s t
  finish :
      (s : System) (before : List ℕ) (job : ℕ) (after : List ℕ) {t : System}
      → s.holders ≡ before ++ job ∷ after
      → t ≡ record s { queue = release s.queue; holders = before ++ after }
      → Step concurrency s t

pub data Reach (concurrency : ℕ) : System → Type 0 where
  here : {s : System} → s ≡ initial → Reach concurrency s
  next : {s t : System} → Reach concurrency s → Step concurrency s t → Reach concurrency t
