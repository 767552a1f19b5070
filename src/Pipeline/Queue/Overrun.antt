-- ===== src/Pipeline/Queue/Overrun.antt =====
-- The bound of pipeline/queue.ts, and schedules where a job arrives between a `release` that wakes a
-- waiter and the waiter's continuation.
use urateam.Prelude.{
  ℕ, zero, suc, ◌+◌, ◌≤◌, ◌<◌, ◌≡◌, refl, ap, inl, inr, true, false, List, [], ◌∷◌, arith, ltb,
  lt→ltb, length, length-append, List-cases,
}
use urateam.Pipeline.Queue.{
  System, Step, start, block, wake, finish, Reach, here, next, create_queue, acquire, resume,
  release, wake_next, initial,
}
use urateam.Pipeline.Queue.Accounting.{Inv, Reach-Inv}

-- A step in which no job takes a slot while a woken job is on its way.
abbrev IsCalm : {concurrency : ℕ} {s t : System} → Step concurrency s t → Type 0
IsCalm (start s job e h) = s.queue.woken ≡ []
IsCalm (block s job e h) = Unit
IsCalm (wake s job rest w e) = Unit
IsCalm (finish s before job after h e) = Unit

pub data CalmReach (concurrency : ℕ) : System → Type 0 where
  calm_here : {s : System} → s ≡ initial → CalmReach concurrency s
  calm_next :
      {s t : System}
      → CalmReach concurrency s
      → (st : Step concurrency s t) → IsCalm st
      → CalmReach concurrency t

CalmReach-Reach : {concurrency : ℕ} {s : System} → CalmReach concurrency s → Reach concurrency s
CalmReach-Reach (calm_here e) = here e
CalmReach-Reach (calm_next r st c) = next (CalmReach-Reach r) st

abbrev Within : ℕ → System → Type 0
Within concurrency s = s.queue.running + length s.queue.woken ≤ concurrency

release-Within :
    (concurrency : ℕ) (s : System)
    → 0 < s.queue.running
    → Within concurrency s
    → (release s.queue).running + length (release s.queue).woken ≤ concurrency
unfolding release
release-Within concurrency s positive h = elim (List-cases s.queue.waiting) [
  | inl e ↦ rw (e, wake_next) (omega arith)
  | inr (job, rest, e) ↦ rw (e, wake_next) (omega (arith, length-append s.queue.woken (job ∷ [])))
]

Step-Within :
    {concurrency : ℕ} {s t : System} (st : Step concurrency s t)
    → IsCalm st
    → Inv concurrency s
    → Within concurrency s
    → Within concurrency t
unfolding acquire resume
Step-Within (start s job e h) calm v w = rw (e, h) (ground (arith, ap length calm))
Step-Within (block s job e h) calm v w = rw (e, h) w
Step-Within (wake s job rest q e) calm v w = rw e (omega (arith, ap length q))
Step-Within {concurrency} (finish s before job after h e) calm v w = rw e (
    release-Within concurrency s
      (omega (arith, v.counted, ap length h, length-append before (job ∷ after))) w)

-- While no job takes a slot in the time between a wake-up and the continuation of the woken job, no
-- more jobs run than the concurrency allows.
pub running-le-concurrency :
    {concurrency : ℕ} {s : System} → CalmReach concurrency s → length s.holders ≤ concurrency
unfolding create_queue
running-le-concurrency {concurrency} {s} r =
    omega (arith, within r, (Reach-Inv (CalmReach-Reach r)).counted)
  where
    within : {t : System} → CalmReach concurrency t → Within concurrency t
    within (calm_here e) = rw e (omega arith)
    within (calm_next r st calm) = Step-Within st calm (Reach-Inv (CalmReach-Reach r)) (within r)

replicate : ℕ → List ℕ
replicate zero = []
replicate (suc n) = 0 ∷ replicate n

-- The queue while `n` jobs run and none waits.
abbrev filled : ℕ → System
filled n = record {
  queue = record { running = n; pending = 0; waiting = []; woken = [] };
  holders = replicate n;
  blocked = [];
  resumed = [];
}

Reach-filled : (concurrency n : ℕ) → n ≤ concurrency → Reach concurrency (filled n)
unfolding replicate create_queue acquire
Reach-filled concurrency zero h = here refl
Reach-filled concurrency (suc n) h =
    next (Reach-filled concurrency n (omega arith))
      (start (filled n) 0 (rw (lt→ltb n concurrency h) (ground arith)) (lt→ltb n concurrency h))

length-replicate : (n : ℕ) → length (replicate n) ≡ n
unfolding replicate
length-replicate zero = refl
length-replicate (suc n) = ap suc (length-replicate n)

-- Job 1 waits while the slots are full.
abbrev one_waits : ℕ → System
one_waits n = record {
  queue = record { running = n; pending = 1; waiting = 1 ∷ []; woken = [] };
  holders = replicate n;
  blocked = 1 ∷ [];
  resumed = [];
}

-- A job has finished and woken job 1, which has not gone on yet.
abbrev one_woken : ℕ → System
one_woken k = record {
  queue = record { running = k; pending = 1; waiting = []; woken = 1 ∷ [] };
  holders = replicate k;
  blocked = 1 ∷ [];
  resumed = [];
}

-- Job 2 has taken the slot of job 1.
abbrev slot_taken : ℕ → System
slot_taken k = record {
  queue = record { running = k + 1; pending = 1; waiting = []; woken = 1 ∷ [] };
  holders = 2 ∷ replicate k;
  blocked = 1 ∷ [];
  resumed = [];
}

module _ (k : ℕ) where
  Reach-one_waits : Reach (suc k) (one_waits (suc k))
  unfolding acquire
  Reach-one_waits =
      let full : ltb (suc k) (suc k) ≡ false = ground arith in
      next (Reach-filled (suc k) (suc k) (omega arith)) (block (filled (suc k)) 1 (rw full) full)

  Reach-one_woken : Reach (suc k) (one_woken k)
  unfolding release replicate
  Reach-one_woken =
      next Reach-one_waits (finish (one_waits (suc k)) [] 0 (replicate k) refl (ground arith))

  Reach-slot_taken : Reach (suc k) (slot_taken k)
  unfolding acquire
  Reach-slot_taken =
      let free : ltb k (suc k) ≡ true = lt→ltb k (suc k) (omega arith) in
      next Reach-one_woken (start (one_woken k) 2 (rw free) free)

-- For each positive concurrency some schedule has one job more running than it allows: a job
-- arrives after the release that woke a waiter and before the waiter goes on.
pub overrun :
    (concurrency : ℕ)
    → 0 < concurrency
    → (s : System) × Reach concurrency s × (length s.holders ≡ concurrency + 1)
unfolding resume
overrun zero positive = absurd (omega arith)
overrun (suc k) positive = (
  record (slot_taken k) {
    queue = resume (slot_taken k).queue [];
    holders = 1 ∷ 2 ∷ replicate k;
    resumed = 1 ∷ [];
  },
  next (Reach-slot_taken k) (wake (slot_taken k) 1 [] refl refl),
  omega (arith, length-replicate k),
)
