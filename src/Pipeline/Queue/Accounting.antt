-- ===== src/Pipeline/Queue/Accounting.antt =====
-- What holds of the queue of pipeline/queue.ts on every schedule.
use mathlib.Core.List.{append_assoc}
use urateam.Prelude.{
  ℕ, ◌+◌, ◌≤◌, ◌<◌, ◌≡◌, refl, sym, ap, ◌∙◌, inl, inr, true, false, List, [], ◌∷◌, ◌++◌, arith, ltb,
  length, length-append, List-cases,
}
use urateam.Pipeline.Queue.{
  System, Step, start, block, wake, finish, Reach, here, next, create_queue, acquire, resume,
  release, wake_next, initial,
}

pub record Inv (concurrency : ℕ) (s : System) : Type 0 where
  -- The counters count what they are named for.
  pub counted : s.queue.running ≡ length s.holders
  pub pended : s.queue.pending ≡ length s.queue.waiting + length s.queue.woken
  -- A job waits only while the slots are taken or promised.
  pub busy : 0 < length s.queue.waiting → concurrency ≤ s.queue.running + length s.queue.woken
  -- The jobs that waited go on in their order.
  pub fair : s.resumed ++ (s.queue.woken ++ s.queue.waiting) ≡ s.blocked

initial-Inv : (concurrency : ℕ) → Inv concurrency initial
unfolding create_queue
initial-Inv concurrency = record {
  counted = refl;
  pended = omega arith;
  busy = omega arith;
  fair = refl;
}

module _ {concurrency : ℕ} {s : System} (v : Inv concurrency s) where
  start-Inv :
      (job : ℕ)
      → ltb s.queue.running concurrency ≡ true
      → Inv concurrency
          (record s { queue = (acquire concurrency job s.queue).0; holders = job ∷ s.holders })
  unfolding acquire
  start-Inv job h = record {
    counted = rw h (omega (arith, v.counted));
    pended = rw h v.pended;
    busy = rw h (λ w. omega (arith, v.busy w));
    fair = rw h v.fair;
  }

  block-Inv :
      (job : ℕ)
      → ltb s.queue.running concurrency ≡ false
      → Inv concurrency (record s {
        queue = (acquire concurrency job s.queue).0;
        blocked = s.blocked ++ job ∷ [];
      })
  unfolding acquire
  block-Inv job h = record {
    counted = rw h v.counted;
    pended = rw h (omega (arith, v.pended, length-append s.queue.waiting (job ∷ [])));
    busy = rw h (λ w. ground arith);
    fair = rw h (queued ∙ ap (λ jobs. jobs ++ job ∷ []) v.fair);
  }
    where
      queued :
          s.resumed ++ (s.queue.woken ++ (s.queue.waiting ++ job ∷ []))
          ≡ (s.resumed ++ (s.queue.woken ++ s.queue.waiting)) ++ job ∷ []
      queued = simp append_assoc

  wake-Inv :
      (job : ℕ) (rest : List ℕ)
      → s.queue.woken ≡ job ∷ rest
      → Inv concurrency (record s {
        queue = resume s.queue rest;
        holders = job ∷ s.holders;
        resumed = s.resumed ++ job ∷ [];
      })
  unfolding resume
  wake-Inv job rest e = record {
    counted = omega (arith, v.counted);
    pended = omega (arith, v.pended, ap length e);
    busy = λ w. omega (arith, v.busy w, ap length e);
    fair =
        append_assoc s.resumed (job ∷ []) (rest ++ s.queue.waiting)
        ∙ ap (λ w. s.resumed ++ (w ++ s.queue.waiting)) (sym e)
        ∙ v.fair;
  }

  wake_next-Inv :
      (holders : List ℕ)
      → length holders + 1 ≡ length s.holders
      → Inv concurrency (record s { queue = release s.queue; holders = holders })
  unfolding release
  wake_next-Inv holders less = elim (List-cases s.queue.waiting) [
    | inl e ↦ record {
      counted = rw (e, wake_next) (omega (arith, v.counted));
      pended = rw (e, wake_next) v.pended;
      busy = rw (e, wake_next) (λ w. absurd (omega (arith, ap length e)));
      fair = rw (e, wake_next) v.fair;
    }
    | inr (job, rest, e) ↦ record {
      counted = rw (e, wake_next) (omega (arith, v.counted));
      pended =
          rw (e, wake_next)
            (omega (arith, v.pended, ap length e, length-append s.queue.woken (job ∷ [])));
      busy =
          rw (e, wake_next)
            (λ w. omega (
              arith,
              v.busy (omega (arith, ap length e)),
              v.counted,
              ap length e,
              length-append s.queue.woken (job ∷ []),
            ));
      fair =
          rw (e, wake_next)
            (ap (λ w. s.resumed ++ w)
                (append_assoc s.queue.woken (job ∷ []) rest ∙ ap (λ w. s.queue.woken ++ w) (sym e))
              ∙ v.fair);
    }
  ]

pub length-around :
    (before : List ℕ) (job : ℕ) (after : List ℕ)
    → length (before ++ after) + 1 ≡ length (before ++ job ∷ after)
length-around [] job after = omega arith
length-around (x ∷ before) job after = omega (arith, length-around before job after)

Step-Inv :
    {concurrency : ℕ} {s t : System} → Step concurrency s t → Inv concurrency s → Inv concurrency t
Step-Inv (start s job e h) v = rw e (start-Inv v job h)
Step-Inv (block s job e h) v = rw e (block-Inv v job h)
Step-Inv (wake s job rest w e) v = rw e (wake-Inv v job rest w)
Step-Inv (finish s before job after h e) v =
    rw e (wake_next-Inv v (before ++ after) (length-around before job after ∙ ap length (sym h)))

-- On every schedule `running` counts the jobs that run and `pending` those that wait; a job waits
-- only while as many slots as the concurrency are taken or promised to a job that was woken; and
-- the jobs that had to wait go on in the order in which they came.
pub Reach-Inv : {concurrency : ℕ} {s : System} → Reach concurrency s → Inv concurrency s
Reach-Inv {concurrency} (here e) = rw e (initial-Inv concurrency)
Reach-Inv (next r st) = Step-Inv st (Reach-Inv r)

-- No wake-up is lost: in a state where no job runs and none was woken, no job waits.
pub none_stranded :
    {concurrency : ℕ} {s : System}
    → Reach concurrency s
    → 0 < concurrency
    → s.holders ≡ []
    → s.queue.woken ≡ []
    → s.queue.waiting ≡ []
none_stranded {s} r positive idle quiet = elim (List-cases s.queue.waiting) [
  | inl e ↦ e
  | inr (job, rest, e) ↦
      let v = Reach-Inv r in
      absurd (
        omega
          (arith, v.busy (omega (arith, ap length e)), v.counted, ap length idle, ap length quiet))
]
