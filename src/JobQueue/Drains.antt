-- ===== src/JobQueue/Drains.antt =====
-- A drain of packages/core/src/services/events/job-queue.ts ends.
use pezhwan.Base.{
  ℕ, zero, suc, ◌+◌, ◌-◌, ◌*◌, ◌^◌, ◌≤◌, ◌<◌, ◌≡◌, refl, inl, inr, true, false, List, some, leb,
  if◌then◌else◌, arith, Bool-cases, Option-cases, All,
}
use pezhwan.JobQueue.{Job, Queue, Deps, next_due, requeue, process, tried, drain_loop, drain}
use pezhwan.JobQueue.Totals.{
  total, total-append, total-next_due, next_due-reads, next_due-later, Later-weaken,
}

-- How often a job may still be run: once at least, and as often as its limit allows.
abbrev pub runs_left : Job → ℕ
runs_left j = suc (j.max_attempts - suc j.attempts)

abbrev pub budget : List Job → ℕ
budget l = total runs_left l

module _ (deps : Deps) where
  abbrev without_handler : Job → ℕ
  without_handler j = if deps.has_handler j.name then 0 else 1

  abbrev pub unhandled : List Job → ℕ
  unhandled l = total without_handler l

  requeue-total :
      (f : Job → ℕ) (j : Job) (q : Queue)
      → ((t : ℕ) → f (record j { run_at = t }) ≡ f j)
      → total f (requeue deps j q).jobs ≡ total f q.jobs + f j
  unfolding requeue
  requeue-total f j q same = omega (
    total-append f q.jobs
        (record j { run_at = deps.clock q.reads + deps.default_backoff_ms * 2 ^ j.attempts }),
    same (deps.clock q.reads + deps.default_backoff_ms * 2 ^ j.attempts),
    arith,
  )

  requeue-reads : (j : Job) (q : Queue) → (requeue deps j q).reads ≡ q.reads + 1
  unfolding requeue
  requeue-reads j q = refl

  process-budget :
      (j : Job) (q : Queue)
      → deps.has_handler j.name ≡ true
      → suc (budget (process deps j q).jobs) ≤ runs_left j + budget q.jobs
  unfolding process
  process-budget j q h = rw h (elim (Bool-cases (deps.returns q.reads j)) [
    | inl good ↦ rw good (omega arith)
    | inr bad ↦ rw bad (elim (Bool-cases (leb j.max_attempts (j.attempts + 1))) [
      | inl last ↦ rw last (omega arith)
      | inr more ↦ rw more (ground (arith, requeue-total runs_left (tried deps j) q (λ t. refl)))
    ])
  ])

  process-unhandled :
      (j : Job) (q : Queue)
      → unhandled (process deps j q).jobs ≤ without_handler j + unhandled q.jobs
  unfolding process
  process-unhandled j q =
      let e = requeue-total without_handler (tried deps j) q (λ t. refl) in
      elim (Bool-cases (deps.has_handler j.name)) [
        | inr unknown ↦ rw unknown (ground (arith, e))
        | inl known ↦ rw known (elim (Bool-cases (deps.returns q.reads j)) [
          | inl good ↦ rw good (omega arith)
          | inr bad ↦ rw bad (elim (Bool-cases (leb j.max_attempts (j.attempts + 1))) [
            | inl last ↦ rw last (omega arith)
            | inr more ↦ rw more (ground (arith, e))
          ])
        ])
      ]

  process-reads : (j : Job) (q : Queue) → q.reads ≤ (process deps j q).reads
  unfolding process
  process-reads j q = ground (arith, requeue-reads (tried deps j) q)

  process-running : (j : Job) (q : Queue) → (process deps j q).running ≡ q.running
  unfolding process requeue
  process-running j q = ground arith

  module _ (ascends : (n : ℕ) → deps.clock n ≤ deps.clock (suc n)) where
    clock-ascends : (m n : ℕ) → m ≤ n → deps.clock m ≤ deps.clock n
    clock-ascends m zero h = let same : m ≡ 0 = omega arith in rw same (omega arith)
    clock-ascends m (suc n) h = elim (Bool-cases (leb m n)) [
      | inl below ↦ omega (clock-ascends m n (ground arith), ascends n, arith)
      | inr top ↦ let same : m ≡ suc n = ground arith in rw same (omega arith)
    ]

    loop-ends :
        (fuel : ℕ) (q : Queue)
        → unhandled q.jobs ≡ 0
        → budget q.jobs < fuel
        → (r : Queue) × (drain_loop deps fuel q ≡ some r)
          × (r.running ≡ q.running)
          × All (λ j. deps.clock q.reads < j.run_at) r.jobs
    unfolding drain_loop
    loop-ends zero q known enough = absurd (omega (arith, enough))
    loop-ends (suc fuel) q known enough =
        let m = (next_due deps q.reads q.jobs).1 in
        elim (Option-cases (next_due deps q.reads q.jobs).0) [
          | inl nothing ↦ (
            record q { reads = m },
            rw (drain_loop, nothing) refl,
            refl,
            next_due-later deps ascends q.reads q.jobs nothing,
          )
          | inr ((j, rest), at) ↦
              let q1 : Queue = record q { jobs = rest; reads = m } in
              let e = total-next_due deps without_handler q.reads q.jobs j rest at in
              let b = total-next_due deps runs_left q.reads q.jobs j rest at in
              let handled : deps.has_handler j.name ≡ true = ground (arith, e, known) in
              let (r, ends, same, later) =
                loop-ends fuel (process deps j q1) (omega (arith, e, known, process-unhandled j q1))
                  (omega (arith, b, enough, process-budget j q1 handled)) in
              (
                r,
                rw (drain_loop, at) ends,
                rw same (process-running j q1),
                Later-weaken deps ascends (deps.clock q.reads)
                    (deps.clock (process deps j q1).reads) r.jobs
                    (clock-ascends q.reads (process deps j q1).reads
                      (omega (arith, next_due-reads deps q.reads q.jobs, process-reads j q1)))
                    later,
              )
        ]

-- A drain ends: with one round of fuel more than the runs that the limits leave to the jobs, a drain
-- of a queue that is not being drained returns, whichever handlers throw and however late each is, and
-- leaves only jobs that are for later than its start. All jobs have a handler, and the clock does not
-- run backwards.
pub drain-ends :
    (deps : Deps) (q : Queue) (fuel : ℕ)
    → ((n : ℕ) → deps.clock n ≤ deps.clock (suc n))
    → q.running ≡ false
    → unhandled deps q.jobs ≡ 0
    → budget q.jobs < fuel
    → (r : Queue) × (drain deps fuel q ≡ some r)
      × (r.running ≡ false)
      × All (λ j. deps.clock q.reads < j.run_at) r.jobs
unfolding drain
drain-ends deps q fuel ascends idle known enough =
    let (r, ends, _, later) =
      loop-ends deps ascends fuel (record q { running = true }) known enough in
    (record r { running = false }, rw (idle, ends) refl, refl, later)
