-- ===== src/JobQueue/Retries.antt =====
-- Where the jobs of packages/core/src/services/events/job-queue.ts end up.
use pezhwan.Base.{
  ℕ, zero, suc, ◌+◌, ◌<◌, ◌≤◌, ◌≡◌, refl, inl, inr, Bool, true, false, ◌&&◌, List, [], ◌∷◌, ◌++◌,
  Option, none, some, leb, ◌==◌, if◌then◌else◌, arith, Bool-cases, Option-cases, All,
}
use pezhwan.JobQueue.{
  Job, Queue, Deps, next_due, requeue, process, tried, drain_loop, drain, enqueue, fire, new_job,
  sort_by_time,
}
use pezhwan.JobQueue.Drains.{unhandled, budget, drain-ends}
use pezhwan.JobQueue.Totals.{total, total-append, total-next_due, total-sort}

abbrev by_id : ℕ → Job → ℕ
by_id i j = if j.id == i then 1 else 0

-- How many jobs of the id there are.
abbrev pub held : ℕ → List Job → ℕ
held i l = total (by_id i) l

-- Pending, succeeded or failed.
abbrev pub everywhere : ℕ → Queue → ℕ
everywhere i q = held i q.jobs + held i q.succeeded + held i q.failed

abbrev pub AllExhausted : Queue → Type 0
AllExhausted q = All (λ j. j.max_attempts ≤ j.attempts) q.failed

AllExhausted-append :
    (l : List Job) (j : Job)
    → j.max_attempts ≤ j.attempts
    → All (λ j. j.max_attempts ≤ j.attempts) l
    → All (λ j. j.max_attempts ≤ j.attempts) (l ++ j ∷ [])
AllExhausted-append [] j h a = (h, tt)
AllExhausted-append (k ∷ l) j h (b, a) = (b, AllExhausted-append l j h a)

module _ (deps : Deps) where
  abbrev Keeps : (Queue → Type 0) → Type 0
  Keeps P =
      (q : Queue) (j : Job) (rest : List Job) (m : ℕ)
      → (next_due deps q.reads q.jobs).0 ≡ some (j, rest)
      → P q
      → P (process deps j (record q { jobs = rest; reads = m }))

  -- What the processing of a due job keeps, and does not speak of the readings, a drain keeps.
  loop-keeps :
      (P : Queue → Type 0)
      → ((q : Queue) (m : ℕ) → P q → P (record q { reads = m }))
      → Keeps P
      → (fuel : ℕ) (q r : Queue) → drain_loop deps fuel q ≡ some r
      → P q
      → P r
  unfolding drain_loop
  loop-keeps P reading step zero q r h p = cc
  loop-keeps P reading step (suc fuel) q r h p =
      let m = (next_due deps q.reads q.jobs).1 in
      elim (Option-cases (next_due deps q.reads q.jobs).0) [
        | inl nothing ↦
            let last : some (record q { reads = m }) ≡ some r = rw (drain_loop, nothing) at h in
            let same : record q { reads = m } ≡ r = cc in rw (← same) (reading q m p)
        | inr ((j, rest), at) ↦
            let further : drain_loop deps fuel
                  (process deps j (record q { jobs = rest; reads = m }))
                ≡ some r =
              rw (drain_loop, at) at h in
            loop-keeps P reading step fuel (process deps j (record q { jobs = rest; reads = m })) r
              further (step q j rest m at p)
      ]

  process-everywhere :
      (i : ℕ) (j : Job) (q : Queue) → everywhere i (process deps j q) ≡ by_id i j + everywhere i q
  unfolding process requeue
  process-everywhere i j q = elim (Bool-cases (deps.has_handler j.name)) [
    | inr unknown ↦ rw unknown (omega (arith, total-append (by_id i) q.jobs _))
    | inl known ↦ rw known (elim (Bool-cases (deps.returns q.reads j)) [
      | inl good ↦ rw good (omega (arith, total-append (by_id i) q.succeeded j))
      | inr bad ↦ rw bad (elim (Bool-cases (leb j.max_attempts (j.attempts + 1))) [
        | inl last ↦ rw last (omega (arith, total-append (by_id i) q.failed (tried deps j)))
        | inr more ↦ rw more (omega (arith, total-append (by_id i) q.jobs _))
      ])
    ])
  ]

  process-AllExhausted : (j : Job) (q : Queue) → AllExhausted q → AllExhausted (process deps j q)
  unfolding process requeue
  process-AllExhausted j q a = elim (Bool-cases (deps.has_handler j.name)) [
    | inr unknown ↦ rw unknown a
    | inl known ↦ rw known (elim (Bool-cases (deps.returns q.reads j)) [
      | inl good ↦ rw good a
      | inr bad ↦ rw bad (elim (Bool-cases (leb j.max_attempts (j.attempts + 1))) [
        | inl last ↦ rw last (AllExhausted-append q.failed (tried deps j) (ground arith) a)
        | inr more ↦ rw more a
      ])
    ])
  ]

  abbrev with_handler : ℕ → Job → ℕ
  with_handler i j = if (j.id == i) && deps.has_handler j.name then 1 else 0

  -- The jobs of the id whose name has a handler.
  abbrev pub handled : ℕ → List Job → ℕ
  handled i l = total (with_handler i) l

  -- So many jobs of the id are pending, and none has a handler.
  abbrev Stuck : ℕ → ℕ → Queue → Type 0
  Stuck i n q = (held i q.jobs ≡ n) × (handled i q.jobs ≡ 0)

  requeue-Stuck :
      (i n : ℕ) (j : Job) (q : Queue)
      → held i q.jobs + by_id i j ≡ n
      → handled i q.jobs + with_handler i j ≡ 0
      → Stuck i n (requeue deps (tried deps j) q)
  unfolding requeue
  requeue-Stuck i n j q h k = (
    omega (arith, total-append (by_id i) q.jobs _),
    omega (arith, total-append (with_handler i) q.jobs _),
  )

  process-Stuck :
      (i n : ℕ) (j : Job) (q : Queue)
      → held i q.jobs + by_id i j ≡ n
      → handled i q.jobs + with_handler i j ≡ 0
      → Stuck i n (process deps j q)
  unfolding process
  process-Stuck i n j q h k = elim (Bool-cases (deps.has_handler j.name)) [
    | inr unknown ↦ rw unknown (requeue-Stuck i n j q h k)
    | inl known ↦
        let other : (j.id == i) ≡ false = ground arith in
        rw known (elim (Bool-cases (deps.returns q.reads j)) [
          | inl good ↦ rw good (ground arith, ground arith)
          | inr bad ↦ rw bad (elim (Bool-cases (leb j.max_attempts (j.attempts + 1))) [
            | inl last ↦ rw last (ground arith, ground arith)
            | inr more ↦ rw more (requeue-Stuck i n j q h k)
          ])
        ])
  ]

  drain-keeps :
      (P : Queue → Type 0)
      → ((q : Queue) (m : ℕ) → P q → P (record q { reads = m }))
      → ((q : Queue) (b : Bool) → P q → P (record q { running = b }))
      → Keeps P
      → (fuel : ℕ) (q r : Queue) → drain deps fuel q ≡ some r
      → P q
      → P r
  unfolding drain
  drain-keeps P reading idling step fuel q r h p = elim (Bool-cases q.running) [
    | inl busy ↦
        let same : some (record q { running = true }) ≡ some r = rw busy at h in
        let e : record q { running = true } ≡ r = cc in rw (← e) (idling q true p)
    | inr idle ↦ elim (Option-cases (drain_loop deps fuel (record q { running = true }))) [
      | inl nothing ↦ cc (rw (idle, nothing) at h)
      | inr (s, at) ↦
          let same : some (record s { running = false }) ≡ some r = rw (idle, at) at h in
          let e : record s { running = false } ≡ r = cc in
          rw (← e) (
            idling s false
              (loop-keeps P reading step fuel (record q { running = true }) s at (idling q true p)))
    ]
  ]

-- What a drain that returns keeps, whatever jobs have a handler.
returned-accounts :
    (deps : Deps) (i fuel : ℕ) (q r : Queue)
    → drain deps fuel q ≡ some r
    → AllExhausted q
    → (everywhere i r ≡ everywhere i q) × AllExhausted r
returned-accounts deps i fuel q r h a =
    drain-keeps deps (λ s. (everywhere i s ≡ everywhere i q) × AllExhausted s) (λ s m p. p)
      (λ s b p. p)
      (λ s j rest m at (e, b). (
        omega (
          arith,
          e,
          total-next_due deps (by_id i) s.reads s.jobs j rest at,
          process-everywhere deps i j (record s { jobs = rest; reads = m }),
        ),
        process-AllExhausted deps j (record s { jobs = rest; reads = m }) b,
      ))
      fuel q r h (refl, a)

-- A job without a handler is never given up: whatever its limit of attempts, a drain that returns
-- leaves as many jobs of its id pending as there were. No job of the id has a handler for its name.
pub drain-no_handler :
    (deps : Deps) (i fuel : ℕ) (q r : Queue)
    → drain deps fuel q ≡ some r
    → handled deps i q.jobs ≡ 0
    → held i r.jobs ≡ held i q.jobs
drain-no_handler deps i fuel q r h none_handled =
    (drain-keeps deps (Stuck deps i (held i q.jobs)) (λ s m p. p) (λ s b p. p)
      (λ s j rest m at (e, b).
        process-Stuck deps i (held i q.jobs) j (record s { jobs = rest; reads = m })
          (omega (arith, e, total-next_due deps (by_id i) s.reads s.jobs j rest at))
          (omega (arith, b, total-next_due deps (with_handler deps i) s.reads s.jobs j rest at)))
      fuel q r h (refl, none_handled)).0

-- Of `enqueue` and of the timer, where their drain returns: a queued job is one more of its id.
enqueue-accounts :
    (deps : Deps) (i fuel id name payload : ℕ) (run_at max_attempts : Option ℕ) (q r : Queue)
    → enqueue deps fuel id name payload run_at max_attempts q ≡ some r
    → AllExhausted q
    → (everywhere i r ≡ (if id == i then 1 else 0) + everywhere i q) × AllExhausted r
unfolding enqueue new_job
enqueue-accounts deps i fuel id name payload run_at max_attempts q r h a =
    let (j, n) = new_job deps id name payload run_at max_attempts q.reads in
    let joined = q.jobs ++ j ∷ [] in
    let (e, b) =
      returned-accounts deps i fuel (record q { jobs = sort_by_time joined; reads = n }) r h a in
    (omega (arith, e, total-sort (by_id i) joined, total-append (by_id i) q.jobs j), b)

fire-accounts :
    (deps : Deps) (i fuel : ℕ) (q r : Queue)
    → fire deps fuel q ≡ some r
    → AllExhausted q
    → (everywhere i r ≡ everywhere i q) × AllExhausted r
unfolding fire
fire-accounts deps i fuel q r h a = returned-accounts deps i fuel (record q { timer = none }) r h a

-- No job is lost or done twice, and none is given up early: with one round of fuel more than the runs
-- that the limits leave to the jobs, a drain of a queue that is not being drained returns; it keeps the
-- number of jobs of each id that are pending, have succeeded or have failed, all taken together; and
-- only jobs that have been tried as often as their limit allows have failed after it, if that was so
-- before. All jobs have a handler, and the clock does not run backwards.
pub drain-accounts :
    (deps : Deps) (i fuel : ℕ) (q : Queue)
    → ((n : ℕ) → deps.clock n ≤ deps.clock (suc n))
    → q.running ≡ false
    → unhandled deps q.jobs ≡ 0
    → budget q.jobs < fuel
    → AllExhausted q
    → (r : Queue) × (drain deps fuel q ≡ some r)
      × (everywhere i r ≡ everywhere i q)
      × AllExhausted r
drain-accounts deps i fuel q ascends idle known enough a =
    let (r, ends, _, _) = drain-ends deps q fuel ascends idle known enough in
    let (same, b) = returned-accounts deps i fuel q r ends a in (r, ends, same, b)
