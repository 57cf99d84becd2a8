-- ===== src/JobQueue.antt =====
-- packages/core/src/services/events/job-queue.ts: the queue of jobs with its retries. The clock is a
-- parameter: its n-th reading; so is what a handler does, which returns or throws and, here, does not
-- itself call the queue. The draws of the ids are arguments.
pub mod Totals
pub mod Drains
pub mod Retries
mod Tests
use pezhwan.Base.{
  ℕ, zero, suc, ◌+◌, ◌*◌, ◌^◌, Bool, true, false, List, [], ◌∷◌, ◌++◌, Option, none, some, length,
  ltb, leb, if◌then◌else◌,
}

pub record Job : Type 0 where
  pub id : ℕ
  pub name : ℕ
  pub payload : ℕ
  pub attempts : ℕ
  pub max_attempts : ℕ
  pub run_at : ℕ
  pub created_at : ℕ

-- Jobs are the pending ones; `succeeded` has the calls of handlers that returned, and `failed` the
-- events of onFailed, both in order. The timer is the time at which it drains the queue, and `reads`
-- counts the readings of the clock.
pub record Queue : Type 0 where
  pub jobs : List Job
  pub running : Bool
  pub timer : Option ℕ
  pub succeeded : List Job
  pub failed : List Job
  pub reads : ℕ

pub record Deps : Type 0 where
  pub max_attempts : ℕ
  pub default_backoff_ms : ℕ
  pub clock : ℕ → ℕ
  -- Whether a handler is registered for the name, and whether it returns for the job when it is called
  -- after so many readings of the clock.
  pub has_handler : ℕ → Bool
  pub returns : ℕ → Job → Bool

abbrev pub or_default : Option ℕ → ℕ → ℕ
or_default none d = d
or_default (some n) d = n

-- A stable sort by ascending time.
pub insert_by_time : Job → List Job → List Job
insert_by_time j [] = j ∷ []
insert_by_time j (k ∷ l) = if ltb k.run_at j.run_at then k ∷ insert_by_time j l else j ∷ k ∷ l

pub sort_by_time : List Job → List Job
unfolding insert_by_time
sort_by_time [] = []
sort_by_time (j ∷ l) = insert_by_time j (sort_by_time l)

abbrev pub with_earlier : Job → Option (Job × List Job) → Option (Job × List Job)
with_earlier j none = none
with_earlier j (some (k, l)) = some (k, j ∷ l)

module _ (deps : Deps) where
  -- The first job that is due, and the others. Each test reads the clock.
  unfoldable pub next_due : ℕ → List Job → Option (Job × List Job) × ℕ
  next_due n [] = (none, n)
  next_due n (j ∷ l) =
      let (found, m) = next_due (suc n) l in
      if leb j.run_at (deps.clock n) then (some (j, l), suc n) else (with_earlier j found, m)

  abbrev pub tried : Job → Job
  tried j = record j { attempts = j.attempts + 1 }

  -- The job is put back for later, and its timer replaces the one that was set.
  unfoldable pub requeue : Job → Queue → Queue
  requeue j q =
      let later = deps.clock q.reads + deps.default_backoff_ms * 2 ^ j.attempts in
      record q {
        jobs = q.jobs ++ record j { run_at = later } ∷ [];
        timer = some later;
        reads = q.reads + 1;
      }

  abbrev pub reject : Job → Queue → Queue
  reject j q = record q { failed = q.failed ++ j ∷ [] }

  abbrev pub after_failure : Job → Queue → Queue
  after_failure j q = if leb j.max_attempts j.attempts then reject j q else requeue j q

  unfoldable pub process : Job → Queue → Queue
  process j q =
      if deps.has_handler j.name
      then (if deps.returns q.reads j
          then record q { succeeded = q.succeeded ++ j ∷ [] }
          else after_failure (tried j) q)
      else requeue (tried j) q

  -- The loop of a drain. None where the fuel does not suffice.
  unfoldable pub drain_loop : ℕ → Queue → Option Queue
  drain_loop zero q = none
  drain_loop (suc fuel) q = elim (next_due q.reads q.jobs).0 [
    | none ↦ some (record q { reads = (next_due q.reads q.jobs).1 })
    | some (j, rest) ↦
        drain_loop fuel (process j (record q { jobs = rest; reads = (next_due q.reads q.jobs).1 }))
  ]

  abbrev pub stopped : Option Queue → Option Queue
  stopped none = none
  stopped (some q) = some (record q { running = false })

  unfoldable pub drain : ℕ → Queue → Option Queue
  drain fuel q =
      if q.running then some q else stopped (drain_loop fuel (record q { running = true }))

  -- What the timer does when its time has come.
  unfoldable pub fire : ℕ → Queue → Option Queue
  fire fuel q = drain fuel (record q { timer = none })

  -- The time of a job that is given none is read from the clock.
  abbrev pub run_time : Option ℕ → ℕ → ℕ × ℕ
  run_time none n = (deps.clock n, suc n)
  run_time (some t) n = (t, n)

  -- The clock is read for the id, for the time where none is given, and for the creation.
  unfoldable pub new_job :
      (id name payload : ℕ) → (run_at max_attempts : Option ℕ) → (reads : ℕ) → Job × ℕ
  new_job id name payload run_at max_attempts reads =
      let (t, n) = run_time run_at (suc reads) in
      (
        record {
          id = id;
          name = name;
          payload = payload;
          attempts = 0;
          max_attempts = or_default max_attempts deps.max_attempts;
          run_at = t;
          created_at = deps.clock n;
        },
        suc n,
      )

  -- A job joins the others, which are sorted, and the queue is drained.
  unfoldable pub enqueue :
      (fuel id name payload : ℕ) → (run_at max_attempts : Option ℕ) → Queue → Option Queue
  unfolding sort_by_time
  enqueue fuel id name payload run_at max_attempts q =
      let (j, n) = new_job id name payload run_at max_attempts q.reads in
      drain fuel (record q { jobs = sort_by_time (q.jobs ++ j ∷ []); reads = n })

  abbrev pub pending : Queue → ℕ
  pending q = length q.jobs
