-- ===== src/JobQueue/Tests.antt =====
-- A queue whose jobs fail, with a clock that goes on by a second at each reading.
use pezhwan.Base.{◌*◌, ◌<◌, ◌≡◌, refl, false, [], ◌∷◌, none, some, ◌==◌, All, arith}
use pezhwan.JobQueue.{Job, Queue, Deps, next_due, requeue, process, drain_loop, drain}
use pezhwan.JobQueue.Drains.{drain-ends}
use pezhwan.JobQueue.Retries.{everywhere, held, AllExhausted, drain-accounts, drain-no_handler}

abbrev deps : Deps
deps = record {
  max_attempts = 3;
  default_backoff_ms = 100;
  clock = λ n. n * 1000;
  has_handler = λ name. name == 7;
  returns = λ n j. false;
}

abbrev mail : Job
mail = record {
  id = 1;
  name = 7;
  payload = 5;
  attempts = 0;
  max_attempts = 2;
  run_at = 0;
  created_at = 0;
}

abbrev unknown : Job
unknown = record mail { id = 2; name = 8; max_attempts = 1 }

abbrev queue : Queue
queue = record {
  jobs = mail ∷ [];
  running = false;
  timer = none;
  succeeded = [];
  failed = [];
  reads = 0;
}

-- The job is tried twice, since the next reading is after its second time.
abbrev drained : Queue
drained = record queue {
  failed = record mail { attempts = 2; run_at = 1200 } ∷ [];
  timer = some 1200;
  jobs = [];
  reads = 3;
}

drain-ends_example :
    (r : Queue) × (drain deps 3 queue ≡ some r)
    × (r.running ≡ false)
    × All (λ j. 0 < j.run_at) r.jobs
drain-ends_example = drain-ends deps queue 3 (λ n. omega arith) refl refl (omega arith)

drain-accounts_example :
    (r : Queue) × (drain deps 4 queue ≡ some r) × (everywhere 1 r ≡ 1) × AllExhausted r
drain-accounts_example = drain-accounts deps 1 4 queue (λ n. omega arith) refl refl (omega arith) tt

abbrev stuck : Queue
stuck = record queue { jobs = unknown ∷ [] }

-- The job's limit is one attempt, and it has had four.
abbrev still_stuck : Queue
still_stuck = record queue {
  jobs = record unknown { attempts = 4; run_at = 8600 } ∷ [];
  timer = some 8600;
  reads = 9;
}

unknown_kept : held 2 still_stuck.jobs ≡ held 2 stuck.jobs
unfolding drain drain_loop next_due process requeue
unknown_kept = drain-no_handler deps 2 5 stuck still_stuck refl refl
