-- ===== src/JobQueue/Totals.antt =====
-- Sums over the jobs of a queue, through the steps of packages/core/src/services/events/job-queue.ts.
use pezhwan.Base.{
  ℕ, suc, ◌+◌, ◌≤◌, ◌<◌, ◌≡◌, refl, inl, inr, List, [], ◌∷◌, ◌++◌, Option, none, some, leb, arith,
  Bool-cases, Option-cases, All,
}
use pezhwan.JobQueue.{Job, Deps, next_due, insert_by_time, sort_by_time}

abbrev pub total : (Job → ℕ) → List Job → ℕ
total f [] = 0
total f (j ∷ l) = f j + total f l

pub total-append : (f : Job → ℕ) (l : List Job) (j : Job) → total f (l ++ j ∷ []) ≡ total f l + f j
total-append f [] j = omega arith
total-append f (k ∷ l) j = omega (arith, total-append f l j)

total-insert :
    (f : Job → ℕ) (j : Job) (l : List Job) → total f (insert_by_time j l) ≡ f j + total f l
unfolding insert_by_time
total-insert f j [] = refl
total-insert f j (k ∷ l) = ground (arith, total-insert f j l)

pub total-sort : (f : Job → ℕ) (l : List Job) → total f (sort_by_time l) ≡ total f l
unfolding sort_by_time
total-sort f [] = refl
total-sort f (j ∷ l) = omega (arith, total-insert f j (sort_by_time l), total-sort f l)

abbrev some_pair : Job → List Job → Option (Job × List Job)
some_pair j l = some (j, l)

pair_parts : (j k : Job) (l m : List Job) → some_pair j l ≡ some_pair k m → (j ≡ k) × (l ≡ m)
pair_parts j k l m h = (cc, cc)

module _ (deps : Deps) where
  -- The job that is due is taken out of the list, and no other.
  pub total-next_due :
      (f : Job → ℕ) (n : ℕ) (l : List Job) (j : Job) (rest : List Job)
      → (next_due deps n l).0 ≡ some (j, rest)
      → total f l ≡ f j + total f rest
  unfolding next_due
  total-next_due f n [] j rest h = cc
  total-next_due f n (k ∷ l) j rest h = elim (Bool-cases (leb k.run_at (deps.clock n))) [
    | inl due ↦
        let same : some_pair k l ≡ some_pair j rest = rw due at h in
        let (head, tail) = pair_parts k j l rest same in rw (head, tail) refl
    | inr early ↦ elim (Option-cases (next_due deps (suc n) l).0) [
      | inl nothing ↦ cc (rw (early, nothing) at h)
      | inr ((i, others), at) ↦
          let same : some_pair i (k ∷ others) ≡ some_pair j rest = rw (early, at) at h in
          let (head, tail) = pair_parts i j (k ∷ others) rest same in
          rw (← head, ← tail) (omega (arith, total-next_due f (suc n) l i others at))
    ]
  ]

  pub next_due-reads : (n : ℕ) (l : List Job) → n ≤ (next_due deps n l).1
  unfolding next_due
  next_due-reads n [] = omega arith
  next_due-reads n (k ∷ l) = ground (arith, next_due-reads (suc n) l)

  module _ (ascends : (n : ℕ) → deps.clock n ≤ deps.clock (suc n)) where
    pub Later-weaken :
        (s t : ℕ) (l : List Job) → s ≤ t → All (λ j. t < j.run_at) l → All (λ j. s < j.run_at) l
    Later-weaken s t [] h a = tt
    Later-weaken s t (j ∷ l) h (b, a) = (omega arith, Later-weaken s t l h a)

    -- Where no job is due, all are for later than the first reading.
    pub next_due-later :
        (n : ℕ) (l : List Job) → (next_due deps n l).0 ≡ none → All (λ j. deps.clock n < j.run_at) l
    unfolding next_due
    next_due-later n [] h = tt
    next_due-later n (k ∷ l) h = elim (Bool-cases (leb k.run_at (deps.clock n))) [
      | inl due ↦ cc (rw due at h)
      | inr early ↦ elim (Option-cases (next_due deps (suc n) l).0) [
        | inr (p, at) ↦ cc (rw (early, at) at h)
        | inl nothing ↦ (
          ground arith,
          Later-weaken (deps.clock n) (deps.clock (suc n)) l (ascends n)
              (next_due-later (suc n) l nothing),
        )
      ]
    ]
