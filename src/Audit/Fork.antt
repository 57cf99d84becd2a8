-- ===== src/Audit/Fork.antt =====
-- A write without a transaction between two that have one.
use mathlib.Core.List.{append_assoc}
use pezhwan.Base.{◌≡◌, refl, true, false, inl, inr, List, [], ◌∷◌, ◌++◌, none, some, ◌≢◌}
use pezhwan.Mongo.{IsCollection}
use pezhwan.Transactions.{DriverError, is_transient, with_transaction}
use pezhwan.Audit.{
  AuditLogDoc, Deps, Stores, World, write_strict, write_entry_best_effort, next_counter,
  write_entry, log_event, build_doc,
}
use pezhwan.Audit.Links.{IsNewest, tip, tail_hash-newest}
use pezhwan.Audit.Chain.{InStep, Call, list_stores, list_stores_unique}

module _ (deps : Deps) where
  -- Two attempts fail for a passing reason, and the last for another.
  pub record FallsBack (c : Call deps) : Type 0 where
    pub first : DriverError
    pub second : DriverError
    pub third : DriverError
    pub first_thrown : c.throws 2 ≡ some first
    pub second_thrown : c.throws 1 ≡ some second
    pub third_thrown : c.throws 0 ≡ some third
    pub first_transient : is_transient first ≡ true
    pub second_transient : is_transient second ≡ true
    pub third_fatal : is_transient third ≡ false

  -- The log after two more entries that both carry the hash of the entry before the first.
  abbrev pub Forked : List (AuditLogDoc deps.Hash) → List (AuditLogDoc deps.Hash) → Type 0
  Forked before after =
      (x : AuditLogDoc deps.Hash) × (y : AuditLogDoc deps.Hash) × (after ≡ before ++ x ∷ y ∷ [])
      × (x.prev_hash ≡ tip deps deps.root before)
      × (y.prev_hash ≡ tip deps deps.root before)

  quiet_strict :
      (c : Call deps) (w : World deps)
      → c.throws 2 ≡ none
      → (log_event deps (list_stores deps) c.input c.now true c.throws w).1
        ≡ (write_strict deps (list_stores deps) c.input c.now w).1
  unfolding log_event write_entry with_transaction
  quiet_strict c w quiet = rw quiet refl

  fallen_back :
      (c : Call deps) (w : World deps)
      → FallsBack c
      → (log_event deps (list_stores deps) c.input c.now true c.throws w).1
        ≡ (write_entry_best_effort deps (list_stores deps) c.input c.now w).1
  unfolding log_event write_entry with_transaction
  fallen_back c w f =
      rw
        (
          f.first_thrown, f.second_thrown, f.third_thrown, f.first_transient, f.second_transient,
          f.third_fatal,
        )
        refl

  fork_list :
      (a b : Call deps) (w : World deps)
      → IsNewest deps
      → InStep deps w
      → w.log ≢ []
      → Forked w.log
          (write_strict deps
            (list_stores deps)
            b.input
            b.now
            (write_entry_best_effort deps (list_stores deps) a.input a.now w).1).1.log
  unfolding write_strict write_entry_best_effort next_counter build_doc
  fork_list a b w rules v some_entry = elim v.counted [
    | inl (none_yet, _) ↦ absurd (some_entry none_yet)
    | inr at ↦
        rw (at, tail_hash-newest deps rules w.log v.links)
          (_, _, append_assoc w.log (_ ∷ []) (_ ∷ []), refl, refl)
  ]

-- The chain forks where a write falls back: from a log in step with its counter that has an entry, a
-- call of `log` whose last attempt fails with an error that is not transient, and then a call that
-- succeeds at once, append two entries that both carry the hash of the entry before them.
pub fallback-forks :
    (deps : Deps) (db : Stores deps)
    → IsCollection db.log
    → IsCollection db.counters
    → IsNewest deps
    → (a b : Call deps) (w : World deps) → InStep deps w
    → w.log ≢ []
    → FallsBack deps a
    → b.throws 2 ≡ none
    → Forked deps w.log
        (log_event deps db b.input b.now true b.throws
          (log_event deps db a.input a.now true a.throws w).1).1.log
fallback-forks deps db log counters rules a b w v some_entry falls quiet =
    rw (← list_stores_unique db log counters) (
      rw (fallen_back deps a w falls, quiet_strict deps b _ quiet)
        (fork_list deps a b w rules v some_entry))
