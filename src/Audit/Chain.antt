-- ===== src/Audit/Chain.antt =====
-- The links and the sequence of the audit log, call by call.
use pezhwan.Base.{
  ℕ, ◌+◌, ◌≡◌, refl, ◌⊎◌, inl, inr, Bool, true, false, List, [], ◌∷◌, ◌++◌, Option, none, some,
  length, length-append, All, arith,
}
use pezhwan.Mongo.{IsCollection, list_collection, list_collection_unique}
use pezhwan.Transactions.{DriverError, is_transient, with_transaction, with_transaction-InSession}
use pezhwan.Audit.{
  AuditEntryInput, AuditLogDoc, AuditSequenceDoc, Deps, Stores, World, counter_id, build_doc,
  chain_hash, next_counter, write_strict, write_entry_best_effort, write_entry, entry_work,
  log_event,
}
use pezhwan.Audit.Links.{Linked, tip, IsNewest, Linked-append, tip-append, tail_hash-newest}

abbrev pub list_stores : (deps : Deps) → Stores deps
list_stores deps = record { log = list_collection; counters = list_collection }

pub list_stores_unique :
    {deps : Deps} (db : Stores deps)
    → IsCollection db.log
    → IsCollection db.counters
    → list_stores deps ≡ db
list_stores_unique db log counters i = record {
  log = list_collection_unique db.log log i;
  counters = list_collection_unique db.counters counters i;
}

module _ (deps : Deps) where
  abbrev pub counter_at : ℕ → Option deps.Hash → AuditSequenceDoc deps.Hash
  counter_at seq last = record { id = counter_id; seq = seq; last_hash = last }

  -- No entry yet, or a counter at the number of entries.
  abbrev pub Counted : (last : Option deps.Hash) → World deps → Type 0
  Counted last w =
      ((w.log ≡ []) × (w.counters ≡ [])) ⊎ (w.counters ≡ counter_at (length w.log) last ∷ [])

  -- The log is linked from the root, and the counter has the number of entries and the hash of the last.
  pub record InStep (w : World deps) : Type 0 where
    pub links : Linked deps deps.root 1 w.log
    pub counted : Counted (some (tip deps deps.root w.log)) w

  appended :
      (w : World deps) (input : AuditEntryInput) (now : ℕ) (p : deps.Hash) (n : ℕ)
      → Linked deps deps.root 1 w.log
      → p ≡ tip deps deps.root w.log
      → n ≡ length w.log + 1
      → Linked deps deps.root 1
          (w.log ++ build_doc deps input n p (chain_hash deps p input) now ∷ [])
  unfolding build_doc
  appended w input now p n links same count =
      Linked-append deps w.log deps.root 1 (build_doc deps input n p (chain_hash deps p input) now)
        links (omega arith) same (rw same refl)

  counted_after :
      (l : List (AuditLogDoc deps.Hash)) (d : AuditLogDoc deps.Hash) (last : Option deps.Hash)
      → counter_at (length l + 1) last ∷ [] ≡ counter_at (length (l ++ d ∷ [])) last ∷ []
  counted_after l d last = rw (length-append l (d ∷ [])) refl

  write_strict-InStep :
      (input : AuditEntryInput) (now : ℕ) (w : World deps)
      → IsNewest deps
      → InStep w
      → InStep (write_strict deps (list_stores deps) input now w).1
  unfolding write_strict next_counter
  write_strict-InStep input now w rules v = elim v.counted [
    | inl (none_yet, no_counter) ↦
        let links =
          appended w input now deps.root 1 v.links (rw none_yet refl) (rw none_yet refl) in
        rw (no_counter, none_yet, rules.empty_law)
          (record { links = rw none_yet at links; counted = inr refl })
    | inr at ↦
        let links =
          appended w input now (tip deps deps.root w.log) (length w.log + 1) v.links refl refl in
        rw at (record {
          links = links;
          counted = inr (rw (tip-append deps w.log deps.root) (counted_after w.log _ _));
        })
  ]

  -- Without transactions the counter keeps no hash, if it had none.
  pub record Legacy (w : World deps) : Type 0 where
    pub links : Linked deps deps.root 1 w.log
    pub counted : Counted none w

  write_entry_best_effort-Legacy :
      (input : AuditEntryInput) (now : ℕ) (w : World deps)
      → IsNewest deps
      → Legacy w
      → Legacy (write_entry_best_effort deps (list_stores deps) input now w).1
  unfolding write_entry_best_effort next_counter
  write_entry_best_effort-Legacy input now w rules v = elim v.counted [
    | inl (none_yet, no_counter) ↦
        let links =
          appended w input now deps.root 1 v.links (rw none_yet refl) (rw none_yet refl) in
        rw (no_counter, none_yet, rules.empty_law)
          (record { links = rw none_yet at links; counted = inr refl })
    | inr at ↦
        let links =
          appended w input now (tip deps deps.root w.log) (length w.log + 1) v.links refl refl in
        rw (at, tail_hash-newest deps rules w.log v.links)
          (record { links = links; counted = inr (counted_after w.log _ _) })
  ]

  -- One call of `log`: the event, the time, and what the driver throws on each attempt.
  pub record Call : Type 0 where
    pub input : AuditEntryInput
    pub now : ℕ
    pub throws : ℕ → Option DriverError

  -- No error that is not transient ends the last attempt.
  abbrev pub IsCalm : Call → Type 0
  IsCalm c = (e : DriverError) → c.throws 0 ≡ some e → is_transient e ≡ true

  unfoldable pub log_all : Stores deps → (supported : Bool) → List Call → World deps → World deps
  log_all db supported [] w = w
  log_all db supported (c ∷ calls) w =
      log_all db supported calls (log_event deps db c.input c.now supported c.throws w).1

  log_event-InStep :
      (c : Call) (w : World deps)
      → IsNewest deps
      → IsCalm c
      → InStep w
      → InStep (log_event deps (list_stores deps) c.input c.now true c.throws w).1
  unfolding log_event write_entry
  log_event-InStep c w rules calm v =
      let written = write_strict deps (list_stores deps) c.input c.now w in
      elim (with_transaction-InSession (entry_work deps (list_stores deps) c.input c.now) c.throws w
        written.0 written.1 refl calm) [
          | inl whole ↦ rw whole (write_strict-InStep c.input c.now w rules v)
          | inr (e, same) ↦ rw same v
        ]

  log_all-InStep :
      (calls : List Call) (w : World deps)
      → IsNewest deps
      → All IsCalm calls
      → InStep w
      → InStep (log_all (list_stores deps) true calls w)
  unfolding log_all
  log_all-InStep [] w rules calm v = v
  log_all-InStep (c ∷ calls) w rules (here, calm) v =
      log_all-InStep calls _ rules calm (log_event-InStep c w rules here v)

  log_all-Legacy :
      (calls : List Call) (w : World deps)
      → IsNewest deps
      → Legacy w
      → Legacy (log_all (list_stores deps) false calls w)
  unfolding log_all log_event write_entry with_transaction
  log_all-Legacy [] w rules v = v
  log_all-Legacy (c ∷ calls) w rules v =
      log_all-Legacy calls _ rules (write_entry_best_effort-Legacy c.input c.now w rules v)

  abbrev pub empty_world : World deps
  empty_world = record { log = []; counters = [] }

pub log_all-Linked :
    (deps : Deps) (db : Stores deps)
    → IsCollection db.log
    → IsCollection db.counters
    → IsNewest deps
    → (calls : List (Call deps)) → All (IsCalm deps) calls
    → Linked deps deps.root 1 (log_all deps db true calls (empty_world deps)).log
      × Linked deps deps.root 1 (log_all deps db false calls (empty_world deps)).log
log_all-Linked deps db log counters rules calls calm = rw (← list_stores_unique db log counters) (
  (log_all-InStep deps calls (empty_world deps) rules calm
      (record { links = tt; counted = inl (refl, refl) })).links,
  (log_all-Legacy deps calls (empty_world deps) rules
      (record { links = tt; counted = inl (refl, refl) })).links,
)
