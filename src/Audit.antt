-- ===== src/Audit.antt =====
-- packages/core/src/services/audit.service.ts: the hash chain of the audit log. The digest and its type
-- are parameters, and so is the sort by sequence, which the store does. A failure of a write is an error
-- that the driver throws. Texts are numbers, and 0 is the empty one. The creation of the TTL index and
-- the deletions by it are not modelled, nor the random id that the sink is given, nor a read of the log
-- that fails in the fallback.
mod Model
pub mod Links
pub mod Chain
pub mod Fork
pub mod Tamper
mod Tests
pub use Model.*
use pezhwan.Base.{
  ℕ, ◌+◌, ◌*◌, ◌≡◌, Bool, true, false, List, [], ◌∷◌, Option, none, some, ◌==◌, ltb, map, take,
  if◌then◌else◌,
}
use pezhwan.Mongo.{Collection}
use pezhwan.Transactions.{DriverError, Outcome, returned, threw, with_transaction}

module _ (deps : Deps) where
  abbrev pub chain_hash : deps.Hash → AuditEntryInput → deps.Hash
  chain_hash prev_hash data' = deps.digest prev_hash (canonical_data data')

  abbrev pub expiry : Option ℕ → ℕ → Option ℕ
  expiry none now = none
  expiry (some ms) now = if ltb 0 ms then some (now + ms) else none

  pub build_doc :
      AuditEntryInput
      → (sequence : ℕ) → (prev_hash hash : deps.Hash) → (now : ℕ) → AuditLogDoc deps.Hash
  build_doc input sequence prev_hash hash now = record {
    timestamp = now;
    event_type = input.event_type;
    severity = or_info input.severity;
    tenant_id = input.tenant_id;
    application_id = input.application_id;
    user_id = input.user_id;
    session_id = input.session_id;
    ip = input.ip;
    user_agent = input.user_agent;
    metadata = or_empty input.metadata;
    sequence = sequence;
    hash = hash;
    prev_hash = prev_hash;
    expire_at = expiry deps.retention_ms now;
  }

  abbrev pub tail_hash : Option (AuditLogDoc deps.Hash) → deps.Hash
  tail_hash none = deps.root
  tail_hash (some last) = last.hash

  abbrev pub entry_of :
      AuditEntryInput → (sequence : ℕ) → (prev_hash hash : deps.Hash) → AuditEntry deps.Hash
  entry_of input sequence prev_hash hash = record {
    sequence = sequence;
    prev_hash = prev_hash;
    hash = hash;
    input = input;
  }

  -- The hash before the new entry: that of the counter, or of the tail of the log.
  abbrev pub previous : Option deps.Hash → List (AuditLogDoc deps.Hash) → deps.Hash
  previous (some h) l = h
  previous none l = tail_hash (deps.newest l)

  abbrev pub new_counter : AuditSequenceDoc deps.Hash
  new_counter = record { id = counter_id; seq = 1; last_hash = none }

  module _ (db : Stores deps) where
    -- `$inc` on the counter document, which the first call inserts.
    pub next_counter :
        List (AuditSequenceDoc deps.Hash)
        → AuditSequenceDoc deps.Hash × List (AuditSequenceDoc deps.Hash)
    next_counter =
        db.counters.find_one_and_upsert (λ c. c.id == counter_id)
          (λ c. record c { seq = c.seq + 1 }) new_counter

    -- The work of the transaction, in a session.
    pub write_strict : AuditEntryInput → ℕ → World deps → AuditEntry deps.Hash × World deps
    unfolding next_counter build_doc
    write_strict input now w =
        let (counter, counters) = next_counter w.counters in
        let prev_hash = previous counter.last_hash w.log in
        let hash = chain_hash prev_hash input in
        (
          entry_of input counter.seq prev_hash hash,
          record {
            log = db.log.create (build_doc input counter.seq prev_hash hash now) w.log;
            counters =
                db.counters.update_one (λ c. c.id == counter_id)
                  (λ c. record c { last_hash = some hash }) counters;
          },
        )

    pub write_entry_best_effort :
        AuditEntryInput → ℕ → World deps → AuditEntry deps.Hash × World deps
    unfolding next_counter build_doc
    write_entry_best_effort input now w =
        let (counter, counters) = next_counter w.counters in
        let prev_hash = tail_hash (deps.newest w.log) in
        let hash = chain_hash prev_hash input in
        (
          entry_of input counter.seq prev_hash hash,
          record {
            log = db.log.create (build_doc input counter.seq prev_hash hash now) w.log;
            counters = counters;
          },
        )

    abbrev pub finished :
        AuditEntry deps.Hash × World deps → Outcome (AuditEntry deps.Hash) × World deps
    finished (entry, w) = (returned entry, w)

    abbrev pub entry_work :
        AuditEntryInput → ℕ → Bool → World deps → Outcome (AuditEntry deps.Hash) × World deps
    entry_work input now true w = finished (write_strict input now w)
    entry_work input now false w = finished (write_entry_best_effort input now w)

    pub write_entry :
        AuditEntryInput
        → ℕ
        → (supported : Bool) → (ℕ → Option DriverError)
        → World deps
        → Outcome (AuditEntry deps.Hash) × World deps
    write_entry input now supported throws w =
        with_transaction (entry_work input now) supported throws w

    abbrev pub forwarded :
        AuditEntryInput → ℕ → Outcome (AuditEntry deps.Hash) → SinkEntry deps.Hash
    forwarded input now (returned entry) = record {
      input = input;
      severity = or_info input.severity;
      timestamp = now;
      channel_hash = some entry.hash;
      sequence = some entry.sequence;
    }
    forwarded input now (threw e) = record {
      input = input;
      severity = or_info input.severity;
      timestamp = now;
      channel_hash = none;
      sequence = none;
    }

    -- What the sink is handed, and the world. An error of the write is swallowed.
    pub log_event :
        AuditEntryInput
        → ℕ
        → (supported : Bool) → (ℕ → Option DriverError)
        → World deps
        → SinkEntry deps.Hash × World deps
    log_event input now supported throws w =
        let (outcome, w') = write_entry input now supported throws w in
        (forwarded input now outcome, w')

  pub chain : ℕ → World deps → List (AuditEntry deps.Hash)
  chain limit w =
      map
        (λ d. record {
          sequence = d.sequence;
          prev_hash = d.prev_hash;
          hash = d.hash;
          input = selected d;
        })
        (take limit (deps.by_sequence w.log))
