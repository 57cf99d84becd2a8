-- ===== src/Audit/Tests.antt =====
-- Runs of the audit log, with a digest that keeps all it is given.
use pezhwan.Base.{
  ℕ, ◌<◌, ◌≡◌, ◌≢◌, refl, true, false, inr, List, [], ◌∷◌, ◌++◌, Option, none, some, ltb, lt→ltb,
  All, if◌then◌else◌, zero, suc, map,
}
use pezhwan.Mongo.{list_collection-IsCollection}
use pezhwan.Audit.{
  AuditEntryInput, AuditLogDoc, Canonical, Deps, World, info, recorded, counter_id, log_event,
  write_entry, write_strict, next_counter, build_doc,
}
use pezhwan.Transactions.{DriverError, is_transient, with_transaction, attempts}
use pezhwan.Audit.Links.{IsNewest}
use pezhwan.Audit.Chain.{Call, InStep, list_stores, log_all, empty_world}
use pezhwan.Audit.Fork.{Forked, FallsBack, fallback-forks}
use pezhwan.Audit.Tamper.{tampering_shows}

abbrev Doc : Type 0
Doc = AuditLogDoc (List Canonical)

abbrev later : Doc → Option Doc → Doc
later d none = d
later d (some e) = if ltb d.sequence e.sequence then e else d

abbrev newest : List Doc → Option Doc
newest [] = none
newest (d ∷ l) = some (later d (newest l))

abbrev deps : Deps
deps = record {
  Hash = List Canonical;
  root = [];
  digest = λ p c. c ∷ p;
  retention_ms = none;
  newest = newest;
  by_sequence = λ l. l;
}

newest-last :
    (l : List Doc) (d : Doc) → All (λ x. x.sequence < d.sequence) l → newest (l ++ d ∷ []) ≡ some d
newest-last [] d h = refl
newest-last (x ∷ l) d (h, below) = rw (newest-last l d below, lt→ltb x.sequence d.sequence h) refl

newest-IsNewest : IsNewest deps
newest-IsNewest = record { empty_law = refl; last_law = newest-last }

abbrev login : AuditEntryInput
login = record {
  event_type = 5;
  severity = none;
  tenant_id = some 3;
  application_id = none;
  user_id = some 7;
  session_id = none;
  ip = none;
  user_agent = none;
  metadata = none;
}

abbrev quiet : Call deps
quiet = record { input = login; now = 100; throws = λ n. none }

abbrev conflict : DriverError
conflict = record { code = some 112; transport = false }

abbrev fatal : DriverError
fatal = record { code = none; transport = false }

-- A write conflict twice, and then an error that does not pass.
abbrev three_failures : ℕ → Option DriverError
three_failures zero = some (fatal)
three_failures (suc n) = some (conflict)

abbrev failing : Call deps
failing = record { input = login; now = 200; throws = three_failures }

abbrev first_entry : Doc
first_entry = record {
  timestamp = 0;
  event_type = 5;
  severity = info;
  tenant_id = some 3;
  application_id = none;
  user_id = some 7;
  session_id = none;
  ip = none;
  user_agent = none;
  metadata = 0;
  sequence = 1;
  hash = record { t = 5; i = 0; u = 7; m = 0 } ∷ [];
  prev_hash = [];
  expire_at = none;
}

abbrev world : World deps
world = record {
  log = first_entry ∷ [];
  counters = record { id = counter_id; seq = 1; last_hash = some first_entry.hash } ∷ [];
}

world-InStep : InStep deps world
world-InStep = record { links = (refl, (refl, (refl, tt))); counted = inr refl }

failing-FallsBack : FallsBack deps failing
unfolding is_transient
failing-FallsBack = record {
  first = conflict;
  second = conflict;
  third = fatal;
  first_thrown = refl;
  second_thrown = refl;
  third_thrown = refl;
  first_transient = refl;
  second_transient = refl;
  third_fatal = refl;
}

one_entry : world.log ≢ []
one_entry e = cc

fallback-forks_example :
    Forked deps world.log
      (log_event deps
        (list_stores deps)
        login
        100
        true
        quiet.throws
        (log_event deps (list_stores deps) login 200 true failing.throws world).1).1.log
fallback-forks_example =
    fallback-forks deps (list_stores deps) list_collection-IsCollection list_collection-IsCollection
      newest-IsNewest failing quiet world world-InStep one_entry failing-FallsBack refl

tampering_shows_example :
    map recorded (first_entry ∷ [])
    ≡ map recorded (log_all deps (list_stores deps) true (quiet ∷ []) (empty_world deps)).log
unfolding log_all log_event write_entry with_transaction attempts write_strict next_counter
    build_doc
tampering_shows_example =
    tampering_shows deps (list_stores deps) list_collection-IsCollection
      list_collection-IsCollection newest-IsNewest (λ p q c d e. (cc, cc)) true (quiet ∷ [])
      ((λ e h. cc), tt) (first_entry ∷ []) (refl, (refl, (refl, tt))) refl refl
