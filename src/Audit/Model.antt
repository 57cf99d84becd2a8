-- ===== src/Audit/Model.antt =====
-- The entries, the documents and the parameters of packages/core/src/services/audit.service.ts, with
-- packages/core/src/models/auditLog.model.ts.
use pezhwan.Base.{ℕ, ◌*◌, List, Option, none, some, ltb, if◌then◌else◌}
use pezhwan.Mongo.{Collection}

pub data Severity : Type 0 where
  info warning critical : Severity

pub record AuditEntryInput : Type 0 where
  pub event_type : ℕ
  pub severity : Option Severity
  pub tenant_id : Option ℕ
  pub application_id : Option ℕ
  pub user_id : Option ℕ
  pub session_id : Option ℕ
  pub ip : Option ℕ
  pub user_agent : Option ℕ
  pub metadata : Option ℕ

-- The object that `canonicalData` prints.
pub record Canonical : Type 0 where
  pub t : ℕ
  pub i : ℕ
  pub u : ℕ
  pub m : ℕ

-- A document of the log, with the sequence and the hashes that this service always writes.
pub record AuditLogDoc (Hash : Type 0) : Type 0 where
  pub timestamp : ℕ
  pub event_type : ℕ
  pub severity : Severity
  pub tenant_id : Option ℕ
  pub application_id : Option ℕ
  pub user_id : Option ℕ
  pub session_id : Option ℕ
  pub ip : Option ℕ
  pub user_agent : Option ℕ
  pub metadata : ℕ
  pub sequence : ℕ
  pub hash : Hash
  pub prev_hash : Hash
  pub expire_at : Option ℕ

pub record AuditSequenceDoc (Hash : Type 0) : Type 0 where
  pub id : ℕ
  pub seq : ℕ
  pub last_hash : Option Hash

pub record AuditEntry (Hash : Type 0) : Type 0 where
  pub sequence : ℕ
  pub prev_hash : Hash
  pub hash : Hash
  pub input : AuditEntryInput

pub record SinkEntry (Hash : Type 0) : Type 0 where
  pub input : AuditEntryInput
  pub severity : Severity
  pub timestamp : ℕ
  pub channel_hash : Option Hash
  pub sequence : Option ℕ

-- What the service is made of: the digest of a chain link, the root, and the two sorted queries.
pub record Deps : Type 1 where
  pub Hash : Type 0
  pub root : Hash
  pub digest : Hash → Canonical → Hash
  pub retention_ms : Option ℕ
  pub newest : List (AuditLogDoc Hash) → Option (AuditLogDoc Hash)
  pub by_sequence : List (AuditLogDoc Hash) → List (AuditLogDoc Hash)

pub record Stores (deps : Deps) : Type 0 where
  pub log : Collection (AuditLogDoc deps.Hash)
  pub counters : Collection (AuditSequenceDoc deps.Hash)

pub record World (deps : Deps) : Type 0 where
  pub log : List (AuditLogDoc deps.Hash)
  pub counters : List (AuditSequenceDoc deps.Hash)

abbrev pub counter_id : ℕ
counter_id = 1

abbrev pub or_empty : Option ℕ → ℕ
or_empty none = 0
or_empty (some x) = x

abbrev pub or_info : Option Severity → Severity
or_info none = info
or_info (some s) = s

abbrev pub canonical_data : AuditEntryInput → Canonical
canonical_data input = record {
  t = input.event_type;
  i = or_empty input.ip;
  u = or_empty input.user_id;
  m = or_empty input.metadata;
}

-- The canonical data of what a document records.
abbrev pub recorded : {Hash : Type 0} → AuditLogDoc Hash → Canonical
recorded d = record { t = d.event_type; i = or_empty d.ip; u = or_empty d.user_id; m = d.metadata }

-- The days are positive. The creation of the index is not modelled.
abbrev pub set_retention_days : ℕ → Deps → Option Deps
set_retention_days days deps =
    if ltb 0 days
    then some (record deps { retention_ms = some (days * 24 * 60 * 60 * 1000) })
    else none

-- What `chain` selects of a document.
abbrev pub selected : {Hash : Type 0} → AuditLogDoc Hash → AuditEntryInput
selected d = record {
  event_type = d.event_type;
  severity = none;
  tenant_id = none;
  application_id = none;
  user_id = none;
  session_id = none;
  ip = none;
  user_agent = none;
  metadata = some d.metadata;
}
