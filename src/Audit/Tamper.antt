-- ===== src/Audit/Tamper.antt =====
-- What the last hash of the audit log fixes.
use pezhwan.Base.{ℕ, ◌+◌, ◌≡◌, refl, List, [], ◌∷◌, map, length, All, arith, Bool, true, false}
use pezhwan.Mongo.{IsCollection}
use pezhwan.Audit.{Canonical, AuditLogDoc, Deps, Stores, recorded}
use pezhwan.Audit.Links.{Linked, tip, IsNewest}
use pezhwan.Audit.Chain.{Call, IsCalm, log_all, empty_world, log_all-Linked}

module _ (deps : Deps) where
  -- No two links have one digest.
  abbrev pub IsCollisionFree : Type 0
  IsCollisionFree =
      (p q : deps.Hash) (c d : Canonical) → deps.digest p c ≡ deps.digest q d → (p ≡ q) × (c ≡ d)

  -- Of two linked logs of one length with one last hash, the data agree, and what they start from.
  tip_fixes :
      (l k : List (AuditLogDoc deps.Hash)) (p q : deps.Hash) (m n : ℕ)
      → IsCollisionFree
      → Linked deps p m l
      → Linked deps q n k
      → length l ≡ length k
      → tip deps p l ≡ tip deps q k
      → (p ≡ q) × (map recorded l ≡ map recorded k)
  tip_fixes [] [] p q m n free a b same e = (e, refl)
  tip_fixes [] (y ∷ k) p q m n free a b same e = absurd (omega arith)
  tip_fixes (x ∷ l) [] p q m n free a b same e = absurd (omega arith)
  tip_fixes (x ∷ l) (y ∷ k) p q m n free (_, (_, (h, a))) (_, (_, (g, b))) same e =
      let (hashes, rest) = tip_fixes l k x.hash y.hash (m + 1) (n + 1) free a b (omega arith) e in
      let (starts, datas) = free p q (recorded x) (recorded y) (rw (← h, ← g) hashes) in
      (starts, rw (datas, rest) refl)

log_all-Linked_in :
    (deps : Deps) (db : Stores deps)
    → IsCollection db.log
    → IsCollection db.counters
    → IsNewest deps
    → (supported : Bool) (calls : List (Call deps)) → All (IsCalm deps) calls
    → Linked deps deps.root 1 (log_all deps db supported calls (empty_world deps)).log
log_all-Linked_in deps db log counters rules true calls calm =
    (log_all-Linked deps db log counters rules calls calm).0
log_all-Linked_in deps db log counters rules false calls calm =
    (log_all-Linked deps db log counters rules calls calm).1

-- Tampering shows: whoever replaces the log that the service wrote, with transactions or without, by
-- another linked log with as many entries has changed the last hash, unless type, address, user and
-- metadata of every entry are what they were. The digest is assumed to have no collisions, calls do not
-- overlap, and no last attempt of a transaction ends in an error that is not transient.
pub tampering_shows :
    (deps : Deps) (db : Stores deps)
    → IsCollection db.log
    → IsCollection db.counters
    → IsNewest deps
    → IsCollisionFree deps
    → (supported : Bool) (calls : List (Call deps)) → All (IsCalm deps) calls
    → (forged : List (AuditLogDoc deps.Hash)) → Linked deps deps.root 1 forged
    → length forged ≡ length (log_all deps db supported calls (empty_world deps)).log
    → tip deps deps.root forged
      ≡ tip deps deps.root (log_all deps db supported calls (empty_world deps)).log
    → map recorded forged ≡ map recorded (log_all deps db supported calls (empty_world deps)).log
tampering_shows deps db log counters rules free supported calls calm forged links same e =
    (tip_fixes deps forged (log_all deps db supported calls (empty_world deps)).log deps.root
      deps.root 1 1 free links (log_all-Linked_in deps db log counters rules supported calls calm)
      same e).1
