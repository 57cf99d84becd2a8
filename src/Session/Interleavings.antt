-- ===== src/Session/Interleavings.antt =====
-- Refreshes that run at the same time, with revocations and logins between their two halves: the
-- claim of the parent, and the transaction that creates the child. Transactions are supported.
use pezhwan.Base.{
  ℕ, ◌≤◌, ◌≡◌, refl, inl, inr, Bool, true, ◌&&◌, List, [], ◌∷◌, ◌++◌, Option, some, arith, ◌==◌,
  count, update_first, update_all, All, count_mono, count-append, count-update_first_same,
  count-update_all_same, count-update_first_le, count-update_all_le,
}
use pezhwan.Mongo.{Collection, IsCollection, list_collection, list_collection_unique}
use pezhwan.Session.Transaction.{
  DriverError, with_transaction, with_transaction-Atomic, is_transient,
}
use pezhwan.Session.Limits.{DistinctIds, live_of}
use pezhwan.Session.Updates.{
  FamilyAt, FamilyAt-update_first, FamilyAt-update_all, FamilyAt-append, FamilyAt-of_found,
}
use pezhwan.Session.Halves.{
  keeps_rotating, keeps_revoked, All-owned, All-split, claim_found, count-tx_body, ids-tx_body,
  places-tx_body, claim-Sound,
}
use pezhwan.Session.{
  SessionDoc, SessionContext, RefreshContext, Fresh, Deps, by_id, of_family, claimable, is_active,
  set_rotating, set_revoked, new_session, child_of, claim, tx_body,
}

-- The stored sessions, and the parents that running refreshes have claimed.
pub record System : Type 0 where
  pub sessions : List SessionDoc
  pub claimed : List SessionDoc

abbrev pub with_hash : ℕ → SessionDoc → Bool
with_hash h d = d.current_refresh_token_hash == h

abbrev pub usable_with : ℕ → SessionDoc → Bool
usable_with h d = is_active d.status && with_hash h d

-- The id and the token that a call draws are in no stored session.
abbrev pub IsFresh : Deps → Fresh → List SessionDoc → Type 0
IsFresh deps fresh l =
    (count (by_id fresh.id) l ≡ 0) × (count (with_hash (deps.hash fresh.token)) l ≡ 0)

module _ (db : Collection SessionDoc) (deps : Deps) where
  -- One step of any of the calls that are running.
  pub data Step (s : System) : System → Type 0 where
    claims :
        (token now : ℕ) (ctx : RefreshContext) (d : SessionDoc) (l : List SessionDoc)
        → claim db deps (deps.hash token) ctx now s.sessions ≡ (some d, l)
        → Step s (record { sessions = l; claimed = d ∷ s.claimed })
    finishes :
        (d : SessionDoc) (before after : List SessionDoc) (ctx : RefreshContext) (fresh : Fresh)
        (throws : ℕ → Option DriverError)
        → s.claimed ≡ before ++ d ∷ after
        → IsFresh deps fresh s.sessions
        → ((e : DriverError) → throws 0 ≡ some e → is_transient e ≡ true)
        → Step s (record {
          sessions =
              (with_transaction
                (tx_body db deps d.id (child_of db deps d ctx fresh) fresh.now)
                true
                throws
                s.sessions).1;
          claimed = before ++ after;
        })
    -- `revokeFamily`, `revokeAll` and the updates of many sessions at once.
    revokes_many :
        (p : SessionDoc → Bool) (now : ℕ)
        → Step s (record s { sessions = db.update_many p (set_revoked now) s.sessions })
    revokes_one :
        (id now : ℕ)
        → Step s (record s { sessions = db.update_one (by_id id) (set_revoked now) s.sessions })
    logs_in :
        (ctx : SessionContext) (fresh : Fresh)
        → IsFresh deps fresh s.sessions
        → count (of_family fresh.family) s.sessions ≡ 0
        → Step s (record s { sessions = db.create (new_session db deps ctx fresh) s.sessions })

  pub data Reach (s : System) : System → Type 0 where
    here : Reach s s
    next : {t u : System} → Reach s t → Step t u → Reach s u

-- At most one session of a family is live, whatever runs at the same time.
pub record Inv (s : System) : Type 0 where
  pub ids : DistinctIds s.sessions
  pub single : (family : ℕ) → count (live_of family) s.sessions ≤ 1
  pub owned : All (λ d. FamilyAt d.id d.family_id s.sessions) s.claimed

module _ (deps : Deps) where
  revoke_many-Inv :
      (s : System) (p : SessionDoc → Bool) (now : ℕ)
      → Inv s
      → Inv (record s { sessions = update_all p (set_revoked now) s.sessions })
  revoke_many-Inv s p now v = record {
    ids = λ i. omega (
      arith,
      v.ids i,
      count-update_all_same (by_id i) p (set_revoked now) s.sessions (λ a. refl),
    );
    single = λ family. omega (
      arith,
      v.single family,
      count-update_all_le (live_of family) p (set_revoked now) s.sessions (λ a. ground arith),
    );
    owned =
        All-owned s.sessions _
          (λ i family.
            FamilyAt-update_all p (set_revoked now) (keeps_revoked now) i family s.sessions)
          s.claimed v.owned;
  }

  revoke_one-Inv :
      (s : System) (id now : ℕ)
      → Inv s
      → Inv (record s { sessions = update_first (by_id id) (set_revoked now) s.sessions })
  revoke_one-Inv s id now v = record {
    ids = λ i. omega (
      arith,
      v.ids i,
      count-update_first_same (by_id i) (by_id id) (set_revoked now) s.sessions (λ a. refl),
    );
    single = λ family. omega (
      arith,
      v.single family,
      count-update_first_le (live_of family) (by_id id) (set_revoked now) s.sessions
          (λ a. ground arith),
    );
    owned =
        All-owned s.sessions _
          (λ i family.
            FamilyAt-update_first (by_id id) (set_revoked now) (keeps_revoked now) i family
              s.sessions)
          s.claimed v.owned;
  }

  login-Inv :
      (s : System) (x : SessionDoc)
      → count (by_id x.id) s.sessions ≡ 0
      → count (of_family x.family_id) s.sessions ≡ 0
      → Inv s
      → Inv (record s { sessions = s.sessions ++ x ∷ [] })
  login-Inv s x unused unused_family v = record {
    ids = λ i. ground (arith, v.ids i, count-append (by_id i) s.sessions (x ∷ []));
    single = λ family. ground (
      arith,
      v.single family,
      count-append (live_of family) s.sessions (x ∷ []),
      count_mono (live_of x.family_id) (of_family x.family_id) (λ a h. ground arith) s.sessions,
    );
    owned =
        All-owned s.sessions _ (λ i family. FamilyAt-append i family s.sessions (x ∷ [])) s.claimed
          v.owned;
  }

  claim-Inv :
      (s : System) (hash now : ℕ) (ctx : RefreshContext) (d : SessionDoc) (l : List SessionDoc)
      → claim list_collection deps hash ctx now s.sessions ≡ (some d, l)
      → Inv s
      → Inv (record { sessions = l; claimed = d ∷ s.claimed })
  claim-Inv s hash now ctx d l e v =
      let (x, found, same, m) = claim_found deps hash now ctx s.sessions l d e in
      let p = claimable hash ctx in
      let f = set_rotating now in
      let keep : (i family : ℕ)
          → FamilyAt i family s.sessions
          → FamilyAt i family (update_first p f s.sessions) =
        λ i family. FamilyAt-update_first p f (keeps_rotating now) i family s.sessions in
      let (ids, single) = claim-Sound deps hash now ctx s.sessions (v.ids, v.single) in
      rw (m, same)
        (record {
          ids = ids;
          single = single;
          owned = (
            keep x.id x.family_id (FamilyAt-of_found p s.sessions x v.ids found),
            All-owned s.sessions _ keep s.claimed v.owned,
          );
        })

  finish-Inv :
      (s : System) (d : SessionDoc) (before after : List SessionDoc) (ctx : RefreshContext)
      (fresh : Fresh) (throws : ℕ → Option DriverError)
      → s.claimed ≡ before ++ d ∷ after
      → IsFresh deps fresh s.sessions
      → ((e : DriverError) → throws 0 ≡ some e → is_transient e ≡ true)
      → Inv s
      → Inv (record {
        sessions =
            (with_transaction
              (tx_body list_collection deps d.id
                (child_of list_collection deps d ctx fresh)
                fresh.now)
              true
              throws
              s.sessions).1;
        claimed = before ++ after;
      })
  finish-Inv s d before after ctx fresh throws e unused calm v =
      let child = child_of list_collection deps d ctx fresh in
      let work = tx_body list_collection deps d.id child fresh.now in
      let (at, others) =
        All-split (λ x. FamilyAt x.id x.family_id s.sessions) before d after (rw e at v.owned) in
      elim (with_transaction-Atomic work throws s.sessions calm) [
        | inr (f, same) ↦ rw same (record { ids = v.ids; single = v.single; owned = others })
        | inl (c, same, done) ↦ rw same (record {
          ids = ids-tx_body deps d.id fresh.now child s.sessions v.ids unused.0;
          single = λ family.
              rw (count-tx_body deps d.id fresh.now child s.sessions family at refl c done)
                (v.single family);
          owned =
              All-owned s.sessions _
                (λ i family. places-tx_body deps d.id fresh.now child s.sessions i family)
                (before ++ after) others;
        })
      ]

  Step-Inv : {s t : System} → Step list_collection deps s t → Inv s → Inv t
  Step-Inv (claims token now ctx d l e) v = claim-Inv _ (deps.hash token) now ctx d l e v
  Step-Inv (finishes d before after ctx fresh throws e unused calm) v =
      finish-Inv _ d before after ctx fresh throws e unused calm v
  Step-Inv (revokes_many p now) v = revoke_many-Inv _ p now v
  Step-Inv (revokes_one id now) v = revoke_one-Inv _ id now v
  Step-Inv (logs_in ctx fresh unused unused_family) v = login-Inv _ _ unused.0 unused_family v

  Reach-Inv_list : {s t : System} → Inv s → Reach list_collection deps s t → Inv t
  Reach-Inv_list v here = v
  Reach-Inv_list v (next r step) = Step-Inv step (Reach-Inv_list v r)

-- Whatever refreshes, logins and revocations run at the same time, and however their halves
-- interleave, no family ever has two live sessions (active, or being rotated), and ids stay distinct.
-- Ids, families and tokens that a call draws are assumed fresh, transactions supported, and no last
-- attempt of a transaction ends in an error that is not transient.
pub family_single_live :
    (db : Collection SessionDoc) (deps : Deps) (s t : System)
    → IsCollection db
    → Inv s
    → Reach db deps s t
    → ((family : ℕ) → count (live_of family) t.sessions ≤ 1) × DistinctIds t.sessions
family_single_live db deps s t laws v r =
    let r' : Reach list_collection deps s t = rw (list_collection_unique db laws) r in
    let w = Reach-Inv_list deps v r' in (w.single, w.ids)
