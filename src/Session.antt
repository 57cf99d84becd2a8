-- ===== src/Session.antt =====
-- packages/core/src/services/session.service.ts and models/session.model.ts: sessions and the
-- rotation of refresh tokens. Identifiers and texts are numbers (0 is the empty text); what a call
-- draws at random or from the clock is an argument of it.
mod Model
pub mod Transaction
pub mod Limits
pub mod Updates
pub mod Halves
pub mod Replay
pub mod Outcomes
pub mod Reuse
pub mod Liveness
pub mod Rotation
pub mod Interleavings
mod Tests
pub use Model.*
use pezhwan.Base.{
  ℕ, suc, ◌+◌, ◌*◌, ◌≡◌, Bool, true, false, ◌&&◌, List, [], ◌∷◌, Option, none, some, ◌==◌, ltb, leb,
  if◌then◌else◌,
}
use pezhwan.Cache.{Key, Value, num, Cache}
use pezhwan.Mongo.{Collection}
use Transaction.{
  Result, ok, err, DriverError, refresh_token_unknown, refresh_token_reuse, with_transaction,
}

module _ (db : Collection SessionDoc) (deps : Deps) where
  abbrev pub cache_liveness : ℕ → ℕ → World deps → World deps
  cache_liveness id now w = record w {
    cached = deps.cache.set (cache_key id) (num 1) session_cache_ttl_seconds now w.cached;
  }

  abbrev pub uncache : ℕ → World deps → World deps
  uncache id w = record w { cached = deps.cache.del (cache_key id) w.cached }

  pub revoke : ℕ → ℕ → World deps → World deps
  revoke id now w =
      uncache id (record w { sessions = db.update_one (by_id id) (set_revoked now) w.sessions })

  pub uncache_all : List SessionDoc → World deps → World deps
  uncache_all [] w = w
  uncache_all (d ∷ ds) w = uncache_all ds (uncache d.id w)

  pub revoke_family : ℕ → ℕ → World deps → World deps
  revoke_family family now w =
      let found = db.find (of_family family) w.sessions in
      uncache_all found
        (record w { sessions = db.update_many (of_family family) (set_revoked now) w.sessions })

  abbrev pub of_user : ℕ → Option ℕ → Option ℕ → SessionDoc → Bool
  of_user user app tenant d =
      d.user_id == user
      && (is_active d.status && (matches app d.application_id && matches tenant d.tenant_id))

  pub revoke_all : ℕ → Option ℕ → Option ℕ → ℕ → World deps → World deps
  revoke_all user app tenant now w =
      let found = db.find (of_user user app tenant) w.sessions in
      uncache_all found (record w {
        sessions = db.update_many (of_user user app tenant) (set_revoked now) w.sessions;
      })

  pub revoke_oldest : Option SessionDoc → ℕ → World deps → World deps
  revoke_oldest none now w = w
  revoke_oldest (some d) now w = revoke d.id now w

  pub enforce_session_limit : ℕ → ℕ → ℕ → World deps → World deps
  enforce_session_limit user app now w =
      if leb deps.max_active_sessions (db.count_documents (active_of user app) w.sessions)
      then revoke_oldest (deps.oldest (active_of user app) w.sessions) now w
      else w

  abbrev pub new_session : SessionContext → Fresh → SessionDoc
  new_session ctx fresh = record {
    id = fresh.id;
    user_id = ctx.user_id;
    tenant_id = ctx.tenant_id;
    application_id = ctx.application_id;
    status = active;
    family_id = fresh.family;
    current_refresh_token_hash = deps.hash fresh.token;
    replaced_by_session_id = none;
    device = record {
      ip = or_else ctx.ip 0;
      user_agent = or_else ctx.user_agent 0;
      device_label = or_else ctx.device_label unknown_device;
    };
    last_active_at = fresh.now;
    expires_at = fresh.now + deps.refresh_token_ttl_ms;
    revoked_at = none;
  }

  -- What `create` and `refresh` hand back for a stored document and its raw token.
  abbrev pub created : SessionDoc → ℕ → CreatedSession
  created d token = record {
    session_id = d.id;
    user_id = d.user_id;
    tenant_id = d.tenant_id;
    application_id = d.application_id;
    family_id = d.family_id;
    refresh_token = token;
    refresh_token_hash = d.current_refresh_token_hash;
    expires_at = d.expires_at;
  }

  pub create : SessionContext → Fresh → World deps → CreatedSession × World deps
  create ctx fresh w =
      let limited = enforce_session_limit ctx.user_id ctx.application_id fresh.now w in
      let doc = new_session ctx fresh in
      (
        created doc fresh.token,
        cache_liveness doc.id fresh.now
            (record limited { sessions = db.create doc limited.sessions }),
      )

  -- The atomic claim of a refresh: active → rotating.
  pub claim : ℕ → RefreshContext → ℕ → List SessionDoc → Option SessionDoc × List SessionDoc
  claim hash ctx now = db.find_one_and_update (claimable hash ctx) (set_rotating now)

  -- No active session has the token: it is unknown, in flight, or used before.
  pub refused : Option SessionDoc → ℕ → World deps → Result CreatedSession × World deps
  refused none now w = (err refresh_token_unknown, w)
  refused (some d) now w =
      (err refresh_token_reuse, if is_settled d.status then revoke_family d.family_id now w else w)

  abbrev pub child_of : SessionDoc → RefreshContext → Fresh → SessionDoc
  child_of d ctx fresh = record {
    id = fresh.id;
    user_id = d.user_id;
    tenant_id = d.tenant_id;
    application_id = d.application_id;
    status = active;
    family_id = d.family_id;
    current_refresh_token_hash = deps.hash fresh.token;
    replaced_by_session_id = none;
    device = record {
      ip = or_else ctx.ip d.device.ip;
      user_agent = or_else ctx.user_agent d.device.user_agent;
      device_label = or_else ctx.device_label d.device.device_label;
    };
    last_active_at = fresh.now;
    expires_at = fresh.now + deps.refresh_token_ttl_ms;
    revoked_at = none;
  }

  -- `txBody`: the child is created, the parent is read again, and made `replaced`.
  pub tx_body : ℕ → SessionDoc → ℕ → List SessionDoc → Result SessionDoc × List SessionDoc
  tx_body parent child now l =
      let with_child = db.create child l in
      if still_rotating (db.find_one (by_id parent) with_child)
      then (ok child, db.update_one (by_id parent) (set_replaced child.id now) with_child)
      else (err refresh_token_reuse, with_child)

  pub finished :
      ℕ
      → Fresh
      → World deps
      → Result SessionDoc × List SessionDoc
      → Result CreatedSession × World deps
  finished parent fresh w (err e, l) = (err e, record w { sessions = l })
  finished parent fresh w (ok child, l) = (
    ok (created child fresh.token),
    cache_liveness child.id fresh.now (cache_liveness parent fresh.now (record w { sessions = l })),
  )

  pub rotate :
      Option SessionDoc
      → RefreshContext
      → Fresh
      → Bool
      → (ℕ → Option DriverError)
      → ℕ
      → World deps
      → Result CreatedSession × World deps
  rotate none ctx fresh supported throws hash w =
      refused (db.find_one (by_token hash ctx) w.sessions) fresh.now w
  rotate (some d) ctx fresh supported throws hash w =
      finished d.id fresh w (
        with_transaction (tx_body d.id (child_of d ctx fresh) fresh.now) supported throws
          w.sessions)

  pub refresh :
      ℕ
      → RefreshContext
      → Fresh
      → (supported : Bool) → (throws : ℕ → Option DriverError) → World deps
      → Result CreatedSession × World deps
  unfolding rotate refused finished
  refresh token ctx fresh supported throws w =
      let hash = deps.hash token in
      let (found, l) = claim hash ctx fresh.now w.sessions in
      rotate found ctx fresh supported throws hash (record w { sessions = l })

  pub checked : Option SessionDoc → ℕ → ℕ → World deps → Bool × World deps
  checked none id now w = (false, w)
  checked (some d) id now w =
      if is_active d.status && ltb now d.expires_at
      then (true, cache_liveness id now w)
      else (false, w)

  pub is_session_active : ℕ → ℕ → World deps → Bool × World deps
  unfolding checked
  is_session_active id now w =
      let (value, s) = deps.cache.get (cache_key id) now w.cached in
      let w' : World deps = record w { cached = s } in
      if is_mark value then (true, w') else checked (db.find_one (by_id id) w.sessions) id now w'

  pub touch : ℕ → ℕ → World deps → World deps
  touch id now w = cache_liveness id now (record w {
    sessions = db.update_one (by_id id) (λ d. record d { last_active_at = now }) w.sessions;
  })
