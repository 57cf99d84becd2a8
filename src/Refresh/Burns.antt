-- ===== src/Refresh/Burns.antt =====
-- What a refresh in the wrong context leaves behind.
use pezhwan.Base.{ℕ, ◌≡◌, refl, Bool, false, ◌&&◌, Option, none, some, ◌==◌, find, count, arith}
use pezhwan.Login.{Engine, Stores, World}
use pezhwan.Mongo.{IsCollection}
use pezhwan.Session
use pezhwan.Session.{SessionDoc, CreatedSession, Fresh, Deps, claimable, child_of, created}
use pezhwan.Session.Interleavings.{IsFresh}
use pezhwan.Session.Limits.{DistinctIds, live_of}
use pezhwan.Session.Outcomes.{refresh_rotates}
use pezhwan.Session.Reuse.{refresh_twice}
use pezhwan.Session.Rotation.{IsUnique}
use pezhwan.Session.Transaction.{Result, ok, err, Failure, DriverError, refresh_token_reuse}
use pezhwan.Refresh.{
  session_context_invalid, refresh_throws, unscoped, in_context, after_refresh, refresh_session,
}

module _ (stores : Stores) (engine : Engine) (application : ℕ) where
  after_refresh-world :
      (r : Result CreatedSession) (now : ℕ) (w : World engine)
      → (after_refresh stores engine application r now w).1 ≡ w
  after_refresh-world (err e) now w = refl
  after_refresh-world (ok session) now w = ground arith

  after_refresh-foreign :
      (r : Result CreatedSession) (session : CreatedSession) (now : ℕ) (w : World engine)
      → r ≡ ok session
      → in_context stores engine application session ≡ false
      → (after_refresh stores engine application r now w).0 ≡ session_context_invalid
  after_refresh-foreign r session now w e outside = rw (e, outside) refl

  after_refresh-err :
      (r : Result CreatedSession) (e : Failure) (now : ℕ) (w : World engine)
      → r ≡ err e
      → (after_refresh stores engine application r now w).0 ≡ refresh_throws e
  after_refresh-err r e now w same = rw same refl

-- A refresh presented to an engine of another tenant or application is refused, but it uses the token
-- up: the next refresh with it, by whichever application, is reported as reuse, and then no session of
-- the family is live. The store answers, ids are distinct, the token is stored once by an active
-- session, and the new id and token are fresh.
pub refresh_session-foreign_burns :
    (stores : Stores) (engine : Engine) (application token : ℕ)
    (ip user_agent device_label : Option ℕ) (fresh : Fresh) (w : World engine) (x : SessionDoc)
    (supported : Bool)
    → IsCollection stores.sessions
    → DistinctIds w.sessions.sessions
    → IsUnique (engine.sessions.hash token) w.sessions.sessions
    → IsFresh engine.sessions fresh w.sessions.sessions
    → find
        (claimable (engine.sessions.hash token) (unscoped ip user_agent device_label))
        w.sessions.sessions
      ≡ some x
    → (x.tenant_id == engine.tenant_id && x.application_id == application) ≡ false
    → (next_application : ℕ) (fresh2 : Fresh) (supported2 : Bool) (throws2 : ℕ → Option DriverError)
    → let first =
        refresh_session stores engine application token ip user_agent device_label fresh supported
          (λ _. none)
          w in
      let second =
        refresh_session stores engine next_application token ip user_agent device_label fresh2
          supported2 throws2 first.1 in
      (first.0 ≡ session_context_invalid)
      × ((second.0 ≡ refresh_throws refresh_token_reuse)
          × (count (live_of x.family_id) second.1.sessions.sessions ≡ 0))
unfolding refresh_session
refresh_session-foreign_burns stores engine application token ip user_agent device_label fresh w x
      supported laws distinct unique unused found outside next_application fresh2 supported2
      throws2 =
    let ctx = unscoped ip user_agent device_label in
    let deps = engine.sessions in
    let (done, _) =
      refresh_rotates stores.sessions deps token ctx fresh w.sessions x supported laws distinct
        found in
    let child =
      created stores.sessions deps (child_of stores.sessions deps x ctx fresh) fresh.token in
    let first =
      Session.refresh stores.sessions deps token ctx fresh supported (λ _. none) w.sessions in
    let second = Session.refresh stores.sessions deps token ctx fresh2 supported2 throws2 first.1 in
    let (reused, dead) =
      refresh_twice stores.sessions deps token ctx fresh w.sessions supported (λ _. none) child laws
        distinct unique unused done ctx fresh2 supported2 throws2 (refl, refl) in
    let w1 : World engine = record w { sessions = first.1 } in
    let w2 : World engine = record w { sessions = second.1 } in
    (
      after_refresh-foreign stores engine application first.0 child fresh.now w1 done outside,
      rw (after_refresh-world stores engine application first.0 fresh.now w1) (
        after_refresh-err stores engine next_application second.0 refresh_token_reuse fresh2.now w2
            reused,
        rw (after_refresh-world stores engine next_application second.0 fresh2.now w2) dead,
      ),
    )
