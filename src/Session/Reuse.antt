-- ===== src/Session/Reuse.antt =====
-- The second presentation of a token to `refresh`.
use pezhwan.Base.{
  ℕ, ◌≡◌, refl, inl, inr, Bool, true, Option, none, some, arith, count, find, find-passes,
  find_unique, count_mono, Option-cases,
}
use pezhwan.Mongo.{Collection, IsCollection, list_collection, list_collection_unique}
use pezhwan.Session.Transaction.{ok, err, refresh_token_reuse, DriverError}
use pezhwan.Session.Limits.{DistinctIds, live_of}
use pezhwan.Session.Interleavings.{with_hash, IsFresh}
use pezhwan.Session.Rotation.{IsUnique, token_found, count-rotated_list}
use pezhwan.Session.{
  SessionDoc, RefreshContext, Fresh, CreatedSession, Deps, World, by_token, claimable, is_settled,
  set_rotating, set_replaced, refresh,
}
use pezhwan.Session.Outcomes.{db, child, rotated, succeeds, Refusal, missed-Refusal}

abbrev pub Unscoped : RefreshContext → Type 0
Unscoped ctx = (ctx.tenant_id ≡ none) × (ctx.application_id ≡ none)

module _ (deps : Deps) (token : ℕ) (ctx : RefreshContext) (fresh : Fresh) (w : World deps) where
  settled_presented :
      (supported : Bool) (throws : ℕ → Option DriverError) (y : SessionDoc)
      → find (with_hash (deps.hash token)) w.sessions ≡ some y
      → IsUnique (deps.hash token) w.sessions
      → is_settled y.status ≡ true
      → Unscoped ctx
      → let r = refresh db deps token ctx fresh supported throws w in
        (r.0 ≡ err refresh_token_reuse) × (count (live_of y.family_id) r.1.sessions ≡ 0)
  settled_presented supported throws y at one settled open_scope =
      let h = deps.hash token in
      let presented : find (by_token h ctx) w.sessions ≡ some y =
        find_unique (with_hash h) (by_token h ctx) w.sessions at
          (ground (arith, find-passes (with_hash h) w.sessions {x = y} at))
          (omega (
            arith,
            one,
            count_mono (by_token h ctx) (with_hash h) (λ a e. ground arith) w.sessions,
          )) in
      elim (Option-cases (find (claimable h ctx) w.sessions)) [
        | inl missed ↦
            let refusal = missed-Refusal deps token ctx fresh w supported throws missed in
            let told : Refusal deps token ctx fresh w (some y)
                (refresh db deps token ctx fresh supported throws w) =
              rw presented at refusal in
            (told.0, (rw settled at told.1).0)
        | inr (z, claimed_z) ↦
            let passes = find-passes (claimable h ctx) w.sessions {x = z} claimed_z in
            let same =
              find_unique (claimable h ctx) (with_hash h) w.sessions {x = z} claimed_z
                (ground arith) one in
            absurd (ground arith)
      ]

module _ (deps : Deps) (token : ℕ) (ctx : RefreshContext) (fresh : Fresh) (w : World deps) where
  reuse :
      (supported : Bool) (throws : ℕ → Option DriverError) (r : CreatedSession)
      → DistinctIds w.sessions
      → IsUnique (deps.hash token) w.sessions
      → IsFresh deps fresh w.sessions
      → (refresh db deps token ctx fresh supported throws w).0 ≡ ok r
      → let w1 = (refresh db deps token ctx fresh supported throws w).1 in
        (ctx2 : RefreshContext) (fresh2 : Fresh) (supported2 : Bool)
        (throws2 : ℕ → Option DriverError)
        → Unscoped ctx2
        → let second = refresh db deps token ctx2 fresh2 supported2 throws2 w1 in
          (second.0 ≡ err refresh_token_reuse) × (count (live_of r.family_id) second.1.sessions ≡ 0)
  unfolding rotated
  reuse supported throws r distinct unique unused done ctx2 fresh2 supported2 throws2 open_scope =
      let h = deps.hash token in
      let (x, found, both) = succeeds deps token ctx fresh w supported throws r distinct done in
      let c = child deps token ctx fresh w x in
      let y = set_replaced c.id fresh.now (set_rotating fresh.now x) in
      let at = token_found deps h fresh.now ctx w.sessions x c distinct found unique unused.1 in
      let one =
        count-rotated_list deps h fresh.now ctx w.sessions x c distinct found unique unused.1 in
      let w1 = (refresh db deps token ctx fresh supported throws w).1 in
      let (answer, revoked_all) =
        settled_presented deps token ctx2 fresh2 w1 supported2 throws2 y (rw both.1 at)
          (rw both.1 one) refl open_scope in
      let same_family : r.family_id ≡ x.family_id = ground (arith, both.0, done) in
      (answer, rw same_family revoked_all)

-- A refresh token is good for one rotation: after a refresh that succeeded, presenting the same token
-- again is reported as reuse, and then no session of the family is live: not the child either. Ids
-- are distinct, the token is stored once, the new id and token are fresh, and the second caller gives
-- no tenant or application.
pub refresh_twice :
    (db : Collection SessionDoc) (deps : Deps) (token : ℕ) (ctx : RefreshContext) (fresh : Fresh)
    (w : World deps) (supported : Bool) (throws : ℕ → Option DriverError) (r : CreatedSession)
    → IsCollection db
    → DistinctIds w.sessions
    → IsUnique (deps.hash token) w.sessions
    → IsFresh deps fresh w.sessions
    → (refresh db deps token ctx fresh supported throws w).0 ≡ ok r
    → (ctx2 : RefreshContext) (fresh2 : Fresh) (supported2 : Bool)
      (throws2 : ℕ → Option DriverError)
    → Unscoped ctx2
    → let second =
        refresh db deps token ctx2 fresh2 supported2 throws2
          (refresh db deps token ctx fresh supported throws w).1 in
      (second.0 ≡ err refresh_token_reuse) × (count (live_of r.family_id) second.1.sessions ≡ 0)
refresh_twice db deps token ctx fresh w supported throws r laws distinct unique unused done ctx2
      fresh2 supported2 throws2 open_scope =
    let done' : (refresh list_collection deps token ctx fresh supported throws w).0 ≡ ok r =
      rw (list_collection_unique db laws) done in
    rw (← list_collection_unique db laws) (
      reuse deps token ctx fresh w supported throws r distinct unique unused done' ctx2 fresh2
        supported2 throws2 open_scope)
