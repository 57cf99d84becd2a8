-- ===== src/Session/Limits.antt =====
-- Revocation, and the cap on the sessions of a user in an application.
use pezhwan.Base.{
  false, count-cong, ℕ, ◌≤◌, ◌<◌, ◌≡◌, refl, inl, inr, Bool, true, ◌&&◌, ◌||◌, List, [], ◌∷◌,
  Option, none, some, arith, if◌then◌else◌, bit, count, find, update_all, count-append,
  count-update_first, count-update_all, count-none, Option-cases,
}
use pezhwan.Mongo.{Collection, IsCollection, list_collection, list_collection_unique}
use pezhwan.Session.{
  SessionDoc, SessionContext, Fresh, Deps, World, by_id, of_family, active_of, is_active,
  is_rotating, set_revoked, uncache_all, uncache, revoke, revoke_family, revoke_oldest,
  enforce_session_limit, new_session, create,
}

-- `findOne(filter).sort({ lastActiveAt: 1 })` over documents with distinct ids.
abbrev pub DistinctIds : List SessionDoc → Type 0
DistinctIds l = (i : ℕ) → count (by_id i) l ≤ 1

pub record IsOldest (oldest : (SessionDoc → Bool) → List SessionDoc → Option SessionDoc)
    : Type 0 where
  pub miss : (p : SessionDoc → Bool) (l : List SessionDoc) → oldest p l ≡ none → count p l ≡ 0
  pub hit :
      (p : SessionDoc → Bool) (l : List SessionDoc) (d : SessionDoc)
      → DistinctIds l
      → oldest p l ≡ some d
      → (p d ≡ true) × (find (by_id d.id) l ≡ some d)

-- A session that still holds its family's place: active, or being rotated.
abbrev pub is_live : SessionDoc → Bool
is_live d = is_active d.status || is_rotating d.status

abbrev pub live_of : ℕ → SessionDoc → Bool
live_of family d = of_family family d && is_live d

bit-le : (b : Bool) → bit b ≤ 1
bit-le b = ground arith

module _ (deps : Deps) where
  abbrev db : Collection SessionDoc
  db = list_collection

  sessions-uncache_all :
      (ds : List SessionDoc) (w : World deps) → (uncache_all db deps ds w).sessions ≡ w.sessions
  unfolding uncache_all
  sessions-uncache_all [] w = refl
  sessions-uncache_all (d ∷ ds) w = sessions-uncache_all ds (uncache db deps d.id w)

  pub sessions-revoke_family :
      (family now : ℕ) (w : World deps)
      → (revoke_family db deps family now w).sessions
        ≡ update_all (of_family family) (set_revoked now) w.sessions
  unfolding revoke_family
  sessions-revoke_family family now w = sessions-uncache_all _ _

  count-enforce :
      (user app now : ℕ) (w : World deps)
      → IsOldest deps.oldest
      → DistinctIds w.sessions
      → 0 < deps.max_active_sessions
      → count (active_of user app) w.sessions ≤ deps.max_active_sessions
      → count (active_of user app) (enforce_session_limit db deps user app now w).sessions
        < deps.max_active_sessions
  unfolding enforce_session_limit revoke_oldest revoke
  count-enforce user app now w o distinct positive within =
      elim (Option-cases (deps.oldest (active_of user app) w.sessions)) [
        | inl none_left ↦ ground (arith, o.miss (active_of user app) w.sessions none_left)
        | inr (d, found) ↦
            let (passes, at_id) = o.hit (active_of user app) w.sessions d distinct found in
            ground (
              arith,
              count-update_first (active_of user app) (by_id d.id) (set_revoked now) w.sessions
                  {x = d} at_id,
            )
      ]

  count-create :
      (ctx : SessionContext) (fresh : Fresh) (w : World deps)
      → IsOldest deps.oldest
      → DistinctIds w.sessions
      → 0 < deps.max_active_sessions
      → count (active_of ctx.user_id ctx.application_id) w.sessions ≤ deps.max_active_sessions
      → count (active_of ctx.user_id ctx.application_id) (create db deps ctx fresh w).1.sessions
        ≤ deps.max_active_sessions
  unfolding create
  count-create ctx fresh w o distinct positive within =
      let user = ctx.user_id in
      let app = ctx.application_id in
      omega (
        arith,
        count-enforce user app fresh.now w o distinct positive within,
        count-append (active_of user app)
            (enforce_session_limit db deps user app fresh.now w).sessions
            (new_session db deps ctx fresh ∷ []),
        bit-le (active_of user app (new_session db deps ctx fresh)),
      )

  count-revoke_family :
      (q : SessionDoc → Bool) (family now : ℕ) (w : World deps)
      → count q (revoke_family db deps family now w).sessions
        ≡ count (λ d. q (if of_family family d then set_revoked now d else d)) w.sessions
  count-revoke_family q family now w =
      rw (sessions-revoke_family family now w)
        (count-update_all q (of_family family) (set_revoked now) w.sessions)

  pub family_revoked :
      (family now : ℕ) (w : World deps)
      → count (live_of family) (revoke_family db deps family now w).sessions ≡ 0
  family_revoked family now w =
      rw (count-revoke_family (live_of family) family now w)
        (count-none _ (λ d. ground arith) w.sessions)

  -- A count over other families is not touched.
  pub count-revoke_family_other :
      (q : SessionDoc → Bool) (family now : ℕ) (w : World deps)
      → ((d : SessionDoc) → of_family family d ≡ true → q d ≡ false)
      → count q (revoke_family db deps family now w).sessions ≡ count q w.sessions
  count-revoke_family_other q family now w outside = rw (count-revoke_family q family now w) (
      count-cong (λ d. q (if of_family family d then set_revoked now d else d)) q
        (λ d. ground (arith, outside d, outside (set_revoked now d))) w.sessions)

-- `create` keeps the number of active sessions of a user in an application within the cap, if the cap
-- is positive, the store gives ids once, and `oldest` finds an active session where there is one.
pub create_within_cap :
    (db : Collection SessionDoc) (deps : Deps) (ctx : SessionContext) (fresh : Fresh)
    (w : World deps)
    → IsCollection db
    → IsOldest deps.oldest
    → DistinctIds w.sessions
    → 0 < deps.max_active_sessions
    → count (active_of ctx.user_id ctx.application_id) w.sessions ≤ deps.max_active_sessions
    → count (active_of ctx.user_id ctx.application_id) (create db deps ctx fresh w).1.sessions
      ≤ deps.max_active_sessions
create_within_cap db deps ctx fresh w laws o distinct positive within =
    rw (← list_collection_unique db laws) (count-create deps ctx fresh w o distinct positive within)
