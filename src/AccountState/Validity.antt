-- ===== src/AccountState/Validity.antt =====
-- Answers of packages/core/src/services/accountState.service.ts from the store and from the cache.
use pezhwan.Base.{
  ℕ, ◌+◌, ◌*◌, ◌≤◌, ◌≡◌, ◌∙◌, refl, Bool, true, false, ◌&&◌, List, none, some, ◌==◌, arith, find,
  update_first, find-update_first_unique, find-passes, count,
}
use pezhwan.Mongo.{Collection, IsCollection, list_collection, list_collection_unique}
use pezhwan.Cache.{Value, Cache, IsCache, lookup-set_live}
use pezhwan.AccountState.{
  UserDoc, answered, unverifiable, World, cache_key, cache_ttl_seconds, by_id, state_of, holds,
  print, parse, validate, invalidate, invalidate_user_tokens,
}

-- The store has the account, active, at this version.
abbrev pub stored_holds : List UserDoc → ℕ → ℕ → Bool
stored_holds users user version = holds (state_of (find (by_id user) users) version)

module _ (cache : Cache) (laws : IsCache cache) (user : ℕ) where
  uncached_list :
      (version now : ℕ) (w : World cache)
      → laws.lookup w.cached now (cache_key user) ≡ none
      → ((validate list_collection cache user version true now w).0
          ≡ answered (stored_holds w.users user version))
        × ((validate list_collection cache user version true now w).1.cached
            ≡ cache.set
                (cache_key user)
                (print (state_of (find (by_id user) w.users) version))
                cache_ttl_seconds
                now
                (cache.get (cache_key user) now w.cached).1)
  unfolding validate
  uncached_list version now w out =
      let got = laws.get_law (cache_key user) now w.cached ∙ out in ground arith

  cached_answer :
      (version now : ℕ) (up : Bool) (w : World cache) (v : Value)
      → laws.lookup w.cached now (cache_key user) ≡ some v
      → (validate list_collection cache user version up now w).0 ≡ answered (holds (parse v))
  unfolding validate
  cached_answer version now up w v held =
      let got = laws.get_law (cache_key user) now w.cached ∙ held in ground arith

  closed_list :
      (version now : ℕ) (w : World cache)
      → laws.lookup w.cached now (cache_key user) ≡ none
      → (validate list_collection cache user version false now w).0 ≡ unverifiable
  unfolding validate
  closed_list version now w out =
      let got = laws.get_law (cache_key user) now w.cached ∙ out in ground arith

  bumped_list :
      (version now : ℕ) (w : World cache) (d : UserDoc)
      → count (by_id user) w.users ≤ 1
      → find (by_id user) w.users ≡ some d
      → (validate list_collection cache user version true now
          (invalidate_user_tokens list_collection cache user w)).0
        ≡ answered (d.is_active && (d.token_version + 1 == version))
  unfolding invalidate_user_tokens invalidate
  bumped_list version now w d one e =
      let bump : UserDoc → UserDoc = λ x. record x { token_version = x.token_version + 1 } in
      let v = invalidate_user_tokens list_collection cache user w in
      let stored : find (by_id user) v.users ≡ some (bump d) =
        find-update_first_unique (by_id user) (by_id user) bump w.users {x = d} (λ a. refl) e
          (find-passes (by_id user) w.users {x = d} e) one in
      let (told, s) = uncached_list version now v (laws.del_self (cache_key user) now w.cached) in
      rw (told, stored) refl

overtaken_list :
    (cache : Cache) (laws : IsCache cache) (user version now : ℕ) (w : World cache) (d : UserDoc)
    → count (by_id user) w.users ≤ 1
    → find (by_id user) w.users ≡ some d
    → (validate list_collection cache user version true now (
        invalidate list_collection cache user (record w {
          users = update_first (by_id user) (λ x. record x { token_version = version + 1 }) w.users;
        }))).0
      ≡ answered false
unfolding invalidate
overtaken_list cache laws user version now w d one e =
    let bump : UserDoc → UserDoc = λ x. record x { token_version = version + 1 } in
    let v =
      invalidate list_collection cache user
        (record w { users = update_first (by_id user) bump w.users }) in
    let stored : find (by_id user) v.users ≡ some (bump d) =
      find-update_first_unique (by_id user) (by_id user) bump w.users {x = d} (λ a. refl) e
        (find-passes (by_id user) w.users {x = d} e) one in
    let (told, s) =
      uncached_list cache laws user version now v (laws.del_self (cache_key user) now w.cached) in
    rw (told, stored) (ground arith)

-- A version that the stored one has overtaken by one is refused, where nothing is cached.
pub overtaken_refused :
    (db : Collection UserDoc) (rules : IsCollection db) (cache : Cache) (laws : IsCache cache)
    (user version now : ℕ) (w : World cache) (d : UserDoc)
    → count (by_id user) w.users ≤ 1
    → find (by_id user) w.users ≡ some d
    → (validate db cache user version true now (
        invalidate db cache user (record w {
          users =
              db.update_one (by_id user) (λ x. record x { token_version = version + 1 }) w.users;
        }))).0
      ≡ answered false
overtaken_refused db rules cache laws user version now w d one e =
    rw (← list_collection_unique db rules) (overtaken_list cache laws user version now w d one e)

-- Revocation takes effect at once: after a change of roles has bumped the version, the next question
-- is answered by the store, and only a token of the new version passes. The store answers and has one
-- account under the id.
pub bumped_validates :
    (db : Collection UserDoc) (rules : IsCollection db) (cache : Cache) (laws : IsCache cache)
    (user version now : ℕ) (w : World cache) (d : UserDoc)
    → count (by_id user) w.users ≤ 1
    → find (by_id user) w.users ≡ some d
    → (validate db cache user version true now (invalidate_user_tokens db cache user w)).0
      ≡ answered (d.is_active && (d.token_version + 1 == version))
bumped_validates db rules cache laws user version now w d one e =
    rw (← list_collection_unique db rules) (bumped_list cache laws user version now w d one e)

-- What the cache keeps of an answer is not tied to the version asked about: within thirty seconds of
-- an answer from the store, a question about any version gets the answer given for the first one,
-- whatever has happened to the account in the store. The two questions are about the same account, and
-- the store answers the first.
answer_ignores_version :
    (db : Collection UserDoc) (rules : IsCollection db) (cache : Cache) (laws : IsCache cache)
    (user version other now t : ℕ) (up : Bool) (w : World cache) (users : List UserDoc)
    → laws.lookup w.cached now (cache_key user) ≡ none
    → t ≤ now + cache_ttl_seconds * 1000
    → (validate db cache user other up t
        (record { users = users; cached = (validate db cache user version true now w).1.cached })).0
      ≡ answered (stored_holds w.users user version)
answer_ignores_version db rules cache laws user version other now t up w users out soon =
    let state = state_of (find (by_id user) w.users) version in
    let (told, kept) = uncached_list cache laws user version now w out in
    let v : World cache = record {
      users = users;
      cached = (validate list_collection cache user version true now w).1.cached;
    } in
    let held : laws.lookup v.cached t (cache_key user) ≡ some (print state) = rw kept (
      lookup-set_live cache laws (cache_key user) (print state) cache_ttl_seconds now t
        (cache.get (cache_key user) now w.cached).1 (omega arith) soon) in
    rw (← list_collection_unique db rules)
      (cached_answer cache laws user other t up v (print state) held)
