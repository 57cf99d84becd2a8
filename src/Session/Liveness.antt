-- ===== src/Session/Liveness.antt =====
-- `isSessionActive`: the liveness check of the auth pipeline, behind its cache.
use pezhwan.Base.{
  ℕ, ◌<◌, ◌≡◌, ◌↔◌, ◌∙◌, refl, inl, inr, ◌⊎◌, true, false, List, [], ◌∷◌, Option, none, some, arith,
  ◌==◌, count, find, filter, update_all, Bool-cases,
}
use pezhwan.Mongo.{Collection, IsCollection, list_collection, list_collection_unique}
use pezhwan.Cache.{key_eq, IsCache}
use pezhwan.Session.Limits.{sessions-revoke_family}
use pezhwan.Session.{
  SessionDoc, Deps, World, by_id, of_family, cache_key, is_active, is_mark, set_revoked,
  revoke_family, uncache, uncache_all, is_session_active, checked,
}

-- The store has an active session under the id that has not expired.
abbrev pub IsStoredActive : Option SessionDoc → ℕ → Type 0
IsStoredActive none now = ⊥
IsStoredActive (some d) now = (is_active d.status ≡ true) × (now < d.expires_at)

key_of_same : (i id : ℕ) → (i == id) ≡ true → cache_key id ≡ cache_key i
key_of_same i id same = ground arith

key_eq-other : (i id : ℕ) → (i == id) ≡ false → key_eq (cache_key i) (cache_key id) ≡ false
key_eq-other i id other = ground arith

module _ (deps : Deps) (laws : IsCache deps.cache) (id now : ℕ) (w : World deps) where
  abbrev db : Collection SessionDoc
  db = list_collection

  checked_iff :
      (o : Option SessionDoc) (v : World deps)
      → ((checked db deps o id now v).0 ≡ true) ↔ IsStoredActive o now
  unfolding checked
  checked_iff none v = ((λ e. cc), (λ e. absurd e))
  checked_iff (some d) v = ground arith

  active_iff : ((is_session_active db deps id now w).0 ≡ true) ↔ (
      (is_mark (laws.lookup w.cached now (cache_key id)) ≡ true)
      ⊎ IsStoredActive (find (by_id id) w.sessions) now)
  unfolding is_session_active
  active_iff =
      rw (laws.get_law (cache_key id) now w.cached)
        (elim (Bool-cases (is_mark (laws.lookup w.cached now (cache_key id)))) [
          | inl marked ↦ rw marked ((λ e. inl refl), (λ e. refl))
          | inr unmarked ↦ rw unmarked (
            (λ e. inr ((checked_iff (find (by_id id) w.sessions) _).0 e)),
            (λ r. elim r [ inl e ↦ cc | inr h ↦ (checked_iff (find (by_id id) w.sessions) _).1 h ]),
          )
        ])

  uncached :
      (ds : List SessionDoc) (v : World deps) (t : ℕ)
      → (laws.lookup v.cached t (cache_key id) ≡ none) ⊎ (0 < count (by_id id) ds)
      → laws.lookup (uncache_all db deps ds v).cached t (cache_key id) ≡ none
  unfolding uncache_all
  uncached [] v t h = ground arith
  uncached (d ∷ ds) v t h = uncached ds (uncache db deps d.id v) t (elim (Bool-cases (d.id == id)) [
    | inl same ↦ inl (rw (key_of_same d.id id same) (laws.del_self (cache_key d.id) t v.cached))
    | inr other ↦ elim h [
      | inl out ↦ inl (
          laws.del_other (cache_key d.id) (cache_key id) t v.cached (key_eq-other d.id id other)
          ∙ out)
      | inr more ↦ inr (ground arith)
    ]
  ])

found_again :
    (family id now : ℕ) (l : List SessionDoc) (d : SessionDoc)
    → find (by_id id) l ≡ some d
    → d.family_id ≡ family
    → find (by_id id) (update_all (of_family family) (set_revoked now) l) ≡ some (set_revoked now d)
found_again family id now [] d e same = ground arith
found_again family id now (x ∷ l) d e same =
    let rest = found_again family id now l d in
    elim (Bool-cases (x.id == id)) [ inl hit ↦ ground arith | inr miss ↦ ground arith ]

counted_in :
    (family id : ℕ) (l : List SessionDoc) (d : SessionDoc)
    → find (by_id id) l ≡ some d
    → d.family_id ≡ family
    → 0 < count (by_id id) (filter (of_family family) l)
counted_in family id [] d e same = ground arith
counted_in family id (x ∷ l) d e same =
    let rest = counted_in family id l d in
    elim (Bool-cases (x.id == id)) [ inl hit ↦ ground arith | inr miss ↦ ground arith ]

inactive_list :
    (deps : Deps) (laws : IsCache deps.cache) (family id now t : ℕ) (w : World deps)
    (d : SessionDoc)
    → find (by_id id) w.sessions ≡ some d
    → d.family_id ≡ family
    → (is_session_active list_collection deps id t
        (revoke_family list_collection deps family now w)).0
      ≡ false
unfolding revoke_family
inactive_list deps laws family id now t w d e same =
    let v = revoke_family list_collection deps family now w in
    let gone : laws.lookup v.cached t (cache_key id) ≡ none =
      uncached deps laws id now w (filter (of_family family) w.sessions) _ t
        (inr (counted_in family id w.sessions d e same)) in
    let settled : find (by_id id) v.sessions ≡ some (set_revoked now d) =
      rw (sessions-revoke_family deps family now w)
        (found_again family id now w.sessions d e same) in
    elim (Bool-cases ((is_session_active list_collection deps id t v).0)) [
      | inl said ↦ elim ((active_iff deps laws id t v).0 said) [
        | inl marked ↦ cc
        | inr stored ↦ let bad : false ≡ true = (rw settled at stored).0 in cc
      ]
      | inr denied ↦ denied
    ]

-- The kill switch of a family, in the words of the auth pipeline: no session that the store finds
-- in the family is reported active afterwards, at whatever time, and whatever the cache held.
pub revoke_family-inactive :
    (db : Collection SessionDoc) (deps : Deps)
    → IsCollection db
    → IsCache deps.cache
    → (family id now t : ℕ) (w : World deps) (d : SessionDoc) → find (by_id id) w.sessions ≡ some d
    → d.family_id ≡ family
    → (is_session_active db deps id t (revoke_family db deps family now w)).0 ≡ false
revoke_family-inactive db deps rules laws family id now t w d e same =
    rw (← list_collection_unique db rules) (inactive_list deps laws family id now t w d e same)
