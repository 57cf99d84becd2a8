-- ===== src/Session/Outcomes.antt =====
-- `refresh` as a whole: one rotation, or the refusal of a token that no active session has.
use pezhwan.Base.{
  ℕ, ◌≡◌, refl, ap, ◌∙◌, inl, inr, Bool, true, false, List, Option, none, some, count, find,
  update_first, update_first_miss, if◌then◌else◌, Bool-cases, Option-cases,
}
use pezhwan.Mongo.{updated_found, Collection, IsCollection, list_collection, list_collection_unique}
use pezhwan.Session.Transaction.{
  Result, ok, err, refresh_token_reuse, refresh_token_unknown, DriverError, with_transaction,
  with_transaction-ok, with_transaction-quiet,
}
use pezhwan.Session.Limits.{DistinctIds, live_of, family_revoked, count-revoke_family_other}
use pezhwan.Session.Rotation.{rotated_list, tx_body-rotates}
use pezhwan.Session.{
  SessionDoc, RefreshContext, Fresh, CreatedSession, Deps, World, of_family, by_token, claimable,
  is_settled, set_rotating, child_of, created, claim, tx_body, refresh, refused, finished,
}

abbrev pub db : Collection SessionDoc
db = list_collection

module _ (deps : Deps) (token : ℕ) (ctx : RefreshContext) (fresh : Fresh) (w : World deps) where
  abbrev pub h : ℕ
  h = deps.hash token

  abbrev pub child : SessionDoc → SessionDoc
  child x = child_of db deps (set_rotating fresh.now x) ctx fresh

  abbrev claimed : List SessionDoc
  claimed = update_first (claimable h ctx) (set_rotating fresh.now) w.sessions

  abbrev claimed_world : World deps
  claimed_world = record w { sessions = claimed }

  refresh_found :
      (x : SessionDoc) (supported : Bool) (throws : ℕ → Option DriverError)
      → find (claimable h ctx) w.sessions ≡ some x
      → refresh db deps token ctx fresh supported throws w
        ≡ finished db deps x.id fresh claimed_world
            (with_transaction (tx_body db deps x.id (child x) fresh.now) supported throws claimed)
  unfolding refresh claim
  refresh_found x supported throws found = rw (found, updated_found) refl

  refresh_missed :
      (supported : Bool) (throws : ℕ → Option DriverError)
      → find (claimable h ctx) w.sessions ≡ none
      → refresh db deps token ctx fresh supported throws w
        ≡ refused db deps (find (by_token h ctx) claimed) fresh.now claimed_world
  unfolding refresh claim
  refresh_missed supported throws missed = rw (missed, updated_found) refl

  unfoldable pub rotated : SessionDoc → List SessionDoc
  rotated x = rotated_list (claimable h ctx) x (child x) fresh.now w.sessions

  -- What a rotation leaves: the answer for the child, and the sessions after it.
  abbrev Rotates : SessionDoc → Result CreatedSession × World deps → Type 0
  Rotates x r = (r.0 ≡ ok (created db deps (child x) fresh.token)) × (r.1.sessions ≡ rotated x)

  finished-rotated :
      (x : SessionDoc) (r : Result SessionDoc × List SessionDoc)
      → r ≡ (ok (child x), rotated x)
      → Rotates x (finished db deps x.id fresh claimed_world r)
  unfolding finished
  finished-rotated x r e = rw (e, finished) (refl, refl)

  rotates :
      (x : SessionDoc) (supported : Bool)
      → DistinctIds w.sessions
      → find (claimable h ctx) w.sessions ≡ some x
      → Rotates x (refresh db deps token ctx fresh supported (λ _. none) w)
  unfolding rotated
  rotates x supported distinct found =
      let work = tx_body db deps x.id (child x) fresh.now in
      let done = tx_body-rotates deps h fresh.now ctx w.sessions x (child x) distinct found in
      rw (refresh_found x supported (λ _. none) found) (
        finished-rotated x _
          (with_transaction-quiet work supported claimed (child x) (ap (λ r. r.0) done) ∙ done))

  refused_fails :
      (o : Option SessionDoc) (r : CreatedSession)
      → ¬ ((refused db deps o fresh.now claimed_world).0 ≡ ok r)
  unfolding refused
  refused_fails none r e = cc
  refused_fails (some d) r e = cc

  finished-ok :
      (x : SessionDoc) (t : Result SessionDoc × List SessionDoc) (r : CreatedSession)
      → (finished db deps x.id fresh claimed_world t).0 ≡ ok r
      → (c : SessionDoc) × (t.0 ≡ ok c)
  unfolding finished
  finished-ok x (ok c, l) r e = (c, refl)
  finished-ok x (err f, l) r e = cc

  -- A rotation that succeeds has found an active session with the token.
  pub succeeds :
      (supported : Bool) (throws : ℕ → Option DriverError) (r : CreatedSession)
      → DistinctIds w.sessions
      → (refresh db deps token ctx fresh supported throws w).0 ≡ ok r
      → (x : SessionDoc) × (find (claimable h ctx) w.sessions ≡ some x)
        × Rotates x (refresh db deps token ctx fresh supported throws w)
  unfolding rotated
  succeeds supported throws r distinct done =
      elim (Option-cases (find (claimable h ctx) w.sessions)) [
        | inl missed ↦ absurd (
            refused_fails (find (by_token h ctx) claimed) r
              (rw (refresh_missed supported throws missed) at done))
        | inr (x, found) ↦
            let work = tx_body db deps x.id (child x) fresh.now in
            let (c, whole) =
              finished-ok x _ r (rw (refresh_found x supported throws found) at done) in
            let once = with_transaction-ok work supported throws claimed c whole in
            let rotation =
              tx_body-rotates deps h fresh.now ctx w.sessions x (child x) distinct found in
            (
              x,
              found,
              rw (refresh_found x supported throws found) (finished-rotated x _ (once ∙ rotation)),
            )
      ]

  -- Presented with no active session to claim, a token is refused by the state of the session that
  -- has it: unknown, in flight (nothing changes), or used before (the family is revoked).
  abbrev pub Refusal : Option SessionDoc → Result CreatedSession × World deps → Type 0
  Refusal none r = (r.0 ≡ err refresh_token_unknown) × (r.1.sessions ≡ w.sessions)
  Refusal (some d) r =
      (r.0 ≡ err refresh_token_reuse)
      × (if is_settled d.status
          then (count (live_of d.family_id) r.1.sessions ≡ 0)
            × ((q : SessionDoc → Bool)
                → ((x : SessionDoc) → of_family d.family_id x ≡ true → q x ≡ false)
                → count q r.1.sessions ≡ count q w.sessions)
          else (r.1.sessions ≡ w.sessions))

  refused-Refusal :
      (o : Option SessionDoc) (v : World deps)
      → v.sessions ≡ w.sessions
      → Refusal o (refused db deps o fresh.now v)
  unfolding refused
  refused-Refusal none v e = (refl, e)
  refused-Refusal (some d) v e = elim (Bool-cases (is_settled d.status)) [
    | inl settled ↦ (
      refl,
      rw settled (
        family_revoked deps d.family_id fresh.now v,
        λ q outside. rw (count-revoke_family_other deps q d.family_id fresh.now v outside, e) refl,
      ),
    )
    | inr in_flight ↦ (refl, rw in_flight e)
  ]

  pub missed-Refusal :
      (supported : Bool) (throws : ℕ → Option DriverError)
      → find (claimable h ctx) w.sessions ≡ none
      → Refusal
          (find (by_token h ctx) w.sessions)
          (refresh db deps token ctx fresh supported throws w)
  missed-Refusal supported throws missed =
      let same : claimed ≡ w.sessions =
        update_first_miss (claimable h ctx) (set_rotating fresh.now) w.sessions missed in
      rw (refresh_missed supported throws missed, same)
        (refused-Refusal (find (by_token h ctx) w.sessions) _ refl)

-- With an active session for the token, a refresh that the driver lets through succeeds: it answers
-- with the child's new token, in the same family, user, tenant and application, and leaves the child
-- active and the parent `replaced`, in every topology.
pub refresh_rotates :
    (db : Collection SessionDoc) (deps : Deps) (token : ℕ) (ctx : RefreshContext) (fresh : Fresh)
    (w : World deps) (x : SessionDoc) (supported : Bool)
    → IsCollection db
    → DistinctIds w.sessions
    → find (claimable (deps.hash token) ctx) w.sessions ≡ some x
    → let r = refresh db deps token ctx fresh supported (λ _. none) w in
      let child = child_of db deps x ctx fresh in
      (r.0 ≡ ok (created db deps child fresh.token))
      × (r.1.sessions ≡ rotated_list (claimable (deps.hash token) ctx) x child fresh.now w.sessions)
unfolding rotated
refresh_rotates db deps token ctx fresh w x supported laws distinct found =
    rw (← list_collection_unique db laws)
      (rotates deps token ctx fresh w x supported distinct found)

-- Where no active session has the token in the caller's scope, the refresh fails by what has it:
-- nothing (unknown, and nothing changes), a session whose rotation is in flight (reuse, and nothing
-- changes), or a settled session (reuse: its family has no live session any more, and no count over
-- other families changes).
refresh_refused :
    (db : Collection SessionDoc) (deps : Deps) (token : ℕ) (ctx : RefreshContext) (fresh : Fresh)
    (w : World deps) (supported : Bool) (throws : ℕ → Option DriverError)
    → IsCollection db
    → find (claimable (deps.hash token) ctx) w.sessions ≡ none
    → Refusal deps token ctx fresh w
        (find (by_token (deps.hash token) ctx) w.sessions)
        (refresh db deps token ctx fresh supported throws w)
refresh_refused db deps token ctx fresh w supported throws laws missed =
    rw (← list_collection_unique db laws)
      (missed-Refusal deps token ctx fresh w supported throws missed)
