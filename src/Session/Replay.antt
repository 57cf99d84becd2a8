-- ===== src/Session/Replay.antt =====
-- Used refresh tokens, under the steps of Session/Interleavings.
use pezhwan.Base.{
  ℕ, ◌<◌, ◌≡◌, refl, subst, inl, inr, Bool, true, List, [], ◌∷◌, ◌++◌, Option, none, some, arith,
  ◌==◌, count, find, update_first, update_all, count-append, count_mono, find-none_of_count,
  count-update_first_same, count-update_all_same, count-update_first_le, count-update_all_le,
  Bool-cases,
}
use pezhwan.Mongo.{Collection, IsCollection, list_collection, list_collection_unique}
use pezhwan.Session.Transaction.{
  DriverError, with_transaction, with_transaction-Atomic, is_transient,
}
use pezhwan.Session.Interleavings.{
  System, with_hash, usable_with, IsFresh, Step, claims, finishes, revokes_many, revokes_one,
  logs_in, Reach, here, next,
}
use pezhwan.Session.Halves.{claim_found}
use pezhwan.Session.{
  SessionDoc, RefreshContext, Fresh, Deps, by_id, claimable, set_rotating, set_replaced,
  set_revoked, child_of, claim, tx_body, still_rotating,
}

-- A stored session has the token, and none that is active has it.
abbrev pub Spent : ℕ → List SessionDoc → Type 0
Spent h l = (0 < count (with_hash h) l) × (count (usable_with h) l ≡ 0)

-- An update that keeps the token and makes no session active.
abbrev Settles : ℕ → (SessionDoc → SessionDoc) → Type 0
Settles h f =
    (d : SessionDoc)
    → (with_hash h (f d) ≡ with_hash h d) × (usable_with h (f d) ≡ true → usable_with h d ≡ true)

module _ (h : ℕ) (p : SessionDoc → Bool) (f : SessionDoc → SessionDoc) (settles : Settles h f) where
  update_first-Spent : (l : List SessionDoc) → Spent h l → Spent h (update_first p f l)
  update_first-Spent l (known, used) = (
    omega (arith, count-update_first_same (with_hash h) p f l (λ a. (settles a).0)),
    omega (arith, count-update_first_le (usable_with h) p f l (λ a. (settles a).1)),
  )

  update_all-Spent : (l : List SessionDoc) → Spent h l → Spent h (update_all p f l)
  update_all-Spent l (known, used) = (
    omega (arith, count-update_all_same (with_hash h) p f l (λ a. (settles a).0)),
    omega (arith, count-update_all_le (usable_with h) p f l (λ a. (settles a).1)),
  )

append-Spent :
    (h : ℕ) (x : SessionDoc) (l : List SessionDoc)
    → count (with_hash x.current_refresh_token_hash) l ≡ 0
    → Spent h l
    → Spent h (l ++ x ∷ [])
append-Spent h x l unused (known, used) = elim (Bool-cases (x.current_refresh_token_hash == h)) [
  | inl same ↦
      let e : x.current_refresh_token_hash ≡ h = ground arith in
      absurd (omega (arith, subst (λ k. count (with_hash k) l ≡ 0) e unused))
  | inr other ↦
      ground (arith, count-append (with_hash h) l (x ∷ []), count-append (usable_with h) l (x ∷ []))
]

module _ (deps : Deps) (h : ℕ) where
  tx_body-Spent :
      (parent now : ℕ) (child : SessionDoc) (l : List SessionDoc)
      → count (with_hash child.current_refresh_token_hash) l ≡ 0
      → Spent h l
      → Spent h (tx_body list_collection deps parent child now l).1
  unfolding tx_body
  tx_body-Spent parent now child l unused spent =
      let appended = append-Spent h child l unused spent in
      elim (Bool-cases (still_rotating (find (by_id parent) (l ++ child ∷ [])))) [
        | inl yes_rotating ↦ rw yes_rotating (
            update_first-Spent h (by_id parent) (set_replaced child.id now)
              (λ d. (refl, λ e. ground arith)) (l ++ child ∷ []) appended)
        | inr not_rotating ↦ rw not_rotating appended
      ]

  claim-Spent :
      (hash now : ℕ) (ctx : RefreshContext) (l m : List SessionDoc) (d : SessionDoc)
      → claim list_collection deps hash ctx now l ≡ (some d, m)
      → Spent h l
      → Spent h m
  claim-Spent hash now ctx l m d e spent =
      let (x, found, same, eq) = claim_found deps hash now ctx l m d e in
      rw eq (
        update_first-Spent h (claimable hash ctx) (set_rotating now)
          (λ a. (refl, λ k. ground arith)) l spent)

  finish-Spent :
      (s : List SessionDoc) (d : SessionDoc) (ctx : RefreshContext) (fresh : Fresh)
      (throws : ℕ → Option DriverError)
      → IsFresh deps fresh s
      → ((e : DriverError) → throws 0 ≡ some e → is_transient e ≡ true)
      → Spent h s
      → Spent h
          (with_transaction
            (tx_body list_collection deps d.id
              (child_of list_collection deps d ctx fresh)
              fresh.now)
            true
            throws
            s).1
  finish-Spent s d ctx fresh throws unused calm spent =
      let child = child_of list_collection deps d ctx fresh in
      elim (with_transaction-Atomic (tx_body list_collection deps d.id child fresh.now) throws s
        calm) [
          | inr (f, same) ↦ rw same spent
          | inl (c, same, done) ↦ rw same (tx_body-Spent d.id fresh.now child s unused.1 spent)
        ]

  Step-Spent :
      {s t : System} → Step list_collection deps s t → Spent h s.sessions → Spent h t.sessions
  Step-Spent (claims token now ctx d l e) v = claim-Spent (deps.hash token) now ctx _ l d e v
  Step-Spent (finishes d before after ctx fresh throws e unused calm) v =
      finish-Spent _ d ctx fresh throws unused calm v
  Step-Spent (revokes_many p now) v =
      update_all-Spent h p (set_revoked now) (λ d. (refl, λ e. ground arith)) _ v
  Step-Spent (revokes_one id now) v =
      update_first-Spent h (by_id id) (set_revoked now) (λ d. (refl, λ e. ground arith)) _ v
  Step-Spent (logs_in ctx fresh unused unused_family) v = append-Spent h _ _ unused.1 v

  Reach-Spent :
      {s t : System} → Spent h s.sessions → Reach list_collection deps s t → Spent h t.sessions
  Reach-Spent v here = v
  Reach-Spent v (next r step) = Step-Spent step (Reach-Spent v r)

  unclaimable :
      (l : List SessionDoc) (now : ℕ) (ctx : RefreshContext)
      → Spent h l
      → (claim list_collection deps h ctx now l).0 ≡ none
  unfolding claim
  unclaimable l now ctx (known, used) = rw (
      find-none_of_count (claimable h ctx) l
        (omega (arith, count_mono (claimable h ctx) (usable_with h) (λ a e. ground arith) l)))

-- Once no active session has a token that some session was issued with, no interleaving of calls lets
-- a refresh claim a session with it, in any tenant and application.
used_token_unclaimable :
    (db : Collection SessionDoc) (deps : Deps) (s t : System) (token now : ℕ) (ctx : RefreshContext)
    → IsCollection db
    → Spent (deps.hash token) s.sessions
    → Reach db deps s t
    → (claim db deps (deps.hash token) ctx now t.sessions).0 ≡ none
used_token_unclaimable db deps s t token now ctx laws v r =
    let r' : Reach list_collection deps s t = rw (list_collection_unique db laws) r in
    rw (← list_collection_unique db laws) (
      unclaimable deps (deps.hash token) t.sessions now ctx
        (Reach-Spent deps (deps.hash token) v r'))
