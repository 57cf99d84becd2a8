-- ===== src/VerificationToken/Single.antt =====
-- Issuing and redeeming the tokens of packages/core/src/services/verificationToken.service.ts.
use pezhwan.Base.{
  ℕ, ◌+◌, ◌≤◌, ◌≡◌, ◌≢◌, ◌∙◌, inl, inr, refl, Bool, true, List, [], ◌∷◌, none, some, ◌==◌,
  if◌then◌else◌, arith, count, find, update_first, update_all, count-update_all, count-append,
  count-none, count_mono, count-update_all_le, count-update_first, find-none_of_count,
  find-append_miss, count_of_find-none, ==_refl, Option-cases, Bool-cases, update_first_miss,
  find-passes,
}
use pezhwan.Mongo.{Collection, IsCollection, list_collection, list_collection_unique}
use pezhwan.VerificationToken.{
  Kind, email_change, phone_change, TokenDoc, IssueTokenInput, redeemed, invalid_token, Service,
  kind_eq, live_for, by_hash, consume, new_token, issue, redeem, judged, ttl_of, email_verification,
  password_reset, magic_link,
}

-- The index on the hash is unique.
abbrev pub DistinctHashes : List TokenDoc → Type 0
DistinctHashes l = (h : ℕ) → count (λ d. d.token_hash == h) l ≤ 1

kind_eq_refl : (k : Kind) → kind_eq k k ≡ true
kind_eq_refl email_verification = refl
kind_eq_refl password_reset = refl
kind_eq_refl magic_link = refl
kind_eq_refl email_change = refl
kind_eq_refl phone_change = refl

superseded_list :
    (h : ℕ) (p : TokenDoc → Bool) (now : ℕ) (l : List TokenDoc) (d : TokenDoc)
    → find (by_hash h) l ≡ some d
    → p d ≡ true
    → count (λ x. x.token_hash == h) l ≤ 1
    → find (by_hash h) (update_all p (consume now) l) ≡ none
superseded_list h p now [] d e live one = ground arith
superseded_list h p now (x ∷ l) d e live one =
    let rest = superseded_list h p now l d in
    let none_left : count (λ y. y.token_hash == h) l ≡ 0
        → find (by_hash h) (update_all p (consume now) l) ≡ none =
      λ z. find-none_of_count (by_hash h) (update_all p (consume now) l) (
        omega (
          arith,
          z,
          count-update_all_le (by_hash h) p (consume now) l (λ a. ground arith),
          count_mono (by_hash h) (λ y. y.token_hash == h) (λ a. ground arith) l,
        )) in
    elim (Bool-cases (by_hash h x)) [ inl hit ↦ ground arith | inr miss ↦ ground arith ]

module _ (service : Service) where
  one_live_list :
      (input : IssueTokenInput) (token now : ℕ) (l : List TokenDoc)
      → count
          (live_for input.tenant_id input.application_id input.user_id input.kind)
          (issue list_collection service input token now l).1
        ≡ 1
  unfolding issue
  one_live_list input token now l =
      let p = live_for input.tenant_id input.application_id input.user_id input.kind in
      let gone : count p (update_all p (consume now) l) ≡ 0 =
        count-update_all p p (consume now) l
        ∙ count-none (λ d. p (if p d then consume now d else d)) (λ d. ground arith) l in
      ground (
        arith,
        gone,
        kind_eq_refl input.kind,
        ==_refl input.tenant_id,
        ==_refl input.application_id,
        ==_refl input.user_id,
        count-append p (update_all p (consume now) l)
            (new_token list_collection service input token now ∷ []),
      )

  redeemed_gone :
      (token now : ℕ) (l : List TokenDoc)
      → DistinctHashes l
      → find (by_hash (service.hash token)) (redeem list_collection service token now l).1 ≡ none
  unfolding redeem
  redeemed_gone token now l distinct =
      let h = service.hash token in
      find-none_of_count (by_hash h) (update_first (by_hash h) (consume now) l)
        (elim (Option-cases (find (by_hash h) l)) [
          | inl out ↦
              rw (update_first_miss (by_hash h) (consume now) l out)
                (count_of_find-none (by_hash h) l out)
          | inr (d, e) ↦ ground (
            arith,
            count-update_first (by_hash h) (by_hash h) (consume now) l {x = d} e,
            find-passes (by_hash h) l {x = d} e,
            count_mono (by_hash h) (λ x. x.token_hash == h) (λ a. ground arith) l,
            distinct h,
          )
        ])

  gone_refused :
      (token now : ℕ) (l : List TokenDoc)
      → find (by_hash (service.hash token)) l ≡ none
      → (redeem list_collection service token now l).0 ≡ invalid_token
  unfolding redeem judged
  gone_refused token now l out = ground arith

  superseded_gone :
      (input : IssueTokenInput) (old token now : ℕ) (l : List TokenDoc) (d : TokenDoc)
      → find (by_hash (service.hash old)) l ≡ some d
      → live_for input.tenant_id input.application_id input.user_id input.kind d ≡ true
      → service.hash old ≢ service.hash token
      → DistinctHashes l
      → find (by_hash (service.hash old)) (issue list_collection service input token now l).1 ≡ none
  unfolding issue
  superseded_gone input old token now l d e live other distinct =
      let h = service.hash old in
      let p = live_for input.tenant_id input.application_id input.user_id input.kind in
      let gone = superseded_list h p now l d e live (distinct h) in
      ground (
        arith,
        gone,
        find-append_miss (by_hash h) (update_all p (consume now) l)
            (new_token list_collection service input token now ∷ []) gone,
      )

  issued_found :
      (input : IssueTokenInput) (token now : ℕ) (l : List TokenDoc)
      → find (by_hash (service.hash token)) l ≡ none
      → find (by_hash (service.hash token)) (issue list_collection service input token now l).1
        ≡ some (new_token list_collection service input token now)
  unfolding issue
  issued_found input token now l out =
      let h = service.hash token in
      let p = live_for input.tenant_id input.application_id input.user_id input.kind in
      let gone : find (by_hash h) (update_all p (consume now) l) ≡ none =
        find-none_of_count (by_hash h) (update_all p (consume now) l) (
          omega (
            arith,
            count-update_all_le (by_hash h) p (consume now) l (λ a. ground arith),
            count_of_find-none (by_hash h) l out,
          )) in
      ground (
        arith,
        ==_refl h,
        find-append_miss (by_hash h) (update_all p (consume now) l)
            (new_token list_collection service input token now ∷ []) gone,
      )

  found_redeems :
      (token t : ℕ) (l : List TokenDoc) (d : TokenDoc)
      → find (by_hash (service.hash token)) l ≡ some d
      → d.tenant_id ≡ service.tenant_id
      → d.application_id ≡ service.application_id
      → t ≤ d.expires_at
      → (redeem list_collection service token t l).0
        ≡ redeemed (record {
          user_id = d.user_id;
          kind = d.kind;
          tenant_id = d.tenant_id;
          application_id = d.application_id;
          target = d.target;
          redirect_uri = d.redirect_uri;
        })
  unfolding redeem judged
  found_redeems token t l d e tenant app live = ground arith

-- Issuing leaves one live token of the kind for the user, whatever was issued before.
issue-one_live :
    (db : Collection TokenDoc) (rules : IsCollection db) (service : Service)
    (input : IssueTokenInput) (token now : ℕ) (l : List TokenDoc)
    → count
        (live_for input.tenant_id input.application_id input.user_id input.kind)
        (issue db service input token now l).1
      ≡ 1
issue-one_live db rules service input token now l =
    rw (← list_collection_unique db rules) (one_live_list service input token now l)

-- A token is redeemed once: after an attempt to redeem it, whatever the outcome, a second attempt
-- is told that the token is invalid. Hashes are distinct in the store.
pub redeem_once :
    (db : Collection TokenDoc) (rules : IsCollection db) (service : Service) (token now t : ℕ)
    (l : List TokenDoc)
    → DistinctHashes l
    → (redeem db service token t (redeem db service token now l).1).0 ≡ invalid_token
redeem_once db rules service token now t l distinct = rw (← list_collection_unique db rules) (
    gone_refused service token t (redeem list_collection service token now l).1
      (redeemed_gone service token now l distinct))

-- Issuing supersedes: a token of the same user and kind that was live before is invalid afterwards,
-- where the new token has another hash and hashes are distinct in the store.
issue-supersedes :
    (db : Collection TokenDoc) (rules : IsCollection db) (service : Service)
    (input : IssueTokenInput) (old token now t : ℕ) (l : List TokenDoc) (d : TokenDoc)
    → find (by_hash (service.hash old)) l ≡ some d
    → live_for input.tenant_id input.application_id input.user_id input.kind d ≡ true
    → service.hash old ≢ service.hash token
    → DistinctHashes l
    → (redeem db service old t (issue db service input token now l).1).0 ≡ invalid_token
issue-supersedes db rules service input old token now t l d e live other distinct =
    rw (← list_collection_unique db rules) (
      gone_refused service old t (issue list_collection service input token now l).1
        (superseded_gone service input old token now l d e live other distinct))

pub issue-token :
    (db : Collection TokenDoc) (service : Service) (input : IssueTokenInput) (token now : ℕ)
    (l : List TokenDoc)
    → (issue db service input token now l).0.token ≡ token
unfolding issue
issue-token db service input token now l = refl

-- An issued token is redeemed for what it was issued for, by the service of its tenant and
-- application, until its lifetime has passed. No live token has its hash before.
pub issue-redeems :
    (db : Collection TokenDoc) (rules : IsCollection db) (service : Service)
    (input : IssueTokenInput) (token now t : ℕ) (l : List TokenDoc)
    → find (by_hash (service.hash token)) l ≡ none
    → input.tenant_id ≡ service.tenant_id
    → input.application_id ≡ service.application_id
    → t ≤ now + ttl_of input.ttl_ms
    → (redeem db service token t (issue db service input token now l).1).0
      ≡ redeemed (record {
        user_id = input.user_id;
        kind = input.kind;
        tenant_id = input.tenant_id;
        application_id = input.application_id;
        target = input.target;
        redirect_uri = input.redirect_uri;
      })
issue-redeems db rules service input token now t l out tenant app live =
    rw (← list_collection_unique db rules) (
      found_redeems service token t (issue list_collection service input token now l).1
        (new_token list_collection service input token now)
        (issued_found service input token now l out) tenant app live)
