-- ===== src/Otp/Codes.antt =====
-- Codes from their request to their verification, in packages/core/src/services/otp.service.ts.
use pezhwan.Base.{
  ℕ, ◌+◌, ◌≤◌, ◌<◌, ◌≡◌, ◌≢◌, ◌∙◌, inl, inr, refl, true, false, [], ◌∷◌, some, arith, count, find,
  find-update_first_unique, find-append_miss, find-passes, Option-cases,
}
use pezhwan.Mongo.{Collection, IsCollection, list_collection, list_collection_unique}
use pezhwan.Cache.{key_eq, num, number_or_zero, IsCache, lookup-set_live}
use pezhwan.Otp.Budget.{DistinctIds, is_verified, spent_refused, verified_consumes}
use pezhwan.Otp.{
  OtpDoc, Options, World, Request, verified, invalid, attempts_key, cooldown_key, ceil_seconds,
  of_request, judged, verify_otp, request_otp, issue, renewed, first_code,
}

-- A code is used once: after a verification that succeeds, no code is verified for the same request,
-- and none is told to be wrong, whenever it is tried. Document ids are distinct.
pub verified_once :
    (db : Collection OtpDoc) (options : Options) (rules : IsCollection db)
    (laws : IsCache options.cache) (r : Request) (code now code' now' : ℕ) (w : World options)
    → DistinctIds w.otps
    → (verify_otp db options r code now w).0 ≡ verified
    → let w' = (verify_otp db options r code now w).1 in
      ((verify_otp db options r code' now' w').0 ≢ verified)
      × ((verify_otp db options r code' now' w').0 ≢ invalid)
verified_once db options rules laws r code now code' now' w ids good =
    let w' = (verify_otp list_collection options r code now w).1 in
    let good' : is_verified (verify_otp list_collection options r code now w).0 ≡ true =
      rw (list_collection_unique db rules, good) refl in
    let (d, (e, spent)) = verified_consumes options laws r code now w ids good' in
    let facts = spent_refused options laws r code' now' w' d e spent in
    rw (← list_collection_unique db rules) (
      (λ e'. let bad : true ≡ false = rw e' at (facts.0) in cc),
      (λ e'. let bad : true ≡ false = rw e' at (facts.1.0) in cc),
    )

module _ (options : Options) (laws : IsCache options.cache) where
  of_request_self :
      (r : Request) (id code now : ℕ)
      → of_request options r (first_code options r id code now) ≡ true
  of_request_self r id code now = ground arith

  issued_list :
      (r : Request) (id code now : ℕ) (w : World options)
      → count (of_request options r) w.otps ≤ 1
      → (d : OtpDoc) × ((find
              (of_request options r)
              (issue list_collection options r id code now w).1.otps
            ≡ some d)
          × ((d.code_hash ≡ options.hash code)
              × ((d.consumed ≡ false) × (d.expires_at ≡ now + options.ttl_ms))))
  unfolding issue
  issued_list r id code now w one = elim (Option-cases (find (of_request options r) w.otps)) [
    | inl out ↦ (
      first_code options r id code now,
      (
        ground (
          arith,
          of_request_self r id code now,
          find-append_miss (of_request options r) w.otps (first_code options r id code now ∷ [])
              out,
        ),
        (refl, (refl, refl)),
      ),
    )
    | inr (d, e) ↦ (
      renewed options code now d,
      (
        ground (
          arith,
          find-update_first_unique (of_request options r) (of_request options r)
              (renewed options code now) w.otps {x = d} (λ a. refl) e
              (find-passes (of_request options r) w.otps {x = d} e) one,
        ),
        (refl, (refl, refl)),
      ),
    )
  ]

  found_verifies :
      (r : Request) (code t : ℕ) (v : World options) (d : OtpDoc)
      → find (of_request options r) v.otps ≡ some d
      → d.code_hash ≡ options.hash code
      → d.consumed ≡ false
      → t ≤ d.expires_at
      → number_or_zero (laws.lookup v.cached t (attempts_key r)) < options.max_attempts
      → (verify_otp list_collection options r code t v).0 ≡ verified
  unfolding verify_otp judged
  found_verifies r code t v d e hash fresh before room =
      let got = laws.get_law (attempts_key r) t v.cached in
      let room' : number_or_zero (options.cache.get (attempts_key r) t v.cached).0
          < options.max_attempts =
        rw got room in
      ground arith

  issue-cached :
      (r : Request) (id code now : ℕ) (w : World options)
      → (issue list_collection options r id code now w).1.cached
        ≡ options.cache.set
            (cooldown_key r)
            (num (now + options.resend_cooldown_ms))
            (ceil_seconds options.resend_cooldown_ms)
            now
            w.cached
  unfolding issue
  issue-cached r id code now w = ground arith

  cooldown_key-other : (r : Request) → key_eq (cooldown_key r) (attempts_key r) ≡ false
  cooldown_key-other r = ground arith

  issued_verifies :
      (r : Request) (id code now t : ℕ) (w : World options)
      → count (of_request options r) w.otps ≤ 1
      → now ≤ t
      → t ≤ now + options.ttl_ms
      → number_or_zero (laws.lookup w.cached t (attempts_key r)) < options.max_attempts
      → (verify_otp list_collection options r code t
          (issue list_collection options r id code now w).1).0
        ≡ verified
  issued_verifies r id code now t w one after before room =
      let v = (issue list_collection options r id code now w).1 in
      let (d, (e, (hash, (fresh, expiry)))) = issued_list r id code now w one in
      let kept =
        laws.set_other (cooldown_key r) (attempts_key r) (num (now + options.resend_cooldown_ms))
          (ceil_seconds options.resend_cooldown_ms) now t w.cached (cooldown_key-other r) after in
      let room' : number_or_zero (laws.lookup v.cached t (attempts_key r)) < options.max_attempts =
        rw (issue-cached r id code now w) (ground (arith, kept)) in
      found_verifies r code t v d e hash fresh (omega (arith, expiry)) room'

  cooling_list :
      (r : Request) (id code now t : ℕ) (v : World options)
      → now ≤ t
      → t < now + options.resend_cooldown_ms
      → laws.lookup v.cached t (cooldown_key r) ≡ some (num (now + options.resend_cooldown_ms))
      → ((request_otp list_collection options r id code t v).1.otps ≡ v.otps)
        × ((request_otp list_collection options r id code t v).1.sent_messages ≡ v.sent_messages)
  unfolding request_otp
  cooling_list r id code now t v after before held =
      let got : (options.cache.get (cooldown_key r) t v.cached).0
          ≡ some (num (now + options.resend_cooldown_ms)) =
        laws.get_law (cooldown_key r) t v.cached ∙ held in
      ground arith

  cooldown_key-same :
      (r s : Request)
      → r.channel ≡ s.channel
      → r.target ≡ s.target
      → cooldown_key r ≡ cooldown_key s
  cooldown_key-same r s c t = ground arith

-- A code that a request has issued is verified for that request until it expires, as long as the
-- budget of failed attempts is not used up at the time of the verification. The store has at most one
-- document for the request.
pub issued_code_verifies :
    (db : Collection OtpDoc) (options : Options) (rules : IsCollection db)
    (laws : IsCache options.cache) (r : Request) (id code now t : ℕ) (w : World options)
    → count (of_request options r) w.otps ≤ 1
    → now ≤ t
    → t ≤ now + options.ttl_ms
    → number_or_zero (laws.lookup w.cached t (attempts_key r)) < options.max_attempts
    → (verify_otp db options r code t (issue db options r id code now w).1).0 ≡ verified
issued_code_verifies db options rules laws r id code now t w one after before room =
    rw (← list_collection_unique db rules)
      (issued_verifies options laws r id code now t w one after before room)

-- The resend cooldown: once a code is issued, a request for the same channel and target, of whatever
-- purpose, neither changes a stored code nor sends a message before the cooldown has passed.
cooldown_sends_nothing :
    (db : Collection OtpDoc) (options : Options) (rules : IsCollection db)
    (laws : IsCache options.cache) (r s : Request) (id code now id' code' t : ℕ) (w : World options)
    → r.channel ≡ s.channel
    → r.target ≡ s.target
    → now ≤ t
    → t < now + options.resend_cooldown_ms
    → let v = (issue db options r id code now w).1 in
      ((request_otp db options s id' code' t v).1.otps ≡ v.otps)
      × ((request_otp db options s id' code' t v).1.sent_messages ≡ v.sent_messages)
cooldown_sends_nothing db options rules laws r s id code now id' code' t w c g after before =
    let v = (issue list_collection options r id code now w).1 in
    let key = cooldown_key-same options laws r s c g in
    let held : laws.lookup v.cached t (cooldown_key s)
        ≡ some (num (now + options.resend_cooldown_ms)) =
      rw (issue-cached options laws r id code now w, ← key)
        (lookup-set_live options.cache laws (cooldown_key r)
          (num (now + options.resend_cooldown_ms)) (ceil_seconds options.resend_cooldown_ms) now t
          w.cached (omega (arith, after, before)) (omega (arith, before))) in
    rw (← list_collection_unique db rules)
      (cooling_list options laws s id' code' now t v after before held)
