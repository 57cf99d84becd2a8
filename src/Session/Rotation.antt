-- ===== src/Session/Rotation.antt =====
-- `refresh`: what one rotation does, and what a second presentation of the same token does.
use pezhwan.Base.{
  ℕ, ◌≤◌, ◌<◌, ◌≡◌, refl, subst, inl, inr, Bool, true, false, List, [], ◌∷◌, ◌++◌, some, arith,
  ◌==◌, ==_refl, count, find, update_first, find-passes, find_unique, count_pos_of_find,
  find-append_hit, find-update_first_self, count-append, count-update_first_same, Bool-cases,
}
use pezhwan.Mongo.{list_collection}
use pezhwan.Session.Transaction.{ok}
use pezhwan.Session.Limits.{DistinctIds}
use pezhwan.Session.Interleavings.{with_hash}
use pezhwan.Session.{
  SessionDoc, RefreshContext, Deps, by_id, claimable, set_rotating, set_replaced, tx_body,
}

-- No other document has the token.
abbrev pub IsUnique : ℕ → List SessionDoc → Type 0
IsUnique h l = count (with_hash h) l ≤ 1

-- The sessions after the rotation of a session: its child at the end, itself replaced.
abbrev pub rotated_list :
    (SessionDoc → Bool) → SessionDoc → SessionDoc → ℕ → List SessionDoc → List SessionDoc
rotated_list p x child now l =
    update_first (by_id x.id) (set_replaced child.id now)
      (update_first p (set_rotating now) l ++ child ∷ [])

known_hash :
    (h k : ℕ) (l : List SessionDoc)
    → 0 < count (with_hash h) l
    → count (with_hash k) l ≡ 0
    → (k == h) ≡ false
known_hash h k l known unused = elim (Bool-cases (k == h)) [
  | inl same ↦
      let e : k ≡ h = ground arith in
      absurd (omega (arith, subst (λ j. count (with_hash j) l ≡ 0) e unused))
  | inr other ↦ other
]

module _ (deps : Deps) (h now : ℕ) (ctx : RefreshContext) (l : List SessionDoc)
    (x child : SessionDoc) (distinct : DistinctIds l)
    (found : find (claimable h ctx) l ≡ some x) where
  claimed_list : List SessionDoc
  claimed_list = update_first (claimable h ctx) (set_rotating now) l

  parent_found : find (by_id x.id) (claimed_list ++ child ∷ []) ≡ some (set_rotating now x)
  unfolding claimed_list
  parent_found = find-append_hit (by_id x.id) claimed_list (child ∷ []) (
      find-update_first_self (claimable h ctx) (by_id x.id) (set_rotating now) l (λ a. refl) found
        (==_refl x.id) (distinct x.id))

  -- The work of the transaction always succeeds right after the claim.
  pub tx_body-rotates :
      tx_body list_collection deps x.id child now
        (update_first (claimable h ctx) (set_rotating now) l)
      ≡ (ok child, rotated_list (claimable h ctx) x child now l)
  unfolding tx_body claimed_list
  tx_body-rotates = rw parent_found refl

  has_token : with_hash h x ≡ true
  has_token = ground (arith, find-passes (claimable h ctx) l {x = x} found)

  -- After it the token finds its parent, replaced.
  pub token_found :
      (unique : IsUnique h l) (fresh : count (with_hash child.current_refresh_token_hash) l ≡ 0)
      → find (with_hash h) (rotated_list (claimable h ctx) x child now l)
        ≡ some (set_replaced child.id now (set_rotating now x))
  unfolding claimed_list
  token_found unique fresh =
      let known =
        count_pos_of_find (with_hash h) l
          (find_unique (claimable h ctx) (with_hash h) l found has_token unique) in
      let other = known_hash h child.current_refresh_token_hash l known fresh in
      find-update_first_self (by_id x.id) (with_hash h) (set_replaced child.id now)
        (claimed_list ++ child ∷ []) {x = set_rotating now x} (λ a. refl) parent_found has_token
        (ground (
          arith,
          other,
          unique,
          count-append (with_hash h) claimed_list (child ∷ []),
          count-update_first_same (with_hash h) (claimable h ctx) (set_rotating now) l (λ a. refl),
        ))

  -- So no session with the token can be claimed, and a look-up by the token alone finds the parent.
  pub count-rotated_list :
      (unique : IsUnique h l) (fresh : count (with_hash child.current_refresh_token_hash) l ≡ 0)
      → IsUnique h (rotated_list (claimable h ctx) x child now l)
  unfolding claimed_list
  count-rotated_list unique fresh =
      let known =
        count_pos_of_find (with_hash h) l
          (find_unique (claimable h ctx) (with_hash h) l found has_token unique) in
      ground (
        arith,
        known_hash h child.current_refresh_token_hash l known fresh,
        unique,
        count-update_first_same (with_hash h) (by_id x.id) (set_replaced child.id now)
            (claimed_list ++ child ∷ []) (λ a. refl),
        count-append (with_hash h) claimed_list (child ∷ []),
        count-update_first_same (with_hash h) (claimable h ctx) (set_rotating now) l (λ a. refl),
      )
