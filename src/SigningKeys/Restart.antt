-- ===== src/SigningKeys/Restart.antt =====
-- What a restart of packages/core/src/services/keyStore.service.ts finds.
use mathlib.Core.List.{append_assoc, append-nil}
use pezhwan.Base.{
  ℕ, ◌≤◌, ◌≡◌, ◌∙◌, refl, sym, ap, true, false, List, [], ◌∷◌, ◌++◌, some, ltb, any, count, map,
  arith, ==_refl, All, count-append, any-none_of_count,
}
use pezhwan.SigningKeys.{
  SigningKey, StoredKey, Deps, by_kid, set_key, prune, add_key_with_material, restored,
  is_well_formed,
}
use pezhwan.SigningKeys.Persist.{stored, memory_adapter, done, restore_all, init, is_new}

restored-stored : (k : SigningKey) → restored (stored k) ≡ k
restored-stored k = refl

-- No key has expired, and each is well formed.
abbrev pub AllSound : Deps → ℕ → List SigningKey → Type 0
AllSound deps now l = All (λ k. (now ≤ k.expires_at) × (is_well_formed deps (stored k) ≡ true)) l

abbrev Unexpired : ℕ → List SigningKey → Type 0
Unexpired now l = All (λ k. now ≤ k.expires_at) l

prune-none : (now : ℕ) (l : List SigningKey) → Unexpired now l → prune now l ≡ l
unfolding prune
prune-none now [] u = refl
prune-none now (k ∷ l) (h, u) =
    let kept : ltb k.expires_at now ≡ false = ground arith in rw (kept, prune-none now l u) refl

Unexpired-append :
    (now : ℕ) (l : List SigningKey) (k : SigningKey)
    → Unexpired now l
    → now ≤ k.expires_at
    → Unexpired now (l ++ k ∷ [])
Unexpired-append now [] k u h = (h, tt)
Unexpired-append now (j ∷ l) k (i, u) h = (i, Unexpired-append now l k u h)

module _ (deps : Deps) (now : ℕ) where
  add-restored :
      (k : SigningKey) (l : List SigningKey)
      → is_well_formed deps (stored k) ≡ true
      → any (by_kid k.kid) l ≡ false
      → Unexpired now (l ++ k ∷ [])
      → add_key_with_material deps (stored k) now l ≡ some (l ++ k ∷ [])
  unfolding add_key_with_material set_key
  add-restored k l good fresh u = rw (good, fresh, prune-none now (l ++ k ∷ []) u) refl

  restore_all-stored :
      (keys l : List SigningKey)
      → AllSound deps now keys
      → Unexpired now l
      → ((i : ℕ) → count (by_kid i) (l ++ keys) ≤ 1)
      → restore_all deps memory_adapter (map stored keys) now l ≡ (true, l ++ keys)
  unfolding restore_all
  restore_all-stored [] l s u distinct = ap (λ m. (true, m)) (sym (append-nil l))
  restore_all-stored (k ∷ keys) l ((late, good), s) u distinct =
      let fresh : any (by_kid k.kid) l ≡ false =
        any-none_of_count (by_kid k.kid) l (
          ground
            (arith, distinct k.kid, count-append (by_kid k.kid) l (k ∷ keys), ==_refl k.kid)) in
      let kept = Unexpired-append now l k u late in
      rw (restore_all, add-restored k l good fresh kept)
        (restore_all-stored keys (l ++ k ∷ []) s kept
            (λ i. rw (append_assoc l (k ∷ []) keys) (distinct i))
          ∙ ap (λ m. (true, m)) (append_assoc l (k ∷ []) keys))

-- A restart finds the keys that were saved: with the adapter in memory, a store that starts empty holds
-- after `init` the very keys that were saved last, in their order, and the material that would be drawn
-- is not used, where there is a key, none has expired, each is well formed, and kids are distinct.
pub init-saved :
    (deps : Deps) (kid material now : ℕ) (keys : List SigningKey) (s : List StoredKey)
    → AllSound deps now keys
    → ((i : ℕ) → count (by_kid i) keys ≤ 1)
    → is_new deps memory_adapter keys ≡ false
    → init deps memory_adapter kid material now
        (record { keys = []; persisted = memory_adapter.save keys s })
      ≡ (done, record { keys = keys; persisted = map stored keys })
unfolding init
init-saved deps kid material now keys s sound distinct old =
    rw (restore_all-stored deps now keys [] sound tt distinct, old) refl
