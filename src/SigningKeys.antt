-- ===== src/SigningKeys.antt =====
-- The class KeyStore of packages/crypto/src/jwt.ts: the keys that access tokens are signed with, in
-- the order in which the map holds them. Generated material is an argument, under a number that stands
-- for its texts.
mod Model
pub mod Persist
pub mod Lifetime
pub mod Revocation
pub mod Newest
pub mod Current
pub mod Rotation
pub mod Restart
pub mod Crash
mod Tests
unfoldable pub use Model.*
use pezhwan.Base.{
  ℕ, ◌+◌, ◌≡◌, Bool, true, false, not, ◌&&◌, ◌||◌, List, [], ◌∷◌, ◌++◌, Option, none, some, ◌==◌,
  ltb, find, any, filter, update_first, map, if◌then◌else◌,
}

-- `Map.set`: the place of a key that is there, or the end.
pub set_key : SigningKey → List SigningKey → List SigningKey
set_key k l = if any (by_kid k.kid) l then update_first (by_kid k.kid) (λ _. k) l else l ++ k ∷ []

pub clear : List SigningKey → List SigningKey
clear l = []

pub prune : ℕ → List SigningKey → List SigningKey
prune now l = filter (λ k. not (ltb k.expires_at now)) l

-- A stable sort by descending creation.
unfoldable pub insert_newest : SigningKey → List SigningKey → List SigningKey
insert_newest k [] = k ∷ []
insert_newest k (j ∷ l) = if ltb k.created_at j.created_at then j ∷ insert_newest k l else k ∷ j ∷ l

unfoldable pub newest_first : List SigningKey → List SigningKey
unfolding insert_newest
newest_first [] = []
newest_first (k ∷ l) = insert_newest k (newest_first l)

abbrev pub new_key : Deps → (kid material ttl now : ℕ) → SigningKey
new_key deps kid material ttl now = record {
  kid = kid;
  algorithm = deps.algorithm;
  material = material;
  created_at = now;
  status = active;
  activated_at = now;
  retired_at = none;
  revoked_at = none;
  expires_at = now + ttl;
}

unfoldable pub add_key :
    Deps → (kid material ttl now : ℕ) → List SigningKey → SigningKey × List SigningKey
unfolding set_key prune
add_key deps kid material ttl now l =
    let k = new_key deps kid material ttl now in (k, prune now (set_key k l))

abbrev pub is_current : ℕ → SigningKey → Bool
is_current now k = is_active k.status && ltb now k.expires_at

abbrev pub current_of :
    Deps
    → Option SigningKey
    → (kid material now : ℕ) → List SigningKey
    → SigningKey × List SigningKey
current_of deps none kid material now l = add_key deps kid material default_ttl_ms now l
current_of deps (some k) kid material now l = (k, l)

-- The key that signs. Where there is none, one is generated.
unfoldable pub current :
    Deps → (kid material now : ℕ) → List SigningKey → SigningKey × List SigningKey
unfolding newest_first
current deps kid material now l =
    current_of deps (find (is_current now) (newest_first l)) kid material now l

abbrev pub accepted : ℕ → Option SigningKey → Option SigningKey
accepted now none = none
accepted now (some k) = if not (is_revoked k.status) && ltb now k.expires_at then some k else none

-- `byKid`: the key that verifies.
unfoldable pub key_for : (kid now : ℕ) → List SigningKey → Option SigningKey
key_for kid now l = accepted now (find (by_kid kid) l)

abbrev pub or_active : Option KeyStatus → KeyStatus
or_active none = active
or_active (some s) = s

abbrev pub or_created : Option ℕ → ℕ → ℕ
or_created none created = created
or_created (some t) created = t

abbrev pub restored : StoredKey → SigningKey
restored k = record {
  kid = k.kid;
  algorithm = or_rs256 k.algorithm;
  material = k.material;
  created_at = k.created_at;
  status = or_active k.status;
  activated_at = or_created k.activated_at k.created_at;
  retired_at = k.retired_at;
  revoked_at = k.revoked_at;
  expires_at = k.expires_at;
}

-- None where the key is refused with an error.
unfoldable pub add_key_with_material :
    Deps → StoredKey → ℕ → List SigningKey → Option (List SigningKey)
unfolding set_key prune
add_key_with_material deps k now l =
    if is_well_formed deps k then some (prune now (set_key (restored k) l)) else none

-- The published keys.
unfoldable pub jwks : ℕ → List SigningKey → List SigningKey
jwks now l = filter (λ k. ltb now k.expires_at && is_published k.status) l

abbrev pub retire_found :
    Option SigningKey → (kid now : ℕ) → List SigningKey → Option (List SigningKey)
retire_found none kid now l = none
retire_found (some k) kid now l =
    if is_revoked k.status
    then none
    else some (
        update_first (by_kid kid) (λ x. record x { status = verify_only; retired_at = some now }) l)

-- None where the key is unknown or revoked, which throws.
unfoldable pub retire : (kid now : ℕ) → List SigningKey → Option (List SigningKey)
retire kid now l = retire_found (find (by_kid kid) l) kid now l

unfoldable pub revoke : (kid now : ℕ) → List SigningKey → Option (List SigningKey)
revoke kid now l =
    if any (by_kid kid) l
    then some
        (update_first (by_kid kid) (λ x. record x { status = revoked; revoked_at = some now }) l)
    else none
