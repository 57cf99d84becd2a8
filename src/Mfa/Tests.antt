-- ===== src/Mfa/Tests.antt =====
-- Runs of the second factor for one account.
use pezhwan.Base.{ℕ, ◌≡◌, refl, true, false, List, [], ◌∷◌, none, some, arith}
use pezhwan.Mongo.{list_collection, list_collection-IsCollection}
use pezhwan.Totp.{verify_totp, matches_from, hotp, truncated}
use pezhwan.Mfa.Lockout.{five_failures_lock, run}
use pezhwan.Mfa.{
  UserDoc, BackupCode, World, Deps, answered, verify_mfa, mfa_locked, try_backup_code, try_rows,
}

abbrev first_of : List ℕ → ℕ
first_of [] = 0
first_of (a ∷ s) = a

abbrev deps : Deps
deps = record {
  tenant_id = 3;
  hmac = λ secret counter. 7 ∷ [];
  hash = first_of;
  wrap = λ secret. secret;
  unwrap = λ sealed. some sealed;
}

abbrev account' : UserDoc
account' = record {
  id = 7;
  mfa_enabled = true;
  mfa_secret = some 55;
  mfa_secret_verified_at = none;
  mfa_failed_attempts = 4;
  mfa_lock_until = none;
}

abbrev backup : BackupCode
backup = record { id = 1; user_id = 7; tenant_id = 3; code_hash = 8; used_at = none }

abbrev world : World
world = record { users = account' ∷ []; codes = backup ∷ [] }

five_failures_lock_example :
    verify_mfa list_collection list_collection deps 7
      (8 ∷ [])
      999999
      (run list_collection list_collection deps 7 ((9 ∷ [], 100000) ∷ []) world)
    ≡ (answered false, run list_collection list_collection deps 7 ((9 ∷ [], 100000) ∷ []) world)
unfolding verify_mfa mfa_locked try_backup_code try_rows verify_totp matches_from hotp truncated
five_failures_lock_example =
    five_failures_lock list_collection list_collection list_collection-IsCollection
      list_collection-IsCollection deps 7 4 100000 999999 ((9 ∷ [], 100000) ∷ []) (8 ∷ []) world
      (omega arith) (account', (refl, (refl, (refl, (refl, (55, refl)))))) (refl, tt)
      (omega arith, (omega arith, tt)) (omega arith)
