-- ===== src/SigningKeys/Tests.antt =====
-- Signing keys on concrete lists, and a directory in the middle of a save.
use pezhwan.Base.{map, ◌+◌, ◌==◌, ◌≡◌, refl, [], ◌∷◌, List, none, some, find, count, take, arith}
use pezhwan.SigningKeys.{
  SigningKey, Deps, verify_only, revoked, is_well_formed, by_kid, key_for, revoke, retire, current,
  jwks, add_key, new_key, default_ttl_ms,
}
use pezhwan.SigningKeys.Persist.{
  init, done, memory_adapter, World, Directory, has_name, rotate, stored, act_all, save_actions,
  corrupt, key_file,
}
use pezhwan.SigningKeys.Lifetime.{here, next, signs}
use pezhwan.SigningKeys.Revocation.{revoked_key-gone}
use pezhwan.SigningKeys.Rotation.{rotate-new_signs}
use pezhwan.SigningKeys.Restart.{init-saved}
use pezhwan.SigningKeys.Crash.{IsWhole, save-crash_safe}

abbrev deps : Deps
deps = record {
  algorithm = 1;
  parts = λ m. record {
    public_key = some m;
    private_key = some (m + 1);
    pq_public_key = none;
    pq_private_key = none;
  };
  is_pem_pair = λ a b. b == a + 1;
  decoded_length = λ text. none;
}

-- A key that is made at 100 and expires at 1000.
abbrev first : SigningKey
first = new_key deps 7 70 900 100

abbrev world : World memory_adapter
world = record { keys = first ∷ []; persisted = stored first ∷ [] }

abbrev after_retiring : List SigningKey
after_retiring = record first { status = verify_only; retired_at = some 300 } ∷ []

abbrev after_signing : List SigningKey
after_signing = (current deps 8 80 400 after_retiring).1

abbrev after_revoking : List SigningKey
after_revoking = record first { status = revoked; revoked_at = some 300 } ∷ []

revoked_key-gone_example :
    (key_for 7 350 (current deps 8 80 400 after_revoking).1 ≡ none)
    × (count (by_kid 7) (jwks 350 (current deps 8 80 400 after_revoking).1) ≡ 0)
unfolding revoke
revoked_key-gone_example =
    revoked_key-gone deps 7 300 999 (first ∷ []) after_revoking
      (current deps 8 80 400 after_revoking).1 (omega arith) refl
      (next here (signs 8 80 400 (ground arith) (omega arith))) 350

abbrev rotated : World memory_adapter
rotated = (rotate deps memory_adapter 8 80 500 world).1

rotate-new_signs_example :
    ((current deps 9 90 2000 rotated.keys).0 ≡ new_key deps 8 80 default_ttl_ms 500)
    × (rotated.persisted ≡ memory_adapter.save rotated.keys world.persisted)
unfolding rotate retire add_key
rotate-new_signs_example =
    rotate-new_signs deps memory_adapter 8 80 500 world 9 90 2000 refl (omega arith, tt)
      (omega arith) refl

abbrev directory : Directory
directory = record { pem = key_file first ∷ []; tmp = record { kid = 7; content = corrupt } ∷ [] }

save-crash_safe_example :
    IsWhole 7 after_retiring
      (some (key_file first))
      (find (has_name 7) (act_all (take 2 (save_actions after_retiring)) directory).pem)
save-crash_safe_example = save-crash_safe after_retiring directory 2 7

abbrev saved_keys : List SigningKey
saved_keys = first ∷ new_key deps 8 80 900 200 ∷ []

init-saved_example :
    init deps memory_adapter 9 90 500
      (record { keys = []; persisted = memory_adapter.save saved_keys [] })
    ≡ (done, record { keys = saved_keys; persisted = map stored saved_keys })
unfolding is_well_formed
init-saved_example =
    init-saved deps 9 90 500 saved_keys [] ((omega arith, refl), ((omega arith, refl), tt))
      (λ i. ground arith) refl
