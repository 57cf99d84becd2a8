-- ===== src/SigningKeys/Persist.antt =====
-- packages/core/src/services/keyStore.service.ts: the signing keys with their persistence, over files
-- or in memory. The kid that is drawn and the generated material are arguments. The adapter in memory holds
-- copies: that it shares the key objects with the store is not modelled. Kids are names that idFile
-- lets through.
use pezhwan.Base.{
  ℕ, Bool, true, false, not, List, [], ◌∷◌, ◌++◌, Option, none, some, ◌==◌, find, any, filter,
  update_first, map, if◌then◌else◌,
}
use pezhwan.SigningKeys.{
  SigningKey, StoredKey, Deps, is_active, default_ttl_ms, add_key, add_key_with_material, retire,
}

-- `JSON.stringify(key)`, whose fields are all there.
abbrev pub stored : SigningKey → StoredKey
stored k = record {
  kid = k.kid;
  algorithm = some k.algorithm;
  material = k.material;
  created_at = k.created_at;
  status = some k.status;
  activated_at = some k.activated_at;
  retired_at = k.retired_at;
  revoked_at = k.revoked_at;
  expires_at = k.expires_at;
}

-- `KeyStorePersistAdapter`. A load that throws gives none.
pub record Adapter : Type 1 where
  pub State : Type 0
  pub load : State → Option (List StoredKey) × State
  pub save : List SigningKey → State → State

abbrev pub memory_adapter : Adapter
memory_adapter = record {
  State = List StoredKey;
  load = λ s. (some s, s);
  save = λ keys s. map stored keys;
}

-- A file of the directory: empty, or a text that does not parse, or a key.
pub data Content : Type 0 where
  empty corrupt : Content
  holds : StoredKey → Content

pub record KeyFile : Type 0 where
  pub kid : ℕ
  pub content : Content

pub record Directory : Type 0 where
  pub pem : List KeyFile
  pub tmp : List KeyFile

abbrev pub has_name : ℕ → KeyFile → Bool
has_name kid f = f.kid == kid

abbrev pub StoredKeys : Type 0
StoredKeys = Option (List StoredKey) × List KeyFile

abbrev pub with_key : KeyFile → Content → StoredKeys → List KeyFile → StoredKeys
with_key f corrupt rest later = (none, f ∷ later)
with_key f empty rest later = rest
with_key f (holds k) (none, left) later = (none, f ∷ left)
with_key f (holds k) (some l, left) later = (some (k ∷ l), f ∷ left)

-- The keys of the files and the files that are left: empty ones are deleted, and at one that does not
-- parse the load throws.
unfoldable pub read_keys : List KeyFile → StoredKeys
read_keys [] = (some [], [])
read_keys (f ∷ l) = with_key f f.content (read_keys l) l

abbrev pub loaded : StoredKeys → Directory → Option (List StoredKey) × Directory
loaded (none, left) d = (none, record d { pem = left })
loaded (some l, left) d = (some l, record { pem = left; tmp = [] })

abbrev pub put_file : KeyFile → List KeyFile → List KeyFile
put_file f l =
    if any (has_name f.kid) l then update_first (has_name f.kid) (λ _. f) l else l ++ f ∷ []

-- What a save does to the directory, one system call at a time.
pub data Action : Type 0 where
  writes_tmp : KeyFile → Action
  renames : ℕ → Action

abbrev pub moved : Option KeyFile → Directory → Directory
moved none d = d
moved (some f) d = record {
  pem = put_file f d.pem;
  tmp = filter (λ g. not (has_name f.kid g)) d.tmp;
}

unfoldable pub act : Action → Directory → Directory
act (writes_tmp f) d = record d { tmp = put_file f d.tmp }
act (renames kid) d = moved (find (has_name kid) d.tmp) d

unfoldable pub act_all : List Action → Directory → Directory
unfolding act
act_all [] d = d
act_all (a ∷ l) d = act_all l (act a d)

abbrev pub key_file : SigningKey → KeyFile
key_file k = record { kid = k.kid; content = holds (stored k) }

-- Each key is written to its temporary file, which is empty and then incomplete on the way, and then
-- renamed.
unfoldable pub save_actions : List SigningKey → List Action
save_actions [] = []
save_actions (k ∷ l) =
    writes_tmp (record { kid = k.kid; content = empty })
    ∷ writes_tmp (record { kid = k.kid; content = corrupt })
    ∷ writes_tmp (key_file k)
    ∷ renames k.kid
    ∷ save_actions l

abbrev pub file_adapter : Adapter
file_adapter = record {
  State = Directory;
  load = λ d. loaded (read_keys d.pem) d;
  save = λ keys d. act_all (save_actions keys) d;
}

pub record World (adapter : Adapter) : Type 0 where
  pub keys : List SigningKey
  pub persisted : adapter.State

pub data Outcome : Type 0 where
  done load_throws restore_throws retire_throws : Outcome

module _ (deps : Deps) (adapter : Adapter) where
  abbrev pub is_new : List SigningKey → Bool
  is_new [] = true
  is_new (k ∷ l) = false

  abbrev pub with_first_key : (kid material now : ℕ) → List SigningKey → List SigningKey
  with_first_key kid material now l =
      if is_new l then (add_key deps kid material default_ttl_ms now l).1 else l

  pub ensure_key : (kid material now : ℕ) → World adapter → World adapter
  ensure_key kid material now w = record w { keys = with_first_key kid material now w.keys }

  -- Whether every key was restored, and the keys: those before a refused one are kept.
  unfoldable pub restore_all : List StoredKey → ℕ → List SigningKey → Bool × List SigningKey
  restore_all [] now l = (true, l)
  restore_all (k ∷ ks) now l = elim (add_key_with_material deps k now l) [
    | none ↦ (false, l)
    | some l' ↦ restore_all ks now l'
  ]

  abbrev pub restored_keys :
      Bool → (kid material now : ℕ) → adapter.State → List SigningKey → Outcome × World adapter
  restored_keys false kid material now s l = (restore_throws, record { keys = l; persisted = s })
  restored_keys true kid material now s l =
      if is_new l
      then (let (_, first) = add_key deps kid material default_ttl_ms now l in
          (done, record { keys = first; persisted = adapter.save first s }))
      else (done, record { keys = l; persisted = s })

  abbrev pub loaded_keys :
      Option (List StoredKey)
      → (kid material now : ℕ) → adapter.State
      → List SigningKey
      → Outcome × World adapter
  loaded_keys none kid material now s l = (load_throws, record { keys = l; persisted = s })
  loaded_keys (some ks) kid material now s l =
      let (good, keys) = restore_all ks now l in restored_keys good kid material now s keys

  unfoldable pub init : (kid material now : ℕ) → World adapter → Outcome × World adapter
  unfolding restore_all
  init kid material now w =
      let (ks, s) = adapter.load w.persisted in loaded_keys ks kid material now s w.keys

  abbrev pub saved :
      Option (List SigningKey) → List SigningKey → adapter.State → Outcome × World adapter
  saved none l s = (retire_throws, record { keys = l; persisted = s })
  saved (some keys) l s = (done, record { keys = keys; persisted = adapter.save keys s })

  abbrev pub retired_previous :
      Option SigningKey → ℕ → List SigningKey → adapter.State → Outcome × World adapter
  retired_previous none now l s = saved (some l) l s
  retired_previous (some previous) now l s = saved (retire previous.kid now l) l s

  -- A new key, and the first active one is retired. What throws leaves the new key unsaved.
  unfoldable pub rotate : (kid material now : ℕ) → World adapter → Outcome × World adapter
  rotate kid material now w =
      retired_previous (find (λ k. is_active k.status) w.keys) now
        (add_key deps kid material default_ttl_ms now w.keys).1 w.persisted
