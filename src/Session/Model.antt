-- ===== src/Session/Model.antt =====
-- The documents of packages/core/src/models/session.model.ts, and the filters and updates that
-- packages/core/src/services/session.service.ts sends to the store.
use pezhwan.Base.{ℕ, Bool, true, false, ◌&&◌, List, Option, none, some, ◌==◌}
use pezhwan.Cache.{Key, Value, num, Cache}

pub data Status : Type 0 where
  active rotating replaced revoked expired : Status

pub record Device : Type 0 where
  pub ip : ℕ
  pub user_agent : ℕ
  pub device_label : ℕ

pub record SessionDoc : Type 0 where
  pub id : ℕ
  pub user_id : ℕ
  pub tenant_id : ℕ
  pub application_id : ℕ
  pub status : Status
  pub family_id : ℕ
  pub current_refresh_token_hash : ℕ
  pub replaced_by_session_id : Option ℕ
  pub device : Device
  pub last_active_at : ℕ
  pub expires_at : ℕ
  pub revoked_at : Option ℕ

-- SessionContext, and the context of a refresh: `?` fields are options.
pub record SessionContext : Type 0 where
  pub user_id : ℕ
  pub tenant_id : ℕ
  pub application_id : ℕ
  pub ip : Option ℕ
  pub user_agent : Option ℕ
  pub device_label : Option ℕ

pub record RefreshContext : Type 0 where
  pub ip : Option ℕ
  pub user_agent : Option ℕ
  pub device_label : Option ℕ
  pub tenant_id : Option ℕ
  pub application_id : Option ℕ

pub record CreatedSession : Type 0 where
  pub session_id : ℕ
  pub user_id : ℕ
  pub tenant_id : ℕ
  pub application_id : ℕ
  pub family_id : ℕ
  pub refresh_token : ℕ
  pub refresh_token_hash : ℕ
  pub expires_at : ℕ

-- What a call draws: the new document's id, `randomUUID()`, the raw token, and the clock.
pub record Fresh : Type 0 where
  pub id : ℕ
  pub family : ℕ
  pub token : ℕ
  pub now : ℕ

-- The token hash is `TokenService.hashRefreshToken`; `oldest` is `findOne(…).sort({lastActiveAt: 1})`.
pub record Deps : Type 1 where
  pub cache : Cache
  pub hash : ℕ → ℕ
  pub oldest : (SessionDoc → Bool) → List SessionDoc → Option SessionDoc
  pub refresh_token_ttl_ms : ℕ
  pub max_active_sessions : ℕ

pub record World (deps : Deps) : Type 0 where
  pub sessions : List SessionDoc
  pub cached : deps.cache.State

abbrev pub session_cache_ttl_seconds : ℕ
session_cache_ttl_seconds = 30

-- `'Unknown device'`.
abbrev pub unknown_device : ℕ
unknown_device = 1

abbrev pub cache_key : ℕ → Key
cache_key session_id = record { space = 0; id = session_id }

abbrev pub is_active : Status → Bool
is_active active = true
is_active _ = false

abbrev pub is_rotating : Status → Bool
is_rotating rotating = true
is_rotating _ = false

-- `['replaced', 'revoked', 'expired'].includes(status)`.
abbrev pub is_settled : Status → Bool
is_settled active = false
is_settled rotating = false
is_settled _ = true

abbrev pub or_else : Option ℕ → ℕ → ℕ
or_else none d = d
or_else (some x) d = x

-- `...(x ? { field: x } : {})`: a field of a filter that may be absent.
abbrev pub matches : Option ℕ → ℕ → Bool
matches none y = true
matches (some x) y = y == x

-- The filters that the service sends to the store.
abbrev pub by_id : ℕ → SessionDoc → Bool
by_id i d = d.id == i

abbrev pub of_family : ℕ → SessionDoc → Bool
of_family f d = d.family_id == f

abbrev pub active_of : ℕ → ℕ → SessionDoc → Bool
active_of user app d = d.user_id == user && (d.application_id == app && is_active d.status)

abbrev pub by_token : ℕ → RefreshContext → SessionDoc → Bool
by_token hash ctx d =
    d.current_refresh_token_hash == hash
    && (matches ctx.tenant_id d.tenant_id && matches ctx.application_id d.application_id)

abbrev pub claimable : ℕ → RefreshContext → SessionDoc → Bool
claimable hash ctx d = is_active d.status && by_token hash ctx d

-- The updates.
abbrev pub set_rotating : ℕ → SessionDoc → SessionDoc
set_rotating now d = record d { status = rotating; revoked_at = some now }

abbrev pub set_replaced : ℕ → ℕ → SessionDoc → SessionDoc
set_replaced child now d = record d {
  status = replaced;
  replaced_by_session_id = some child;
  revoked_at = some now;
}

abbrev pub set_revoked : ℕ → SessionDoc → SessionDoc
set_revoked now d = record d { status = revoked; revoked_at = some now }

abbrev pub still_rotating : Option SessionDoc → Bool
still_rotating none = false
still_rotating (some d) = is_rotating d.status

-- `cached === '1'`.
abbrev pub is_mark : Option Value → Bool
is_mark (some (num n)) = n == 1
is_mark _ = false
