-- ===== src/AccessTokens/Lifetime.antt =====
-- How long an access token is accepted, in packages/core/src/services/token.service.ts.
use pezhwan.Base.{◌≢◌}
use pezhwan.AccessTokens.{Identity}

-- The identity names a user, a tenant, an application and a session.
abbrev pub IsWhole : Identity → Type 0
IsWhole i = (i.user_id ≢ 0) × (i.tenant_id ≢ 0) × (i.application_id ≢ 0) × (i.session_id ≢ 0)
