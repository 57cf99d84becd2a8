-- ===== src/Lib.antt =====
-- Pezhwan: the sessions, the one-time codes, the second factor, the authorization codes, the signing
-- keys, the audit log and the access decisions of an identity platform, modelled from the TypeScript
-- services under packages/core/src/services and packages/crypto.
--
-- How the parts interact. Every service keeps its documents in MongoDB and its short-lived state in a
-- RedisCache. The store is a parameter (Mongo: a collection, and what the manual documents of it); the
-- cache is a parameter too (Cache: the operations and the laws that the services rely on), and
-- Cache/Memory has the repository's in-memory implementation of it. Ids, texts and instants are
-- numbers: instants in milliseconds, as Date.now() gives them, and 0 is the empty text.
-- What a call draws at random, and the clock, are arguments of it; digests are parameters. The paths
-- of the list are under packages/core/src, but for those that begin with packages.
--
--   Base           tests, conditionals and lists measured by native numbers, with their lemmas.
--   Mongo          the collection, its laws, and that they determine it.
--   Cache          services/redisCache.ts: the RedisCache interface. Cache/Memory is MemoryCache
--                  (get, set, del, incrementAndExpire), Cache/Redis is RedisCacheImpl over a client.
--   Session        services/session.service.ts and models/session.model.ts: create, refresh, revoke,
--                  revokeFamily, revokeAll, isSessionActive, touch. Session/Transaction is
--                  withTransaction, with its three attempts. Session/Interleavings has the calls that
--                  run at the same time as a step relation: a refresh is its claim and its transaction.
--   Otp            services/otp.service.ts: requestOtp, verifyOtp.
--   RateLimit      services/rateLimit.service.ts: consume and mongoIncrement. Window has the contract
--                  of a tier that counts, Shared and Durable are the two tiers under it.
--   VerificationToken  services/verificationToken.service.ts: issue, redeem, existsActive.
--   AccountState   services/accountState.service.ts: validate, invalidate; and invalidateUserTokens of
--                  services/authorization.service.ts.
--   Totp           packages/crypto/src/totp.ts: hotp, generateTotp, verifyTotp. The HMAC is a parameter.
--   Mfa            services/mfa.service.ts: beginSetup, enable, verifyMfa, disable and the lock.
--   Authorization  services/authorization.service.ts and services/authorization/permission.service.ts.
--   Lock           services/infrastructure/distributed-lock.ts: acquire, withLock, release, extend. The
--                  Redis client is a parameter with the laws of SET NX EX; the two scripts are data that
--                  it runs as a whole, by their meaning on a key.
--   Login          packages/core/src/auth/auth.engine.ts: loginPassword, loginOtp, verifyMfaLogin, over the
--                  sessions, the codes, the second factor and the authorization.
--   PasswordPolicy services/password.service.ts: evaluatePassword.
--   MagicLink      sendMagicLink and redeemMagicLink of packages/core/src/auth/auth.engine.ts.
--   Refresh        refreshSession of packages/core/src/auth/auth.engine.ts.
--   Reset          changePassword, resetPassword and resetPasswordWithToken of
--                  packages/core/src/auth/auth.engine.ts.
--   Transactions   services/infrastructure/mongo-transactions.ts: withTransaction.
--   Audit          services/audit.service.ts: log, its transaction and its fallback, and chain. Chain,
--                  Fork and Tamper have what the links of the log are worth.
--   Oauth          services/oauth.service.ts: registerClient, authorizeCode and exchange with its three
--                  grants, over the sessions. Requests, Guards and Redemption say what is asked before
--                  a code and before tokens, Once and Flow what a code is good for.
--   SigningKeys    KeyStore of packages/crypto/src/jwt.ts. SigningKeys/Persist is
--                  services/keyStore.service.ts, where a save is a list of writes and renamings.
--   AccessTokens   services/token.service.ts: signAccessToken and verifyAccessToken. AccessTokens/Jwt is
--                  signToken and verifyToken of packages/crypto/src/jwt.ts, where jsonwebtoken, which
--                  has the classical algorithms, the primitives and the encodings are parameters;
--                  AccessTokens/Der is derToJoseSignature and joseToDerSignature.
--   JobQueue       services/events/job-queue.ts: enqueue, drain and its timer.
--   Delivery       adapters/otp-provider.ts and adapters/otp-delivery-manager.ts: withRetry,
--                  withCircuitBreaker and the dispatch over a chain of providers.
--   Policy         services/authorization/policy-engine.ts and services/authorization/abac.service.ts.
--
-- Loops are recursions on lists, on the attempts that are left or on the counters of a window. Only the
-- drain of the job queue, which goes on while some job is due, runs on fuel, and a theorem says how much
-- is enough. Where a theorem is about several calls, their order is an explicit list of calls with
-- ascending times, or a chain of steps.
--
-- Not modelled: the audit and log calls of the other services, deletions by TTL indexes, RedisManager, the
-- listing of sessions, Base32 and provisioning URIs, the envelope encryption of secrets (a parameter),
-- the encodings of tokens and of JWKs, health checks of the providers, concurrent calls of one breaker,
-- numbers of policies that are not natural, and the HTTP layer, the user interfaces and the clients in
-- other languages.
pub mod AccessTokens
pub mod AccountState
pub mod Audit
pub mod Authorization
pub mod Base
pub mod Cache
pub mod Delivery
pub mod JobQueue
pub mod Lock
pub mod Login
pub mod MagicLink
pub mod Mfa
pub mod Mongo
pub mod Oauth
pub mod Otp
pub mod PasswordPolicy
pub mod Policy
pub mod RateLimit
pub mod Refresh
pub mod Reset
pub mod Session
pub mod SigningKeys
pub mod Totp
pub mod Transactions
pub mod VerificationToken
