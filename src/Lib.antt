-- ===== src/Lib.antt =====
-- Verification of ConsentChain, a platform on which people grant, change and revoke consents to the
-- use of their data: smart contracts keep consents and an audit trail, and a FastAPI service around
-- them keeps tenants, passkeys, events and the calls of other services in order.
--
-- The parts and their files. A file named for a part models its code; its folder holds the proofs,
-- in files that are named for what they prove, and tests on concrete data.
--   Registry   contracts_v2/consent_registry.py, `ConsentRegistry`. `register_consent`,
--              `revoke_consent`, `modify_consent` and `expire_consent` take the transaction's sender
--              and round and the state, and return the state with the result, or the error of the
--              assertion that fails; `verify_consent`, `get_consent` and `get_stats` only read.
--   Trail      contracts_v2/audit_trail.py, `AuditTrail`: events in boxes, linked by the hash of the
--              previous one, whose last hash is the root. It is told of the registry's address, and
--              the platform logs what it does to consents; neither contract calls the other.
--   Merkle     core/crypto.py, `MerkleTree`: `build_tree`, `get_proof`, `verify_proof`. SHA-256 of
--              hexadecimal texts is the parameter `sha256`, whose texts all have 64 characters.
--   Consents   api/services.py with the tables of api/database.py: `ConsentService` (Consents.antt),
--              the accounts of `PrincipalService` and `FiduciaryService` (Accounts), `AuditService`
--              (Queries, Roots) and `ComplianceService` (Reports). An operation takes the tables and
--              returns them with its result, or an error, after which nothing is committed. It asks
--              Dpdp for the rules, and Merkle for the root of the events it anchors.
--   Assistant  api/ai_assistant/__init__.py, `AIComplianceAssistant.analyze_consent`: the verdicts and
--              the score of a consent that is planned.
--   Breaker    api/resilience/circuit_breaker.py, `CircuitBreaker` and its registry, around the calls
--              to the blockchain and other services. A call is `begin_call`, up to the protected
--              function, and `finish_call`, from its outcome on, so that calls can overlap.
--   Rates      api/middleware/rate_limiting.py, `TieredRateLimiter`, counters that expire.
--   Operations api/blockchain_queue.py, `BlockchainQueue`: the chain's operations in a Redis stream.
--   Cache      api/cache/__init__.py, `CacheService` without Redis, the keys of `CacheKey`, the decorator.
--   WebAuthn   api/webauthn/__init__.py, `WebAuthnService`: challenges, registration and
--              authentication. Users are objects that two tables share, in a store of objects.
--   Csrf       api/middleware/csrf.py: `generate_csrf_token`, `verify_csrf_token`, and the two guards
--              `verify_csrf` and `CSRFProtection` in front of the routes.
--   Access     api/dependencies.py: `verify_fiduciary_api_key` with its cache in Redis,
--              `verify_principal_ownership`, `validate_wallet_address`.
--   Isolation  api/middleware/tenant_isolation.py: the context that a request gets from its API key,
--              and `TenantRepository`, which filters the rows of one fiduciary.
--   Tenant     api/tenant/__init__.py, `Tenant`, PLAN_LIMITS and `TenantService`; Tenant/Usage.antt
--              is the metering half of the service.
--   Events     api/events/__init__.py, `EventBus` and `EventQueue`, by which parts of the service
--              hear of each other.
--   Webhooks   api/webhooks/service.py, `WebhookService`: deliveries, retries, dead letters.
--   Sockets    api/websocket/__init__.py, `ConnectionManager`, `WebSocketHandler.listen` and
--              `notify_breach`: which sockets a broadcast reaches.
--   Shutdown   api/lifecycle/shutdown.py, `GracefulShutdown`: requests that are counted in and out,
--              and the coroutine `initiate_shutdown`, cut at its awaits.
--   Mobile     api/mobile/__init__.py, `MobileSDKSupport`: devices of users and notifications to them.
--   OAuth      api/oauth/__init__.py, `OAuthState`, `OAuthToken` and the tables of `OAuthService`.
--   Dpdp       core/crypto.py, `DPDPComplianceValidator`: which purposes and durations are allowed.
--   Gdpr       api/compliance/gdpr.py, `GDPRConsentValidator`: the stricter rules of the GDPR.
--   Prelude    shared: tests on numbers, lists, results, dicts, and the interface `BoxStore`.
--
-- State is passed explicitly: an operation takes the state and returns the new one, fallible ones
-- in `Result`. Where the code interleaves (calls under way, requests during a shutdown,
-- operations of a service, sockets that come and go), the states are those that a step relation
-- reaches. Times, random values and new identifiers are arguments. Identifiers, hashes and
-- addresses that are only compared are numbers in the contracts and texts in the service.
--
-- Numbers and bounds. Counters of the contracts are 64-bit and trap: `add_word` and `sub_word`
-- fail at 2 ^ 64 and below zero, and a call that fails changes nothing. Python's integers are
-- unbounded. A box has the size of what was first written to it; `BoxStore` says what a contract
-- relies on: a read returns the last write, and a count over all boxes moves by the box that is
-- written; the dictionary `dict_boxes` meets it. The Merkle tree is built on fuel, the number of
-- its leaves, which is enough since a level has at most half of the nodes above it, rounded up.
-- The same bound serves the anchoring of events. Counts that bound a loop (a batch of entries,
-- the turns of the queue's processor) are arguments of the code or stand for the events that
-- drive it. Times of the database are microseconds up to the year 9999, where the addition of
-- days overflows. A purpose has at most 50 characters and the name of a transaction at most 64, as
-- the columns of PostgreSQL have, and a primary key that is taken is refused; the other texts of
-- the tables (addresses, digests, names) are taken to fit in their columns.
--
-- Parameters: SHA-256, base64, the two calls of the Redis client that CSRF uses, the approximate
-- trimming of Redis streams (`Trimming`), the HTTP client that asks for tokens, what push
-- services, the receivers of webhooks, sockets and the chain's client answer, and what the
-- handlers, middleware and protected functions that are plugged in do. So is the sorting of the
-- database, which may order rows with the same time differently at each query.
--
-- Not modelled: HTTP routes, schemas and the wiring of the application; the authentication of
-- users by tokens; guardians and grievances, whose times carry a zone where the columns have
-- none; deletions, breaches, billing and the workers, whose tables api/database.py does not
-- define; documents that are formatted from queries; signatures and encryption, which are library
-- calls; the deliveries themselves over the network (mail, IPFS, Algorand nodes, push messages);
-- the deprecated contracts under contracts/; client libraries, front ends, deployment and tests.
pub mod Prelude
pub mod Registry
pub mod Trail
pub mod Merkle
pub mod Dpdp
pub mod Gdpr
pub mod Consents
pub mod Assistant
pub mod Breaker
pub mod Rates
pub mod Operations
pub mod Cache
pub mod WebAuthn
pub mod OAuth
pub mod Csrf
pub mod Access
pub mod Isolation
pub mod Tenant
pub mod Shutdown
pub mod Events
pub mod Webhooks
pub mod Sockets
pub mod Mobile
