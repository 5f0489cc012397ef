-- ===== src/Lib.antt =====
-- Verification library of Parimit, the proposal-only payment-intent service.
--
-- Parimit lets an agent propose a payment, decides it against a policy, records human reviews of it,
-- and keeps a hash chain of everything that happened; it never moves money. The service is the class
-- ParimitService of src/service.ts over one SQLite database; the HTTP and MCP servers, the SDK and the
-- adapters call its methods. For an authorized proposal it issues a signed evidence envelope, which a
-- consumer may verify and may claim once.
--
-- Which file models what:
--   Text, Text/Decimal    JavaScript strings as UTF-16 code units; decimal printing and Number().
--   Json, Json/Canonical  JSON values, and canonicalJson of src/crypto.ts, whose text is read back piece by
--                         piece in Quote, Normal, Parts and Injective.
--   Types, Result, Time   src/types.ts, src/errors.ts and toISOString.
--   Tables, Database      the tables of initializeSchema and the SQL statements the methods run.
--   Exec                  a method call: it reads and writes the database, the clock and randomUUID, and
--                         may throw; `transaction` rolls the database back where its work throws.
--   Envelope              src/envelope.ts: base64url (Base64), compact JWS, and the strict reading of the
--                         claims (Claims), which is strictEnvelopeClaims of src/service.ts.
--   Service               what the constructor fixes, and the outside: clock, randomUUID, SHA-256, HMAC.
--   Service/Validation    normalizePaymentProposal and the require* helpers.
--   Service/Configuration the policy that the constructor builds from its options, the other options
--                         (Options), and createServiceFromEnvironment (Environment).
--   Service/Policy        dailyExposure and decidePolicy.
--   Service/Payload       the hashed payloads, also of src/intent-payload.ts.
--   Service/Audit         appendAudit.
--   Service/Keys          the registry of envelope verification keys.
--   Service/Startup       what the constructor does to the database: preflightReceiptIntegrity, the end of
--                         initializeSchema, registerEnvelopeSigningKey (Key, Open).
--   Service/Integrity     verifyIntegrity and assertStoredIntegrity, a child module per group of checks.
--   Service/Methods       the public methods: createIntent, getIntent, listIntents (Listing), getAudit,
--                         approveIntent, cancelIntent, recordMockObservation, evaluatePolicy, assertIntentOwnedByAgent,
--                         and expireDueIntents, which most of them run first. `Calls` runs a list of
--                         requests, each from the database that the one before left, returned or thrown.
--   Service/Envelopes     issueAuthorizationEnvelope (Issue, Store), verifyAuthorizationEnvelope (Verify)
--                         and consumeAuthorizationEnvelope (Consume).
--   Service/Commit        the specification: the eight kinds of commit, each with the guards before it.
--   Service/Effects       what each write does to each table.
--   Service/History, Service/Quorum, Service/Limits, Service/Chain, Service/Seal, Service/Freeze,
--   Service/SingleUse, Service/Backing: properties of every run.
--   Service/Sweep, Service/Progress: what expireDueIntents leaves behind, and when it returns.
--   Service/Idempotency   repeated requests of createIntent.
--   Auth                  src/auth.ts: bearer tokens (Token, Header, Claims, Accept), the keys of the
--                         identity provider and their cache (Provider, Document, Keys), the two
--                         providers (Oidc, Demo) with their constructors (Options) and environment
--                         (Environment), and the trust domain of src/identity-trust.ts (Domain).
--   Http                  src/http.ts: the routes (Routes), bodies and roles (Body, Query), what each
--                         endpoint does (Endpoints), and the handler (Handler), which takes an identity
--                         provider as an interface that Providers fills. Permissions says which calls a
--                         role permits, Server is startServer of src/server.ts. Every service of a request is a
--                         call of Service/Methods/Calls, so that what holds of every run of calls holds of
--                         every run of requests.
--   Examples              a concrete service and runs of it.
--
-- How the model corresponds to the code. A table is the list of its rows in rowid order. A
-- timestamp is a number of milliseconds: the canonical ISO texts that the code compares are ordered
-- like these for the years 1970 to 9999. A JSON column holds the parsed value, none where
-- JSON.parse throws. A column with a CHECK on its values is an enumeration; a status or event
-- column, which has none, has a case for any other text. Error messages are left out, codes and
-- HTTP statuses are kept. The n-th reading of the clock, of randomUUID and of randomBytes is a
-- function of n, and no rollback resets the counters. toLocaleLowerCase maps ASCII letters only:
-- what it is compared with is ASCII. Loops recur on lists; decimal printing recurs on fuel, one
-- more than the number, and a number has fewer digits than that.
--
-- JSON.parse, TextEncoder and TextDecoder, and Ed25519 signing and verification are the fields of
-- Platform in Envelope; decodeURIComponent, Number of a query and the file system are those of
-- Platform in Http, which reads parsed URLs. Requests, and calls of an identity provider, do not
-- overlap.
--
-- A JSON value has only natural numbers, so a claims object with another number is refused before
-- it is a value: strictEnvelopeClaims refuses it too, since no claim may hold one.
--
-- Not modelled: the path of the database, the creation of the tables and the
-- migration of older schemas (start-up takes the tables of the current one, and a file without tables as
-- the empty database), the listening of src/server.ts, src/mcp.ts, src/storage, sdk,
-- integrations and scripts. SHA-256, HMAC, the clock, randomUUID, randomBytes,
-- URL, Buffer and createPrivateKey are parameters. The text
-- of a stored public key is taken to be canonical, as each write makes it.
pub mod Http
pub mod Auth
pub mod Common
pub mod Text
pub mod Json
pub mod Types
pub mod Time
pub mod Result
pub mod Tables
pub mod Database
pub mod Envelope
pub mod Exec
pub mod Service
pub mod Examples
