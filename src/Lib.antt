-- ===== src/Lib.antt =====
-- The services of GarudaPass (gpass): the core logic of its Go services, and what makes it correct.
--
-- Parts, and the files that model them (paths are from the repository's root):
--   * Info: the data-sharing service, services/garudainfo. Info/Validate is store/validate.go (and
--     the record of store/consent.go), Info/Consents the in-memory store of store/consent.go,
--     Info/Grants the handlers of handler/consent.go and handler/person.go. A consent is granted by
--     a user to a client for some fields and a time; the person handler reads a user's data through
--     the fields of a consent.
--   * Roles: the roles of a corporate entity's users, services/garudacorp. Roles/Roles is
--     store/role.go, Roles/Assign the handlers of handler/role.go. `quoted` is the verb `%q` of the
--     package fmt. Roles/Reach follows the roles through calls of these handlers.
--   * Sign: the signing service, services/garudasign. Sign/Certificates is store/certificate.go,
--     Sign/Requests is store/request.go and store/document.go, Sign/Issue is handler/certificate.go
--     and handler/revocation.go, Sign/Documents, Sign/Reads and Sign/Upload are handler/document.go.
--     The sign handler joins the three stores: a request is signed with the caller's active
--     certificate, which stores a document and completes the request.
--   * Portal: the developer portal, services/garudaportal. Portal/Keys is store/key.go (with the
--     apps of store/app.go that it needs), Portal/Generate is apikey/generator.go, Portal/Manage
--     the handlers of handler/key.go and handler/rotation.go, Portal/Validation is
--     apikey/validator.go over the stores, Portal/Endpoint handler/validate.go, Portal/Apps the rest
--     of store/app.go and handler/app.go, Portal/Usage store/usage.go. Portal/AppLife follows the apps
--     through calls of their handlers, Portal/Metering the calls of an app up to its daily limit.
--   * Audit: the audit service, services/garudaaudit. Audit/Validate is store/validate.go,
--     Audit/Events and Audit/Query are the in-memory log of store/event.go, Audit/Serve the handlers
--     of handler/audit.go and handler/stats.go. Audit/Pages and Audit/Stats say what is read from
--     the log, Audit/Append how it grows, Audit/Recordable what is accepted.
--   * Hooks: the webhooks of the developer portal, services/garudaportal. Hooks/Subscriptions is
--     store/webhook.go and handler/webhook.go, Hooks/Deliveries store/delivery.go, Hooks/Dispatch
--     webhook/dispatcher.go, Hooks/Worker worker/webhook.go, Hooks/Replay handler/replay.go.
--     Hooks/Settled says what one run of the worker makes of a delivery, Hooks/Cycles and
--     Hooks/Whole that the loop does so, Hooks/Runs and Hooks/Delivered follow the store through
--     sequences of writes, Hooks/Again is about what a replay leaves, Hooks/Twice about the run of the
--     worker after it, and Hooks/Backoff about the deliveries that a run does not deliver.
--   * Base62: packages/golib/base62 and the encoder of apikey/generator.go, over lists of code
--     points.
--   * Corp: companies and their owners, services/garudacorp. Corp/Entities is store/entity.go,
--     Corp/Register handler/register.go, Corp/Ubo ubo/analyzer.go and store/ubo.go, Corp/Validate
--     store/validate.go, Corp/Serve handler/ubo.go and handler/entity.go. Corp/Founding says who
--     registers a company, Corp/Officers who is a registered officer after any calls of Register and
--     of the role handlers, Corp/Owners whom an analysis names, Corp/Unsaved what the validator makes
--     of it. The clients of AHU and OSS, the token of a NIK, floats and sort.Slice (`IsSort` is its
--     documented behaviour, kept by Corp/Insertion) are parameters.
--   * Deletion: the deletion requests of the identity service, services/identity. Deletion/Requests is
--     store/deletion.go and store/validate.go, Deletion/Serve handler/deletion.go, Deletion/Private
--     who can read a request.
--   * Otp: the one-time passwords of the identity service, services/identity/otp/service.go, in
--     Otp/Codes. Otp/Redis holds what the service needs of Redis and bcrypt: `Redis` and `Bcrypt` are
--     parameters, `IsServer` the documented behaviour of a Redis server that answers. Otp/Session is
--     the session that the keys stand for, Otp/Refine and Otp/Issue relate Verify and Generate to it,
--     Otp/Apart keeps the channels apart, Otp/Memory is a server in memory that `IsServer` holds of,
--     and Otp/Lockout follows calls of Verify one after the other; calls that overlap in time are not
--     covered. Keys are those of one registration and channel, which no other client writes.
--   * Breaker: packages/golib/circuitbreaker, breaker.go in Breaker/Basic and execute.go in
--     Breaker/Advanced. Breaker/Sound holds for calls that overlap, Breaker/Cycle and
--     Breaker/Recovery follow calls of Execute one after the other, and Breaker/Load counts the
--     functions that such calls run.
--   * Permission: packages/golib/permission/permission.go. Permission/Scopes is Scope and Checker,
--     Permission/Granted what a subject may do, Permission/Inheritance RoleHierarchy,
--     Permission/Inherited what a role inherits.
--   * Policy: packages/golib/policy/engine.go. Policy/Match is `Match` over code points, Policy/Globs
--     what its patterns describe, Policy/Engine the conditions and Evaluate, Policy/Decision what
--     Evaluate decides. The floats of conditions and the printing of numbers are the parameter
--     `Numbers`; a dynamic value is a scalar, a slice of texts or a slice of scalars.
--   * Users: the users of the identity service, services/identity/repository/user_memory.go, in
--     Users/Repository, and the index of their NIK tokens in Users/Indexed. Users/Nik is
--     ValidateNIKFormat of crypto/nik.go, Users/Register the handler of handler/register.go, which
--     calls Otp, Users/Initiated for whom it starts a registration and what the Redis server then
--     keeps.
--   * Prelude: shared helpers (results, replies, maps, strings, wrapped 64-bit integers).
--
-- How code and model correspond. A Go map is an association list in which `insert` replaces the
-- value of a key; a loop over a map meets its entries in the order of the list, and a theorem about
-- a single call is stated for each list, so for each order. The stores copy what they are given and
-- what they return, or are used as if they did, so a store holds values. Each operation takes the
-- time of the call (`now`, in nanoseconds since Go's zero time) and the identifiers that it
-- generates as arguments; freshness of an identifier is a hypothesis where it is needed. A method
-- that changes a store returns the new one. A handler gets its decoded body and header values, and
-- returns the new state with a reply: `fault` with the arguments of `writeError`, or `reply` with
-- status and body. Every method of a store holds the lock of that store from start to end, so it is
-- one step. A handler makes several such calls; the runs that the relations `Reach`, `SignReach`,
-- `CertReach`, `CorpReach`, `AppReach`, `AuditRun` and `DeliveryRun` describe take whole handler
-- calls one after the other, so two handlers that interleave are not covered.
-- Integers of Go are the native ℕ where they cannot be negative and ℤ where they can; `mul64` wraps
-- as int64 does. Loops run over lists, but for the digit loops of Base62, which divide a number n
-- until it is zero: they run on fuel `suc n`, and `digits_total` in Base62/Encode shows that this is
-- enough, and for the recursion of a role's parents, which runs on one more than the number of
-- parents: `resolve_scopes_total` in Permission/Inherited.
--
-- Not modelled: HTTP and JSON, the Postgres stores, network clients, logging, configuration. What
-- these supply is a parameter of the functions that use it (file storage, signing backend, base64,
-- SHA-256, random texts, reading of time stamps, upstream data of a user). Nor are the other
-- services and parts of services, the shared utility packages but for those above, and the web
-- applications.
pub mod Prelude
pub mod Audit
pub mod Base62
pub mod Breaker
pub mod Corp
pub mod Deletion
pub mod Hooks
pub mod Info
pub mod Otp
pub mod Permission
pub mod Policy
pub mod Portal
pub mod Roles
pub mod Sign
pub mod Users
