-- ===== src/Lib.antt =====
-- fibr, a toolkit for web services in Go on Fiber: a model of its packages apierror, apikey, auth
-- (with jwt), bootstrap, cache, config, events, featureflag, health, http, i18n, inbox, lock, openapi,
-- outbox, pagination, parser, ratelimit, redis (its storage), retry, server, sse, uploader, webhook
-- and ws and of its generator cmd/fibr, and what has been proved about them.
--
-- The program. fibr is a set of packages that an application composes. An in-process cache keeps
-- values with a time to live. The HTTP client retries requests, and a circuit breaker around it stops
-- them while a server fails. The issuer hands out pairs of access and refresh tokens, rotates them and
-- revokes them in a token store, which the middleware asks before it lets a request through. The
-- query modifiers turn the parameters of a request into ORDER BY, OFFSET, LIMIT and a keyset
-- predicate, and the pages are made of the rows that come back. The websocket hub keeps connections
-- and their rooms, and sends messages to all or to a room. The outbox keeps events next to the business
-- data, and its relay hands them to a broker, under a distributed lock where there are replicas.
-- Webhooks are signed and verified, API keys are looked up by their hash, messages are translated for
-- the locale of a request, and the configuration is read from the environment. The application puts
-- the middleware in its order, mounts modules with their migrations and readiness checks, and ends in
-- order when a signal comes.
--
-- The modules.
--   Prelude/   Boolean tests and equality as an instance, lists over the native numbers, signed
--              integers, Go maps as association lists, texts as bytes with the functions of Go's
--              `strings` (Bytes), and numbers in decimal (Decimal).
--   Cache      cache/cache.go: entries, the recency list, eviction, expiry, the sweep and
--              GetOrLoad. Its children state the invariant (Invariant), the bound on the size
--              (Bounds), what an operation does to what a reader sees (Views, Sweep, Load) and how
--              long an entry outlives others (Recency).
--   Http/      http/breaker.go as a state machine (Breaker), and http/http.go (Client), with
--              the attempts of a request (Client/Retries) and the breaker around them
--              (Client/Circuit).
--   Retry      retry/retry.go: the loop of attempts.
--   Lock       lock/lock.go and lock/handle.go, with the scripts that the server runs (Held); what
--              `Do` keeps (Keeps).
--   Outbox     outbox/outbox.go and outbox/relay.go over what they rely on (Laws): a batch (Batch,
--              Order), the relay without errors (Drain), what a mark stands for (Delivery, History)
--              and the lock around a batch (Exclusive).
--   Webhook    webhook/webhook.go and webhook/middleware.go, with the hexadecimal digits (Hex), the
--              header (Header) and the verdict (Verdict).
--   I18n       i18n/bundle.go (with Chain and Load), i18n/plural.go (Category) and
--              i18n/middleware.go (Locale, Sorted, Accept, Lower).
--   Config     config/config.go: the loop over the fields (Report) and lists of texts (Slice).
--   Apikey     apikey/apikey.go and apikey/middleware.go (Guard).
--   Apierror   apierror/apierror.go: typed errors and what the client sees of them.
--   Openapi    openapi/spec_model.go: a document and its parts. The tags of a field (openapi/schema.go,
--              Validate, Validate/Keeps), the schema of a type (Schemas) with its references
--              (Schemas/Refs, Schemas/Closed) and the types that it does not end on (Schemas/Endless), and
--              the registration (openapi/openapi.go, openapi/handlers.go, Spec) with the references of the
--              document (Spec/Linked, Spec/Steps, Spec/Resolves).
--   Ratelimit  ratelimit/ratelimit.go and ratelimit/middleware.go: the token bucket, what it grants over
--              histories of calls (Bound, History) and the time to wait (Retry).
--   Sse        sse/sse.go: the frames of an event stream, a client that reads them by the HTML standard
--              (Receiver), and what arrives (Delivery).
--   Uploader   uploader/: the checks of a file, the upload to a directory and to a bucket (Checked).
--   Storage    redis/storage.go: the storage of the middleware (Prefix).
--   Events     events/events.go: subscriptions and delivery.
--   Scaffold   cmd/fibr: the options of the project generator (options.go, Valid), the plans of files
--              (generate.go and module.go, Plan), the rendering of a file and of migrations over a file
--              system that is a parameter (Files, Render, Render/Effects), Generate with what an error
--              leaves and what a success leaves (Generate, Generate/Clean, Generate/Distinct,
--              Generate/Complete), add-module with its undoing (addmodule.go, AddModule,
--              AddModule/Tracks, AddModule/Undo) and a file system in memory (Memory).
--   Health     health/health.go and health/readiness.go: the checks of a request (Verdict, Detail).
--   Boot       bootstrap/bootstrap.go (Layers) and bootstrap/module.go (Mount) over
--              server/server.go (Serve).
--   Flags      featureflag/featureflag.go and featureflag/providers.go.
--   Inbox      inbox/inbox.go: the transaction that marks a message and runs its function.
--   Auth/      jwt/jwt.go and the claims that are read (Claims), the interface of auth/store.go with
--              its laws (Store), auth/store_memory.go, which fills it (Memory), auth/issuer.go in a
--              monad of state and errors (Issuer), auth/middleware.go, auth/auth.go and auth/team.go
--              (Bearer, Middleware).
--   Query/     parser/parser.go (Identifier, Offset) and parser/keyset.go (Keyset), over a record of
--              what they add to a SELECT (Statement).
--   Pages/     pagination/pagination.go (Numbered) and pagination/cursor.go (Cursor), and a client
--              that follows cursors through a table (Walk).
--   Ws         ws/hub.go and ws/conn.go: connections, rooms, sending and closing; histories of events
--              and the life of a connection (Rooms, Rooms/Lifecycle).
--
-- How the state corresponds. A Go struct is a record, a map an association list without an order, a
-- pointer that may be nil an Option, and an operation takes the state and returns it with its result.
-- An operation that holds a mutex throughout is one step. The time is an argument. Numbers are
-- naturals, and integers where the source tests a sign; the offset and the limit of a query wrap at
-- 64 bits. Errors are data types with a constructor for each that callers can tell apart.
--
-- An interleaving of goroutines is a list: the answers of readiness checks and their timer, the ticks
-- of the relay, the rounds of Acquire. A router is the list of what is mounted, in its order.
--
-- Loops. The loops over slices, maps and attempts are recursion on the list or the count. Fuel stands
-- in three places: the client of Pages/Walk has one more than the rows of the table, the digits of
-- a number (Prelude/Decimal) one more than the number, and the schema of a type (Openapi/Schemas) any
-- fuel, with none for an answer that is not reached: no fuel is enough for every type.
--
-- Parameters. The transport of the HTTP client with its clock and context, the context, timer and
-- delays of retry (the delays are floating point in the source), the Redis server of the locks, the
-- hash of a flag's rollout, the signer and parser of tokens (golang-jwt), the token store of the
-- issuer, the HMAC of webhooks, the hash of API keys, the weights of Accept-Language with their
-- order and parser, the parsers of durations and floating-point numbers, the environment, the
-- database, the broker and the Redis of the outbox, the world that hooks, checks and handlers
-- change, the random source (the list of its draws), the encoding of a cursor (base64 of JSON), the
-- database's comparison of values, and its transactions, the file system with its paths, the
-- templates with gofmt and the commands that the generator runs, the reflection of Go types, JSON and
-- the texts of HTTP statuses, the writer of an event stream, and the uploaded file with its disk and
-- bucket. What is relied on of them stands in the records Lawful (Auth/Store, Lock/Held and
-- Outbox/Laws), IsLawful (Scaffold/Files), Keeps (Sse/Delivery), Careful (Uploader/Checked), Apart
-- (Outbox/Laws), Ordered (I18n/Sorted), Signs (Auth/Issuer/Acceptance), Parses
-- (Auth/Middleware/Access) and Decodes (Pages/Walk); the tests fill each with a concrete one. Calls
-- of the token store, of Redis, of the disk and of the file system may fail: the laws say what a call
-- does that ends without an error, and what no call touches. The rates of the limiter are numbers of parts of a token, since doubles have no model here.
--
-- Not modelled: goroutines other than as one operation at a time, the text of log lines and errors
-- beyond their kind, Unicode beyond ASCII where texts are bytes, the query builder, the socket and the
-- Redis backplane of the hub, the token store in Redis, slugs, the handlers that send documents and
-- start event streams, and the packages that only wire a library into Fiber.
pub mod Prelude
pub mod Cache
pub mod Http
pub mod Retry
pub mod Auth
pub mod Ws
pub mod Lock
pub mod Query
pub mod Pages
pub mod Apierror
pub mod Apikey
pub mod Boot
pub mod Config
pub mod Events
pub mod Flags
pub mod Health
pub mod I18n
pub mod Inbox
pub mod Openapi
pub mod Outbox
pub mod Ratelimit
pub mod Scaffold
pub mod Sse
pub mod Storage
pub mod Uploader
pub mod Webhook
