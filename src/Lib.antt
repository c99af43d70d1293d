-- ===== src/Lib.antt =====
-- The backend of ziyad-messenger: Go services for a chat on a local network.
--
-- The program: `backend/services` holds one process for each concern, each an HTTP server over its
-- own table or file, and `backend/pkg/protocol` the payloads that they exchange. The messaging service
-- stores messages and passes them on to connected clients; presence keeps who is online; audit keeps a
-- file of events; the file transfer service keeps encrypted files. `backend/admin-api` manages users,
-- roles, departments, devices and channels, on the database file that the messaging and auth services
-- read too. Each service wraps its handlers in the same tracing function, and most limit the requests of
-- an address.
--
-- The files:
--   Base           texts, lists, maps as association lists, HTTP responses; State is the monad of the
--                  stateful handlers, Order the sort behind ORDER BY, Int `strconv.Atoi`
--   Protocol       backend/pkg/protocol: message.go, the message types of discovery.go, and e2ee.go in
--                  the child E2ee
--   RateLimiter    `ipRateLimiter` of backend/services/{auth,audit,cluster,filetransfer}/main.go:
--                  `Allow` is `allow`; Log and Refinement have its specification, Bound its bound
--   Trace          `withRequestTrace`, `getOrCreateRequestID` and `clientIP` of the services' main.go
--   Services       the mux of each service's `main`, with every handler behind `withRequestTrace`: the
--                  requests are served one behind the other. The tables of routes are in the module
--                  Server of Auth, Audit, Cluster, FileTransfer, Presence and Messaging; Limits sets a
--                  limited service against one with a log, Invariants has what it keeps
--   Messaging      backend/services/messaging/main.go: Store is `MessageRouter` and its database,
--                  Queries the SQL statements and the methods that run one, Dm
--                  `findOrCreateDMChannel`, Access the authentication and the checks, Clients
--                  `Register`, `Unregister`, `Broadcast` and the write loop, Handlers the HTTP
--                  handlers, the frames of the read loop and the /send handler of `main`; System all
--                  of them together with the connections, as steps from `NewMessageRouter` on
--   Presence       backend/services/presence/main.go: the heartbeats, the status, one tick of the
--                  cleanup loop
--   Auth           backend/services/auth: main.go and token.go, crypto.go in Password; Server has the
--                  accounts behind the mux and the one that `main` makes
--   Discovery      backend/services/discovery/main.go: the table of peers, and the announcements
--   Cluster        backend/services/cluster/main.go: `JoinHandler`, `Start`
--   Audit          backend/services/audit/main.go: `LogHandler`; Chain has the chain of hashes
--   FileTransfer   backend/services/filetransfer/main.go: the two handlers; Names what they use of
--                  `strings` and `path/filepath`, Storage what they leave in the storage
--   Pki            backend/services/pki/ca.go: the authority, what it signs, and the two files
--   Admin          backend/admin-api: Store has the tables of internal/db and `audit.Log`; Auth
--                  internal/auth and the middleware of tokens and roles; Users, Roles, Departments,
--                  Devices, Channels and Logs the handlers of the packages of these names (Logs: audit);
--                  Server the routes of cmd/server/main.go with their middleware, where Access has who
--                  gets in, Failure what an error leaves, Notes and Trail the log of actions; System
--                  internal/system, internal/cluster and the routes without a token; Gateway everything
--                  under /admin, with the login, /ws and what shows the runtime; Hub
--                  internal/websocket; Monitoring internal/monitoring; Observability
--                  internal/middleware/observability.go, with the log of accesses in AccessLog
--
-- How the code is read: a method on a shared object is a function from its state to an answer and the
-- next state. What a lock guards is one step; what goroutines do side by side is a sequence of steps in
-- any order. A table is a list of rows in the order of their insertion, a SQL statement a function on
-- it, and the engine may fail at each call: the state of the messaging and the admin service carries what
-- the engine will answer, so a theorem holds for every pattern of failures. ORDER BY is taken to be stable. Ids,
-- clocks, random bytes and decoded bodies are arguments. The JWT library, the JSON encoder and SHA-256
-- are parameters, as are Argon2, bcrypt, base64 and Sscanf, which the auth service calls, crypto/x509 and PEM,
-- which the authority calls, and Upgrade of gorilla/websocket. A service limits an address by a clock that
-- its requests read in their order.
--
-- Bounds: no loop needs fuel, all recursion is on lists or texts. Times and numbers are natural numbers
-- without an upper bound; negative statuses and message types are left out. The send buffer of a client
-- holds 256 messages, as does the queue of the admin service's hub; a counter keeps 512 latencies.
--
-- Not modelled: what each `main` reads of the environment, sockets, time-outs and logging; JSON itself; the
-- loops of the discovery service around its two messages; `ValidateToken` of the auth service and `LogJSON` of
-- the admin API, which nothing calls; the opening of the databases. Each service's tables belong to it alone
-- in its theorems, except where Admin says what a deletion there does to the messaging service.
pub mod Admin
pub mod Audit
pub mod Auth
pub mod Base
pub mod Cluster
pub mod Discovery
pub mod FileTransfer
pub mod Messaging
pub mod Pki
pub mod Presence
pub mod Protocol
pub mod RateLimiter
pub mod Services
pub mod Trace
