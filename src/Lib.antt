-- ===== src/Lib.antt =====
-- Pulse: the control plane's store, agent protocol, alert engine, access control and guard on
-- fetched addresses, its audit of services and its security scans, the framing of its SSH console, and the agent's client,
-- credential and buffer.
--
-- The control plane keeps organizations, their accounts, servers, agents and what the agents report
-- (apps/api); an agent runs on each server and sends signed messages (agent). A handler of
-- apps/api/internal/httpx reads and writes a store of apps/api/internal/store, for one organization
-- at a time, which is what separates the tenants.
--
-- Dict is Go's map, an association list with one entry for each key; a walk over a map goes in the
-- order of the list, any order there is. Strings is what the code calls of package strings, on
-- ASCII. Model is apps/api/internal/model/model.go. Store is apps/api/internal/store/memory.go: the
-- record Memory holds the struct's maps, and a module each holds the methods on accounts (Users),
-- sessions (Sessions), servers (Servers), agents and enrollment tokens (Agents), snapshots and the
-- metric history (Snapshots), alert rules and instances (Alerts), events and audit entries
-- (Journal). UpsertServer is `upsert_server`, and so on. Store.Tenants gathers the writes as a data
-- type, and says what an organization can see. Duration is time.Since and the window on timestamps
-- of apps/api/internal/httpx/handlers_agents.go, in which Api.Signing has the signature check and
-- the nonce cache, Api.Registration the tokens, enrollment, re-enrollment and revocation, and
-- Api.Ingest the ingestion. AlertEngine is apps/api/internal/httpx/alerts_eval.go, Access the roles
-- of apps/api/internal/rbac/rbac.go and the middleware of apps/api/internal/httpx/middleware.go, and
-- Websocket the frames of apps/api/internal/wsx/websocket.go. Credentials is the policy of
-- apps/api/internal/auth/password.go, and Account signing in, the change of a password and of an
-- address, and the first boot (handlers_auth.go, handlers_account.go and handlers_setup.go).
-- ServiceAudit is handlers_service_audit.go and service_audit_rules.go: the graph of a server's
-- services, built from what its agent reports, and the rules over it. Scanner is
-- apps/api/internal/scanner/engine.go, the runs of the security checks; a check is a function there
-- (Probe). Scanner.Jobs keeps the latest scan of each server. Ssrf is
-- apps/api/internal/ssrf/ssrf.go. On the agent's side RingBuffer is agent/internal/cache/cache.go,
-- AgentClient is agent/internal/protocol/client.go, and PulseAgent what
-- agent/cmd/pulse-agent/main.go does with both; AgentClient.Delivery puts the client and the control
-- plane together. Duration.Decimal is the printing of numbers.
--
-- A method that writes returns its result and the new state. Readings of the clock and identifiers
-- drawn at random are arguments; cryptography, JSON and the network are records of functions
-- (Crypto, Passwords, Signer, Decoder, Network, Outside), and so is float64 arithmetic. On the
-- agent's side a number counts the dealings with clock and network, and each is answered for its
-- number. A nil pointer that the code would follow is `none`. The mutexes are left out, for each
-- method holds its own throughout. Loops are recursion on lists; only the loop that reads a message
-- has fuel, and more of it than there are bytes of input is enough, since each frame takes at least
-- six; a number is printed with 20 digits at most, which an int64 does not exceed. Text is a list of
-- bytes, a time a number of nanoseconds.
--
-- Not modelled: the database store, the rate limiter, SSH itself, OpenID Connect, what
-- the checks of the scanner do, the dashboard's handlers, the agent's discovery, configuration and logging.
pub mod Prelude
pub mod Dict
pub mod Strings
pub mod Model
pub mod Store
pub mod RingBuffer
pub mod Duration
pub mod Api
pub mod Websocket
pub mod AlertEngine
pub mod Access
pub mod Credentials
pub mod Account
pub mod Ssrf
pub mod AgentClient
pub mod PulseAgent
pub mod ServiceAudit
pub mod Scanner
pub mod Tests
