-- ===== src/Lib.antt =====
-- Models and proofs for the two services of this repository: the import service, which brings the
-- transactions of a Bondster account into a ledger, and the REST service in front of it.
--
-- The REST service takes requests over HTTP, sends a message to the actor of the token that a
-- request names, in the import service of a tenant, and turns the reply into a status. The import
-- service keeps one actor for each token; it creates and deletes the token's file in an encrypted
-- storage, and starts a synchronization: statements are downloaded from the gateway into a storage
-- of files, their accounts are created in the vault, and their transactions in the ledger.
--
-- Which module is about which file, under services/bondster-bco-import:
--   Timeshift      support/timeshift/utils.go: SliceByMonths, PartitionInterval
--   Token          model/token.go: Serialize, Deserialize and the sync times
--   Persistence    persistence/token.go: one function for each of the file
--   Messages       actor/messages.go, actor/model.go
--   Actor          actor/common.go: parseMessage (Parse), ProcessMessage (Delivery);
--                  actor/token.go: the four receiver functions (Lifecycle)
--   Http           support/http: NewRequest, DefaultRetryPolicy, DefaultBackoff, Client.Do, whose exits
--                  by a context or a missing body are in Cancel
--   Entities       model/account.go, model/transaction.go
--   Gateways       integration/ledger/client.go, integration/vault/client.go
--   Auth           integration/bondster/auth.go, and the session of model.go beside it
--   Bondster       integration/bondster/client.go, and the entries of model.go beside it
--   Workflow       integration/workflow.go: Booking, Accounts, Batches, Download, Sync, and the
--                  stages in Import; Parallel is about goroutines that share a world, and the
--                  Goroutine children of Booking and Accounts are those that a stage starts for
--                  each currency, one step for each call of the storage or of a service
--   Worker         integration/worker.go
--                  with boot/init.go's callback (Round)
--   Metrics        metrics/metrics.go
--   Utils          utils/device.go, utils/uuid.go
-- and under services/bondster-bco-rest:
--   Rest           Relay is actor; Tokens is api/token.go, model and persistence; Tenants is
--                  api/tenant.go, over Units, which is system/system.go; Monitors is api/health.go
--                  with system/memory.go and system/storage.go; Routes is api/server.go's table
--                  of routes and Server its worker; EndToEnd joins the token handlers with an import service
-- and about files that both services have:
--   Environment    support/env/lookup.go, config/config.go and support/logging/utils.go
--   Boot           boot/init.go, with actor/system.go (its worker in Systems), NewBondsterImport and
--                  NewServer
--   Host           support/host/health.go
--   Tls            the TLS settings of the REST service's api/server.go, with api/cipher.go, and of
--                  the import service's support/http/client.go
--   Daemons        support/concurrent: a daemon is a step relation over the places of its goroutine,
--                  and its Program child is the pool with boot/init.go and boot/run.go; Notices is
--                  what a run tells systemd
-- Base has what all modules share, Calendar and Json what is used of Go's packages time and
-- encoding/json, Storage the file storage, and Tests concrete runs.
--
-- Parameters, since their code is not in this repository: the storage, with the laws of its writes
-- and deletes that the services rely on (Storage, with one in memory that meets them); the network
-- under the HTTP client; the registry of actors; systemd; the clock. The parser of RFC 3339 times is
-- a parameter, which Calendar.Rfc3339 fills; that of instants and that of durations are parameters
-- too. A method with an error gives none, or false beside the new state. Times are in UTC. A string
-- is a list of bytes, and a counter is a 64-bit word.
--
-- Fuel: SliceByMonths has two more than the number of the end date's month, counted from year 0,
-- which is more than the interval has months. The loop of Client.Do and the recursion of
-- AuthorizedClient.Do have no limit in the code; their fuel is an argument, and a result of its own
-- says that it ran out.
--
-- Daemons: a run counts the steps of the program and, apart from them, what happens from outside, a
-- tick, a call or a signal; a goroutine takes its next step at any time. That a worker's own
-- channel is closed is such an event, since the workers of both services close it at once.
--
-- Interleaving: the goroutines of CreateAccounts and of CreateTransactions, one for each currency,
-- are run by a schedule, the list of the currencies whose goroutine takes the next step. A step is
-- one call with what is computed up to the next one, and the world that they share is passed from
-- step to step, as if calls were atomic. What a schedule does to the files of one currency hangs on
-- that currency alone, by the laws of Storage on names and folders, where the answer of the ledger
-- or the vault is told by the request. DownloadStatements takes the currencies one after the other
-- itself. The goroutines of one actor are interleaved with its messages (Actor.Lifecycle.Flights).
--
-- Replies: a message for an actor is followed to its reply with no other message waiting in the
-- actor's mailbox. The first call for an actor that was just made puts the message back, and the
-- second answers it (Actor.Lifecycle.Settled). The relay's registration and the five seconds that a
-- request waits are a parameter, the reply that comes in time. The encoder of JSON is one too where
-- it may refuse a text.
--
-- Not modelled: the printing of logs, the web framework, whose router is a parameter of
-- Rest.Routes, the server of net/http, a parameter of Rest.Server, and the actor library. The order
-- in which Go iterates over the accounts to be created is that of their insertion. Keys of a JSON
-- object are matched with regard to case, but for the credentials of a request.
pub mod Base
pub mod Calendar
pub mod Timeshift
pub mod Token
pub mod Storage
pub mod Persistence
pub mod Json
pub mod Http
pub mod Entities
pub mod Gateways
pub mod Bondster
pub mod Workflow
pub mod Metrics
pub mod Messages
pub mod Actor
pub mod Worker
pub mod Utils
pub mod Host
pub mod Tls
pub mod Environment
pub mod Daemons
pub mod Boot
pub mod Auth
pub mod Rest
pub mod Tests
