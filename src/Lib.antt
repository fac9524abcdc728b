-- ===== src/Lib.antt =====
-- Proxify VPN: the control plane that sells prepaid time and gives each device a WireGuard tunnel.
--
-- The program. A user signs up and buys a time block (server/internal/store/subscriptions.go);
-- Paystack reports the payment and server/internal/api/payment_handlers.go turns it into the block,
-- once. A device asks for a tunnel: the engine (server/internal/provision/provision.go) checks the
-- entitlement, the device and the plan's device limit, picks servers in order (selector.go), records
-- the desired peer in peer_assignments (server/internal/store/peers.go) and pushes it to the server's
-- agent (server/internal/edge), which sets it on the WireGuard interface (edge/internal/agent,
-- edge/internal/wg). What the request could not push, and what expired, the reconciler
-- (reconciler.go) brings to the boxes afterwards, with a backoff (backoff.go).
--
-- The files.
-- - Base: helpers. Base/Rows is SQL on a list of rows, Base/Sorting is ORDER BY and sort.SliceStable,
--   Base/Effects is Go's `(T, error)` with the state passed on, Base/Text and Base/Split are Go's
--   strings, Base/Netip is net/netip on IPv4.
-- - Errors: sentinels, wrapping, errors.Is, mapErr. Model: server/internal/model/model.go.
-- - Store/Db: the rows of server/migrations/0001_init.sql and InTx. Store/Peers, Store/Subscriptions,
--   Store/Payments, Store/Devices, Store/Servers, Store/Users: the file of the same name under
--   server/internal/store, one function per query, on the tables it reads and writes. A statement takes
--   the database's now() and the fresh id as arguments.
-- - Edge: server/internal/edge/edge.go. Edge/Fake: fake.go, the boxes in memory. Edge/Http:
--   httpclient.go, over any transport.
-- - Provision/Storer, Engine, Config: provision.go, over any store and any edge as records of calls.
--   Provision/Selector, Backoff, Reconciler: the files of these names.
-- - Auth: server/internal/auth/auth.go. Keys: server/internal/wgkey/wgkey.go. Paystack:
--   server/internal/payments/paystack/paystack.go. Config: server/internal/config/config.go.
-- - Api: server/internal/api. Api/Respond is respond.go and the steps of a handler, which goes on or
--   has answered; Api/Site is the Server of api.go with the state that its handlers share; Api/Guards
--   and Api/RateLimit are middleware.go; Api/Accounts, Devices, Tunnel, Billing, Operators are the
--   files *_handlers.go; Api/Settlement is settleCharge and processWebhook; Api/Identifier is
--   identifier.go; Api/Routes is the routing table of api.go. A handler takes the decoded body and what
--   the middleware put into the context.
-- - Migrate: server/cmd/migrate/main.go.
-- - Agent/Service, Agent/Identity: edge/internal/agent/agent.go. Agent/Wg: edge/internal/wg/wg.go, over
--   any runner of commands; Agent/Listing is the reading of what `wg show` prints. Agent/Wire joins the
--   client of Edge/Http to an agent.
-- - World: one state that holds the database, the fake boxes, the clock and the sources of ids and of
--   randomness, and that fills the two interfaces, so that theorems reach from a call to the tables and
--   the boxes.
-- - Examples: each theorem at a concrete input, and tests.
--
-- How the code corresponds. A method with a context is a function from the state to its result and the
-- new state; logging and metrics are left out. A transaction is one step. A column read through
-- COALESCE(x, '') is a text; a time is a natural number of nanoseconds; an IPv4 address is its number.
-- int64 amounts, revisions and counts are taken as natural numbers, which in use are not negative and
-- which stay far below 2^63. The unique indexes of peer_assignments are the test `clash` of an insert.
-- A byte string is a text of one character a byte, a Go map is an association list.
--
-- What is an argument. bcrypt, SHA-2, HMAC, crypto/rand, base64, the JSON codecs, the HTTP
-- transports, the environment, the SQL files, what they and the statements about them do, the commands
-- `wg` and `wg-quick` and the order in which a `range` visits a map. The laws that theorems use of
-- them are the records IsLawful (Auth/Tokens), IsBase64 (Keys/Canonical), IsFaithful
-- (Api/Billing/Verified) and IsWireGuard (Agent/Wg/Tool); Examples has an instance of each.
--
-- Bounds and fuel. The search for a free address runs over the subnet's offsets, as
-- generate_series does, so its rounds are the addresses it has (the query is free to take another free
-- address, and no theorem relies on which one it is); the backoff's loop runs its
-- `attempt - 1` rounds; the printing of a number has one round more than its value. Every other loop
-- is over a list or a text.
--
-- Not modelled. The matching of a path, the logging and recovery around a handler, the connection pool,
-- the start-up of the two servers, the Android app and the scripts. The goroutines of a reconciler pass
-- run one after the other, and that of the webhook runs at once. The jitter of the backoff is exact
-- where the source rounds a float64. Letters change case in ASCII only, where Go knows all of Unicode.
-- A failing connection is an error of the abstract store in the engine's theorems (Provision/Engine and
-- Api/Tunnel/Answers), where every call of the store may fail; World's database is never down, so the
-- theorems over World and Site say nothing of a statement that did not reach it. In Migrate each
-- statement may fail.
pub mod Base
pub mod Errors
pub mod Model
pub mod Store
pub mod Edge
pub mod Provision
pub mod Auth
pub mod Paystack
pub mod Keys
pub mod World
pub mod Config
pub mod Agent
pub mod Api
pub mod Examples
pub mod Migrate
