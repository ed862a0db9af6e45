-- ===== src/Lib.antt =====
-- The shop under stampede/apps: services that take orders, reserve stock, move events through SNS and
-- SQS, and keep a catalog. `POST /orders` at the order service reserves stock at the inventory
-- service over HTTP, then writes an order and an outbox row in one transaction of PostgreSQL; a relay
-- publishes the outbox rows to SNS; the workers read the events from their queues, skip the messages
-- that Redis knows, and publish events in turn, two of which set the status of an order. The catalog
-- service writes products with outbox rows that a relay of the same shape puts into OpenSearch. The
-- edge gateway stands before the two services as a proxy, and passes messages on to WebSocket clients.
-- Every worker is a consumer with a handler: the consumer receives messages, runs the handler of each
-- in a goroutine, and deletes those whose handler returned nil. Apart from the shop, the lambdas under
-- sentry watch an account: guardrail revokes ingress rules that are open to every address, self-healer
-- puts an ECS service back to its desired count, and reaper flags volumes and addresses that nothing
-- uses and deletes them later. serverless-api is an API of tasks over DynamoDB.
--
-- Files and code (paths below stampede/apps, and from the root for sentry and serverless-api):
--   Inventory           inventory-service/main.go and redis/reserve.lua: handleReserve is
--                       handle_reserve, handleSetStock is handle_set_stock, and the script, which
--                       Redis runs atomically, is reserve_script
--   Order.Client        order-service/main.go: inventoryClient.Reserve and doReserve are reserve and
--                       do_reserve
--   Order.Handlers      order-service/main.go: handleCreateOrder and handleGetOrder
--   Order.Db            order-service/internal/sqlcgen: the statements on orders
--   Order.Relay         order-service/main.go: publishNextOutboxEvent and publishOutboxBatch
--   Order.Status        order-service/main.go: handleStatusEvent
--   Outbox.Table        the table outbox and its statements, in internal/sqlcgen of the order service
--                       and of the catalog service
--   Outbox.Relay        what the relays of the two services share
--   Catalog             catalog-service/main.go, and in Catalog.Products its statements on products;
--                       Catalog.Search joins the handler and the relay into the search index
--   Events              internal/events: Event and Publish
--   Health              internal/health: Tracker, NewTracker, MarkHealthy and Handler
--   Consumer            internal/sqsconsumer: Run, whose state is State and whose moves are the
--                       actions of act
--   Worker.Dedup        internal/dedup: Seen and Unclaim
--   Worker.Payment      payment-worker/main.go: handle
--   Worker.Fraud        fraud-detector/main.go: handle
--   Worker.Notification notification-worker/main.go: handle
--   Worker.Payment.Threads   the handler of payment-worker in steps, for goroutines that mix
--   Worker.Start        payment-worker/main.go: the slots that main gives the consumer
--   Setup               the main of every program up to its goroutines: Setup.Services of the order and
--                       of the catalog service and of the gateway, Setup.Workers of the workers,
--                       Setup.Dsn the connection URLs; internal/secrets: FetchDBCredentials
--   Process             the error group of every main: its goroutines, the signal and the exit
--   Shop                the way of an order across the services: requests, rounds of the relay,
--                       deliveries to payment-worker and fraud-detector, and status events, as a step
--                       relation
--   Gateway.Hub         edge-gateway/main.go: hub, register, unregister, broadcast and the goroutines
--                       of handleWS
--   Gateway.Feed        edge-gateway/main.go: subscribeStockUpdates and runSubscription, which feed the
--                       hub, and checkOrigin
--   Gateway.Proxy       edge-gateway/main.go: the routes and the rewritten paths of main, with the
--                       routes of the main of the order and of the catalog service
--   Sentry.Guardrail    sentry/lambdas/guardrail/main.go: handler
--   Sentry.SelfHealer   sentry/lambdas/self-healer/main.go: handler
--   Sentry.Reaper       sentry/lambdas/reaper/main.go: handler, sweepVolumes, sweepAddresses, sweep
--   Tasks               serverless-api/src/main.go: handler, createTask, getTask, listTasks, deleteTask
--   Net, Redis          the answers of other systems, and Redis as a record of operations and laws
--   Prelude             shared helpers; Tests holds concrete values for the parameters
--
-- A handler is a function from the answers that its calls get, the decoded request (`none` where
-- decoding fails) and the state to the reply, or the error, and the new state. A call of another
-- system ends in an Answer: carried out, refused, or carried out and yet reported as an error. So a
-- theorem for all answers holds whatever fails. Redis, encoding/json, the UUID functions, the
-- network and the receiver of a relay are parameters with the laws that they document. Requests run
-- one after another: each state change of the code is one script, one command or one transaction,
-- and rows that another transaction holds are the parameter is_locked. The consumer and the hub are
-- machines of their goroutines, whose moves come in any order: the scheduler, the network and the
-- clock choose the next action, and a theorem on reachable states holds for all their choices. In
-- the consumer a call of the handler is one move; in the hub what the code does while it holds the
-- mutex is one. The subscriber of the gateway moves from select to select, and each branch of a
-- select that is ready may be taken. In the shop one step is one request, one round of the relay or
-- one delivery of an event that is on the topic, as it was published: that the numbers in its
-- metadata, which no handler of these reads, come back as doubles is left out. A start is a chain of calls that ends at the first
-- one that fails; what pgx makes of a connection URL is a parameter, and Setup.Dsn.Cut reads no
-- more of one than its authority, by RFC 3986. The reads of DynamoDB are answers as well, since
-- they are eventually consistent: a theorem says which states of the table they may have seen.
--
-- Bounds: a quantity is an integer, and int32 wraps it as Go does; a UUID is the number that its
-- bytes spell. The numbers of the script are doubles (`to_number`, exact up to 2 ^ 53), and so are
-- those in the metadata of an event that was decoded. The loop of Reserve runs on max_attempts
-- rounds, those its condition admits, and a batch of a relay on the 20 rounds of the code, so
-- neither needs further fuel. A machine has no fuel: that a consumer whose context is done returns
-- is a bound on its moves. Durations of the reaper wrap or saturate at 64 bits as Go's do. The
-- digits of a port are made on fuel above it; Setup.Dsn.Decimal reads them back.
--
-- Not modelled: the expiry of keys in Redis (reservations and claims end after 24 hours), its
-- errors on numbers past 64 bits and on those of a script that Lua prints with an exponent, the
-- time limits of servers and the wiring of their clients in main, timers, logging, the deadline of
-- a handler's context, paths with escaped slashes at the proxies, the mixed steps of the handlers
-- other than that of payment-worker, and the infrastructure code.
pub mod Prelude
pub mod Net
pub mod Redis
pub mod Inventory
pub mod Events
pub mod Outbox
pub mod Order
pub mod Catalog
pub mod Health
pub mod Consumer
pub mod Worker
pub mod Gateway
pub mod Sentry
pub mod Tasks
pub mod Process
pub mod Setup
pub mod Shop
pub mod Tests
