-- ===== src/Lib.antt =====
-- The saga of a shop, as four Go services: order, payment, inventory and delivery. Each service has
-- its own PostgreSQL database, writes the events that it sends into an outbox table of that database,
-- and reacts to the events of the others, which come by Kafka. An order is created (order.created.v1),
-- charged by payment (payment.completed.v1 or payment.failed.v1), reserved by inventory
-- (stock.reserved.v1 or stock.reservation_failed.v1, which makes payment refund) and delivered; a
-- refund (payment.refunded.v1) makes inventory restore the stock.
--
-- Files, and the code that each is about:
--   Prelude and Prelude/           shared names, Boolean tests, integers, text, decimal numerals
--   Common/Errors                  common/errors/errors.go
--   Common/Events, Wire, Decode    common/events/events.go and its JSON form; Common/RoundTrip
--   Common/Idempotency             common/idempotency/store.go and the shape of the event handlers
--                                  (`once`); Common/Once
--   Common/Messaging               common/messaging/kafka.go
--   Common/Retry                   common/retry/backoff.go; Common/Attempts
--   Store/Table, Session, Outbox   tables as lists of rows; *sql.DB and *sql.Tx; the inserting
--                                  operations of the outbox repositories
--   Store/Pending, Rows            their other operations, and the loop over the rows of an answer;
--                                  `OutboxRepository` is what a worker asks of a repository
--   Store/Worker                   the loop of the outbox workers, services/*/internal/worker/
--                                  outbox_worker.go, over any `OutboxRepository`; Store/Batch,
--                                  Publishing and Draining are on one tick, Store/Columns, Running,
--                                  Backlog and Emptying on the loop
--   Store/Provenance, Announced    what the rows of an outbox tell of the sender's tables, and which
--                                  are there
--   Wiring/Process, Config         the calls of a `main` of services/*/cmd/main.go, and `loadConfig`;
--                                  Wiring/Orderly
--   */Outbox, */Worker, */Main     for each service, its outbox_repository.go, its outbox worker
--                                  (for payment, `startOutboxWorker` of its main.go) and its main.go
--   Order/Domain, Repository, Service, Handler, Http
--                                  services/order/internal/{domain,repository,service,handler},
--                                  with the HTTP handler in Order/Http;
--                                  Order/Incoming has the six event handlers as one function and their
--                                  specification `next`, Order/Locking and Order/Interleaving the
--                                  handlers that run at the same time as a step relation: each reads,
--                                  and later goes on over what the others have left
--   Payment/Domain, Repository, Service, Handler
--                                  services/payment/internal/
--   Inventory/Domain, Repository, Service, Handler
--                                  services/inventory/internal/ and the event handler of
--                                  services/inventory/cmd/main.go; Inventory/Held has the sum that the
--                                  column `reserved_quantity` stands for, Inventory/Range what a row
--                                  counts in all
--   Delivery/Domain, Repository, Service, Handler
--                                  services/delivery/internal/ and the event handler of
--                                  services/delivery/cmd/main.go
--   */Provenance, */Received       that a service's events and rows have their causes: the part of each
--                                  service in Saga/Causality; Order/Ended and Payment/Refunded are
--                                  those in Saga/Failures
--   Saga/System                    the four services as a step relation; on all four together:
--                                  Saga/Causality, Causes and Completion on what a completed order has
--                                  behind it, Announcements, Failures and Reasons on what a failure
--                                  has; Topics, Workers and Startup on their wiring; Saga/Run the four
--                                  services with one Redis server as a step relation, HappyPath,
--                                  Serving, Marks, Progress and Fulfilment the course of an order to
--                                  its end in it
--   Examples                       runs at concrete inputs
--
-- Correspondence. A function of a service is a function on a `Session`: the committed database, the
-- database as the open transaction sees it, and the two sequences. A Go function in camel case has
-- the same name in snake case: `CreateOrder` is `create_order`. A statement that the code sends on the
-- pool changes the committed database at once, one that it sends on the transaction does so at
-- `commit`. Which calls fail is part of `Env`, with the time, the fresh ids and the texts of the
-- driver's errors, so that each theorem covers every choice of failures that its hypotheses admit. An
-- argument `others` of the order handlers is what other connections commit between the read and the
-- UPDATE. A step of Saga/System is a whole handler on one message; which row of which outbox is
-- delivered to whom, when and how often, and what the store of processed events then knows, is left
-- open; a step of Saga/Run takes the store as the steps before have left it. A `main` is the list of
-- its calls in order, with the calls that it defers.
--
-- Bounds. Ids, amounts and quantities are integers: neither the wrap-around of int64 nor the range of
-- an INT column, at which PostgreSQL refuses a statement, is modelled. Versions, times and sequence
-- numbers are natural numbers. The columns `idempotency_key` are VARCHAR(64); no other column's width
-- is modelled. Every recursion is structural, so that there is no fuel; a worker takes at most 100
-- rows in a tick, as in the source, and the loop of a worker runs over the list of the signals that it
-- receives, up to the end of its context.
--
-- Parameters: the Redis server (`Redis`, with `RedisLaws` and `RedisFrame`), the Kafka producer
-- (`Producer`), the draw of the simulated gateway (`Gateway`), the context and the clock of a retry
-- (`Clock`), the labels of the two status columns, the environment of a process, and which of its
-- calls fail.
--
-- Not modelled: HTTP headers and what the health checks answer, the expiry of keys in Redis, time-outs
-- and the logging, which have no part in the saga's state. A tick of a worker is one step with respect
-- to the transactions of its service. Of `Subscribe`, the sessions of the consumer group, in which the
-- client runs `ConsumeClaim` for several partitions at the same time, are not modelled. A JSON text is
-- kept as its syntax tree, an object as the list of its members: how encoding/json writes and reads
-- numbers, texts and instants is the standard library's, and its fall-back to names in another case is
-- left out.
pub mod Prelude
pub mod Common
pub mod Store
pub mod Wiring
pub mod Order
pub mod Payment
pub mod Inventory
pub mod Delivery
pub mod Saga
pub mod Examples
