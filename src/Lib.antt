-- ===== src/Lib.antt =====
-- KafkaLedgerSaga: an order checkout as a saga over Kafka. Services with an event store each (order,
-- inventory, payment) react to commands on the topic saga.commands and publish their events through
-- an outbox; the saga orchestrator reads those events and sends the next command.
--
-- The program's parts and their models:
-- - Base: helpers. `Action E S A` is an async method: it takes the state, and returns or throws in a
--   new one; `transaction` takes the writes back on a throw. ℕ is the native number; ℤ stands for
--   the stock columns, which SQL does not cut off at zero. Base/Decimal prints a number into a text.
-- - Contracts (libs/event-contracts/src): the payload classes, events, commands, envelopes and the
--   status enums; Contracts/Json is a JavaScript object with string keys, as the saga context is.
-- - Errors: the exceptions that the services throw and catch.
-- - EventSourcing (libs/event-sourcing-core/src and the event-store repositories of the services,
--   which are alike): AggregateRoot, and the tables event_store, outbox and projection with the
--   write path of `saveWithinTransaction`, `save`, `loadStream` and `loadAggregate`. A service's
--   constants and its reducer are parameters. Snapshot is snapshot.strategy.ts. Replay, Consistency,
--   Outcomes and RoundTrip hold the lemmas.
-- - Kafka (libs/kafka-client/src/kafka-producer.service.ts and `eachMessage` of the consumers): a
--   broker with the messages that it acknowledged, and the committed offset.
-- - Order (apps/order-service/src): Domain is order.aggregate.ts, Service the repository, the command
--   handlers, the query and the consumer; Branches, Outcomes and Finality hold the theorems.
-- - Inventory (apps/inventory-service/src): Domain is stock.aggregate.ts, Stock is
--   stock.repository.ts over Rounding, Service the handlers and the consumer; Updates, Cover and
--   Quantities are about stock rows, Facts, Branches, Shortage and Effects about the handlers, Held
--   and Balance about runs.
-- - Payment (apps/payment-service/src): Domain is payment.aggregate.ts, Gateway the payment gateway
--   and its adapters, Service the handlers and the consumer; Branches is about the handlers, Runs
--   and Once about runs.
-- - Saga (libs/saga-toolkit/src and apps/saga-orchestrator/src): Toolkit is
--   compensation-registry.ts, Definition is order-fulfillment.saga-definition.ts with the
--   compensators, Machine is saga-state-machine.ts with its repository, producer, consumer and read
--   API. Steps computes single steps, Changes states the transition system; Running, Dispatch,
--   Safety, Delivery and Compensation hold the theorems.
-- - Gateway (apps/api-gateway/src): Orders is POST /orders, from the claims of a checked token to the
--   command on Kafka, with the status proxy; Accepted holds the theorems.
-- - Outbox (libs/database/src/outbox): Relay is the relay and its scheduler; Marks, Delivered, Batch,
--   Drain, Passes and Oldest are about its passes.
-- - Audit (apps/audit-ledger-service/src): Ledger is the table and the consumer, Records and Runs hold
--   the theorems.
-- - Notification (apps/notification-service/src): Channels are the templates and the contact resolver,
--   Consumer the consumer; Sends and Contacts hold the theorems.
-- - System: the parts together. Model is one state with the four databases, the topics and a relation
--   of steps, Trace the invariant, Heard, Services and Orchestrator what keeps it; Safety and
--   Checkout hold the theorems. Any message of a topic can be delivered at any time and
--   any number of times.
-- The Examples of a component run it on concrete commands and events.
--
-- How they interact: `dispatch` of a service takes one envelope; `consume` wraps it with the commit
-- of the offset. A run is a list of envelopes, each with the clock, the random UUIDs and, for the
-- orchestrator, the cluster's acknowledgements as parameters; a throw keeps the state that it
-- reached, and a redelivery is the same envelope again.
--
-- Bounds and fuel: every loop of the program is over a list, so the models recurse on lists and need
-- no fuel. The quantity of a stock reservation is a decimal number that is not negative, and the
-- INTEGER column rounds the sum. The quantities, prices and totals of an order and the amounts of a
-- payment are whole numbers without an upper bound: what the order service makes of a fractional
-- price, of a sum that INTEGER refuses or of an id that is no UUID is not modelled. The gateway's
-- model takes any JSON body.
--
-- Not modelled: row locks and concurrent transactions (the handlers of a service run one after the
-- other), timestamps of rows, logging, the transport of HTTP, the validation decorators but for those
-- of a new order, the configuration from the environment, metrics and health checks, migrations and
-- the tools; PostgresEventStore and IdempotencyService of libs/database, which no service uses.
-- Postgres, kafkajs, Stripe, Passport and Nest are not part of the repository; what the code
-- relies on is in the models of the tables (primary keys, UNIQUE ("aggregateId", sequence),
-- transactions) and of the broker. The consumers cast a payload to its class; a payload that lacks
-- a declared field, which no publisher of the repository sends, is taken to throw here. A random
-- UUID is taken as it is drawn; JSON text is taken to be read back as it was written.
pub mod Audit
pub mod Base
pub mod Contracts
pub mod Errors
pub mod EventSourcing
pub mod Gateway
pub mod Inventory
pub mod Kafka
pub mod Notification
pub mod Order
pub mod Outbox
pub mod Payment
pub mod Saga
pub mod System
