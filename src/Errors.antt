-- ===== src/Errors.antt =====
-- The exceptions of the services: libs/event-sourcing-core (ConcurrencyError), the domain errors of
-- the three aggregates, Nest's NotFoundException, and the failures of Postgres, Kafka and Stripe.
use kafka_ledger_saga.Base.{ℕ, String}
use kafka_ledger_saga.Contracts.{OrderStatus, ReservationStatus, PaymentStatus}

pub data Error : Type 0 where
  -- Postgres error 23505.
  unique_violation : Error
  -- `ConcurrencyError(aggregateId, expectedVersion)`
  concurrency_error : String → ℕ → Error
  order_already_finalized : String → OrderStatus → Error
  reservation_already_finalized : String → ReservationStatus → Error
  payment_already_finalized : String → PaymentStatus → Error
  -- `InsufficientStockError(sku, reason)`
  insufficient_stock : String → String → Error
  -- `cannot apply unknown event type`
  unknown_event_type : String → Error
  not_found : String → Error
  -- A plain `Error`, with what it is about.
  failure : String → Error
  kafka_unavailable : Error
  -- Any error of Stripe but a card error.
  gateway_unavailable : Error
  -- A payload that lacks a field of its class.
  malformed_payload : String → Error
