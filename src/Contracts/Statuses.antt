-- ===== src/Contracts/Statuses.antt =====
-- The status enums: apps/order-service/src/domain/order-state.ts,
-- apps/inventory-service/src/domain/reservation-state.ts,
-- apps/payment-service/src/domain/payment-state.ts and
-- libs/saga-toolkit/src/saga-step.interface.ts.
pub data OrderStatus : Type 0 where
  uninitialized created confirmed cancelled : OrderStatus

pub data ReservationStatus : Type 0 where
  uninitialized reserved failed released : ReservationStatus

pub data PaymentStatus : Type 0 where
  uninitialized authorized declined refunded : PaymentStatus

pub data SagaStatus : Type 0 where
  started in_progress completed compensating compensated failed : SagaStatus
