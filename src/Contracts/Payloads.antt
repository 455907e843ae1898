-- ===== src/Contracts/Payloads.antt =====
-- The payload classes of libs/event-contracts/src/events and libs/event-contracts/src/commands.
-- Prices, totals, amounts and the quantities of an order are whole numbers here.
use kafka_ledger_saga.Base.{ℕ, String, Option, List, []}

pub record OrderLineItem : Type 0 where
  pub sku : String
  pub qty : ℕ
  pub unit_price_cents : ℕ

pub record OrderCreatedPayload : Type 0 where
  pub order_id : String
  pub customer_id : String
  pub items : List OrderLineItem
  pub total_cents : ℕ

pub record OrderConfirmedPayload : Type 0 where
  pub order_id : String
  pub customer_id : Option String
  pub payment_id : String

pub record OrderCancelledPayload : Type 0 where
  pub order_id : String
  pub customer_id : Option String
  pub reason : String

-- A number that is not negative, as JavaScript prints it: its whole part, and the digits after the
-- point.
pub record Quantity : Type 0 where
  pub whole : ℕ
  pub fraction : List ℕ

abbrev pub whole_quantity : ℕ → Quantity
whole_quantity n = record { whole = n; fraction = [] }

pub record ReservationLine : Type 0 where
  pub sku : String
  pub qty : Quantity

pub record InventoryReservedPayload : Type 0 where
  pub reservation_id : String
  pub order_id : String
  pub lines : List ReservationLine

pub record InventoryReservationFailedPayload : Type 0 where
  pub order_id : String
  pub sku : String
  pub reason : String

pub record InventoryReleasedPayload : Type 0 where
  pub reservation_id : String
  pub order_id : String

pub record PaymentAuthorizedPayload : Type 0 where
  pub payment_id : String
  pub order_id : String
  pub amount_cents : ℕ
  pub psp_reference : String

pub record PaymentDeclinedPayload : Type 0 where
  pub payment_id : String
  pub order_id : String
  pub customer_id : Option String
  pub decline_code : String
  pub reason : String

pub record PaymentRefundedPayload : Type 0 where
  pub payment_id : String
  pub order_id : String
  pub customer_id : Option String
  pub amount_cents : ℕ
  pub reason : Option String

pub record CreateOrderCommandPayload : Type 0 where
  pub order_id : String
  pub customer_id : String
  pub items : List OrderLineItem

pub record ConfirmOrderCommandPayload : Type 0 where
  pub order_id : String
  pub payment_id : String

pub record CancelOrderCommandPayload : Type 0 where
  pub order_id : String
  pub reason : String

pub record ReserveStockCommandPayload : Type 0 where
  pub order_id : String
  pub lines : List ReservationLine

pub record ReleaseInventoryCommandPayload : Type 0 where
  pub order_id : String
  pub reservation_id : String

pub record AuthorizePaymentCommandPayload : Type 0 where
  pub order_id : String
  pub customer_id : String
  pub amount_cents : ℕ

pub record RefundPaymentCommandPayload : Type 0 where
  pub order_id : String
  pub payment_id : String
  pub amount_cents : ℕ
