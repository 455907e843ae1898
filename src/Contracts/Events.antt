-- ===== src/Contracts/Events.antt =====
-- The domain events: a type with its payload. `other` is an event of a type that the service does
-- not know, which only a foreign writer could have stored.
use kafka_ledger_saga.Base.{String, [], ◌∷◌}
use kafka_ledger_saga.Contracts.Payloads.{
  OrderCreatedPayload, OrderConfirmedPayload, OrderCancelledPayload, InventoryReservedPayload,
  InventoryReservationFailedPayload, InventoryReleasedPayload, PaymentAuthorizedPayload,
  PaymentDeclinedPayload, PaymentRefundedPayload,
}
use kafka_ledger_saga.Contracts.Json.{Fields, text, number, items, lines, optional}

abbrev pub order_topic : String
order_topic = "order.events"

abbrev pub inventory_topic : String
inventory_topic = "inventory.events"

abbrev pub payment_topic : String
payment_topic = "payment.events"

pub data OrderEvent : Type 0 where
  created : OrderCreatedPayload → OrderEvent
  confirmed : OrderConfirmedPayload → OrderEvent
  cancelled : OrderCancelledPayload → OrderEvent
  other : String → OrderEvent

pub data InventoryEvent : Type 0 where
  reserved : InventoryReservedPayload → InventoryEvent
  reservation_failed : InventoryReservationFailedPayload → InventoryEvent
  released : InventoryReleasedPayload → InventoryEvent
  other : String → InventoryEvent

pub data PaymentEvent : Type 0 where
  authorized : PaymentAuthorizedPayload → PaymentEvent
  declined : PaymentDeclinedPayload → PaymentEvent
  refunded : PaymentRefundedPayload → PaymentEvent
  other : String → PaymentEvent

-- `OrderEventType`
abbrev pub order_event_type : OrderEvent → String
order_event_type (OrderEvent.created _) = "order.created.v1"
order_event_type (OrderEvent.confirmed _) = "order.confirmed.v1"
order_event_type (OrderEvent.cancelled _) = "order.cancelled.v1"
order_event_type (OrderEvent.other t) = t

-- `InventoryEventType`
abbrev pub inventory_event_type : InventoryEvent → String
inventory_event_type (InventoryEvent.reserved _) = "inventory.reserved.v1"
inventory_event_type (InventoryEvent.reservation_failed _) = "inventory.reservation_failed.v1"
inventory_event_type (InventoryEvent.released _) = "inventory.released.v1"
inventory_event_type (InventoryEvent.other t) = t

-- `PaymentEventType`
abbrev pub payment_event_type : PaymentEvent → String
payment_event_type (PaymentEvent.authorized _) = "payment.authorized.v1"
payment_event_type (PaymentEvent.declined _) = "payment.declined.v1"
payment_event_type (PaymentEvent.refunded _) = "payment.refunded.v1"
payment_event_type (PaymentEvent.other t) = t

-- The payloads as the JSON objects that travel in an envelope.
abbrev pub order_event_fields : OrderEvent → Fields
order_event_fields (OrderEvent.created p) =
    ("orderId", text p.order_id)
    ∷ ("customerId", text p.customer_id)
    ∷ ("items", items p.items)
    ∷ ("totalCents", number p.total_cents)
    ∷ []
order_event_fields (OrderEvent.confirmed p) =
    ("orderId", text p.order_id)
    ∷ ("paymentId", text p.payment_id)
    ∷ optional "customerId" p.customer_id []
order_event_fields (OrderEvent.cancelled p) =
    ("orderId", text p.order_id)
    ∷ ("reason", text p.reason)
    ∷ optional "customerId" p.customer_id []
order_event_fields (OrderEvent.other _) = []

abbrev pub inventory_event_fields : InventoryEvent → Fields
inventory_event_fields (InventoryEvent.reserved p) =
    ("reservationId", text p.reservation_id)
    ∷ ("orderId", text p.order_id)
    ∷ ("lines", lines p.lines)
    ∷ []
inventory_event_fields (InventoryEvent.reservation_failed p) =
    ("orderId", text p.order_id) ∷ ("sku", text p.sku) ∷ ("reason", text p.reason) ∷ []
inventory_event_fields (InventoryEvent.released p) =
    ("reservationId", text p.reservation_id) ∷ ("orderId", text p.order_id) ∷ []
inventory_event_fields (InventoryEvent.other _) = []

abbrev pub payment_event_fields : PaymentEvent → Fields
payment_event_fields (PaymentEvent.authorized p) =
    ("paymentId", text p.payment_id)
    ∷ ("orderId", text p.order_id)
    ∷ ("amountCents", number p.amount_cents)
    ∷ ("pspReference", text p.psp_reference)
    ∷ []
payment_event_fields (PaymentEvent.declined p) =
    ("paymentId", text p.payment_id)
    ∷ ("orderId", text p.order_id)
    ∷ ("declineCode", text p.decline_code)
    ∷ ("reason", text p.reason)
    ∷ optional "customerId" p.customer_id []
payment_event_fields (PaymentEvent.refunded p) =
    ("paymentId", text p.payment_id)
    ∷ ("orderId", text p.order_id)
    ∷ ("amountCents", number p.amount_cents)
    ∷ optional "reason" p.reason (optional "customerId" p.customer_id [])
payment_event_fields (PaymentEvent.other _) = []
