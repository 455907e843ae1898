-- ===== src/System/Heard.antt =====
-- What an event that the orchestrator reads is evidence of.
use kafka_ledger_saga.Base.{String, ◌≡◌, ap, sym, ◌∙◌, ◌⊎◌, inl, inr, Any, Any-All, Any-none}
use kafka_ledger_saga.Contracts.{
  Fields, text, field, EventEnvelope, InventoryEvent, PaymentEvent, order_event_type,
  order_event_fields, inventory_event_type, inventory_event_fields, payment_event_type,
  payment_event_fields,
}
use kafka_ledger_saga.EventSourcing.{StoredEvent}
use kafka_ledger_saga.Order.Domain as Order
use kafka_ledger_saga.Order.Service.{order_service}
use kafka_ledger_saga.Inventory.Domain as Inventory
use kafka_ledger_saga.Inventory.Service.{inventory_service}
use kafka_ledger_saga.Payment.Domain as Payment
use kafka_ledger_saga.Payment.Service.{payment_service}
use kafka_ledger_saga.System.Model.{System, Reads}
use kafka_ledger_saga.System.Facts.{
  HasPaid, HasReserved, HasFailed, TakenInventory, TakenPayment, IsWaitedFor, order-silent,
  inventory-reserved, inventory-unreserved, payment-paid, payment-declined, inventory-no_payment,
  payment-no_inventory,
}
use kafka_ledger_saga.System.Trace.{IsTraced, Says, heard}

module _ {G : Type 0} (s : System G) (h : IsTraced s) (e : EventEnvelope Fields) (id : String)
    (about : field "orderId" e.payload ≡ text id) where
  -- From the topic of the order service come none of the events that the saga waits for.
  from_order : Reads e s.order_events → IsWaitedFor e.type → ⊥
  from_order k w = Any-none s.order.events (
      Any-All (λ r t (u, _). order-silent r.event e.type t u w) s.order.events h.order.taken
        (heard Order.when order_service order_event_type order_event_fields e s.order.events
          s.order_events.sent h.order.relayed k))

  -- What holds of each stored event that the inventory service can have told of.
  module _ (R : StoredEvent InventoryEvent → Type 0)
      (f : (r : StoredEvent InventoryEvent)
        → TakenInventory r.event
        → Says inventory_event_type inventory_event_fields e r
        → R r) where
    from_inventory : Reads e s.inventory_events → Any R s.inventory.store.events
    from_inventory k = Any-All f s.inventory.store.events h.inventory.taken (
        heard Inventory.when inventory_service inventory_event_type inventory_event_fields e
          s.inventory.store.events s.inventory_events.sent h.inventory.relayed k)

  module _ (R : StoredEvent PaymentEvent → Type 0)
      (f : (r : StoredEvent PaymentEvent)
        → TakenPayment r.event
        → Says payment_event_type payment_event_fields e r
        → R r) where
    from_payment : Reads e s.payment_events → Any R s.payment.store.events
    from_payment k = Any-All f s.payment.store.events h.payment.taken (
        heard Payment.when payment_service payment_event_type payment_event_fields e
          s.payment.store.events s.payment_events.sent h.payment.relayed k)

  not_from_inventory :
      (e.type ≡ "payment.authorized.v1") ⊎ (e.type ≡ "payment.declined.v1")
      → Reads e s.inventory_events
      → ⊥
  not_from_inventory w k =
      Any-none s.inventory.store.events
        (from_inventory (λ _. ⊥) (λ r t (u, _). inventory-no_payment r.event e.type t u w) k)

  not_from_payment :
      (e.type ≡ "inventory.reserved.v1") ⊎ (e.type ≡ "inventory.reservation_failed.v1")
      → Reads e s.payment_events
      → ⊥
  not_from_payment w k =
      Any-none s.payment.store.events
        (from_payment (λ _. ⊥) (λ r t (u, _). payment-no_inventory r.event e.type t u w) k)

  -- The event comes from one of the three topics.
  abbrev pub IsRead : Type 0
  IsRead = Reads e s.order_events ⊎ (Reads e s.inventory_events ⊎ Reads e s.payment_events)

  pub heard-HasReserved : IsRead → e.type ≡ "inventory.reserved.v1" → HasReserved id s
  heard-HasReserved (inl k) w = absurd (from_order k (inl (inl w)))
  heard-HasReserved (inr (inr k)) w = absurd (not_from_payment (inl w) k)
  heard-HasReserved (inr (inl k)) w =
      from_inventory _
        (λ r t (u, p).
          inventory-reserved r.event id e.type t u (sym (ap (field "orderId") p) ∙ about) w)
        k

  pub heard-HasPaid : IsRead → e.type ≡ "payment.authorized.v1" → HasPaid id s
  heard-HasPaid (inl k) w = absurd (from_order k (inr (inl w)))
  heard-HasPaid (inr (inl k)) w = absurd (not_from_inventory (inl w) k)
  heard-HasPaid (inr (inr k)) w =
      from_payment _
        (λ r t (u, p). payment-paid r.event id e.type t u (sym (ap (field "orderId") p) ∙ about) w)
        k

  pub heard-HasFailed :
      IsRead
      → (e.type ≡ "inventory.reservation_failed.v1") ⊎ (e.type ≡ "payment.declined.v1")
      → HasFailed id s
  heard-HasFailed (inl k) (inl w) = absurd (from_order k (inl (inr w)))
  heard-HasFailed (inl k) (inr w) = absurd (from_order k (inr (inr w)))
  heard-HasFailed (inr (inr k)) (inl w) = absurd (not_from_payment (inr w) k)
  heard-HasFailed (inr (inl k)) (inr w) = absurd (not_from_inventory (inr w) k)
  heard-HasFailed (inr (inl k)) (inl w) = inl (
      from_inventory _
        (λ r t (u, p).
          inventory-unreserved r.event id e.type t u (sym (ap (field "orderId") p) ∙ about) w)
        k)
  heard-HasFailed (inr (inr k)) (inr w) = inr (
      from_payment _
        (λ r t (u, p).
          payment-declined r.event id e.type t u (sym (ap (field "orderId") p) ∙ about) w)
        k)
