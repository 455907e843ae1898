-- ===== src/System/Facts.antt =====
-- What an event on a topic says of its order, and that some service has stored it.
use kafka_ledger_saga.Base.{
  String, ◌≡◌, refl, ap, sym, ◌∙◌, ◌⊎◌, inl, inr, false, Option, none, some, ok, Any, ne_of_==,
  ◌==◌,
}
use kafka_ledger_saga.Contracts.{
  text, field, OrderEvent, InventoryEvent, PaymentEvent, order_event_type, inventory_event_type,
  inventory_event_fields, payment_event_type, payment_event_fields, as_text,
}
use kafka_ledger_saga.Order.Domain as Order
use kafka_ledger_saga.Inventory.Domain as Inventory
use kafka_ledger_saga.Payment.Domain as Payment
use kafka_ledger_saga.System.Model.{System}

-- The order that a payment, a decline, a reservation or a failed reservation is for.
abbrev pub paid_for : PaymentEvent → Option String
paid_for (PaymentEvent.authorized p) = some p.order_id
paid_for _ = none

abbrev pub declined_for : PaymentEvent → Option String
declined_for (PaymentEvent.declined p) = some p.order_id
declined_for _ = none

abbrev pub reserved_for : InventoryEvent → Option String
reserved_for (InventoryEvent.reserved p) = some p.order_id
reserved_for _ = none

abbrev pub unreserved_for : InventoryEvent → Option String
unreserved_for (InventoryEvent.reservation_failed p) = some p.order_id
unreserved_for _ = none

module _ {G : Type 0} where
  -- The event store of a service holds such an event for the order.
  abbrev pub HasPaid : String → System G → Type 0
  HasPaid id s = Any (λ r. paid_for r.event ≡ some id) s.payment.store.events

  abbrev pub HasReserved : String → System G → Type 0
  HasReserved id s = Any (λ r. reserved_for r.event ≡ some id) s.inventory.store.events

  -- The reservation failed or the payment was declined.
  abbrev pub HasFailed : String → System G → Type 0
  HasFailed id s =
      Any (λ r. unreserved_for r.event ≡ some id) s.inventory.store.events
      ⊎ Any (λ r. declined_for r.event ≡ some id) s.payment.store.events

text_id : (a b : String) → text a ≡ text b → ◌≡◌ {A = Option String} (some a) (some b)
text_id a b e = ap as_text e

-- The events that the saga waits for.
abbrev pub IsWaitedFor : String → Type 0
IsWaitedFor t =
    ((t ≡ "inventory.reserved.v1") ⊎ (t ≡ "inventory.reservation_failed.v1"))
    ⊎ ((t ≡ "payment.authorized.v1") ⊎ (t ≡ "payment.declined.v1"))

abbrev pub TakenOrder : OrderEvent → Type 0
TakenOrder ev = (s : Order.OrderState) × (s' : Order.OrderState) × (Order.when ev s ≡ ok s')

abbrev pub TakenInventory : InventoryEvent → Type 0
TakenInventory ev =
    (s : Inventory.StockAggregateState) × (s' : Inventory.StockAggregateState) × (Inventory.when ev
        s
      ≡ ok s')

abbrev pub TakenPayment : PaymentEvent → Type 0
TakenPayment ev =
    (s : Payment.PaymentState) × (s' : Payment.PaymentState) × (Payment.when ev s ≡ ok s')

not_waited :
    (u : String)
    → (u == "inventory.reserved.v1") ≡ false
    → (u == "inventory.reservation_failed.v1") ≡ false
    → (u == "payment.authorized.v1") ≡ false
    → (u == "payment.declined.v1") ≡ false
    → (t : String) → t ≡ u
    → IsWaitedFor t
    → ⊥
not_waited u a b c d t e (inl (inl w)) = ne_of_== u _ a (sym e ∙ w)
not_waited u a b c d t e (inl (inr w)) = ne_of_== u _ b (sym e ∙ w)
not_waited u a b c d t e (inr (inl w)) = ne_of_== u _ c (sym e ∙ w)
not_waited u a b c d t e (inr (inr w)) = ne_of_== u _ d (sym e ∙ w)

-- The order service emits none of them.
pub order-silent :
    (ev : OrderEvent) (t : String) → TakenOrder ev → t ≡ order_event_type ev → IsWaitedFor t → ⊥
unfolding Order.when
order-silent (OrderEvent.created p) t k e w = not_waited _ refl refl refl refl t e w
order-silent (OrderEvent.confirmed p) t k e w = not_waited _ refl refl refl refl t e w
order-silent (OrderEvent.cancelled p) t k e w = not_waited _ refl refl refl refl t e w
order-silent (OrderEvent.other u) t (s, s', k) e w = cc

-- Of the inventory service's events, the two that it waits for name their order.
pub inventory-reserved :
    (ev : InventoryEvent) (id t : String)
    → TakenInventory ev
    → t ≡ inventory_event_type ev
    → field "orderId" (inventory_event_fields ev) ≡ text id
    → t ≡ "inventory.reserved.v1"
    → reserved_for ev ≡ some id
unfolding Inventory.when field
inventory-reserved (InventoryEvent.reserved p) id t k e about w = text_id p.order_id id about
inventory-reserved (InventoryEvent.reservation_failed p) id t k e about w =
    absurd (ne_of_== "inventory.reservation_failed.v1" _ refl (sym e ∙ w))
inventory-reserved (InventoryEvent.released p) id t k e about w =
    absurd (ne_of_== "inventory.released.v1" _ refl (sym e ∙ w))
inventory-reserved (InventoryEvent.other u) id t (s, s', k) e about w = cc

pub inventory-unreserved :
    (ev : InventoryEvent) (id t : String)
    → TakenInventory ev
    → t ≡ inventory_event_type ev
    → field "orderId" (inventory_event_fields ev) ≡ text id
    → t ≡ "inventory.reservation_failed.v1"
    → unreserved_for ev ≡ some id
unfolding Inventory.when field
inventory-unreserved (InventoryEvent.reserved p) id t k e about w =
    absurd (ne_of_== "inventory.reserved.v1" _ refl (sym e ∙ w))
inventory-unreserved (InventoryEvent.reservation_failed p) id t k e about w =
    text_id p.order_id id about
inventory-unreserved (InventoryEvent.released p) id t k e about w =
    absurd (ne_of_== "inventory.released.v1" _ refl (sym e ∙ w))
inventory-unreserved (InventoryEvent.other u) id t (s, s', k) e about w = cc

pub payment-paid :
    (ev : PaymentEvent) (id t : String)
    → TakenPayment ev
    → t ≡ payment_event_type ev
    → field "orderId" (payment_event_fields ev) ≡ text id
    → t ≡ "payment.authorized.v1"
    → paid_for ev ≡ some id
unfolding Payment.when field
payment-paid (PaymentEvent.authorized p) id t k e about w = text_id p.order_id id about
payment-paid (PaymentEvent.declined p) id t k e about w =
    absurd (ne_of_== "payment.declined.v1" _ refl (sym e ∙ w))
payment-paid (PaymentEvent.refunded p) id t k e about w =
    absurd (ne_of_== "payment.refunded.v1" _ refl (sym e ∙ w))
payment-paid (PaymentEvent.other u) id t (s, s', k) e about w = cc

pub payment-declined :
    (ev : PaymentEvent) (id t : String)
    → TakenPayment ev
    → t ≡ payment_event_type ev
    → field "orderId" (payment_event_fields ev) ≡ text id
    → t ≡ "payment.declined.v1"
    → declined_for ev ≡ some id
unfolding Payment.when field
payment-declined (PaymentEvent.authorized p) id t k e about w =
    absurd (ne_of_== "payment.authorized.v1" _ refl (sym e ∙ w))
payment-declined (PaymentEvent.declined p) id t k e about w = text_id p.order_id id about
payment-declined (PaymentEvent.refunded p) id t k e about w =
    absurd (ne_of_== "payment.refunded.v1" _ refl (sym e ∙ w))
payment-declined (PaymentEvent.other u) id t (s, s', k) e about w = cc

-- An inventory event is no payment, and the other way round.
pub inventory-no_payment :
    (ev : InventoryEvent) (t : String)
    → TakenInventory ev
    → t ≡ inventory_event_type ev
    → (t ≡ "payment.authorized.v1") ⊎ (t ≡ "payment.declined.v1")
    → ⊥
unfolding Inventory.when
inventory-no_payment (InventoryEvent.reserved p) t k e (inl w) =
    ne_of_== "inventory.reserved.v1" _ refl (sym e ∙ w)
inventory-no_payment (InventoryEvent.reserved p) t k e (inr w) =
    ne_of_== "inventory.reserved.v1" _ refl (sym e ∙ w)
inventory-no_payment (InventoryEvent.reservation_failed p) t k e (inl w) =
    ne_of_== "inventory.reservation_failed.v1" _ refl (sym e ∙ w)
inventory-no_payment (InventoryEvent.reservation_failed p) t k e (inr w) =
    ne_of_== "inventory.reservation_failed.v1" _ refl (sym e ∙ w)
inventory-no_payment (InventoryEvent.released p) t k e (inl w) =
    ne_of_== "inventory.released.v1" _ refl (sym e ∙ w)
inventory-no_payment (InventoryEvent.released p) t k e (inr w) =
    ne_of_== "inventory.released.v1" _ refl (sym e ∙ w)
inventory-no_payment (InventoryEvent.other u) t (s, s', k) e w = cc

pub payment-no_inventory :
    (ev : PaymentEvent) (t : String)
    → TakenPayment ev
    → t ≡ payment_event_type ev
    → (t ≡ "inventory.reserved.v1") ⊎ (t ≡ "inventory.reservation_failed.v1")
    → ⊥
unfolding Payment.when
payment-no_inventory (PaymentEvent.authorized p) t k e (inl w) =
    ne_of_== "payment.authorized.v1" _ refl (sym e ∙ w)
payment-no_inventory (PaymentEvent.authorized p) t k e (inr w) =
    ne_of_== "payment.authorized.v1" _ refl (sym e ∙ w)
payment-no_inventory (PaymentEvent.declined p) t k e (inl w) =
    ne_of_== "payment.declined.v1" _ refl (sym e ∙ w)
payment-no_inventory (PaymentEvent.declined p) t k e (inr w) =
    ne_of_== "payment.declined.v1" _ refl (sym e ∙ w)
payment-no_inventory (PaymentEvent.refunded p) t k e (inl w) =
    ne_of_== "payment.refunded.v1" _ refl (sym e ∙ w)
payment-no_inventory (PaymentEvent.refunded p) t k e (inr w) =
    ne_of_== "payment.refunded.v1" _ refl (sym e ∙ w)
payment-no_inventory (PaymentEvent.other u) t (s, s', k) e w = cc
