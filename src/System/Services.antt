-- ===== src/System/Services.antt =====
-- A command that a service handles keeps the invariant of the running system.
use kafka_ledger_saga.Base.{
  ◌+◌, length, All-mapped, String, ◌≡◌, refl, ap, sym, ◌∙◌, subst, inl, inr, List, ◌++◌, All,
  All-map, All-append, All-append_one, All-Elem, Any-append_left, Elem, Any, ne_of_==,
}
use kafka_ledger_saga.Contracts.{
  Fields, CommandEnvelope, OrderEvent, order_event_type, order_event_fields, inventory_event_type,
  inventory_event_fields, payment_event_type, payment_event_fields, create_order_command,
}
use kafka_ledger_saga.EventSourcing.{Ambient, StoredEvent}
use kafka_ledger_saga.EventSourcing.Consistency.{event_row, stream}
use kafka_ledger_saga.Order.Domain as Order
use kafka_ledger_saga.Order.Service.{OrderDb, order_service, dispatch}
use kafka_ledger_saga.Order.Outcomes.{dispatch-Outcome}
use kafka_ledger_saga.Order.Causes.{Answered, unanswered, answered, dispatch-Answered}
use kafka_ledger_saga.Inventory.Service as Inventory
use kafka_ledger_saga.Inventory.Service.{InventoryDb, inventory_service}
use kafka_ledger_saga.Inventory.Domain as Stock
use kafka_ledger_saga.Inventory.Held.{Effect-Outcome}
use kafka_ledger_saga.Inventory.Effects.{dispatch-Effect}
use kafka_ledger_saga.Payment.Service as Payment
use kafka_ledger_saga.Payment.Service.{payment_service}
use kafka_ledger_saga.Payment.Domain as Paying
use kafka_ledger_saga.Payment.Branches.{Effect-Outcome as Effect-Outcome_payment}
use kafka_ledger_saga.Payment.Runs.{dispatch-Effect as dispatch-Effect_payment}
use kafka_ledger_saga.Payment.Gateway.{PaymentGateway}
use kafka_ledger_saga.Outbox.Sources.{Publishes, Outcome-Publishes, Outcome-events}
use kafka_ledger_saga.System.Model.{System, commands}
use kafka_ledger_saga.System.Facts.{HasPaid, HasReserved, HasFailed}
use kafka_ledger_saga.System.Trace.{IsTraced, Confirms, Cancels, Confirmed, Cancelled}

module _ {G : Type 0} (s : System G) (h : IsTraced s) where
  -- A command of the gateway is neither ConfirmOrder nor CancelOrder.
  commands-Confirms : All (Confirms s) (commands s)
  commands-Confirms =
      All-append (Confirms s) s.requests _
        (All-map (λ c made t id about. absurd (ne_of_== create_order_command _ refl (sym made ∙ t)))
          s.requests h.requests)
        (All-mapped (Confirms s) (λ m. m.value) s.saga.broker.sent h.confirms)

  commands-Cancels : All (Cancels s) (commands s)
  commands-Cancels =
      All-append (Cancels s) s.requests _
        (All-map (λ c made t id about. absurd (ne_of_== create_order_command _ refl (sym made ∙ t)))
          s.requests h.requests)
        (All-mapped (Cancels s) (λ m. m.value) s.saga.broker.sent h.cancels)

  -- What the order service stores for a command is what the command stands for.
  order-Confirmed :
      (c : CommandEnvelope Fields) (db : OrderDb)
      → Elem c (commands s)
      → Answered c.type c.payload s.order db
      → All (Confirmed s) db.events
  order-Confirmed c db there (unanswered e) =
      subst (λ d. All (Confirmed s) d.events) (sym e) h.confirmed
  order-Confirmed c db there (answered ambient cid id state u asked e) =
      let r = event_row order_service ambient cid id (length (stream id s.order) + 1) u in
      rw (ap (λ d. d.events) e) (
        All-append_one (Confirmed s) s.order.events r h.confirmed (λ k.
          let (t, about) = asked.to_confirm k in
          All-Elem (Confirms s) c (commands s) commands-Confirms there t id about))

  order-Cancelled :
      (c : CommandEnvelope Fields) (db : OrderDb)
      → Elem c (commands s)
      → Answered c.type c.payload s.order db
      → All (Cancelled s) db.events
  order-Cancelled c db there (unanswered e) =
      subst (λ d. All (Cancelled s) d.events) (sym e) h.cancelled
  order-Cancelled c db there (answered ambient cid id state u asked e) =
      let r = event_row order_service ambient cid id (length (stream id s.order) + 1) u in
      rw (ap (λ d. d.events) e) (
        All-append_one (Cancelled s) s.order.events r h.cancelled (λ k.
          let (t, about) = asked.to_cancel k in
          All-Elem (Cancels s) c (commands s) commands-Cancels there t id about))

  pub order-IsTraced :
      (ambient : Ambient) (c : CommandEnvelope Fields)
      → Elem c (commands s)
      → IsTraced (record s { order = (dispatch ambient c s.order).1 })
  order-IsTraced ambient c there =
      let did = dispatch-Answered ambient c s.order h.order.consistent in
      record {
        order =
            Outcome-Publishes Order.when order_service order_event_type order_event_fields
              (dispatch-Outcome ambient c s.order h.order.consistent) h.order;
        inventory = h.inventory;
        payment = h.payment;
        sagas = h.sagas;
        requests = h.requests;
        at_payment = h.at_payment;
        confirms = h.confirms;
        cancels = h.cancels;
        confirmed = order-Confirmed c (dispatch ambient c s.order).1 there did;
        cancelled = order-Cancelled c (dispatch ambient c s.order).1 there did;
      }

-- Events are only ever added, so that what has happened stays so.
pub record Grows {G : Type 0} (s s' : System G) : Type 0 where
  pub paid : (id : String) → HasPaid id s → HasPaid id s'
  pub reserved : (id : String) → HasReserved id s → HasReserved id s'
  pub failed : (id : String) → HasFailed id s → HasFailed id s'

module _ {G : Type 0} {s s' : System G} (g : Grows s s') where
  Confirms-grow : (c : CommandEnvelope Fields) → Confirms s c → Confirms s' c
  Confirms-grow c k t id about = let (p, r) = k t id about in (g.paid id p, g.reserved id r)

  Cancels-grow : (c : CommandEnvelope Fields) → Cancels s c → Cancels s' c
  Cancels-grow c k t id about = g.failed id (k t id about)

  Confirmed-grow : (r : StoredEvent OrderEvent) → Confirmed s r → Confirmed s' r
  Confirmed-grow r k e = let (p, q) = k e in (g.paid r.aggregate_id p, g.reserved r.aggregate_id q)

  Cancelled-grow : (r : StoredEvent OrderEvent) → Cancelled s r → Cancelled s' r
  Cancelled-grow r k e = g.failed r.aggregate_id (k e)

-- More events in an event store.
grown :
    {E : Type 0} (P : StoredEvent E → Type 0) (events later : List (StoredEvent E))
    → (new : List (StoredEvent E)) × (later ≡ events ++ new)
    → Any P events
    → Any P later
grown P events later (new, e) k = subst (Any P) (sym e) (Any-append_left P events new k)

module _ {G : Type 0} (s : System G) (h : IsTraced s) where
  module _ (inventory : InventoryDb) (g : Grows s (record s { inventory = inventory })) where
    abbrev stocked : System G
    stocked = record s { inventory = inventory }

    with_inventory :
        Publishes Stock.when inventory_service inventory_event_type inventory_event_fields
          inventory.store s.inventory_events.sent
        → IsTraced stocked
    with_inventory p = record {
      order = h.order;
      inventory = p;
      payment = h.payment;
      sagas = h.sagas;
      requests = h.requests;
      at_payment = λ id row found at. g.reserved id (h.at_payment id row found at);
      confirms = All-map (λ m. Confirms-grow g m.value) s.saga.broker.sent h.confirms;
      cancels = All-map (λ m. Cancels-grow g m.value) s.saga.broker.sent h.cancels;
      confirmed = All-map (Confirmed-grow g) s.order.events h.confirmed;
      cancelled = All-map (Cancelled-grow g) s.order.events h.cancelled;
    }

  pub inventory-IsTraced :
      (ambient : Ambient) (c : CommandEnvelope Fields)
      → IsTraced (record s { inventory = (Inventory.dispatch ambient c s.inventory).1 })
  inventory-IsTraced ambient c =
      let did =
        Effect-Outcome
          (dispatch-Effect (λ _. Unit) ambient c s.inventory h.inventory.consistent (λ _ _. tt)) in
      let after = (Inventory.dispatch ambient c s.inventory).1 in
      let more =
        Outcome-events Stock.when inventory_service inventory_event_type inventory_event_fields
          did in
      with_inventory after
        (record {
          paid = λ id k. k;
          reserved = λ id. grown _ s.inventory.store.events after.store.events more;
          failed = λ id k. elim k [
            | inl u ↦ inl (grown _ s.inventory.store.events after.store.events more u)
            | inr d ↦ inr d
          ];
        })
        (Outcome-Publishes Stock.when inventory_service inventory_event_type inventory_event_fields
          did h.inventory)

  module _ (payment : Payment.PaymentWorld G) (g : Grows s (record s { payment = payment })) where
    with_payment :
        Publishes Paying.when payment_service payment_event_type payment_event_fields payment.store
          s.payment_events.sent
        → IsTraced (record s { payment = payment })
    with_payment p = record {
      order = h.order;
      inventory = h.inventory;
      payment = p;
      sagas = h.sagas;
      requests = h.requests;
      at_payment = λ id row found at. g.reserved id (h.at_payment id row found at);
      confirms = All-map (λ m. Confirms-grow g m.value) s.saga.broker.sent h.confirms;
      cancels = All-map (λ m. Cancels-grow g m.value) s.saga.broker.sent h.cancels;
      confirmed = All-map (Confirmed-grow g) s.order.events h.confirmed;
      cancelled = All-map (Cancelled-grow g) s.order.events h.cancelled;
    }

  pub payment-IsTraced :
      (gateway : PaymentGateway G) (ambient : Ambient) (c : CommandEnvelope Fields)
      → IsTraced (record s { payment = (Payment.dispatch gateway ambient c s.payment).1 })
  payment-IsTraced gateway ambient c =
      let did =
        Effect-Outcome_payment
          (dispatch-Effect_payment gateway ambient c s.payment h.payment.consistent) in
      let after = (Payment.dispatch gateway ambient c s.payment).1 in
      let more =
        Outcome-events Paying.when payment_service payment_event_type payment_event_fields did in
      with_payment after
        (record {
          paid = λ id. grown _ s.payment.store.events after.store.events more;
          reserved = λ id k. k;
          failed = λ id k. elim k [
            | inl u ↦ inl u
            | inr d ↦ inr (grown _ s.payment.store.events after.store.events more d)
          ];
        })
        (Outcome-Publishes Paying.when payment_service payment_event_type payment_event_fields did
          h.payment)
