-- ===== src/System/Checkout.antt =====
-- What the status of an order says of its stock and its payment, in any state that the running
-- system can reach.
use kafka_ledger_saga.Base.{String, ◌≡◌, inl, inr, true, some, List, [], ◌∷◌, All, Any, subst}
use kafka_ledger_saga.Contracts.{OrderStatus, OrderEvent}
use kafka_ledger_saga.EventSourcing.{StoredEvent, find_one}
use kafka_ledger_saga.Inventory.Stock.{StockTable}
use kafka_ledger_saga.Order.Service.{OrderProjection}
use kafka_ledger_saga.Order.Causes.{is_confirmed, is_cancelled}
use kafka_ledger_saga.Order.Rows.{confirmed_row-event, cancelled_row-event}
use kafka_ledger_saga.Payment.Gateway.{PaymentGateway}
use kafka_ledger_saga.System.Model.{System, Steps}
use kafka_ledger_saga.System.Facts.{HasPaid, HasReserved, HasFailed}
use kafka_ledger_saga.System.Trace.{IsTraced}
use kafka_ledger_saga.System.Safety.{fresh, fresh-IsTraced, Steps-IsTraced}

-- What the events of one kind say holds for the order of such an event.
known :
    (R : String → Type 0) (P : StoredEvent OrderEvent → Type 0) (id : String)
    (events : List (StoredEvent OrderEvent))
    → All (λ r. P r → R r.aggregate_id) events
    → Any (λ r. P r × (r.aggregate_id ≡ id)) events
    → R id
known R P id [] all k = absurd k
known R P id (r ∷ events) (f, all) (inl (p, same)) = subst R same (f p)
known R P id (r ∷ events) (f, all) (inr k) = known R P id events all k

module _ {G : Type 0} (gateway : PaymentGateway G) (provider : G) (stock : StockTable)
    {s : System G} (steps : Steps gateway (fresh provider stock) s) where
  reached : IsTraced s
  reached = Steps-IsTraced gateway steps (fresh-IsTraced provider stock)

  -- From empty tables and topics, with any stock and any gateway, whatever orders are requested,
  -- whichever sends and payments fail, and however often and in whatever order messages are
  -- delivered: when the row of an order is CONFIRMED, the payment service has stored
  -- PaymentAuthorized and the inventory service InventoryReserved for that order.
  pub confirmed_is_paid :
      (id : String) (row : OrderProjection)
      → find_one id s.order.projection ≡ some row
      → row.status ≡ OrderStatus.confirmed
      → HasPaid id s × HasReserved id s
  confirmed_is_paid id row found is =
      known (λ k. HasPaid k s × HasReserved k s) (λ r. is_confirmed r.event ≡ true) id
        s.order.events reached.confirmed
        (confirmed_row-event s.order reached.order.consistent id row found is)

  -- Under the same conditions, when the row of an order is CANCELLED, the inventory service has
  -- stored InventoryReservationFailed or the payment service PaymentDeclined for that order.
  pub cancelled_has_failed :
      (id : String) (row : OrderProjection)
      → find_one id s.order.projection ≡ some row
      → row.status ≡ OrderStatus.cancelled
      → HasFailed id s
  cancelled_has_failed id row found is =
      known (λ k. HasFailed k s) (λ r. is_cancelled r.event ≡ true) id s.order.events
        reached.cancelled (cancelled_row-event s.order reached.order.consistent id row found is)
