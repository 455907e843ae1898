-- ===== src/Notification/Contacts.antt =====
-- Whom the consumer writes to about the events of the order service.
use kafka_ledger_saga.Base.{String, ◌≡◌, ◌≢◌, refl, ap, true, false, List, [], ◌∷◌, ◌++◌}
use kafka_ledger_saga.Contracts.{
  OrderEvent, ConfirmOrderCommandPayload, CancelOrderCommandPayload, order_event_type,
  order_event_fields, text, field,
}
use kafka_ledger_saga.EventSourcing.{Ambient, OutboxRow}
use kafka_ledger_saga.EventSourcing.Consistency.{stream}
use kafka_ledger_saga.Order.Domain.{is_created, is_final}
use kafka_ledger_saga.Order.Service.{OrderDb, execute_confirm, execute_cancel}
use kafka_ledger_saga.Order.Branches.{IsValid, execute_confirm-created, execute_cancel-open}
use kafka_ledger_saga.Outbox.Relay.{to_relay}
use kafka_ledger_saga.Notification.Channels.{
  Providers, Sent, EmailMessage, push, resolve, shown, order_confirmed_email, order_cancelled_email,
  send_email,
}
use kafka_ledger_saga.Notification.Consumer.{dispatch}

abbrev pub nobody : String
nobody = "undefined@customers.saganova.example"

-- The messages about `order` that the relay publishes name no customer.
abbrev pub told : Providers → OutboxRow OrderEvent → Sent → List EmailMessage
told p row s = (dispatch p (to_relay order_event_type order_event_fields row) s).1.emails

module _ (ambient : Ambient) (correlation_id : String) (db : OrderDb) (v : IsValid db)
    (p : Providers) (s : Sent) (takes : p.email_accepts s.tries ≡ true) where
  taken : (m : EmailMessage) → (send_email p m s).1.emails ≡ push s.emails m
  unfolding send_email
  taken m = rw takes refl

  -- In consistent tables, ConfirmOrder for an order that is CREATED adds one row to the outbox. Once
  -- that row is relayed, and if the e-mail provider accepts the send, the notification consumer tells
  -- of the confirmed order at the address `nobody`, whoever the customer is.
  pub confirm-told-nobody :
      (c : ConfirmOrderCommandPayload)
      → stream c.order_id db ≢ []
      → is_created (v c.order_id).0.status ≡ true
      → (row : OutboxRow OrderEvent) × ((execute_confirm ambient correlation_id c db).1.outbox
          ≡ db.outbox ++ row ∷ [])
        × (told p row s
            ≡ push s.emails (
                order_confirmed_email nobody
                  (("orderId", text c.order_id) ∷ ("paymentId", text c.payment_id) ∷ [])))
  unfolding dispatch resolve shown field order_confirmed_email
  confirm-told-nobody c known open_order = (
    _,
    ap (λ r. r.1.outbox) (execute_confirm-created ambient correlation_id db v c known open_order),
    taken _,
  )

  -- In consistent tables, CancelOrder for an order that is not final adds one row to the outbox. Once
  -- that row is relayed, and if the e-mail provider accepts the send, the notification consumer tells
  -- of the cancelled order at the address `nobody`.
  pub cancel-told-nobody :
      (c : CancelOrderCommandPayload)
      → stream c.order_id db ≢ []
      → is_final (v c.order_id).0.status ≡ false
      → (row : OutboxRow OrderEvent) × ((execute_cancel ambient correlation_id c db).1.outbox
          ≡ db.outbox ++ row ∷ [])
        × (told p row s
            ≡ push s.emails (
                order_cancelled_email nobody
                  (("orderId", text c.order_id) ∷ ("reason", text c.reason) ∷ [])))
  unfolding dispatch resolve shown field order_cancelled_email
  cancel-told-nobody c known open_order = (
    _,
    ap (λ r. r.1.outbox) (execute_cancel-open ambient correlation_id db v c known open_order),
    taken _,
  )
