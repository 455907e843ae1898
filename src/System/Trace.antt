-- ===== src/System/Trace.antt =====
-- Why each command and each outcome came about: what the invariant of the running system says.
use kafka_ledger_saga.Base.{String, ◌≡◌, ◌∙◌, inl, inr, true, some, List, [], ◌∷◌, Result, All, Any}
use kafka_ledger_saga.Contracts.{
  Fields, text, field, EventEnvelope, CommandEnvelope, OrderEvent, order_event_type,
  order_event_fields, inventory_event_type, inventory_event_fields, payment_event_type,
  payment_event_fields, create_order_command, confirm_order_command, cancel_order_command,
}
use kafka_ledger_saga.Errors.{Error}
use kafka_ledger_saga.EventSourcing.{StoredEvent, Service}
use kafka_ledger_saga.Kafka.{MessageOf}
use kafka_ledger_saga.Order.Domain as Order
use kafka_ledger_saga.Order.Service.{order_service}
use kafka_ledger_saga.Order.Causes.{is_confirmed, is_cancelled}
use kafka_ledger_saga.Inventory.Domain as Inventory
use kafka_ledger_saga.Inventory.Service.{inventory_service}
use kafka_ledger_saga.Payment.Domain as Payment
use kafka_ledger_saga.Payment.Service.{payment_service}
use kafka_ledger_saga.Outbox.Relay.{RelayedEvent}
use kafka_ledger_saga.Outbox.Sources.{Publishes, TellsOf}
use kafka_ledger_saga.Saga.Machine.{SagaInstanceEntity, find_by_id}
use kafka_ledger_saga.Saga.Changes.{IsSound}
use kafka_ledger_saga.System.Model.{System}
use kafka_ledger_saga.System.Facts.{HasPaid, HasReserved, HasFailed}

module _ {G : Type 0} where
  abbrev pub Confirms : System G → CommandEnvelope Fields → Type 0
  Confirms s c =
      c.type ≡ confirm_order_command
      → (id : String) → field "orderId" c.payload ≡ text id
      → HasPaid id s × HasReserved id s

  abbrev pub Cancels : System G → CommandEnvelope Fields → Type 0
  Cancels s c =
      c.type ≡ cancel_order_command
      → (id : String) → field "orderId" c.payload ≡ text id
      → HasFailed id s

  abbrev pub Confirmed : System G → StoredEvent OrderEvent → Type 0
  Confirmed s r =
      is_confirmed r.event ≡ true → HasPaid r.aggregate_id s × HasReserved r.aggregate_id s

  abbrev pub Cancelled : System G → StoredEvent OrderEvent → Type 0
  Cancelled s r = is_cancelled r.event ≡ true → HasFailed r.aggregate_id s

  pub record IsTraced (s : System G) : Type 0 where
    pub order :
        Publishes Order.when order_service order_event_type order_event_fields s.order
          s.order_events.sent
    pub inventory :
        Publishes Inventory.when inventory_service inventory_event_type inventory_event_fields
          s.inventory.store s.inventory_events.sent
    pub payment :
        Publishes Payment.when payment_service payment_event_type payment_event_fields
          s.payment.store s.payment_events.sent
    pub sagas : IsSound s.saga
    -- The gateway sends nothing but CreateOrder.
    pub requests : All (λ c. c.type ≡ create_order_command) s.requests
    -- The payment is asked for when the stock is reserved.
    pub at_payment :
        (id : String) (row : SagaInstanceEntity)
        → find_by_id id s.saga ≡ some row
        → row.snapshot.current_step_index ≡ 1
        → HasReserved id s
    pub confirms : All (λ m. Confirms s m.value) s.saga.broker.sent
    pub cancels : All (λ m. Cancels s m.value) s.saga.broker.sent
    pub confirmed : All (Confirmed s) s.order.events
    pub cancelled : All (Cancelled s) s.order.events

-- An event that was read, in the event store of the service that it came from.
module _ {E : Type 0} (event_type : E → String) (event_fields : E → Fields)
    (e : EventEnvelope Fields) where
  abbrev pub Says : StoredEvent E → Type 0
  Says r = (e.type ≡ event_type r.event) × (e.payload ≡ event_fields r.event)

module _ {E S P : Type 0} (when : E → S → Result Error S) (service : Service S P)
    (event_type : E → String) (event_fields : E → Fields) (e : EventEnvelope Fields) where
  said :
      (events : List (StoredEvent E)) (m : MessageOf RelayedEvent)
      → e.type ≡ m.value.type
      → e.payload ≡ m.value.payload
      → TellsOf when service event_type event_fields events m
      → Any (Says event_type event_fields e) events
  said [] m t p h = absurd h
  said (r ∷ events) m t p (inl (u, q)) = inl (t ∙ u, p ∙ q)
  said (r ∷ events) m t p (inr h) = inr (said events m t p h)

  pub heard :
      (events : List (StoredEvent E)) (sent : List (MessageOf RelayedEvent))
      → All (TellsOf when service event_type event_fields events) sent
      → Any
          (λ m.
            (e.type ≡ m.value.type)
            × (e.correlation_id ≡ m.value.correlation_id)
            × (e.payload ≡ m.value.payload))
          sent
      → Any (Says event_type event_fields e) events
  heard events [] h k = absurd k
  heard events (m ∷ sent) (p, h) (inl (t, _, q)) = said events m t q p
  heard events (m ∷ sent) (p, h) (inr k) = heard events sent h k
