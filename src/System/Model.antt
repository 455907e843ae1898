-- ===== src/System/Model.antt =====
-- The running system. Kafka delivers to a consumer any message that was sent to a topic it reads, at
-- any time and any number of times: redelivery, and any order between the topics and keys, is in it.
-- A service handles one message at a time, and each relay runs when its timer lets it.
use kafka_ledger_saga.Base.{ℕ, String, ◌≡◌, ◌⊎◌, List, [], ◌∷◌, ◌++◌, map, Elem, Any}
use kafka_ledger_saga.Contracts.{
  Fields, CommandEnvelope, EventEnvelope, OrderEvent, InventoryEvent, PaymentEvent,
  create_order_command, order_event_type, order_event_fields, inventory_event_type,
  inventory_event_fields, payment_event_type, payment_event_fields,
}
use kafka_ledger_saga.EventSourcing.{Ambient, Store}
use kafka_ledger_saga.Kafka.{BrokerOf}
use kafka_ledger_saga.Order
use kafka_ledger_saga.Order.{OrderDb}
use kafka_ledger_saga.Inventory.Service as Inventory
use kafka_ledger_saga.Inventory.Service.{InventoryDb}
use kafka_ledger_saga.Payment.Service as Payment
use kafka_ledger_saga.Payment.Service.{PaymentWorld}
use kafka_ledger_saga.Payment.Gateway.{PaymentGateway}
use kafka_ledger_saga.Outbox.Relay.{RelayState, RelayWorld, RelayedEvent, relay}
use kafka_ledger_saga.Saga
use kafka_ledger_saga.Saga.{SagaDb, Surroundings}

pub record System (G : Type 0) : Type 0 where
  pub requests : List (CommandEnvelope Fields)
  pub order : OrderDb
  pub order_events : BrokerOf RelayedEvent
  pub inventory : InventoryDb
  pub inventory_events : BrokerOf RelayedEvent
  pub payment : PaymentWorld G
  pub payment_events : BrokerOf RelayedEvent
  pub saga : SagaDb

module _ {E P : Type 0} (event_type : E → String) (event_fields : E → Fields) where
  -- A pass of a service's relay.
  abbrev pub relayed : RelayWorld → ℕ → Store E P → BrokerOf RelayedEvent → RelayState E
  relayed world n db broker =
      (relay event_type event_fields world n (record { rows = db.outbox; broker = broker })).1

-- The topic saga.commands.
abbrev pub commands : {G : Type 0} → System G → List (CommandEnvelope Fields)
commands s = s.requests ++ map (λ m. m.value) s.saga.broker.sent

-- The orchestrator reads the topics order.events, inventory.events and payment.events. Of an
-- envelope it looks at the type, the correlation id and the payload, which are what was relayed.
abbrev pub Reads : EventEnvelope Fields → BrokerOf RelayedEvent → Type 0
Reads e broker =
    Any
      (λ m.
        (e.type ≡ m.value.type)
        × (e.correlation_id ≡ m.value.correlation_id)
        × (e.payload ≡ m.value.payload))
      broker.sent

module _ {G : Type 0} (gateway : PaymentGateway G) where
  -- One step of one participant.
  pub data Step (s s' : System G) : Type 0 where
    -- The API gateway accepts an order.
    requested :
        (c : CommandEnvelope Fields)
        → c.type ≡ create_order_command
        → s' ≡ record s { requests = s.requests ++ c ∷ [] }
        → Step s s'
    order_handles :
        (ambient : Ambient) (c : CommandEnvelope Fields)
        → Elem c (commands s)
        → s' ≡ record s { order = (Order.dispatch ambient c s.order).1 }
        → Step s s'
    inventory_handles :
        (ambient : Ambient) (c : CommandEnvelope Fields)
        → Elem c (commands s)
        → s' ≡ record s { inventory = (Inventory.dispatch ambient c s.inventory).1 }
        → Step s s'
    payment_handles :
        (ambient : Ambient) (c : CommandEnvelope Fields)
        → Elem c (commands s)
        → s' ≡ record s { payment = (Payment.dispatch gateway ambient c s.payment).1 }
        → Step s s'
    order_relays :
        (world : RelayWorld) (n : ℕ) (r : RelayState OrderEvent)
        → r ≡ relayed order_event_type order_event_fields world n s.order s.order_events
        → s' ≡ record s { order = record s.order { outbox = r.rows }; order_events = r.broker }
        → Step s s'
    inventory_relays :
        (world : RelayWorld) (n : ℕ) (r : RelayState InventoryEvent)
        → r
          ≡ relayed inventory_event_type inventory_event_fields world n s.inventory.store
              s.inventory_events
        → s' ≡ record s {
          inventory = record s.inventory { store = record s.inventory.store { outbox = r.rows } };
          inventory_events = r.broker;
        }
        → Step s s'
    payment_relays :
        (world : RelayWorld) (n : ℕ) (r : RelayState PaymentEvent)
        → r
          ≡ relayed payment_event_type payment_event_fields world n s.payment.store s.payment_events
        → s' ≡ record s {
          payment = record s.payment { store = record s.payment.store { outbox = r.rows } };
          payment_events = r.broker;
        }
        → Step s s'
    saga_handles :
        (world : Surroundings) (e : EventEnvelope Fields)
        → Reads e s.order_events ⊎ (Reads e s.inventory_events ⊎ Reads e s.payment_events)
        → s' ≡ record s { saga = (Saga.dispatch world e s.saga).1 }
        → Step s s'

  -- Any number of steps, whoever takes them.
  pub data Steps (s : System G) : System G → Type 0 where
    done : Steps s s
    next : {t u : System G} → Steps s t → Step t u → Steps s u
