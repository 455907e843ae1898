-- ===== src/System/Examples/Walk.antt =====
-- The steps of one order through the whole system, with the mock gateway.
use kafka_ledger_saga.Base.{
  ℕ, String, ◌≡◌, refl, sym, subst, inl, inr, true, none, List, [], ◌∷◌, ◌++◌, map, any, Elem,
}
use kafka_ledger_saga.Base.Int.{pos}
use kafka_ledger_saga.Contracts.{
  Fields, text, items, CommandEnvelope, EventEnvelope, create_order_command, order_event_type,
  order_event_fields, inventory_event_type, inventory_event_fields, payment_event_type,
  payment_event_fields,
}
use kafka_ledger_saga.EventSourcing.{Ambient}
use kafka_ledger_saga.Kafka.{BrokerOf, MessageOf}
use kafka_ledger_saga.Order
use kafka_ledger_saga.Inventory.Service as Inventory
use kafka_ledger_saga.Payment.Service as Payment
use kafka_ledger_saga.Payment.Gateway.{PaymentGateway, mock_stripe_adapter}
use kafka_ledger_saga.Inventory.Stock.{StockTable}
use kafka_ledger_saga.Outbox.Relay.{RelayWorld, RelayedEvent}
use kafka_ledger_saga.Outbox.Passes.{open_world}
use kafka_ledger_saga.Saga
use kafka_ledger_saga.System.Model.{
  System, Steps, relayed, commands, Reads, requested, order_handles, inventory_handles,
  payment_handles, order_relays, inventory_relays, payment_relays, saga_handles, done, next,
}
use kafka_ledger_saga.System.Safety.{fresh}

abbrev pub ambient : Ambient
ambient = record { now = 7; uuid = λ _. "uuid" }

abbrev pub world : Saga.Surroundings
world = record { now = 7; uuid = λ _. "command"; accepts = λ _. true }

abbrev pub mock : PaymentGateway ℕ
mock = mock_stripe_adapter (λ _. "uuid")

abbrev pub calm : RelayWorld
calm = open_world 8 (λ _. true)

abbrev pub create : String → CommandEnvelope Fields
create customer_id = record {
  id = "command";
  type = create_order_command;
  version = 1;
  correlation_id = "c1";
  causation_id = none;
  issued_at = 7;
  payload =
      ("orderId", text "order-1")
      ∷ ("customerId", text customer_id)
      ∷ ("items", items (record { sku = "sku-1"; qty = 2; unit_price_cents = 50 } ∷ []))
      ∷ [];
}

abbrev pub stock : StockTable
stock = ("sku-1", record { qty_available = pos 5; qty_reserved = pos 0 }) ∷ []

-- The last of the list, or what stands before it.
abbrev pub last_or {ℓ} : {A : Type ℓ} → A → List A → A
last_or d [] = d
last_or d (x ∷ xs) = last_or x xs

last_or-Elem : {A : Type 0} (d : A) (xs : List A) → Elem (last_or d xs) (d ∷ xs)
last_or-Elem d [] = inl refl
last_or-Elem d (x ∷ xs) = inr (last_or-Elem x xs)

-- What a consumer reads of the last message of a topic.
abbrev pub envelope_of : MessageOf RelayedEvent → EventEnvelope Fields
envelope_of m = record {
  id = m.value.id;
  type = m.value.type;
  version = 1;
  aggregate_id = m.value.aggregate_id;
  sequence = 1;
  occurred_at = 7;
  correlation_id = m.value.correlation_id;
  causation_id = none;
  payload = m.value.payload;
}

abbrev pub unsent : EventEnvelope Fields
unsent = record {
  id = "";
  type = "";
  version = 1;
  aggregate_id = "";
  sequence = 1;
  occurred_at = 7;
  correlation_id = "";
  causation_id = none;
  payload = [];
}

abbrev pub last_event : List (MessageOf RelayedEvent) → EventEnvelope Fields
last_event [] = unsent
last_event (m ∷ ms) = envelope_of (last_or m ms)

last_or-read :
    (m : MessageOf RelayedEvent) (ms : List (MessageOf RelayedEvent)) (n : ℕ)
    → Reads (envelope_of (last_or m ms)) (record { attempts = n; sent = m ∷ ms })
last_or-read m [] n = inl (refl, refl, refl)
last_or-read m (x ∷ xs) n = inr (last_or-read x xs n)

last_event-read :
    (b : BrokerOf RelayedEvent) (ms : List (MessageOf RelayedEvent))
    → b.sent ≡ ms
    → any (λ _. true) ms ≡ true
    → Reads (last_event ms) (record { attempts = b.attempts; sent = ms })
last_event-read b [] e h = cc
last_event-read b (m ∷ ms) e h = last_or-read m ms b.attempts

module _ (customer_id : String) where
  abbrev last_command : System ℕ → CommandEnvelope Fields
  last_command s = last_or (create customer_id) (map (λ m. m.value) s.saga.broker.sent)

  abbrev ask_order : System ℕ → System ℕ
  ask_order s = record s { order = (Order.dispatch ambient (last_command s) s.order).1 }

  abbrev ask_inventory : System ℕ → System ℕ
  ask_inventory s = record s {
    inventory = (Inventory.dispatch ambient (last_command s) s.inventory).1;
  }

  abbrev ask_payment : System ℕ → System ℕ
  ask_payment s = record s {
    payment = (Payment.dispatch mock ambient (last_command s) s.payment).1;
  }

abbrev pub tell_order : System ℕ → System ℕ
tell_order s =
    let r = relayed order_event_type order_event_fields calm 100 s.order s.order_events in
    record s { order = record s.order { outbox = r.rows }; order_events = r.broker }

abbrev pub tell_inventory : System ℕ → System ℕ
tell_inventory s =
    let r =
      relayed inventory_event_type inventory_event_fields calm 100 s.inventory.store
        s.inventory_events in
    record s {
      inventory = record s.inventory { store = record s.inventory.store { outbox = r.rows } };
      inventory_events = r.broker;
    }

abbrev pub tell_payment : System ℕ → System ℕ
tell_payment s =
    let r =
      relayed payment_event_type payment_event_fields calm 100 s.payment.store s.payment_events in
    record s {
      payment = record s.payment { store = record s.payment.store { outbox = r.rows } };
      payment_events = r.broker;
    }

abbrev pub hear : BrokerOf RelayedEvent → System ℕ → System ℕ
hear b s = record s { saga = (Saga.dispatch world (last_event b.sent) s.saga).1 }

abbrev pub hear_order : System ℕ → System ℕ
hear_order s = hear s.order_events s

abbrev pub hear_inventory : System ℕ → System ℕ
hear_inventory s = hear s.inventory_events s

abbrev pub hear_payment : System ℕ → System ℕ
hear_payment s = hear s.payment_events s

abbrev pub asked : String → System ℕ
asked c = record (fresh 0 stock) { requests = create c ∷ [] }

abbrev pub created : String → System ℕ
created c = tell_order (ask_order c (asked c))

abbrev pub reserved : String → System ℕ
reserved c = tell_inventory (ask_inventory c (hear_order (created c)))

abbrev pub paid : String → System ℕ
paid c = tell_payment (ask_payment c (hear_inventory (reserved c)))

abbrev pub ended : String → System ℕ
ended c = ask_order c (hear_payment (paid c))

-- The eleven steps: the order is requested, created, announced and heard of, and so on.
module _ (c : String) where
  handle_last : (s : System ℕ) → s.requests ≡ create c ∷ [] → Elem (last_command c s) (commands s)
  handle_last s e =
      subst (λ rs. Elem (last_command c s) (rs ++ map (λ m. m.value) s.saga.broker.sent)) (sym e)
        (last_or-Elem (create c) (map (λ m. m.value) s.saga.broker.sent))

  to_created : Steps mock (fresh 0 stock) (created c)
  to_created =
      next
        (next (next done (requested (create c) refl refl))
          (order_handles ambient (last_command c (asked c)) (handle_last (asked c) refl) refl))
        (order_relays calm 100 _ refl refl)

  to_reserved :
      any (λ _. true) (created c).order_events.sent ≡ true → Steps mock (fresh 0 stock) (reserved c)
  to_reserved told =
      next
        (next
          (next to_created (
            saga_handles world _
              (inl
                (last_event-read (created c).order_events (created c).order_events.sent refl told))
              refl))
          (inventory_handles ambient _ (handle_last (hear_order (created c)) refl) refl))
        (inventory_relays calm 100 _ refl refl)

  to_paid :
      any (λ _. true) (created c).order_events.sent ≡ true
      → any (λ _. true) (reserved c).inventory_events.sent ≡ true
      → Steps mock (fresh 0 stock) (paid c)
  to_paid told told' =
      next
        (next
          (next (to_reserved told) (
            saga_handles world _
              (inr (
                inl (
                  last_event-read (reserved c).inventory_events (reserved c).inventory_events.sent
                    refl told')))
              refl))
          (payment_handles ambient _ (handle_last (hear_inventory (reserved c)) refl) refl))
        (payment_relays calm 100 _ refl refl)

  pub to_ended :
      any (λ _. true) (created c).order_events.sent ≡ true
      → any (λ _. true) (reserved c).inventory_events.sent ≡ true
      → any (λ _. true) (paid c).payment_events.sent ≡ true
      → Steps mock (fresh 0 stock) (ended c)
  to_ended told told' told'' =
      next
        (next (to_paid told told') (
          saga_handles world _
            (inr (
              inr
                (last_event-read (paid c).payment_events (paid c).payment_events.sent refl told'')))
            refl))
        (order_handles ambient _ (handle_last (hear_payment (paid c)) refl) refl)
