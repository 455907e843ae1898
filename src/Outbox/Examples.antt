-- ===== src/Outbox/Examples.antt =====
-- The relay on the outbox of an order service with three rows.
use kafka_ledger_saga.Base.{
  ℕ, ◌≤◌, String, ◌≡◌, refl, true, false, none, some, List, [], ◌∷◌, ◌++◌, ok, All, Elem, eqb, not,
  is_some, arith, length,
}
use kafka_ledger_saga.Contracts.{OrderEvent, order_event_type, order_event_fields}
use kafka_ledger_saga.EventSourcing.{OutboxRow}
use kafka_ledger_saga.Kafka.{BrokerOf}
use kafka_ledger_saga.Outbox.Relay.{
  RelayState, RelayWorld, RelayedEvent, message_of, relay, tick, ticks,
}
use kafka_ledger_saga.Outbox.Marks.{IsDistinct, ids}
use kafka_ledger_saga.Outbox.Delivered.{IsDelivered, ticks-IsDelivered}
use kafka_ledger_saga.Outbox.Drain.{ticks-drains}
use mathlib.Core.List.{Perm}
use kafka_ledger_saga.Base.{map, ◌⊎◌}
use kafka_ledger_saga.Outbox.Relay.{message_of}
use kafka_ledger_saga.Outbox.Oldest.{IsOldestFirst, unlocked_rows, relay-IsOldestFirst}
use kafka_ledger_saga.Outbox.Passes.{open_world, ticks-reorder}

abbrev row : String → ℕ → OrderEvent → OutboxRow OrderEvent
row id at event = record {
  id = id;
  aggregate_id = "o1";
  topic = "order.events";
  event = event;
  correlation_id = "c1";
  created_at = at;
  published_at = none;
  publish_attempts = 0;
}

abbrev created_row : OutboxRow OrderEvent
created_row = row "r1" 10 (
    OrderEvent.created
      (record { order_id = "o1"; customer_id = "u1"; items = []; total_cents = 0 }))

abbrev confirmed_row : OutboxRow OrderEvent
confirmed_row =
    row "r2" 20
      (OrderEvent.confirmed (record { order_id = "o1"; customer_id = none; payment_id = "p1" }))

abbrev other_row : OutboxRow OrderEvent
other_row = row "r3" 5 (OrderEvent.other "order.archived.v1")

abbrev silent : BrokerOf RelayedEvent
silent = record { attempts = 0; sent = [] }

abbrev waiting : RelayState OrderEvent
waiting = record { rows = created_row ∷ confirmed_row ∷ other_row ∷ []; broker = silent }

-- A tick that refuses the first send, and one whose transaction fails.
abbrev rough : List RelayWorld
rough =
    open_world 30 (λ n. not (eqb n 0))
    ∷ record { now = 31; accepts = λ _. true; locked = λ _. false; commits = false }
    ∷ []

abbrev calm : RelayWorld
calm = open_world 40 (λ _. true)

abbrev broken : RelayWorld
broken = record { now = 40; accepts = λ _. true; locked = λ _. false; commits = false }

waiting-IsDistinct : IsDistinct (ids waiting.rows)
waiting-IsDistinct = (refl, (refl, (refl, tt)))

waiting-IsDelivered : IsDelivered order_event_type order_event_fields waiting
waiting-IsDelivered = (λ e. cc, (λ e. cc, (λ e. cc, tt)))

-- The oldest row, of the archived order, was refused, so that its attempts are counted.
rough_attempts :
    (tick order_event_type order_event_fields (open_world 30 (λ n. not (eqb n 0))) waiting).rows
    ≡ record created_row { published_at = some 30 }
      ∷ record confirmed_row { published_at = some 30 }
      ∷ record other_row { publish_attempts = 1 }
      ∷ []
unfolding tick
rough_attempts = refl

ticks-IsDelivered_example :
    IsDelivered order_event_type order_event_fields
      (ticks order_event_type order_event_fields rough waiting)
ticks-IsDelivered_example =
    ticks-IsDelivered order_event_type order_event_fields rough waiting waiting-IsDistinct
      waiting-IsDelivered

ticks-drains_example :
    All
      (λ r.
        (is_some r.published_at ≡ true)
        × Elem
            (message_of order_event_type order_event_fields r)
            (ticks order_event_type order_event_fields (calm ∷ []) waiting).broker.sent)
      (ticks order_event_type order_event_fields (calm ∷ []) waiting).rows
    × (ids (ticks order_event_type order_event_fields (calm ∷ []) waiting).rows ≡ ids waiting.rows)
ticks-drains_example =
    ticks-drains order_event_type order_event_fields (calm ∷ []) waiting
      ((λ _. refl, (λ _. refl), refl), tt) waiting-IsDistinct waiting-IsDelivered (omega arith)

relay-IsOldestFirst_example :
    (batch : List (OutboxRow OrderEvent)) × (rest : List (OutboxRow OrderEvent)) × Perm
      (batch ++ rest)
      (unlocked_rows calm.locked waiting.rows)
    × IsOldestFirst (batch ++ rest)
    × (length batch ≤ 2)
    × ((rest ≡ []) ⊎ (length batch ≡ 2))
    × ((relay order_event_type order_event_fields calm 2 waiting).0 ≡ ok (length batch))
    × ((relay order_event_type order_event_fields calm 2 waiting).1.broker.sent
        ≡ [] ++ map (message_of order_event_type order_event_fields) batch)
relay-IsOldestFirst_example =
    relay-IsOldestFirst order_event_type order_event_fields calm 2 waiting (λ _. refl) refl

ticks-reorder_example :
    ((ticks order_event_type order_event_fields
        (open_world 30 (λ n. not (eqb n 0)) ∷ open_world 31 (λ n. not (eqb n 0)) ∷ [])
        (record { rows = created_row ∷ confirmed_row ∷ []; broker = silent })).broker.sent
      ≡ []
        ++ message_of order_event_type order_event_fields confirmed_row
          ∷ message_of order_event_type order_event_fields created_row
          ∷ [])
    × ◌≡◌ {A = String} "o1" "o1"
ticks-reorder_example =
    ticks-reorder order_event_type order_event_fields 30 31 (λ n. not (eqb n 0)) created_row
      confirmed_row silent refl refl refl refl refl refl refl refl
