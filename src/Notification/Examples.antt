-- ===== src/Notification/Examples.antt =====
-- The notification consumer on events of an order and a payment.
use kafka_ledger_saga.Base.{
  ◌+◌, ◌≤◌, String, Bool, ◌==◌, eq_of_==, ◌≡◌, refl, inl, ok, true, false, none, some, [], ◌∷◌,
  ◌++◌, map, length,
}
use kafka_ledger_saga.Contracts.{OrderEvent, OrderStatus, text}
use kafka_ledger_saga.EventSourcing.{Ambient, OutboxRow, replay, find_one}
use kafka_ledger_saga.EventSourcing.Consistency.{ConsistentAt}
use kafka_ledger_saga.Kafka.{ConsumerState, KafkaMessage}
use kafka_ledger_saga.Order.Service.{OrderDb, order_service, project, execute_confirm}
use kafka_ledger_saga.Order.Domain.{OrderState, when, blank_state}
use kafka_ledger_saga.Order.Branches.{IsValid}
use kafka_ledger_saga.Notification.Channels.{Providers, Sent, push, order_confirmed_email}
use kafka_ledger_saga.Notification.Consumer.{Body, unparseable, envelope, each_message, run}
use kafka_ledger_saga.Notification.Sends.{each_message-commits, run-IsMail, run-blocked}
use kafka_ledger_saga.Notification.Contacts.{nobody, told, confirm-told-nobody}

abbrev working : Providers
working = record { email_accepts = λ _. true; sms_accepts = λ _. true }

abbrev broken : Providers
broken = record { email_accepts = λ _. false; sms_accepts = λ _. false }

abbrev declined : KafkaMessage Body
declined = record {
  offset = 4;
  value = some (
      envelope (record {
        id = "e1";
        type = "payment.declined.v1";
        correlation_id = "c1";
        aggregate_id = "p1";
        payload = ("orderId", text "order-1") ∷ ("reason", text "no funds") ∷ [];
      }));
}

abbrev garbage : KafkaMessage Body
garbage = record { offset = 5; value = some unparseable }

abbrev quiet : Sent
quiet = record { tries = 0; emails = []; texts = [] }

abbrev start : ConsumerState Sent
start = record { tables = quiet; committed = none }

each_message-commits_example :
    ((each_message broken declined start).0 ≡ ok tt)
    × ((each_message broken declined start).1.committed ≡ some 5)
each_message-commits_example = each_message-commits broken declined start _ refl

run-IsMail_example :
    ((run ((working, declined) ∷ (working, garbage) ∷ []) start).tables.texts ≡ [])
    × (length (run ((working, declined) ∷ (working, garbage) ∷ []) start).tables.emails ≤ 0 + 2)
run-IsMail_example = run-IsMail ((working, declined) ∷ (working, garbage) ∷ []) start

run-blocked_example : run (map (λ p. (p, garbage)) (working ∷ working ∷ [])) start ≡ start
run-blocked_example = run-blocked garbage (working ∷ working ∷ []) start (inl refl)

-- An order service with one order, which is CREATED.
abbrev ambient : Ambient
ambient = record { now = 7; uuid = λ _. "uuid" }

abbrev open_state : OrderState
open_state = record blank_state { status = OrderStatus.created; customer_id = "customer-1" }

abbrev open_orders : OrderDb
open_orders = record {
  events =
      record {
        aggregate_id = "order-1";
        aggregate_type = "Order";
        sequence = 1;
        event = OrderEvent.created (record {
          order_id = "order-1";
          customer_id = "customer-1";
          items = [];
          total_cents = 0;
        });
        occurred_at = 6;
        correlation_id = "c1";
      }
      ∷ [];
  outbox = [];
  projection = ("order-1", project "order-1" open_state 1) ∷ [];
}

open_orders_at :
    (id : String) (b : Bool)
    → ("order-1" == id) ≡ b
    → ConsistentAt when order_service id open_orders
unfolding replay find_one when
open_orders_at id true e = rw e (open_state, (refl, tt), refl, rw (eq_of_== "order-1" id e) refl)
open_orders_at id false e = rw e (blank_state, tt, refl, refl)

open_orders-IsValid : IsValid open_orders
open_orders-IsValid id = open_orders_at id ("order-1" == id) refl

confirm-told-nobody_example :
    (row : OutboxRow OrderEvent) × ((execute_confirm ambient "c1"
        (record { order_id = "order-1"; payment_id = "p1" })
        open_orders).1.outbox
      ≡ [] ++ row ∷ [])
    × (told working row quiet
        ≡ push [] (
            order_confirmed_email nobody
              (("orderId", text "order-1") ∷ ("paymentId", text "p1") ∷ [])))
unfolding open_orders-IsValid open_orders_at
confirm-told-nobody_example =
    confirm-told-nobody ambient "c1" open_orders open_orders-IsValid working quiet refl
      (record { order_id = "order-1"; payment_id = "p1" }) (λ e. cc) refl
