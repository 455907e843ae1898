-- ===== src/Payment/Examples.antt =====
-- The payment service with the mock gateway on a few commands.
use kafka_ledger_saga.Base.{
  ℕ, String, ◌≡◌, refl, arith, Bool, true, false, none, some, List, [], ◌∷◌, ◌++◌, ok, ap, eq_of_==,
  ◌==◌,
}
use kafka_ledger_saga.Contracts.{
  PaymentEvent, PaymentStatus, CommandEnvelope, Fields, text, number, authorize_payment_command,
  refund_payment_command, RefundPaymentCommandPayload,
}
use kafka_ledger_saga.EventSourcing.{Ambient, StoredEvent, replay, find_one}
use kafka_ledger_saga.EventSourcing.Consistency.{ConsistentAt}
use kafka_ledger_saga.EventSourcing.Outcomes.{IsMirrored}
use kafka_ledger_saga.Payment.Domain.{PaymentState, blank_state, when}
use kafka_ledger_saga.Payment.Gateway.{PaymentGateway, mock_stripe_adapter}
use kafka_ledger_saga.Payment.Service.{
  PaymentWorld, payment_service, project, refund_call, execute_refund,
}
use kafka_ledger_saga.Payment.Branches.{IsValid, execute_refund-again}
use kafka_ledger_saga.Payment.Runs.{run, run-payments_recorded}
use kafka_ledger_saga.Payment.Once.{IsPaidOnce, run-IsPaidOnce}

abbrev ambient : Ambient
ambient = record { now = 7; uuid = λ _. "uuid" }

abbrev mock : PaymentGateway ℕ
mock = mock_stripe_adapter (λ _. "uuid")

abbrev command : String → Fields → CommandEnvelope Fields
command t payload = record {
  id = "command";
  type = t;
  version = 1;
  correlation_id = "correlation";
  causation_id = none;
  issued_at = 7;
  payload = payload;
}

abbrev authorize_it : CommandEnvelope Fields
authorize_it = command authorize_payment_command (
    ("orderId", text "order-1")
    ∷ ("customerId", text "customer-1")
    ∷ ("amountCents", number 100)
    ∷ [])

abbrev refund_it : CommandEnvelope Fields
refund_it =
    command refund_payment_command
      (("orderId", text "order-1") ∷ ("paymentId", text "uuid") ∷ ("amountCents", number 100) ∷ [])

abbrev commands : List (Ambient × CommandEnvelope Fields)
commands =
    (ambient, authorize_it)
    ∷ (ambient, authorize_it)
    ∷ (ambient, refund_it)
    ∷ (ambient, refund_it)
    ∷ []

abbrev no_payments : PaymentWorld ℕ
no_payments = record {
  store = record { events = []; outbox = []; projection = [] };
  provider = 0;
  calls = [];
}

no_payments-IsValid : IsValid no_payments
unfolding replay find_one
no_payments-IsValid id = (blank_state, tt, refl, refl)

run-IsPaidOnce_example : IsPaidOnce (run mock commands no_payments).store
run-IsPaidOnce_example =
    run-IsPaidOnce mock commands no_payments no_payments-IsValid (λ order_id. omega arith)

run-payments_recorded_example :
    IsValid (run mock commands no_payments)
    × IsMirrored when payment_service (run mock commands no_payments).store
run-payments_recorded_example =
    run-payments_recorded mock commands no_payments no_payments-IsValid refl

-- A payment that was authorized and refunded.
abbrev row : ℕ → PaymentEvent → StoredEvent PaymentEvent
row sequence event = record {
  aggregate_id = "payment-1";
  aggregate_type = "Payment";
  sequence = sequence;
  event = event;
  occurred_at = 7;
  correlation_id = "correlation";
}

abbrev refunded : PaymentState
refunded = record {
  status = PaymentStatus.refunded;
  order_id = "order-1";
  customer_id = none;
  amount_cents = 100;
  psp_reference = some "pi-1";
  decline_code = none;
  reason = none;
}

abbrev refunded_world : PaymentWorld ℕ
refunded_world = record {
  store = record {
    events =
        row 1 (
          PaymentEvent.authorized (record {
            payment_id = "payment-1";
            order_id = "order-1";
            amount_cents = 100;
            psp_reference = "pi-1";
          }))
        ∷ row 2 (
            PaymentEvent.refunded (record {
              payment_id = "payment-1";
              order_id = "order-1";
              customer_id = none;
              amount_cents = 100;
              reason = none;
            }))
        ∷ [];
    outbox = [];
    projection = ("payment-1", project "payment-1" refunded 2) ∷ [];
  };
  provider = 0;
  calls = [];
}

unfoldable refunded_at :
    (id : String) (b : Bool)
    → ("payment-1" == id) ≡ b
    → ConsistentAt when payment_service id refunded_world.store
unfolding replay find_one when
refunded_at id true e = (
  refunded,
  rw e (refl, (refl, tt)),
  rw e refl,
  rw e (ap (λ k. some (project k refunded 2)) (eq_of_== "payment-1" id e)),
)
refunded_at id false e = (blank_state, rw e tt, rw e refl, rw e refl)

abbrev refunded-IsValid : IsValid refunded_world
unfolding refunded_at
refunded-IsValid id = refunded_at id ("payment-1" == id) refl

abbrev refund_payload : RefundPaymentCommandPayload
refund_payload = record { order_id = "order-1"; payment_id = "payment-1"; amount_cents = 100 }

execute_refund-again_example :
    execute_refund mock ambient "correlation" refund_payload refunded_world
    ≡ (ok tt, record refunded_world { provider = 1; calls = [] ++ refund_call "pi-1" 100 ∷ [] })
unfolding refunded_at
execute_refund-again_example =
    execute_refund-again mock ambient "correlation" refunded_world refunded-IsValid refund_payload
      "pi-1" (record { refund_id = "mock_re_uuid" }) 1 (λ e. cc) refl refl refl refl
