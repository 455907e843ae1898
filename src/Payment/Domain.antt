-- ===== src/Payment/Domain.antt =====
-- apps/payment-service/src/domain/payment.aggregate.ts
use kafka_ledger_saga.Base.{
  ℕ, String, Bool, true, false, Option, none, some, Result, ok, err, if◌then◌else◌, not,
}
use kafka_ledger_saga.Contracts.{PaymentStatus, PaymentEvent}
use kafka_ledger_saga.Errors.{Error, payment_already_finalized, unknown_event_type}
use kafka_ledger_saga.EventSourcing.{AggregateRoot, new_aggregate, apply}

pub record PaymentState : Type 0 where
  pub status : PaymentStatus
  pub order_id : String
  pub customer_id : Option String
  pub amount_cents : ℕ
  pub psp_reference : Option String
  pub decline_code : Option String
  pub reason : Option String

abbrev pub PaymentAggregate : Type 0
PaymentAggregate = AggregateRoot PaymentEvent PaymentState

abbrev pub blank_state : PaymentState
blank_state = record {
  status = PaymentStatus.uninitialized;
  order_id = "";
  customer_id = none;
  amount_cents = 0;
  psp_reference = none;
  decline_code = none;
  reason = none;
}

abbrev pub is_authorized : PaymentStatus → Bool
is_authorized PaymentStatus.authorized = true
is_authorized _ = false

-- `a ?? b`
abbrev pub or_else : Option String → Option String → Option String
or_else none b = b
or_else (some a) b = some a

unfoldable pub when : PaymentEvent → PaymentState → Result Error PaymentState
when (PaymentEvent.authorized p) s = ok (record s {
  status = PaymentStatus.authorized;
  order_id = p.order_id;
  amount_cents = p.amount_cents;
  psp_reference = some p.psp_reference;
})
when (PaymentEvent.declined p) s = ok (record s {
  status = PaymentStatus.declined;
  order_id = p.order_id;
  decline_code = some p.decline_code;
  reason = some p.reason;
})
when (PaymentEvent.refunded p) s =
    ok (record s { status = PaymentStatus.refunded; reason = or_else p.reason s.reason })
when (PaymentEvent.other t) s = err (unknown_event_type t)

-- `PaymentAggregate.authorize`. The customer is not stored.
unfoldable pub authorize : ℕ → String → String → String → ℕ → String → Result Error PaymentAggregate
unfolding when apply
authorize now payment_id order_id customer_id amount_cents psp_reference =
    apply when now
      (PaymentEvent.authorized (record {
        payment_id = payment_id;
        order_id = order_id;
        amount_cents = amount_cents;
        psp_reference = psp_reference;
      }))
      (new_aggregate payment_id blank_state)

-- `PaymentAggregate.decline`
unfoldable pub decline : ℕ → String → String → String → String → Result Error PaymentAggregate
unfolding when apply
decline now payment_id order_id decline_code reason =
    apply when now
      (PaymentEvent.declined (record {
        payment_id = payment_id;
        order_id = order_id;
        customer_id = none;
        decline_code = decline_code;
        reason = reason;
      }))
      (new_aggregate payment_id blank_state)

unfoldable pub refund : ℕ → Option String → PaymentAggregate → Result Error PaymentAggregate
unfolding when apply
refund now reason a =
    if not (is_authorized a.state.status)
    then err (payment_already_finalized a.id a.state.status)
    else apply when now
        (PaymentEvent.refunded (record {
          payment_id = a.id;
          order_id = a.state.order_id;
          customer_id = none;
          amount_cents = a.state.amount_cents;
          reason = reason;
        }))
        a
