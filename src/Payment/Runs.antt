-- ===== src/Payment/Runs.antt =====
-- Every command and every run of the payment service keeps its tables consistent.
use kafka_ledger_saga.Base.{
  List-cases, Result-cases, if_elim, ℕ, ◌+◌, String, ◌≡◌, ◌≢◌, refl, sym, subst, Bool-cases, inl,
  inr, Option, none, some, List, [], ◌∷◌, Result, length, Action, ◌>>=◌, ◌>>◌, catch, ◌==◌,
}
use kafka_ledger_saga.Contracts.{
  PaymentStatus, PaymentEvent, RefundPaymentCommandPayload, CommandEnvelope, Fields,
  authorize_payment_command, refund_payment_command, read_authorize_payment, read_refund_payment,
}
use kafka_ledger_saga.Errors.{
  Error, unique_violation, concurrency_error, order_already_finalized,
  reservation_already_finalized, payment_already_finalized, insufficient_stock, unknown_event_type,
  not_found, failure, kafka_unavailable, gateway_unavailable, malformed_payload,
}
use kafka_ledger_saga.EventSourcing.{Ambient, Uncommitted}
use kafka_ledger_saga.EventSourcing.Consistency.{
  stream, IsConsistent, with_event, load_aggregate-ConsistentAt,
}
use kafka_ledger_saga.EventSourcing.Outcomes.{
  Outcome-IsConsistent, Outcome-IsMirrored, IsMirrored, save-next,
}
use kafka_ledger_saga.Payment.Domain.{PaymentState, when, refund, is_authorized}
use kafka_ledger_saga.Payment.Gateway.{PaymentGateway}
use kafka_ledger_saga.Payment.Service.{
  PaymentWorld, PaymentStore, payment_service, save_payment, execute_refund, refund_loaded, text_or,
  ignore_finalized, save_if, dispatch, with_payload,
}
use kafka_ledger_saga.Payment.Branches.{
  IsValid, Effect, idle, updated, Effect-Outcome, execute_authorize-Effect, execute_refund-known,
  loaded_payment,
}

abbrev refund_reason : Option String
refund_reason = some "Saga compensation: a later saga step failed"

abbrev refunded_state : PaymentState → PaymentState
refunded_state s = record s { status = PaymentStatus.refunded; reason = refund_reason }

abbrev refunded_event : ℕ → String → PaymentState → Uncommitted PaymentEvent
refunded_event now id s = record {
  event = PaymentEvent.refunded (record {
    payment_id = id;
    order_id = s.order_id;
    customer_id = none;
    amount_cents = s.amount_cents;
    reason = refund_reason;
  });
  occurred_at = now;
}

module _ {G : Type 0} (gateway : PaymentGateway G) (ambient : Ambient) (correlation_id : String)
    (w : PaymentWorld G) (v : IsValid w) where
  abbrev Leads : Result Error (Unit {0}) × PaymentWorld G → Type 0
  Leads r = Effect w.store r.1.store

  -- After a throw in the try, nothing is saved.
  ignored :
      (x : Error) (w' : PaymentWorld G)
      → w'.store ≡ w.store
      → Leads (
          (ignore_finalized gateway ambient correlation_id x
              >>= save_if gateway ambient correlation_id)
            w')
  ignored unique_violation w' e = idle e
  ignored (concurrency_error _ _) w' e = idle e
  ignored (order_already_finalized _ _) w' e = idle e
  ignored (reservation_already_finalized _ _) w' e = idle e
  ignored (payment_already_finalized _ _) w' e = idle e
  ignored (insufficient_stock _ _) w' e = idle e
  ignored (unknown_event_type _) w' e = idle e
  ignored (not_found _) w' e = idle e
  ignored (failure _) w' e = idle e
  ignored kafka_unavailable w' e = idle e
  ignored gateway_unavailable w' e = idle e
  ignored (malformed_payload _) w' e = idle e

  saves_refund :
      (id : String) (w' : PaymentWorld G)
      → w'.store ≡ w.store
      → stream id w.store ≢ []
      → Leads (
          save_payment gateway ambient correlation_id 0
            (with_event id
              (refunded_state (v id).0)
              (length (stream id w.store) + 1)
              (refunded_event ambient.now id (v id).0))
            w')
  unfolding save_payment when
  saves_refund id w' same ne =
      rw
        (
          same,
          save-next payment_service ambient correlation_id id (refunded_state (v id).0) 0
              (refunded_event ambient.now id (v id).0) w.store (v id).1,
          ◌>>=◌,
          ◌>>◌,
        )
        (updated ambient correlation_id id (v id).0 (refunded_state (v id).0)
          (refunded_event ambient.now id (v id).0) ne (v id).2 (v id).3 refl refl refl)

  known-Effect :
      (c : RefundPaymentCommandPayload)
      → stream c.payment_id w.store ≢ []
      → Leads (
          refund_loaded gateway ambient correlation_id c
            (some (loaded_payment gateway ambient correlation_id w v c.payment_id))
            w)
  unfolding refund when
  known-Effect c ne =
      let psp = text_or (v c.payment_id).0.psp_reference "" in
      if_elim (λ (m : Action Error (PaymentWorld G) (Unit {0})). Leads (m w)) (psp == "")
        (idle refl)
        (elim (Result-cases
          (gateway.refund psp c.amount_cents (some "Saga compensation") w.provider).0) [
            | inr (x, e) ↦ rw (e, catch, ◌>>=◌, ◌>>◌) (ignored x _ refl)
            | inl (answer, e) ↦ elim (Bool-cases (is_authorized (v c.payment_id).0.status)) [
              | inr closed ↦ rw (e, closed, catch, ◌>>=◌, ◌>>◌) (idle refl)
              | inl held ↦ rw (e, held, catch, ◌>>=◌, ◌>>◌) (saves_refund c.payment_id _ refl ne)
            ]
          ])

  execute_refund-Effect :
      (c : RefundPaymentCommandPayload) → Leads (execute_refund gateway ambient correlation_id c w)
  unfolding execute_refund
  execute_refund-Effect c = elim (List-cases (stream c.payment_id w.store)) [
    | inl e ↦
        rw
          (
            load_aggregate-ConsistentAt when payment_service c.payment_id w.store (v c.payment_id),
            ◌>>=◌,
          )
          (rw e (idle refl))
    | inr ne ↦
        subst Leads (sym (execute_refund-known gateway ambient correlation_id w v c ne))
          (known-Effect c ne)
  ]

  with_payload-Effect :
      {P : Type 0} (t : String) (p : Option P) (f : P → Action Error (PaymentWorld G) (Unit {0}))
      → ((x : P) → Leads (f x w))
      → Leads (with_payload gateway ambient t p f w)
  with_payload-Effect t none f h = idle refl
  with_payload-Effect t (some x) f h = h x

module _ {G : Type 0} (gateway : PaymentGateway G) where
  pub dispatch-Effect :
      (ambient : Ambient) (e : CommandEnvelope Fields) (w : PaymentWorld G)
      → IsValid w
      → Effect w.store (dispatch gateway ambient e w).1.store
  unfolding dispatch
  dispatch-Effect ambient e w v =
      let Good = λ (m : Action Error (PaymentWorld G) (Unit {0})). Effect w.store (m w).1.store in
      if_elim Good (e.type == authorize_payment_command)
        (with_payload-Effect gateway ambient e.correlation_id w v e.type
          (read_authorize_payment e.payload) _
          (execute_authorize-Effect gateway ambient e.correlation_id w v))
        (if_elim Good (e.type == refund_payment_command)
          (with_payload-Effect gateway ambient e.correlation_id w v e.type
            (read_refund_payment e.payload) _
            (execute_refund-Effect gateway ambient e.correlation_id w v))
          (idle refl))

  -- A run of the consumer over a list of commands. A throw leaves the state that it reached.
  unfoldable pub run : List (Ambient × CommandEnvelope Fields) → PaymentWorld G → PaymentWorld G
  run [] w = w
  run ((ambient, e) ∷ rest) w = run rest (dispatch gateway ambient e w).1

  -- A property of the tables that every effect keeps holds after every run.
  module _ (P : PaymentStore → Type 0)
      (keep : (store store' : PaymentStore) → Effect store store' → P store → P store') where
    pub run_induction :
        (commands : List (Ambient × CommandEnvelope Fields)) (w : PaymentWorld G)
        → IsValid w
        → P w.store
        → P (run commands w).store
    unfolding run
    run_induction [] w v p = p
    run_induction ((ambient, e) ∷ rest) w v p =
        let effect = dispatch-Effect ambient e w v in
        run_induction rest (dispatch gateway ambient e w).1
          (Outcome-IsConsistent when payment_service (Effect-Outcome effect) v)
          (keep w.store (dispatch gateway ambient e w).1.store effect p)

-- With any gateway, a run of commands to the payment service leaves every payment's stream numbered
-- from 1 without a gap, its projection row showing the replayed stream, and the outbox holding the
-- events of the event store in the same order, if so at the start.
pub run-payments_recorded :
    {G : Type 0} (gateway : PaymentGateway G) (commands : List (Ambient × CommandEnvelope Fields))
    (w : PaymentWorld G)
    → IsValid w
    → IsMirrored when payment_service w.store
    → IsValid (run gateway commands w)
      × IsMirrored when payment_service (run gateway commands w).store
run-payments_recorded gateway commands w v m = (
  run_induction gateway (IsConsistent when payment_service)
      (λ _ _ effect. Outcome-IsConsistent when payment_service (Effect-Outcome effect)) commands w v
      v,
  run_induction gateway (IsMirrored when payment_service)
      (λ _ _ effect. Outcome-IsMirrored when payment_service (Effect-Outcome effect)) commands w v
      m,
)
