-- ===== src/Payment/Branches.antt =====
-- What each command handler of the payment service may do, where its tables are consistent.
use kafka_ledger_saga.Base.{
  List-cases, Option-cases, Result-cases, ℕ, ◌+◌, String, ◌≡◌, ◌≢◌, refl, sym, subst, false,
  Bool-cases, inl, inr, none, some, [], ◌∷◌, ◌++◌, Result, ok, length, ◌>>=◌, ◌>>◌, catch, ◌==◌,
}
use kafka_ledger_saga.Contracts.{
  PaymentStatus, PaymentEvent, AuthorizePaymentCommandPayload, RefundPaymentCommandPayload,
}
use kafka_ledger_saga.Errors.{Error}
use kafka_ledger_saga.EventSourcing.{Ambient, Uncommitted, find_one, replay}
use kafka_ledger_saga.EventSourcing.Consistency.{
  stream, loaded-some, IsConsistent, projected, saved, with_event, load_aggregate-ConsistentAt,
}
use kafka_ledger_saga.EventSourcing.Outcomes.{Outcome, kept, appended, save-next, save-first_taken}
use kafka_ledger_saga.Payment.Domain.{
  PaymentState, PaymentAggregate, blank_state, when, authorize, decline, refund, is_authorized,
}
use kafka_ledger_saga.Payment.Gateway.{PaymentGateway, AuthorizeResult, RefundResult}
use kafka_ledger_saga.Payment.Service.{
  PaymentWorld, PaymentStore, refund_call, payment_service, find_by_order_id, save_payment,
  of_result, authorize_params, execute_authorize, execute_refund, authorize_unless, refund_loaded,
  text_or,
}

abbrev pub IsValid : {G : Type 0} → PaymentWorld G → Type 0
IsValid w = IsConsistent when payment_service w.store

abbrev authorized_state : AuthorizePaymentCommandPayload → AuthorizeResult → PaymentState
authorized_state c result = record blank_state {
  status = PaymentStatus.authorized;
  order_id = c.order_id;
  amount_cents = c.amount_cents;
  psp_reference = some (text_or result.psp_reference "");
}

abbrev authorized_event :
    ℕ → String → AuthorizePaymentCommandPayload → AuthorizeResult → Uncommitted PaymentEvent
authorized_event now id c result = record {
  event = PaymentEvent.authorized (record {
    payment_id = id;
    order_id = c.order_id;
    amount_cents = c.amount_cents;
    psp_reference = text_or result.psp_reference "";
  });
  occurred_at = now;
}

abbrev declined_state : AuthorizePaymentCommandPayload → AuthorizeResult → PaymentState
declined_state c result = record blank_state {
  status = PaymentStatus.declined;
  order_id = c.order_id;
  decline_code = some (text_or result.decline_code "unknown");
  reason = some (text_or result.reason "Payment declined");
}

abbrev declined_event :
    ℕ → String → AuthorizePaymentCommandPayload → AuthorizeResult → Uncommitted PaymentEvent
declined_event now id c result = record {
  event = PaymentEvent.declined (record {
    payment_id = id;
    order_id = c.order_id;
    customer_id = none;
    decline_code = text_or result.decline_code "unknown";
    reason = text_or result.reason "Payment declined";
  });
  occurred_at = now;
}

-- A command changes no table, opens the one payment of an order, or goes on with a payment.
pub data Effect (store store' : PaymentStore) : Type 0 where
  idle : store' ≡ store → Effect store store'
  opened :
      (ambient : Ambient) (correlation_id id : String) (s : PaymentState)
      (u : Uncommitted PaymentEvent)
      → stream id store ≡ []
      → when u.event blank_state ≡ ok s
      → find_by_order_id s.order_id store.projection ≡ none
      → store' ≡ saved payment_service ambient correlation_id id s 1 1 u store
      → Effect store store'
  updated :
      (ambient : Ambient) (correlation_id id : String) (s s' : PaymentState)
      (u : Uncommitted PaymentEvent)
      → stream id store ≢ []
      → replay when payment_service.blank (stream id store) ≡ ok s
      → find_one id store.projection ≡ projected when payment_service id s (stream id store)
      → when u.event s ≡ ok s'
      → s'.order_id ≡ s.order_id
      → store'
        ≡ saved payment_service ambient correlation_id id s'
            (length (stream id store) + 1)
            0
            u
            store
      → Effect store store'

pub Effect-Outcome :
    {store store' : PaymentStore} → Effect store store' → Outcome when payment_service store store'
unfolding replay
Effect-Outcome (idle e) = kept e
Effect-Outcome {store} (opened ambient cid id s u e w _ h) =
    appended ambient cid id blank_state s 1 u (rw e refl) w (rw e h)
Effect-Outcome (updated ambient cid id s s' u _ r _ w _ h) = appended ambient cid id s s' 0 u r w h

module _ {G : Type 0} (gateway : PaymentGateway G) (ambient : Ambient)
    (correlation_id : String) where
  -- The aggregate of the gateway's answer has one event, for the command's order.
  of_result-new :
      (c : AuthorizePaymentCommandPayload) (id : String) (result : AuthorizeResult)
      → (s : PaymentState) × (u : Uncommitted PaymentEvent) × (of_result gateway ambient
            correlation_id c id result
          ≡ ok (with_event id s 1 u))
        × (when u.event blank_state ≡ ok s)
        × (s.order_id ≡ c.order_id)
  unfolding when authorize decline
  of_result-new c id result = elim (Bool-cases result.success) [
    | inl e ↦
        (authorized_state c result, authorized_event ambient.now id c result, rw e refl, refl, refl)
    | inr e ↦
        (declined_state c result, declined_event ambient.now id c result, rw e refl, refl, refl)
  ]

  module _ (w : PaymentWorld G) (v : IsValid w) where
    abbrev Leads : Result Error (Unit {0}) × PaymentWorld G → Type 0
    Leads r = Effect w.store r.1.store

    -- The save of a new payment: it is opened, or its id is taken and nothing is stored.
    saves_new :
        (id : String) (s : PaymentState) (u : Uncommitted PaymentEvent) (w' : PaymentWorld G)
        → w'.store ≡ w.store
        → when u.event blank_state ≡ ok s
        → find_by_order_id s.order_id w.store.projection ≡ none
        → Leads (save_payment gateway ambient correlation_id 1 (with_event id s 1 u) w')
    unfolding save_payment
    saves_new id s u w' same next free = elim (List-cases (stream id w.store)) [
      | inl e ↦
          rw
            (
              same,
              rw e at (save-next payment_service ambient correlation_id id s 1 u w.store (v id).1),
              ◌>>=◌,
              ◌>>◌,
            )
            (opened ambient correlation_id id s u e next free refl)
      | inr ne ↦
          rw
            (
              same,
              save-first_taken payment_service ambient correlation_id id s 1 u w.store (v id).1 ne,
              ◌>>=◌,
              ◌>>◌,
            )
            (idle refl)
    ]

    unless-Effect :
        (c : AuthorizePaymentCommandPayload)
        → find_by_order_id c.order_id w.store.projection ≡ none
        → Leads (authorize_unless gateway ambient correlation_id none c w)
    unless-Effect c free =
        elim (Result-cases
          (gateway.authorize (authorize_params gateway ambient correlation_id c) w.provider).0) [
            | inr (x, e) ↦ rw e (idle refl)
            | inl (result, e) ↦
                let (s, u, made, next, same_order) = of_result-new c (ambient.uuid 0) result in
                rw e (
                  rw made (
                    saves_new (ambient.uuid 0) s u _ refl next (
                      subst (λ k. find_by_order_id k w.store.projection ≡ none) (sym same_order)
                        free)))
          ]

    pub execute_authorize-Effect :
        (c : AuthorizePaymentCommandPayload)
        → Leads (execute_authorize gateway ambient correlation_id c w)
    unfolding execute_authorize
    execute_authorize-Effect c =
        elim (Option-cases (find_by_order_id c.order_id w.store.projection)) [
          | inr (row, e) ↦ rw e (idle refl)
          | inl e ↦ rw e (unless-Effect c e)
        ]

    abbrev pub loaded_payment : String → PaymentAggregate
    loaded_payment id = record {
      id = id;
      state = (v id).0;
      version = length (stream id w.store);
      uncommitted_events = [];
    }

    pub execute_refund-known :
        (c : RefundPaymentCommandPayload)
        → stream c.payment_id w.store ≢ []
        → execute_refund gateway ambient correlation_id c w
          ≡ refund_loaded gateway ambient correlation_id c (some (loaded_payment c.payment_id)) w
    unfolding execute_refund
    execute_refund-known c ne =
        rw
          (
            load_aggregate-ConsistentAt when payment_service c.payment_id w.store (v c.payment_id),
            ◌>>=◌,
          )
          (rw (
            loaded-some when payment_service c.payment_id (v c.payment_id).0
                (stream c.payment_id w.store) ne,
            refund_loaded,
          ))

    -- In consistent tables, RefundPayment for a payment that has a PSP reference and is no longer
    -- AUTHORIZED returns and leaves the tables as they are, but it has asked the gateway to refund
    -- that reference once more, where the gateway answers the call.
    pub execute_refund-again :
        (c : RefundPaymentCommandPayload) (psp_reference : String) (answer : RefundResult)
        (provider : G)
        → stream c.payment_id w.store ≢ []
        → is_authorized (v c.payment_id).0.status ≡ false
        → (v c.payment_id).0.psp_reference ≡ some psp_reference
        → (psp_reference == "") ≡ false
        → gateway.refund psp_reference c.amount_cents (some "Saga compensation") w.provider
          ≡ (ok answer, provider)
        → execute_refund gateway ambient correlation_id c w ≡ (
          ok tt,
          record w {
            provider = provider;
            calls = w.calls ++ refund_call psp_reference c.amount_cents ∷ [];
          },
        )
    unfolding refund
    execute_refund-again c psp_reference answer provider ne closed has_reference not_empty
          answered =
        rw (execute_refund-known c ne)
          (rw (has_reference, not_empty, answered, closed, refund, catch, ◌>>=◌, ◌>>◌))
