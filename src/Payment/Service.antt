-- ===== src/Payment/Service.antt =====
-- apps/payment-service: the event-store repository, the two command handlers and the consumer, over
-- any payment gateway.
use kafka_ledger_saga.Base.{
  ℕ, String, Option, none, some, List, [], ◌∷◌, ◌++◌, Result, Action, pure, raise, lift, gets,
  catch, ◌>>=◌, ◌>>◌, ◌==◌, if◌then◌else◌,
}
use Prim.Native.String.{◌++◌ as join}
use kafka_ledger_saga.Contracts.{
  PaymentStatus, PaymentEvent, payment_topic, Fields, CommandEnvelope,
  AuthorizePaymentCommandPayload, RefundPaymentCommandPayload, authorize_payment_command,
  refund_payment_command, read_authorize_payment, read_refund_payment,
}
use kafka_ledger_saga.Errors.{
  Error, payment_already_finalized, not_found, failure, malformed_payload,
}
use kafka_ledger_saga.EventSourcing.{Store, Service, Ambient, load_aggregate, save}
use kafka_ledger_saga.Kafka.{KafkaMessage, ConsumerState, each_message}
use kafka_ledger_saga.Payment.Domain.{
  PaymentState, PaymentAggregate, blank_state, when, authorize, decline, refund,
}
use kafka_ledger_saga.Payment.Gateway.{
  AuthorizeParams, AuthorizeResult, RefundResult, PaymentGateway,
}

-- The columns of payment_projection.
pub record PaymentProjectionEntity : Type 0 where
  pub payment_id : String
  pub order_id : String
  pub status : PaymentStatus
  pub amount_cents : ℕ
  pub psp_reference : Option String
  pub decline_code : Option String
  pub reason : Option String
  pub version : ℕ

abbrev pub PaymentStore : Type 0
PaymentStore = Store PaymentEvent PaymentProjectionEntity

-- What the gateway was asked to do.
pub data GatewayCall : Type 0 where
  authorize_call : AuthorizeParams → GatewayCall
  refund_call : String → ℕ → GatewayCall

-- The tables, the provider, and the calls that were made to it, oldest first.
pub record PaymentWorld (G : Type 0) : Type 0 where
  pub store : PaymentStore
  pub provider : G
  pub calls : List GatewayCall

-- The row that `upsertWithinTransaction` writes.
abbrev pub project : String → PaymentState → ℕ → PaymentProjectionEntity
project id s version = record {
  payment_id = id;
  order_id = s.order_id;
  status = s.status;
  amount_cents = s.amount_cents;
  psp_reference = s.psp_reference;
  decline_code = s.decline_code;
  reason = s.reason;
  version = version;
}

abbrev pub payment_service : Service PaymentState PaymentProjectionEntity
payment_service = record {
  aggregate_type = "Payment";
  topic = payment_topic;
  blank = blank_state;
  project = project;
}

-- `PaymentProjectionRepository.findByOrderId`
unfoldable pub find_by_order_id :
    String → List (String × PaymentProjectionEntity) → Option PaymentProjectionEntity
find_by_order_id order_id [] = none
find_by_order_id order_id ((_, row) ∷ rows) =
    if row.order_id == order_id then some row else find_by_order_id order_id rows

-- `a ?? b`
abbrev pub text_or : Option String → String → String
text_or none b = b
text_or (some a) b = a

module _ {G : Type 0} (gateway : PaymentGateway G) (ambient : Ambient)
    (correlation_id : String) where
  abbrev pub on_store : {A : Type 0} → Action Error PaymentStore A → Action Error (PaymentWorld G) A
  on_store m w = let (r, store) = m w.store in (r, record w { store = store })

  abbrev pub call_authorize : AuthorizeParams → Action Error (PaymentWorld G) AuthorizeResult
  call_authorize params w =
      let (r, provider) = gateway.authorize params w.provider in
      (r, record w { provider = provider; calls = w.calls ++ authorize_call params ∷ [] })

  abbrev pub call_refund : String → ℕ → Option String → Action Error (PaymentWorld G) RefundResult
  call_refund psp_reference amount_cents reason w =
      let (r, provider) = gateway.refund psp_reference amount_cents reason w.provider in
      (
        r,
        record w {
          provider = provider;
          calls = w.calls ++ refund_call psp_reference amount_cents ∷ [];
        },
      )

  -- `PaymentEventStoreRepository.save`
  unfoldable pub save_payment : ℕ → PaymentAggregate → Action Error (PaymentWorld G) (Unit {0})
  save_payment drawn a = do on_store (save payment_service ambient correlation_id drawn a); pure tt

  -- The new aggregate for the gateway's answer. A success without a reference is stored with the
  -- empty text, which the guard of a refund takes for a missing one as well.
  abbrev pub of_result :
      AuthorizePaymentCommandPayload → String → AuthorizeResult → Result Error PaymentAggregate
  of_result c payment_id result =
      if result.success
      then authorize ambient.now payment_id c.order_id c.customer_id c.amount_cents
          (text_or result.psp_reference "")
      else decline ambient.now payment_id c.order_id (text_or result.decline_code "unknown")
          (text_or result.reason "Payment declined")

  abbrev pub authorize_params : AuthorizePaymentCommandPayload → AuthorizeParams
  authorize_params c = record {
    order_id = c.order_id;
    customer_id = c.customer_id;
    amount_cents = c.amount_cents;
    idempotency_key = join "authorize:" c.order_id;
  }

  abbrev pub authorize_unless :
      Option PaymentProjectionEntity
      → AuthorizePaymentCommandPayload
      → Action Error (PaymentWorld G) (Unit {0})
  authorize_unless (some existing) c = pure tt
  authorize_unless none c = do
    result ← call_authorize (authorize_params c)
    a ← lift (of_result c (ambient.uuid 0) result)
    save_payment 1 a

  -- `AuthorizePaymentHandler.execute`. The first UUID drawn is the id of the payment.
  unfoldable pub execute_authorize :
      AuthorizePaymentCommandPayload → Action Error (PaymentWorld G) (Unit {0})
  unfolding find_by_order_id authorize decline
  execute_authorize c = do
    existing ← gets (λ w. find_by_order_id c.order_id w.store.projection)
    authorize_unless existing c

  -- The body of the try: the gateway first, then the aggregate.
  abbrev pub try_refund :
      String → ℕ → PaymentAggregate → Action Error (PaymentWorld G) (Option PaymentAggregate)
  try_refund psp_reference amount_cents a = do
    call_refund psp_reference amount_cents (some "Saga compensation")
    a' ← lift (refund ambient.now (some "Saga compensation: a later saga step failed") a)
    pure (some a')

  -- Its catch: a payment that is not AUTHORIZED is a duplicate, and there is nothing to save.
  abbrev pub ignore_finalized : Error → Action Error (PaymentWorld G) (Option PaymentAggregate)
  ignore_finalized (payment_already_finalized _ _) = pure none
  ignore_finalized e = raise e

  abbrev pub save_if : Option PaymentAggregate → Action Error (PaymentWorld G) (Unit {0})
  save_if none = pure tt
  save_if (some a) = save_payment 0 a

  abbrev pub refund_loaded :
      RefundPaymentCommandPayload
      → Option PaymentAggregate
      → Action Error (PaymentWorld G) (Unit {0})
  refund_loaded c none = raise (not_found c.payment_id)
  refund_loaded c (some a) =
      let psp_reference = text_or a.state.psp_reference "" in
      if psp_reference == "" then raise (failure "no pspReference to refund against") else (do
        refunded ← catch (try_refund psp_reference c.amount_cents a) ignore_finalized
        save_if refunded)

  -- `RefundPaymentHandler.execute`
  unfoldable pub execute_refund :
      RefundPaymentCommandPayload → Action Error (PaymentWorld G) (Unit {0})
  unfolding refund
  execute_refund c = do
    loaded ← on_store (load_aggregate when payment_service c.payment_id)
    refund_loaded c loaded

module _ {G : Type 0} (gateway : PaymentGateway G) (ambient : Ambient) where
  abbrev pub with_payload :
      {P : Type 0}
      → String
      → Option P
      → (P → Action Error (PaymentWorld G) (Unit {0}))
      → Action Error (PaymentWorld G) (Unit {0})
  with_payload t none f = raise (malformed_payload t)
  with_payload t (some p) f = f p

  -- `PaymentKafkaConsumer.dispatch`
  unfoldable pub dispatch : CommandEnvelope Fields → Action Error (PaymentWorld G) (Unit {0})
  dispatch e =
      if e.type == authorize_payment_command
      then with_payload e.type (read_authorize_payment e.payload)
          (execute_authorize gateway ambient e.correlation_id)
      else if e.type == refund_payment_command
      then with_payload e.type (read_refund_payment e.payload)
          (execute_refund gateway ambient e.correlation_id)
      else pure tt

  -- `eachMessage` of PaymentKafkaConsumer
  unfoldable pub consume :
      KafkaMessage (CommandEnvelope Fields)
      → Action Error (ConsumerState (PaymentWorld G)) (Unit {0})
  unfolding each_message dispatch
  consume = each_message dispatch
