-- ===== src/Saga/Machine.antt =====
-- apps/saga-orchestrator: the state machine, its repository, its command producer, the consumer's
-- dispatch and the read API.
use kafka_ledger_saga.Base.{
  ℕ, String, Bool, true, false, Option, none, some, List, [], ◌∷◌, map, Result, ok, err, Action,
  pure, raise, gets, ◌>>=◌, ◌>>◌, ◌==◌, get_last?, get_elem?, if◌then◌else◌,
}
use Prim.Native.String.{◌++◌ as join}
use kafka_ledger_saga.Contracts.{
  SagaStatus, Fields, text, field, as_text, ReservationLine, whole_quantity, OrderLineItem,
  OrderCreatedPayload, EventEnvelope, make_command, saga_commands_topic, confirm_order_command,
  cancel_order_command, read_order_created,
}
use kafka_ledger_saga.Errors.{Error, failure, not_found, malformed_payload}
use kafka_ledger_saga.EventSourcing.{find_one, upsert}
use kafka_ledger_saga.Kafka.{Broker, publish, KafkaMessage, ConsumerState, each_message}
use kafka_ledger_saga.Saga.Toolkit.{
  SagaInstanceSnapshot, HistoryEntry, start_saga, on_step_event, PublishFn,
}
use kafka_ledger_saga.Saga.Definition.{order_fulfillment_saga, initial_context}

-- A row of saga_instance, without its time of update.
pub record SagaInstanceEntity : Type 0 where
  pub snapshot : SagaInstanceSnapshot
  pub correlation_id : String

pub record SagaDb : Type 0 where
  pub instances : List (String × SagaInstanceEntity)
  pub broker : Broker

-- The surroundings of the orchestrator: the clock, the id of the command of the n-th send, and
-- whether the cluster acknowledges the n-th send.
pub record Surroundings : Type 0 where
  pub now : ℕ
  pub uuid : ℕ → String
  pub accepts : ℕ → Bool

abbrev on_broker : Action Error Broker (Unit {0}) → Action Error SagaDb (Unit {0})
on_broker m db = let (r, b) = m db.broker in (r, record db { broker = b })

-- `orderId ?? command.id`
abbrev pub key_or : Option String → String → String
key_or none id = id
key_or (some k) id = k

-- `SagaCommandProducer.publish`; reading `orderId` of an undefined payload is a TypeError.
unfoldable pub publish_command : Surroundings → PublishFn SagaDb
publish_command world command_type none correlation_id = raise (failure "TypeError")
publish_command world command_type (some payload) correlation_id = do
  n ← gets (λ db. db.broker.attempts)
  on_broker (
      publish world.accepts saga_commands_topic
        (make_command (world.uuid n) world.now (record {
          type = command_type;
          correlation_id = correlation_id;
          payload = payload;
          causation_id = none;
          version = none;
        }))
        (key_or (as_text (field "orderId" payload)) (world.uuid n)) [])

-- `SagaInstanceRepository.findById`
unfoldable pub find_by_id : String → SagaDb → Option SagaInstanceEntity
unfolding find_one
find_by_id saga_id db = find_one saga_id db.instances

-- `SagaInstanceRepository.save`
unfoldable pub save_instance : SagaInstanceSnapshot → String → Action Error SagaDb (Unit {0})
unfolding upsert
save_instance s correlation_id db = (
  ok tt,
  record db {
    instances =
        upsert s.saga_id (record { snapshot = s; correlation_id = correlation_id }) db.instances;
  },
)

abbrev pub is_terminal : SagaStatus → Bool
is_terminal SagaStatus.completed = true
is_terminal SagaStatus.compensated = true
is_terminal _ = false

-- `lastFailedStep?.step ?? 'unknown'`
abbrev pub last_step : Option HistoryEntry → String
last_step none = "unknown"
last_step (some h) = h.step

abbrev pub cancel_reason : SagaInstanceSnapshot → String
cancel_reason s = join "Saga failed at step \"" (join (last_step (get_last? s.history)) "\"")

-- `p.items.map((i) => ({ sku: i.sku, qty: i.qty }))`
abbrev pub to_lines : List OrderLineItem → List ReservationLine
to_lines = map (λ i. record { sku = i.sku; qty = whole_quantity i.qty })

module _ (world : Surroundings) where
  abbrev start_new :
      Option SagaInstanceEntity → String → Fields → String → Action Error SagaDb (Unit {0})
  start_new (some existing) order_id context correlation_id = pure tt
  start_new none order_id context correlation_id = do
    s ←
        start_saga order_fulfillment_saga (publish_command world) world.now order_id correlation_id
          context
    save_instance s correlation_id

  -- `SagaStateMachine.start`
  unfoldable pub start :
      String → String → List ReservationLine → ℕ → String → Action Error SagaDb (Unit {0})
  start order_id customer_id ls amount_cents correlation_id = do
    existing ← gets (find_by_id order_id)
    start_new existing order_id (initial_context order_id customer_id ls amount_cents)
        correlation_id

  unfoldable pub on_saga_completed : SagaInstanceSnapshot → String → Action Error SagaDb (Unit {0})
  on_saga_completed s correlation_id =
      publish_command world confirm_order_command
        (some (
          ("orderId", field "orderId" s.context) ∷ ("paymentId", field "paymentId" s.context) ∷ []))
        correlation_id

  unfoldable pub on_saga_compensated :
      SagaInstanceSnapshot → String → Action Error SagaDb (Unit {0})
  on_saga_compensated s correlation_id =
      publish_command world cancel_order_command
        (some (("orderId", field "orderId" s.context) ∷ ("reason", text (cancel_reason s)) ∷ []))
        correlation_id

  abbrev pub after_save :
      SagaStatus → SagaInstanceSnapshot → String → Action Error SagaDb (Unit {0})
  after_save SagaStatus.completed s correlation_id = on_saga_completed s correlation_id
  after_save SagaStatus.compensated s correlation_id = on_saga_compensated s correlation_id
  after_save _ s correlation_id = pure tt

  abbrev pub on_found :
      Option SagaInstanceEntity → String → String → Fields → Action Error SagaDb (Unit {0})
  on_found none event_type correlation_id payload = pure tt
  on_found (some row) event_type correlation_id payload =
      if is_terminal row.snapshot.status then pure tt else (do
        updated ←
            on_step_event order_fulfillment_saga (publish_command world) world.now row.snapshot
              event_type correlation_id payload
        save_instance updated correlation_id
        after_save updated.status updated correlation_id)

  -- `SagaStateMachine.onEvent`
  unfoldable pub on_event : String → String → String → Fields → Action Error SagaDb (Unit {0})
  on_event order_id event_type correlation_id payload = do
    found ← gets (find_by_id order_id)
    on_found found event_type correlation_id payload

  abbrev pub start_from : Option OrderCreatedPayload → String → Action Error SagaDb (Unit {0})
  start_from none correlation_id = raise (malformed_payload "order.created.v1")
  start_from (some p) correlation_id =
      start p.order_id p.customer_id (to_lines p.items) p.total_cents correlation_id

  -- An `orderId` that is a text and not empty.
  abbrev pub route : Option String → String → String → Fields → Action Error SagaDb (Unit {0})
  route none event_type correlation_id payload = pure tt
  route (some order_id) event_type correlation_id payload =
      if order_id == "" then pure tt else on_event order_id event_type correlation_id payload

  -- `SagaEventConsumer.dispatch`
  unfoldable pub dispatch : EventEnvelope Fields → Action Error SagaDb (Unit {0})
  dispatch e =
      if e.type == "order.created.v1"
      then start_from (read_order_created e.payload) e.correlation_id
      else route (as_text (field "orderId" e.payload)) e.type e.correlation_id e.payload

  -- `eachMessage` of SagaEventConsumer
  unfoldable pub consume :
      KafkaMessage (EventEnvelope Fields) → Action Error (ConsumerState SagaDb) (Unit {0})
  unfolding each_message dispatch
  consume = each_message dispatch

-- What SagasController.getStatus returns.
pub record SagaStatusView : Type 0 where
  pub order_id : String
  pub saga_status : SagaStatus
  pub current_step : String
  pub history : List HistoryEntry

abbrev step_name : Option String → String
step_name none = "UNKNOWN"
step_name (some s) = s

abbrev view_of : String → Option SagaInstanceEntity → Result Error SagaStatusView
view_of order_id none = err (not_found order_id)
view_of order_id (some row) = ok (record {
  order_id = row.snapshot.saga_id;
  saga_status = row.snapshot.status;
  current_step =
      step_name (
        get_elem? ("RESERVE_INVENTORY" ∷ "AUTHORIZE_PAYMENT" ∷ []) row.snapshot.current_step_index);
  history = row.snapshot.history;
})

unfoldable pub get_status : String → SagaDb → Result Error SagaStatusView
get_status order_id db = view_of order_id (find_by_id order_id db)
