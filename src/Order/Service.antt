-- ===== src/Order/Service.antt =====
-- apps/order-service: the event-store repository, the command handlers, the query and the consumer.
use kafka_ledger_saga.Base.{
  ℕ, String, Option, none, some, List, Result, ok, err, Action, pure, raise, lift, gets, catch,
  ◌>>=◌, ◌>>◌, ◌==◌, if◌then◌else◌,
}
use kafka_ledger_saga.Contracts.{
  OrderStatus, OrderEvent, OrderLineItem, order_topic, Fields, CommandEnvelope,
  CreateOrderCommandPayload, ConfirmOrderCommandPayload, CancelOrderCommandPayload,
  create_order_command, confirm_order_command, cancel_order_command, read_create_order,
  read_confirm_order, read_cancel_order,
}
use kafka_ledger_saga.Errors.{
  Error, concurrency_error, order_already_finalized, not_found, malformed_payload,
}
use kafka_ledger_saga.EventSourcing.{Store, Service, Ambient, find_one, load_aggregate, save}
use kafka_ledger_saga.Kafka.{KafkaMessage, ConsumerState, each_message}
use kafka_ledger_saga.Order.Domain.{
  OrderState, OrderAggregate, blank_state, when, create_new, confirm, cancel,
}

-- The columns of order_projection.
pub record OrderProjection : Type 0 where
  pub order_id : String
  pub customer_id : String
  pub status : OrderStatus
  pub items : List OrderLineItem
  pub total_cents : ℕ
  pub payment_id : Option String
  pub cancel_reason : Option String
  pub version : ℕ

abbrev pub OrderDb : Type 0
OrderDb = Store OrderEvent OrderProjection

-- The row that `upsertWithinTransaction` writes.
abbrev pub project : String → OrderState → ℕ → OrderProjection
project id s version = record {
  order_id = id;
  customer_id = s.customer_id;
  status = s.status;
  items = s.items;
  total_cents = s.total_cents;
  payment_id = s.payment_id;
  cancel_reason = s.cancel_reason;
  version = version;
}

abbrev pub order_service : Service OrderState OrderProjection
order_service = record {
  aggregate_type = "Order";
  topic = order_topic;
  blank = blank_state;
  project = project;
}

-- `OrderEventStoreRepository.save`
unfoldable pub save_order : Ambient → String → OrderAggregate → Action Error OrderDb (Unit {0})
save_order ambient correlation_id a = do save order_service ambient correlation_id 0 a; pure tt

-- `OrderEventStoreRepository.loadAggregate`
unfoldable pub load_order : String → Action Error OrderDb (Option OrderAggregate)
load_order = load_aggregate when order_service

-- The catch of CreateOrderHandler: a duplicate delivery is ignored.
abbrev pub ignore_duplicate : Error → Action Error OrderDb (Unit {0})
ignore_duplicate (concurrency_error _ _) = pure tt
ignore_duplicate e = raise e

unfoldable pub execute_create :
    Ambient → String → CreateOrderCommandPayload → Action Error OrderDb (Unit {0})
unfolding create_new
execute_create ambient correlation_id c = do
  a ← lift (create_new ambient.now c.order_id c.customer_id c.items)
  catch (save_order ambient correlation_id a) ignore_duplicate

-- After `aggregate.confirm` or `aggregate.cancel`: an order that is already final is a duplicate.
abbrev pub save_or_ignore :
    Ambient → String → Result Error OrderAggregate → Action Error OrderDb (Unit {0})
save_or_ignore ambient correlation_id (ok a) = save_order ambient correlation_id a
save_or_ignore ambient correlation_id (err (order_already_finalized _ _)) = pure tt
save_or_ignore ambient correlation_id (err e) = raise e

abbrev pub confirm_loaded :
    Ambient
    → String
    → ConfirmOrderCommandPayload
    → Option OrderAggregate
    → Action Error OrderDb (Unit {0})
confirm_loaded ambient correlation_id c none = raise (not_found c.order_id)
confirm_loaded ambient correlation_id c (some a) =
    save_or_ignore ambient correlation_id (confirm ambient.now c.payment_id a)

unfoldable pub execute_confirm :
    Ambient → String → ConfirmOrderCommandPayload → Action Error OrderDb (Unit {0})
unfolding confirm
execute_confirm ambient correlation_id c = do
  loaded ← load_order c.order_id
  confirm_loaded ambient correlation_id c loaded

abbrev pub cancel_loaded :
    Ambient
    → String
    → CancelOrderCommandPayload
    → Option OrderAggregate
    → Action Error OrderDb (Unit {0})
cancel_loaded ambient correlation_id c none = raise (not_found c.order_id)
cancel_loaded ambient correlation_id c (some a) =
    save_or_ignore ambient correlation_id (cancel ambient.now c.reason a)

unfoldable pub execute_cancel :
    Ambient → String → CancelOrderCommandPayload → Action Error OrderDb (Unit {0})
unfolding cancel
execute_cancel ambient correlation_id c = do
  loaded ← load_order c.order_id
  cancel_loaded ambient correlation_id c loaded

-- `GetOrderByIdHandler.execute`
unfoldable pub get_order_by_id : String → Action Error OrderDb OrderProjection
unfolding find_one
get_order_by_id id = do
  row ← gets (λ db. find_one id db.projection)
  elim row [ none ↦ raise (not_found id) | some r ↦ pure r ]

-- A payload that is read, or the end of the dispatch.
abbrev pub with_payload :
    {P : Type 0}
    → String
    → Option P
    → (P → Action Error OrderDb (Unit {0}))
    → Action Error OrderDb (Unit {0})
with_payload t none f = raise (malformed_payload t)
with_payload t (some p) f = f p

-- `OrderKafkaConsumer.dispatch`
unfoldable pub dispatch : Ambient → CommandEnvelope Fields → Action Error OrderDb (Unit {0})
dispatch ambient e =
    if e.type == create_order_command
    then with_payload e.type (read_create_order e.payload) (execute_create ambient e.correlation_id)
    else if e.type == confirm_order_command
    then with_payload e.type (read_confirm_order e.payload)
        (execute_confirm ambient e.correlation_id)
    else if e.type == cancel_order_command
    then with_payload e.type (read_cancel_order e.payload) (execute_cancel ambient e.correlation_id)
    else pure tt

-- `eachMessage` of OrderKafkaConsumer
unfoldable pub consume :
    Ambient
    → KafkaMessage (CommandEnvelope Fields)
    → Action Error (ConsumerState OrderDb) (Unit {0})
unfolding each_message dispatch
consume ambient = each_message (dispatch ambient)
