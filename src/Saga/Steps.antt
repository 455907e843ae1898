-- ===== src/Saga/Steps.antt =====
-- What one event does to the snapshot of the checkout saga, at each of its two steps, and what one
-- command does to the broker.
use kafka_ledger_saga.Base.{
  ℕ, ◌+◌, String, ◌≡◌, none, some, List, [], ◌∷◌, ◌++◌, ok, err, pure, ◌>>◌, ◌==◌, arith,
  if◌then◌else◌,
}
use kafka_ledger_saga.Contracts.{
  SagaStatus, Fields, text, field, spread, make_command, saga_commands_topic,
}
use kafka_ledger_saga.Errors.{kafka_unavailable}
use kafka_ledger_saga.Kafka.{Message, publish, standard_headers}
use kafka_ledger_saga.Saga.Toolkit.{
  SagaInstanceSnapshot, PublishFn, HistoryEntry, on_step_event, add_history,
}
use kafka_ledger_saga.Saga.Definition.{
  order_fulfillment_saga, reserve_inventory_step, authorize_payment_step,
}
use kafka_ledger_saga.Saga.Machine.{SagaDb, Surroundings, publish_command}

module _ {W : Type 0} (publish_fn : PublishFn W) (now : ℕ) (s : SagaInstanceSnapshot)
    (event_type correlation_id : String) (payload : Fields) where
  abbrev pub merged : Fields
  merged = spread s.context payload

  -- The snapshot with its step done or failed, under the merged context.
  abbrev pub after_step : ℕ → SagaStatus → List HistoryEntry → SagaInstanceSnapshot
  after_step i status history = record s {
    context = merged;
    current_step_index = i;
    status = status;
    history = history;
  }

  pub on_step_event-reserve :
      s.current_step_index ≡ 0
      → on_step_event order_fulfillment_saga publish_fn now s event_type correlation_id payload ≡ (
          if event_type == "inventory.reserved.v1"
          then (publish_fn authorize_payment_step.command
                (some (authorize_payment_step.build_command_payload merged))
                correlation_id
              >> pure (
                  after_step 1 SagaStatus.in_progress
                    (add_history s reserve_inventory_step "SUCCEEDED" now)))
          else if event_type == "inventory.reservation_failed.v1"
          then pure (
              after_step 0 SagaStatus.compensated
                (add_history s reserve_inventory_step "FAILED" now))
          else pure s)
  unfolding on_step_event
  on_step_event-reserve e = rw (e, on_step_event)

  pub on_step_event-authorize :
      s.current_step_index ≡ 1
      → on_step_event order_fulfillment_saga publish_fn now s event_type correlation_id payload ≡ (
          if event_type == "payment.authorized.v1"
          then pure (
              after_step 1 SagaStatus.completed
                (add_history s authorize_payment_step "SUCCEEDED" now))
          else if event_type == "payment.declined.v1"
          then pure (
              after_step 1 SagaStatus.compensated
                (add_history s authorize_payment_step "FAILED" now))
          else pure s)
  unfolding on_step_event
  on_step_event-authorize e = rw (e, on_step_event)

module _ (world : Surroundings) where
  -- The message of the n-th send.
  abbrev pub message : ℕ → String → Fields → String → String → Message
  message n command_type payload correlation_id key =
      let e = make_command (world.uuid n) world.now (record {
        type = command_type;
        correlation_id = correlation_id;
        payload = payload;
        causation_id = none;
        version = none;
      }) in
      record {
        topic = saga_commands_topic;
        key = key;
        value = e;
        headers = standard_headers e ++ [];
      }

  pub publish_command-text :
      (command_type key correlation_id : String) (payload : Fields) (db : SagaDb)
      → field "orderId" payload ≡ text key
      → publish_command world command_type (some payload) correlation_id db ≡ (
          if world.accepts db.broker.attempts
          then (
            ok tt,
            record db {
              broker = record {
                attempts = db.broker.attempts + 1;
                sent =
                    db.broker.sent
                    ++ message db.broker.attempts command_type payload correlation_id key ∷ [];
              };
            },
          )
          else (
            err kafka_unavailable,
            record db {
              broker = record { attempts = db.broker.attempts + 1; sent = db.broker.sent };
            },
          ))
  unfolding publish_command publish
  publish_command-text command_type key correlation_id payload db e = rw e (ground arith)
