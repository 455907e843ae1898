-- ===== src/Saga/Examples.antt =====
-- The orchestrator on the events of one order.
use kafka_ledger_saga.Base.{
  inl, arith, String, ◌≡◌, refl, arith, true, none, List, [], ◌∷◌, map, ok, err, false, some, ◌++◌,
}
use kafka_ledger_saga.Contracts.{
  SagaStatus, EventEnvelope, Fields, text, number, items, reserve_stock_command,
  authorize_payment_command, cancel_order_command, read_order_created, field, spread, put,
  make_command, confirm_order_command,
}
use kafka_ledger_saga.EventSourcing.{find_one, upsert}
use kafka_ledger_saga.Kafka.{publish}
use kafka_ledger_saga.Errors.{kafka_unavailable}
use kafka_ledger_saga.Saga.Delivery.{
  checkout, after, completed, checkout_run, command_types, checkout_run-completes,
  on_event-lost_confirm,
}
use kafka_ledger_saga.Saga.Definition.{
  authorize_payment_step, reserve_inventory_step, build_release_inventory_compensation,
}
use kafka_ledger_saga.Saga.Compensation.{
  keep_record, undo, undo_order, begin_compensation-undo_order,
}
use kafka_ledger_saga.Saga.Toolkit.{
  add_history, SagaInstanceSnapshot, start_saga, on_step_event, advance, begin_compensation,
  publish_compensations, steps_to_compensate,
}
use kafka_ledger_saga.Saga.Machine.{
  SagaDb, SagaInstanceEntity, Surroundings, find_by_id, dispatch, publish_command, start,
  save_instance, on_event, on_saga_compensated,
}
use kafka_ledger_saga.Saga.Changes.{IsSound, Change, moved, nothing}
use kafka_ledger_saga.Saga.Dispatch.{dispatch-Change, Change-IsSound}
use kafka_ledger_saga.Saga.Safety.{
  run, run-IsSound, IsEndedOnce, run-IsEndedOnce, IsNeverReleased, run-IsNeverReleased, IsEndedAs,
  run-IsEndedAs,
}

abbrev world : Surroundings
world = record { now = 7; uuid = λ _. "uuid"; accepts = λ _. true }

abbrev event : String → Fields → EventEnvelope Fields
event t payload = record {
  id = "event";
  type = t;
  version = 1;
  aggregate_id = "order-1";
  sequence = 1;
  occurred_at = 7;
  correlation_id = "correlation";
  causation_id = none;
  payload = payload;
}

abbrev created : EventEnvelope Fields
created = event "order.created.v1" (
    ("orderId", text "order-1")
    ∷ ("customerId", text "customer-1")
    ∷ ("items", items (record { sku = "sku-1"; qty = 2; unit_price_cents = 50 } ∷ []))
    ∷ ("totalCents", number 100)
    ∷ [])

abbrev reserved : EventEnvelope Fields
reserved =
    event "inventory.reserved.v1"
      (("reservationId", text "reservation-1") ∷ ("orderId", text "order-1") ∷ [])

abbrev declined : EventEnvelope Fields
declined =
    event "payment.declined.v1" (("paymentId", text "payment-1") ∷ ("orderId", text "order-1") ∷ [])

abbrev no_sagas : SagaDb
no_sagas = record { instances = []; broker = record { attempts = 0; sent = [] } }

-- A checkout whose payment is declined, with a redelivery of every event.
abbrev events : List (Surroundings × EventEnvelope Fields)
events =
    (world, created)
    ∷ (world, created)
    ∷ (world, reserved)
    ∷ (world, reserved)
    ∷ (world, declined)
    ∷ (world, declined)
    ∷ []

no_sagas-IsSound : IsSound no_sagas
unfolding find_by_id
no_sagas-IsSound = record { at = λ id row e. cc }

dispatch-Change_example :
    Change created.type created.payload no_sagas (dispatch world created no_sagas).1
dispatch-Change_example = dispatch-Change world no_sagas no_sagas-IsSound created

run-IsSound_example : IsSound (run events no_sagas)
run-IsSound_example = run-IsSound events no_sagas no_sagas-IsSound

run-IsEndedOnce_example : IsEndedOnce "order-1" (run events no_sagas)
unfolding find_by_id
run-IsEndedOnce_example = run-IsEndedOnce "order-1" events no_sagas no_sagas-IsSound (omega arith)

run-IsNeverReleased_example : IsNeverReleased (run events no_sagas)
run-IsNeverReleased_example = run-IsNeverReleased events no_sagas no_sagas-IsSound refl

-- The commands that this run sends: no ReleaseInventory among them.
declined_commands :
    map (λ m. m.value.type) (run events no_sagas).broker.sent
    ≡ reserve_stock_command ∷ authorize_payment_command ∷ cancel_order_command ∷ []
unfolding run dispatch read_order_created field start start_saga publish_command publish find_by_id
    find_one save_instance upsert on_event on_step_event advance begin_compensation
    publish_compensations steps_to_compensate spread put make_command on_saga_compensated
declined_commands = refl

abbrev ended_row : SagaInstanceEntity
ended_row = record {
  snapshot = record {
    saga_id = "order-1";
    definition_name = "order-fulfillment";
    current_step_index = 0;
    status = SagaStatus.compensated;
    context = ("orderId", text "order-1") ∷ [];
    history = [];
  };
  correlation_id = "correlation";
}

abbrev ended : SagaDb
ended = record no_sagas { instances = ("order-1", ended_row) ∷ [] }

ended-IsSound : IsSound ended
unfolding upsert field find_by_id
ended-IsSound =
    Change-IsSound {t = "inventory.reservation_failed.v1"} {o = ("orderId", text "order-1") ∷ []}
      {db = no_sagas} {db' = ended}
      (moved "order-1" ended_row [] tt
        (record { keyed = refl; for_order = refl; placed = inl refl })
        (record {
          to_payment = λ e. absurd (omega arith);
          to_completed = λ e. cc;
          to_compensated = λ _. (inl refl, refl);
        })
        (nothing refl) refl refl)
      no_sagas-IsSound

run-IsEndedAs_example : IsEndedAs "order-1" ended_row [] (run events ended)
unfolding find_by_id find_one
run-IsEndedAs_example =
    run-IsEndedAs "order-1" ended_row [] refl events ended ended-IsSound
      (record { stored = refl; messages = refl })

abbrev reserved_fields : Fields
reserved_fields = ("reservationId", text "reservation-1") ∷ ("orderId", text "order-1") ∷ []

abbrev paid_fields : Fields
paid_fields = ("paymentId", text "payment-1") ∷ ("orderId", text "order-1") ∷ []

checkout_run-completes_example :
    (db' : SagaDb) × (s : SagaInstanceSnapshot) × (checkout_run world "order-1" "customer-1" [] 100
        "correlation" reserved_fields paid_fields no_sagas
      ≡ (ok tt, db'))
    × (find_by_id "order-1" db' ≡ some (record { snapshot = s; correlation_id = "correlation" }))
    × (s.status ≡ SagaStatus.completed)
    × (command_types db'
        ≡ command_types no_sagas
          ++ reserve_stock_command ∷ authorize_payment_command ∷ confirm_order_command ∷ [])
unfolding find_by_id find_one field
checkout_run-completes_example =
    checkout_run-completes world "order-1" "customer-1" [] 100 "correlation" reserved_fields
      paid_fields no_sagas (λ n. refl) refl refl refl

-- The cluster refuses every send.
abbrev outage : Surroundings
outage = record { now = 8; uuid = λ _. "uuid"; accepts = λ _. false }

abbrev order_context : Fields
order_context = ("orderId", text "order-1") ∷ []

abbrev paying : SagaDb
paying = record no_sagas {
  instances =
      (
        "order-1",
        record {
          snapshot = checkout "order-1" 1 SagaStatus.in_progress order_context [];
          correlation_id = "correlation";
        },
      )
      ∷ [];
}

abbrev unconfirmed : SagaDb
unfolding field
unconfirmed =
    after "order-1"
      (completed outage "order-1" "correlation" paid_fields refl paying order_context []
        "correlation" refl)
      "correlation" 1 [] paying

on_event-lost_confirm_example :
    (on_event outage "order-1" "payment.authorized.v1" "correlation" paid_fields paying
      ≡ (err kafka_unavailable, unconfirmed))
    × (on_event world "order-1" "payment.authorized.v1" "correlation" paid_fields unconfirmed
        ≡ (ok tt, unconfirmed))
unfolding find_by_id find_one field unconfirmed
on_event-lost_confirm_example =
    on_event-lost_confirm outage "order-1" "correlation" paid_fields refl paying order_context []
      "correlation" refl world refl refl

abbrev reservation_context : Fields
reservation_context = ("orderId", text "order-1") ∷ ("reservationId", text "reservation-1") ∷ []

-- A saga whose second step fails after a first step that has a compensation.
abbrev failing : SagaInstanceSnapshot
failing = checkout "order-1" 1 SagaStatus.in_progress reservation_context []

begin_compensation-undo_order_example :
    begin_compensation
      (record {
        name = "example";
        steps = (authorize_payment_step ∷ []) ++ reserve_inventory_step ∷ [];
      })
      keep_record
      7
      failing
      reserve_inventory_step
      reservation_context
      "correlation"
      []
    ≡ (
      ok (record failing {
        context = reservation_context;
        status = SagaStatus.compensating;
        history = add_history failing reserve_inventory_step "FAILED" 7;
      }),
      [] ++ map (undo reservation_context) (undo_order (authorize_payment_step ∷ [])),
    )
unfolding field build_release_inventory_compensation
begin_compensation-undo_order_example =
    begin_compensation-undo_order "example" (authorize_payment_step ∷ []) [] reserve_inventory_step
      7 failing reservation_context "correlation" [] refl (refl, tt)
