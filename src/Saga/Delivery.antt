-- ===== src/Saga/Delivery.antt =====
-- The checkout from its first event to ConfirmOrder, when every send is acknowledged, and when the
-- last one is not.
use kafka_ledger_saga.Base.{
  ℕ, ◌+◌, String, ◌≡◌, refl, ap, true, false, none, some, List, [], ◌∷◌, ◌++◌, map, ok, err, Action,
  ◌>>=◌, ◌>>◌, ==_refl,
}
use kafka_ledger_saga.Contracts.{
  SagaStatus, Fields, text, lines, field, spread, ReservationLine, reserve_stock_command,
  authorize_payment_command, confirm_order_command, make_command,
}
use kafka_ledger_saga.Errors.{Error, kafka_unavailable}
use kafka_ledger_saga.EventSourcing.{upsert}
use kafka_ledger_saga.EventSourcing.Consistency.{find_one-upsert}
use kafka_ledger_saga.Kafka.{Message}
use kafka_ledger_saga.Saga.Toolkit.{SagaInstanceSnapshot, HistoryEntry, start_saga}
use kafka_ledger_saga.Saga.Definition.{authorize_payment_step, initial_context}
use kafka_ledger_saga.Saga.Machine.{
  SagaDb, SagaInstanceEntity, Surroundings, publish_command, find_by_id, save_instance, start,
  on_event, on_saga_completed,
}
use kafka_ledger_saga.Saga.Steps.{
  on_step_event-authorize, on_step_event-reserve, publish_command-text, message,
}
use kafka_ledger_saga.Saga.Changes.{merged-order_id}

-- A row of the checkout of order `id`.
abbrev pub checkout : String → ℕ → SagaStatus → Fields → List HistoryEntry → SagaInstanceSnapshot
checkout id i status context history = record {
  saga_id = id;
  definition_name = "order-fulfillment";
  current_step_index = i;
  status = status;
  context = context;
  history = history;
}

-- The tables after a row was saved and the broker was tried `n` times and has `sent`.
abbrev pub after : String → SagaInstanceSnapshot → String → ℕ → List Message → SagaDb → SagaDb
after id s correlation_id n sent db = record {
  instances = upsert id (record { snapshot = s; correlation_id = correlation_id }) db.instances;
  broker = record { attempts = n; sent = sent };
}

pub find_by_id-after :
    (id : String) (s : SagaInstanceSnapshot) (correlation_id : String) (n : ℕ) (sent : List Message)
    (db : SagaDb)
    → find_by_id id (after id s correlation_id n sent db)
      ≡ some (record { snapshot = s; correlation_id = correlation_id })
unfolding find_by_id
find_by_id-after id s correlation_id n sent db =
    rw
      (
        find_one-upsert id id (record { snapshot = s; correlation_id = correlation_id })
            db.instances,
        ==_refl id,
      )
      refl

module _ (world : Surroundings) (id correlation_id : String) (payload : Fields)
    (for_order : field "orderId" payload ≡ text id) (db : SagaDb) (context : Fields)
    (history : List HistoryEntry) (old_correlation_id : String)
    (about_order : field "orderId" context ≡ text id) where
  abbrev waiting : ℕ → SagaInstanceEntity
  waiting i = record {
    snapshot = checkout id i SagaStatus.in_progress context history;
    correlation_id = old_correlation_id;
  }

  abbrev pub completed : SagaInstanceSnapshot
  completed =
      checkout id 1 SagaStatus.completed (spread context payload)
        (history ++ record { step = "AUTHORIZE_PAYMENT"; event = "SUCCEEDED"; at = world.now } ∷ [])

  abbrev pub confirm_fields : Fields
  confirm_fields =
      ("orderId", field "orderId" (spread context payload))
      ∷ ("paymentId", field "paymentId" (spread context payload))
      ∷ []

  authorized :
      find_by_id id db ≡ some (waiting 1)
      → on_event world id "payment.authorized.v1" correlation_id payload db
        ≡ publish_command world confirm_order_command
            (some confirm_fields)
            correlation_id
            (after id completed correlation_id db.broker.attempts db.broker.sent db)
  unfolding on_event save_instance on_saga_completed
  authorized found = rw found (
      rw
        (
          on_step_event-authorize (publish_command world) world.now
              (checkout id 1 SagaStatus.in_progress context history) "payment.authorized.v1"
              correlation_id payload refl,
          ◌>>=◌,
          ◌>>◌,
        )
        refl)

  -- The payment is authorized and ConfirmOrder is sent.
  pub on_event-authorized :
      find_by_id id db ≡ some (waiting 1)
      → world.accepts db.broker.attempts ≡ true
      → on_event world id "payment.authorized.v1" correlation_id payload db ≡ (
        ok tt,
        after id completed correlation_id
            (db.broker.attempts + 1)
            (db.broker.sent
              ++ message world db.broker.attempts confirm_order_command confirm_fields
                  correlation_id id
                ∷ [])
            db,
      )
  unfolding field make_command
  on_event-authorized found acked =
      rw
        (
          authorized found,
          publish_command-text world confirm_order_command id correlation_id confirm_fields
              (after id completed correlation_id db.broker.attempts db.broker.sent db)
              (merged-order_id id context payload about_order for_order),
          acked,
        )
        refl

  -- For a saga that waits for its payment, payment.authorized whose send of ConfirmOrder fails throws
  -- with the saga stored as COMPLETED, and the redelivered event then returns and changes nothing,
  -- so that it sends nothing either, however the cluster is by then.
  pub on_event-lost_confirm :
      (later : Surroundings)
      → find_by_id id db ≡ some (waiting 1)
      → world.accepts db.broker.attempts ≡ false
      → (on_event world id "payment.authorized.v1" correlation_id payload db ≡ (
        err kafka_unavailable,
        after id completed correlation_id (db.broker.attempts + 1) db.broker.sent db,
      ))
        × (on_event later id "payment.authorized.v1" correlation_id payload
              (after id completed correlation_id (db.broker.attempts + 1) db.broker.sent db)
            ≡ (ok tt, after id completed correlation_id (db.broker.attempts + 1) db.broker.sent db))
  unfolding field make_command on_event
  on_event-lost_confirm later found refused = (
    rw
        (
          authorized found,
          publish_command-text world confirm_order_command id correlation_id confirm_fields
              (after id completed correlation_id db.broker.attempts db.broker.sent db)
              (merged-order_id id context payload about_order for_order),
          refused,
        )
        refl,
    rw (find_by_id-after id completed correlation_id (db.broker.attempts + 1) db.broker.sent db)
        refl,
  )

  abbrev pub authorizing : SagaInstanceSnapshot
  authorizing =
      checkout id 1 SagaStatus.in_progress (spread context payload)
        (history ++ record { step = "RESERVE_INVENTORY"; event = "SUCCEEDED"; at = world.now } ∷ [])

  abbrev pub authorize_fields : Fields
  authorize_fields = authorize_payment_step.build_command_payload (spread context payload)

  -- The stock is reserved and AuthorizePayment is sent.
  pub on_event-reserved :
      find_by_id id db ≡ some (waiting 0)
      → world.accepts db.broker.attempts ≡ true
      → on_event world id "inventory.reserved.v1" correlation_id payload db ≡ (
        ok tt,
        after id authorizing correlation_id
            (db.broker.attempts + 1)
            (db.broker.sent
              ++ message world db.broker.attempts authorize_payment_command authorize_fields
                  correlation_id id
                ∷ [])
            db,
      )
  unfolding field make_command on_event save_instance
  on_event-reserved found acked = rw found (
      rw
        (
          on_step_event-reserve (publish_command world) world.now
              (checkout id 0 SagaStatus.in_progress context history) "inventory.reserved.v1"
              correlation_id payload refl,
          ◌>>=◌,
          ◌>>◌,
        )
        (rw
          (
            publish_command-text world authorize_payment_command id correlation_id authorize_fields
                db (merged-order_id id context payload about_order for_order),
            acked,
          )
          refl))

module _ (world : Surroundings) (id customer_id : String) (ls : List ReservationLine)
    (amount_cents : ℕ) (correlation_id : String) where
  abbrev pub started : SagaInstanceSnapshot
  started =
      checkout id 0 SagaStatus.in_progress (initial_context id customer_id ls amount_cents)
        (record { step = "RESERVE_INVENTORY"; event = "STARTED"; at = world.now } ∷ [])

  abbrev pub reserve_fields : Fields
  reserve_fields = ("orderId", text id) ∷ ("lines", lines ls) ∷ []

  -- A new order: its saga is started and ReserveStock is sent.
  pub start-new :
      (db : SagaDb)
      → find_by_id id db ≡ none
      → world.accepts db.broker.attempts ≡ true
      → start world id customer_id ls amount_cents correlation_id db ≡ (
        ok tt,
        after id started correlation_id
            (db.broker.attempts + 1)
            (db.broker.sent
              ++ message world db.broker.attempts reserve_stock_command reserve_fields
                  correlation_id id
                ∷ [])
            db,
      )
  unfolding start start_saga save_instance field make_command
  start-new db fresh acked =
      rw (fresh, ◌>>=◌)
        (rw
          (
            publish_command-text world reserve_stock_command id correlation_id reserve_fields db
                refl,
            acked,
            start_saga,
            ◌>>=◌,
            ◌>>◌,
          )
          refl)

  -- The three events of a checkout that goes well.
  abbrev pub checkout_run : Fields → Fields → Action Error SagaDb (Unit {0})
  checkout_run reserved paid = do
    start world id customer_id ls amount_cents correlation_id
    on_event world id "inventory.reserved.v1" correlation_id reserved
    on_event world id "payment.authorized.v1" correlation_id paid

abbrev pub command_types : SagaDb → List String
command_types db = map (λ m. m.value.type) db.broker.sent

three_more :
    (xs : List Message) (a b c : Message)
    → map (λ m. m.value.type) (((xs ++ a ∷ []) ++ b ∷ []) ++ c ∷ [])
      ≡ map (λ m. m.value.type) xs ++ a.value.type ∷ b.value.type ∷ c.value.type ∷ []
three_more [] a b c = refl
three_more (x ∷ xs) a b c = ap (λ ts. x.value.type ∷ ts) (three_more xs a b c)

-- When every send is acknowledged, the events order.created, inventory.reserved and
-- payment.authorized of a new order send ReserveStock, AuthorizePayment and ConfirmOrder, in this
-- order, and leave its saga COMPLETED.
pub checkout_run-completes :
    (world : Surroundings) (id customer_id : String) (ls : List ReservationLine) (amount_cents : ℕ)
    (correlation_id : String) (reserved paid : Fields) (db : SagaDb)
    → ((n : ℕ) → world.accepts n ≡ true)
    → find_by_id id db ≡ none
    → field "orderId" reserved ≡ text id
    → field "orderId" paid ≡ text id
    → (db' : SagaDb) × (s : SagaInstanceSnapshot) × (checkout_run world id customer_id ls
          amount_cents correlation_id reserved paid db
        ≡ (ok tt, db'))
      × (find_by_id id db' ≡ some (record { snapshot = s; correlation_id = correlation_id }))
      × (s.status ≡ SagaStatus.completed)
      × (command_types db'
          ≡ command_types db
            ++ reserve_stock_command ∷ authorize_payment_command ∷ confirm_order_command ∷ [])
unfolding field make_command
checkout_run-completes world id customer_id ls amount_cents correlation_id reserved paid db acked
      fresh for_reserved for_paid =
    let s0 = started world id customer_id ls amount_cents correlation_id in
    let db1 =
      after id s0 correlation_id (db.broker.attempts + 1)
        (db.broker.sent
          ++ message world db.broker.attempts reserve_stock_command
              (reserve_fields world id customer_id ls amount_cents correlation_id) correlation_id id
            ∷ [])
        db in
    let context1 = spread s0.context reserved in
    let s1 =
      authorizing world id correlation_id reserved for_reserved db1 s0.context s0.history
        correlation_id refl in
    let db2 =
      after id s1 correlation_id (db1.broker.attempts + 1)
        (db1.broker.sent
          ++ message world db1.broker.attempts authorize_payment_command
              (authorize_payment_step.build_command_payload context1) correlation_id id
            ∷ [])
        db1 in
    let about = merged-order_id id s0.context reserved refl for_reserved in
    let s2 =
      completed world id correlation_id paid for_paid db2 context1 s1.history correlation_id
        about in
    let fields2 =
      confirm_fields world id correlation_id paid for_paid db2 context1 s1.history correlation_id
        about in
    let db3 =
      after id s2 correlation_id (db2.broker.attempts + 1)
        (db2.broker.sent
          ++ message world db2.broker.attempts confirm_order_command fields2 correlation_id id ∷ [])
        db2 in
    (
      db3,
      s2,
      rw
          (
            start-new world id customer_id ls amount_cents correlation_id db fresh
                (acked db.broker.attempts),
            ◌>>=◌,
            ◌>>◌,
          )
          (rw
            (
              on_event-reserved world id correlation_id reserved for_reserved db1 s0.context
                  s0.history correlation_id refl (find_by_id-after id s0 correlation_id _ _ db)
                  (acked db1.broker.attempts),
              ◌>>=◌,
              ◌>>◌,
            )
            (on_event-authorized world id correlation_id paid for_paid db2 context1 s1.history
              correlation_id about (find_by_id-after id s1 correlation_id _ _ db1)
              (acked db2.broker.attempts))),
      find_by_id-after id s2 correlation_id _ _ db2,
      refl,
      three_more db.broker.sent _ _ _,
    )
