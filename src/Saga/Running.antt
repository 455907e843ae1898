-- ===== src/Saga/Running.antt =====
-- What `onEvent` makes of a saga that is in progress.
use kafka_ledger_saga.Base.{
  String, ◌≡◌, refl, ◌⊎◌, inl, inr, sym, if_split, arith, ◌∙◌, subst, some, Action, pure, ◌>>=◌,
  ◌==◌, eq_of_==, if◌then◌else◌,
}
use kafka_ledger_saga.Contracts.{SagaStatus, Fields, text, field, authorize_payment_command}
use kafka_ledger_saga.Errors.{Error}
use kafka_ledger_saga.Saga.Toolkit.{SagaInstanceSnapshot, on_step_event}
use kafka_ledger_saga.Saga.Definition.{order_fulfillment_saga}
use kafka_ledger_saga.Saga.Machine.{
  SagaDb, SagaInstanceEntity, Surroundings, publish_command, find_by_id, is_terminal, on_found,
}
use kafka_ledger_saga.Saga.Steps.{on_step_event-reserve, on_step_event-authorize, merged}
use kafka_ledger_saga.Saga.Changes.{
  IsSoundRow, Position, IsOpen, Change, Good, save_and_announce, Why, IsAtPayment, completed-Change,
  compensated-Change, in_progress-Change, sent-Change, merged-order_id,
}

pub not_completed : SagaStatus.in_progress ≡ SagaStatus.completed → ⊥
not_completed e = cc

pub not_compensated : SagaStatus.in_progress ≡ SagaStatus.compensated → ⊥
not_compensated e = cc

not_both : SagaStatus.compensated ≡ SagaStatus.completed → ⊥
not_both e = cc

module _ (world : Surroundings) (db : SagaDb) (id : String) where
  module _ (event_type correlation_id : String) (payload : Fields)
      (for_order : field "orderId" payload ≡ text id) (row : SagaInstanceEntity)
      (found : find_by_id id db ≡ some row) (sound : IsSoundRow id row)
      (running : row.snapshot.status ≡ SagaStatus.in_progress) where
    abbrev s : SagaInstanceSnapshot
    s = row.snapshot

    found-IsOpen : IsOpen (find_by_id id db)
    found-IsOpen = rw (found, running, is_terminal)

    for_merged :
        field "orderId"
          (merged (publish_command world) world.now s event_type correlation_id payload)
        ≡ text id
    for_merged = merged-order_id id s.context payload sound.for_order for_order

    abbrev Steps : Action Error SagaDb SagaInstanceSnapshot → Type 0
    Steps =
        Good world db event_type payload
          (save_and_announce world db event_type payload correlation_id)

    abbrev Because : SagaInstanceSnapshot → Type 0
    Because = Why event_type payload id (find_by_id id db)

    waits : s.current_step_index ≡ 1 → IsAtPayment (find_by_id id db)
    waits e = rw found e

    ignored : Steps (pure s)
    ignored =
        in_progress-Change world db event_type payload id correlation_id found-IsOpen s
          (record { keyed = sound.keyed; for_order = sound.for_order; placed = sound.placed })
          (record {
            to_payment = λ e. inr (waits e);
            to_completed = λ e. absurd (not_completed (sym running ∙ e));
            to_compensated = λ e. absurd (not_compensated (sym running ∙ e));
          })
          running

    reserve-Change :
        s.current_step_index ≡ 0
        → Steps (
            on_step_event order_fulfillment_saga
              (publish_command world)
              world.now
              s
              event_type
              correlation_id
              payload)
    unfolding field
    reserve-Change e =
        rw
          (on_step_event-reserve (publish_command world) world.now s event_type correlation_id
            payload e)
          (if_split Steps (event_type == "inventory.reserved.v1")
            (λ t.
              sent-Change world db event_type payload id correlation_id found-IsOpen _
                (record { keyed = sound.keyed; for_order = for_merged; placed = inr refl })
                (record {
                  to_payment = λ _. inl (eq_of_== _ _ t, for_order);
                  to_completed = λ x. absurd (not_completed x);
                  to_compensated = λ x. absurd (not_compensated x);
                })
                authorize_payment_command _ for_merged refl (inr refl))
            (λ _.
              if_split Steps (event_type == "inventory.reservation_failed.v1")
                (λ t.
                  compensated-Change world db event_type payload id correlation_id found-IsOpen _
                    (record { keyed = sound.keyed; for_order = for_merged; placed = inl refl })
                    (record {
                      to_payment = λ x. absurd (omega arith);
                      to_completed = λ x. absurd (not_both x);
                      to_compensated = λ _. (inl (eq_of_== _ _ t), for_order);
                    })
                    refl)
                (λ _. ignored)))

    authorize-Change :
        s.current_step_index ≡ 1
        → Steps (
            on_step_event order_fulfillment_saga
              (publish_command world)
              world.now
              s
              event_type
              correlation_id
              payload)
    authorize-Change e =
        rw
          (on_step_event-authorize (publish_command world) world.now s event_type correlation_id
            payload e)
          (if_split Steps (event_type == "payment.authorized.v1")
            (λ t.
              completed-Change world db event_type payload id correlation_id found-IsOpen _
                (record { keyed = sound.keyed; for_order = for_merged; placed = refl })
                (record {
                  to_payment = λ _. inr (waits e);
                  to_completed = λ _. (eq_of_== _ _ t, for_order, waits e);
                  to_compensated = λ x. absurd (not_both (sym x));
                })
                refl)
            (λ _.
              if_split Steps (event_type == "payment.declined.v1")
                (λ t.
                  compensated-Change world db event_type payload id correlation_id found-IsOpen _
                    (record { keyed = sound.keyed; for_order = for_merged; placed = inr refl })
                    (record {
                      to_payment = λ _. inr (waits e);
                      to_completed = λ x. absurd (not_both x);
                      to_compensated = λ _. (inr (eq_of_== _ _ t), for_order);
                    })
                    refl)
                (λ _. ignored)))

    at_position :
        (s.current_step_index ≡ 0) ⊎ (s.current_step_index ≡ 1)
        → Steps (
            on_step_event order_fulfillment_saga
              (publish_command world)
              world.now
              s
              event_type
              correlation_id
              payload)
    at_position (inl e) = reserve-Change e
    at_position (inr e) = authorize-Change e

    pub running-Change :
        Change event_type payload db
          (on_found world (some row) event_type correlation_id payload db).1
    running-Change =
        subst
          (λ st.
            Change event_type payload db
              ((if is_terminal st then pure tt else (do
                updated ←
                    on_step_event order_fulfillment_saga (publish_command world) world.now s
                      event_type correlation_id payload
                save_and_announce world db event_type payload correlation_id updated))
                db).1)
          (sym running) (at_position (subst (Position s.current_step_index) running sound.placed))
