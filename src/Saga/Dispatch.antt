-- ===== src/Saga/Dispatch.antt =====
-- Every event that the orchestrator dispatches is such a change, and keeps the table of sagas sound.
use mathlib.Core.Option.{some-injective}
use kafka_ledger_saga.Base.{
  ℕ, String, ◌≡◌, refl, inl, inr, arith, ◌∙◌, subst, Bool, true, false, Bool-cases, Option-cases,
  if_elim, Option, none, some, List, [], ◌∷◌, Action, pure, ◌>>=◌, ◌>>◌, ◌==◌, eq_of_==,
  if◌then◌else◌,
}
use kafka_ledger_saga.Contracts.{
  SagaStatus, Fields, Value, text, lines, field, as_text, as_text-some, EventEnvelope,
  reserve_stock_command, read_order_created, OrderCreatedPayload, ReservationLine, make_command,
}
use kafka_ledger_saga.Errors.{Error}
use kafka_ledger_saga.EventSourcing.{find_one}
use kafka_ledger_saga.EventSourcing.Consistency.{find_one-upsert}
use kafka_ledger_saga.Saga.Toolkit.{start_saga}
use kafka_ledger_saga.Saga.Machine.{
  SagaDb, SagaInstanceEntity, Surroundings, find_by_id, save_instance, is_terminal, start, on_event,
  dispatch, route, start_from, to_lines,
}
use kafka_ledger_saga.Saga.Steps.{message, publish_command-text}
use kafka_ledger_saga.Saga.Changes.{IsSoundRow, IsSound, Position, Change, idle, moved, one}
use kafka_ledger_saga.Saga.Running.{not_completed, not_compensated, running-Change}

running_of :
    (i : ℕ) (st : SagaStatus) → Position i st → is_terminal st ≡ false → st ≡ SagaStatus.in_progress
running_of i SagaStatus.in_progress p e = refl
running_of i SagaStatus.completed p e = cc
running_of i SagaStatus.compensated p e = cc
running_of i SagaStatus.started p e = absurd p
running_of i SagaStatus.compensating p e = absurd p
running_of i SagaStatus.failed p e = absurd p

abbrev reserve_payload : String → List ReservationLine → Fields
reserve_payload id ls = ("orderId", text id) ∷ ("lines", lines ls) ∷ []

module _ (world : Surroundings) (db : SagaDb) (sound : IsSound db) where
  terminal-Change :
      {event_type : String} {payload : Fields} (b : Bool) (m : Action Error SagaDb (Unit {0}))
      → b ≡ true
      → Change event_type payload db ((if b then pure tt else m) db).1
  terminal-Change true m e = idle refl refl
  terminal-Change false m e = cc

  on_event-Change :
      (id event_type correlation_id : String) (payload : Fields)
      → field "orderId" payload ≡ text id
      → Change event_type payload db (on_event world id event_type correlation_id payload db).1
  unfolding on_event
  on_event-Change id event_type correlation_id payload for_order =
      elim (Option-cases (find_by_id id db)) [
        | inl e ↦ rw e (idle refl refl)
        | inr (row, e) ↦ rw e (elim (Bool-cases (is_terminal row.snapshot.status)) [
          | inl t ↦ terminal-Change (is_terminal row.snapshot.status) _ t
          | inr f ↦
              running-Change world db id event_type correlation_id payload for_order row e
                (sound.at id row e)
                (running_of row.snapshot.current_step_index row.snapshot.status
                  (sound.at id row e).placed f)
        ])
      ]

  start-Change :
      (event_type : String) (payload : Fields) (id customer_id : String) (ls : List ReservationLine)
      (amount : ℕ) (correlation_id : String)
      → Change event_type payload db (start world id customer_id ls amount correlation_id db).1
  unfolding start start_saga save_instance field make_command
  start-Change event_type payload id customer_id ls amount correlation_id =
      elim (Option-cases (find_by_id id db)) [
        | inr (row, e) ↦ rw e (idle refl refl)
        | inl e ↦
            rw (e, ◌>>=◌)
              (rw
                (
                  publish_command-text world reserve_stock_command id correlation_id
                      (reserve_payload id ls) db refl,
                  start_saga,
                  ◌>>=◌,
                  ◌>>◌,
                )
                (elim (Bool-cases (world.accepts db.broker.attempts)) [
                  | inl acked ↦ rw acked (
                      moved id _
                        (message world db.broker.attempts reserve_stock_command
                            (reserve_payload id ls) correlation_id id
                          ∷ [])
                        (rw e tt) (record { keyed = refl; for_order = refl; placed = inl refl })
                        (record {
                          to_payment = λ x. absurd (omega arith);
                          to_completed = λ x. absurd (not_completed x);
                          to_compensated = λ x. absurd (not_compensated x);
                        })
                        (one _ refl refl (inl refl) refl) refl refl)
                  | inr lost ↦ rw lost (idle refl refl)
                ]))
      ]

  start_from-Change :
      (event_type : String) (payload : Fields) (p : Option OrderCreatedPayload)
      (correlation_id : String)
      → Change event_type payload db (start_from world p correlation_id db).1
  start_from-Change event_type payload none correlation_id = idle refl refl
  start_from-Change event_type payload (some p) correlation_id =
      start-Change event_type payload p.order_id p.customer_id (to_lines p.items) p.total_cents
        correlation_id

  route-Change :
      (v : Value) (o : Option String) (event_type correlation_id : String) (payload : Fields)
      → field "orderId" payload ≡ v
      → as_text v ≡ o
      → Change event_type payload db (route world o event_type correlation_id payload db).1
  route-Change v none event_type correlation_id payload h e = idle refl refl
  route-Change v (some id) event_type correlation_id payload h e =
      if_elim (λ (m : Action Error SagaDb (Unit {0})). Change event_type payload db (m db).1)
        (id == "") (idle refl refl)
        (on_event-Change id event_type correlation_id payload (h ∙ as_text-some v id e))

  -- On sound tables, each dispatched event changes nothing, or stores the next row of one saga that
  -- is new or not yet ended and sends at most one message for its order, of the type that goes with
  -- the new status. The step of the payment is reached by inventory.reserved, COMPLETED from there by
  -- payment.authorized, and COMPENSATED by inventory.reservation_failed or payment.declined, each of
  -- them for this order.
  pub dispatch-Change :
      (e : EventEnvelope Fields) → Change e.type e.payload db (dispatch world e db).1
  unfolding dispatch
  dispatch-Change e =
      if_elim (λ (m : Action Error SagaDb (Unit {0})). Change e.type e.payload db (m db).1)
        (e.type == "order.created.v1")
        (start_from-Change e.type e.payload (read_order_created e.payload) e.correlation_id)
        (route-Change (field "orderId" e.payload) _ e.type e.correlation_id e.payload refl refl)

-- A change keeps every row of the table of sagas sound.
pub Change-IsSound :
    {t : String} {o : Fields} {db db' : SagaDb} → Change t o db db' → IsSound db → IsSound db'
unfolding find_by_id
Change-IsSound (idle e _) h = record { at = λ id row found. h.at id row (rw e at found) }
Change-IsSound {db} (moved id row messages _ sound _ _ e _) h = record {
  at = λ j r found. at_key j r (rw (e, find_one-upsert id j row db.instances) at found);
}
  where
    at_key :
        (j : String) (r : SagaInstanceEntity)
        → (if id == j then some row else find_one j db.instances) ≡ some r
        → IsSoundRow j r
    at_key j r found = elim (Bool-cases (id == j)) [
      | inl same ↦
          subst (IsSoundRow j) (some-injective row r (rw same at found))
            (subst (λ k. IsSoundRow k row) (eq_of_== id j same) sound)
      | inr other ↦ h.at j r (rw other at found)
    ]
