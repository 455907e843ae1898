-- ===== src/Order/Outcomes.antt =====
-- Every command to the order service leaves the tables alone, or appends the next event of one
-- order; so the projection shows the replayed stream, and the outbox mirrors the event store.
use kafka_ledger_saga.Base.{
  List-cases, if_elim, ap, ◌+◌, String, ◌≡◌, refl, Bool-cases, inl, inr, Option, none, some, List,
  [], ◌∷◌, Result, ok, length, Action, ◌==◌,
}
use kafka_ledger_saga.Contracts.{
  OrderEvent, CreateOrderCommandPayload, ConfirmOrderCommandPayload, CancelOrderCommandPayload,
  CommandEnvelope, Fields, create_order_command, confirm_order_command, cancel_order_command,
  read_create_order, read_confirm_order, read_cancel_order,
}
use kafka_ledger_saga.Errors.{Error}
use kafka_ledger_saga.EventSourcing.{Ambient, Uncommitted}
use kafka_ledger_saga.EventSourcing.Consistency.{stream, saved}
use kafka_ledger_saga.EventSourcing.Outcomes.{
  Outcome, kept, appended, Outcome-IsConsistent, Outcome-IsMirrored, IsMirrored,
}
use kafka_ledger_saga.Order.Domain.{OrderState, when, is_created, is_final}
use kafka_ledger_saga.Order.Service.{
  OrderDb, order_service, execute_create, execute_confirm, execute_cancel, dispatch, with_payload,
}
use kafka_ledger_saga.Order.Branches.{
  IsValid, new_state, new_event, confirmed_state, confirmed_event, cancelled_state, cancelled_event,
  execute_create-new, execute_create-duplicate, execute_confirm-unknown, execute_confirm-created,
  execute_confirm-ignored, execute_cancel-unknown, execute_cancel-open, execute_cancel-ignored,
}

module _ (ambient : Ambient) (correlation_id : String) (db : OrderDb) (v : IsValid db) where
  abbrev OrderOutcome : Result Error (Unit {0}) × OrderDb → Type 0
  OrderOutcome r = Outcome when order_service db r.1

  unchanged :
      {r : Result Error (Unit {0}) × OrderDb} {x : Result Error (Unit {0})}
      → r ≡ (x, db)
      → OrderOutcome r
  unchanged e = kept (ap (λ r. r.1) e)

  grown :
      {r : Result Error (Unit {0}) × OrderDb} (id : String) (s' : OrderState)
      (u : Uncommitted OrderEvent)
      → when u.event (v id).0 ≡ ok s'
      → r ≡ (
        ok tt,
        saved order_service ambient correlation_id id s' (length (stream id db) + 1) 0 u db,
      )
      → OrderOutcome r
  grown id s' u w e =
      appended ambient correlation_id id (v id).0 s' 0 u (v id).2 w (ap (λ r. r.1) e)

  execute_create-Outcome :
      (c : CreateOrderCommandPayload) → OrderOutcome (execute_create ambient correlation_id c db)
  unfolding when
  execute_create-Outcome c = elim (List-cases (stream c.order_id db)) [
    | inl e ↦
        grown {r = execute_create ambient correlation_id c db} c.order_id (new_state c)
          (new_event ambient.now c) refl (rw e (execute_create-new ambient correlation_id db v c e))
    | inr ne ↦ unchanged (execute_create-duplicate ambient correlation_id db v c ne)
  ]

  execute_confirm-Outcome :
      (c : ConfirmOrderCommandPayload) → OrderOutcome (execute_confirm ambient correlation_id c db)
  unfolding when
  execute_confirm-Outcome c = elim (List-cases (stream c.order_id db)) [
    | inl e ↦ unchanged (execute_confirm-unknown ambient correlation_id db v c e)
    | inr ne ↦ elim (Bool-cases (is_created (v c.order_id).0.status)) [
      | inl t ↦
          grown c.order_id (confirmed_state c.payment_id (v c.order_id).0)
            (confirmed_event ambient.now c.order_id c.payment_id) refl
            (execute_confirm-created ambient correlation_id db v c ne t)
      | inr f ↦ unchanged (execute_confirm-ignored ambient correlation_id db v c ne f)
    ]
  ]

  execute_cancel-Outcome :
      (c : CancelOrderCommandPayload) → OrderOutcome (execute_cancel ambient correlation_id c db)
  unfolding when
  execute_cancel-Outcome c = elim (List-cases (stream c.order_id db)) [
    | inl e ↦ unchanged (execute_cancel-unknown ambient correlation_id db v c e)
    | inr ne ↦ elim (Bool-cases (is_final (v c.order_id).0.status)) [
      | inl t ↦ unchanged (execute_cancel-ignored ambient correlation_id db v c ne t)
      | inr f ↦
          grown c.order_id (cancelled_state c.reason (v c.order_id).0)
            (cancelled_event ambient.now c.order_id c.reason) refl
            (execute_cancel-open ambient correlation_id db v c ne f)
    ]
  ]

  with_payload-Outcome :
      {P : Type 0} (t : String) (p : Option P) (f : P → Action Error OrderDb (Unit {0}))
      → ((x : P) → OrderOutcome (f x db))
      → OrderOutcome (with_payload t p f db)
  with_payload-Outcome t none f h = kept refl
  with_payload-Outcome t (some x) f h = h x

-- The three handlers behind the switch of `dispatch`.
pub dispatch-Outcome :
    (ambient : Ambient) (e : CommandEnvelope Fields) (db : OrderDb)
    → IsValid db
    → Outcome when order_service db (dispatch ambient e db).1
unfolding dispatch
dispatch-Outcome ambient e db v =
    let Good = λ (m : Action Error OrderDb (Unit {0})). Outcome when order_service db (m db).1 in
    if_elim Good (e.type == create_order_command)
      (with_payload-Outcome ambient e.correlation_id db v e.type (read_create_order e.payload) _
        (execute_create-Outcome ambient e.correlation_id db v))
      (if_elim Good (e.type == confirm_order_command)
        (with_payload-Outcome ambient e.correlation_id db v e.type (read_confirm_order e.payload) _
          (execute_confirm-Outcome ambient e.correlation_id db v))
        (if_elim Good (e.type == cancel_order_command)
          (with_payload-Outcome ambient e.correlation_id db v e.type (read_cancel_order e.payload) _
            (execute_cancel-Outcome ambient e.correlation_id db v))
          (kept refl)))

-- Whatever command the consumer dispatches, and whether it returns or throws, every order's stream
-- stays numbered from 1 without a gap and its projection row shows the replayed stream.
pub dispatch-IsValid :
    (ambient : Ambient) (e : CommandEnvelope Fields) (db : OrderDb)
    → IsValid db
    → IsValid (dispatch ambient e db).1
dispatch-IsValid ambient e db v =
    Outcome-IsConsistent when order_service (dispatch-Outcome ambient e db v) v

-- A run of the consumer: every command of a list in turn, each with its own clock and UUIDs; a
-- throw leaves the state that it reached.
unfoldable pub run : List (Ambient × CommandEnvelope Fields) → OrderDb → OrderDb
run [] db = db
run ((ambient, e) ∷ rest) db = run rest (dispatch ambient e db).1

-- After any run of commands, whether they return or throw, every order's stream is numbered from 1
-- without a gap and its projection row shows the replayed stream, if so at the start.
pub run-IsValid :
    (commands : List (Ambient × CommandEnvelope Fields)) (db : OrderDb)
    → IsValid db
    → IsValid (run commands db)
unfolding run
run-IsValid [] db v = v
run-IsValid ((ambient, e) ∷ rest) db v =
    run-IsValid rest (dispatch ambient e db).1 (dispatch-IsValid ambient e db v)

-- After any run of commands from consistent tables, the outbox holds the events of the event store
-- in the same order, each with its order and its correlation id, if it did at the start.
pub run-IsMirrored :
    (commands : List (Ambient × CommandEnvelope Fields)) (db : OrderDb)
    → IsValid db
    → IsMirrored when order_service db
    → IsMirrored when order_service (run commands db)
unfolding run
run-IsMirrored [] db v m = m
run-IsMirrored ((ambient, e) ∷ rest) db v m =
    run-IsMirrored rest (dispatch ambient e db).1 (dispatch-IsValid ambient e db v)
      (Outcome-IsMirrored when order_service (dispatch-Outcome ambient e db v) m)
