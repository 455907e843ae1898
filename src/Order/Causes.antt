-- ===== src/Order/Causes.antt =====
-- Which command is behind an event of the order service.
use mathlib.Core.Option.{some-injective}
use kafka_ledger_saga.Base.{
  List-cases, Bool-cases, if_split, String, ◌≡◌, refl, ap, inl, inr, Bool, true, false, Option,
  none, some, Result, ok, length, ◌+◌, Action, ◌==◌, eq_of_==,
}
use kafka_ledger_saga.Contracts.{
  OrderEvent, ConfirmOrderCommandPayload, CancelOrderCommandPayload, CreateOrderCommandPayload,
  CommandEnvelope, Fields, text, field, as_text-some, map₂, create_order_command,
  confirm_order_command, cancel_order_command, read_create_order, read_confirm_order,
  read_cancel_order,
}
use kafka_ledger_saga.Errors.{Error}
use kafka_ledger_saga.EventSourcing.{Ambient, StoredEvent, Uncommitted}
use kafka_ledger_saga.EventSourcing.Consistency.{stream, saved, event_row}
use kafka_ledger_saga.Order.Domain.{OrderState, is_created, is_final}
use kafka_ledger_saga.Order.Service.{
  OrderDb, order_service, execute_create, execute_confirm, execute_cancel, dispatch, with_payload,
}
use kafka_ledger_saga.Order.Branches.{
  IsValid, new_state, new_event, confirmed_state, confirmed_event, cancelled_state, cancelled_event,
  execute_create-new, execute_create-duplicate, execute_confirm-unknown, execute_confirm-created,
  execute_confirm-ignored, execute_cancel-unknown, execute_cancel-open, execute_cancel-ignored,
}

abbrev pub is_confirmed : OrderEvent → Bool
is_confirmed (OrderEvent.confirmed _) = true
is_confirmed _ = false

abbrev pub is_cancelled : OrderEvent → Bool
is_cancelled (OrderEvent.cancelled _) = true
is_cancelled _ = false

-- The command asks for what the event says, for the same order.
pub record IsAsked (command_type : String) (payload : Fields) (r : StoredEvent OrderEvent)
    : Type 0 where
  pub to_confirm :
      is_confirmed r.event ≡ true
      → (command_type ≡ confirm_order_command) × (field "orderId" payload ≡ text r.aggregate_id)
  pub to_cancel :
      is_cancelled r.event ≡ true
      → (command_type ≡ cancel_order_command) × (field "orderId" payload ≡ text r.aggregate_id)

pub data Answered (command_type : String) (payload : Fields) (db db' : OrderDb) : Type 0 where
  unanswered : db' ≡ db → Answered command_type payload db db'
  answered :
      (ambient : Ambient) (correlation_id id : String) (s : OrderState) (u : Uncommitted OrderEvent)
      → IsAsked command_type payload
          (event_row order_service ambient correlation_id id (length (stream id db) + 1) u)
      → db' ≡ saved order_service ambient correlation_id id s (length (stream id db) + 1) 0 u db
      → Answered command_type payload db db'

confirm_id :
    (a b : Option String) (c : ConfirmOrderCommandPayload)
    → map₂ (λ i p. record { order_id = i; payment_id = p }) a b ≡ some c
    → a ≡ some c.order_id
confirm_id none b c e = cc
confirm_id (some i) none c e = cc
confirm_id (some i) (some p) c e =
    ap (λ (r : ConfirmOrderCommandPayload). some r.order_id) (some-injective _ c e)

cancel_id :
    (a b : Option String) (c : CancelOrderCommandPayload)
    → map₂ (λ i p. record { order_id = i; reason = p }) a b ≡ some c
    → a ≡ some c.order_id
cancel_id none b c e = cc
cancel_id (some i) none c e = cc
cancel_id (some i) (some p) c e =
    ap (λ (r : CancelOrderCommandPayload). some r.order_id) (some-injective _ c e)

confirm_about :
    (payload : Fields) (c : ConfirmOrderCommandPayload)
    → read_confirm_order payload ≡ some c
    → field "orderId" payload ≡ text c.order_id
unfolding read_confirm_order
confirm_about payload c e = as_text-some (field "orderId" payload) c.order_id (confirm_id _ _ c e)

cancel_about :
    (payload : Fields) (c : CancelOrderCommandPayload)
    → read_cancel_order payload ≡ some c
    → field "orderId" payload ≡ text c.order_id
unfolding read_cancel_order
cancel_about payload c e = as_text-some (field "orderId" payload) c.order_id (cancel_id _ _ c e)

module _ (ambient : Ambient) (correlation_id command_type : String) (payload : Fields)
    (db : OrderDb) (v : IsValid db) where
  abbrev Leads : Result Error (Unit {0}) × OrderDb → Type 0
  Leads r = Answered command_type payload db r.1

  same :
      {r : Result Error (Unit {0}) × OrderDb} {x : Result Error (Unit {0})} → r ≡ (x, db) → Leads r
  same e = unanswered (ap (λ r. r.1) e)

  stored :
      {r : Result Error (Unit {0}) × OrderDb} (id : String) (s : OrderState)
      (u : Uncommitted OrderEvent)
      → IsAsked command_type payload
          (event_row order_service ambient correlation_id id (length (stream id db) + 1) u)
      → r ≡ (
        ok tt,
        saved order_service ambient correlation_id id s (length (stream id db) + 1) 0 u db,
      )
      → Leads r
  stored id s u asked e = answered ambient correlation_id id s u asked (ap (λ r. r.1) e)

  create-Answered :
      (c : CreateOrderCommandPayload) → Leads (execute_create ambient correlation_id c db)
  create-Answered c = elim (List-cases (stream c.order_id db)) [
    | inl e ↦
        stored {r = execute_create ambient correlation_id c db} c.order_id (new_state c)
          (new_event ambient.now c) (record { to_confirm = λ x. cc; to_cancel = λ x. cc })
          (rw e (execute_create-new ambient correlation_id db v c e))
    | inr ne ↦ same (execute_create-duplicate ambient correlation_id db v c ne)
  ]

  confirm-Answered :
      (c : ConfirmOrderCommandPayload)
      → command_type ≡ confirm_order_command
      → field "orderId" payload ≡ text c.order_id
      → Leads (execute_confirm ambient correlation_id c db)
  confirm-Answered c t about = elim (List-cases (stream c.order_id db)) [
    | inl e ↦ same (execute_confirm-unknown ambient correlation_id db v c e)
    | inr ne ↦ elim (Bool-cases (is_created (v c.order_id).0.status)) [
      | inl yes_created ↦
          stored c.order_id (confirmed_state c.payment_id (v c.order_id).0)
            (confirmed_event ambient.now c.order_id c.payment_id)
            (record { to_confirm = λ _. (t, about); to_cancel = λ x. cc })
            (execute_confirm-created ambient correlation_id db v c ne yes_created)
      | inr closed ↦ same (execute_confirm-ignored ambient correlation_id db v c ne closed)
    ]
  ]

  cancel-Answered :
      (c : CancelOrderCommandPayload)
      → command_type ≡ cancel_order_command
      → field "orderId" payload ≡ text c.order_id
      → Leads (execute_cancel ambient correlation_id c db)
  cancel-Answered c t about = elim (List-cases (stream c.order_id db)) [
    | inl e ↦ same (execute_cancel-unknown ambient correlation_id db v c e)
    | inr ne ↦ elim (Bool-cases (is_final (v c.order_id).0.status)) [
      | inl final ↦ same (execute_cancel-ignored ambient correlation_id db v c ne final)
      | inr still_open ↦
          stored c.order_id (cancelled_state c.reason (v c.order_id).0)
            (cancelled_event ambient.now c.order_id c.reason)
            (record { to_confirm = λ x. cc; to_cancel = λ _. (t, about) })
            (execute_cancel-open ambient correlation_id db v c ne still_open)
    ]
  ]

  with_payload-Answered :
      {P : Type 0} (t : String) (p : Option P) (f : P → Action Error OrderDb (Unit {0}))
      → ((x : P) → p ≡ some x → Leads (f x db))
      → Leads (with_payload t p f db)
  with_payload-Answered t none f h = unanswered refl
  with_payload-Answered t (some x) f h = h x refl

-- Every command that the order service dispatches leaves its tables alone, or stores the next event
-- of one order: OrderConfirmed only for ConfirmOrder and OrderCancelled only for CancelOrder, for
-- the order that the command names.
pub dispatch-Answered :
    (ambient : Ambient) (e : CommandEnvelope Fields) (db : OrderDb)
    → IsValid db
    → Answered e.type e.payload db (dispatch ambient e db).1
unfolding dispatch
dispatch-Answered ambient e db v =
    let Good = λ (m : Action Error OrderDb (Unit {0})). Answered e.type e.payload db (m db).1 in
    if_split Good (e.type == create_order_command)
      (λ _.
        with_payload-Answered ambient e.correlation_id e.type e.payload db v e.type
          (read_create_order e.payload) _
          (λ c _. create-Answered ambient e.correlation_id e.type e.payload db v c))
      (λ _.
        if_split Good (e.type == confirm_order_command)
          (λ t.
            with_payload-Answered ambient e.correlation_id e.type e.payload db v e.type
              (read_confirm_order e.payload) _
              (λ c r.
                confirm-Answered ambient e.correlation_id e.type e.payload db v c (eq_of_== _ _ t)
                  (confirm_about e.payload c r)))
          (λ _.
            if_split Good (e.type == cancel_order_command)
              (λ t.
                with_payload-Answered ambient e.correlation_id e.type e.payload db v e.type
                  (read_cancel_order e.payload) _
                  (λ c r.
                    cancel-Answered ambient e.correlation_id e.type e.payload db v c
                      (eq_of_== _ _ t) (cancel_about e.payload c r)))
              (λ _. unanswered refl)))
