-- ===== src/Order/Finality.antt =====
-- A confirmed or cancelled order never changes again.
use kafka_ledger_saga.Base.{
  List-cases, if_elim, ap, ◌+◌, String, ◌≡◌, refl, sym, subst, Bool, true, false, Bool-cases, inl,
  inr, Option, none, some, List, [], ◌∷◌, Result, length, Action, ◌==◌, eq_of_==,
}
use kafka_ledger_saga.Contracts.{
  OrderStatus, OrderEvent, CreateOrderCommandPayload, ConfirmOrderCommandPayload,
  CancelOrderCommandPayload, CommandEnvelope, Fields, create_order_command, confirm_order_command,
  cancel_order_command, read_create_order, read_confirm_order, read_cancel_order,
}
use kafka_ledger_saga.Errors.{Error}
use kafka_ledger_saga.EventSourcing.{Ambient, StoredEvent, find_one, upsert}
use kafka_ledger_saga.EventSourcing.Consistency.{stream, projected, find_one-upsert}
use kafka_ledger_saga.Order.Domain.{OrderState, when, is_created, is_final}
use kafka_ledger_saga.Order.Service.{
  OrderDb, OrderProjection, order_service, project, execute_create, execute_confirm, execute_cancel,
  dispatch, with_payload,
}
use kafka_ledger_saga.Order.Branches.{
  IsValid, new_state, confirmed_state, cancelled_state, execute_create-new,
  execute_create-duplicate, execute_confirm-unknown, execute_confirm-created,
  execute_confirm-ignored, execute_cancel-unknown, execute_cancel-open, execute_cancel-ignored,
}
use kafka_ledger_saga.Order.Outcomes.{run, dispatch-IsValid}

abbrev is_closed : Option OrderProjection → Bool
is_closed none = false
is_closed (some row) = is_final row.status

-- A command writes no row, or the row of an order that is new or still open.
data Write (db db' : OrderDb) : Type 0 where
  none_written : db' ≡ db → Write db db'
  written :
      (id : String) (row : OrderProjection)
      → is_closed (find_one id db.projection) ≡ false
      → db'.projection ≡ upsert id row db.projection
      → Write db db'

created_is_open : (status : OrderStatus) → is_created status ≡ true → is_final status ≡ false
created_is_open OrderStatus.created e = refl
created_is_open OrderStatus.uninitialized e = cc
created_is_open OrderStatus.confirmed e = cc
created_is_open OrderStatus.cancelled e = cc

projected_is_open :
    (id : String) (s : OrderState) (rows : List (StoredEvent OrderEvent))
    → is_final s.status ≡ false
    → is_closed (projected when order_service id s rows) ≡ false
projected_is_open id s [] e = refl
projected_is_open id s (r ∷ rows) e = e

module _ (ambient : Ambient) (correlation_id : String) (db : OrderDb) (v : IsValid db) where
  abbrev Writes : Result Error (Unit {0}) × OrderDb → Type 0
  Writes r = Write db r.1

  open_row :
      (id : String)
      → is_final (v id).0.status ≡ false
      → is_closed (find_one id db.projection) ≡ false
  open_row id e = rw (v id).3 (projected_is_open id (v id).0 (stream id db) e)

  execute_create-Write :
      (c : CreateOrderCommandPayload) → Writes (execute_create ambient correlation_id c db)
  execute_create-Write c = elim (List-cases (stream c.order_id db)) [
    | inr ne ↦
        none_written (ap (λ r. r.1) (execute_create-duplicate ambient correlation_id db v c ne))
    | inl e ↦ subst Writes (sym (execute_create-new ambient correlation_id db v c e)) (
        written c.order_id (project c.order_id (new_state c) 1) (rw ((v c.order_id).3, e) refl)
          refl)
  ]

  execute_confirm-Write :
      (c : ConfirmOrderCommandPayload) → Writes (execute_confirm ambient correlation_id c db)
  execute_confirm-Write c = elim (List-cases (stream c.order_id db)) [
    | inl e ↦ none_written (ap (λ r. r.1) (execute_confirm-unknown ambient correlation_id db v c e))
    | inr ne ↦ elim (Bool-cases (is_created (v c.order_id).0.status)) [
      | inr f ↦
          none_written (ap (λ r. r.1) (execute_confirm-ignored ambient correlation_id db v c ne f))
      | inl t ↦ subst Writes (sym (execute_confirm-created ambient correlation_id db v c ne t)) (
          written c.order_id
            (project c.order_id (confirmed_state c.payment_id (v c.order_id).0)
              (length (stream c.order_id db) + 1))
            (open_row c.order_id (created_is_open (v c.order_id).0.status t)) refl)
    ]
  ]

  execute_cancel-Write :
      (c : CancelOrderCommandPayload) → Writes (execute_cancel ambient correlation_id c db)
  execute_cancel-Write c = elim (List-cases (stream c.order_id db)) [
    | inl e ↦ none_written (ap (λ r. r.1) (execute_cancel-unknown ambient correlation_id db v c e))
    | inr ne ↦ elim (Bool-cases (is_final (v c.order_id).0.status)) [
      | inl t ↦
          none_written (ap (λ r. r.1) (execute_cancel-ignored ambient correlation_id db v c ne t))
      | inr f ↦ subst Writes (sym (execute_cancel-open ambient correlation_id db v c ne f)) (
          written c.order_id
            (project c.order_id (cancelled_state c.reason (v c.order_id).0)
              (length (stream c.order_id db) + 1))
            (open_row c.order_id f) refl)
    ]
  ]

  with_payload-Write :
      {P : Type 0} (t : String) (p : Option P) (f : P → Action Error OrderDb (Unit {0}))
      → ((x : P) → Writes (f x db))
      → Writes (with_payload t p f db)
  with_payload-Write t none f h = none_written refl
  with_payload-Write t (some x) f h = h x

dispatch-Write :
    (ambient : Ambient) (e : CommandEnvelope Fields) (db : OrderDb)
    → IsValid db
    → Write db (dispatch ambient e db).1
unfolding dispatch
dispatch-Write ambient e db v =
    let Good = λ (m : Action Error OrderDb (Unit {0})). Write db (m db).1 in
    let cid = e.correlation_id in
    if_elim Good (e.type == create_order_command)
      (with_payload-Write ambient cid db v e.type (read_create_order e.payload) _
        (execute_create-Write ambient cid db v))
      (if_elim Good (e.type == confirm_order_command)
        (with_payload-Write ambient cid db v e.type (read_confirm_order e.payload) _
          (execute_confirm-Write ambient cid db v))
        (if_elim Good (e.type == cancel_order_command)
          (with_payload-Write ambient cid db v e.type (read_cancel_order e.payload) _
            (execute_cancel-Write ambient cid db v))
          (none_written refl)))

Write-final :
    (id : String) (row : OrderProjection) {db db' : OrderDb}
    → is_final row.status ≡ true
    → Write db db'
    → find_one id db.projection ≡ some row
    → find_one id db'.projection ≡ some row
Write-final id row final (none_written e) found = rw e found
Write-final id row {db} final (written j r is_open e) found =
    rw (e, find_one-upsert j id r db.projection)
      (elim (Bool-cases (j == id)) [
        | inr other ↦ rw other found
        | inl same ↦
            let open_here =
              subst (λ k. is_closed (find_one k db.projection) ≡ false) (eq_of_== j id same)
                is_open in
            let closed = rw found at open_here in cc
      ])

-- The row of an order that is CONFIRMED or CANCELLED is never changed by any run of commands from
-- consistent tables: neither its status nor its payment, its reason or its version.
pub run-keeps_final :
    (id : String) (row : OrderProjection)
    → is_final row.status ≡ true
    → (commands : List (Ambient × CommandEnvelope Fields)) (db : OrderDb) → IsValid db
    → find_one id db.projection ≡ some row
    → find_one id (run commands db).projection ≡ some row
unfolding run
run-keeps_final id row final [] db v found = found
run-keeps_final id row final ((ambient, e) ∷ rest) db v found =
    run-keeps_final id row final rest (dispatch ambient e db).1 (dispatch-IsValid ambient e db v)
      (Write-final id row final (dispatch-Write ambient e db v) found)
