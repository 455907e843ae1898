-- ===== src/System/Orchestrator.antt =====
-- An event that the orchestrator handles keeps the invariant of the running system.
use mathlib.Core.Option.{some-injective}
use kafka_ledger_saga.Base.{
  String, ◌≡◌, refl, ap, sym, ◌∙◌, subst, ◌⊎◌, inl, inr, true, false, Bool-cases, Option, none,
  some, List, All, All-append, ne_of_==, ◌==◌, eq_of_==, if◌then◌else◌,
}
use kafka_ledger_saga.Contracts.{
  SagaStatus, Fields, text, field, as_text, EventEnvelope, confirm_order_command,
  cancel_order_command,
}
use kafka_ledger_saga.EventSourcing.{find_one}
use kafka_ledger_saga.EventSourcing.Consistency.{find_one-upsert}
use kafka_ledger_saga.Kafka.{Message}
use kafka_ledger_saga.Saga.Machine as Saga
use kafka_ledger_saga.Saga.Machine.{SagaDb, SagaInstanceEntity, find_by_id}
use kafka_ledger_saga.Saga.Changes.{
  Change, idle, moved, Sends, nothing, one, Fits, Why, IsAtPayment,
}
use kafka_ledger_saga.Saga.Dispatch.{dispatch-Change, Change-IsSound}
use kafka_ledger_saga.System.Model.{System, Reads}
use kafka_ledger_saga.System.Facts.{HasPaid, HasReserved, HasFailed}
use kafka_ledger_saga.System.Trace.{IsTraced, Confirms, Cancels}
use kafka_ledger_saga.System.Heard.{heard-HasPaid, heard-HasReserved, heard-HasFailed}

Fits-confirm :
    (status : SagaStatus) (t : String)
    → Fits t status
    → t ≡ confirm_order_command
    → status ≡ SagaStatus.completed
Fits-confirm SagaStatus.in_progress t (inl e) k =
    absurd (ne_of_== "inventory.reserve_stock.v1" _ refl (sym e ∙ k))
Fits-confirm SagaStatus.in_progress t (inr e) k =
    absurd (ne_of_== "payment.authorize.v1" _ refl (sym e ∙ k))
Fits-confirm SagaStatus.completed t e k = refl
Fits-confirm SagaStatus.compensated t e k = absurd (ne_of_== "order.cancel.v1" _ refl (sym e ∙ k))
Fits-confirm SagaStatus.started t e k = absurd e
Fits-confirm SagaStatus.compensating t e k = absurd e
Fits-confirm SagaStatus.failed t e k = absurd e

Fits-cancel :
    (status : SagaStatus) (t : String)
    → Fits t status
    → t ≡ cancel_order_command
    → status ≡ SagaStatus.compensated
Fits-cancel SagaStatus.in_progress t (inl e) k =
    absurd (ne_of_== "inventory.reserve_stock.v1" _ refl (sym e ∙ k))
Fits-cancel SagaStatus.in_progress t (inr e) k =
    absurd (ne_of_== "payment.authorize.v1" _ refl (sym e ∙ k))
Fits-cancel SagaStatus.completed t e k = absurd (ne_of_== "order.confirm.v1" _ refl (sym e ∙ k))
Fits-cancel SagaStatus.compensated t e k = refl
Fits-cancel SagaStatus.started t e k = absurd e
Fits-cancel SagaStatus.compensating t e k = absurd e
Fits-cancel SagaStatus.failed t e k = absurd e

same_id : (a b : String) → text a ≡ text b → a ≡ b
same_id a b e = some-injective a b (ap as_text e)

module _ {G : Type 0} (s : System G) (h : IsTraced s) (e : EventEnvelope Fields)
    (read : Reads e s.order_events ⊎ (Reads e s.inventory_events ⊎ Reads e s.payment_events)) where
  old_at_payment :
      (id : String) (old : Option SagaInstanceEntity)
      → find_by_id id s.saga ≡ old
      → IsAtPayment old
      → HasReserved id s
  old_at_payment id none found at = absurd at
  old_at_payment id (some row) found at = h.at_payment id row found at

  module _ (id : String) (row : SagaInstanceEntity)
      (why : Why e.type e.payload id (find_by_id id s.saga) row.snapshot) where
    now_at_payment : row.snapshot.current_step_index ≡ 1 → HasReserved id s
    now_at_payment at = from_cause (why.to_payment at)
      where
        from_cause :
            ((e.type ≡ "inventory.reserved.v1") × (field "orderId" e.payload ≡ text id))
              ⊎ IsAtPayment (find_by_id id s.saga)
            → HasReserved id s
        from_cause (inl (t, about)) = heard-HasReserved s h e id about read t
        from_cause (inr at') = old_at_payment id (find_by_id id s.saga) refl at'

    now_completed : row.snapshot.status ≡ SagaStatus.completed → HasPaid id s × HasReserved id s
    now_completed ended =
        let (t, about, at) = why.to_completed ended in
        (heard-HasPaid s h e id about read t, old_at_payment id (find_by_id id s.saga) refl at)

    now_compensated : row.snapshot.status ≡ SagaStatus.compensated → HasFailed id s
    now_compensated undone =
        let (t, about) = why.to_compensated undone in heard-HasFailed s h e id about read t

    sent-Confirms :
        (messages : List Message)
        → Sends id row.snapshot.status messages
        → All (λ m. Confirms s m.value) messages
    sent-Confirms messages (nothing e') = rw e' tt
    sent-Confirms messages (one m e' _ fits about) = rw e' (
      λ t j about'.
          subst (λ k. HasPaid k s × HasReserved k s) (same_id id j (sym about ∙ about'))
            (now_completed (Fits-confirm row.snapshot.status m.value.type fits t)),
      tt,
    )

    sent-Cancels :
        (messages : List Message)
        → Sends id row.snapshot.status messages
        → All (λ m. Cancels s m.value) messages
    sent-Cancels messages (nothing e') = rw e' tt
    sent-Cancels messages (one m e' _ fits about) = rw e' (
      λ t j about'.
          subst (λ k. HasFailed k s) (same_id id j (sym about ∙ about'))
            (now_compensated (Fits-cancel row.snapshot.status m.value.type fits t)),
      tt,
    )

  module _ (saga : SagaDb) where
    after-at_payment :
        Change e.type e.payload s.saga saga
        → (id : String) (row : SagaInstanceEntity) → find_by_id id saga ≡ some row
        → row.snapshot.current_step_index ≡ 1
        → HasReserved id s
    unfolding find_by_id
    after-at_payment (idle same _) id row found at = h.at_payment id row (rw same at found) at
    after-at_payment (moved j r messages _ _ why _ same _) id row found at =
        at_key (Bool-cases (j == id)) (rw (same, find_one-upsert j id r s.saga.instances) at found)
      where
        at_key :
            ((j == id) ≡ true) ⊎ ((j == id) ≡ false)
            → (if j == id then some r else find_one id s.saga.instances) ≡ some row
            → HasReserved id s
        at_key (inl eq) found' =
            subst (λ k. HasReserved k s) (eq_of_== j id eq)
              (now_at_payment j r why (
                ap (λ (x : SagaInstanceEntity). x.snapshot.current_step_index)
                  (some-injective r row (rw eq at found'))
                ∙ at))
        at_key (inr ne) found' = h.at_payment id row (rw ne at found') at

    after-Confirms :
        Change e.type e.payload s.saga saga → All (λ m. Confirms s m.value) saga.broker.sent
    after-Confirms (idle _ same) = rw same h.confirms
    after-Confirms (moved j r messages _ _ why sends _ same) =
        rw same (
          All-append _ s.saga.broker.sent messages h.confirms
            (sent-Confirms j r why messages sends))

    after-Cancels :
        Change e.type e.payload s.saga saga → All (λ m. Cancels s m.value) saga.broker.sent
    after-Cancels (idle _ same) = rw same h.cancels
    after-Cancels (moved j r messages _ _ why sends _ same) =
        rw same
          (All-append _ s.saga.broker.sent messages h.cancels (sent-Cancels j r why messages sends))

  with_saga :
      (saga : SagaDb) → Change e.type e.payload s.saga saga → IsTraced (record s { saga = saga })
  with_saga saga change = record {
    order = h.order;
    inventory = h.inventory;
    payment = h.payment;
    sagas = Change-IsSound change h.sagas;
    requests = h.requests;
    at_payment = after-at_payment saga change;
    confirms = after-Confirms saga change;
    cancels = after-Cancels saga change;
    confirmed = h.confirmed;
    cancelled = h.cancelled;
  }

  pub saga-IsTraced :
      (world : Saga.Surroundings) → IsTraced (record s { saga = (Saga.dispatch world e s.saga).1 })
  saga-IsTraced world =
      with_saga (Saga.dispatch world e s.saga).1 (dispatch-Change world s.saga h.sagas e)
