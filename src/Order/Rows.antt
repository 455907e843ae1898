-- ===== src/Order/Rows.antt =====
-- The event behind the status of an order's projection row.
use mathlib.Core.Option.{some-injective}
use kafka_ledger_saga.Base.{
  String, ◌≡◌, refl, ap, sym, ◌∙◌, ◌⊎◌, inl, inr, true, Bool, Bool-cases, some, List, [], ◌∷◌,
  Result, ok, Result-cases, filter, length, arith, Any, eq_of_==,
}
use kafka_ledger_saga.Contracts.{OrderStatus, OrderEvent}
use kafka_ledger_saga.Errors.{Error}
use kafka_ledger_saga.EventSourcing.{StoredEvent, replay, find_one, of_aggregate}
use kafka_ledger_saga.EventSourcing.Consistency.{stream, projected}
use kafka_ledger_saga.Order.Domain.{OrderState, when, blank_state}
use kafka_ledger_saga.Order.Service.{OrderDb, OrderProjection, order_service, project}
use kafka_ledger_saga.Order.Branches.{IsValid}
use kafka_ledger_saga.Order.Causes.{is_confirmed, is_cancelled}

confirmed_step :
    (ev : OrderEvent) (s t : OrderState)
    → when ev s ≡ ok t
    → t.status ≡ OrderStatus.confirmed
    → (is_confirmed ev ≡ true) ⊎ (s.status ≡ OrderStatus.confirmed)
unfolding when
confirmed_step (OrderEvent.created p) s t e f = ground arith
confirmed_step (OrderEvent.confirmed p) s t e f = inl refl
confirmed_step (OrderEvent.cancelled p) s t e f = ground arith
confirmed_step (OrderEvent.other u) s t e f = cc

cancelled_step :
    (ev : OrderEvent) (s t : OrderState)
    → when ev s ≡ ok t
    → t.status ≡ OrderStatus.cancelled
    → (is_cancelled ev ≡ true) ⊎ (s.status ≡ OrderStatus.cancelled)
unfolding when
cancelled_step (OrderEvent.created p) s t e f = ground arith
cancelled_step (OrderEvent.confirmed p) s t e f = ground arith
cancelled_step (OrderEvent.cancelled p) s t e f = inl refl
cancelled_step (OrderEvent.other u) s t e f = cc

same_state : (s t : OrderState) → ◌≡◌ {A = Result Error OrderState} (ok s) (ok t) → s ≡ t
same_state s t e = cc

-- A status that only one kind of event leads to.
module _ (status : OrderStatus) (leads : OrderEvent → Bool)
    (step : (ev : OrderEvent) (s t : OrderState)
      → when ev s ≡ ok t
      → t.status ≡ status
      → (leads ev ≡ true) ⊎ (s.status ≡ status)) where
  abbrev Led : StoredEvent OrderEvent → Type 0
  Led r = leads r.event ≡ true

  replayed :
      (rows : List (StoredEvent OrderEvent)) (s t : OrderState)
      → replay when s rows ≡ ok t
      → t.status ≡ status
      → Any Led rows ⊎ (s.status ≡ status)
  unfolding replay
  replayed [] s t e f = inr (ap (λ (x : OrderState). x.status) (same_state s t e) ∙ f)
  replayed (r ∷ rows) s t e f = elim (Result-cases (when r.event s)) [
    | inr (x, w) ↦ absurd (ground arith)
    | inl (s', w) ↦ from_rest s' w (replayed rows s' t (rw (w, replay) at e) f)
  ]
    where
      from_rest :
          (s' : OrderState)
          → when r.event s ≡ ok s'
          → Any Led rows ⊎ (s'.status ≡ status)
          → Any Led (r ∷ rows) ⊎ (s.status ≡ status)
      from_rest s' w (inl k) = inl (inr k)
      from_rest s' w (inr k) = elim (step r.event s s' w k) [
        | inl now ↦ inl (inl now)
        | inr before ↦ inr before
      ]

  of_stream :
      (id : String) (events : List (StoredEvent OrderEvent))
      → Any Led (filter (of_aggregate id) events)
      → Any (λ r. Led r × (r.aggregate_id ≡ id)) events
  of_stream id [] k = absurd k
  of_stream id (r ∷ events) k = elim (Bool-cases (of_aggregate id r)) [
    | inr e ↦ inr (of_stream id events (rw e at k))
    | inl e ↦ at_head (of_stream id events) (rw e at k) e
  ]
    where
      at_head :
          (Any Led (filter (of_aggregate id) events)
            → Any (λ x. Led x × (x.aggregate_id ≡ id)) events)
          → Led r ⊎ Any Led (filter (of_aggregate id) events)
          → of_aggregate id r ≡ true
          → Any (λ x. Led x × (x.aggregate_id ≡ id)) (r ∷ events)
      at_head rest (inl led) e = inl (led, eq_of_== r.aggregate_id id e)
      at_head rest (inr k') e = inr (rest k')

  of_row :
      (id : String) (s : OrderState) (rows : List (StoredEvent OrderEvent)) (row : OrderProjection)
      → projected when order_service id s rows ≡ some row
      → s.status ≡ row.status
  of_row id s [] row e = cc
  of_row id s (r ∷ rows) row e =
      ap (λ (x : OrderProjection). x.status)
        (some-injective (project id s (length (r ∷ rows))) row e)

  -- Where the tables are consistent, a row with the status comes from such an event of its order.
  pub row-event :
      (blank_state.status ≡ status → ⊥)
      → (db : OrderDb) → IsValid db
      → (id : String) (row : OrderProjection) → find_one id db.projection ≡ some row
      → row.status ≡ status
      → Any (λ r. Led r × (r.aggregate_id ≡ id)) db.events
  row-event not_blank db v id row found is =
      let (s, _, h, shown) = v id in
      elim (replayed (stream id db) blank_state s h
        (of_row id s (stream id db) row (sym shown ∙ found) ∙ is)) [
          | inl k ↦ of_stream id db.events k
          | inr b ↦ absurd (not_blank b)
        ]

pub confirmed_row-event :
    (db : OrderDb)
    → IsValid db
    → (id : String) (row : OrderProjection) → find_one id db.projection ≡ some row
    → row.status ≡ OrderStatus.confirmed
    → Any (λ r. (is_confirmed r.event ≡ true) × (r.aggregate_id ≡ id)) db.events
confirmed_row-event = row-event OrderStatus.confirmed is_confirmed confirmed_step (λ e. cc)

pub cancelled_row-event :
    (db : OrderDb)
    → IsValid db
    → (id : String) (row : OrderProjection) → find_one id db.projection ≡ some row
    → row.status ≡ OrderStatus.cancelled
    → Any (λ r. (is_cancelled r.event ≡ true) × (r.aggregate_id ≡ id)) db.events
cancelled_row-event = row-event OrderStatus.cancelled is_cancelled cancelled_step (λ e. cc)
