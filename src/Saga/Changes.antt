-- ===== src/Saga/Changes.antt =====
-- The checkout saga as a transition system: what one event may change in the table of sagas and in
-- what the broker was sent.
use kafka_ledger_saga.Base.{
  ℕ, ◌+◌, String, ◌≡◌, refl, ◌⊎◌, inl, inr, ap, sym, subst, false, Bool-cases, Option, none, some,
  List, [], ◌∷◌, ◌++◌, append-nil, Action, pure, ◌>>=◌, ◌>>◌, arith,
}
use kafka_ledger_saga.Contracts.{
  SagaStatus, Fields, text, field, field-spread, spread, reserve_stock_command,
  authorize_payment_command, confirm_order_command, cancel_order_command, make_command,
}
use kafka_ledger_saga.Errors.{Error}
use kafka_ledger_saga.EventSourcing.{upsert}
use kafka_ledger_saga.Kafka.{Message}
use kafka_ledger_saga.Saga.Toolkit.{SagaInstanceSnapshot}
use kafka_ledger_saga.Saga.Machine.{
  SagaDb, SagaInstanceEntity, Surroundings, publish_command, find_by_id, save_instance, is_terminal,
  after_save, on_saga_completed, on_saga_compensated,
}
use kafka_ledger_saga.Saga.Steps.{publish_command-text, message}

-- Where a saga can stand.
abbrev pub Position : ℕ → SagaStatus → Type 0
Position i SagaStatus.in_progress = (i ≡ 0) ⊎ (i ≡ 1)
Position i SagaStatus.completed = i ≡ 1
Position i SagaStatus.compensated = (i ≡ 0) ⊎ (i ≡ 1)
Position i _ = ⊥

pub record IsSoundRow (id : String) (row : SagaInstanceEntity) : Type 0 where
  pub keyed : row.snapshot.saga_id ≡ id
  pub for_order : field "orderId" row.snapshot.context ≡ text id
  pub placed : Position row.snapshot.current_step_index row.snapshot.status

pub record IsSound (db : SagaDb) : Type 0 where
  pub at :
      (id : String) (row : SagaInstanceEntity) → find_by_id id db ≡ some row → IsSoundRow id row

-- The commands that go with a status that a saga has just reached.
abbrev pub Fits : String → SagaStatus → Type 0
Fits t SagaStatus.in_progress = (t ≡ reserve_stock_command) ⊎ (t ≡ authorize_payment_command)
Fits t SagaStatus.completed = t ≡ confirm_order_command
Fits t SagaStatus.compensated = t ≡ cancel_order_command
Fits t _ = ⊥

-- At most one message, for this saga's order.
pub data Sends (id : String) (status : SagaStatus) (messages : List Message) : Type 0 where
  nothing : messages ≡ [] → Sends id status messages
  one :
      (m : Message)
      → messages ≡ m ∷ []
      → m.key ≡ id
      → Fits m.value.type status
      → field "orderId" m.value.payload ≡ text id
      → Sends id status messages

-- A saga that can still go on, or none yet.
abbrev pub IsOpen : Option SagaInstanceEntity → Type 0
IsOpen none = Unit
IsOpen (some row) = is_terminal row.snapshot.status ≡ false

abbrev pub IsAtPayment : Option SagaInstanceEntity → Type 0
IsAtPayment none = ⊥
IsAtPayment (some row) = row.snapshot.current_step_index ≡ 1

-- The event that is behind a saga's next row: what leads to the payment step, and to each end.
pub record Why (event_type : String) (event : Fields) (id : String)
    (old : Option SagaInstanceEntity) (s : SagaInstanceSnapshot) : Type 0 where
  pub to_payment :
      s.current_step_index ≡ 1
      → ((event_type ≡ "inventory.reserved.v1") × (field "orderId" event ≡ text id))
        ⊎ IsAtPayment old
  pub to_completed :
      s.status ≡ SagaStatus.completed
      → (event_type ≡ "payment.authorized.v1") × (field "orderId" event ≡ text id) × IsAtPayment old
  pub to_compensated :
      s.status ≡ SagaStatus.compensated
      → ((event_type ≡ "inventory.reservation_failed.v1") ⊎ (event_type ≡ "payment.declined.v1"))
        × (field "orderId" event ≡ text id)

pub data Change (event_type : String) (event : Fields) (db db' : SagaDb) : Type 0 where
  idle :
      db'.instances ≡ db.instances
      → db'.broker.sent ≡ db.broker.sent
      → Change event_type event db db'
  moved :
      (id : String) (row : SagaInstanceEntity) (messages : List Message)
      → IsOpen (find_by_id id db)
      → IsSoundRow id row
      → Why event_type event id (find_by_id id db) row.snapshot
      → Sends id row.snapshot.status messages
      → db'.instances ≡ upsert id row db.instances
      → db'.broker.sent ≡ db.broker.sent ++ messages
      → Change event_type event db db'

pub merged-order_id :
    (id : String) (a b : Fields)
    → field "orderId" a ≡ text id
    → field "orderId" b ≡ text id
    → field "orderId" (spread a b) ≡ text id
merged-order_id id a b ea eb = rw (field-spread "orderId" a b, ea, eb) (ground arith)

module _ (world : Surroundings) (db : SagaDb) (event_type : String) (event : Fields) where
  abbrev pub Good :
      {A : Type 0} → (A → Action Error SagaDb (Unit {0})) → Action Error SagaDb A → Type 0
  Good k m = Change event_type event db ((m >>= k) db).1

  -- After the event: the row is saved, and a terminal status is announced.
  abbrev pub save_and_announce : String → SagaInstanceSnapshot → Action Error SagaDb (Unit {0})
  save_and_announce correlation_id updated = do
    save_instance updated correlation_id
    after_save world updated.status updated correlation_id

  module _ (id correlation_id : String) (open_saga : IsOpen (find_by_id id db))
      (s : SagaInstanceSnapshot)
      (sound : IsSoundRow id (record { snapshot = s; correlation_id = correlation_id }))
      (why : Why event_type event id (find_by_id id db) s) where
    abbrev saved_row : SagaInstanceEntity
    saved_row = record { snapshot = s; correlation_id = correlation_id }

    abbrev saved_instances : List (String × SagaInstanceEntity)
    saved_instances = upsert s.saga_id saved_row db.instances

    -- The row is saved after `messages` were sent in some number of attempts.
    moves :
        (n : ℕ) (messages : List Message) (sent : List Message)
        → Sends id s.status messages
        → sent ≡ db.broker.sent ++ messages
        → Change event_type event db
            (record { instances = saved_instances; broker = record { attempts = n; sent = sent } })
    moves n messages sent sends e =
        moved id saved_row messages open_saga sound why sends
          (ap (λ k. upsert k saved_row db.instances) sound.keyed) e

    announced-Change :
        (t : String) (payload : Fields)
        → field "orderId" payload ≡ text id
        → Fits t s.status
        → Change event_type event db
            (publish_command world t
              (some payload)
              correlation_id
              (record { instances = saved_instances; broker = db.broker })).1
    unfolding make_command
    announced-Change t payload for_order fits =
        rw
          (publish_command-text world t id correlation_id payload
            (record { instances = saved_instances; broker = db.broker }) for_order)
          (elim (Bool-cases (world.accepts db.broker.attempts)) [
            | inl acked ↦ rw acked (
                moves _ (message world db.broker.attempts t payload correlation_id id ∷ []) _
                  (one _ refl refl fits for_order) refl)
            | inr lost ↦ rw lost (moves _ [] _ (nothing refl) (sym (append-nil db.broker.sent)))
          ])

    -- `after_save` at a known status.
    at_status :
        (db' : SagaDb) (st : SagaStatus)
        → s.status ≡ st
        → Change event_type event db (after_save world st s correlation_id db').1
        → Change event_type event db (after_save world s.status s correlation_id db').1
    at_status db' st e =
        subst (λ st'. Change event_type event db (after_save world st' s correlation_id db').1)
          (sym e)

    pub completed-Change :
        s.status ≡ SagaStatus.completed
        → Change event_type event db (save_and_announce correlation_id s db).1
    unfolding save_instance on_saga_completed field
    completed-Change e = at_status _ SagaStatus.completed e (
        announced-Change confirm_order_command _ sound.for_order
          (subst (Fits confirm_order_command) (sym e) refl))

    pub compensated-Change :
        s.status ≡ SagaStatus.compensated
        → Change event_type event db (save_and_announce correlation_id s db).1
    unfolding save_instance on_saga_compensated field
    compensated-Change e = at_status _ SagaStatus.compensated e (
        announced-Change cancel_order_command _ sound.for_order
          (subst (Fits cancel_order_command) (sym e) refl))

    -- An ignored event: the row is written again.
    pub in_progress-Change :
        s.status ≡ SagaStatus.in_progress
        → Change event_type event db (save_and_announce correlation_id s db).1
    unfolding save_instance
    in_progress-Change e =
        at_status _ SagaStatus.in_progress e
          (moves db.broker.attempts [] _ (nothing refl) (sym (append-nil db.broker.sent)))

    -- The next command is sent, and then the row is saved; or the send fails and nothing is.
    pub sent-Change :
        (t : String) (payload : Fields)
        → field "orderId" payload ≡ text id
        → s.status ≡ SagaStatus.in_progress
        → Fits t SagaStatus.in_progress
        → Good
            (save_and_announce correlation_id)
            (publish_command world t (some payload) correlation_id >> pure s)
    unfolding save_instance make_command
    sent-Change t payload for_order e fits =
        rw (publish_command-text world t id correlation_id payload db for_order, ◌>>=◌, ◌>>◌)
          (elim (Bool-cases (world.accepts db.broker.attempts)) [
            | inl acked ↦ rw acked (
                at_status _ SagaStatus.in_progress e (
                  moves (db.broker.attempts + 1)
                    (message world db.broker.attempts t payload correlation_id id ∷ []) _
                    (one _ refl refl (subst (Fits t) (sym e) fits) for_order) refl))
            | inr lost ↦ rw lost (idle refl refl)
          ])
