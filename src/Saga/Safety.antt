-- ===== src/Saga/Safety.antt =====
-- What holds after any run of the orchestrator, whatever events arrive and whichever sends fail.
use mathlib.Core.Option.{some-injective}
use kafka_ledger_saga.Base.{
  ℕ, ◌≤◌, String, ◌≡◌, refl, inl, inr, sym, subst, Bool, true, false, ◌&&◌, ◌||◌, Bool-cases,
  Option, none, some, List, [], ◌∷◌, append-nil, arith, ◌==◌, eq_of_==, if◌then◌else◌, any,
  any-append, filter, filter-append, length, length-append,
}
use kafka_ledger_saga.Contracts.{
  SagaStatus, Fields, EventEnvelope, confirm_order_command, cancel_order_command,
  release_inventory_command,
}
use kafka_ledger_saga.EventSourcing.Consistency.{find_one-upsert}
use kafka_ledger_saga.Kafka.{Message}
use kafka_ledger_saga.Saga.Machine.{
  SagaDb, SagaInstanceEntity, Surroundings, find_by_id, is_terminal, dispatch,
}
use kafka_ledger_saga.Saga.Changes.{IsSound, IsOpen, Change, idle, moved, Sends, nothing, one, Fits}
use kafka_ledger_saga.Saga.Dispatch.{dispatch-Change, Change-IsSound}

-- A run of the consumer over a list of events. A throw leaves the state that it reached.
unfoldable pub run : List (Surroundings × EventEnvelope Fields) → SagaDb → SagaDb
run [] db = db
run ((world, e) ∷ rest) db = run rest (dispatch world e db).1

-- A property of the orchestrator that every change keeps holds after every run.
module _ (P : SagaDb → Type 0)
    (keep : (t : String) (o : Fields) (db db' : SagaDb)
      → Change t o db db'
      → IsSound db
      → P db
      → P db') where
  pub run_induction :
      (events : List (Surroundings × EventEnvelope Fields)) (db : SagaDb)
      → IsSound db
      → P db
      → P (run events db)
  unfolding run
  run_induction [] db h p = p
  run_induction ((world, e) ∷ rest) db h p =
      let change = dispatch-Change world db h e in
      run_induction rest (dispatch world e db).1 (Change-IsSound change h)
        (keep e.type e.payload db (dispatch world e db).1 change h p)

-- After any run of events, every row of the table of sagas has its own key and its order's id in the
-- saved context, and stands at step 0 or 1 in progress or compensated, or at step 1 completed, if so
-- at the start.
pub run-IsSound :
    (events : List (Surroundings × EventEnvelope Fields)) (db : SagaDb)
    → IsSound db
    → IsSound (run events db)
run-IsSound events db h =
    run_induction IsSound (λ _ _ _ _ c h' _. Change-IsSound c h') events db h h

-- ConfirmOrder or CancelOrder, for one order.
abbrev pub ends_order : String → Message → Bool
ends_order id m =
    m.key == id && (m.value.type == confirm_order_command || m.value.type == cancel_order_command)

abbrev pub endings : String → SagaDb → ℕ
endings id db = length (filter (ends_order id) db.broker.sent)

abbrev pub allowed_endings : Option SagaInstanceEntity → ℕ
allowed_endings none = 0
allowed_endings (some row) = if is_terminal row.snapshot.status then 1 else 0

-- No more endings are sent than the stored status allows.
abbrev pub IsEndedOnce : String → SagaDb → Type 0
IsEndedOnce id db = endings id db ≤ allowed_endings (find_by_id id db)

endings_of_fit :
    (id : String) (status : SagaStatus) (m : Message)
    → Fits m.value.type status
    → length (filter (ends_order id) (m ∷ [])) ≤ (if is_terminal status then 1 else 0)
endings_of_fit id SagaStatus.in_progress m (inl e) = rw e (ground arith)
endings_of_fit id SagaStatus.in_progress m (inr e) = rw e (ground arith)
endings_of_fit id SagaStatus.completed m e = ground arith
endings_of_fit id SagaStatus.compensated m e = ground arith
endings_of_fit id SagaStatus.started m e = absurd e
endings_of_fit id SagaStatus.compensating m e = absurd e
endings_of_fit id SagaStatus.failed m e = absurd e

endings_sent :
    (id : String) (status : SagaStatus) (messages : List Message)
    → Sends id status messages
    → length (filter (ends_order id) messages) ≤ (if is_terminal status then 1 else 0)
endings_sent id status messages (nothing e) = rw e (ground arith)
endings_sent id status messages (one m e k fits about) = rw e (endings_of_fit id status m fits)

no_other_endings :
    (id j : String) (status : SagaStatus) (messages : List Message)
    → (id == j) ≡ false
    → Sends id status messages
    → length (filter (ends_order j) messages) ≡ 0
no_other_endings id j status messages ne (nothing e) = rw e refl
no_other_endings id j status messages ne (one m e k fits about) = rw (e, k, ne) refl

open_allows_none : (o : Option SagaInstanceEntity) → IsOpen o → allowed_endings o ≡ 0
open_allows_none none _ = refl
open_allows_none (some row) e = rw e refl

Change-IsEndedOnce :
    (id t : String) (o : Fields) (db db' : SagaDb)
    → Change t o db db'
    → IsSound db
    → IsEndedOnce id db
    → IsEndedOnce id db'
unfolding find_by_id
Change-IsEndedOnce id t o db db' (idle e f) _ h = rw (e, f) h
Change-IsEndedOnce id t o db db' (moved j row messages open_saga sound _ sends e f) _ h =
    rw (f, e, find_one-upsert j id row db.instances, filter-append, length-append)
      (elim (Bool-cases (j == id)) [
        | inl same ↦
            let none_yet = open_allows_none (find_by_id j db) open_saga in
            let sent =
              endings_sent id row.snapshot.status messages
                (subst (λ k. Sends k row.snapshot.status messages) (eq_of_== j id same) sends) in
            let before =
              subst (λ k. allowed_endings (find_by_id k db) ≡ 0) (eq_of_== j id same) none_yet in
            rw same (omega arith)
        | inr other ↦
            let sent = no_other_endings j id row.snapshot.status messages other sends in
            rw (other, sent) (omega arith)
      ])

-- For every order, the number of ConfirmOrder and CancelOrder commands sent for it stays at most
-- one, and at zero as long as its saga is not completed or compensated, whatever events arrive in
-- whatever order and whichever sends fail, if the rows are sound and this is so at the start.
pub run-IsEndedOnce :
    (id : String) (events : List (Surroundings × EventEnvelope Fields)) (db : SagaDb)
    → IsSound db
    → IsEndedOnce id db
    → IsEndedOnce id (run events db)
run-IsEndedOnce id = run_induction (IsEndedOnce id) (Change-IsEndedOnce id)

abbrev pub is_release : Message → Bool
is_release m = m.value.type == release_inventory_command

abbrev pub IsNeverReleased : SagaDb → Type 0
IsNeverReleased db = any is_release db.broker.sent ≡ false

Fits-no_release :
    (status : SagaStatus) (t : String) → Fits t status → (t == release_inventory_command) ≡ false
Fits-no_release SagaStatus.in_progress t (inl e) = rw e refl
Fits-no_release SagaStatus.in_progress t (inr e) = rw e refl
Fits-no_release SagaStatus.completed t e = rw e refl
Fits-no_release SagaStatus.compensated t e = rw e refl
Fits-no_release SagaStatus.started t e = absurd e
Fits-no_release SagaStatus.compensating t e = absurd e
Fits-no_release SagaStatus.failed t e = absurd e

no_release_sent :
    (id : String) (status : SagaStatus) (messages : List Message)
    → Sends id status messages
    → any is_release messages ≡ false
no_release_sent id status messages (nothing e) = rw e refl
no_release_sent id status messages (one m e k fits about) =
    rw (e, Fits-no_release status m.value.type fits) refl

Change-IsNeverReleased :
    (t : String) (o : Fields) (db db' : SagaDb)
    → Change t o db db'
    → IsSound db
    → IsNeverReleased db
    → IsNeverReleased db'
Change-IsNeverReleased t o db db' (idle e f) _ h = rw f h
Change-IsNeverReleased t o db db' (moved j row messages _ _ _ sends e f) _ h =
    rw (f, any-append, h, no_release_sent j row.snapshot.status messages sends) refl

-- From sound rows, no run of the orchestrator ever sends ReleaseInventory, if none was sent at the
-- start.
pub run-IsNeverReleased :
    (events : List (Surroundings × EventEnvelope Fields)) (db : SagaDb)
    → IsSound db
    → IsNeverReleased db
    → IsNeverReleased (run events db)
run-IsNeverReleased = run_induction IsNeverReleased Change-IsNeverReleased

-- The saga of the order has ended in this row, and these messages were sent for it.
pub record IsEndedAs (id : String) (row : SagaInstanceEntity) (sent : List Message) (db : SagaDb)
    : Type 0 where
  pub stored : find_by_id id db ≡ some row
  pub messages : filter (λ m. m.key == id) db.broker.sent ≡ sent

other_keys :
    (j id : String) (status : SagaStatus) (messages : List Message)
    → (j == id) ≡ false
    → Sends j status messages
    → filter (λ m. m.key == id) messages ≡ []
other_keys j id status messages ne (nothing e) = rw e refl
other_keys j id status messages ne (one m e k fits about) = rw (e, k, ne) refl

open_is_not_ended :
    (o : Option SagaInstanceEntity) (row : SagaInstanceEntity)
    → IsOpen o
    → o ≡ some row
    → is_terminal row.snapshot.status ≡ true
    → ⊥
open_is_not_ended none row h e t = cc
open_is_not_ended (some r) row h e t =
    let same = some-injective r row e in
    let h' = subst (λ (x : SagaInstanceEntity). is_terminal x.snapshot.status ≡ false) same h in cc

Change-IsEndedAs :
    (id : String) (row : SagaInstanceEntity) (sent : List Message)
    → is_terminal row.snapshot.status ≡ true
    → (t : String) (o : Fields) (db db' : SagaDb) → Change t o db db'
    → IsSound db
    → IsEndedAs id row sent db
    → IsEndedAs id row sent db'
unfolding find_by_id
Change-IsEndedAs id row sent ended t o db db' (idle e f) _ h = record {
  stored = rw e h.stored;
  messages = rw f h.messages;
}
Change-IsEndedAs id row sent ended t o db db' (moved j r messages open_saga _ _ sends e f) _ h =
    elim (Bool-cases (j == id)) [
      | inl same ↦ absurd (
          open_is_not_ended (find_by_id j db) row open_saga
            (subst (λ k. find_by_id k db ≡ some row) (sym (eq_of_== j id same)) h.stored) ended)
      | inr other ↦ record {
        stored = rw (e, find_one-upsert j id r db.instances, other) h.stored;
        messages =
            rw
              (f, filter-append, other_keys j id r.snapshot.status messages other sends, append-nil)
              h.messages;
      }
    ]

-- A saga that is completed or compensated stays so: no run from sound rows changes its row, and none
-- sends another message under its order's key.
pub run-IsEndedAs :
    (id : String) (row : SagaInstanceEntity) (sent : List Message)
    → is_terminal row.snapshot.status ≡ true
    → (events : List (Surroundings × EventEnvelope Fields)) (db : SagaDb) → IsSound db
    → IsEndedAs id row sent db
    → IsEndedAs id row sent (run events db)
run-IsEndedAs id row sent ended =
    run_induction (IsEndedAs id row sent) (Change-IsEndedAs id row sent ended)
