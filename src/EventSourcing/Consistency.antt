-- ===== src/EventSourcing/Consistency.antt =====
-- The invariant of a service's tables, and what loading and saving do where it holds.
use kafka_ledger_saga.Base.{
  ℕ, ◌+◌, ◌-◌, String, ◌≡◌, ◌≢◌, refl, ◌∙◌, subst, ◌>>=◌, ◌>>◌, catch, append-nil, eq_of_==, true,
  false, Option, none, some, List, [], ◌∷◌, ◌++◌, Result, ok, err, arith, eqb, any, any-filter,
  filter, filter-append, length, ◌==◌, eq_iff, if◌then◌else◌, Bool-cases, inl, inr, ==_refl,
  length-append,
}
use kafka_ledger_saga.Errors.{Error, unique_violation, concurrency_error}
use kafka_ledger_saga.EventSourcing.Aggregate.{
  StoredEvent, Uncommitted, AggregateRoot, new_aggregate, replay,
}
use kafka_ledger_saga.EventSourcing.Tables.{
  Store, insert_event, Service, Ambient, OutboxRow, find_one, upsert, of_aggregate, is_taken,
  save_within_transaction, load_aggregate, from_history,
}
use kafka_ledger_saga.EventSourcing.Replay.{
  Numbered, order_by_sequence-Numbered, Numbered-append_one, any-sequence_past_end,
  replay-append_one, hydrate-replay,
}

module _ {P : Type 0} where
  pub find_one-upsert :
      (k j : String) (v : P) (rows : List (String × P))
      → find_one j (upsert k v rows) ≡ (if k == j then some v else find_one j rows)
  unfolding find_one upsert
  find_one-upsert k j v [] = refl
  find_one-upsert k j v ((i, w) ∷ rows) =
      ground (arith, eq_iff k j, eq_iff i k, eq_iff i j, find_one-upsert k j v rows)

add_sub_one : (n : ℕ) → n + 1 - 1 ≡ n
add_sub_one n = omega arith

-- An aggregate with one new event.
abbrev pub with_event : {E S : Type 0} → String → S → ℕ → Uncommitted E → AggregateRoot E S
with_event id s n u = record { id = id; state = s; version = n; uncommitted_events = u ∷ [] }

-- The rows of one aggregate, in the order of insertion.
abbrev pub stream : {E P : Type 0} → String → Store E P → List (StoredEvent E)
stream id db = filter (of_aggregate id) db.events

module _ {E S P : Type 0} (when : E → S → Result Error S) (service : Service S P) where
  abbrev pub projected : String → S → List (StoredEvent E) → Option P
  projected id s [] = none
  projected id s (r ∷ rows) = some (service.project id s (length (r ∷ rows)))

  -- The stream is numbered from 1, replays to a state, and the projection row shows that state.
  abbrev pub ConsistentAt : String → Store E P → Type 0
  ConsistentAt id db =
      (s : S) × Numbered 0 (stream id db)
      × (replay when service.blank (stream id db) ≡ ok s)
      × (find_one id db.projection ≡ projected id s (stream id db))

  abbrev pub IsConsistent : Store E P → Type 0
  IsConsistent db = (id : String) → ConsistentAt id db

  abbrev pub loaded : String → S → List (StoredEvent E) → Option (AggregateRoot E S)
  loaded id s [] = none
  loaded id s (r ∷ rows) =
      some (record { id = id; state = s; version = length (r ∷ rows); uncommitted_events = [] })

  pub loaded-some :
      (id : String) (s : S) (rows : List (StoredEvent E))
      → rows ≢ []
      → loaded id s rows
        ≡ some (record { id = id; state = s; version = length rows; uncommitted_events = [] })
  loaded-some id s [] ne = absurd (ne refl)
  loaded-some id s (r ∷ rows) ne = refl

  from_history-replay :
      (id : String) (s : S) (rows : List (StoredEvent E))
      → Numbered 0 rows
      → replay when service.blank rows ≡ ok s
      → from_history when service id rows ≡ ok (loaded id s rows)
  from_history-replay id s [] n h = refl
  from_history-replay id s (r ∷ rows) n h =
      rw
        (hydrate-replay when 0 s (new_aggregate id service.blank) (r ∷ rows) refl n h, from_history)
        (ground arith)

  -- Loading finds the replayed state at the version of the last event, and nothing where the
  -- stream is empty.
  pub load_aggregate-ConsistentAt :
      (id : String) (db : Store E P) (c : ConsistentAt id db)
      → load_aggregate when service id db ≡ (ok (loaded id c.0 (stream id db)), db)
  unfolding load_aggregate
  load_aggregate-ConsistentAt id db (s, n, h, p) =
      rw (order_by_sequence-Numbered 0 (stream id db) n)
        (rw (from_history-replay id s (stream id db) n h))

module _ {E : Type 0} where
  is_taken-stream :
      (id : String) (n : ℕ) (rows : List (StoredEvent E))
      → is_taken id n rows ≡ any (λ r. eqb r.sequence n) (filter (of_aggregate id) rows)
  is_taken-stream id n rows = any-filter (of_aggregate id) (λ r. eqb r.sequence n) rows

  first-is_taken :
      (rows : List (StoredEvent E))
      → Numbered 0 rows
      → rows ≢ []
      → any (λ r. eqb r.sequence 1) rows ≡ true
  first-is_taken [] n ne = absurd (ne refl)
  first-is_taken (r ∷ rows) n ne = ground arith

module _ {E P : Type 0} where
  -- The next number is free, and number 1 is taken as soon as there is an event.
  pub is_taken-next :
      (id : String) (db : Store E P)
      → Numbered 0 (stream id db)
      → is_taken id (length (stream id db) + 1) db.events ≡ false
  is_taken-next id db n =
      rw (is_taken-stream id (length (stream id db) + 1) db.events)
        (any-sequence_past_end 0 (length (stream id db) + 1) (stream id db) n (omega arith))

  pub is_taken-first :
      (id : String) (db : Store E P)
      → Numbered 0 (stream id db)
      → stream id db ≢ []
      → is_taken id 1 db.events ≡ true
  is_taken-first id db n ne =
      rw (is_taken-stream id 1 db.events) (first-is_taken (stream id db) n ne)

module _ {E S P : Type 0} (service : Service S P) (ambient : Ambient)
    (correlation_id : String) where
  abbrev pub event_row : String → ℕ → Uncommitted E → StoredEvent E
  event_row id n u = record {
    aggregate_id = id;
    aggregate_type = service.aggregate_type;
    sequence = n;
    event = u.event;
    occurred_at = u.occurred_at;
    correlation_id = correlation_id;
  }

  abbrev pub outbox_row : String → ℕ → Uncommitted E → OutboxRow E
  outbox_row id drawn u = record {
    id = ambient.uuid drawn;
    aggregate_id = id;
    topic = service.topic;
    event = u.event;
    correlation_id = correlation_id;
    created_at = ambient.now;
    published_at = none;
    publish_attempts = 0;
  }

  -- The tables after one event of the aggregate `id` was saved as number `n`.
  abbrev pub saved : String → S → ℕ → ℕ → Uncommitted E → Store E P → Store E P
  saved id s n drawn u db = record {
    events = db.events ++ event_row id n u ∷ [];
    outbox = db.outbox ++ outbox_row id drawn u ∷ [];
    projection = upsert id (service.project id s n) db.projection;
  }

  insert_event-free :
      (id : String) (s : S) (n : ℕ) (u : Uncommitted E) (db : Store E P)
      → is_taken id (n + 1) db.events ≡ false
      → insert_event (event_row id (n + 1) u) db
        ≡ (ok tt, record db { events = db.events ++ event_row id (n + 1) u ∷ [] })
  insert_event-free id s n u db free = rw (free, insert_event)

  insert_event-taken :
      (id : String) (s : S) (n : ℕ) (u : Uncommitted E) (db : Store E P)
      → is_taken id (n + 1) db.events ≡ true
      → insert_event (event_row id (n + 1) u) db ≡ (err unique_violation, db)
  insert_event-taken id s n u db taken = rw (taken, insert_event)

  pub save-fresh :
      (id : String) (s : S) (n drawn : ℕ) (u : Uncommitted E) (db : Store E P)
      → is_taken id (n + 1) db.events ≡ false
      → save_within_transaction service ambient correlation_id drawn (with_event id s (n + 1) u) db
        ≡ (
          ok (record { id = id; state = s; version = n + 1; uncommitted_events = [] }),
          saved id s (n + 1) drawn u db,
        )
  unfolding save_within_transaction
  save-fresh id s n drawn u db free =
      rw (add_sub_one n, save_within_transaction)
        (rw (insert_event-free id s n u db free, ◌>>=◌, ◌>>◌, catch))

  pub save-taken :
      (id : String) (s : S) (n drawn : ℕ) (u : Uncommitted E) (db : Store E P)
      → is_taken id (n + 1) db.events ≡ true
      → save_within_transaction service ambient correlation_id drawn (with_event id s (n + 1) u) db
        ≡ (err (concurrency_error id n), db)
  unfolding save_within_transaction
  save-taken id s n drawn u db taken =
      rw (add_sub_one n, save_within_transaction)
        (rw (insert_event-taken id s n u db taken, ◌>>=◌, ◌>>◌, catch))

module _ {E S P : Type 0} (when : E → S → Result Error S) (service : Service S P) where
  module _ (ambient : Ambient) (correlation_id : String) where
    projected-append_one :
        (id : String) (s : S) (rows : List (StoredEvent E)) (r : StoredEvent E)
        → some (service.project id s (length rows + 1))
          ≡ projected when service id s (rows ++ r ∷ [])
    projected-append_one id s [] r = ground arith
    projected-append_one id s (x ∷ rows) r = ground (arith, length-append rows (r ∷ []))

    module _ (id : String) (s s' : S) (drawn : ℕ) (u : Uncommitted E) (db : Store E P)
        (replayed : replay when service.blank (stream id db) ≡ ok s)
        (next : when u.event s ≡ ok s') where
      abbrev pub next_row : StoredEvent E
      next_row = event_row service ambient correlation_id id (length (stream id db) + 1) u

      abbrev pub next_db : Store E P
      next_db = saved service ambient correlation_id id s' (length (stream id db) + 1) drawn u db

      pub stream-saved :
          (j : String)
          → stream j next_db ≡ (if id == j then stream j db ++ next_row ∷ [] else stream j db)
      stream-saved j =
          rw (filter-append (of_aggregate j) db.events (next_row ∷ []))
            (ground (arith, append-nil (stream j db)))

      saved-ConsistentAt_self :
          ConsistentAt when service id db → ConsistentAt when service id next_db
      saved-ConsistentAt_self (_, n, _, _) =
          rw (stream-saved id, ==_refl id)
            (
              s',
              Numbered-append_one 0 (stream id db) next_row n (omega arith),
              replay-append_one when service.blank s (stream id db) next_row replayed ∙ next,
              rw
                  (
                    find_one-upsert id id (service.project id s' (length (stream id db) + 1))
                        db.projection,
                    ==_refl id,
                  )
                  (projected-append_one id s' (stream id db) next_row),
            )

      saved-ConsistentAt_ne :
          (j : String)
          → (id == j) ≡ false
          → ConsistentAt when service j db
          → ConsistentAt when service j next_db
      saved-ConsistentAt_ne j e (t, n, h, p) =
          rw (stream-saved j, e)
            (
              t,
              n,
              h,
              rw
                  (
                    find_one-upsert id j (service.project id s' (length (stream id db) + 1))
                        db.projection,
                    e,
                  )
                  p,
            )

      -- Saving the next event of one aggregate keeps all of the tables consistent.
      pub saved-IsConsistent : IsConsistent when service db → IsConsistent when service next_db
      saved-IsConsistent c j = elim (Bool-cases (id == j)) [
        | inl e ↦
            subst (λ k. ConsistentAt when service k next_db) (eq_of_== id j e)
              (saved-ConsistentAt_self (c id))
        | inr e ↦ saved-ConsistentAt_ne j e (c j)
      ]
