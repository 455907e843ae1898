-- ===== src/EventSourcing/Outcomes.antt =====
-- What a command may do to a service's tables: nothing, or append the next event of one aggregate.
use kafka_ledger_saga.Base.{
  ℕ, ◌+◌, String, ◌≡◌, ◌≢◌, sym, [], map, Result, ok, err, length, subst, transaction,
}
use mathlib.Core.List.{map-append}
use kafka_ledger_saga.Errors.{Error, concurrency_error}
use kafka_ledger_saga.EventSourcing.Aggregate.{Uncommitted, StoredEvent, replay}
use kafka_ledger_saga.EventSourcing.Tables.{Store, Service, Ambient, OutboxRow, save}
use kafka_ledger_saga.EventSourcing.Replay.{Numbered}
use kafka_ledger_saga.EventSourcing.Consistency.{
  stream, IsConsistent, with_event, saved, save-fresh, save-taken, is_taken-next, is_taken-first,
  saved-IsConsistent,
}

module _ {E S P : Type 0} (when : E → S → Result Error S) (service : Service S P) where
  pub data Outcome (db db' : Store E P) : Type 0 where
    kept : db' ≡ db → Outcome db db'
    appended :
        (ambient : Ambient) (correlation_id id : String) (s s' : S) (drawn : ℕ) (u : Uncommitted E)
        → replay when service.blank (stream id db) ≡ ok s
        → when u.event s ≡ ok s'
        → db' ≡ saved service ambient correlation_id id s' (length (stream id db) + 1) drawn u db
        → Outcome db db'

  pub Outcome-IsConsistent :
      {db db' : Store E P}
      → Outcome db db'
      → IsConsistent when service db
      → IsConsistent when service db'
  Outcome-IsConsistent (kept e) c = subst (IsConsistent when service) (sym e) c
  Outcome-IsConsistent {db} (appended ambient cid id s s' drawn u h w e) c =
      subst (IsConsistent when service) (sym e)
        (saved-IsConsistent when service ambient cid id s s' drawn u db h w c)

  -- Which aggregate an event belongs to, what happened, and in which business transaction.
  abbrev pub event_facts : StoredEvent E → String × E × String
  event_facts r = (r.aggregate_id, r.event, r.correlation_id)

  abbrev pub outbox_facts : OutboxRow E → String × E × String
  outbox_facts r = (r.aggregate_id, r.event, r.correlation_id)

  -- The outbox holds the events of the event store, in the same order.
  abbrev pub IsMirrored : Store E P → Type 0
  IsMirrored db = map outbox_facts db.outbox ≡ map event_facts db.events

  pub Outcome-IsMirrored : {db db' : Store E P} → Outcome db db' → IsMirrored db → IsMirrored db'
  Outcome-IsMirrored (kept e) m = subst IsMirrored (sym e) m
  Outcome-IsMirrored {db} (appended ambient cid id s s' drawn u h w e) m =
      subst IsMirrored (sym e) (rw (map-append outbox_facts, map-append event_facts, m))

module _ {E S P : Type 0} (service : Service S P) (ambient : Ambient)
    (correlation_id : String) where
  pub save-next :
      (id : String) (s : S) (drawn : ℕ) (u : Uncommitted E) (db : Store E P)
      → Numbered 0 (stream id db)
      → save service ambient correlation_id drawn (with_event id s (length (stream id db) + 1) u) db
        ≡ (
          ok (record {
            id = id;
            state = s;
            version = length (stream id db) + 1;
            uncommitted_events = [];
          }),
          saved service ambient correlation_id id s (length (stream id db) + 1) drawn u db,
        )
  unfolding save
  save-next id s drawn u db n = rw (
    save-fresh service ambient correlation_id id s (length (stream id db)) drawn u db
        (is_taken-next id db n),
    transaction,
  )

  pub save-first_taken :
      (id : String) (s : S) (drawn : ℕ) (u : Uncommitted E) (db : Store E P)
      → Numbered 0 (stream id db)
      → stream id db ≢ []
      → save service ambient correlation_id drawn (with_event id s 1 u) db
        ≡ (err (concurrency_error id 0), db)
  unfolding save
  save-first_taken id s drawn u db n ne = rw (
    save-taken service ambient correlation_id id s 0 drawn u db (is_taken-first id db n ne),
    transaction,
  )
