-- ===== src/EventSourcing/RoundTrip.antt =====
-- What was saved is loaded again.
use kafka_ledger_saga.Base.{
  ℕ, ◌+◌, String, ◌≡◌, ◌≢◌, ◌∙◌, ap, sym, List, [], ◌∷◌, ◌++◌, some, Result, ok, length,
  length-append, ==_refl,
}
use kafka_ledger_saga.Errors.{Error}
use kafka_ledger_saga.EventSourcing.Aggregate.{StoredEvent, Uncommitted, replay}
use kafka_ledger_saga.EventSourcing.Tables.{Store, Service, Ambient, load_aggregate, save}
use kafka_ledger_saga.EventSourcing.Replay.{replay-append_one}
use kafka_ledger_saga.EventSourcing.Outcomes.{save-next}
use kafka_ledger_saga.EventSourcing.Consistency.{
  stream, IsConsistent, loaded-some, load_aggregate-ConsistentAt, saved, with_event, event_row,
  stream-saved, saved-IsConsistent,
}

ok-injective : {S : Type 0} (a b : S) → ◌≡◌ {A = Result Error S} (ok a) (ok b) → a ≡ b
ok-injective a b e = cc

not_empty :
    {E : Type 0} (xs ys : List (StoredEvent E)) (x : StoredEvent E) → xs ≡ ys ++ x ∷ [] → xs ≢ []
not_empty xs [] x e h = cc
not_empty xs (y ∷ ys) x e h = cc

load_aggregate-saved :
    {E S P : Type 0} (when : E → S → Result Error S) (service : Service S P) (ambient : Ambient)
    (correlation_id id : String) (s s' : S) (drawn : ℕ) (u : Uncommitted E) (db : Store E P)
    → IsConsistent when service db
    → replay when service.blank (stream id db) ≡ ok s
    → when u.event s ≡ ok s'
    → load_aggregate when service id
        (saved service ambient correlation_id id s' (length (stream id db) + 1) drawn u db)
      ≡ (
        ok (
            some (record {
              id = id;
              state = s';
              version = length (stream id db) + 1;
              uncommitted_events = [];
            })),
        saved service ambient correlation_id id s' (length (stream id db) + 1) drawn u db,
      )
load_aggregate-saved when service ambient correlation_id id s s' drawn u db c replayed next =
    let row = event_row service ambient correlation_id id (length (stream id db) + 1) u in
    let db' = saved service ambient correlation_id id s' (length (stream id db) + 1) drawn u db in
    let c' =
      saved-IsConsistent when service ambient correlation_id id s s' drawn u db replayed next c
        id in
    let grown =
      rw (==_refl id) at
        (stream-saved when service ambient correlation_id id s s' drawn u db replayed next id) in
    let same_state = ok-injective c'.0 s' (
      sym c'.2
      ∙ (ap (replay when service.blank) grown
          ∙ (replay-append_one when service.blank s (stream id db) row replayed ∙ next))) in
    rw (
      load_aggregate-ConsistentAt when service id db' c',
      loaded-some when service id c'.0 (stream id db')
          (not_empty (stream id db') (stream id db) row grown),
      same_state,
      grown,
      length-append (stream id db) (row ∷ []),
    )

-- For any service, after the next event of an aggregate was saved to consistent tables, loading the
-- aggregate gives the state that the event leads to, at the next version and with nothing
-- uncommitted.
pub load_aggregate-save :
    {E S P : Type 0} (when : E → S → Result Error S) (service : Service S P) (ambient : Ambient)
    (correlation_id id : String) (s s' : S) (drawn : ℕ) (u : Uncommitted E) (db : Store E P)
    → IsConsistent when service db
    → replay when service.blank (stream id db) ≡ ok s
    → when u.event s ≡ ok s'
    → load_aggregate when service id
        (save service ambient correlation_id drawn
          (with_event id s' (length (stream id db) + 1) u)
          db).1
      ≡ (
        ok (
            some (record {
              id = id;
              state = s';
              version = length (stream id db) + 1;
              uncommitted_events = [];
            })),
        (save service ambient correlation_id drawn
            (with_event id s' (length (stream id db) + 1) u)
            db).1,
      )
load_aggregate-save when service ambient correlation_id id s s' drawn u db c replayed next =
    rw (save-next service ambient correlation_id id s' drawn u db (c id).1)
      (load_aggregate-saved when service ambient correlation_id id s s' drawn u db c replayed next)
