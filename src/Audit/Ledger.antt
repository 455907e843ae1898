-- ===== src/Audit/Ledger.antt =====
-- apps/audit-ledger-service/src: audit-log.repository.ts and audit-consumer.controller.ts. An offset
-- is a number here; the table keeps it as text.
use kafka_ledger_saga.Base.{
  ℕ, ◌+◌, String, Bool, false, ◌&&◌, Option, none, some, List, [], ◌∷◌, ◌++◌, ok, err, Action, pure,
  raise, catch, ◌>>◌, ◌==◌, eqb, leb, any, filter, if◌then◌else◌,
}
use kafka_ledger_saga.Contracts.{Fields}
use kafka_ledger_saga.Errors.{Error, unique_violation, failure}

-- What `JSON.parse` may give of a GenericEnvelope: any of its properties may be missing.
pub record GenericEnvelope : Type 0 where
  pub type : Option String
  pub aggregate_id : Option String
  pub correlation_id : Option String
  pub payload : Option Fields

-- A value that is not JSON, the JSON text `null`, and any other.
pub data Body : Type 0 where
  unparseable : Body
  null : Body
  envelope : GenericEnvelope → Body

pub record Delivered : Type 0 where
  pub topic : String
  pub partition : ℕ
  pub offset : ℕ
  pub value : Option Body

pub record AuditLogEntity : Type 0 where
  pub topic : String
  pub partition : ℕ
  pub offset : ℕ
  pub event_type : String
  pub aggregate_id : Option String
  pub correlation_id : String
  pub payload : Fields
  pub consumed_at : ℕ

-- The clock, and whether Postgres answers.
pub record AuditWorld : Type 0 where
  pub now : ℕ
  pub is_up : Bool

-- A call of `commitOffsets`.
pub record Commit : Type 0 where
  pub topic : String
  pub partition : ℕ
  pub offset : ℕ

pub record AuditState : Type 0 where
  pub rows : List AuditLogEntity
  pub commits : List Commit

-- The constraint UNIQUE (topic, partition, "offset").
abbrev pub is_at : String → ℕ → ℕ → AuditLogEntity → Bool
is_at topic partition offset r =
    r.topic == topic && (eqb r.partition partition && eqb r.offset offset)

abbrev pub is_recorded : String → ℕ → ℕ → List AuditLogEntity → Bool
is_recorded topic partition offset rows = any (is_at topic partition offset) rows

abbrev pub insert_row : AuditWorld → AuditLogEntity → Action Error AuditState (Unit {0})
insert_row world r s =
    if world.is_up
    then (if is_recorded r.topic r.partition r.offset s.rows
        then (err unique_violation, s)
        else (ok tt, record s { rows = s.rows ++ r ∷ [] }))
    else (err (failure "database"), s)

abbrev skip_existing : Error → Action Error AuditState (Unit {0})
skip_existing unique_violation = pure tt
skip_existing e = raise e

-- `AuditLogRepository.record`
unfoldable pub record_entry : AuditWorld → AuditLogEntity → Action Error AuditState (Unit {0})
record_entry world r = catch (insert_row world r) skip_existing

-- `AuditLogRepository.findByCorrelationId` and `findByAggregateId`.
abbrev insert_by_consumed : AuditLogEntity → List AuditLogEntity → List AuditLogEntity
insert_by_consumed r [] = r ∷ []
insert_by_consumed r (x ∷ rows) =
    let later = insert_by_consumed r rows in
    if leb r.consumed_at x.consumed_at then r ∷ x ∷ rows else x ∷ later

abbrev pub order_by_consumed : List AuditLogEntity → List AuditLogEntity
order_by_consumed [] = []
order_by_consumed (r ∷ rows) = insert_by_consumed r (order_by_consumed rows)

abbrev pub is_of_aggregate : String → Option String → Bool
is_of_aggregate id none = false
is_of_aggregate id (some a) = a == id

unfoldable pub find_by_correlation_id : String → AuditState → List AuditLogEntity
find_by_correlation_id id s = order_by_consumed (filter (λ r. r.correlation_id == id) s.rows)

unfoldable pub find_by_aggregate_id : String → AuditState → List AuditLogEntity
find_by_aggregate_id id s =
    order_by_consumed (filter (λ r. is_of_aggregate id r.aggregate_id) s.rows)

abbrev pub or_default {ℓ} : {A : Type ℓ} → A → Option A → A
or_default d none = d
or_default d (some a) = a

-- The row that the consumer records for a message.
abbrev pub entry_of : ℕ → Delivered → GenericEnvelope → AuditLogEntity
entry_of now m e = record {
  topic = m.topic;
  partition = m.partition;
  offset = m.offset;
  event_type = or_default "UNKNOWN" e.type;
  aggregate_id = e.aggregate_id;
  correlation_id = or_default "UNKNOWN" e.correlation_id;
  payload = or_default [] e.payload;
  consumed_at = now;
}

-- `AuditKafkaConsumer.commit`
abbrev pub commit : Delivered → Action Error AuditState (Unit {0})
commit m s = (
  ok tt,
  record s {
    commits =
        s.commits
        ++ record { topic = m.topic; partition = m.partition; offset = m.offset + 1 } ∷ [];
  },
)

-- `eachMessage`. Reading a property of `null` throws.
abbrev pub on_body : AuditWorld → Delivered → Body → Action Error AuditState (Unit {0})
on_body world m unparseable = commit m
on_body world m null = raise (failure "TypeError")
on_body world m (envelope e) = record_entry world (entry_of world.now m e) >> commit m

abbrev on_value : AuditWorld → Delivered → Option Body → Action Error AuditState (Unit {0})
on_value world m none = pure tt
on_value world m (some body) = on_body world m body

unfoldable pub each_message : AuditWorld → Delivered → Action Error AuditState (Unit {0})
unfolding record_entry
each_message world m = on_value world m m.value

-- Messages as Kafka delivers them, a message that was not committed as often as it likes.
unfoldable pub run : List (AuditWorld × Delivered) → AuditState → AuditState
unfolding each_message
run [] s = s
run ((world, m) ∷ rest) s = run rest (each_message world m s).1
