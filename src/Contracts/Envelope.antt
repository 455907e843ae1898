-- ===== src/Contracts/Envelope.antt =====
-- libs/event-contracts/src/envelope.ts. The id and the time of issue, which the code draws from
-- `randomUUID()` and `new Date()`, are arguments.
use kafka_ledger_saga.Base.{ℕ, String, Option, none, some}

abbrev pub event_envelope_version : ℕ
event_envelope_version = 1

pub record EventEnvelope (P : Type 0) : Type 0 where
  pub id : String
  pub type : String
  pub version : ℕ
  pub aggregate_id : String
  pub sequence : ℕ
  pub occurred_at : ℕ
  pub correlation_id : String
  pub causation_id : Option String
  pub payload : P

pub record CommandEnvelope (P : Type 0) : Type 0 where
  pub id : String
  pub type : String
  pub version : ℕ
  pub correlation_id : String
  pub causation_id : Option String
  pub issued_at : ℕ
  pub payload : P

pub record EnvelopeInit (P : Type 0) : Type 0 where
  pub type : String
  pub aggregate_id : String
  pub sequence : ℕ
  pub correlation_id : String
  pub payload : P
  pub causation_id : Option String
  pub version : Option ℕ

pub record CommandInit (P : Type 0) : Type 0 where
  pub type : String
  pub correlation_id : String
  pub payload : P
  pub causation_id : Option String
  pub version : Option ℕ

-- `version ?? EVENT_ENVELOPE_VERSION`
abbrev version_or_default : Option ℕ → ℕ
version_or_default none = event_envelope_version
version_or_default (some v) = v

unfoldable pub make_event : {P : Type 0} → String → ℕ → EnvelopeInit P → EventEnvelope P
make_event id now i = record {
  id = id;
  type = i.type;
  version = version_or_default i.version;
  aggregate_id = i.aggregate_id;
  sequence = i.sequence;
  occurred_at = now;
  correlation_id = i.correlation_id;
  causation_id = i.causation_id;
  payload = i.payload;
}

unfoldable pub make_command : {P : Type 0} → String → ℕ → CommandInit P → CommandEnvelope P
make_command id now i = record {
  id = id;
  type = i.type;
  version = version_or_default i.version;
  correlation_id = i.correlation_id;
  causation_id = i.causation_id;
  issued_at = now;
  payload = i.payload;
}
