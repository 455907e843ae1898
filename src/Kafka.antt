-- ===== src/Kafka.antt =====
-- What the four command and event consumers do with one Kafka message (`eachMessage` in the
-- *-consumer.controller.ts files and saga-event.consumer.ts), and the offset that they commit.
-- A message carries its envelope; JSON.stringify and JSON.parse are taken as inverse.
use kafka_ledger_saga.Base.{
  ℕ, ◌+◌, String, Bool, List, [], ◌∷◌, ◌++◌, ok, err, if◌then◌else◌, Option, none, some, Action,
  pure, ◌>>◌,
}
use kafka_ledger_saga.Errors.{Error, kafka_unavailable}
use kafka_ledger_saga.Contracts.{Fields, CommandEnvelope}

-- `T extends { id: string; type: string; correlationId: string }`: what `publish` reads of an
-- envelope of any class.
pub record Publishable (V : Type 0) : Type 0 where
  pub id_of : V → String
  pub type_of : V → String
  pub correlation_of : V → String

-- A message on its way out: `producer.send` in
-- libs/kafka-client/src/kafka-producer.service.ts.
pub record MessageOf (V : Type 0) : Type 0 where
  pub topic : String
  pub key : String
  pub value : V
  pub headers : List (String × String)

-- The broker that a producer is connected to: what it was sent and acknowledged, oldest first, and
-- how many sends were tried.
pub record BrokerOf (V : Type 0) : Type 0 where
  pub attempts : ℕ
  pub sent : List (MessageOf V)

module _ {V : Type 0} (p : Publishable V) where
  -- The headers that KafkaProducerService puts before the caller's.
  abbrev pub headers_of : V → List (String × String)
  headers_of e =
      ("x-event-id", p.id_of e)
      ∷ ("x-event-type", p.type_of e)
      ∷ ("x-correlation-id", p.correlation_of e)
      ∷ []

  -- `KafkaProducerService.publish`. Whether the n-th send is acknowledged is the cluster's choice.
  unfoldable pub publish_as :
      (ℕ → Bool)
      → String
      → V
      → String
      → List (String × String)
      → Action Error (BrokerOf V) (Unit {0})
  publish_as accepts topic e key headers b =
      if accepts b.attempts
      then (
        ok tt,
        record {
          attempts = b.attempts + 1;
          sent =
              b.sent
              ++ record { topic = topic; key = key; value = e; headers = headers_of e ++ headers }
                ∷ [];
        },
      )
      else (err kafka_unavailable, record b { attempts = b.attempts + 1 })

-- The commands of the gateway and of the orchestrator.
abbrev pub command_publishable : Publishable (CommandEnvelope Fields)
command_publishable = record {
  id_of = λ e. e.id;
  type_of = λ e. e.type;
  correlation_of = λ e. e.correlation_id;
}

abbrev pub Message : Type 0
Message = MessageOf (CommandEnvelope Fields)

abbrev pub Broker : Type 0
Broker = BrokerOf (CommandEnvelope Fields)

abbrev pub standard_headers : CommandEnvelope Fields → List (String × String)
standard_headers = headers_of command_publishable

unfoldable pub publish :
    (ℕ → Bool)
    → String
    → CommandEnvelope Fields
    → String
    → List (String × String)
    → Action Error Broker (Unit {0})
unfolding publish_as
publish = publish_as command_publishable

-- The offsets that `commitOffsets` has moved, newest last.
pub record ConsumerState (S : Type 0) : Type 0 where
  pub tables : S
  pub committed : Option ℕ

-- A message as the consumer sees it: an empty `value` is `none`.
pub record KafkaMessage (P : Type 0) : Type 0 where
  pub offset : ℕ
  pub value : Option P

module _ {S : Type 0} where
  abbrev pub on_tables : {A : Type 0} → Action Error S A → Action Error (ConsumerState S) A
  on_tables m c = let (r, s) = m c.tables in (r, record c { tables = s })

  -- `commitOffsets([{ topic, partition, offset: offset + 1 }])`
  abbrev pub commit_offset : ℕ → Action Error (ConsumerState S) (Unit {0})
  commit_offset n c = pure tt (record c { committed = some (n + 1) })

  -- The offset is committed only after the message was dispatched without a throw.
  unfoldable pub each_message :
      {P : Type 0}
      → (P → Action Error S (Unit {0}))
      → KafkaMessage P
      → Action Error (ConsumerState S) (Unit {0})
  each_message dispatch m = elim m.value [
    | none ↦ pure tt
    | some envelope ↦ on_tables (dispatch envelope) >> commit_offset m.offset
  ]
