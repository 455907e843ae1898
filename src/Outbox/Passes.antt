-- ===== src/Outbox/Passes.antt =====
-- What the passes of the relay send, and in which order.
use kafka_ledger_saga.Base.{
  ℕ, ◌+◌, ◌≤◌, String, ◌≡◌, ap, sym, ◌∙◌, Bool, true, false, List, [], ◌∷◌, ◌++◌, map, append-nil,
  append_assoc, ok, ◌==◌, ==_refl, ==_comm, leb, length, length-map, arith, none,
}
use kafka_ledger_saga.Contracts.{Fields}
use kafka_ledger_saga.EventSourcing.{OutboxRow}
use kafka_ledger_saga.Kafka.{BrokerOf, MessageOf, publish_as}
use kafka_ledger_saga.Outbox.Relay.{
  RelayState, RelayWorld, RelayedEvent, select_batch, message_of, count_attempt, mark_published,
  relay_row, relay_rows, relay, tick, ticks,
}
use kafka_ledger_saga.Outbox.Batch.{length-select_batch_le}

-- A tick that finds nothing locked and commits.
abbrev pub open_world : ℕ → (ℕ → Bool) → RelayWorld
open_world now accepts = record {
  now = now;
  accepts = accepts;
  locked = λ _. false;
  commits = true;
}

module _ {E : Type 0} (event_type : E → String) (event_fields : E → Fields) where
  relay_rows-sends :
      (world : RelayWorld) (rows : List (OutboxRow E)) (s : RelayState E)
      → ((n : ℕ) → world.accepts n ≡ true)
      → (relay_rows event_type event_fields world rows s).broker.sent
        ≡ s.broker.sent ++ map (message_of event_type event_fields) rows
  unfolding relay_rows relay_row publish_as
  relay_rows-sends world [] s acked = sym (append-nil s.broker.sent)
  relay_rows-sends world (row ∷ rest) s acked =
      relay_rows-sends world rest (relay_row event_type event_fields world row s) acked
      ∙ rw (acked s.broker.attempts) (append_assoc s.broker.sent _ _)

  abbrev pub batch_messages : RelayWorld → ℕ → RelayState E → List (MessageOf RelayedEvent)
  batch_messages world n s =
      map (message_of event_type event_fields) (select_batch world.locked n s.rows)

  -- A pass whose sends are all acknowledged and whose transaction commits sends the messages of the
  -- rows that its query selects, and returns their number, which is at most the batch size.
  pub relay-sends :
      (world : RelayWorld) (n : ℕ) (s : RelayState E)
      → ((i : ℕ) → world.accepts i ≡ true)
      → world.commits ≡ true
      → ((relay event_type event_fields world n s).0 ≡ ok (length (batch_messages world n s)))
        × ((relay event_type event_fields world n s).1.broker.sent
            ≡ s.broker.sent ++ batch_messages world n s)
        × (length (batch_messages world n s) ≤ n)
  unfolding relay
  relay-sends world n s acked commits =
      let rows = select_batch world.locked n s.rows in
      rw commits (
        ap ok (sym (length-map _ rows)),
        relay_rows-sends world rows s acked,
        omega (
          arith,
          length-map (message_of event_type event_fields) rows,
          length-select_batch_le world.locked n s.rows,
        ),
      )

  after_refusal :
      (now : ℕ) (accepts : ℕ → Bool) (older newer : OutboxRow E) (broker : BrokerOf RelayedEvent)
      → older.published_at ≡ none
      → newer.published_at ≡ none
      → leb older.created_at newer.created_at ≡ true
      → (older.id == newer.id) ≡ false
      → accepts broker.attempts ≡ false
      → accepts (broker.attempts + 1) ≡ true
      → tick event_type event_fields
          (open_world now accepts)
          (record { rows = older ∷ newer ∷ []; broker = broker })
        ≡ record {
          rows = count_attempt older ∷ mark_published now newer ∷ [];
          broker = record {
            attempts = broker.attempts + 1 + 1;
            sent = broker.sent ++ message_of event_type event_fields newer ∷ [];
          };
        }
  unfolding tick relay select_batch relay_rows relay_row publish_as
  after_refusal now accepts older newer broker older_waits newer_waits in_order ne refused acked =
      simp (
        older_waits,
        newer_waits,
        in_order,
        ne,
        ==_comm newer.id older.id ∙ ne,
        refused,
        acked,
        ==_refl,
      )

  after_retry :
      (now later : ℕ) (accepts : ℕ → Bool) (older newer : OutboxRow E)
      (broker : BrokerOf RelayedEvent)
      → older.published_at ≡ none
      → accepts broker.attempts ≡ true
      → (tick event_type event_fields (open_world later accepts) (record {
        rows = count_attempt older ∷ mark_published now newer ∷ [];
        broker = broker;
      })).broker.sent
        ≡ broker.sent ++ message_of event_type event_fields older ∷ []
  unfolding tick relay select_batch relay_rows relay_row publish_as
  after_retry now later accepts older newer broker older_waits acked = simp (older_waits, acked)

  -- Two rows of one aggregate, the older of which is refused once: after the next tick the newer
  -- row's message stands before the older row's, under the same key.
  pub ticks-reorder :
      (now later : ℕ) (accepts : ℕ → Bool) (older newer : OutboxRow E)
      (broker : BrokerOf RelayedEvent)
      → older.published_at ≡ none
      → newer.published_at ≡ none
      → leb older.created_at newer.created_at ≡ true
      → (older.id == newer.id) ≡ false
      → older.aggregate_id ≡ newer.aggregate_id
      → accepts broker.attempts ≡ false
      → accepts (broker.attempts + 1) ≡ true
      → accepts (broker.attempts + 1 + 1) ≡ true
      → ((ticks event_type event_fields
            (open_world now accepts ∷ open_world later accepts ∷ [])
            (record { rows = older ∷ newer ∷ []; broker = broker })).broker.sent
          ≡ broker.sent
            ++ message_of event_type event_fields newer
              ∷ message_of event_type event_fields older
              ∷ [])
        × ((message_of event_type event_fields newer).key
            ≡ (message_of event_type event_fields older).key)
  unfolding ticks
  ticks-reorder now later accepts older newer broker older_waits newer_waits in_order ne same
        refused acked acked' =
      (
        ap (λ s. (tick event_type event_fields (open_world later accepts) s).broker.sent)
              (after_refusal now accepts older newer broker older_waits newer_waits in_order ne
                refused acked)
            ∙ after_retry now later accepts older newer _ older_waits acked'
            ∙ append_assoc broker.sent _ _,
        sym same,
      )
