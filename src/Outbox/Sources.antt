-- ===== src/Outbox/Sources.antt =====
-- Every message that the relay of a service has sent tells of an event in that service's event store.
use kafka_ledger_saga.Base.{
  ℕ, ◌+◌, String, ◌≡◌, refl, sym, ap, subst, Bool-cases, inl, inr, List, [], ◌∷◌, ◌++◌, append-nil,
  Result, ok, length, All, Any, All-map, All-append_one, Any-append_left, Any-append_last,
}
use kafka_ledger_saga.Contracts.{Fields}
use kafka_ledger_saga.Errors.{Error}
use kafka_ledger_saga.EventSourcing.{Store, Service, StoredEvent, OutboxRow}
use kafka_ledger_saga.EventSourcing.Consistency.{IsConsistent, stream, event_row, outbox_row, saved}
use kafka_ledger_saga.EventSourcing.Outcomes.{Outcome, kept, appended, Outcome-IsConsistent}
use kafka_ledger_saga.Kafka.{BrokerOf, MessageOf, publish_as}
use kafka_ledger_saga.Outbox.Relay.{
  RelayState, RelayWorld, RelayedEvent, message_of, relay_row, relay_rows, relay, select_batch,
  mark_published, count_attempt,
}
use kafka_ledger_saga.Outbox.Marks.{All-update, All-select_batch}

module _ {E S P : Type 0} (when : E → S → Result Error S) (service : Service S P)
    (event_type : E → String) (event_fields : E → Fields) where
  -- The type and the payload are those of a stored event.
  abbrev pub TellsOf : List (StoredEvent E) → MessageOf RelayedEvent → Type 0
  TellsOf events m =
      Any (λ r. (m.value.type ≡ event_type r.event) × (m.value.payload ≡ event_fields r.event))
        events

  -- A stored event is one that the service's reducer takes.
  abbrev pub IsTaken : StoredEvent E → Type 0
  IsTaken r = (s : S) × (s' : S) × (when r.event s ≡ ok s')

  -- The tables of a service and what its relay has sent.
  pub record Publishes (db : Store E P) (sent : List (MessageOf RelayedEvent)) : Type 0 where
    pub consistent : IsConsistent when service db
    pub taken : All IsTaken db.events
    pub rows : All (λ row. TellsOf db.events (message_of event_type event_fields row)) db.outbox
    pub relayed : All (TellsOf db.events) sent

  -- After a command the events are those from before, and perhaps one more.
  pub Outcome-events :
      {db db' : Store E P}
      → Outcome when service db db'
      → (new : List (StoredEvent E)) × (db'.events ≡ db.events ++ new)
  Outcome-events {db} (kept e) = ([], rw (e, append-nil db.events) refl)
  Outcome-events (appended ambient cid id s s' drawn u h w e) =
      (event_row service ambient cid id _ u ∷ [], ap (λ d. d.events) e)

  TellsOf-append :
      (events : List (StoredEvent E)) (r : StoredEvent E) (m : MessageOf RelayedEvent)
      → TellsOf events m
      → TellsOf (events ++ r ∷ []) m
  TellsOf-append events r m = Any-append_left _ events (r ∷ [])

  pub Outcome-Publishes :
      {db db' : Store E P} {sent : List (MessageOf RelayedEvent)}
      → Outcome when service db db'
      → Publishes db sent
      → Publishes db' sent
  Outcome-Publishes {sent = sent} (kept e) h = subst (λ d. Publishes d sent) (sym e) h
  Outcome-Publishes {db} {db'} {sent} (appended ambient cid id s s' drawn u h w e) p =
      let r = event_row service ambient cid id (length (stream id db) + 1) u in
      let step : Publishes (saved service ambient cid id s' (length (stream id db) + 1) drawn u db)
          sent =
        record {
          consistent = subst (IsConsistent when service) e (
              Outcome-IsConsistent when service (appended ambient cid id s s' drawn u h w e)
                p.consistent);
          taken = All-append_one IsTaken db.events r p.taken (s, s', w);
          rows =
              All-append_one _ db.outbox (outbox_row service ambient cid id drawn u)
                (All-map
                  (λ row q. TellsOf-append db.events r (message_of event_type event_fields row) q)
                  db.outbox p.rows)
                (Any-append_last _ db.events r (refl, refl));
          relayed = All-map (λ m q. TellsOf-append db.events r m q) sent p.relayed;
        } in
      subst (λ d. Publishes d sent) (sym e) step

  module _ (Q : MessageOf RelayedEvent → Type 0) where
    abbrev pub OfRow : OutboxRow E → Type 0
    OfRow row = Q (message_of event_type event_fields row)

    relay_row-All :
        (world : RelayWorld) (row : OutboxRow E) (s : RelayState E)
        → OfRow row
        → All OfRow s.rows × All Q s.broker.sent
        → All OfRow (relay_row event_type event_fields world row s).rows
          × All Q (relay_row event_type event_fields world row s).broker.sent
    unfolding relay_row publish_as
    relay_row-All world row s q (rows, sent) = elim (Bool-cases (world.accepts s.broker.attempts)) [
      | inl e ↦ rw e (
        All-update OfRow row.id (mark_published world.now) (λ _ _ h. h) s.rows rows,
        All-append_one Q s.broker.sent _ sent q,
      )
      | inr e ↦ rw e (All-update OfRow row.id count_attempt (λ _ _ h. h) s.rows rows, sent)
    ]

    relay_rows-All :
        (world : RelayWorld) (batch : List (OutboxRow E)) (s : RelayState E)
        → All OfRow batch
        → All OfRow s.rows × All Q s.broker.sent
        → All OfRow (relay_rows event_type event_fields world batch s).rows
          × All Q (relay_rows event_type event_fields world batch s).broker.sent
    unfolding relay_rows
    relay_rows-All world [] s _ h = h
    relay_rows-All world (row ∷ rest) s (q, qs) h =
        relay_rows-All world rest (relay_row event_type event_fields world row s) qs
          (relay_row-All world row s q h)

    pub relay-All :
        (world : RelayWorld) (n : ℕ) (s : RelayState E)
        → All OfRow s.rows × All Q s.broker.sent
        → All OfRow (relay event_type event_fields world n s).1.rows
          × All Q (relay event_type event_fields world n s).1.broker.sent
    unfolding relay
    relay-All world n s (rows, sent) =
        let after =
          relay_rows-All world (select_batch world.locked n s.rows) s
            (All-select_batch OfRow world.locked n s.rows rows) (rows, sent) in
        elim (Bool-cases world.commits) [ inl e ↦ rw e after | inr e ↦ rw e (rows, after.1) ]

  -- A pass of the relay over the outbox of the service.
  pub relay-Publishes :
      (world : RelayWorld) (n : ℕ) (db : Store E P) (broker : BrokerOf RelayedEvent)
      → Publishes db broker.sent
      → Publishes
          (record db {
            outbox =
                (relay event_type event_fields world n
                  (record { rows = db.outbox; broker = broker })).1.rows;
          })
          (relay event_type event_fields world n
            (record { rows = db.outbox; broker = broker })).1.broker.sent
  relay-Publishes world n db broker p =
      let (rows, relayed) =
        relay-All (TellsOf db.events) world n (record { rows = db.outbox; broker = broker })
          (p.rows, p.relayed) in
      record { consistent = p.consistent; taken = p.taken; rows = rows; relayed = relayed }
