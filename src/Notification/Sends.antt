-- ===== src/Notification/Sends.antt =====
-- What the notification consumer does on every message: when it commits, and what it sends.
use kafka_ledger_saga.Base.{
  ℕ, ◌+◌, ◌≤◌, ◌≡◌, refl, ap, ◌∙◌, ◌⊎◌, inl, inr, Bool-cases, Option, none, some, List, [], ◌∷◌,
  map, Result, ok, err, ◌==◌, length, length-append, arith, pure, continue, handle,
}
use kafka_ledger_saga.Errors.{Error}
use kafka_ledger_saga.Kafka.{ConsumerState, KafkaMessage, commit_offset}
use kafka_ledger_saga.Outbox.Relay.{RelayedEvent}
use kafka_ledger_saga.Notification.Channels.{Providers, Sent, EmailMessage, send_email}
use kafka_ledger_saga.Notification.Consumer.{
  Body, unparseable, null, envelope, dispatch, each_message, run,
}

-- At most one more e-mail, and no text.
abbrev pub IsMail : Sent → Sent → Type 0
IsMail s s' = (length s'.emails ≤ length s.emails + 1) × (s'.texts ≡ s.texts)

send_email-IsMail : (p : Providers) (m : EmailMessage) (s : Sent) → IsMail s (send_email p m s).1
unfolding send_email
send_email-IsMail p m s = elim (Bool-cases (p.email_accepts s.tries)) [
  | inl e ↦ rw e (omega (arith, length-append s.emails (m ∷ [])), refl)
  | inr e ↦ rw e (omega arith, refl)
]

-- The third case: the resolver gives no telephone number, so that nothing follows the e-mail.
then_nothing :
    (s : Sent) (r : Result Error (Unit {0}) × Sent)
    → IsMail s r.1
    → IsMail s (continue (λ _. pure tt) r).1
then_nothing s (ok _, s') h = h
then_nothing s (err _, s') h = h

dispatch-IsMail : (p : Providers) (e : RelayedEvent) (s : Sent) → IsMail s (dispatch p e s).1
unfolding dispatch
dispatch-IsMail p e s = elim (Bool-cases (e.type == "order.confirmed.v1")) [
  | inl a ↦ rw a (send_email-IsMail p _ s)
  | inr a ↦ elim (Bool-cases (e.type == "order.cancelled.v1")) [
    | inl b ↦ rw (a, b) (send_email-IsMail p _ s)
    | inr b ↦ elim (Bool-cases (e.type == "payment.declined.v1")) [
      | inl c ↦ rw (a, b, c) (then_nothing s (send_email p _ s) (send_email-IsMail p _ s))
      | inr c ↦ rw (a, b, c) (omega arith, refl)
    ]
  ]
]

caught :
    (offset : ℕ) (s : ConsumerState Sent) (r : Result Error (Unit {0}) × Sent)
    → continue
        (λ _. commit_offset offset)
        (let (x, t) = handle (λ _. pure tt) r in (x, record s { tables = t }))
      ≡ (ok tt, record { tables = r.1; committed = some (offset + 1) })
caught offset s (ok _, t) = refl
caught offset s (err _, t) = refl

-- A message with an envelope is committed.
of_envelope :
    (p : Providers) (m : KafkaMessage Body) (s : ConsumerState Sent) (v : Option Body)
    (e : RelayedEvent)
    → v ≡ some (envelope e)
    → each_message p (record m { value = v }) s
      ≡ (ok tt, record { tables = (dispatch p e s.tables).1; committed = some (m.offset + 1) })
unfolding each_message
of_envelope p m s none e h = cc
of_envelope p m s (some unparseable) e h = cc
of_envelope p m s (some null) e h = cc
of_envelope p m s (some (envelope x)) e h =
    let same : x ≡ e = cc in rw (← same) (caught m.offset s (dispatch p x s.tables))

-- A message with an envelope is always committed and never throws, whatever the providers do.
pub each_message-commits :
    (p : Providers) (m : KafkaMessage Body) (s : ConsumerState Sent) (e : RelayedEvent)
    → m.value ≡ some (envelope e)
    → ((each_message p m s).0 ≡ ok tt) × ((each_message p m s).1.committed ≡ some (m.offset + 1))
each_message-commits p m s e h =
    let step = of_envelope p m s m.value e h in (ap (λ r. r.0) step, ap (λ r. r.1.committed) step)

of_body :
    (p : Providers) (m : KafkaMessage Body) (s : ConsumerState Sent) (v : Option Body)
    → IsMail s.tables (each_message p (record m { value = v }) s).1.tables
unfolding each_message
of_body p m s none = (omega arith, refl)
of_body p m s (some unparseable) = (omega arith, refl)
of_body p m s (some null) = (omega arith, refl)
of_body p m s (some (envelope e)) =
    rw (caught m.offset s (dispatch p e s.tables)) (dispatch-IsMail p e s.tables)

-- However many messages are delivered, whatever they hold and whatever the providers do, no text
-- message is ever sent, also for a declined payment, and no more e-mails than there were deliveries.
pub run-IsMail :
    (deliveries : List (Providers × KafkaMessage Body)) (s : ConsumerState Sent)
    → ((run deliveries s).tables.texts ≡ s.tables.texts)
      × (length (run deliveries s).tables.emails ≤ length s.tables.emails + length deliveries)
unfolding run
run-IsMail [] s = (refl, omega arith)
run-IsMail ((p, m) ∷ rest) s =
    let (few, same) = of_body p m s m.value in
    let (texts, emails) = run-IsMail rest (each_message p m s).1 in (texts ∙ same, omega arith)

of_poison :
    (p : Providers) (m : KafkaMessage Body) (s : ConsumerState Sent) (v : Option Body)
    → (v ≡ some unparseable) ⊎ (v ≡ some null)
    → (each_message p (record m { value = v }) s).1 ≡ s
unfolding each_message
of_poison p m s none h = ground arith
of_poison p m s (some unparseable) h = refl
of_poison p m s (some null) h = refl
of_poison p m s (some (envelope e)) h = ground arith

-- A value that is not JSON, and the JSON text `null`, are never committed, however often the message
-- is delivered again.
pub run-blocked :
    (m : KafkaMessage Body) (tries : List Providers) (s : ConsumerState Sent)
    → (m.value ≡ some unparseable) ⊎ (m.value ≡ some null)
    → run (map (λ p. (p, m)) tries) s ≡ s
unfolding run
run-blocked m [] s h = refl
run-blocked m (p ∷ rest) s h =
    ap (run (map (λ q. (q, m)) rest)) (of_poison p m s m.value h) ∙ run-blocked m rest s h
