-- ===== src/Notification/Consumer.antt =====
-- apps/notification-service/src/kafka/notification-consumer.controller.ts, on the messages that the
-- outbox relays send.
use kafka_ledger_saga.Base.{
  ℕ, String, Option, none, some, List, [], ◌∷◌, Action, pure, raise, catch, ◌>>◌, ◌==◌,
  if◌then◌else◌,
}
use kafka_ledger_saga.Contracts.{Fields, field}
use kafka_ledger_saga.Errors.{Error, failure}
use kafka_ledger_saga.Kafka.{ConsumerState, KafkaMessage, on_tables, commit_offset}
use kafka_ledger_saga.Outbox.Relay.{RelayedEvent}
use kafka_ledger_saga.Notification.Channels.{
  Providers, Sent, resolve, order_confirmed_email, order_cancelled_email, payment_issue_email,
  payment_declined_sms, send_email, send_sms,
}

-- The value of a message: text that is not JSON, the JSON text `null`, or an envelope.
pub data Body : Type 0 where
  unparseable : Body
  null : Body
  envelope : RelayedEvent → Body

abbrev text_too : Providers → Option String → Fields → Action Error Sent (Unit {0})
text_too p none payload = pure tt
text_too p (some phone) payload =
    if phone == "" then pure tt else send_sms p (payment_declined_sms phone payload)

-- `NotificationKafkaConsumer.dispatch`
unfoldable pub dispatch : Providers → RelayedEvent → Action Error Sent (Unit {0})
unfolding resolve send_email send_sms field
dispatch p e =
    let contact = resolve (field "customerId" e.payload) in
    if e.type == "order.confirmed.v1"
    then send_email p (order_confirmed_email contact.email e.payload)
    else if e.type == "order.cancelled.v1"
    then send_email p (order_cancelled_email contact.email e.payload)
    else if e.type == "payment.declined.v1"
    then (do
      send_email p (payment_issue_email contact.email e.payload)
      text_too p contact.phone e.payload)
    else pure tt

-- The body of `eachMessage` after the test for an empty value. JSON.parse stands before the try; for
-- `null` the catch throws once more, since it reads the type of the envelope for its message.
abbrev on_body : Providers → ℕ → Body → Action Error (ConsumerState Sent) (Unit {0})
on_body p offset unparseable = raise (failure "SyntaxError")
on_body p offset null = raise (failure "TypeError")
on_body p offset (envelope e) = do
  on_tables (catch (dispatch p e) (λ _. pure tt))
  commit_offset offset

abbrev on_value : Providers → ℕ → Option Body → Action Error (ConsumerState Sent) (Unit {0})
on_value p offset none = pure tt
on_value p offset (some body) = on_body p offset body

-- `eachMessage` of NotificationKafkaConsumer
unfoldable pub each_message :
    Providers → KafkaMessage Body → Action Error (ConsumerState Sent) (Unit {0})
unfolding dispatch
each_message p m = on_value p m.offset m.value

unfoldable pub run : List (Providers × KafkaMessage Body) → ConsumerState Sent → ConsumerState Sent
unfolding each_message
run [] s = s
run ((p, m) ∷ rest) s = run rest (each_message p m s).1
