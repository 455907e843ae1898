-- ===== src/Notification/Channels.antt =====
-- apps/notification-service/src/channels: messages, templates, and the contact of a customer. The
-- real providers are SendGrid and Twilio; each send is answered by the world.
use Prim.Native.String.{◌++◌}
use kafka_ledger_saga.Base.{
  ℕ, ◌+◌, String, Bool, Option, none, List, [], ◌∷◌, ok, err, Action, if◌then◌else◌,
}
use mathlib.Core.List
use kafka_ledger_saga.Base.Decimal.{decimal}
use kafka_ledger_saga.Base.Int.{pos}
use kafka_ledger_saga.Contracts.{Value, undefined, text, number, items, lines, Fields, field}
use kafka_ledger_saga.Errors.{Error, failure}

pub record EmailMessage : Type 0 where
  pub to : String
  pub subject : String
  pub body : String

pub record SmsMessage : Type 0 where
  pub to : String
  pub body : String

pub record CustomerContact : Type 0 where
  pub email : String
  pub phone : Option String

-- Whether the providers take the n-th send.
pub record Providers : Type 0 where
  pub email_accepts : ℕ → Bool
  pub sms_accepts : ℕ → Bool

-- What the providers took, newest last, and the number of sends that were tried.
pub record Sent : Type 0 where
  pub tries : ℕ
  pub emails : List EmailMessage
  pub texts : List SmsMessage

abbrev pub push {ℓ} : {A : Type ℓ} → List A → A → List A
push xs x = List.◌++◌ xs (x ∷ [])

-- An array of objects in a template text.
abbrev objects {ℓ} : {A : Type ℓ} → List A → String
objects [] = ""
objects (x ∷ []) = "[object Object]"
objects (x ∷ y ∷ ys) = "[object Object]," ++ objects (y ∷ ys)

-- `${v}` in a template text.
unfoldable pub shown : Value → String
unfolding decimal
shown undefined = "undefined"
shown (text s) = s
shown (number n) = decimal (pos n)
shown (items xs) = objects xs
shown (lines xs) = objects xs

-- `CustomerContactResolver.resolve`
unfoldable pub resolve : Value → CustomerContact
unfolding shown
resolve customer_id = record {
  email = shown customer_id ++ "@customers.saganova.example";
  phone = none;
}

-- `orderConfirmedEmail`
unfoldable pub order_confirmed_email : String → Fields → EmailMessage
unfolding shown field
order_confirmed_email to payload = record {
  to = to;
  subject = "Your order " ++ (shown (field "orderId" payload) ++ " is confirmed");
  body =
      "Good news! Your order has been confirmed and payment "
      ++ (shown (field "paymentId" payload)
          ++ " was successful. We'll notify you again once it ships.");
}

abbrev cancelled_body : Value → String
cancelled_body reason =
    "Unfortunately your order could not be completed: "
    ++ (shown reason ++ ". You have not been charged.")

-- `orderCancelledEmail`
unfoldable pub order_cancelled_email : String → Fields → EmailMessage
unfolding shown field
order_cancelled_email to payload = record {
  to = to;
  subject = "Your order " ++ (shown (field "orderId" payload) ++ " was cancelled");
  body = cancelled_body (field "reason" payload);
}

-- The e-mail that `dispatch` puts together for a declined payment.
unfoldable pub payment_issue_email : String → Fields → EmailMessage
unfolding shown field
payment_issue_email to payload = record {
  to = to;
  subject = "Payment issue with order " ++ shown (field "orderId" payload);
  body = cancelled_body (field "reason" payload);
}

-- `paymentDeclinedSms`
unfoldable pub payment_declined_sms : String → Fields → SmsMessage
unfolding shown field
payment_declined_sms to payload = record {
  to = to;
  body =
      "Saganova: your payment for order "
      ++ (shown (field "orderId" payload)
          ++ (" was declined ("
              ++ (shown (field "reason" payload) ++ "). Please update your payment method.")));
}

unfoldable pub send_email : Providers → EmailMessage → Action Error Sent (Unit {0})
send_email p m s =
    if p.email_accepts s.tries
    then (ok tt, record { tries = s.tries + 1; emails = push s.emails m; texts = s.texts })
    else (err (failure "e-mail"), record s { tries = s.tries + 1 })

unfoldable pub send_sms : Providers → SmsMessage → Action Error Sent (Unit {0})
send_sms p m s =
    if p.sms_accepts s.tries
    then (ok tt, record { tries = s.tries + 1; emails = s.emails; texts = push s.texts m })
    else (err (failure "SMS"), record s { tries = s.tries + 1 })
