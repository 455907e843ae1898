-- ===== src/Payment/Gateway.antt =====
-- apps/payment-service/src/infrastructure/gateways: the interface of a payment provider, the mock
-- adapter and the Stripe adapter over Stripe's API, which is a parameter.
use kafka_ledger_saga.Base.{
  ℕ, ◌+◌, String, Bool, true, false, Option, none, some, Result, ok, err, Action, ◌==◌, ◌||◌,
  if◌then◌else◌,
}
use Prim.Native.String.{◌++◌ as join}
use kafka_ledger_saga.Errors.{Error, gateway_unavailable}

pub record AuthorizeParams : Type 0 where
  pub order_id : String
  pub customer_id : String
  pub amount_cents : ℕ
  pub idempotency_key : String

pub record AuthorizeResult : Type 0 where
  pub success : Bool
  pub psp_reference : Option String
  pub decline_code : Option String
  pub reason : Option String

pub record RefundResult : Type 0 where
  pub refund_id : String

-- A provider with a state of its own.
pub record PaymentGateway (G : Type 0) : Type 0 where
  pub authorize : AuthorizeParams → Action Error G AuthorizeResult
  pub refund : String → ℕ → Option String → Action Error G RefundResult

-- `MockStripeAdapter`: its state counts the UUIDs that it has drawn.
abbrev pub mock_stripe_adapter : (ℕ → String) → PaymentGateway ℕ
mock_stripe_adapter uuid = record {
  authorize = λ params n.
      if params.customer_id == "cust_DECLINE"
      then (
        ok (record {
          success = false;
          psp_reference = none;
          decline_code = some "generic_decline";
          reason = some "Your card was declined (simulated by MockStripeAdapter).";
        }),
        n,
      )
      else (
        ok (record {
          success = true;
          psp_reference = some (join "mock_pi_" (uuid n));
          decline_code = none;
          reason = none;
        }),
        n + 1,
      );
  refund = λ psp_reference amount_cents reason n.
      (ok (record { refund_id = join "mock_re_" (uuid n) }), n + 1);
}

pub record PaymentIntent : Type 0 where
  pub id : String
  pub status : String

-- A card error with its codes and message, or any other error of Stripe.
pub data StripeError : Type 0 where
  card_error : Option String → Option String → String → StripeError
  infra_error : StripeError

-- `stripe.paymentIntents.create` and `stripe.refunds.create`, with what the adapter passes on.
pub record StripeApi (G : Type 0) : Type 0 where
  pub create_intent : AuthorizeParams → G → Result StripeError PaymentIntent × G
  pub create_refund : String → ℕ → Option String → G → Result StripeError String × G

-- `err.decline_code ?? err.code ?? 'card_error'`
abbrev pub decline_code_of : Option String → Option String → String
decline_code_of (some decline_code) code = decline_code
decline_code_of none (some code) = code
decline_code_of none none = "card_error"

abbrev of_intent : PaymentIntent → AuthorizeResult
of_intent intent =
    if intent.status == "succeeded" || intent.status == "requires_capture"
    then record {
      success = true;
      psp_reference = some intent.id;
      decline_code = none;
      reason = none;
    }
    else record {
      success = false;
      psp_reference = none;
      decline_code = none;
      reason = some (join "PaymentIntent ended in unhandled status: " intent.status);
    }

abbrev authorize_outcome : Result StripeError PaymentIntent → Result Error AuthorizeResult
authorize_outcome (ok intent) = ok (of_intent intent)
authorize_outcome (err (card_error decline_code code message)) = ok (record {
  success = false;
  psp_reference = none;
  decline_code = some (decline_code_of decline_code code);
  reason = some message;
})
authorize_outcome (err infra_error) = err gateway_unavailable

abbrev refund_outcome : Result StripeError String → Result Error RefundResult
refund_outcome (ok id) = ok (record { refund_id = id })
refund_outcome (err _) = err gateway_unavailable

-- `StripeAdapter`
abbrev pub stripe_adapter : {G : Type 0} → StripeApi G → PaymentGateway G
stripe_adapter api = record {
  authorize = λ params g. let (r, g') = api.create_intent params g in (authorize_outcome r, g');
  refund = λ psp_reference amount_cents reason g.
      let (r, g') = api.create_refund psp_reference amount_cents reason g in (refund_outcome r, g');
}
