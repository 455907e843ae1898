-- ===== src/Gateway/Examples.antt =====
-- The gateway on one order, with and without a good token.
use kafka_ledger_saga.Base.{
  String, ◌≡◌, ◌≢◌, refl, inl, inr, true, none, some, List, [], ◌∷◌, map, ok, err, arith,
}
use kafka_ledger_saga.Base.Int.{pos, negsuc}
use kafka_ledger_saga.Contracts.{OrderLineItem, saga_commands_topic}
use kafka_ledger_saga.Errors.{Error, not_found}
use kafka_ledger_saga.EventSourcing.{Ambient}
use kafka_ledger_saga.Kafka.{BrokerOf, MessageOf}
use kafka_ledger_saga.Order.Service.{OrderDb, dispatch, execute_create}
use kafka_ledger_saga.Gateway.Orders.{
  JwtClaims, AuthenticatedUser, validate, between, whole, CreateOrderDto, is_valid, GatewayWorld,
  Request, post_order, get_order_status, status,
}
use kafka_ledger_saga.Gateway.Accepted.{
  in_body, placed, received, post_order-dispatch, post_order-rejected,
}

abbrev world : GatewayWorld
world = record { now = 7; uuid = λ _. "3f2504e0-4f89-41d3-9a0c-0305e82c3301"; accepts = λ _. true }

abbrev claims : JwtClaims
claims = record {
  sub = some "6ecd8c99-4036-403d-bf84-cf8400f67836";
  email = some "a@example.org";
  roles = none;
}

abbrev user : AuthenticatedUser
user = record { id = "6ecd8c99-4036-403d-bf84-cf8400f67836"; email = "a@example.org"; roles = [] }

abbrev lines : List OrderLineItem
lines = record { sku = "sku-1"; qty = 2; unit_price_cents = 50 } ∷ []

abbrev b : BrokerOf Request
b = record { attempts = 0; sent = [] }

abbrev ambient : Ambient
ambient = record { now = 9; uuid = λ _. "uuid" }

abbrev no_orders : OrderDb
no_orders = record { events = []; outbox = []; projection = [] }

known_user : validate claims ≡ ok user
unfolding validate
known_user = refl

some_lines : lines ≢ []
some_lines e = cc

post_order-dispatch_example :
    (m : MessageOf Request) × (post_order world claims
        (some "correlation")
        (record { items = some (map in_body lines) })
        b
      ≡ (
        ok (record {
          order_id = "3f2504e0-4f89-41d3-9a0c-0305e82c3301";
          correlation_id = "correlation";
          status = "ACCEPTED";
        }),
        record { attempts = 1; sent = m ∷ [] },
      ))
    × (m.topic ≡ saga_commands_topic)
    × (m.key ≡ "3f2504e0-4f89-41d3-9a0c-0305e82c3301")
    × (m.value.payload ≡ record {
      order_id = "3f2504e0-4f89-41d3-9a0c-0305e82c3301";
      customer_id = "6ecd8c99-4036-403d-bf84-cf8400f67836";
      items = some (map in_body lines);
    })
    × (dispatch ambient
          (received m.value (
            placed "3f2504e0-4f89-41d3-9a0c-0305e82c3301" "6ecd8c99-4036-403d-bf84-cf8400f67836"
              lines))
          no_orders
        ≡ execute_create ambient "correlation"
            (placed "3f2504e0-4f89-41d3-9a0c-0305e82c3301" "6ecd8c99-4036-403d-bf84-cf8400f67836"
              lines)
            no_orders)
post_order-dispatch_example =
    post_order-dispatch world claims (some "correlation") b user known_user lines some_lines
      ((omega arith, omega arith), tt) refl ambient no_orders

-- One item whose quantity lies between -1 and 0.
abbrev below_zero : CreateOrderDto
below_zero = record {
  items = some (
      record { sku = some "sku-1"; qty = between (negsuc 0); unit_price_cents = whole (pos 50) }
      ∷ []);
}

post_order-rejected_example : (e : Error) × (post_order world claims none below_zero b ≡ (err e, b))
post_order-rejected_example =
    post_order-rejected world claims none below_zero b
      (inr (inr (_, refl, inr (inl (inr (inl (omega arith)))))))

-- One and a half units are accepted.
fraction :
    is_valid (record {
      items = some (
          record { sku = some "sku-1"; qty = between (pos 1); unit_price_cents = whole (pos 50) }
          ∷ []);
    })
    ≡ true
unfolding is_valid
fraction = refl

missing_order :
    get_order_status {V = String} (λ _. err (status 404)) "21ec2020-3aea-4069-a2dd-08002b30309d"
    ≡ err (not_found "21ec2020-3aea-4069-a2dd-08002b30309d")
unfolding get_order_status
missing_order = refl
