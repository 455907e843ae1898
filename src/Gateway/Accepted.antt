-- ===== src/Gateway/Accepted.antt =====
-- What an order that the gateway accepts becomes, and what a rejected one leaves.
use mathlib.Core.Option.{some-injective}
use kafka_ledger_saga.Base.{
  ◌+◌, ◌<◌, String, ◌≡◌, ◌≢◌, refl, ◌⊎◌, inl, inr, true, false, Option, none, some, List, [], ◌∷◌,
  ◌++◌, map, All, Any, arith, Result-cases, ok, err, ◌>>=◌, ◌>>◌,
}
use kafka_ledger_saga.Base.Int.{pos, negsuc, ◌≤ℤ◌}
use kafka_ledger_saga.Contracts.{
  Fields, text, items, CommandEnvelope, OrderLineItem, create_order_command, saga_commands_topic,
  CreateOrderCommandPayload, make_command, field, read_create_order,
}
use kafka_ledger_saga.Errors.{Error, failure}
use kafka_ledger_saga.EventSourcing.{Ambient}
use kafka_ledger_saga.Kafka.{BrokerOf, MessageOf, headers_of, publish_as}
use kafka_ledger_saga.Order.Service.{OrderDb, dispatch, execute_create}
use kafka_ledger_saga.Gateway.Orders.{
  JwtClaims, AuthenticatedUser, validate, of_claims, JsonNumber, whole, between, not_number,
  is_positive, is_valid_item, are_valid, CreateOrderItemDto, CreateOrderDto, is_valid, GatewayWorld,
  Request, request_publishable, create_order, correlation_of, post_order,
}

-- A line as a body has it, when its quantity and its price are whole numbers.
abbrev pub in_body : OrderLineItem → CreateOrderItemDto
in_body i = record {
  sku = some i.sku;
  qty = whole (pos i.qty);
  unit_price_cents = whole (pos i.unit_price_cents);
}

abbrev pub IsPositiveLine : OrderLineItem → Type 0
IsPositiveLine i = (0 < i.qty) × (0 < i.unit_price_cents)

in_body-are_valid :
    (ls : List OrderLineItem) → All IsPositiveLine ls → are_valid (map in_body ls) ≡ true
in_body-are_valid [] h = refl
in_body-are_valid (i ∷ ls) ((q, p), h) = let rest = in_body-are_valid ls h in ground arith

in_body-is_valid :
    (ls : List OrderLineItem)
    → ls ≢ []
    → All IsPositiveLine ls
    → is_valid (record { items = some (map in_body ls) }) ≡ true
unfolding is_valid
in_body-is_valid [] ne h = absurd (ne refl)
in_body-is_valid (i ∷ ls) ne h = in_body-are_valid (i ∷ ls) h

-- The order that such lines ask for.
abbrev pub placed : String → String → List OrderLineItem → CreateOrderCommandPayload
placed order_id customer_id ls = record {
  order_id = order_id;
  customer_id = customer_id;
  items = ls;
}

-- The payload of the order as the order service reads it.
abbrev pub create_order_fields : CreateOrderCommandPayload → Fields
create_order_fields c =
    ("orderId", text c.order_id)
    ∷ ("customerId", text c.customer_id)
    ∷ ("items", items c.items)
    ∷ []

-- The envelope as the order service reads it, with the order that its payload stands for.
abbrev pub received : Request → CreateOrderCommandPayload → CommandEnvelope Fields
received e c = record {
  id = e.id;
  type = e.type;
  version = e.version;
  correlation_id = e.correlation_id;
  causation_id = e.causation_id;
  issued_at = e.issued_at;
  payload = create_order_fields c;
}

module _ (world : GatewayWorld) (claims : JwtClaims) (header : Option String)
    (b : BrokerOf Request) where
  abbrev pub order_id : String
  order_id = world.uuid 0

  abbrev pub correlation_id : String
  correlation_id = correlation_of header (world.uuid 2)

  -- The command of an order with these lines.
  abbrev order_command : AuthenticatedUser → List OrderLineItem → Request
  order_command user ls = make_command (world.uuid 1) world.now (record {
    type = create_order_command;
    correlation_id = correlation_id;
    payload = record { order_id = order_id; customer_id = user.id; items = some (map in_body ls) };
    causation_id = none;
    version = none;
  })

  abbrev order_message : AuthenticatedUser → List OrderLineItem → MessageOf Request
  order_message user ls = record {
    topic = saga_commands_topic;
    key = order_id;
    value = order_command user ls;
    headers =
        headers_of request_publishable (order_command user ls) ++ ("x-customer-id", user.id) ∷ [];
  }

  -- An order of at least one line, whose quantities and prices are whole and positive, by a user with
  -- a valid token, is accepted if its send is acknowledged: one message is sent, on saga.commands
  -- under the order's new id, whose payload has that id, the user as the customer and the lines of
  -- the request. The order service takes it for the CreateOrder command of that order and user, with
  -- these lines and the same correlation id.
  pub post_order-dispatch :
      (user : AuthenticatedUser)
      → validate claims ≡ ok user
      → (ls : List OrderLineItem) → ls ≢ []
      → All IsPositiveLine ls
      → world.accepts b.attempts ≡ true
      → (ambient : Ambient) (db : OrderDb)
      → (m : MessageOf Request) × (post_order world claims header
            (record { items = some (map in_body ls) })
            b
          ≡ (
            ok (record {
              order_id = order_id;
              correlation_id = correlation_id;
              status = "ACCEPTED";
            }),
            record { attempts = b.attempts + 1; sent = b.sent ++ m ∷ [] },
          ))
        × (m.topic ≡ saga_commands_topic)
        × (m.key ≡ order_id)
        × (m.value.payload
            ≡ record { order_id = order_id; customer_id = user.id; items = some (map in_body ls) })
        × (dispatch ambient (received m.value (placed order_id user.id ls)) db
            ≡ execute_create ambient correlation_id (placed order_id user.id ls) db)
  unfolding post_order create_order publish_as make_command dispatch read_create_order field
  post_order-dispatch user known ls ne h acked ambient db = (
    order_message user ls,
    rw (known, in_body-is_valid ls ne h) (rw (acked, ◌>>=◌, ◌>>◌) refl),
    refl,
    refl,
    refl,
    refl,
  )

-- A text that is missing or empty.
abbrev pub IsMissing : Option String → Type 0
IsMissing t = (t ≡ none) ⊎ (t ≡ some "")

-- A number that is zero or below, or no number.
abbrev pub IsNotPositive : JsonNumber → Type 0
IsNotPositive (whole n) = n ≤ℤ pos 0
IsNotPositive (between n) = n ≤ℤ negsuc 0
IsNotPositive not_number = Unit

abbrev pub IsWrongItem : CreateOrderItemDto → Type 0
IsWrongItem i = (i.sku ≡ none) ⊎ (IsNotPositive i.qty ⊎ IsNotPositive i.unit_price_cents)

abbrev pub IsWrongBody : CreateOrderDto → Type 0
IsWrongBody dto =
    (dto.items ≡ none)
    ⊎ (rows : List CreateOrderItemDto) × (dto.items ≡ some rows)
      × ((rows ≡ []) ⊎ Any IsWrongItem rows)

of_claims-err :
    (sub email : Option String) (roles : Option (List String))
    → IsMissing sub ⊎ IsMissing email
    → of_claims sub email roles ≡ err (failure "Malformed token claims")
of_claims-err none email roles h = refl
of_claims-err (some id) none roles h = refl
of_claims-err (some id) (some email) roles (inl (inl e)) = cc
of_claims-err (some id) (some email) roles (inl (inr e)) = rw (some-injective _ _ e) refl
of_claims-err (some id) (some email) roles (inr (inl e)) = cc
of_claims-err (some id) (some email) roles (inr (inr e)) = rw (some-injective _ _ e) (ground arith)

validate-err :
    (claims : JwtClaims)
    → IsMissing claims.sub ⊎ IsMissing claims.email
    → validate claims ≡ err (failure "Malformed token claims")
unfolding validate
validate-err claims h = of_claims-err claims.sub claims.email claims.roles h

IsNotPositive-is_positive : (n : JsonNumber) → IsNotPositive n → is_positive n ≡ false
IsNotPositive-is_positive (whole n) h = ground arith
IsNotPositive-is_positive (between (pos n)) h = absurd (ground arith)
IsNotPositive-is_positive (between (negsuc n)) h = refl
IsNotPositive-is_positive not_number h = refl

IsWrongItem-is_valid_item : (i : CreateOrderItemDto) → IsWrongItem i → is_valid_item i ≡ false
IsWrongItem-is_valid_item i (inl e) = rw e refl
IsWrongItem-is_valid_item i (inr (inl q)) =
    let e = IsNotPositive-is_positive i.qty q in ground arith
IsWrongItem-is_valid_item i (inr (inr p)) =
    let e = IsNotPositive-is_positive i.unit_price_cents p in ground arith

are_valid-wrong : (rows : List CreateOrderItemDto) → Any IsWrongItem rows → are_valid rows ≡ false
are_valid-wrong [] h = absurd h
are_valid-wrong (i ∷ rows) (inl h) = rw (IsWrongItem-is_valid_item i h) refl
are_valid-wrong (i ∷ rows) (inr h) = let rest = are_valid-wrong rows h in ground arith

is_valid-wrong : (dto : CreateOrderDto) → IsWrongBody dto → is_valid dto ≡ false
unfolding is_valid
is_valid-wrong dto (inl e) = rw e refl
is_valid-wrong dto (inr (rows, e, inl f)) = rw (e, f) refl
is_valid-wrong dto (inr ([], e, inr h)) = absurd h
is_valid-wrong dto (inr (i ∷ rows, e, inr h)) = rw e (are_valid-wrong (i ∷ rows) h)

-- A token without a subject or an e-mail address, and a body without an array of items, with no item,
-- or with an item whose sku is no string or whose quantity or price is not a number above zero, are
-- answered with an error, and nothing is sent.
pub post_order-rejected :
    (world : GatewayWorld) (claims : JwtClaims) (header : Option String) (dto : CreateOrderDto)
    (b : BrokerOf Request)
    → (IsMissing claims.sub ⊎ IsMissing claims.email) ⊎ IsWrongBody dto
    → (e : Error) × (post_order world claims header dto b ≡ (err e, b))
unfolding post_order
post_order-rejected world claims header dto b (inl h) =
    (failure "Malformed token claims", rw (validate-err claims h) refl)
post_order-rejected world claims header dto b (inr h) = elim (Result-cases (validate claims)) [
  | inr (e, unknown) ↦ (e, rw unknown refl)
  | inl (user, known) ↦ (failure "Validation failed", rw (known, is_valid-wrong dto h) refl)
]
