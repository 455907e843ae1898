-- ===== src/Gateway/Orders.antt =====
-- apps/api-gateway/src: auth/strategies/jwt.strategy.ts, orders/orders.controller.ts,
-- orders/orders.service.ts and orders/dto/create-order.dto.ts, with the correlation id of
-- libs/common. Passport checks the signature of a token, class-validator the decorators of the DTO.
use kafka_ledger_saga.Base.{
  ℕ, String, Bool, true, false, ◌&&◌, ◌||◌, Option, none, some, List, [], ◌∷◌, Result, ok, err,
  Action, pure, raise, ◌>>◌, ◌==◌, eqb, is_some, if◌then◌else◌,
}
use kafka_ledger_saga.Contracts.{
  CommandEnvelope, create_order_command, make_command, saga_commands_topic,
}
use kafka_ledger_saga.Errors.{Error, not_found, failure}
use kafka_ledger_saga.Kafka.{BrokerOf, Publishable, publish_as}
use kafka_ledger_saga.Base.Int.{ℤ, pos, negsuc, ltb_ℤ}

pub record JwtClaims : Type 0 where
  pub sub : Option String
  pub email : Option String
  pub roles : Option (List String)

pub record AuthenticatedUser : Type 0 where
  pub id : String
  pub email : String
  pub roles : List String

abbrev pub roles_or_none : Option (List String) → List String
roles_or_none none = []
roles_or_none (some roles) = roles

abbrev pub of_claims :
    Option String → Option String → Option (List String) → Result Error AuthenticatedUser
of_claims none email roles = err (failure "Malformed token claims")
of_claims (some id) none roles = err (failure "Malformed token claims")
of_claims (some id) (some email) roles =
    if id == "" || email == ""
    then err (failure "Malformed token claims")
    else ok (record { id = id; email = email; roles = roles_or_none roles })

-- `JwtStrategy.validate`
unfoldable pub validate : JwtClaims → Result Error AuthenticatedUser
validate payload = of_claims payload.sub payload.email payload.roles

-- What a JSON body has where a number is expected: a whole number, a number strictly between n and
-- n + 1, or no number.
pub data JsonNumber : Type 0 where
  whole : ℤ → JsonNumber
  between : ℤ → JsonNumber
  not_number : JsonNumber

-- `none` stands for anything but a string.
pub record CreateOrderItemDto : Type 0 where
  pub sku : Option String
  pub qty : JsonNumber
  pub unit_price_cents : JsonNumber

-- `none` stands for anything but an array.
pub record CreateOrderDto : Type 0 where
  pub items : Option (List CreateOrderItemDto)

-- @IsNumber() and @IsPositive()
abbrev pub is_positive : JsonNumber → Bool
is_positive (whole n) = ltb_ℤ (pos 0) n
is_positive (between (pos _)) = true
is_positive (between (negsuc _)) = false
is_positive not_number = false

-- The decorators of CreateOrderItemDto.
abbrev pub is_valid_item : CreateOrderItemDto → Bool
is_valid_item i = is_some i.sku && (is_positive i.qty && is_positive i.unit_price_cents)

abbrev pub are_valid : List CreateOrderItemDto → Bool
are_valid [] = true
are_valid (i ∷ rest) = is_valid_item i && are_valid rest

-- @IsArray(), @ArrayMinSize(1) and @ValidateNested({ each: true })
abbrev pub is_valid_array : Option (List CreateOrderItemDto) → Bool
is_valid_array none = false
is_valid_array (some []) = false
is_valid_array (some (i ∷ rest)) = are_valid (i ∷ rest)

-- The decorators of CreateOrderDto.
unfoldable pub is_valid : CreateOrderDto → Bool
is_valid dto = is_valid_array dto.items

pub record CreateOrderResult : Type 0 where
  pub order_id : String
  pub correlation_id : String
  pub status : String

-- The clock, the UUIDs that are drawn (0 for the order, 1 for the command, 2 for a request without
-- a correlation id), and what the cluster acknowledges.
pub record GatewayWorld : Type 0 where
  pub now : ℕ
  pub uuid : ℕ → String
  pub accepts : ℕ → Bool

-- The payload of the command, as it is sent.
pub record RequestedOrder : Type 0 where
  pub order_id : String
  pub customer_id : String
  pub items : Option (List CreateOrderItemDto)

abbrev pub Request : Type 0
Request = CommandEnvelope RequestedOrder

abbrev pub request_publishable : Publishable Request
request_publishable = record {
  id_of = λ e. e.id;
  type_of = λ e. e.type;
  correlation_of = λ e. e.correlation_id;
}

-- `OrdersService.createOrder`
unfoldable pub create_order :
    GatewayWorld
    → String
    → CreateOrderDto
    → String
    → Action Error (BrokerOf Request) CreateOrderResult
unfolding make_command publish_as
create_order world customer_id dto correlation_id =
    let order_id = world.uuid 0 in
    let payload : RequestedOrder = record {
      order_id = order_id;
      customer_id = customer_id;
      items = dto.items;
    } in
    let command = make_command (world.uuid 1) world.now (record {
      type = create_order_command;
      correlation_id = correlation_id;
      payload = payload;
      causation_id = none;
      version = none;
    }) in
    do
      publish_as request_publishable world.accepts saga_commands_topic command order_id
          (("x-customer-id", customer_id) ∷ [])
      pure (record { order_id = order_id; correlation_id = correlation_id; status = "ACCEPTED" })

-- `headers['x-correlation-id'] ?? randomUUID()` of CorrelationIdInterceptor.
abbrev pub correlation_of : Option String → String → String
correlation_of none fresh = fresh
correlation_of (some id) fresh = id

abbrev create_for :
    GatewayWorld
    → String
    → CreateOrderDto
    → Result Error AuthenticatedUser
    → Action Error (BrokerOf Request) CreateOrderResult
create_for world correlation_id dto (err e) = raise e
create_for world correlation_id dto (ok user) =
    if is_valid dto
    then create_order world user.id dto correlation_id
    else raise (failure "Validation failed")

-- POST /orders: the guard, the interceptor, the validation pipe and `OrdersController.create`.
unfoldable pub post_order :
    GatewayWorld
    → JwtClaims
    → Option String
    → CreateOrderDto
    → Action Error (BrokerOf Request) CreateOrderResult
unfolding validate is_valid create_order
post_order world claims header dto =
    create_for world (correlation_of header (world.uuid 2)) dto (validate claims)

-- The answer of the orchestrator's read API: a status code with no body, or no answer at all.
pub data HttpError : Type 0 where
  status : ℕ → HttpError
  unreachable : HttpError

-- `OrdersService.getOrderStatus`, over the answer of the orchestrator.
unfoldable pub get_order_status :
    {V : Type 0} → (String → Result HttpError V) → String → Result Error V
get_order_status get order_id = elim (get order_id) [
  | ok view ↦ ok view
  | err unreachable ↦ err (failure "AxiosError")
  | err (status code) ↦
      if eqb code 404 then err (not_found order_id) else err (failure "AxiosError")
]
