-- ===== src/Order/Http.antt =====
-- services/order/internal/handler/http_handler.go: the answers to the requests for orders.
use msa_saga_go_practical.Prelude.{
  ℕ, zero, suc, refl, ◌+◌, ◌-◌, ◌*◌, ◌≡◌, ◌⊎◌, none, some, Option, List, [], ◌∷◌, leb, ◌&&◌,
  if◌then◌else◌,
}
use msa_saga_go_practical.Prelude.Int.{ℤ, pos, negsuc, ◌≤ℤ◌}
use msa_saga_go_practical.Prelude.Text.{Text, text}
use msa_saga_go_practical.Common.Errors.{ErrorCode, error_text}
use msa_saga_go_practical.Common.Result.{Result, ok, err, ◌>>=◌}
use msa_saga_go_practical.Common.Wire.{Payload, read_num, read_str}
use msa_saga_go_practical.Common.Decode.{members}
use msa_saga_go_practical.Store.Table.{find}
use msa_saga_go_practical.Store.Session.{Session, Env}
use msa_saga_go_practical.Order.Domain.{
  Order, OrderStatus, pending, payment_processing, stock_reserving, delivery_preparing, completed,
  canceled, failed,
}
use msa_saga_go_practical.Order.Repository.{has_key}
use msa_saga_go_practical.Order.Service.{
  CreateOrderCommand, CreateOrderResult, create_order, get_order,
}
use msa_saga_go_practical.Order.Creation.{HasCode, create_order_invalid}

pub data Method : Type 0 where
  get post other : Method

pub record CreateOrderRequest : Type 0 where
  pub user_id : ℤ
  pub amount : ℤ
  pub quantity : ℤ
  pub idempotency_key : Text

-- `CreateOrderResponse`, an order, and `ErrorResponse`, whose code is always empty.
pub data Body : Type 0 where
  created : ℤ → Text → Body
  order : Order → Body
  error : Text → Body

pub record Response : Type 0 where
  pub status : ℕ
  pub body : Body

abbrev pub respond : ℕ → Body → Response
respond status body = record { status = status; body = body }

-- `string(status)`
unfoldable pub status_text : OrderStatus → Text
unfolding text
status_text pending = text "PENDING"
status_text payment_processing = text "PAYMENT_PROCESSING"
status_text stock_reserving = text "STOCK_RESERVING"
status_text delivery_preparing = text "DELIVERY_PREPARING"
status_text completed = text "COMPLETED"
status_text canceled = text "CANCELED"
status_text failed = text "FAILED"

-- `json.NewDecoder(r.Body).Decode(&req)`
unfoldable pub decode_request : Payload → Result CreateOrderRequest
unfolding read_num read_str
decode_request p = do
  m ← members p
  user_id ← read_num "userId" m
  amount ← read_num "amount" m
  quantity ← read_num "quantity" m
  key ← read_str "idempotencyKey" m
  ok (record { user_id = user_id; amount = amount; quantity = quantity; idempotency_key = key })

-- A request without a key gets a fresh one.
abbrev pub key_or : Text → Text → Text
key_or fresh [] = fresh
key_or fresh key = key

abbrev pub command_of : Text → CreateOrderRequest → CreateOrderCommand
command_of fresh req = record {
  user_id = req.user_id;
  amount = req.amount;
  quantity = req.quantity;
  idempotency_key = key_or fresh req.idempotency_key;
}

abbrev pub answer : Env → Result CreateOrderResult → Response
answer env (ok result) = respond 201 (created result.order_id (status_text result.status))
answer env (err e) = respond 500 (error (error_text env.driver_text e))

-- The part of `CreateOrder` of the handler after the test of the method.
unfoldable pub create_decoded :
    Text → Env → Result CreateOrderRequest → Session (List Order) → Response × Session (List Order)
create_decoded fresh env (err e) s = (respond 400 (error (text "invalid request body")), s)
create_decoded fresh env (ok req) s =
    let (r, s') = create_order (command_of fresh req) env s in (answer env r, s')

-- `HTTPHandler.CreateOrder`, with the key that `uuid.New` gives.
unfoldable pub post_order :
    Text → Env → Method → Payload → Session (List Order) → Response × Session (List Order)
post_order fresh env post body s = create_decoded fresh env (decode_request body) s
post_order fresh env _ body s = (respond 405 (error (text "method not allowed")), s)

-- `strconv.ParseInt(s, 10, 64)`: a sign, digits, and the range of int64.
unfoldable pub digits_value : ℕ → Text → Option ℕ
digits_value acc [] = some acc
digits_value acc (c ∷ cs) =
    let rest = digits_value (acc * 10 + (c - 48)) cs in if leb 48 c && leb c 57 then rest else none

abbrev pub in_range : (ℕ → ℤ) → ℕ → ℕ → Option ℤ
in_range sign limit n = if leb n limit then some (sign n) else none

abbrev pub negate : ℕ → ℤ
negate zero = pos 0
negate (suc n) = negsuc n

unfoldable pub unsigned_value : (ℕ → ℤ) → ℕ → Text → Option ℤ
unfolding digits_value
unsigned_value sign limit [] = none
unsigned_value sign limit cs = elim (digits_value 0 cs) [
  | some n ↦ in_range sign limit n
  | none ↦ none
]

unfoldable pub parse_int : Text → Option ℤ
unfolding unsigned_value
parse_int [] = none
parse_int (c ∷ cs) =
    if leb c 45 && leb 45 c
    then unsigned_value negate 9223372036854775808 cs
    else if leb c 43 && leb 43 c
    then unsigned_value pos 9223372036854775807 cs
    else unsigned_value pos 9223372036854775807 (c ∷ cs)

abbrev pub found : Result Order → Response
found (ok o) = respond 200 (order o)
found (err e) = respond 404 (error (text "order not found"))

-- `HTTPHandler.GetOrder`, with the path after `/orders/`.
unfoldable pub get_order_by_path :
    Env → Method → Text → Session (List Order) → Response × Session (List Order)
unfolding get_order parse_int
get_order_by_path env get path s = elim (parse_int path) [
  | none ↦ (respond 400 (error (text "invalid order ID")), s)
  | some id ↦ let (r, s') = get_order id env s in (found r, s')
]
get_order_by_path env _ path s = (respond 405 (error (text "method not allowed")), s)

fails_500 :
    (code : ErrorCode) (env : Env) (r : Result CreateOrderResult)
    → HasCode code r
    → (answer env r).status ≡ 500
fails_500 code env (ok result) h = elim h [ ]
fails_500 code env (err e) h = refl

-- A POST whose body decodes to an amount or a quantity that is not positive, with a new key, is
-- answered with the status 500, as a fault of the server, and nothing changes.
pub post_order_invalid :
    (fresh : Text) (env : Env) (body : Payload) (req : CreateOrderRequest)
    (s : Session (List Order))
    → decode_request body ≡ ok req
    → find (has_key (key_or fresh req.idempotency_key)) s.committed.tables ≡ none
    → (req.amount ≤ℤ pos 0) ⊎ (req.quantity ≤ℤ pos 0)
    → let (answered, s') = post_order fresh env post body s in (answered.status ≡ 500) × (s' ≡ s)
unfolding post_order create_decoded
post_order_invalid fresh env body req s decoded new bad =
    let (code, same) = create_order_invalid (command_of fresh req) env s new bad in
    rw decoded (
      fails_500 ErrorCode.invalid_order env (create_order (command_of fresh req) env s).0 code,
      same,
    )
