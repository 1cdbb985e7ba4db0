-- ===== src/Payment/Service.antt =====
-- services/payment/internal/service/payment_service.go.
use msa_saga_go_practical.Prelude.{
  ℕ, Bool, not, Option, none, some, List, [], ◌∷◌, ◌++◌, ltb, if◌then◌else◌,
}
use msa_saga_go_practical.Prelude.Int.{ℤ, pos}
use msa_saga_go_practical.Prelude.Text.{Text, text}
use msa_saga_go_practical.Prelude.Decimal.{decimal, decimal_ℤ, dashed}
use msa_saga_go_practical.Common.Errors.{Error, ErrorCode, error_text}
use msa_saga_go_practical.Common.Events.{
  EventType, new_base, OrderCreatedEvent, PaymentCompletedEvent, PaymentFailedEvent,
  PaymentRefundedEvent, StockReservationFailedEvent,
}
use msa_saga_go_practical.Common.Wire.{Event}
use msa_saga_go_practical.Common.Result.{Result, ok, err}
use msa_saga_go_practical.Store.Session.{
  Session, Env, M, pure, raise, lift, ◌>>=◌, ◌>>◌, fail_if, on_error, transaction, commit,
}
use msa_saga_go_practical.Store.Outbox.{new_outbox_event, insert_tx}
use msa_saga_go_practical.Payment.Domain.{Payment, completed, refunded, status_eq}
use msa_saga_go_practical.Payment.Repository.{
  create, find_by_id, find_by_order_id, find_by_idempotency_key, update_status,
}

-- What the simulated gateway takes from outside: the number that `rand.Intn(100)` draws, and
-- `time.Now().Unix()`.
pub record Gateway : Type 0 where
  pub roll : ℕ
  pub unix : ℕ

pub record PaymentResult : Type 0 where
  pub transaction_id : Text
  pub status : Text

abbrev pub database_error : Text → Error → Error
database_error message = Error.wrap ErrorCode.database_error message

abbrev pub marshal_error : Error
marshal_error =
    Error.wrap ErrorCode.serialization_error (text "failed to marshal event") Error.driver

abbrev pub declined_error : Error
declined_error = Error.new ErrorCode.payment_declined (text "payment declined by gateway")

-- `processPayment`
unfoldable pub process_payment : Gateway → ℤ → Result PaymentResult
process_payment gateway order_id =
    if ltb gateway.roll 10
    then err declined_error
    else ok (record {
      transaction_id = text "PG-TXN-" ++ (decimal_ℤ order_id ++ (b'-' ∷ decimal gateway.unix));
      status = text "SUCCESS";
    })

-- `fmt.Sprintf("payment-%d-%s", evt.OrderID, evt.EventID)`
unfoldable pub payment_key : OrderCreatedEvent → Text
payment_key evt = text "payment-" ++ dashed evt.order_id evt.base.event_id

-- The payment that `HandleOrderCreated` builds; the INSERT gives the id.
abbrev pub new_payment : OrderCreatedEvent → PaymentResult → ℕ → Payment
new_payment evt result now = record {
  id = pos 0;
  order_id = evt.order_id;
  amount = evt.amount;
  payment_type = text "CARD";
  status = completed;
  idempotency_key = payment_key evt;
  payment_gateway_tx_id = result.transaction_id;
  reason = [];
  created_at = now;
  updated_at = now;
}

abbrev pub payment_completed_event : Env → OrderCreatedEvent → Payment → PaymentCompletedEvent
payment_completed_event env evt payment = record {
  base = new_base EventType.payment_completed env.event_id env.now evt.base.correlation_id;
  order_id = evt.order_id;
  payment_id = payment.id;
  amount = payment.amount;
  payment_type = payment.payment_type;
}

abbrev pub payment_failed_event : Env → OrderCreatedEvent → Text → PaymentFailedEvent
payment_failed_event env evt reason = record {
  base = new_base EventType.payment_failed env.event_id env.now evt.base.correlation_id;
  order_id = evt.order_id;
  reason = reason;
}

abbrev pub payment_refunded_event :
    Env → StockReservationFailedEvent → Payment → PaymentRefundedEvent
payment_refunded_event env evt payment = record {
  base = new_base EventType.payment_refunded env.event_id env.now evt.base.correlation_id;
  order_id = evt.order_id;
  payment_id = payment.id;
  amount = payment.amount;
}

-- The end of each handler: marshal the event, insert it on the transaction, commit.
announce : Env → ℤ → EventType → Event → M (List Payment) (Unit {0})
unfolding insert_tx
announce env aggregate_id type event = do
  fail_if env.faults.marshal marshal_error
  on_error (database_error (text "failed to insert outbox event")) (
      insert_tx env.faults.insert_event
        (new_outbox_event (text "payment") aggregate_id type event env.now))
  on_error (database_error (text "failed to commit transaction")) (commit env.faults.commit)

-- `publishPaymentFailed`, which returns an error also when it has committed.
publish_payment_failed : Env → OrderCreatedEvent → Text → M (List Payment) (Unit {0})
unfolding announce
publish_payment_failed env evt reason = do
  announce env evt.order_id EventType.payment_failed
      (Event.payment_failed (payment_failed_event env evt reason))
  raise (Error.errorf (text "payment failed: " ++ reason))

-- The part of `HandleOrderCreated` after a successful payment. The payment goes to the pool, and only
-- the event to the transaction.
record_payment : Env → OrderCreatedEvent → PaymentResult → M (List Payment) (Unit {0})
unfolding create announce
record_payment env evt result = do
  payment ←
      on_error (database_error (text "failed to create payment"))
        (create env.faults.create (new_payment evt result env.now))
  announce env payment.id EventType.payment_completed
      (Event.payment_completed (payment_completed_event env evt payment))

charge : Gateway → Env → OrderCreatedEvent → M (List Payment) (Unit {0})
unfolding process_payment publish_payment_failed record_payment error_text
charge gateway env evt = elim (process_payment gateway evt.order_id) [
  | ok result ↦ record_payment env evt result
  | err e ↦ publish_payment_failed env evt (error_text env.driver_text e)
]

-- The payment that an earlier run for the same event has made. Any error of the query counts as
-- "there is none".
unfoldable pub existing_payment : Env → OrderCreatedEvent → Session (List Payment) → Option Payment
unfolding find_by_idempotency_key
existing_payment env evt s =
    elim ((find_by_idempotency_key env.faults.find_key (payment_key evt) s).0) [
      | ok p ↦ some p
      | err _ ↦ none
    ]

unfoldable pub handle_order_created :
    Gateway → Env → OrderCreatedEvent → M (List Payment) (Unit {0})
unfolding existing_payment charge
handle_order_created gateway env evt s = elim (existing_payment env evt s) [
  | some p ↦ (ok tt, s)
  | none ↦
      transaction env.faults.begin
        (database_error (text "failed to begin transaction") Error.driver) (charge gateway env evt)
        s
]

-- `refundPayment`: the simulated gateway always accepts.
refund_payment : Payment → Result (Unit {0})
refund_payment payment = ok tt

-- The part of `HandleStockReservationFailed` inside the transaction. The status goes to the pool, and
-- only the event to the transaction.
refund_body : Env → StockReservationFailedEvent → Payment → M (List Payment) (Unit {0})
unfolding refund_payment update_status announce
refund_body env evt payment = do
  lift (refund_payment payment)
  on_error (database_error (text "failed to update payment status"))
      (update_status env.faults.update env.now payment.id refunded evt.reason)
  announce env payment.id EventType.payment_refunded
      (Event.payment_refunded (payment_refunded_event env evt payment))

-- A payment that is already refunded is skipped.
unfoldable pub refund_if :
    Bool → Env → StockReservationFailedEvent → Payment → M (List Payment) (Unit {0})
unfolding refund_body
refund_if wanted env evt payment =
    if wanted
    then transaction env.faults.begin
        (database_error (text "failed to begin transaction") Error.driver)
        (refund_body env evt payment)
    else pure tt

unfoldable pub handle_stock_reservation_failed :
    Env → StockReservationFailedEvent → M (List Payment) (Unit {0})
unfolding find_by_order_id refund_if
handle_stock_reservation_failed env evt = do
  payment ← find_by_order_id env.faults.find evt.order_id
  refund_if (not (status_eq payment.status refunded)) env evt payment

unfoldable pub get_payment : ℤ → Env → M (List Payment) Payment
unfolding find_by_id
get_payment id env = find_by_id env.faults.find id
