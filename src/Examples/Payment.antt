-- ===== src/Examples/Payment.antt =====
-- Runs of services/payment/.
use msa_saga_go_practical.Prelude.{
  ◌≤◌, ◌≡◌, refl, none, some, List, [], ◌∷◌, arith, inl, inr, length,
}
use msa_saga_go_practical.Prelude.Int.{pos, eq_ℤ, int_eq}
use msa_saga_go_practical.Prelude.Text.{text, text_eq, text_Eq}
use msa_saga_go_practical.Prelude.Decimal.{dashed}
use msa_saga_go_practical.Common.Events.{EventType, OrderCreatedEvent, StockReservationFailedEvent}
use msa_saga_go_practical.Common.Result.{ok}
use msa_saga_go_practical.Store.Table.{find, update}
use msa_saga_go_practical.Store.Session.{OutboxEvent, Session, pending}
use msa_saga_go_practical.Payment.Domain.{Payment, completed, refunded}
use msa_saga_go_practical.Payment.Repository.{has_key, has_order, newest, set_status}
use msa_saga_go_practical.Payment.Service.{
  Gateway, payment_key, handle_order_created, handle_stock_reservation_failed,
}
use msa_saga_go_practical.Payment.Charging.{
  payment_key-injective, paid, paid_event, handle_order_created_charges,
  handle_order_created_retry_silent,
}
use msa_saga_go_practical.Payment.Refund.{refund_event, handle_stock_reservation_failed_refunds}
use msa_saga_go_practical.Payment.Consistency.{HoldsIn, handle_order_created-IsConsistent}
use msa_saga_go_practical.Common.Messaging.{Producer, ProducerMessage}
use msa_saga_go_practical.Common.Wire.{object}
use msa_saga_go_practical.Store.Rows.{Answers}
use msa_saga_go_practical.Store.Batch.{all_answered}
use msa_saga_go_practical.Store.Worker.{Signal, tick, canceled, no_key, start}
use msa_saga_go_practical.Store.Running.{pass_of}
use msa_saga_go_practical.Payment.Worker.{lenient, start_outbox_worker, start_outbox_worker-start}
use msa_saga_go_practical.Examples.{calm, calm_later, lossy, base, over}

abbrev earlier : Payment
earlier = record {
  id = pos 1;
  order_id = pos 1;
  amount = pos 500;
  payment_type = text "CARD";
  status = completed;
  idempotency_key = text "payment-1-x";
  payment_gateway_tx_id = text "PG-TXN-1-1";
  reason = [];
  created_at = 10;
  updated_at = 10;
}

abbrev book : Session (List Payment)
book = over (earlier ∷ [])

-- The draws of a gateway that accepts, and of one that declines.
abbrev lucky : Gateway
lucky = record { roll = 50; unix = 1 }

abbrev unlucky : Gateway
unlucky = record { roll = 3; unix = 1 }

abbrev ordered : OrderCreatedEvent
ordered = record {
  base = base EventType.order_created;
  order_id = pos 2;
  user_id = pos 7;
  amount = pos 300;
  quantity = pos 1;
}

abbrev out_of_stock : StockReservationFailedEvent
out_of_stock = record {
  base = base EventType.stock_reservation_failed;
  order_id = pos 1;
  quantity = pos 1;
  reason = text "insufficient stock";
}

new_key : find (has_key (payment_key ordered)) book.committed.tables ≡ none
unfolding find text_eq text payment_key dashed
new_key = refl

short_key : length (payment_key ordered) ≤ 64
unfolding text payment_key dashed
short_key = omega arith

handle_order_created_charges_example :
    let (r, s') = handle_order_created lucky calm ordered book in
    (r ≡ ok tt)
    × (s'.committed.tables ≡ earlier ∷ paid lucky calm ordered book ∷ [])
    × (s'.committed.outbox ≡ paid_event lucky calm ordered book ∷ [])
handle_order_created_charges_example =
    handle_order_created_charges lucky calm ordered book new_key short_key (omega arith) refl refl
      refl refl refl

handle_order_created_retry_silent_example :
    let (r, s') =
      handle_order_created lucky calm_later ordered
        (handle_order_created lucky lossy ordered book).1 in
    (r ≡ ok tt)
    × (s'.committed.tables ≡ earlier ∷ paid lucky lossy ordered book ∷ [])
    × (s'.committed.outbox ≡ [])
handle_order_created_retry_silent_example =
    handle_order_created_retry_silent lucky lucky lossy calm_later ordered book new_key short_key
      (omega arith) refl refl (inr (inr refl)) refl

newest_found : newest (has_order (pos 1)) book.committed.tables ≡ some earlier
unfolding newest eq_ℤ
newest_found = refl

handle_stock_reservation_failed_refunds_example :
    let (r, s') = handle_stock_reservation_failed calm out_of_stock book in
    (r ≡ ok tt)
    × (s'.committed.tables ≡ set_status refunded (text "insufficient stock") 1000 earlier ∷ [])
    × (s'.committed.outbox ≡ refund_event calm out_of_stock earlier book ∷ [])
unfolding update eq_ℤ
handle_stock_reservation_failed_refunds_example =
    handle_stock_reservation_failed_refunds calm out_of_stock book earlier newest_found refl
      (λ h. cc) refl refl refl refl refl

book-HoldsIn : HoldsIn book
unfolding find
book-HoldsIn = record { rows = ((omega arith, inl refl), tt); ids = (refl, tt); keys = (refl, tt) }

handle_order_created-IsConsistent_example :
    HoldsIn (handle_order_created lucky lossy ordered book).1
handle_order_created-IsConsistent_example =
    handle_order_created-IsConsistent lucky lossy ordered book book-HoldsIn

-- A broker that takes every message, and an outbox with a row that cannot be scanned.
abbrev broker : Producer
broker = record { State = List ProducerMessage; send = λ m l. (ok tt, m ∷ l) }

abbrev unread : OutboxEvent
unread = record {
  id = pos 1;
  aggregate_type = text "payment";
  aggregate_id = pos 7;
  event_type = EventType.payment_completed;
  payload = object [];
  status = pending;
  created_at = 20;
  sent_at = none;
}

abbrev signals : List (Signal Answers)
signals = tick (record (all_answered 50) { scan_fails = λ id. eq_ℤ id (pos 1) }) ∷ canceled ∷ []

start_outbox_worker-start_example :
    start_outbox_worker broker signals (unread ∷ []) []
    ≡ start (pass_of broker no_key lenient) signals (unread ∷ []) []
start_outbox_worker-start_example = start_outbox_worker-start broker signals (unread ∷ []) []

payment_key-injective_example : (pos 2 ≡ pos 2) × (ordered.base.event_id ≡ ordered.base.event_id)
payment_key-injective_example = payment_key-injective ordered ordered refl
