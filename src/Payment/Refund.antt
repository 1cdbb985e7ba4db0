-- ===== src/Payment/Refund.antt =====
-- The compensation of services/payment/internal/service/payment_service.go
-- (`HandleStockReservationFailed`), and `Refund` of services/payment/internal/domain/payment.go.
use msa_saga_go_practical.Prelude.{
  ℕ, suc, ◌≡◌, ◌≢◌, Bool, not, true, false, some, List, arith, if◌then◌else◌,
}
use msa_saga_go_practical.Prelude.Int.{pos}
use msa_saga_go_practical.Prelude.Text.{Text, text}
use msa_saga_go_practical.Common.Events.{EventType, StockReservationFailedEvent}
use msa_saga_go_practical.Common.Wire.{Event}
use msa_saga_go_practical.Common.Result.{ok}
use msa_saga_go_practical.Store.Table.{update, insert}
use msa_saga_go_practical.Store.Session.{OutboxEvent, Session, Env, >>=-ok}
use msa_saga_go_practical.Store.Outbox.{new_outbox_event}
use msa_saga_go_practical.Payment.Domain.{Payment, refunded, can_refund, refund, status_eq}
use msa_saga_go_practical.Payment.Repository.{
  has_id, has_order, newest, set_status, find_by_order_id,
}
use msa_saga_go_practical.Payment.Service.{
  payment_refunded_event, refund_if, handle_stock_reservation_failed,
}

-- `Refund` is accepted once: exactly a COMPLETED payment is refunded, with the reason and the time
-- given, and is then refused; a refused call leaves the payment as it is.
refund_once :
    (now later : ℕ) (reason again : Text) (p : Payment)
    → let (q, accepted) = refund now reason p in
      (accepted ≡ can_refund p)
      × (accepted ≡ true → q ≡ set_status refunded reason now p)
      × (accepted ≡ false → q ≡ p)
      × (accepted ≡ true → refund later again q ≡ (q, false))
unfolding refund
refund_once now later reason again p =
    (ground arith, λ taken. ground arith, λ refused. ground arith, λ taken. ground arith)

-- The outbox row of the refund.
abbrev pub refund_event :
    Env → StockReservationFailedEvent → Payment → Session (List Payment) → OutboxEvent
refund_event env evt p s =
    record (new_outbox_event (text "payment") p.id EventType.payment_refunded
      (Event.payment_refunded (payment_refunded_event env evt p)) env.now) {
        id = pos (suc s.outbox_serial);
      }

abbrev pub after_refund : Env → StockReservationFailedEvent → Payment → List Payment → List Payment
after_refund env evt p t = update (has_id p.id) (set_status refunded evt.reason env.now) t

module _ (env : Env) (evt : StockReservationFailedEvent) (s : Session (List Payment)) (p : Payment)
    (found : newest (has_order evt.order_id) s.committed.tables ≡ some p)
    (answered : env.faults.find ≡ false) where
  found_newest : find_by_order_id env.faults.find evt.order_id s ≡ (ok p, s)
  unfolding find_by_order_id
  found_newest = rw (answered, found)

  pub refunds_found :
      handle_stock_reservation_failed env evt s
      ≡ refund_if (not (status_eq p.status refunded)) env evt p s
  unfolding handle_stock_reservation_failed
  refunds_found =
      >>=-ok (find_by_order_id env.faults.find evt.order_id)
        (λ payment. refund_if (not (status_eq payment.status refunded)) env evt payment) s
        found_newest

  -- The newest payment of the order, if it is not REFUNDED yet, is set to REFUNDED with the reason of
  -- the event, and one event `payment.refunded.v1` with its id and amount is added, when no call
  -- fails; that the payment was COMPLETED is not asked.
  pub handle_stock_reservation_failed_refunds :
      p.status ≢ refunded
      → env.faults.begin ≡ false
      → env.faults.update ≡ false
      → env.faults.marshal ≡ false
      → env.faults.insert_event ≡ false
      → env.faults.commit ≡ false
      → let (r, s') = handle_stock_reservation_failed env evt s in
        (r ≡ ok tt)
        × (s'.committed.tables ≡ after_refund env evt p s.committed.tables)
        × (s'.committed.outbox ≡ insert (refund_event env evt p s) s.committed.outbox)
  unfolding handle_stock_reservation_failed
  handle_stock_reservation_failed_refunds unpaid f1 f2 f3 f4 f5 = rw refunds_found (ground arith)

-- The row of an UPDATE to REFUNDED.
abbrev written : (Payment → Bool) → Text → ℕ → Payment → Payment
written q reason now p = if q p then set_status refunded reason now p else p
