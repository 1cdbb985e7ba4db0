-- ===== src/Payment/Charging.antt =====
-- What `HandleOrderCreated` of services/payment/internal/service/payment_service.go does: the payment
-- and its event, on every branch of the gateway and of the failures.
use msa_saga_go_practical.Prelude.{
  suc, ◌≤◌, ◌≡◌, ◌∙◌, ap, refl, true, false, none, some, List, ◌∷◌, ◌++◌, arith, ◌⊎◌, length,
}
use msa_saga_go_practical.Prelude.Int.{pos}
use msa_saga_go_practical.Prelude.Text.{text, text_eq_iff}
use msa_saga_go_practical.Prelude.Decimal.{decimal, decimal_ℤ, dashed-injective}
use msa_saga_go_practical.Common.Errors.{error_text}
use msa_saga_go_practical.Common.Events.{EventType, OrderCreatedEvent}
use msa_saga_go_practical.Common.Wire.{Event}
use msa_saga_go_practical.Common.Result.{Result, ok, err}
use msa_saga_go_practical.Store.Table.{find, insert, find-insert_new}
use msa_saga_go_practical.Store.Session.{OutboxEvent, Session, Env}
use msa_saga_go_practical.Store.Outbox.{new_outbox_event}
use msa_saga_go_practical.Payment.Domain.{Payment}
use msa_saga_go_practical.Payment.Repository.{has_key}
use msa_saga_go_practical.Payment.Service.{
  Gateway, PaymentResult, payment_key, new_payment, payment_completed_event, payment_failed_event,
  existing_payment, handle_order_created, declined_error,
}

abbrev pub IsFailure : {A : Type 0} → Result A → Type 0
IsFailure (ok a) = ⊥
IsFailure (err e) = Unit

-- The gateway's answer for the draws that it accepts.
abbrev pub accepted : Gateway → OrderCreatedEvent → PaymentResult
accepted gateway evt = record {
  transaction_id = text "PG-TXN-" ++ (decimal_ℤ evt.order_id ++ (b'-' ∷ decimal gateway.unix));
  status = text "SUCCESS";
}

-- The row that an accepted payment inserts.
abbrev pub paid : Gateway → Env → OrderCreatedEvent → Session (List Payment) → Payment
paid gateway env evt s = record (new_payment evt (accepted gateway evt) env.now) {
  id = pos (suc s.serial);
}

-- The outbox rows of the two events.
abbrev pub paid_event : Gateway → Env → OrderCreatedEvent → Session (List Payment) → OutboxEvent
paid_event gateway env evt s =
    record (new_outbox_event (text "payment") (pos (suc s.serial)) EventType.payment_completed
      (Event.payment_completed (payment_completed_event env evt (paid gateway env evt s)))
      env.now) { id = pos (suc s.outbox_serial) }

abbrev pub failed_event : Env → OrderCreatedEvent → Session (List Payment) → OutboxEvent
failed_event env evt s =
    record (new_outbox_event (text "payment") evt.order_id EventType.payment_failed
      (Event.payment_failed
        (payment_failed_event env evt (error_text env.driver_text declined_error)))
      env.now) { id = pos (suc s.outbox_serial) }

-- Two order events with the same idempotency key are about the same order and have the same id.
pub payment_key-injective :
    (a b : OrderCreatedEvent)
    → payment_key a ≡ payment_key b
    → (a.order_id ≡ b.order_id) × (a.base.event_id ≡ b.base.event_id)
unfolding payment_key text
payment_key-injective a b h =
    dashed-injective a.order_id b.order_id a.base.event_id b.base.event_id (ground arith)

module _ (gateway : Gateway) (env : Env) (evt : OrderCreatedEvent)
    (s : Session (List Payment)) where
  unpaid :
      find (has_key (payment_key evt)) s.committed.tables ≡ none → existing_payment env evt s ≡ none
  unfolding existing_payment
  unpaid h = ground arith

  -- A new order event that the gateway accepts, with no call failing and a key of at most 64 code
  -- points, adds one COMPLETED payment of the order's amount and one PENDING event
  -- `payment.completed.v1` with that payment's id and amount; the handler succeeds.
  pub handle_order_created_charges :
      find (has_key (payment_key evt)) s.committed.tables ≡ none
      → length (payment_key evt) ≤ 64
      → 10 ≤ gateway.roll
      → env.faults.begin ≡ false
      → env.faults.create ≡ false
      → env.faults.marshal ≡ false
      → env.faults.insert_event ≡ false
      → env.faults.commit ≡ false
      → let (r, s') = handle_order_created gateway env evt s in
        (r ≡ ok tt)
        × (s'.committed.tables ≡ insert (paid gateway env evt s) s.committed.tables)
        × (s'.committed.outbox ≡ insert (paid_event gateway env evt s) s.committed.outbox)
  unfolding handle_order_created
  handle_order_created_charges h short roll f1 f2 f3 f4 f5 = ground (arith, unpaid h)

  -- When the payment's row is committed and then the marshalling, the INSERT of the event or the commit
  -- fails, the handler returns an error, the payment stays, and no event is added.
  handle_order_created_unannounced :
      find (has_key (payment_key evt)) s.committed.tables ≡ none
      → length (payment_key evt) ≤ 64
      → 10 ≤ gateway.roll
      → env.faults.begin ≡ false
      → env.faults.create ≡ false
      → (env.faults.marshal ≡ true) ⊎ (env.faults.insert_event ≡ true) ⊎ (env.faults.commit ≡ true)
      → let (r, s') = handle_order_created gateway env evt s in
        IsFailure r
        × (s'.committed.tables ≡ insert (paid gateway env evt s) s.committed.tables)
        × (s'.committed.outbox ≡ s.committed.outbox)
  unfolding handle_order_created
  handle_order_created_unannounced h short roll f1 f2 f = ground (arith, unpaid h)

  -- An order event whose key has a payment is acknowledged, and nothing changes.
  handle_order_created_known :
      (p : Payment)
      → env.faults.find_key ≡ false
      → find (has_key (payment_key evt)) s.committed.tables ≡ some p
      → handle_order_created gateway env evt s ≡ (ok tt, s)
  unfolding handle_order_created
  handle_order_created_known p f h = ground arith

  found_paid :
      find (has_key (payment_key evt)) s.committed.tables ≡ none
      → find (has_key (payment_key evt)) (insert (paid gateway env evt s) s.committed.tables)
        ≡ some (paid gateway env evt s)
  found_paid h =
      find-insert_new (has_key (payment_key evt)) (paid gateway env evt s) s.committed.tables h
        ((text_eq_iff (payment_key evt) (payment_key evt)).1 refl)

module _ (gateway retry : Gateway) (env later : Env) (evt : OrderCreatedEvent)
    (s : Session (List Payment)) (new : find (has_key (payment_key evt)) s.committed.tables ≡ none)
    (short : length (payment_key evt) ≤ 64) where
  -- After a payment that was made and announced, a second delivery of the same order event charges
  -- nothing and changes nothing, whatever the gateway would answer then.
  handle_order_created_repeat :
      10 ≤ gateway.roll
      → env.faults.begin ≡ false
      → env.faults.create ≡ false
      → env.faults.marshal ≡ false
      → env.faults.insert_event ≡ false
      → env.faults.commit ≡ false
      → later.faults.find_key ≡ false
      → let s' = (handle_order_created gateway env evt s).1 in
        handle_order_created retry later evt s' ≡ (ok tt, s')
  handle_order_created_repeat roll f1 f2 f3 f4 f5 g =
      let (_, tables, _) =
        handle_order_created_charges gateway env evt s new short roll f1 f2 f3 f4 f5 in
      handle_order_created_known retry later evt (handle_order_created gateway env evt s).1
        (paid gateway env evt s) g (rw tables (found_paid gateway env evt s new))

  -- When the row of an accepted payment is committed, and then the marshalling, the INSERT of the
  -- event or the commit fails, a second delivery, with its look-up answered, succeeds without an
  -- event: the payment is in the table, and the outbox is as it was before both deliveries.
  pub handle_order_created_retry_silent :
      10 ≤ gateway.roll
      → env.faults.begin ≡ false
      → env.faults.create ≡ false
      → (env.faults.marshal ≡ true) ⊎ (env.faults.insert_event ≡ true) ⊎ (env.faults.commit ≡ true)
      → later.faults.find_key ≡ false
      → let (r, s') =
          handle_order_created retry later evt (handle_order_created gateway env evt s).1 in
        (r ≡ ok tt)
        × (s'.committed.tables ≡ insert (paid gateway env evt s) s.committed.tables)
        × (s'.committed.outbox ≡ s.committed.outbox)
  handle_order_created_retry_silent roll f1 f2 f g =
      let (_, tables, outbox) =
        handle_order_created_unannounced gateway env evt s new short roll f1 f2 f in
      let again =
        handle_order_created_known retry later evt (handle_order_created gateway env evt s).1
          (paid gateway env evt s) g (rw tables (found_paid gateway env evt s new)) in
      (
        ap (λ p. p.0) again,
        ap (λ p. p.1.committed.tables) again ∙ tables,
        ap (λ p. p.1.committed.outbox) again ∙ outbox,
      )
