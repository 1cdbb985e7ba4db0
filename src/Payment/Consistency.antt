-- ===== src/Payment/Consistency.antt =====
-- The invariant of the payments' table, which the functions of
-- services/payment/internal/service/payment_service.go keep whatever call fails in them.
use msa_saga_go_practical.Prelude.{
  ℕ, suc, ◌≤◌, ◌≡◌, ◌⊎◌, refl, none, List, [], ◌∷◌, arith, inl, inr,
}
use msa_saga_go_practical.Prelude.Int.{pos, pos_part, eq_ℤ_iff, int_eq}
use msa_saga_go_practical.Prelude.Text.{text_Eq}
use msa_saga_go_practical.Common.Events.{OrderCreatedEvent, StockReservationFailedEvent}
use msa_saga_go_practical.Store.Table.{
  find, insert, All, All-map, All-insert, All-update, Distinct, Distinct-insert, Distinct-update,
}
use msa_saga_go_practical.Store.Session.{Session, Env}
use msa_saga_go_practical.Payment.Domain.{Payment, PaymentStatus, completed, refunded}
use msa_saga_go_practical.Payment.Repository.{has_id, has_key, set_status}
use msa_saga_go_practical.Payment.Service.{
  Gateway, payment_key, handle_order_created, handle_stock_reservation_failed,
}
use msa_saga_go_practical.Payment.Charging.{paid}
use msa_saga_go_practical.Payment.Refund.{after_refund}
use msa_saga_go_practical.Payment.Provenance.{handle_stock_reservation_failed-Outcome}

-- A payment is COMPLETED or REFUNDED, and has an id that the sequence has given.
abbrev pub IsSettled : PaymentStatus → Type 0
IsSettled status = (status ≡ completed) ⊎ (status ≡ refunded)

abbrev pub IsRow : ℕ → Payment → Type 0
IsRow n p = (pos_part p.id ≤ n) × IsSettled p.status

pub record IsConsistent (n : ℕ) (t : List Payment) : Type 0 where
  pub rows : All (IsRow n) t
  pub ids : Distinct (λ (p : Payment). p.id) t
  pub keys : Distinct (λ (p : Payment). p.idempotency_key) t

abbrev pub HoldsIn : Session (List Payment) → Type 0
HoldsIn s = IsConsistent s.serial s.committed.tables

unused_id : (n : ℕ) (t : List Payment) → All (IsRow n) t → find (has_id (pos (suc n))) t ≡ none
unfolding find
unused_id n [] h = refl
unused_id n (p ∷ t) h = ground (arith, eq_ℤ_iff p.id (pos (suc n)), unused_id n t h.1)

-- `HandleOrderCreated` leaves the table and moves the sequence, or inserts the payment of a new key.
abbrev TableOutcome :
    Gateway → Env → OrderCreatedEvent → Session (List Payment) → Session (List Payment) → Type 0
TableOutcome gateway env evt s s' =
    ((s'.committed.tables ≡ s.committed.tables) × (s.serial ≤ s'.serial))
    ⊎ ((find (has_key (payment_key evt)) s.committed.tables ≡ none)
        × (s'.committed.tables ≡ insert (paid gateway env evt s) s.committed.tables)
        × (s'.serial ≡ suc s.serial))

charge_table :
    (gateway : Gateway) (env : Env) (evt : OrderCreatedEvent) (s : Session (List Payment))
    → TableOutcome gateway env evt s (handle_order_created gateway env evt s).1
unfolding handle_order_created
charge_table gateway env evt s = ground arith

weaken : {n k : ℕ} {t : List Payment} → n ≤ k → IsConsistent n t → IsConsistent k t
weaken {n} {k} {t} le h = record {
  rows = All-map (IsRow n) (IsRow k) t (λ p r. (omega arith, r.1)) h.rows;
  ids = h.ids;
  keys = h.keys;
}

insert-IsConsistent :
    (n : ℕ) (p : Payment) (t : List Payment)
    → p.id ≡ pos (suc n)
    → IsSettled p.status
    → find (has_key p.idempotency_key) t ≡ none
    → IsConsistent n t
    → IsConsistent (suc n) (insert p t)
insert-IsConsistent n p t id status key h = record {
  rows =
      All-insert (IsRow (suc n)) p t (weaken {k = suc n} (omega arith) h).rows
        (rw id (omega arith), status);
  ids = Distinct-insert (λ (r : Payment). r.id) p t h.ids (rw id (unused_id n t h.rows));
  keys = Distinct-insert (λ (r : Payment). r.idempotency_key) p t h.keys key;
}

-- Whatever call fails and whatever the gateway draws, `HandleOrderCreated` keeps the payments
-- consistent: every id was given by the sequence, every payment is COMPLETED or REFUNDED, and no two
-- payments have the same id or the same key, so that no order event has two payments.
pub handle_order_created-IsConsistent :
    (gateway : Gateway) (env : Env) (evt : OrderCreatedEvent) (s : Session (List Payment))
    → HoldsIn s
    → HoldsIn (handle_order_created gateway env evt s).1
handle_order_created-IsConsistent gateway env evt s h = elim (charge_table gateway env evt s) [
  | inl (same, le) ↦ rw same (weaken le h)
  | inr (key, tables, serial) ↦
      rw (tables, serial)
        (insert-IsConsistent s.serial (paid gateway env evt s) s.committed.tables refl (inl refl)
          key h)
]

refund-IsConsistent :
    (env : Env) (evt : StockReservationFailedEvent) (n : ℕ) (p : Payment) (t : List Payment)
    → IsConsistent n t
    → IsConsistent n (after_refund env evt p t)
refund-IsConsistent env evt n p t h =
    let g : Payment → Payment = set_status refunded evt.reason env.now in
    record {
      rows = All-update (IsRow n) (has_id p.id) g t (λ r k. (k.0, inr refl)) h.rows;
      ids = Distinct-update (λ (r : Payment). r.id) (has_id p.id) g t (λ r. refl) h.ids;
      keys =
          Distinct-update (λ (r : Payment). r.idempotency_key) (has_id p.id) g t (λ r. refl) h.keys;
    }

refund_serial :
    (env : Env) (evt : StockReservationFailedEvent) (s : Session (List Payment))
    → (handle_stock_reservation_failed env evt s).1.serial ≡ s.serial
unfolding handle_stock_reservation_failed
refund_serial env evt s = ground arith

-- The same of `HandleStockReservationFailed`.
pub handle_stock_reservation_failed-IsConsistent :
    (env : Env) (evt : StockReservationFailedEvent) (s : Session (List Payment))
    → HoldsIn s
    → HoldsIn (handle_stock_reservation_failed env evt s).1
handle_stock_reservation_failed-IsConsistent env evt s h =
    elim (handle_stock_reservation_failed-Outcome env evt s) [
      | inl same ↦ rw (refund_serial env evt s, same) h
      | inr (p, _, tables, _) ↦
          rw (refund_serial env evt s, tables)
            (refund-IsConsistent env evt s.serial p s.committed.tables h)
    ]
